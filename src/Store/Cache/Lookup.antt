-- ===== src/Store/Cache/Lookup.antt =====
-- Finding the slot of a sector: `position`, the LRU victim, and `slot_index` of
-- src/store/cache.rs against the image represented.

use unifat.Prelude.{
  ℕ, zero, suc, ◌+◌, ◌<◌, ◌≡◌, ◌≢◌, inl, inr, refl, sym, ◌∙◌, none, some, List, [], ◌∷◌, arith,
  length, get_elem?, set, Image, get_elem?-set_cases, get_elem?-set_ne, Bool-cases, Option-cases,
  ◌==◌, ltb,
}
use unifat.Store.Cache.{Slot, position, min_stamp, min_stamp_from}
use unifat.Store.Cache.Represents.{Others}

pub position-some :
    (sector : ℕ) (slots : List Slot) (i : ℕ)
    → position sector slots ≡ some i
    → (s : Slot) × (get_elem? slots i ≡ some s) × (s.sector ≡ sector)
unfolding position
position-some sector [] i h = absurd (cc)
position-some sector (s ∷ slots) i h = elim (Bool-cases (s.sector == sector)) [
  | inl e ↦ let z : i ≡ 0 = ground arith in (s, rw z, ground arith)
  | inr ne ↦ elim (Option-cases (position sector slots)) [
    | inl q ↦ absurd (ground arith)
    | inr (j, q) ↦
        let (t, at, same) = position-some sector slots j q in
        let z : i ≡ suc j = ground arith in (t, rw z at, same)
  ]
]

pub position-none :
    (sector : ℕ) (slots : List Slot)
    → position sector slots ≡ none
    → (j : ℕ) (t : Slot) → get_elem? slots j ≡ some t
    → t.sector ≢ sector
unfolding position
position-none sector [] h j t at same = cc
position-none sector (s ∷ slots) h zero t at same = ground arith
position-none sector (s ∷ slots) h (suc j) t at same =
    position-none sector slots (ground arith) j t at same

min_stamp_from-lt :
    (at best stamp : ℕ) (slots : List Slot)
    → best < at
    → min_stamp_from at best stamp slots < at + length slots
unfolding min_stamp_from
min_stamp_from-lt at best stamp [] h = omega arith
min_stamp_from-lt at best stamp (s ∷ slots) h = elim (Bool-cases (ltb s.stamp stamp)) [
  | inl e ↦ rw e (omega (arith, min_stamp_from-lt (at + 1) at s.stamp slots (omega arith)))
  | inr e ↦ rw e (omega (arith, min_stamp_from-lt (at + 1) best stamp slots (omega arith)))
]

pub min_stamp-lt :
    (slots : List Slot)
    → 0 < length slots
    → (i : ℕ) × (min_stamp slots ≡ some i) × (i < length slots)
unfolding min_stamp
min_stamp-lt [] h = absurd (omega arith)
min_stamp-lt (s ∷ slots) h = (
  min_stamp_from 1 0 s.stamp slots,
  refl,
  omega (arith, min_stamp_from-lt 1 0 s.stamp slots (omega arith)),
)

pub Others-set :
    {ss : ℕ} {slots : List Slot} {f : Image} (i : ℕ) (s' : Slot)
    → Others ss slots f i
    → length s'.buf ≡ ss
    → Others ss (set slots i s') f i
Others-set {ss} {slots} {f} i s' r size = record {
  sized = λ j t at. elim (get_elem?-set_cases slots i j s' at) [
    | inl (e, q) ↦ rw q size
    | inr (ne, q) ↦ r.sized j t q
  ];
  cached = λ j t at ne. r.cached j t (was j at ne) ne;
  filled = λ j t at ne. r.filled j t (was j at ne) ne;
  distinct = λ j k s t at at' ne ne'. r.distinct j k s t (was j at ne) (was k at' ne') ne ne';
}
  where
    was :
        (j : ℕ) {t : Slot}
        → get_elem? (set slots i s') j ≡ some t
        → j ≢ i
        → get_elem? slots j ≡ some t
    was j at ne = sym (get_elem?-set_ne slots i j s' (λ e. ne (sym e))) ∙ at
