-- ===== src/Handles/Keys.antt =====
-- The order of the keys of the handle table, and prefixes in it.
use unifat.Prelude.{
  ℕ, ◌≡◌, refl, ap, ◌∙◌, inl, inr, arith, true, false, not, ◌&&◌, Bool-cases, ◌==◌, List, [], ◌∷◌,
}
use unifat.Path.{str_eq, has_prefix}
use unifat.Handles.{str_lt}

pub str_eq_refl : (s : List ℕ) → str_eq s s ≡ true
unfolding str_eq
str_eq_refl [] = refl
str_eq_refl (c ∷ s) = let e = str_eq_refl s in ground arith

pub str_eq-eq : (s t : List ℕ) → str_eq s t ≡ true → s ≡ t
unfolding str_eq
str_eq-eq [] [] h = refl
str_eq-eq [] (d ∷ t) h = absurd cc
str_eq-eq (c ∷ s) [] h = absurd cc
str_eq-eq (c ∷ s) (d ∷ t) h =
    let same : c ≡ d = ground arith in
    let rest = str_eq-eq s t (ground arith) in ap (λ x. x ∷ s) same ∙ ap (◌∷◌ d) rest

pub str_lt_irrefl : (s : List ℕ) → str_lt s s ≡ false
unfolding str_lt
str_lt_irrefl [] = refl
str_lt_irrefl (c ∷ s) = let e = str_lt_irrefl s in ground arith

pub str_lt_trans : (s t u : List ℕ) → str_lt s t ≡ true → str_lt t u ≡ true → str_lt s u ≡ true
unfolding str_lt
str_lt_trans [] [] u h k = absurd cc
str_lt_trans [] (d ∷ t) [] h k = absurd cc
str_lt_trans [] (d ∷ t) (e ∷ u) h k = refl
str_lt_trans (c ∷ s) [] u h k = absurd cc
str_lt_trans (c ∷ s) (d ∷ t) [] h k = absurd cc
str_lt_trans (c ∷ s) (d ∷ t) (e ∷ u) h k = elim (Bool-cases (str_lt s t && str_lt t u)) [
  | inl both ↦ let rest = str_lt_trans s t u (ground arith) (ground arith) in ground arith
  | inr other ↦ ground arith
]

-- One of two different strings is below the other.
pub str_lt-total : (s t : List ℕ) → str_lt s t ≡ false → str_eq s t ≡ false → str_lt t s ≡ true
unfolding str_lt str_eq
str_lt-total [] [] h k = absurd cc
str_lt-total [] (d ∷ t) h k = absurd cc
str_lt-total (c ∷ s) [] h k = refl
str_lt-total (c ∷ s) (d ∷ t) h k = elim (Bool-cases ((c == d) && not (str_lt t s))) [
  | inl stuck ↦ let rest = str_lt-total s t (ground arith) (ground arith) in absurd (ground arith)
  | inr other ↦ ground arith
]

-- A key with a prefix is not below the prefix.
pub has_prefix-above : (k key : List ℕ) → has_prefix k key ≡ true → str_lt k key ≡ false
unfolding has_prefix str_lt
has_prefix-above [] [] h = refl
has_prefix-above (c ∷ s) [] h = refl
has_prefix-above [] (d ∷ t) h = absurd cc
has_prefix-above (c ∷ s) (d ∷ t) h = let rest = has_prefix-above s t (ground arith) in ground arith

-- Past a key that is not below a prefix and does not have it, no key has it.
pub has_prefix-past :
    (key k k' : List ℕ)
    → str_lt k key ≡ false
    → has_prefix k key ≡ false
    → str_lt k k' ≡ true
    → has_prefix k' key ≡ false
unfolding has_prefix str_lt
has_prefix-past [] [] k' low none_here lt = absurd cc
has_prefix-past [] (c ∷ s) k' low none_here lt = absurd cc
has_prefix-past (d ∷ t) [] k' low none_here lt = absurd cc
has_prefix-past (d ∷ t) (c ∷ s) [] low none_here lt = refl
has_prefix-past (d ∷ t) (c ∷ s) (c' ∷ s') low none_here lt =
    elim (Bool-cases ((c == d) && (c' == d))) [
      | inl both ↦
          let rest = has_prefix-past t s s' (ground arith) (ground arith) (ground arith) in
          ground arith
      | inr other ↦ ground arith
    ]
