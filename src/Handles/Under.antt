-- ===== src/Handles/Under.antt =====
-- The search for an open file at or below a directory, which stops at the first key without the prefix, finds
-- what a search of the whole table finds.
use unifat.Prelude.{
  ℕ, ◌≡◌, refl, sym, ◌∙◌, inl, inr, arith, Bool, true, false, ◌||◌, Bool-cases, ◌==◌, List, [], ◌∷◌,
  length,
}
use unifat.Path.{str_eq, has_prefix, is_strictly_under}
use unifat.Handles.{HandleTable, str_lt, key_of, range_from, open_in, any_open_under}
use unifat.Handles.Keys.{str_lt_trans, has_prefix-above, has_prefix-past}

-- All keys of a table are above a key.
abbrev pub Above : List ℕ → HandleTable → Type 0
Above key [] = Unit {0}
Above key ((k, m) ∷ rest) = (str_lt key k ≡ true) × Above key rest

-- The keys of a table are in order, each once.
abbrev pub IsOrdered : HandleTable → Type 0
IsOrdered [] = Unit {0}
IsOrdered ((k, m) ∷ rest) = Above k rest × IsOrdered rest

-- A search of the whole table.
unfoldable pub open_under : List ℕ → HandleTable → Bool
open_under key [] = false
open_under key ((k, m) ∷ rest) = (str_eq k key || is_strictly_under k key) || open_under key rest

NotBelow : List ℕ → HandleTable → Type 0
NotBelow key [] = Unit {0}
NotBelow key ((k, m) ∷ rest) = (str_lt k key ≡ false) × NotBelow key rest

NoPrefix : List ℕ → HandleTable → Type 0
NoPrefix key [] = Unit {0}
NoPrefix key ((k, m) ∷ rest) = (has_prefix k key ≡ false) × NoPrefix key rest

prefix_self : (k key : List ℕ) → str_eq k key ≡ true → has_prefix k key ≡ true
unfolding str_eq has_prefix
prefix_self [] [] h = refl
prefix_self [] (d ∷ t) h = absurd cc
prefix_self (c ∷ s) [] h = refl
prefix_self (c ∷ s) (d ∷ t) h = let rest = prefix_self s t (ground arith) in ground arith

prefix_whole : (k key : List ℕ) → has_prefix k key ≡ true → (length k == length key) ≡ str_eq k key
unfolding str_eq has_prefix
prefix_whole [] [] h = refl
prefix_whole [] (d ∷ t) h = absurd cc
prefix_whole (c ∷ s) [] h = ground arith
prefix_whole (c ∷ s) (d ∷ t) h = let rest = prefix_whole s t (ground arith) in ground arith

under-prefix :
    (k key : List ℕ) → has_prefix k key ≡ false → (str_eq k key || is_strictly_under k key) ≡ false
unfolding is_strictly_under
under-prefix k key h = elim (Bool-cases (str_eq k key)) [
  | inl same ↦ absurd (let p = prefix_self k key same in cc)
  | inr other ↦ rw (other, h) (ground arith)
]

open_under-NoPrefix : (key : List ℕ) (t : HandleTable) → NoPrefix key t → open_under key t ≡ false
unfolding open_under NoPrefix
open_under-NoPrefix key [] h = refl
open_under-NoPrefix key ((k, m) ∷ rest) (first, later) =
    rw (under-prefix k key first) (open_under-NoPrefix key rest later)

Above-NoPrefix :
    (key k : List ℕ) (t : HandleTable)
    → str_lt k key ≡ false
    → has_prefix k key ≡ false
    → Above k t
    → NoPrefix key t
unfolding NoPrefix
Above-NoPrefix key k [] low none_here above = tt
Above-NoPrefix key k ((k', m) ∷ rest) low none_here (first, later) =
    (has_prefix-past key k k' low none_here first, Above-NoPrefix key k rest low none_here later)

open_in-open_under :
    (key : List ℕ) (t : HandleTable)
    → IsOrdered t
    → NotBelow key t
    → open_in key t ≡ open_under key t
unfolding open_in open_under NotBelow
open_in-open_under key [] ordered low = refl
open_in-open_under key ((k, m) ∷ rest) (above, ordered) (low, later) =
    elim (Bool-cases (has_prefix k key)) [
      | inl inside ↦
          let same = prefix_whole k key inside in
          let ih = open_in-open_under key rest ordered later in rw (inside, same, ih) (ground arith)
      | inr outside ↦
          rw (under-prefix k key outside, outside)
            (sym (open_under-NoPrefix key rest (Above-NoPrefix key k rest low outside above)))
    ]

NotBelow-Above :
    (key k : List ℕ) (t : HandleTable) → str_lt k key ≡ false → Above k t → NotBelow key t
unfolding NotBelow
NotBelow-Above key k [] low above = tt
NotBelow-Above key k ((k', m) ∷ rest) low (first, later) = (
  elim (Bool-cases (str_lt k' key)) [
    | inl under ↦ absurd (let lt = str_lt_trans k k' key first under in cc)
    | inr past ↦ past
  ],
  NotBelow-Above key k rest low later,
)

below-under :
    (k key : List ℕ) → str_lt k key ≡ true → (str_eq k key || is_strictly_under k key) ≡ false
below-under k key lt = under-prefix k key (elim (Bool-cases (has_prefix k key)) [
  | inl inside ↦ absurd (let above = has_prefix-above k key inside in cc)
  | inr outside ↦ outside
])

range_from-open_under :
    (key : List ℕ) (t : HandleTable)
    → IsOrdered t
    → open_in key (range_from key t) ≡ open_under key t
unfolding range_from
range_from-open_under key [] ordered = unfold open_in open_under in refl
range_from-open_under key ((k, m) ∷ rest) (above, ordered) = elim (Bool-cases (str_lt k key)) [
  | inl under ↦ rw under (
      range_from-open_under key rest ordered
      ∙ (unfold open_under in let skip = below-under k key under in rw skip refl))
  | inr past ↦ rw past (
      open_in-open_under key ((k, m) ∷ rest) (above, ordered)
        (unfold NotBelow in (past, NotBelow-Above key k rest past above)))
]

-- On a table whose keys are in order, the search for an open file at a path or below it, which starts
-- at the key of the path and stops at the first key without this prefix, gives what a search of the
-- whole table gives: whether some key is that of the path or lies strictly under it.
pub any_open_under-open_under :
    (t : HandleTable) (prefix : List ℕ)
    → IsOrdered t
    → any_open_under t prefix ≡ open_under (key_of prefix) t
unfolding any_open_under
any_open_under-open_under t prefix ordered = range_from-open_under (key_of prefix) t ordered
