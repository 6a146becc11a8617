-- ===== src/Handles/Tables.antt =====
-- Insertion into the table of open files and removal from it: the order of the keys and what is found.
use mathlib.Core.Option
use unifat.Prelude.{
  ℕ, ◌<◌, ◌≡◌, refl, sym, ap, ◌∙◌, subst, inl, inr, true, false, Bool-cases, if◌then◌else◌, List,
  [], ◌∷◌, Option, none, some,
}
use unifat.Path.{str_eq}
use unifat.Handles.{OpenMode, read_only, read_write, HandleTable, str_lt, get, insert, remove}
use unifat.Handles.Keys.{str_eq_refl, str_eq-eq, str_lt_irrefl, str_lt_trans, str_lt-total}
use unifat.Handles.Under.{Above, IsOrdered}

-- An entry that is open: a count of readers is not zero.
abbrev pub IsOpen : OpenMode → Type 0
IsOpen (read_only n) = 0 < n
IsOpen read_write = Unit {0}

abbrev pub AllOpen : HandleTable → Type 0
AllOpen [] = Unit {0}
AllOpen ((k, m) ∷ rest) = IsOpen m × AllOpen rest

abbrev pub IsTable : HandleTable → Type 0
IsTable t = IsOrdered t × AllOpen t

Above-trans : (a b : List ℕ) (t : HandleTable) → str_lt a b ≡ true → Above b t → Above a t
Above-trans a b [] lt above = tt
Above-trans a b ((k, m) ∷ rest) lt (first, later) =
    (str_lt_trans a b k lt first, Above-trans a b rest lt later)

get-Above :
    (k key : List ℕ) (t : HandleTable) {m : OpenMode}
    → Above k t
    → get key t ≡ some m
    → str_lt k key ≡ true
unfolding get
get-Above k key [] {m} above e = absurd (Option.none-ne-some m e)
get-Above k key ((k', m') ∷ rest) above e = elim (Bool-cases (str_eq key k')) [
  | inl same ↦ ap (str_lt k) (str_eq-eq key k' same) ∙ above.0
  | inr other ↦ get-Above k key rest above.1 (
      let h : (if str_eq key k' then some m' else get key rest) ≡ get key rest = (rw other refl) in
      sym h ∙ e)
]

insert-Above :
    (a key : List ℕ) (m : OpenMode) (t : HandleTable)
    → str_lt a key ≡ true
    → Above a t
    → Above a (insert key m t)
unfolding insert
insert-Above a key m [] lt above = (lt, tt)
insert-Above a key m ((k, m') ∷ rest) lt (first, later) = elim (Bool-cases (str_eq key k)) [
  | inl same ↦ rw same (lt, later)
  | inr other ↦ elim (Bool-cases (str_lt key k)) [
    | inl under ↦ rw (other, under) (lt, (first, later))
    | inr past ↦ rw (other, past) (first, insert-Above a key m rest lt later)
  ]
]

pub insert-IsTable :
    (key : List ℕ) (m : OpenMode) (t : HandleTable)
    → IsOpen m
    → IsTable t
    → IsTable (insert key m t)
unfolding insert
insert-IsTable key m [] op (ordered, all) = ((tt, tt), (op, tt))
insert-IsTable key m ((k, m') ∷ rest) op ((above, ordered), (here, all)) =
    elim (Bool-cases (str_eq key k)) [
      | inl same ↦
          rw same
            ((subst (λ x. Above x rest) (sym (str_eq-eq key k same)) above, ordered), (op, all))
      | inr other ↦ elim (Bool-cases (str_lt key k)) [
        | inl under ↦
            rw (other, under)
              (((under, Above-trans key k rest under above), (above, ordered)), (op, (here, all)))
        | inr past ↦
            let (ordered', all') = insert-IsTable key m rest op (ordered, all) in
            rw (other, past)
              (
                (insert-Above k key m rest (str_lt-total key k past other) above, ordered'),
                (here, all'),
              )
      ]
    ]

pub get-insert : (key : List ℕ) (m : OpenMode) (t : HandleTable) → get key (insert key m t) ≡ some m
unfolding get insert
get-insert key m [] = rw (str_eq_refl key) refl
get-insert key m ((k, m') ∷ rest) = elim (Bool-cases (str_eq key k)) [
  | inl same ↦ rw same (rw (str_eq_refl key) refl)
  | inr other ↦ elim (Bool-cases (str_lt key k)) [
    | inl under ↦ rw (other, under) (rw (str_eq_refl key) refl)
    | inr past ↦ rw (other, past) (rw other (get-insert key m rest))
  ]
]

pub remove-insert :
    (key : List ℕ) (m : OpenMode) (t : HandleTable)
    → get key t ≡ none
    → remove key (insert key m t) ≡ t
unfolding get insert remove
remove-insert key m [] e = rw (str_eq_refl key) refl
remove-insert key m ((k, m') ∷ rest) e = elim (Bool-cases (str_eq key k)) [
  | inl same ↦ absurd (Option.none-ne-some m' (sym e ∙ (rw same refl)))
  | inr other ↦ elim (Bool-cases (str_lt key k)) [
    | inl under ↦ rw (other, under) (rw (str_eq_refl key) refl)
    | inr past ↦
        let later : get key rest ≡ none = sym (rw other refl) ∙ e in
        rw (other, past) (rw other (ap (◌∷◌ (k, m')) (remove-insert key m rest later)))
  ]
]

pub insert-insert :
    (key : List ℕ) (m m0 : OpenMode) (t : HandleTable)
    → IsOrdered t
    → get key t ≡ some m0
    → insert key m0 (insert key m t) ≡ t
unfolding get insert
insert-insert key m m0 [] ordered e = absurd (Option.none-ne-some m0 e)
insert-insert key m m0 ((k, m') ∷ rest) (above, ordered) e = elim (Bool-cases (str_eq key k)) [
  | inl same ↦
      let held : some m' ≡ some m0 = sym (rw same refl) ∙ e in
      rw same (
        rw (str_eq_refl key) (
          ap (λ x. (x, m0) ∷ rest) (str_eq-eq key k same)
          ∙ ap (λ x. (k, x) ∷ rest) (sym (Option.some-injective m' m0 held))))
  | inr other ↦
      let later : get key rest ≡ some m0 = sym (rw other refl) ∙ e in
      let past : str_lt key k ≡ false = not_under (get-Above k key rest above later) in
      rw (other, past)
        (rw (other, past) (ap (◌∷◌ (k, m')) (insert-insert key m m0 rest ordered later)))
]
  where
    not_under : str_lt k key ≡ true → str_lt key k ≡ false
    not_under lt = elim (Bool-cases (str_lt key k)) [
      | inl under ↦
          absurd (let loop = str_lt_trans key k key under lt in let never = str_lt_irrefl key in cc)
      | inr past ↦ past
    ]

pub get-insert_other :
    (key other : List ℕ) (m : OpenMode) (t : HandleTable)
    → str_eq other key ≡ false
    → get other (insert key m t) ≡ get other t
unfolding get insert
get-insert_other key other m [] ne = rw ne refl
get-insert_other key other m ((k, m') ∷ rest) ne = elim (Bool-cases (str_eq key k)) [
  | inl same ↦
      let ne' : str_eq other k ≡ false =
        subst (λ x. str_eq other x ≡ false) (str_eq-eq key k same) ne in
      rw same (rw (ne, ne') refl)
  | inr apart ↦ elim (Bool-cases (str_lt key k)) [
    | inl under ↦ rw (apart, under) (rw ne refl)
    | inr past ↦
        rw (apart, past)
          (ap (λ (o : Option OpenMode). if str_eq other k then some m' else o)
            (get-insert_other key other m rest ne))
  ]
]
