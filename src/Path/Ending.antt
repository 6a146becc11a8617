-- ===== src/Path/Ending.antt =====
-- The iterator over the components of a path ends.
use unifat.Prelude.{
  ℕ, zero, suc, ◌+◌, ◌≤◌, ◌<◌, ◌≡◌, inl, inr, refl, ap, subst, arith, Bool, true, false, not, ◌&&◌,
  Bool-cases, if◌then◌else◌, List, [], ◌∷◌, Option, none, some, length,
}
use unifat.Path.{
  is_absolute, WindowsComponent, Components, new, split_head, yielded, next, collect, components,
}
use unifat.Path.Normal.{length-split, length-trim_start}

-- The rounds that are left at most: the root, and the characters.
size : Components → ℕ
size c = (if c.had_root && not c.yielded_root then 1 else 0) + length c.rest

abbrev Shrinks : ℕ → Option (WindowsComponent × Components) → Type 0
Shrinks n none = Unit {0}
Shrinks n (some (x, c)) = size c < n

next-Shrinks : (c : Components) → Shrinks (size c) (next c)
unfolding next size split_head
next-Shrinks c = elim (Bool-cases (c.had_root && not c.yielded_root)) [
  | inl root ↦ rw root (let off = seen c.had_root in rw off (omega arith))
  | inr walk ↦ rw walk (
      subst (λ n. Shrinks n (yielded c (split_head c.rest))) {x = length c.rest}
        {y = 0 + length c.rest} (omega arith) (go walk c.rest))
]
  where
    seen : (b : Bool) → (b && not true) ≡ false
    seen true = refl
    seen false = refl

    go :
        (c.had_root && not c.yielded_root) ≡ false
        → (s : List ℕ) → Shrinks (length s) (yielded c (split_head s))
    go walk [] = tt
    go walk (d ∷ s) = rw walk (let shorter = length-split d s in omega (arith, shorter))

collect-more : (n m : ℕ) (c : Components) → size c ≤ n → size c ≤ m → collect n c ≡ collect m c
unfolding collect
collect-more zero zero c enough enough' = refl
collect-more zero (suc m) c enough enough' = go (next c) (next-Shrinks c)
  where
    go :
        (q : Option (WindowsComponent × Components))
        → Shrinks (size c) q
        → [] ≡ elim q [ none ↦ [] | some (x, c') ↦ x ∷ collect m c' ]
    go none less = refl
    go (some (x, c')) less = absurd (omega arith)
collect-more (suc n) zero c enough enough' = go (next c) (next-Shrinks c)
  where
    go :
        (q : Option (WindowsComponent × Components))
        → Shrinks (size c) q
        → elim q [ none ↦ [] | some (x, c') ↦ x ∷ collect n c' ] ≡ []
    go none less = refl
    go (some (x, c')) less = absurd (omega arith)
collect-more (suc n) (suc m) c enough enough' =
    go (next c) (next-Shrinks c) (λ c' le le'. collect-more n m c' le le')
  where
    go :
        (q : Option (WindowsComponent × Components))
        → Shrinks (size c) q
        → ((c' : Components) → size c' ≤ n → size c' ≤ m → collect n c' ≡ collect m c')
        → elim q [ none ↦ [] | some (x, c') ↦ x ∷ collect n c' ]
          ≡ elim q [ none ↦ [] | some (x, c') ↦ x ∷ collect m c' ]
    go none less rest = refl
    go (some (x, c')) less rest = ap (◌∷◌ x) (rest c' (omega arith) (omega arith))

new-size : (s : List ℕ) → size (new s) ≤ suc (length s)
unfolding new size
new-size s = elim (Bool-cases (is_absolute s)) [
  | inl root ↦ rw root (let short = length-trim_start s in omega arith)
  | inr relative ↦ rw relative (omega arith)
]

-- The iterator over the components of a path ends within one call for each character and one for the
-- root: more calls yield no component more.
pub components-collect : (s : List ℕ) (n : ℕ) → length s < n → collect n (new s) ≡ components s
unfolding components
components-collect s n enough =
    let small = new-size s in collect-more n (suc (length s)) (new s) (omega (arith, small)) small
