-- ===== src/Path/Normal.antt =====
-- The normal form of a path: its segments, and that it is one.

use unifat.Prelude.{
  ℕ, zero, suc, ◌≤◌, ◌≡◌, inl, inr, refl, sym, ap, ◌∙◌, arith, Bool, true, false, not, ◌&&◌,
  Bool-cases, List, [], ◌∷◌, ◌++◌, Option, none, some, length, map,
}
use unifat.Path.{
  is_sep, str_eq, is_absolute, is_empty, trim_start, break_sep, WindowsComponent, root_dir, cur_dir,
  parent_dir, normal, Components, new, split_head, classify, yielded, next, collect, popped,
  resolve,
}

-- A string without separators.
abbrev pub NoSep : List ℕ → Type 0
NoSep [] = Unit {0}
NoSep (c ∷ s) = (is_sep c ≡ false) × NoSep s

-- A segment of a normal path: some characters without separators, and neither `.` nor `..`.
abbrev pub IsSegment : List ℕ → Type 0
IsSegment s =
    (is_empty s ≡ false)
    × NoSep s
    × (str_eq s (46 ∷ []) ≡ false)
    × (str_eq s (46 ∷ 46 ∷ []) ≡ false)

abbrev pub Segments : List (List ℕ) → Type 0
Segments [] = Unit {0}
Segments (x ∷ out) = IsSegment x × Segments out

abbrev pub IsComponent : WindowsComponent → Type 0
IsComponent root_dir = Unit {0}
IsComponent cur_dir = Unit {0}
IsComponent parent_dir = Unit {0}
IsComponent (normal s) = IsSegment s

abbrev pub AreComponents : List WindowsComponent → Type 0
AreComponents [] = Unit {0}
AreComponents (x ∷ cs) = IsComponent x × AreComponents cs

classify-IsComponent : (s : List ℕ) → is_empty s ≡ false → NoSep s → IsComponent (classify s)
unfolding classify
classify-IsComponent s some_chars clean = elim (Bool-cases (str_eq s (46 ∷ []))) [
  | inl dot ↦ rw dot tt
  | inr no_dot ↦ elim (Bool-cases (str_eq s (46 ∷ 46 ∷ []))) [
    | inl dots ↦ rw (no_dot, dots) tt
    | inr no_dots ↦ rw (no_dot, no_dots) (some_chars, clean, no_dot, no_dots)
  ]
]

pub classify-IsSegment : (s : List ℕ) → IsSegment s → classify s ≡ normal s
unfolding classify
classify-IsSegment s (some_chars, clean, no_dot, no_dots) = rw (no_dot, no_dots) refl

trim_start-first : (s : List ℕ) → is_absolute (trim_start s) ≡ false
unfolding trim_start
trim_start-first [] = refl
trim_start-first (c ∷ s) = elim (Bool-cases (is_sep c)) [
  | inl sep ↦ rw sep (trim_start-first s)
  | inr other ↦ rw other other
]

pub length-trim_start : (s : List ℕ) → length (trim_start s) ≤ length s
unfolding trim_start
length-trim_start [] = omega arith
length-trim_start (c ∷ s) = elim (Bool-cases (is_sep c)) [
  | inl sep ↦ rw sep (let rest = length-trim_start s in omega arith)
  | inr other ↦ rw other (omega arith)
]

break_sep-NoSep : (s : List ℕ) → NoSep (break_sep s).0
unfolding break_sep
break_sep-NoSep [] = tt
break_sep-NoSep (c ∷ s) = elim (Bool-cases (is_sep c)) [
  | inl sep ↦ rw sep tt
  | inr other ↦ rw other (other, break_sep-NoSep s)
]

break_sep-some : (c : ℕ) (s : List ℕ) → is_sep c ≡ false → is_empty (break_sep (c ∷ s)).0 ≡ false
unfolding break_sep
break_sep-some c s other = rw other refl

length-break_sep : (s : List ℕ) → length (break_sep s).1 ≤ length s
unfolding break_sep
length-break_sep [] = omega arith
length-break_sep (c ∷ s) = elim (Bool-cases (is_sep c)) [
  | inl sep ↦ rw sep (omega arith)
  | inr other ↦ rw other (let rest = length-break_sep s in omega arith)
]

-- What is left after the first component is shorter.
pub length-split : (c : ℕ) (s : List ℕ) → length (trim_start (break_sep (c ∷ s)).1) ≤ length s
unfolding break_sep trim_start
length-split c s = elim (Bool-cases (is_sep c)) [
  | inl sep ↦ rw (sep, sep) (length-trim_start s)
  | inr other ↦ rw other (
      let short = length-trim_start (break_sep s).1 in let tail = length-break_sep s in omega arith)
]

-- A component of a path, and the iterator after it.
abbrev Yields : Option (WindowsComponent × Components) → Type 0
Yields none = Unit {0}
Yields (some (x, c)) = IsComponent x × (is_absolute c.rest ≡ false)

next-Yields : (c : Components) → is_absolute c.rest ≡ false → Yields (next c)
unfolding next split_head
next-Yields c lead = elim (Bool-cases (c.had_root && not c.yielded_root)) [
  | inl root ↦ rw root (tt, lead)
  | inr walk ↦ rw walk (go c.rest lead)
]
  where
    go : (s : List ℕ) → is_absolute s ≡ false → Yields (yielded c (split_head s))
    go [] lead' = tt
    go (d ∷ s) lead' = (
      classify-IsComponent (break_sep (d ∷ s)).0 (break_sep-some d s lead')
          (break_sep-NoSep (d ∷ s)),
      trim_start-first (break_sep (d ∷ s)).1,
    )

pub collect-AreComponents :
    (n : ℕ) (c : Components) → is_absolute c.rest ≡ false → AreComponents (collect n c)
unfolding collect
collect-AreComponents zero c lead = tt
collect-AreComponents (suc n) c lead =
    go (next c) (next-Yields c lead) (λ c' lead'. collect-AreComponents n c' lead')
  where
    go :
        (q : Option (WindowsComponent × Components))
        → Yields q
        → ((c' : Components) → is_absolute c'.rest ≡ false → AreComponents (collect n c'))
        → AreComponents (elim q [ none ↦ [] | some (x, c') ↦ x ∷ collect n c' ])
    go none good rest = tt
    go (some (x, c')) (good, lead') rest = (good, rest c' lead')

pub new-first : (s : List ℕ) → is_absolute (new s).rest ≡ false
unfolding new
new-first s = elim (Bool-cases (is_absolute s)) [
  | inl root ↦ rw root (trim_start-first s)
  | inr relative ↦ rw (relative, relative) refl
]

popped-Segments : (out : List (List ℕ)) → Segments out → Segments (popped out)
unfolding popped
popped-Segments [] good = tt
popped-Segments (x ∷ []) good = tt
popped-Segments (x ∷ y ∷ out) (first, rest) = (first, popped-Segments (y ∷ out) rest)

append-Segments :
    (out : List (List ℕ)) (s : List ℕ) → Segments out → IsSegment s → Segments (out ++ s ∷ [])
append-Segments [] s good last = (last, tt)
append-Segments (x ∷ out) s (first, rest) last = (first, append-Segments out s rest last)

pub resolve-Segments :
    (cs : List WindowsComponent) (r : Bool) (out : List (List ℕ))
    → AreComponents cs
    → Segments out
    → Segments (resolve cs r out).1
unfolding resolve
resolve-Segments [] r out good segs = segs
resolve-Segments (root_dir ∷ cs) r out (_, good) segs = resolve-Segments cs true [] good tt
resolve-Segments (cur_dir ∷ cs) r out (_, good) segs = resolve-Segments cs r out good segs
resolve-Segments (parent_dir ∷ cs) r out (_, good) segs =
    resolve-Segments cs r (popped out) good (popped-Segments out segs)
resolve-Segments (normal s ∷ cs) r out (seg, good) segs =
    resolve-Segments cs r (out ++ s ∷ []) good (append-Segments out s segs seg)

-- Resolving names alone keeps them.
pub resolve-normals :
    (xs : List (List ℕ)) (r : Bool) (out : List (List ℕ))
    → resolve (map normal xs) r out ≡ (r, out ++ xs)
unfolding resolve
resolve-normals [] r out = ap (λ (t : List (List ℕ)). (r, t)) (sym (append_nil out))
  where
    append_nil : (ys : List (List ℕ)) → ys ++ [] ≡ ys
    append_nil [] = refl
    append_nil (y ∷ ys) = ap (◌∷◌ y) (append_nil ys)
resolve-normals (x ∷ xs) r out =
    resolve-normals xs r (out ++ x ∷ []) ∙ ap (λ (t : List (List ℕ)). (r, t)) (append_cons out)
  where
    append_cons : (ys : List (List ℕ)) → (ys ++ x ∷ []) ++ xs ≡ ys ++ x ∷ xs
    append_cons [] = refl
    append_cons (y ∷ ys) = ap (◌∷◌ y) (append_cons ys)
