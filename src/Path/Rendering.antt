-- ===== src/Path/Rendering.antt =====
-- The components of a normal path are its segments, so that its normal form is the path itself; and the
-- iterator over the components of a path ends.

use unifat.Prelude.{
  ℕ, zero, suc, ◌≤◌, ◌<◌, ◌≡◌, refl, sym, ap, ◌∙◌, arith, Bool, true, false, not, ◌&&◌, List, [],
  ◌∷◌, ◌++◌, Option, none, some, length, length-append, map,
}
use unifat.Path.{
  separator, is_absolute, is_empty, trim_start, break_sep, WindowsComponent, root_dir, normal,
  Components, new, split_head, yielded, next, collect, components, resolve, joined_with, rendered,
  normalize,
}
use unifat.Path.Normal.{
  NoSep, Segments, classify-IsSegment, collect-AreComponents, new-first, resolve-Segments,
  resolve-normals,
}

trim_start-none : (s : List ℕ) → is_absolute s ≡ false → trim_start s ≡ s
unfolding trim_start
trim_start-none [] lead = refl
trim_start-none (c ∷ s) lead = rw lead refl

break_whole : (x : List ℕ) → NoSep x → break_sep x ≡ (x, [])
unfolding break_sep
break_whole [] clean = refl
break_whole (c ∷ x) (other, clean) =
    rw other (ap (λ (p : List ℕ × List ℕ). (c ∷ p.0, p.1)) (break_whole x clean))

break_at : (x t : List ℕ) → NoSep x → break_sep (x ++ separator ∷ t) ≡ (x, separator ∷ t)
unfolding break_sep
break_at [] t clean = refl
break_at (c ∷ x) t (other, clean) =
    rw other (ap (λ (p : List ℕ × List ℕ). (c ∷ p.0, p.1)) (break_at x t clean))

joined_with-first : (out : List (List ℕ)) → Segments out → is_absolute (joined_with out) ≡ false
unfolding joined_with
joined_with-first [] segs = refl
joined_with-first ([] ∷ []) ((some_chars, _, _, _), segs) = absurd cc
joined_with-first ((c ∷ x) ∷ []) ((some_chars, (other, clean), _, _), segs) = other
joined_with-first ([] ∷ y ∷ out) ((some_chars, _, _, _), segs) = absurd cc
joined_with-first ((c ∷ x) ∷ y ∷ out) ((some_chars, (other, clean), _, _), segs) = other

split_head-joined_with :
    (x : List ℕ) (out : List (List ℕ))
    → Segments (x ∷ out)
    → split_head (joined_with (x ∷ out)) ≡ some (x, joined_with out)
unfolding split_head joined_with trim_start
split_head-joined_with [] out ((some_chars, _, _, _), segs) = absurd cc
split_head-joined_with (c ∷ x) [] ((some_chars, clean, _, _), segs) =
    ap (λ (p : List ℕ × List ℕ). some (p.0, trim_start p.1)) (break_whole (c ∷ x) clean)
split_head-joined_with (c ∷ x) (y ∷ out) ((some_chars, clean, _, _), segs) =
    ap (λ (p : List ℕ × List ℕ). some (p.0, trim_start p.1))
      (break_at (c ∷ x) (joined_with (y ∷ out)) clean)
    ∙ ap (λ t. some (c ∷ x, t))
        (trim_start-none (joined_with (y ∷ out)) (joined_with-first (y ∷ out) segs))

length-joined_with :
    (x : List ℕ) (out : List (List ℕ))
    → is_empty x ≡ false
    → length (joined_with out) < length (joined_with (x ∷ out))
unfolding joined_with
length-joined_with [] out some_chars = absurd cc
length-joined_with (c ∷ x) [] some_chars = omega arith
length-joined_with (c ∷ x) (y ∷ out) some_chars =
    let sum = length-append (c ∷ x) (separator ∷ joined_with (y ∷ out)) in omega arith

next-joined_with :
    (c : Components) (x : List ℕ) (out : List (List ℕ))
    → (c.had_root && not c.yielded_root) ≡ false
    → c.rest ≡ joined_with (x ∷ out)
    → Segments (x ∷ out)
    → next c ≡ some (normal x, record c { rest = joined_with out })
unfolding next
next-joined_with c x out walk rest segs = rw walk (
    ap (λ t. yielded c (split_head t)) rest
    ∙ ap (yielded c) (split_head-joined_with x out segs)
    ∙ ap (λ k. some (k, record c { rest = joined_with out })) (classify-IsSegment x segs.0))

collect-next :
    (n : ℕ) (c : Components) {x : WindowsComponent} {c' : Components}
    → next c ≡ some (x, c')
    → collect (suc n) c ≡ x ∷ collect n c'
unfolding collect
collect-next n c e =
    ap
      (λ (q : Option (WindowsComponent × Components)). elim q [
        | none ↦ []
        | some (y, d) ↦ y ∷ collect n d
      ])
      e

collect-joined_with :
    (n : ℕ) (had : Bool) (seen : Bool) (out : List (List ℕ))
    → (had && not seen) ≡ false
    → Segments out
    → length (joined_with out) ≤ n
    → collect n (record { rest = joined_with out; yielded_root = seen; had_root = had })
      ≡ map normal out
unfolding collect
collect-joined_with zero had seen [] walk segs enough = refl
collect-joined_with (suc n) had seen [] walk segs enough =
    unfold next split_head joined_with in rw (collect, next, walk) refl
collect-joined_with zero had seen (x ∷ out) walk segs enough =
    absurd (let longer = length-joined_with x out (segs.0).0 in omega arith)
collect-joined_with (suc n) had seen (x ∷ out) walk segs enough =
    let longer = length-joined_with x out (segs.0).0 in
    collect-next n (record { rest = joined_with (x ∷ out); yielded_root = seen; had_root = had })
      (next-joined_with
        (record { rest = joined_with (x ∷ out); yielded_root = seen; had_root = had }) x out walk
        refl segs)
    ∙ ap (◌∷◌ (normal x)) (collect-joined_with n had seen out walk segs.1 (omega arith))

new-relative :
    (s : List ℕ)
    → is_absolute s ≡ false
    → new s ≡ record { rest = s; yielded_root = false; had_root = false }
unfolding new
new-relative s lead = rw lead refl

new-absolute :
    (s : List ℕ)
    → is_absolute s ≡ false
    → new (separator ∷ s) ≡ record { rest = s; yielded_root = false; had_root = true }
unfolding new trim_start
new-absolute s lead =
    ap (λ t. record { rest = t; yielded_root = false; had_root = true }) (trim_start-none s lead)

rendered-relative :
    (x : List ℕ) (out : List (List ℕ))
    → is_empty x ≡ false
    → rendered (false, x ∷ out) ≡ joined_with (x ∷ out)
unfolding rendered joined_with
rendered-relative [] out some_chars = absurd cc
rendered-relative (c ∷ x) [] some_chars = refl
rendered-relative (c ∷ x) (y ∷ out) some_chars = refl

normalize_root : normalize (separator ∷ []) ≡ separator ∷ []
unfolding normalize components new trim_start rendered collect next split_head resolve joined_with
normalize_root = refl

rendered_root : rendered (false, []) ≡ separator ∷ []
unfolding rendered joined_with
rendered_root = refl

collect_root :
    (n : ℕ) (s : List ℕ)
    → collect (suc n) (record { rest = s; yielded_root = false; had_root = true })
      ≡ root_dir ∷ collect n (record { rest = s; yielded_root = true; had_root = true })
unfolding collect next
collect_root n s = refl

components-absolute :
    (out : List (List ℕ))
    → Segments out
    → components (separator ∷ joined_with out) ≡ root_dir ∷ map normal out
unfolding components
components-absolute out segs =
    ap (collect (suc (suc (length (joined_with out)))))
      (new-absolute (joined_with out) (joined_with-first out segs))
    ∙ collect_root (suc (length (joined_with out))) (joined_with out)
    ∙ ap (◌∷◌ root_dir)
        (collect-joined_with (suc (length (joined_with out))) true true out refl segs (omega arith))

components-relative :
    (out : List (List ℕ)) → Segments out → components (joined_with out) ≡ map normal out
unfolding components
components-relative out segs =
    ap (collect (suc (length (joined_with out))))
      (new-relative (joined_with out) (joined_with-first out segs))
    ∙ collect-joined_with (suc (length (joined_with out))) false false out refl segs (omega arith)

resolve_root :
    (cs : List WindowsComponent) (r : Bool) (out : List (List ℕ))
    → resolve (root_dir ∷ cs) r out ≡ resolve cs true []
unfolding resolve
resolve_root cs r out = refl

normalize-rendered :
    (r : Bool) (out : List (List ℕ))
    → Segments out
    → normalize (rendered (r, out)) ≡ rendered (r, out)
unfolding normalize
normalize-rendered true out segs =
    ap (λ cs. rendered (resolve cs false [])) (unfold rendered in components-absolute out segs)
    ∙ ap rendered (resolve_root (map normal out) false [] ∙ resolve-normals out true [])
normalize-rendered false [] segs = ap normalize rendered_root ∙ normalize_root ∙ sym rendered_root
normalize-rendered false (x ∷ out) segs =
    ap normalize (rendered-relative x out (segs.0).0)
    ∙ ap (λ cs. rendered (resolve cs false [])) (components-relative (x ∷ out) segs)
    ∙ ap rendered (resolve-normals (x ∷ out) false [])

-- A normal path: its root, if it has one, and its segments.
abbrev pub IsNormal : List ℕ → Type 0
IsNormal t = (r : Bool) × (out : List (List ℕ)) × Segments out × (t ≡ rendered (r, out))

-- The normal form of a path is the absolute or relative path of a list of segments, or the root where
-- there is none: no segment is empty, has a separator, or is `.` or `..`. Normalizing it again gives
-- the same path.
pub normalize-IsNormal :
    (s : List ℕ) → IsNormal (normalize s) × (normalize (normalize s) ≡ normalize s)
normalize-IsNormal s = go (resolve (components s) false []) segs refl
  where
    segs : Segments (resolve (components s) false []).1
    segs =
        unfold components in
        resolve-Segments (components s) false []
          (collect-AreComponents (suc (length s)) (new s) (new-first s)) tt

    go :
        (q : Bool × List (List ℕ))
        → Segments q.1
        → resolve (components s) false [] ≡ q
        → IsNormal (normalize s) × (normalize (normalize s) ≡ normalize s)
    go (r, out) good e =
        let form : normalize s ≡ rendered (r, out) = unfold normalize in ap rendered e in
        ((r, out, good, form), ap normalize form ∙ normalize-rendered r out good ∙ sym form)
