-- ===== src/Prelude/Images.antt =====
-- The image of a medium: the byte at each offset, as a function. A run of bytes is read off an
-- image by `slice` and written over it by `overlay`.
use Prim.Native.Nat.{ℕ, zero, suc, ◌+◌, ◌-◌, ◌≤◌, ◌<◌}
use mathlib.Core.Path.{◌≡◌, refl, ap, sym, ◌∙◌, fun_ext}
use mathlib.Core.Logic.{◌⊎◌}
use mathlib.Core.List.{List, [], ◌∷◌, ◌++◌}
use native.Mathlib.Omega.{arith}
use unifat.Prelude.Tests.{ltb, if◌then◌else◌}
use unifat.Prelude.Lists.{length, get_or, take, drop, ext}
use unifat.Prelude.Lists

abbrev pub Image : Type 0
Image = ℕ → ℕ

unfoldable pub slice : Image → ℕ → ℕ → List ℕ
slice f off zero = []
slice f off (suc n) = f off ∷ slice f (off + 1) n

-- The image with `bs` written from `off` on.
unfoldable pub overlay : Image → ℕ → List ℕ → Image
overlay f off bs o = if ltb o off then f o else get_or bs (o - off) (f o)

pub length-slice : (f : Image) (off n : ℕ) → length (slice f off n) ≡ n
unfolding slice
length-slice f off zero = refl
length-slice f off (suc n) = ap suc (length-slice f (off + 1) n)

pub get_or-slice : (f : Image) (off n i d : ℕ) → i < n → get_or (slice f off n) i d ≡ f (off + i)
unfolding slice
get_or-slice f off zero i d h = absurd (omega arith)
get_or-slice f off (suc n) zero d h = ap f (omega arith)
get_or-slice f off (suc n) (suc i) d h =
    get_or-slice f (off + 1) n i d (omega arith) ∙ ap f (omega arith)

pub slice-append :
    (f : Image) (off n m : ℕ) → slice f off n ++ slice f (off + n) m ≡ slice f off (n + m)
unfolding slice
slice-append f off zero m = ground (arith)
slice-append f off (suc n) m =
    let e : off + suc n ≡ off + 1 + n = omega arith in
    let k : suc n + m ≡ suc (n + m) = omega arith in
    rw (e, k) (ap (◌∷◌ (f off)) (slice-append f (off + 1) n m))

-- Outside the run written, the image is as before.
pub overlay_outside :
    (f : Image) (off : ℕ) (bs : List ℕ) (o : ℕ)
    → (o < off) ⊎ (off + length bs ≤ o)
    → overlay f off bs o ≡ f o
unfolding overlay
overlay_outside f off bs o h = ground (arith, Lists.get_or_past bs (o - off) (f o))

-- Inside, it is what was written.
pub overlay_inside :
    (f : Image) (off : ℕ) (bs : List ℕ) (o d : ℕ)
    → off ≤ o
    → o < off + length bs
    → overlay f off bs o ≡ get_or bs (o - off) d
unfolding overlay
overlay_inside f off bs o d h k = ground (arith, Lists.get_or_default bs (o - off) (f o) d)

pub overlay-nil : (f : Image) (off : ℕ) → overlay f off [] ≡ f
unfolding overlay
overlay-nil f off = fun_ext (λ o. ground arith)

-- Two runs written one after the other are one run.
pub overlay-append :
    (f : Image) (off : ℕ) (xs ys : List ℕ)
    → overlay (overlay f off xs) (off + length xs) ys ≡ overlay f off (xs ++ ys)
unfolding overlay
overlay-append f off xs ys = fun_ext (λ o. at o)
  where
    at : (o : ℕ) → overlay (overlay f off xs) (off + length xs) ys o ≡ overlay f off (xs ++ ys) o
    at o = ground (
      arith,
      Lists.get_or-append xs ys (o - off) (f o),
      Lists.get_or-append_past xs ys (o - off) (f o),
      Lists.get_or_past xs (o - off) (f o),
    )

-- A part of a run that was read.
pub take-drop-slice :
    (f : Image) (off m w n : ℕ) → w + n ≤ m → take n (drop w (slice f off m)) ≡ slice f (off + w) n
take-drop-slice f off m w n h = ext _ _ 0 size (λ i hi.
    let lt : i < n = omega (arith, size, length-slice f (off + w) n) in
    Lists.get_or-take n _ i 0 lt
    ∙ Lists.get_or-drop w _ i 0
    ∙ get_or-slice f off m (w + i) 0 (omega arith)
    ∙ ap f (omega arith)
    ∙ sym (get_or-slice f (off + w) n i 0 lt))
  where
    size : length (take n (drop w (slice f off m))) ≡ length (slice f (off + w) n)
    size = omega (
      arith,
      Lists.length-take n (drop w (slice f off m)),
      Lists.length-drop w (slice f off m),
      length-slice f off m,
      length-slice f (off + w) n,
    )
