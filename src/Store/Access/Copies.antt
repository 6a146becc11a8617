-- ===== src/Store/Access/Copies.antt =====
-- The bytes copied into a slot of the sector cache, as a part of the image.
use native.Mathlib.Nat.{div-add-mod}
use unifat.Prelude.{
  ℕ, ◌+◌, ◌-◌, ◌*◌, ◌/◌, ◌%◌, ◌≤◌, ◌<◌, ◌≡◌, ◌≢◌, ◌⊎◌, inl, inr, sym, ap, ◌∙◌, List, ◌++◌, arith,
  length, get_or, take, drop, Image, slice, overlay, overlay-append, overlay_outside,
  overlay_inside, length-take, length-drop, take-append-drop, take-append-take, length-slice,
  length-append, get_or-append, get_or-append_past, get_or-take, get_or-drop, get_or-slice, ext,
  dec_lt,
}
use unifat.Store.Cache.{copy_at}
use unifat.Store.Cache.Represents.{div_block}

pub length-copy_at :
    (dst src : List ℕ) (w : ℕ)
    → w + length src ≤ length dst
    → length (copy_at dst w src) ≡ length dst
unfolding copy_at
length-copy_at dst src w h = omega (
  arith,
  length-append (take w dst) (src ++ drop (w + length src) dst),
  length-append src (drop (w + length src) dst),
  length-take w dst,
  length-drop (w + length src) dst,
)

pub get_or-copy_at :
    (dst src : List ℕ) (w k : ℕ)
    → w + length src ≤ length dst
    → ((k < w) × (get_or (copy_at dst w src) k 0 ≡ get_or dst k 0))
      ⊎ ((w ≤ k) × (k < w + length src) × (get_or (copy_at dst w src) k 0 ≡ get_or src (k - w) 0))
      ⊎ ((w + length src ≤ k) × (get_or (copy_at dst w src) k 0 ≡ get_or dst k 0))
unfolding copy_at
get_or-copy_at dst src w k h =
    let rest = drop (w + length src) dst in
    elim (dec_lt k w) [
      | yes lo ↦ inl (
        lo,
        get_or-append (take w dst) (src ++ rest) k 0 (omega (arith, length-take w dst))
            ∙ get_or-take w dst k 0 lo,
      )
      | no lo ↦
          let past =
            get_or-append_past (take w dst) (src ++ rest) k 0 (omega (arith, length-take w dst)) in
          let at : k - length (take w dst) ≡ k - w = omega (arith, length-take w dst) in
          let past' : get_or (take w dst ++ (src ++ rest)) k 0 ≡ get_or (src ++ rest) (k - w) 0 =
            past ∙ ap (λ j. get_or (src ++ rest) j 0) at in
          elim (dec_lt k (w + length src)) [
            | yes hi ↦
                inr (inl (omega arith, hi, past' ∙ get_or-append src rest (k - w) 0 (omega arith)))
            | no hi ↦ inr (
                inr (
                  omega arith,
                  past'
                      ∙ get_or-append_past src rest (k - w) 0 (omega arith)
                      ∙ get_or-drop (w + length src) dst (k - w - length src) 0
                      ∙ ap (λ j. get_or dst j 0) (omega arith),
                ))
          ]
    ]

-- A sector with new bytes copied in is the sector of the image with those bytes written.
pub copy_at-slice :
    (dst src : List ℕ) (w : ℕ) (f : Image) (base m : ℕ)
    → length dst ≡ m
    → w + length src ≤ m
    → ((k : ℕ) → k < m → (k < w) ⊎ (w + length src ≤ k) → get_or dst k 0 ≡ f (base + k))
    → copy_at dst w src ≡ slice (overlay f (base + w) src) base m
copy_at-slice dst src w f base m size fits old =
    let f' = overlay f (base + w) src in
    ext _ _ 0 (length-copy_at dst src w (omega arith) ∙ size ∙ sym (length-slice f' base m))
      (λ k hk.
        let lt : k < m = omega (arith, length-copy_at dst src w) in
        at k lt ∙ sym (get_or-slice f' base m k 0 lt))
  where
    at : (k : ℕ) → k < m → get_or (copy_at dst w src) k 0 ≡ overlay f (base + w) src (base + k)
    at k lt = elim (get_or-copy_at dst src w k (omega arith)) [
      | inl (lo, e) ↦
          e
          ∙ old k lt (inl lo)
          ∙ sym (overlay_outside f (base + w) src (base + k) (inl (omega arith)))
      | inr (inl (lo, hi, e)) ↦
          e
          ∙ ap (λ j. get_or src j 0) (omega arith)
          ∙ sym (overlay_inside f (base + w) src (base + k) 0 (omega arith) (omega arith))
      | inr (inr (hi, e)) ↦
          e
          ∙ old k lt (inr hi)
          ∙ sym (overlay_outside f (base + w) src (base + k) (inr (omega arith)))
    ]

-- Outside the sector of `pos` a run that stays in the sector writes nothing.
pub away_from_sector :
    (f : Image) (pos ss : ℕ) (bytes : List ℕ)
    → 0 < ss
    → pos % ss + length bytes ≤ ss
    → (o : ℕ) → o / ss ≢ pos / ss
    → overlay f pos bytes o ≡ f o
away_from_sector f pos ss bytes h fits o ne = overlay_outside f pos bytes o (elim (dec_lt o pos) [
  | yes lo ↦ inl lo
  | no lo ↦ elim (dec_lt o (pos + length bytes)) [
    | no hi ↦ inr (omega arith)
    | yes hi ↦
        let base : pos / ss * ss + pos % ss ≡ pos = grind (arith, div-add-mod pos ss) in
        let j = pos % ss + (o - pos) in
        let at : o ≡ pos / ss * ss + j = omega arith in
        absurd (ne (ap (λ x. x / ss) at ∙ div_block (pos / ss) ss j (omega arith)))
  ]
])

pub joined :
    (f : Image) (pos n : ℕ) (buf : List ℕ)
    → n ≤ length buf
    → overlay (overlay f pos (take n buf)) (pos + n) (drop n buf) ≡ overlay f pos buf
joined f pos n buf le =
    ap (λ k. overlay (overlay f pos (take n buf)) k (drop n buf)) (omega (arith, length-take n buf))
    ∙ overlay-append f pos (take n buf) (drop n buf)
    ∙ ap (overlay f pos) (take-append-drop n buf)

pub parted :
    (f : Image) (pos n k : ℕ) (buf : List ℕ)
    → n ≤ length buf
    → overlay (overlay f pos (take n buf)) (pos + n) (take k (drop n buf))
      ≡ overlay f pos (take (n + k) buf)
parted f pos n k buf le =
    ap (λ j. overlay (overlay f pos (take n buf)) j (take k (drop n buf)))
      (omega (arith, length-take n buf))
    ∙ overlay-append f pos (take n buf) (take k (drop n buf))
    ∙ ap (overlay f pos) (take-append-take n k buf)
