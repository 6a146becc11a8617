-- ===== src/Exfat/Bitmap/Changes.antt =====
-- The bits of the bitmap after one byte of it has been changed.
use unifat.Prelude.{
  ℕ, ◌+◌, ◌-◌, ◌/◌, ◌%◌, ◌^◌, ◌≤◌, ◌<◌, ◌≡◌, ◌≢◌, ◌⊎◌, inl, inr, refl, sym, ap, ◌∙◌, arith,
  Bool-cases, ltb, ℕ_discrete, [], ◌∷◌, Image, overlay, overlay_inside, overlay_outside,
}
use unifat.Store.Device.{BlockDevice}
use unifat.Exfat.Volume.Synced.{SameData}
use unifat.Exfat.Bitmap.{bit_of, set_bit, reset_bit}
use unifat.Exfat.Bitmap.Digits.{
  bit_of-small, bit_of-bit_or, bit_of-bit_and, bit_of-power_same, bit_of-power_other, bit_of-mask,
}
use unifat.Exfat.Bitmap.Bits.{bit_at}

-- A change of a byte that gives one bit the value `t` and keeps the others.
pub record SetsBit (change : ℕ → ℕ → ℕ) (t : ℕ) : Type 0 where
  pub here : (b bit : ℕ) → bit < 8 → bit_of (change b bit) bit ≡ t
  pub there : (b bit j : ℕ) → bit < 8 → j < 8 → j ≢ bit → bit_of (change b bit) j ≡ bit_of b j

pub sets_one : (D : BlockDevice) → SetsBit (set_bit D) 1
sets_one D = record {
  here = λ b bit lt.
      omega (arith, bit_of-bit_or bit b (2 ^ bit), bit_of-power_same bit, bit_of-small b bit);
  there = λ b bit j lt lt' ne.
      omega (arith, bit_of-bit_or j b (2 ^ bit), bit_of-power_other bit j (λ e. ne (sym e)));
}

pub sets_zero : (D : BlockDevice) → SetsBit (reset_bit D) 0
sets_zero D = record {
  here = λ b bit lt. omega (
    arith,
    bit_of-bit_and bit b (255 - 2 ^ bit),
    bit_of-mask bit bit lt lt,
    bit_of-power_same bit,
  );
  there = λ b bit j lt lt' ne. omega (
    arith,
    bit_of-bit_and j b (255 - 2 ^ bit),
    bit_of-mask bit j lt lt',
    bit_of-power_other bit j (λ e. ne (sym e)),
    bit_of-small b j,
  );
}

-- The image after the change of the byte of one bit, over an image that differs from `f` in the
-- mutable fields of the boot record.
module _ (f g : Image) (base k : ℕ) (change : ℕ → ℕ → ℕ) (t : ℕ) (sets : SetsBit change t) where
  unfoldable pub changed : Image
  changed = overlay g (base + k / 8) (change (f (base + k / 8)) (k % 8) ∷ [])

  changed_byte : changed (base + k / 8) ≡ change (f (base + k / 8)) (k % 8)
  unfolding changed
  changed_byte =
      overlay_inside g (base + k / 8) (change (f (base + k / 8)) (k % 8) ∷ []) (base + k / 8) 0
        (omega arith) (omega arith)
      ∙ (let spot : base + k / 8 - (base + k / 8) ≡ 0 = omega arith in rw spot refl)

  pub changed_here : bit_at changed base k ≡ t
  unfolding bit_at
  changed_here =
      ap (λ b. bit_of b (k % 8)) changed_byte ∙ sets.here (f (base + k / 8)) (k % 8) (omega arith)

  pub changed_there :
      SameData f g → 113 ≤ base → (j : ℕ) → j ≢ k → bit_at changed base j ≡ bit_at f base j
  unfolding bit_at changed
  changed_there same low j ne = elim (ℕ_discrete (j / 8) (k / 8)) [
    | yes e ↦
        let byte : base + j / 8 ≡ base + k / 8 = omega (arith, e) in
        let apart : j % 8 ≢ k % 8 = λ e'. ne (omega (arith, e, e')) in
        ap (λ o. bit_of (changed o) (j % 8)) byte
        ∙ ap (λ b. bit_of b (j % 8)) changed_byte
        ∙ sets.there (f (base + k / 8)) (k % 8) (j % 8) (omega arith) (omega arith) apart
        ∙ ap (λ o. bit_of (f o) (j % 8)) (sym byte)
    | no ne' ↦
        ap (λ b. bit_of b (j % 8))
          (overlay_outside g (base + k / 8) (change (f (base + k / 8)) (k % 8) ∷ []) (base + j / 8)
              (split ne')
            ∙ same (base + j / 8) (inr (omega arith)))
  ]
    where
      split : j / 8 ≢ k / 8 → (base + j / 8 < base + k / 8) ⊎ (base + k / 8 + 1 ≤ base + j / 8)
      split ne' = elim (Bool-cases (ltb (j / 8) (k / 8))) [
        | inl under ↦ inl (ground arith)
        | inr past ↦ inr (ground arith)
      ]
