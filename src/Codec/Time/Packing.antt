-- ===== src/Codec/Time/Packing.antt =====
-- The packed words of src/codec/time.rs as sums, and the fields read off them.
use Prim.Native.Nat.{bit_and, bit_or}
use unifat.Prelude.{ℕ, ◌+◌, ◌*◌, ◌%◌, ◌^◌, ◌≤◌, ◌≡◌, ap, ◌∙◌, arith}
use unifat.Prelude.Bits.{bit_and_low, bit_or_disjoint}
use unifat.Codec.Time.{shl, as_u8}

module _ (y m d : ℕ) (y_fits : y ≤ 127) (m_fits : m ≤ 15) (d_fits : d ≤ 31) where
  -- `(year << 9) | (month << 5) | day`, on 16 bits.
  pub date_word : bit_or (bit_or (shl 16 y 9) (shl 16 m 5)) d ≡ y * 512 + m * 32 + d
  date_word =
      ap (λ t. bit_or t d) (bit_or_disjoint 9 (shl 16 y 9) (shl 16 m 5) (omega arith) (omega arith))
      ∙ bit_or_disjoint 5 (shl 16 y 9 + shl 16 m 5) d (omega arith) (omega arith)
      ∙ omega arith

  -- `(year << 25) | (month << 21) | (day << 16)`, on 32 bits.
  pub date_half :
      bit_or (bit_or (shl 32 y 25) (shl 32 m 21)) (shl 32 d 16)
      ≡ y * 2 ^ 25 + m * 2 ^ 21 + d * 2 ^ 16
  date_half =
      ap (λ t. bit_or t (shl 32 d 16))
        (bit_or_disjoint 25 (shl 32 y 25) (shl 32 m 21) (omega arith) (omega arith))
      ∙ bit_or_disjoint 21 (shl 32 y 25 + shl 32 m 21) (shl 32 d 16) (omega arith) (omega arith)
      ∙ omega arith

-- `.. | (hour << 11) | (minute << 5) | (second / 2)` over a date in the high half.
pub time_half :
    (high h mi s : ℕ)
    → h ≤ 31
    → mi ≤ 63
    → s ≤ 31
    → bit_or (bit_or (bit_or (high * 2 ^ 16) (shl 32 h 11)) (shl 32 mi 5)) s
      ≡ high * 2 ^ 16 + (h * 2 ^ 11 + mi * 32 + s)
time_half high h mi s h_fits mi_fits s_fits =
    ap (λ t. bit_or (bit_or t (shl 32 mi 5)) s)
      (bit_or_disjoint 16 (high * 2 ^ 16) (shl 32 h 11) (omega arith) (omega arith))
    ∙ ap (λ t. bit_or t s)
        (bit_or_disjoint 11 (high * 2 ^ 16 + shl 32 h 11) (shl 32 mi 5) (omega arith) (omega arith))
    ∙ bit_or_disjoint 5 (high * 2 ^ 16 + shl 32 h 11 + shl 32 mi 5) s (omega arith) (omega arith)
    ∙ omega arith

pub time_word :
    (h mi s : ℕ)
    → h ≤ 31
    → mi ≤ 63
    → s ≤ 31
    → bit_or (bit_or (shl 16 h 11) (shl 16 mi 5)) s ≡ h * 2 ^ 11 + mi * 32 + s
time_word h mi s h_fits mi_fits s_fits =
    ap (λ t. bit_or t s)
      (bit_or_disjoint 11 (shl 16 h 11) (shl 16 mi 5) (omega arith) (omega arith))
    ∙ bit_or_disjoint 5 (shl 16 h 11 + shl 16 mi 5) s (omega arith) (omega arith)
    ∙ omega arith

-- The masks of the decoders.
pub mask5 : (x : ℕ) → as_u8 (bit_and x 0x1F) ≡ x % 32
mask5 x = ap as_u8 (bit_and_low 5 x) ∙ omega arith

pub mask6 : (x : ℕ) → as_u8 (bit_and x 0x3F) ≡ x % 64
mask6 x = ap as_u8 (bit_and_low 6 x) ∙ omega arith

pub mask4 : (x : ℕ) → as_u8 (bit_and x 0x0F) ≡ x % 16
mask4 x = ap as_u8 (bit_and_low 4 x) ∙ omega arith

pub mask7 : (x : ℕ) → as_u8 (bit_and x 0x7F) ≡ x % 128
mask7 x = ap as_u8 (bit_and_low 7 x) ∙ omega arith
