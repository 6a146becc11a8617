-- ===== src/Exfat/Bitmap/Bits.antt =====
-- The bitmap in an image of the disk, and the first clear bit of a window of it.
use unifat.Prelude.{
  ℕ, zero, suc, ◌+◌, ◌-◌, ◌*◌, ◌/◌, ◌%◌, ◌≤◌, ◌<◌, ◌≡◌, inl, inr, sym, ap, ◌∙◌, subst, arith,
  Bool-cases, leb, ◌==◌, Option, none, some, Image, slice,
}
use unifat.Exfat.Bitmap.{bit_of, clear_bit, clear_in, or_later}
use unifat.Exfat.Bitmap.Digits.{bit_of-small, full_byte}

-- The bit with the number `k` of the bitmap at `base`.
unfoldable pub bit_at : Image → ℕ → ℕ → ℕ
bit_at f base k = bit_of (f (base + k / 8)) (k % 8)

pub bit_at-byte :
    (f : Image) (base i j : ℕ) → j < 8 → bit_at f base (i * 8 + j) ≡ bit_of (f (base + i)) j
unfolding bit_at
bit_at-byte f base i j lt =
    let byte : (i * 8 + j) / 8 ≡ i = omega arith in
    let bit : (i * 8 + j) % 8 ≡ j = omega arith in
    ap (λ k. bit_of (f (base + k)) ((i * 8 + j) % 8)) byte ∙ ap (bit_of (f (base + i))) bit

pub bit_at-small : (f : Image) (base k : ℕ) → bit_at f base k < 2
unfolding bit_at
bit_at-small f base k = bit_of-small (f (base + k / 8)) (k % 8)

-- The first clear bit of a range, or none where all are set.
abbrev pub FirstClear : (ℕ → ℕ) → ℕ → ℕ → Option ℕ → Type 0
FirstClear bit from to (some k) =
    (from ≤ k) × (k < to) × (bit k ≡ 0) × ((j : ℕ) → from ≤ j → j < k → bit j ≡ 1)
FirstClear bit from to none = (j : ℕ) → from ≤ j → j < to → bit j ≡ 1

-- A range that is set, and the range after it.
pub FirstClear-after :
    (bit : ℕ → ℕ) (from mid to : ℕ)
    → from ≤ mid
    → FirstClear bit from mid none
    → (o : Option ℕ) → FirstClear bit mid to o
    → FirstClear bit from to o
FirstClear-after bit from mid to le set (some k) (lo, hi, clear, before) = (
  omega arith,
  hi,
  clear,
  λ j from_j lt. elim (Bool-cases (leb mid j)) [
    | inl past ↦ before j (ground arith) lt
    | inr under ↦ set j from_j (ground arith)
  ],
)
FirstClear-after bit from mid to le set none rest = λ j from_j lt. elim (Bool-cases (leb mid j)) [
  | inl past ↦ rest j (ground arith) lt
  | inr under ↦ set j from_j (ground arith)
]

clear_bit-FirstClear : (n bit b : ℕ) → FirstClear (bit_of b) bit (bit + n) (clear_bit n bit b)
unfolding clear_bit
clear_bit-FirstClear zero bit b = λ j lo hi. absurd (omega arith)
clear_bit-FirstClear (suc n) bit b = elim (Bool-cases (bit_of b bit == 0)) [
  | inl clear ↦ rw clear (omega arith, omega arith, ground arith, λ j lo hi. absurd (omega arith))
  | inr set ↦
      let one : bit_of b bit ≡ 1 = (let small = bit_of-small b bit in ground arith) in
      rw set (
        FirstClear-after (bit_of b) bit (bit + 1) (bit + suc n) (omega arith)
          (λ j lo hi. ap (bit_of b) {x = j} {y = bit} (omega arith) ∙ one) (clear_bit n (bit + 1) b)
          (subst (λ t. FirstClear (bit_of b) (bit + 1) t (clear_bit n (bit + 1) b))
            {x = bit + 1 + n} {y = bit + suc n} (omega arith) (clear_bit-FirstClear n (bit + 1) b)))
]

-- The bits of one byte, and the bytes after it.
byte_first :
    (f : Image) (base i to : ℕ) (later o : Option ℕ)
    → (i + 1) * 8 ≤ to
    → FirstClear (bit_of (f (base + i))) 0 8 o
    → FirstClear (bit_at f base) ((i + 1) * 8) to later
    → FirstClear (bit_at f base) (i * 8) to (or_later i o later)
byte_first f base i to later (some k) le (lo, hi, clear, before) rest = (
  omega arith,
  omega arith,
  bit_at-byte f base i k hi ∙ clear,
  λ j from lt.
      let spot : i * 8 + (j - i * 8) ≡ j = omega arith in
      sym (ap (bit_at f base) spot)
      ∙ bit_at-byte f base i (j - i * 8) (omega arith)
      ∙ before (j - i * 8) (omega arith) (omega arith),
)
byte_first f base i to later none le set rest =
    FirstClear-after (bit_at f base) (i * 8) ((i + 1) * 8) to (omega arith)
      (λ j from lt.
        let spot : i * 8 + (j - i * 8) ≡ j = omega arith in
        sym (ap (bit_at f base) spot)
        ∙ bit_at-byte f base i (j - i * 8) (omega arith)
        ∙ set (j - i * 8) (omega arith) (omega arith))
      later rest

-- The first clear bit of a window of `n` bytes from the byte `i` of the bitmap on.
pub clear_in-FirstClear :
    (f : Image) (base n i : ℕ)
    → FirstClear (bit_at f base) (i * 8) ((i + n) * 8) (clear_in (slice f (base + i) n) i)
unfolding clear_in slice
clear_in-FirstClear f base zero i = λ j lo hi. absurd (omega arith)
clear_in-FirstClear f base (suc n) i =
    let later = clear_in (slice f (base + i + 1) n) (i + 1) in
    let place : base + (i + 1) ≡ base + i + 1 = omega arith in
    let until : (i + 1 + n) * 8 ≡ (i + suc n) * 8 = omega arith in
    let rest : FirstClear (bit_at f base) ((i + 1) * 8) ((i + suc n) * 8) later =
      subst (λ t. FirstClear (bit_at f base) ((i + 1) * 8) t later) until
        (subst
          (λ p.
            FirstClear (bit_at f base) ((i + 1) * 8) ((i + 1 + n) * 8)
              (clear_in (slice f p n) (i + 1)))
          place (clear_in-FirstClear f base n (i + 1))) in
    elim (Bool-cases (f (base + i) == 0xFF)) [
      | inl full ↦
          let byte : f (base + i) ≡ 0xFF = ground arith in
          rw full (
            byte_first f base i ((i + suc n) * 8) later none (omega arith)
              (λ j lo hi. ap (λ b. bit_of b j) byte ∙ full_byte j hi) rest)
      | inr other ↦ rw other (
          byte_first f base i ((i + suc n) * 8) later (clear_bit 8 0 (f (base + i))) (omega arith)
            (clear_bit-FirstClear 8 0 (f (base + i))) rest)
    ]
