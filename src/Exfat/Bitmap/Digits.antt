-- ===== src/Exfat/Bitmap/Digits.antt =====
-- The bits of a byte under the changes that the bitmap makes to it.
use Prim.Native.Nat.{bit_and, bit_or}
use native.Mathlib.Nat.{div-div-eq-div-mul}
use unifat.Prelude.{
  ℕ, zero, suc, ◌-◌, ◌*◌, ◌/◌, ◌%◌, ◌^◌, ◌<◌, ◌≡◌, ◌≢◌, refl, ap, ◌∙◌, arith, min, max,
}
use unifat.Prelude.Bits.{or_lowest, and_lowest, double_power, power_pos}
use unifat.Exfat.Bitmap.{bit_of}

pub bit_of-suc : (x k : ℕ) → bit_of x (suc k) ≡ bit_of (x / 2) k
unfolding bit_of
bit_of-suc x k =
    let deep : x / 2 / 2 ^ k ≡ x / 2 ^ suc k =
      div-div-eq-div-mul x 2 (2 ^ k)
      ∙ ap (λ (t : ℕ). x / t) {x = 2 * 2 ^ k} {y = 2 ^ suc k} (omega (arith, double_power k)) in
    omega (arith, deep)

pub bit_of-zero : (x : ℕ) → bit_of x 0 ≡ x % 2
unfolding bit_of
bit_of-zero x = let one : 2 ^ 0 ≡ 1 = omega arith in omega arith

pub bit_of-small : (x k : ℕ) → bit_of x k < 2
unfolding bit_of
bit_of-small x k = omega arith

pub bit_of-bit_or : (k a b : ℕ) → bit_of (bit_or a b) k ≡ max (bit_of a k) (bit_of b k)
bit_of-bit_or zero a b =
    omega (arith, bit_of-zero (bit_or a b), bit_of-zero a, bit_of-zero b, or_lowest a b)
bit_of-bit_or (suc k) a b =
    let half : bit_or a b / 2 ≡ bit_or (a / 2) (b / 2) = omega (arith, or_lowest a b) in
    omega (
      arith,
      bit_of-suc (bit_or a b) k,
      bit_of-suc a k,
      bit_of-suc b k,
      bit_of-bit_or k (a / 2) (b / 2),
      ap (λ t. bit_of t k) half,
    )

pub bit_of-bit_and : (k a b : ℕ) → bit_of (bit_and a b) k ≡ min (bit_of a k) (bit_of b k)
bit_of-bit_and zero a b =
    omega (arith, bit_of-zero (bit_and a b), bit_of-zero a, bit_of-zero b, and_lowest a b)
bit_of-bit_and (suc k) a b =
    let half : bit_and a b / 2 ≡ bit_and (a / 2) (b / 2) = omega (arith, and_lowest a b) in
    omega (
      arith,
      bit_of-suc (bit_and a b) k,
      bit_of-suc a k,
      bit_of-suc b k,
      bit_of-bit_and k (a / 2) (b / 2),
      ap (λ t. bit_of t k) half,
    )

bit_of-nothing : (k : ℕ) → bit_of 0 k ≡ 0
bit_of-nothing zero = bit_of-zero 0
bit_of-nothing (suc k) = bit_of-suc 0 k ∙ bit_of-nothing k

pub bit_of-power_same : (k : ℕ) → bit_of (2 ^ k) k ≡ 1
bit_of-power_same zero = bit_of-zero (2 ^ 0)
bit_of-power_same (suc k) =
    let half : 2 ^ suc k / 2 ≡ 2 ^ k = omega (arith, double_power k) in
    bit_of-suc (2 ^ suc k) k ∙ ap (λ t. bit_of t k) half ∙ bit_of-power_same k

pub bit_of-power_other : (k j : ℕ) → k ≢ j → bit_of (2 ^ k) j ≡ 0
bit_of-power_other zero zero ne = absurd (ne refl)
bit_of-power_other zero (suc j) ne = bit_of-suc 1 j ∙ bit_of-nothing j
bit_of-power_other (suc k) zero ne = omega (arith, bit_of-zero (2 ^ suc k), double_power k)
bit_of-power_other (suc k) (suc j) ne =
    let half : 2 ^ suc k / 2 ≡ 2 ^ k = omega (arith, double_power k) in
    bit_of-suc (2 ^ suc k) j
    ∙ ap (λ t. bit_of t j) half
    ∙ bit_of-power_other k j (λ e. ne (ap suc e))

-- The bits of a complement.
bit_of-complement : (n j x : ℕ) → x < 2 ^ n → j < n → bit_of (2 ^ n - 1 - x) j ≡ 1 - bit_of x j
bit_of-complement zero j x fits lt = absurd (omega arith)
bit_of-complement (suc n) zero x fits lt =
    omega (arith, bit_of-zero (2 ^ suc n - 1 - x), bit_of-zero x, double_power n)
bit_of-complement (suc n) (suc j) x fits lt =
    let half : (2 ^ suc n - 1 - x) / 2 ≡ 2 ^ n - 1 - x / 2 = omega (arith, double_power n) in
    omega (
      arith,
      bit_of-suc (2 ^ suc n - 1 - x) j,
      bit_of-suc x j,
      ap (λ t. bit_of t j) half,
      bit_of-complement n j (x / 2) (omega (arith, double_power n)) (omega arith),
    )

power_fits : (k n : ℕ) → k < n → 2 ^ k < 2 ^ n
power_fits k zero lt = absurd (omega arith)
power_fits zero (suc n) lt = omega (arith, double_power n, power_pos n)
power_fits (suc k) (suc n) lt =
    omega (arith, double_power k, double_power n, power_fits k n (omega arith))

pub bit_of-mask : (k j : ℕ) → k < 8 → j < 8 → bit_of (255 - 2 ^ k) j ≡ 1 - bit_of (2 ^ k) j
bit_of-mask k j hk hj = bit_of-complement 8 j (2 ^ k) (power_fits k 8 hk) hj

-- A byte with a clear bit is not 255.
pub full_byte : (j : ℕ) → j < 8 → bit_of 0xFF j ≡ 1
full_byte j lt = omega (arith, bit_of-complement 8 j 0 (omega arith) lt, bit_of-nothing j)
