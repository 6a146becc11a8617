-- ===== src/Prelude/Bits.antt =====
-- Masks, shifts and unions of disjoint bit fields as arithmetic.
use Prim.Native.Nat.{
  ℕ, zero, suc, ◌+◌, ◌-◌, ◌*◌, ◌/◌, ◌%◌, ◌^◌, ◌≤◌, ◌<◌, min, max, bit_and, bit_or, digits,
  bit_and-bitwise, bit_or-bitwise,
}
use native.Mathlib.Nat.{pow-suc, div-add-mod, div-div-eq-div-mul}
use mathlib.Core.Path.{◌≡◌, refl, ap, ◌∙◌}
use native.Mathlib.Omega.{arith}

-- The count of digits to go does not matter once it is at least the number.
fuel_irrelevant :
    (z : ℕ → ℕ) (f : ℕ → ℕ → ℕ) (n m a b : ℕ) → a ≤ n → a ≤ m → digits z f n a b ≡ digits z f m a b
fuel_irrelevant z f zero zero a b p q = refl
fuel_irrelevant z f zero (suc m) zero b p q = refl
fuel_irrelevant z f zero (suc m) (suc a) b p q = absurd (omega arith)
fuel_irrelevant z f (suc n) zero zero b p q = refl
fuel_irrelevant z f (suc n) zero (suc a) b p q = absurd (omega arith)
fuel_irrelevant z f (suc n) (suc m) zero b p q = refl
fuel_irrelevant z f (suc n) (suc m) (suc a) b p q =
    ap (λ r. r * 2 + f (suc a % 2) (b % 2))
      (fuel_irrelevant z f n m (suc a / 2) (b / 2) (omega arith) (omega arith))

zero-bit_and : (b : ℕ) → bit_and 0 b ≡ 0
zero-bit_and b = bit_and-bitwise 0 b

zero-bit_or : (b : ℕ) → bit_or 0 b ≡ b
zero-bit_or b = bit_or-bitwise 0 b

pub and_lowest : (a b : ℕ) → bit_and a b ≡ bit_and (a / 2) (b / 2) * 2 + min (a % 2) (b % 2)
and_lowest zero b = omega (arith, zero-bit_and b, zero-bit_and (b / 2))
and_lowest (suc a) b = omega (
  arith,
  bit_and-bitwise (suc a) b,
  bit_and-bitwise (suc a / 2) (b / 2),
  fuel_irrelevant (λ x. 0) min a (suc a / 2) (suc a / 2) (b / 2) (omega arith) (omega arith),
)

pub or_lowest : (a b : ℕ) → bit_or a b ≡ bit_or (a / 2) (b / 2) * 2 + max (a % 2) (b % 2)
or_lowest zero b = omega (arith, zero-bit_or b, zero-bit_or (b / 2))
or_lowest (suc a) b = omega (
  arith,
  bit_or-bitwise (suc a) b,
  bit_or-bitwise (suc a / 2) (b / 2),
  fuel_irrelevant (λ x. x) max a (suc a / 2) (suc a / 2) (b / 2) (omega arith) (omega arith),
)

below_zero : (fuel a : ℕ) → a ≤ fuel → bit_and a 0 ≡ 0
below_zero fuel zero h = refl
below_zero zero (suc a) h = absurd (omega arith)
below_zero (suc fuel) (suc a) h =
    omega (arith, and_lowest (suc a) 0, below_zero fuel (suc a / 2) (omega arith))

or_nothing : (fuel a : ℕ) → a ≤ fuel → bit_or a 0 ≡ a
or_nothing fuel zero h = refl
or_nothing zero (suc a) h = absurd (omega arith)
or_nothing (suc fuel) (suc a) h =
    omega (arith, or_lowest (suc a) 0, or_nothing fuel (suc a / 2) (omega arith))

pub double_power : (k : ℕ) → 2 ^ suc k ≡ 2 * 2 ^ k
double_power k = omega (arith, pow-suc 2 k)

pub power_pos : (k : ℕ) → 0 < 2 ^ k
power_pos zero = omega arith
power_pos (suc k) = omega (arith, double_power k, power_pos k)

mod_split : (a p : ℕ) → 0 < p → a / 2 % p * 2 + a % 2 ≡ a % (2 * p)
mod_split a p h = grind arith

-- A mask of `k` low bits is the remainder by `2 ^ k`.
pub bit_and_low : (k a : ℕ) → bit_and a (2 ^ k - 1) ≡ a % 2 ^ k
bit_and_low zero a = omega (arith, below_zero a a (omega arith))
bit_and_low (suc k) a = omega (
  arith,
  and_lowest a (2 ^ suc k - 1),
  ap (λ (m : ℕ). bit_and (a / 2) m) {x = (2 ^ suc k - 1) / 2} {y = 2 ^ k - 1}
      (omega (arith, double_power k, power_pos k)),
  bit_and_low k (a / 2),
  double_power k,
  power_pos k,
  mod_split a (2 ^ k) (power_pos k),
  ap (λ (m : ℕ). a % m) (double_power k),
)

-- `(q << k) | r` is a sum where `r` fits `k` bits.
pub bit_or_shifted : (k q r : ℕ) → r < 2 ^ k → bit_or (q * 2 ^ k) r ≡ q * 2 ^ k + r
bit_or_shifted zero q r h =
    let none_left : r ≡ 0 = omega arith in
    let same : q * 2 ^ 0 ≡ q = omega arith in
    rw (none_left, same) (omega (arith, or_nothing q q (omega arith)))
bit_or_shifted (suc k) q r h =
    let m : q * 2 ^ suc k ≡ q * 2 ^ k + q * 2 ^ k =
      omega (arith, ap (λ (t : ℕ). q * t) (double_power k)) in
    let e : q * 2 ^ suc k / 2 ≡ q * 2 ^ k = omega arith in
    omega (
      arith,
      or_lowest (q * 2 ^ suc k) r,
      ap (λ (t : ℕ). bit_or t (r / 2)) e,
      bit_or_shifted k q (r / 2) (omega (arith, double_power k)),
    )

-- Two numbers with no digit in common: the low `k` digits of `x` are zero, and `r` has no other.
pub bit_or_disjoint : (k x r : ℕ) → x % 2 ^ k ≡ 0 → r < 2 ^ k → bit_or x r ≡ x + r
bit_or_disjoint k x r low h =
    let e : x / 2 ^ k * 2 ^ k ≡ x = grind (arith, div-add-mod x (2 ^ k)) in
    ap (λ t. bit_or t r) {x = x} {y = x / 2 ^ k * 2 ^ k} (omega arith)
    ∙ bit_or_shifted k (x / 2 ^ k) r h
    ∙ ap (λ t. t + r) e

-- `r | (q << k)` is the same sum.
pub bit_or_low : (k q r : ℕ) → r < 2 ^ k → bit_or r (q * 2 ^ k) ≡ q * 2 ^ k + r
bit_or_low zero q r h =
    let none_left : r ≡ 0 = omega arith in rw none_left (omega (arith, zero-bit_or (q * 2 ^ 0)))
bit_or_low (suc k) q r h =
    let m : q * 2 ^ suc k ≡ q * 2 ^ k + q * 2 ^ k =
      omega (arith, ap (λ (t : ℕ). q * t) (double_power k)) in
    let e : q * 2 ^ suc k / 2 ≡ q * 2 ^ k = omega arith in
    omega (
      arith,
      or_lowest r (q * 2 ^ suc k),
      ap (λ (t : ℕ). bit_or (r / 2) t) e,
      bit_or_low k q (r / 2) (omega (arith, double_power k)),
    )

-- A mask shifted by `k` reads the digits from `k` on.
pub bit_and_shifted : (k x m : ℕ) → bit_and x (m * 2 ^ k) ≡ bit_and (x / 2 ^ k) m * 2 ^ k
bit_and_shifted zero x m =
    let same : m * 2 ^ 0 ≡ m = omega arith in
    let same' : x / 2 ^ 0 ≡ x = omega arith in rw (same, same') (omega arith)
bit_and_shifted (suc k) x m =
    let twice : m * 2 ^ suc k ≡ m * 2 ^ k + m * 2 ^ k =
      omega (arith, ap (λ (t : ℕ). m * t) (double_power k)) in
    let e : m * 2 ^ suc k / 2 ≡ m * 2 ^ k = omega arith in
    let deep : x / 2 / 2 ^ k ≡ x / 2 ^ suc k =
      div-div-eq-div-mul x 2 (2 ^ k)
      ∙ ap (λ (t : ℕ). x / t) {x = 2 * 2 ^ k} {y = 2 ^ suc k} (omega (arith, double_power k)) in
    let out : bit_and (x / 2 ^ suc k) m * 2 ^ suc k ≡ 2 * (bit_and (x / 2 ^ suc k) m * 2 ^ k) =
      ap (λ (t : ℕ). bit_and (x / 2 ^ suc k) m * t) (double_power k) ∙ grind arith in
    omega (
      arith,
      and_lowest x (m * 2 ^ suc k),
      ap (λ (t : ℕ). bit_and (x / 2) t) e,
      bit_and_shifted k (x / 2) m,
      ap (λ (t : ℕ). bit_and t m * 2 ^ k) deep,
      out,
    )
