-- ===== src/Common/Bits.antt =====
-- The bits of native numbers: the laws of `bit_and` for a mask of ones and for powers of two.
use Prim.Native.Nat.{
  ℕ, zero, suc, ◌+◌, ◌-◌, ◌*◌, ◌/◌, ◌%◌, ◌^◌, ◌≤◌, ◌<◌, ◌∣◌, min, bit_and, digits, bit_and-bitwise,
}
use mathlib.Core.Path.{◌≡◌, refl, sym, subst, ◌∙◌, ap}
use native.Mathlib.Nat.{pow-suc, mod_self, dvd_refl, dvd-mul_right_of_dvd, pow-le-pow_right}
use native.Mathlib.Decide.{dec_lt}
use native.Mathlib.Omega.{arith}

-- What holds of zero, and of a number where it holds of its half, holds of each.
module _ {ℓ} (P : ℕ → Type ℓ) (base : P 0) (double : (n : ℕ) → P (suc n / 2) → P (suc n)) where
  halving_below : (bound n : ℕ) → n < bound → P n
  halving_below zero n lt = absurd (omega arith)
  halving_below (suc bound) zero lt = base
  halving_below (suc bound) (suc n) lt = double n (halving_below bound (suc n / 2) (omega arith))

  halving : (n : ℕ) → P n
  halving n = halving_below (suc n) n (omega arith)

-- The conjunction of the lowest `len` bits.
abbrev common : ℕ → ℕ → ℕ → ℕ
common len x y = digits (λ y. zero) min len x y

common-suc : (len x y : ℕ) → x ≤ len → common (suc len) x y ≡ common len x y
common-suc zero x y short = let e : x ≡ 0 = omega arith in rw e refl
common-suc (suc len) zero y short = refl
common-suc (suc len) (suc x) y short =
    omega (arith, common-suc len (suc x / 2) (y / 2) (omega arith))

common-add : (more len x y : ℕ) → x ≤ len → common (more + len) x y ≡ common len x y
common-add zero len x y short = let e : 0 + len ≡ len = omega arith in rw e refl
common-add (suc more) len x y short =
    let e : suc more + len ≡ suc (more + len) = omega arith in
    rw e (common-suc (more + len) x y (omega arith) ∙ common-add more len x y short)

common-long : (len x y : ℕ) → x ≤ len → common len x y ≡ bit_and x y
common-long len x y short =
    let e : len ≡ len - x + x = omega arith in
    ap (λ (n : ℕ). common n x y) e
    ∙ common-add (len - x) x x y (omega arith)
    ∙ sym (bit_and-bitwise x y)

-- The lowest bit of a conjunction, and the rest.
pub bit_and_step : (a b : ℕ) → bit_and a b ≡ bit_and (a / 2) (b / 2) * 2 + min (a % 2) (b % 2)
bit_and_step zero b = omega (arith, bit_and-bitwise 0 b, bit_and-bitwise 0 (b / 2))
bit_and_step (suc x) b =
    omega (arith, bit_and-bitwise (suc x) b, common-long x (suc x / 2) (b / 2) (omega arith))

pub bit_and_self : (a : ℕ) → bit_and a a ≡ a
bit_and_self =
    halving (λ a. bit_and a a ≡ a) (bit_and-bitwise 0 0)
      (λ n half. omega (arith, bit_and_step (suc n) (suc n), half))

pub bit_and-zero : (a : ℕ) → bit_and a 0 ≡ 0
bit_and-zero =
    halving (λ a. bit_and a 0 ≡ 0) (bit_and-bitwise 0 0)
      (λ n half. omega (arith, bit_and_step (suc n) 0, half))

pub two-pow_pos : (k : ℕ) → 0 < 2 ^ k
two-pow_pos zero = omega arith
two-pow_pos (suc k) = omega (arith, pow-suc 2 k, two-pow_pos k)

-- A mask of k ones takes the remainder by 2 ^ k.
mask_suc :
    (k a : ℕ)
    → bit_and (a / 2) (2 ^ k - 1) ≡ a / 2 % 2 ^ k
    → bit_and a (2 * 2 ^ k - 1) ≡ a % (2 * 2 ^ k)
mask_suc k a half =
    let gt = two-pow_pos k in
    let e : (2 * 2 ^ k - 1) / 2 ≡ 2 ^ k - 1 = omega (arith, gt) in
    let split : a % (2 * 2 ^ k) ≡ (a / 2 % 2 ^ k) * 2 + a % 2 = grind arith in
    bit_and_step a (2 * 2 ^ k - 1) ∙ rw (e, half) (omega (arith, gt, split))

pub bit_and_mask : (k a : ℕ) → bit_and a (2 ^ k - 1) ≡ a % 2 ^ k
bit_and_mask zero a = omega (arith, bit_and-zero a)
bit_and_mask (suc k) a =
    let e : 2 ^ suc k ≡ 2 * 2 ^ k = omega (arith, pow-suc 2 k) in
    rw e (mask_suc k a (bit_and_mask k (a / 2)))

-- A number and its predecessor have no bit in common exactly if the number is a power of two.
pub bit_and_pred_pow : (k : ℕ) → bit_and (2 ^ k) (2 ^ k - 1) ≡ 0
bit_and_pred_pow k = bit_and_mask k (2 ^ k) ∙ omega (arith, mod_self (2 ^ k))

abbrev PowerIf : ℕ → Type 0
PowerIf m = 0 < m → bit_and m (m - 1) ≡ 0 → (k : ℕ) × (m ≡ 2 ^ k)

-- An odd number is 1, and an even one is twice such a number.
power-double : (n : ℕ) → PowerIf (suc n / 2) → PowerIf (suc n)
power-double n half gt e =
    let pred : n ≡ suc n - 1 = omega arith in
    let none_left : bit_and (suc n) n ≡ 0 = ap (bit_and (suc n)) pred ∙ e in
    elim (dec_lt 0 (suc n % 2)) [
      | yes odd ↦
          let same : n / 2 ≡ suc n / 2 = omega arith in
          let lost : bit_and (suc n / 2) (n / 2) ≡ suc n / 2 = rw same (bit_and_self (suc n / 2)) in
          (0, omega (arith, bit_and_step (suc n) n, lost))
      | no even ↦
          let less : n / 2 ≡ suc n / 2 - 1 = omega arith in
          let kept : bit_and (suc n / 2) (suc n / 2 - 1) ≡ 0 =
            rw⁻¹ less (omega (arith, bit_and_step (suc n) n)) in
          let (k, p) = half (omega arith) kept in (suc k, omega (arith, p, pow-suc 2 k))
    ]

pub pow_of_bit_and_pred : (m : ℕ) → PowerIf m
pow_of_bit_and_pred = halving PowerIf (λ gt e. absurd (omega arith)) power-double

-- A smaller power of two divides a larger one.
pub two_pow_dvd : (i j : ℕ) → j ≤ i → 2 ^ j ∣ 2 ^ i
two_pow_dvd zero j le = let e : j ≡ 0 = omega arith in rw e (dvd_refl (2 ^ 0))
two_pow_dvd (suc i) j le = elim (dec_lt j (suc i)) [
  | yes lt ↦
      subst (λ x. 2 ^ j ∣ x) (sym (pow-suc 2 i))
        (dvd-mul_right_of_dvd (2 ^ j) (two_pow_dvd i j (omega arith)) 2)
  | no ge ↦ let e : j ≡ suc i = omega arith in rw e (dvd_refl (2 ^ suc i))
]

pub two_pow-le : (i j : ℕ) → j ≤ i → 2 ^ j ≤ 2 ^ i
two_pow-le i j le = pow-le-pow_right {n = 2} (omega arith) le
