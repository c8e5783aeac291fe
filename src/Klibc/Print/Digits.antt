-- ===== src/Klibc/Print/Digits.antt =====
-- The digits that nd_vsnprintf makes of a number, and the number that they stand for.
pub mod Turned
use nerd_rtos.Common.{
  Bool-cases, Memory, arith, inl, inr, refl, suc, update, zero, ℕ, ℕ-cases, ◌%◌, ◌*◌, ◌+◌, ◌-◌, ◌/◌,
  ◌<◌, ◌==◌, ◌^◌, ◌≡◌, ◌≢◌, ◌≤◌,
}
use nerd_rtos.Klibc.Print.{decimal_digits}

-- The number that the `n` characters from `a` on stand for in decimal.
unfoldable pub decimal_value : Memory → ℕ → ℕ → ℕ
decimal_value mem a zero = 0
decimal_value mem a (suc n) = decimal_value mem a n * 10 + (mem (a + n) - 48)

-- The number without its last `k` decimal digits.
unfoldable pub shift : ℕ → ℕ → ℕ
shift v zero = v
shift v (suc k) = shift (v / 10) k

pub shift-next : (v k : ℕ) → shift v (suc k) ≡ shift v k / 10
unfolding shift
shift-next v zero = refl
shift-next v (suc k) = shift-next (v / 10) k

-- From `len` on stand the `n` decimal digits of `v` that are not leading zeros, the lowest first.
pub record IsLowFirst (tmp : Memory) (len v n : ℕ) (r : Memory × ℕ) : Type 0 where
  pub low_len : r.1 ≡ len + n
  pub low_digits : (k : ℕ) → k < n → r.0 (len + k) ≡ shift v k % 10 + 48
  pub low_some : (k : ℕ) → k < n → shift v k ≢ 0
  pub low_all : shift v n ≡ 0
  pub low_before : (a : ℕ) → a < len → r.0 a ≡ tmp a

pub decimal_digits-IsLowFirst :
    (fuel : ℕ) (tmp : Memory) (len v : ℕ)
    → v < 10 ^ fuel
    → (n : ℕ) × (n ≤ fuel) × IsLowFirst tmp len v n (decimal_digits fuel tmp len v)
unfolding decimal_digits shift
decimal_digits-IsLowFirst zero tmp len v lt = (
  0,
  omega arith,
  record {
    low_len = omega arith;
    low_digits = λ k klt. absurd (omega (arith, klt));
    low_some = λ k klt. absurd (omega (arith, klt));
    low_all = omega (arith, lt);
    low_before = λ a alt. refl;
  },
)
decimal_digits-IsLowFirst (suc fuel) tmp len v lt = elim (Bool-cases (v == 0)) [
  | inl e ↦ rw e (
    0,
    omega arith,
    record {
      low_len = omega arith;
      low_digits = λ k klt. absurd (omega (arith, klt));
      low_some = λ k klt. absurd (omega (arith, klt));
      low_all = ground arith;
      low_before = λ a alt. refl;
    },
  )
  | inr e ↦
      let tmp' = update tmp len (v % 10 + 48) in
      let (n, le, f) = decimal_digits-IsLowFirst fuel tmp' (len + 1) (v / 10) (omega (arith, lt)) in
      rw e (
        suc n,
        omega arith,
        record {
          low_len = omega (arith, f.low_len);
          low_digits = λ k klt. elim (ℕ-cases k) [
            | inl z ↦ let g = f.low_before len (omega arith) in rw z (ground (arith, g))
            | inr (j, z) ↦ rw z (let g = f.low_digits j (omega arith) in ground (arith, g))
          ];
          low_some = λ k klt. elim (ℕ-cases k) [
            | inl z ↦ rw z (ground arith)
            | inr (j, z) ↦ rw z (f.low_some j (omega arith))
          ];
          low_all = f.low_all;
          low_before = λ a alt. let g = f.low_before a (omega arith) in ground (arith, g);
        },
      )
]
