-- ===== src/Klibc/Print/Signed.antt =====
-- What nd_vsnprintf prints of a number reads back as the number.
use nerd_rtos.Common.{
  Bool-cases, Memory, ap, arith, false, if◌then◌else◌, inl, inr, ltb, negsuc, pos, refl, suc, sym,
  true, update, zero, ℕ, ℤ, ◌%◌, ◌+◌, ◌-◌, ◌/◌, ◌<◌, ◌==◌, ◌^◌, ◌∙◌, ◌≡◌, ◌≢◌, ◌≤◌,
}
use nerd_rtos.Kernel.State.{u32_mod}
use nerd_rtos.Klibc.Print.{print_decimal, print_signed, turn_round, turned}
use nerd_rtos.Klibc.Print.Digits.{
  IsLowFirst, decimal_digits-IsLowFirst, decimal_value, shift, shift-next,
}
use nerd_rtos.Klibc.Print.Digits.Turned.{turn_round-at, turn_round-outside}

value-shift :
    (mem : Memory) (start n v k : ℕ)
    → ((j : ℕ) → j < n → mem (start + j) ≡ shift v (n - 1 - j) % 10 + 48)
    → shift v n ≡ 0
    → k ≤ n
    → decimal_value mem start k ≡ shift v (n - k)
unfolding decimal_value
value-shift mem start n v zero h all le = sym all ∙ ap (shift v) {y = n - 0} (omega arith)
value-shift mem start n v (suc k) h all le =
    let m = n - 1 - k in
    let digit = h k (omega arith) in
    let before : decimal_value mem start k ≡ shift v m / 10 =
      value-shift mem start n v k h all (omega arith)
      ∙ ap (shift v) {x = n - k} {y = suc m} (omega arith)
      ∙ shift-next v m in
    omega (arith, digit, before, ap (shift v) {x = n - suc k} {y = m} (omega arith))

-- From `start` on stand the characters of `v`: one to ten digits, the first of them no zero
-- unless `v` is 0; the characters before `start` are left alone.
pub record IsDecimal (tmp : Memory) (start v : ℕ) (r : Memory × ℕ) (n : ℕ) : Type 0 where
  pub text_len : r.1 ≡ start + n
  pub text_range : (0 < n) × (n ≤ 10)
  pub text_digits : (k : ℕ) → k < n → (48 ≤ r.0 (start + k)) × (r.0 (start + k) ≤ 57)
  pub text_first : v ≢ 0 → r.0 start ≢ 48
  pub text_value : decimal_value r.0 start n ≡ v
  pub text_before : (a : ℕ) → a < start → r.0 a ≡ tmp a

shift_none : (v k : ℕ) → k ≡ 0 → shift v k ≡ v
unfolding shift
shift_none v k e = rw e refl

turned-IsDecimal :
    (tmp : Memory) (start v n : ℕ) (r : Memory × ℕ)
    → v ≢ 0
    → n ≤ 10
    → IsLowFirst tmp start v n r
    → IsDecimal tmp start v (turned start r) n
turned-IsDecimal tmp start v n (tmp', len) some_digit le f =
    let t = turn_round len tmp' start (len - 1) in
    let n_pos : n ≢ 0 = λ z. some_digit (sym (shift_none v n z) ∙ f.low_all) in
    let at : (j : ℕ) → j < n → t (start + j) ≡ shift v (n - 1 - j) % 10 + 48 = λ j lt.
      turn_round-at len tmp' start (len - 1) (start + j) (omega arith) (omega arith)
        (omega (arith, f.low_len))
      ∙ ap tmp' {y = start + (n - 1 - j)} (omega (arith, f.low_len))
      ∙ f.low_digits (n - 1 - j) (omega arith) in
    let first : t start ≡ shift v (n - 1) % 10 + 48 =
      ap t {y = start + 0} (omega arith)
      ∙ at 0 (omega (arith, n_pos))
      ∙ ap (λ x. shift v x % 10 + 48) {y = n - 1} (omega arith) in
    let top_next : shift v n ≡ shift v (n - 1) / 10 =
      ap (shift v) {y = suc (n - 1)} (omega (arith, n_pos)) ∙ shift-next v (n - 1) in
    let top : shift v (n - 1) ≢ 0 = f.low_some (n - 1) (omega (arith, n_pos)) in
    record {
      text_len = f.low_len;
      text_range = omega (arith, n_pos, le);
      text_digits = λ k lt. let e = at k lt in omega (arith, e);
      text_first = λ _. omega (arith, first, top_next, f.low_all, top);
      text_value =
          value-shift t start n v n at f.low_all (omega arith) ∙ shift_none v (n - n) (omega arith);
      text_before =
          λ a lt. turn_round-outside len tmp' start (len - 1) a (inl lt) ∙ f.low_before a lt;
    }

zero-IsDecimal :
    (tmp : Memory) (start : ℕ) → IsDecimal tmp start 0 (update tmp start 48, start + 1) 1
zero-IsDecimal tmp start = record {
  text_len = refl;
  text_range = omega arith;
  text_digits = λ k lt. let z : k ≡ 0 = omega arith in ground (arith, z);
  text_first = λ ne. absurd (ne refl);
  text_value = unfold decimal_value in ground arith;
  text_before = λ a lt. ground arith;
}

pub print_decimal-IsDecimal :
    (tmp : Memory) (start v : ℕ)
    → v < 2 ^ 32
    → (n : ℕ) × IsDecimal tmp start v (print_decimal tmp start v) n
unfolding print_decimal
print_decimal-IsDecimal tmp start v lt = elim (Bool-cases (v == 0)) [
  | inl e ↦ let z : v ≡ 0 = ground arith in rw z (1, zero-IsDecimal tmp start)
  | inr e ↦
      let (n, le, f) = decimal_digits-IsLowFirst 10 tmp start v (omega arith) in
      rw e (n, turned-IsDecimal tmp start v n _ (ground arith) le f)
]

-- The int that the word `n` stands for.
abbrev pub int_of_word : ℕ → ℤ
int_of_word n = if ltb n (2 ^ 31) then pos n else negsuc (2 ^ 32 - n - 1)

-- The int that `len` characters stand for: digits, behind a '-' or not.
abbrev pub int_of_text : Memory → ℕ → ℤ
int_of_text mem len =
    if mem 0 == 45
    then negsuc (decimal_value mem 1 (len - 1) - 1)
    else pos (decimal_value mem 0 len)

-- For every 32-bit word the text that %d makes of it stands for the int that the word stands
-- for, and it has one to eleven characters, which fit into tmp_buf.
pub print_signed-int_of_text :
    (tmp : Memory) (num : ℕ)
    → num < 2 ^ 32
    → let (tmp', len) = print_signed tmp num in
      (int_of_text tmp' len ≡ int_of_word num) × (0 < len) × (len ≤ 11)
unfolding print_signed
print_signed-int_of_text tmp num lt = elim (Bool-cases (ltb num (2 ^ 31))) [
  | inl e ↦
      let (n, f) = print_decimal-IsDecimal tmp 0 num lt in
      let (tmp', len) = print_decimal tmp 0 num in
      let len_eq : len ≡ n = omega (arith, f.text_len) in
      let digit = f.text_digits 0 (omega (arith, f.text_range)) in
      let no_sign : (tmp' 0 == 45) ≡ false = ground (arith, digit) in
      rw (e, no_sign)
        (
          ap (λ x. pos (decimal_value tmp' 0 x)) len_eq ∙ ap pos f.text_value,
          omega (arith, f.text_range, len_eq),
          omega (arith, f.text_range, len_eq),
        )
  | inr e ↦
      let v = u32_mod - num in
      let ge : 2 ^ 31 ≤ num = ground arith in
      let (n, f) = print_decimal-IsDecimal (update tmp 0 45) 1 v (omega arith) in
      let (tmp', len) = print_decimal (update tmp 0 45) 1 v in
      let len_eq : len - 1 ≡ n = omega (arith, f.text_len) in
      let sign : (tmp' 0 == 45) ≡ true =
        let g = f.text_before 0 (omega arith) in ground (arith, g) in
      rw (e, sign)
        (
          ap (λ x. negsuc (decimal_value tmp' 1 x - 1)) len_eq
              ∙ ap (λ x. negsuc (x - 1)) f.text_value,
          omega (arith, f.text_range, f.text_len),
          omega (arith, f.text_range, f.text_len),
        )
]
