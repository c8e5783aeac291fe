-- ===== src/Klibc/Token/Keeps.antt =====
-- What nd_strtok_r leaves alone: it stays before the zero that ends its string.
use nerd_rtos.Common.{
  Bool-cases, Memory, Option, arith, inl, inr, refl, suc, zero, ℕ, ◌+◌, ◌<◌, ◌==◌, ◌≡◌, ◌≤◌, ◌⊎◌,
}
use nerd_rtos.Klibc.Token.{begin, cut_token, skip_delims, skip_token, strtok_r}

skip_delims-range :
    (m n : ℕ) (mem : Memory) (s delim z : ℕ)
    → s ≤ z
    → mem z ≡ 0
    → (s ≤ skip_delims m n mem s delim) × (skip_delims m n mem s delim ≤ z)
unfolding skip_delims
skip_delims-range m zero mem s delim z le e = (omega arith, le)
skip_delims-range m (suc n) mem s delim z le e = elim (Bool-cases (mem s == 0)) [
  | inl c ↦ ground arith
  | inr c ↦
      let lt : s < z = ground arith in
      ground (arith, skip_delims-range m n mem (s + 1) delim z (omega (arith, lt)) e)
]

skip_token-range :
    (m n : ℕ) (mem : Memory) (s delim z : ℕ)
    → s ≤ z
    → mem z ≡ 0
    → (s ≤ skip_token m n mem s delim) × (skip_token m n mem s delim ≤ z)
unfolding skip_token
skip_token-range m zero mem s delim z le e = (omega arith, le)
skip_token-range m (suc n) mem s delim z le e = elim (Bool-cases (mem s == 0)) [
  | inl c ↦ ground arith
  | inr c ↦
      let lt : s < z = ground arith in
      ground (arith, skip_token-range m n mem (s + 1) delim z (omega (arith, lt)) e)
]

-- What holds after a token was cut: the next call begins no later than the zero at `z`, and only
-- bytes from `s` to before `z` have changed.
pub record IsCut (mem : Memory) (s z : ℕ) (save : ℕ) (mem' : Memory) : Type 0 where
  pub cut_from : s ≤ save
  pub cut_save : save ≤ z
  pub cut_zero : mem' z ≡ 0
  pub cut_same : (a : ℕ) → (a < s) ⊎ (z ≤ a) → mem' a ≡ mem a

cut_token-IsCut :
    (mem : Memory) (t e s z : ℕ)
    → s ≤ e
    → e ≤ z
    → mem z ≡ 0
    → IsCut mem s z (cut_token mem t e).1 (cut_token mem t e).2
unfolding cut_token
cut_token-IsCut mem t e s z ge le zero_at = elim (Bool-cases (mem e == 0)) [
  | inl c ↦
      rw c (record { cut_from = ge; cut_save = le; cut_zero = zero_at; cut_same = λ a out. refl })
  | inr c ↦
      let lt : e < z = ground arith in
      rw c (record {
        cut_from = omega arith;
        cut_save = omega (arith, lt);
        cut_zero = ground arith;
        cut_same = λ a out. ground arith;
      })
]

pub strtok_r-IsCut :
    (m n : ℕ) (mem : Memory) (str : Option ℕ) (delim save z : ℕ)
    → begin str save ≤ z
    → mem z ≡ 0
    → let r = strtok_r m n mem str delim save in IsCut mem (begin str save) z r.1 r.2
unfolding strtok_r
strtok_r-IsCut m n mem str delim save z le e =
    let s = begin str save in
    let t = skip_delims m n mem s delim in
    let (t_from, t_to) = skip_delims-range m n mem s delim z le e in
    let (e_from, e_to) = skip_token-range m n mem t delim z t_to e in
    elim (Bool-cases (mem t == 0)) [
      | inl c ↦
          rw c
            (record { cut_from = t_from; cut_save = t_to; cut_zero = e; cut_same = λ a out. refl })
      | inr c ↦ rw c (cut_token-IsCut mem t (skip_token m n mem t delim) s z (omega arith) e_to e)
    ]
