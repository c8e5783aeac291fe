-- ===== src/Klibc/Print/Digits/Turned.antt =====
-- The digits turned round, and read back.
use nerd_rtos.Common.{
  Bool-cases, Memory, arith, inl, inr, ltb, refl, suc, update, zero, ℕ, ◌+◌, ◌-◌, ◌<◌, ◌==◌, ◌||◌,
  ◌∙◌, ◌≡◌, ◌≤◌, ◌⊎◌,
}
use nerd_rtos.Klibc.Print.{turn_round}

pub turn_round-outside :
    (fuel : ℕ) (tmp : Memory) (i j a : ℕ) → (a < i) ⊎ (j < a) → turn_round fuel tmp i j a ≡ tmp a
unfolding turn_round
turn_round-outside zero tmp i j a out = refl
turn_round-outside (suc fuel) tmp i j a out = elim (Bool-cases (ltb i j)) [
  | inl e ↦ rw e (
      let lt : i < j = ground arith in
      turn_round-outside fuel (update (update tmp i (tmp j)) j (tmp i)) (i + 1) (j - 1) a
        (ground (arith, out))
      ∙ ground (arith, out, lt))
  | inr e ↦ rw e refl
]

-- What stood at `i + j - k` stands at `k`.
pub turn_round-at :
    (fuel : ℕ) (tmp : Memory) (i j k : ℕ)
    → j - i ≤ fuel
    → i ≤ k
    → k ≤ j
    → turn_round fuel tmp i j k ≡ tmp (i + j - k)
unfolding turn_round
turn_round-at zero tmp i j k le from to = ground arith
turn_round-at (suc fuel) tmp i j k le from to = elim (Bool-cases (ltb i j)) [
  | inl e ↦ rw e (
      let lt : i < j = ground arith in
      let tmp' = update (update tmp i (tmp j)) j (tmp i) in
      elim (Bool-cases (k == i || k == j)) [
        | inl c ↦ turn_round-outside fuel tmp' (i + 1) (j - 1) k (ground arith) ∙ ground (arith, lt)
        | inr c ↦
            turn_round-at fuel tmp' (i + 1) (j - 1) k (omega (arith, lt)) (ground arith)
              (ground arith)
            ∙ ground (arith, lt)
      ])
  | inr e ↦ rw e (ground arith)
]
