-- ===== src/Klibc/Copy.antt =====
-- What nd_strncpy makes of a string, and what of it stays when memory is copied or changed.
use nerd_rtos.Common.{
  Bool-cases, Memory, arith, inl, inr, suc, update, zero, ℕ, ◌+◌, ◌<◌, ◌==◌, ◌∙◌, ◌≡◌, ◌≤◌, ◌⊎◌,
}
use nerd_rtos.Klibc.{memset, strncpy}
use nerd_rtos.Klibc.Bounds.{memset-Outside, strncpy-Outside}
use nerd_rtos.Klibc.Compare.{IsString}

-- The bytes of a string with the zero behind it, at `b` in another memory.
pub IsString-Same :
    (n : ℕ) (m : Memory) (a : ℕ) (m' : Memory) (b : ℕ)
    → ((i : ℕ) → i ≤ n → m' (b + i) ≡ m (a + i))
    → IsString m a n
    → IsString m' b n
unfolding IsString
IsString-Same zero m a m' b h z = let e = h 0 (omega arith) in ground (arith, e)
IsString-Same (suc n) m a m' b h (some_byte, z) = (
  (let e = h 0 (omega arith) in ground (arith, e)),
  IsString-Same n m (a + 1) m' (b + 1)
      (λ i le. let e = h (suc i) (omega arith) in ground (arith, e)) z,
)

-- A zero byte ends a string that begins before it.
pub IsString-of_zero :
    (n : ℕ) (m : Memory) (a : ℕ) → m (a + n) ≡ 0 → (k : ℕ) × (k ≤ n) × IsString m a k
unfolding IsString
IsString-of_zero zero m a z = (0, omega arith, ground (arith, z))
IsString-of_zero (suc n) m a z = elim (Bool-cases (m a == 0)) [
  | inl e ↦ (0, omega arith, ground arith)
  | inr e ↦
      let (k, le, s) = IsString-of_zero n m (a + 1) (ground (arith, z)) in
      (suc k, omega arith, (ground arith, s))
]

pub IsString-last : (n : ℕ) (m : Memory) (a : ℕ) → IsString m a n → m (a + n) ≡ 0
unfolding IsString
IsString-last zero m a z = ground arith
IsString-last (suc n) m a (some_byte, z) = ground (arith, IsString-last n m (a + 1) z)

memset-first : (n : ℕ) (mem : Memory) (d : ℕ) → memset (suc n) mem d 0 d ≡ 0
unfolding memset
memset-first n mem d =
    memset-Outside n (update mem d 0) (d + 1) 0 d (inl (omega arith)) ∙ ground arith

-- nd_strncpy copies a string that is shorter than `count`, with its zero.
pub strncpy-copied :
    (c n : ℕ) (mem : Memory) (d s i : ℕ)
    → n < c
    → (d + c ≤ s) ⊎ (s + c ≤ d)
    → IsString mem s n
    → i ≤ n
    → strncpy c mem d s (d + i) ≡ mem (s + i)
unfolding strncpy IsString
strncpy-copied zero n mem d s i lt apart z le = absurd (omega arith)
strncpy-copied (suc c) zero mem d s i lt apart z le =
    let e : memset (suc c) mem d 0 d ≡ 0 = memset-first c mem d in ground (arith, e)
strncpy-copied (suc c) (suc n) mem d s zero lt apart (some_byte, z) le =
    let e = strncpy-Outside c (update mem d (mem s)) (d + 1) (s + 1) d (inl (omega arith)) in
    ground (arith, e)
strncpy-copied (suc c) (suc n) mem d s (suc i) lt apart (some_byte, z) le =
    let mem' = update mem d (mem s) in
    let same : (j : ℕ) → j ≤ n → mem' (s + 1 + j) ≡ mem (s + 1 + j) = λ j jle. ground arith in
    let e =
      strncpy-copied c n mem' (d + 1) (s + 1) i (omega arith) (ground arith)
        (IsString-Same n mem (s + 1) mem' (s + 1) same z) (omega arith) in
    let f = same i (omega arith) in ground (arith, e, f)
