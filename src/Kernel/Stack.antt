-- ===== src/Kernel/Stack.antt =====
-- The stacks of threads, kernel/nd_thread.c.
use nerd_rtos.Common.{
  Bool-cases, Memory, Option, arith, if◌then◌else◌, inl, inr, none, some, suc, zero, ℕ, ℕ-cases,
  ◌+◌, ◌-◌, ◌<◌, ◌==◌, ◌≡◌, ◌≢◌, ◌≤◌,
}
use nerd_rtos.Kernel.State.{Err, einval, eok}
use nerd_rtos.Memheap.Item.{MemHeap}
use nerd_rtos.Memheap.System.{free, malloc}

-- nd_thread_stack_alloc and nd_thread_stack_free
abbrev pub stack_alloc : ℕ → MemHeap → ℕ → ℕ → Option ℕ × MemHeap
stack_alloc rounds h k_system_heap size = malloc rounds h k_system_heap size

abbrev pub stack_free : MemHeap → Option ℕ → Err × MemHeap
stack_free h none = (einval, h)
stack_free h (some stack) = (eok, free h (some stack))

-- The loop of nd_thread_stack_used, for the bytes that are left: how many from `p` on are 0xAA.
unfoldable pub unused_bytes : ℕ → Memory → ℕ → ℕ
unused_bytes zero mem p = 0
unused_bytes (suc n) mem p =
    let rest = unused_bytes n mem (p + 1) in if mem p == 0xAA then rest + 1 else 0

-- nd_thread_stack_used, by the stack's address and size
unfoldable pub stack_used : Memory → ℕ → ℕ → ℕ
stack_used mem stack_addr stack_size = stack_size - unused_bytes stack_size mem stack_addr

unused_bytes-prefix :
    (n : ℕ) (mem : Memory) (p : ℕ)
    → let u = unused_bytes n mem p in
      (u ≤ n) × ((i : ℕ) → i < u → mem (p + i) ≡ 0xAA) × (u < n → mem (p + u) ≢ 0xAA)
unfolding unused_bytes
unused_bytes-prefix zero mem p =
    (omega arith, (λ i lt. absurd (omega (arith, lt))), λ lt. absurd (omega (arith, lt)))
unused_bytes-prefix (suc n) mem p = elim (Bool-cases (mem p == 0xAA)) [
  | inl e ↦
      let (le, all, stop) = unused_bytes-prefix n mem (p + 1) in
      rw e (
        omega (arith, le),
        (λ i lt. elim (ℕ-cases i) [
          | inl z ↦ ground (arith, e, z)
          | inr (j, z) ↦ let a = all j (omega (arith, lt, z)) in ground (arith, a, z)
        ]),
        (λ lt. let s = stop (omega (arith, lt)) in ground (arith, s)),
      )
  | inr e ↦ rw e (omega arith, (λ i lt. absurd (omega (arith, lt))), λ lt. ground (arith, e))
]

-- nd_thread_stack_used is at most the size: the bytes below what it counts still have the pattern
-- 0xAA, and the first that it counts does not.
pub stack_used-prefix :
    (mem : Memory) (stack_addr stack_size : ℕ)
    → let used = stack_used mem stack_addr stack_size in
      (used ≤ stack_size)
      × ((i : ℕ) → i < stack_size - used → mem (stack_addr + i) ≡ 0xAA)
      × (0 < used → mem (stack_addr + (stack_size - used)) ≢ 0xAA)
unfolding stack_used
stack_used-prefix mem stack_addr stack_size =
    let (le, all, stop) = unused_bytes-prefix stack_size mem stack_addr in
    let u = unused_bytes stack_size mem stack_addr in
    let back : stack_size - (stack_size - u) ≡ u = omega (arith, le) in
    (omega arith, (λ i lt. all i (omega (arith, lt, le))), λ lt. rw back (stop (omega (arith, lt))))
