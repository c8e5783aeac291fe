-- ===== src/Memheap/Zeroed.antt =====
-- When nd_calloc gives a block, and what stands in it.
use nerd_rtos.Common.{
  Memory, Option, arith, false, if◌then◌else◌, inl, ltb, none, refl, some, subst, suc, update, zero,
  ℕ, ◌*◌, ◌+◌, ◌-◌, ◌<◌, ◌==◌, ◌||◌, ◌≡◌, ◌≢◌, ◌≤◌, ◌⊎◌,
}
use nerd_rtos.Kernel.State.{u32_mod}
use nerd_rtos.Klibc.{memset}
use nerd_rtos.Klibc.Bounds.{Outside, memset-Outside}
use nerd_rtos.Memheap.Alloc.{memheap_alloc}
use nerd_rtos.Memheap.Item.{MemHeap}
use nerd_rtos.Memheap.System.{calloc, zeroed}

memset-zero : (n : ℕ) (mem : Memory) (d i : ℕ) → i < n → memset n mem d 0 (d + i) ≡ 0
unfolding memset
memset-zero zero mem d i lt = absurd (omega arith)
memset-zero (suc n) mem d zero lt =
    let e = memset-Outside n (update mem d 0) (d + 1) 0 d (inl (omega arith)) in ground (arith, e)
memset-zero (suc n) mem d (suc i) lt =
    let e = memset-zero n (update mem d 0) (d + 1) i (omega arith) in ground (arith, e)

-- The block at `p` has `total` zero bytes, and the others are as in `mem`.
pub record IsZeroed (mem mem' : Memory) (p total : ℕ) : Type 0 where
  pub zeros : (i : ℕ) → i < total → mem' (p + i) ≡ 0
  pub others : (a : ℕ) → Outside a p total → mem' a ≡ mem a

zeroed-IsZeroed :
    (r : Option ℕ) (h : MemHeap) (total : ℕ)
    → ((zeroed r h total).0 ≡ r)
      × ((p : ℕ) → r ≡ some p → IsZeroed h.bytes (zeroed r h total).1.bytes p total)
unfolding zeroed
zeroed-IsZeroed none h total = (refl, λ p e. cc)
zeroed-IsZeroed (some q) h total = (
  refl,
  λ p e.
      let same : q ≡ p = cc in
      subst (λ x. IsZeroed h.bytes (memset total h.bytes q 0) x total) same
        (record {
          zeros = λ i lt. memset-zero total h.bytes q i lt;
          others = λ a out. memset-Outside total h.bytes q 0 a out;
        }),
)

-- nd_calloc returns null and changes nothing if the count or the size is 0 or their product does
-- not fit into 32 bits; otherwise it returns what nd_malloc of the product returns, and the
-- bytes of the block are zero and no others change.
pub calloc_lem :
    (rounds : ℕ) (h : MemHeap) (k_system_heap n size : ℕ)
    → let r = calloc rounds h k_system_heap n size in
      let m = memheap_alloc rounds h k_system_heap (n * size) in
      ((size ≡ 0) ⊎ (n ≡ 0) ⊎ (u32_mod ≤ n * size) → r ≡ (none, h))
      × (size ≢ 0
          → n ≢ 0
          → n * size < u32_mod
          → (r.0 ≡ m.0) × ((p : ℕ) → m.0 ≡ some p → IsZeroed m.1.bytes r.1.bytes p (n * size)))
unfolding calloc
calloc_lem rounds h k_system_heap n size =
    let m = memheap_alloc rounds h k_system_heap (n * size) in
    (λ bad. refuse (n * size) bad, λ some_size some_n fits. accept (n * size) some_size some_n fits)
  where
    refuse :
        (total : ℕ)
        → (size ≡ 0) ⊎ (n ≡ 0) ⊎ (u32_mod ≤ total)
        → ◌≡◌ {A = Option ℕ × MemHeap}
            (if size == 0 || n == 0
              then (none, h)
              else if ltb (u32_mod - 1) total
              then (none, h)
              else zeroed
                  (memheap_alloc rounds h k_system_heap total).0
                  (memheap_alloc rounds h k_system_heap total).1
                  total)
            (none, h)
    refuse total bad = ground (arith, bad)

    accept :
        (total : ℕ)
        → size ≢ 0
        → n ≢ 0
        → total < u32_mod
        → let m = memheap_alloc rounds h k_system_heap total in
          let r : Option ℕ × MemHeap =
            if size == 0 || n == 0
            then (none, h)
            else if ltb (u32_mod - 1) total
            then (none, h)
            else zeroed m.0 m.1 total in
          (r.0 ≡ m.0) × ((p : ℕ) → m.0 ≡ some p → IsZeroed m.1.bytes r.1.bytes p total)
    accept total some_size some_n fits =
        let m = memheap_alloc rounds h k_system_heap total in
        let a : (size == 0 || n == 0) ≡ false = ground (arith, some_size, some_n) in
        let b : ltb (u32_mod - 1) total ≡ false = ground (arith, fits) in
        rw (a, b) (zeroed-IsZeroed m.0 m.1 total)
