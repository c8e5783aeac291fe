-- ===== src/Memheap/Invariant.antt =====
-- The invariant of a heap whose memory lies before the nd_memheap_t itself.
use nerd_rtos.Common.{
  Bool-cases, List, arith, count, false, if◌then◌else◌, inl, inr, ℕ, ◌%◌, ◌+◌, ◌<◌, ◌==◌, ◌∷◌, ◌≡◌,
  ◌≢◌, ◌≤◌,
}
use nerd_rtos.Kernel.State.{u32_mod}
use nerd_rtos.Memheap.Item.{MemHeap, item_is_free, item_next, item_size}
use nerd_rtos.Memheap.Ring.{IsLinks}
use nerd_rtos.Memheap.Ring.Path.{IsPath}
use nerd_rtos.Memheap.Spaced.{IsSpaced, IsSpaced-distinct}

-- `bs` are the blocks in the order of their addresses, `fs` those on the free list in its order.
pub record IsHeap (h : MemHeap) (heap : ℕ) (bs fs : List ℕ) : Type 0 where
  pub phys : IsLinks (item_next h) h.prev heap bs (heap + 20)
  pub spaced : IsSpaced bs (heap + 20)
  pub before_heap : (x : ℕ) → count x bs ≢ 0 → x + item_size ≤ heap
  pub even : (x : ℕ) → count x (heap ∷ bs) ≢ 0 → x % 2 ≡ 0
  pub free_chain : IsLinks h.next_free h.prev_free heap fs heap
  pub marked : (x : ℕ) → count x fs ≡ (if item_is_free h x then count x bs else 0)
  pub ends_used : (item_is_free h heap ≡ false) × (item_is_free h (heap + 20) ≡ false)
  pub pools : (x : ℕ) → count x bs ≢ 0 → h.pool x ≡ heap
  pub limited : heap + 20 < u32_mod

module _ {h : MemHeap} {heap : ℕ} {bs fs : List ℕ} (f : IsHeap h heap bs fs) where
  pub heap-away : count heap bs ≡ 0
  heap-away = elim (Bool-cases (count heap bs == 0)) [
    | inl e ↦ ground arith
    | inr e ↦ let le = f.before_heap heap (ground arith) in absurd (omega (arith, le))
  ]

  pub end-away : count (heap + 20) bs ≡ 0
  end-away = elim (Bool-cases (count (heap + 20) bs == 0)) [
    | inl e ↦ ground arith
    | inr e ↦ let le = f.before_heap (heap + 20) (ground arith) in absurd (omega (arith, le))
  ]

  pub phys-IsPath : IsPath heap bs (heap + 20)
  unfolding count
  phys-IsPath = record {
    once = λ z.
        let o = IsSpaced-distinct z bs (heap + 20) f.spaced in
        let away = heap-away in ground (arith, o, away);
    end_away = end-away;
  }

  pub free-IsPath : IsPath heap fs heap
  unfolding count
  free-IsPath =
      let heap_away : count heap fs ≡ 0 =
        let m = f.marked heap in let a = heap-away in ground (arith, m, a) in
      record {
        once = λ z.
            let o = IsSpaced-distinct z bs (heap + 20) f.spaced in
            let m = f.marked z in ground (arith, o, m, heap_away);
        end_away = heap_away;
      }
