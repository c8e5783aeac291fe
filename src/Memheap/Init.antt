-- ===== src/Memheap/Init.antt =====
-- A heap that nd_memheap_init has set up.
use nerd_rtos.Common.{Bool-cases, [], arith, count, inl, inr, ℕ, ◌%◌, ◌+◌, ◌<◌, ◌==◌, ◌∷◌, ◌≡◌, ◌≤◌}
use nerd_rtos.Kernel.State.{u32_mod}
use nerd_rtos.Memheap.Alloc.{memheap_init}
use nerd_rtos.Memheap.Invariant.{IsHeap}
use nerd_rtos.Memheap.Item.{MemHeap, item_size}
use nerd_rtos.Memheap.Ring.{IsLinks}
use nerd_rtos.Memheap.Spaced.{IsSpaced}

-- If the memory begins at an even address and lies, with room for a header, before the nd_memheap_t,
-- nd_memheap_init makes a heap in order whose one block is free.
pub memheap_init-IsHeap :
    (h : MemHeap) (heap start size : ℕ)
    → heap % 2 ≡ 0
    → start % 2 ≡ 0
    → start + item_size ≤ heap
    → heap + 20 < u32_mod
    → IsHeap (memheap_init h heap start size) heap (start ∷ []) (start ∷ [])
unfolding memheap_init IsLinks IsSpaced count
memheap_init-IsHeap h heap start size heap_even start_even le limit = record {
  phys = (
    ground (arith, heap_even, start_even, le),
    ground (arith, le),
    (ground (arith, heap_even, start_even, le), ground (arith, le)),
  );
  spaced = (omega (arith, le), tt);
  before_heap = λ x at. ground (arith, at, le);
  even = λ x at. ground (arith, at, heap_even, start_even);
  free_chain = (ground (arith, le), ground (arith, le), (ground (arith, le), ground (arith, le)));
  marked = λ x. elim (Bool-cases (start == x)) [
    | inl e ↦ ground (arith, e, le, heap_even)
    | inr e ↦ ground (arith, e)
  ];
  ends_used = (ground (arith, le, start_even), ground (arith, le, heap_even));
  pools = λ x at. ground (arith, at, le);
  limited = limit;
}
