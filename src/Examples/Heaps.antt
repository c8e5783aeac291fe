-- ===== src/Examples/Heaps.antt =====
-- A heap of 200 bytes at 1000, with its nd_memheap_t at 1200.
use nerd_rtos.Common.{
  List, [], arith, count, none, refl, some, ℕ, ◌*◌, ◌+◌, ◌<◌, ◌^◌, ◌∷◌, ◌≡◌, ◌≢◌, ◌≤◌, ◌⊎◌,
}
use nerd_rtos.Kernel.State.{u32_mod}
use nerd_rtos.Memheap.Alloc.{
  find_fit, memheap_alloc, memheap_free, memheap_init, memheap_realloc, take_item,
}
use nerd_rtos.Memheap.Allocated.{Allocated}
use nerd_rtos.Memheap.Allocated.Whole.{HasRoom, memheap_alloc-Allocated}
use nerd_rtos.Memheap.FirstFit.{NoneFits}
use nerd_rtos.Memheap.Init.{memheap_init-IsHeap}
use nerd_rtos.Memheap.Invariant.{IsHeap}
use nerd_rtos.Memheap.Item.{MemHeap, free_list_replace, item_data_size, phys_list_insert_after}
use nerd_rtos.Memheap.Moved.{IsMoved, realloc-IsMoved}
use nerd_rtos.Memheap.Release.Whole.{IsReleased, memheap_free-IsReleased}
use nerd_rtos.Memheap.Split.{take_split-IsHeap}
use nerd_rtos.Memheap.System.{calloc}
use nerd_rtos.Memheap.Zeroed.{IsZeroed, calloc_lem}

abbrev nothing : MemHeap
nothing = record {
  pool = λ a. 0;
  next = λ a. 0;
  prev = λ a. 0;
  next_free = λ a. 0;
  prev_free = λ a. 0;
  bytes = λ a. 7;
  start_addr = 0;
  pool_size = 0;
  available_size = 0;
  heap_wait_list = [];
}

abbrev new_heap : MemHeap
new_heap = memheap_init nothing 1200 1000 200

new_heap-IsHeap : IsHeap new_heap 1200 (1000 ∷ []) (1000 ∷ [])
new_heap-IsHeap =
    memheap_init-IsHeap nothing 1200 1000 200 (omega arith) (omega arith) (omega arith)
      (omega arith)

new_heap-HasRoom : HasRoom new_heap 1200 32 (1000 ∷ [])
unfolding count
new_heap-HasRoom x at fits = ground (arith, at)

memheap_alloc-Allocated_example :
    Allocated new_heap 1200 32 (1000 ∷ []) (1000 ∷ []) (memheap_alloc 2 new_heap 1200 32)
memheap_alloc-Allocated_example =
    memheap_alloc-Allocated 2 new_heap 1200 32 (1000 ∷ []) (1000 ∷ []) new_heap-IsHeap (omega arith)
      refl new_heap-HasRoom

-- The block is cut after 32 bytes.
first_block : (memheap_alloc 2 new_heap 1200 32).0 ≡ some 1020
unfolding memheap_alloc find_fit memheap_init
first_block = refl

-- Its block is in use, the rest is free.
abbrev one_taken : MemHeap
one_taken = take_item new_heap 1200 32 1000

one_taken-IsHeap : IsHeap one_taken 1200 (1000 ∷ 1052 ∷ []) (1052 ∷ [])
unfolding take_item memheap_init
one_taken-IsHeap =
    take_split-IsHeap new_heap 1200 [] 1000 1052 [] [] [] new_heap-IsHeap (omega arith)
      (omega arith) (omega arith) refl 52

memheap_free-IsReleased_example :
    (bs' : List ℕ) × (fs' : List ℕ) × (y : ℕ) × IsReleased 1200 1000
      (1020 + item_data_size one_taken 1000)
      (1000 ∷ 1052 ∷ [])
      (1052 ∷ [])
      (memheap_free one_taken (some 1020))
      bs'
      fs'
      y
unfolding count
memheap_free-IsReleased_example =
    memheap_free-IsReleased one_taken 1200 1000 (1000 ∷ 1052 ∷ []) (1052 ∷ []) one_taken-IsHeap
      (omega arith) refl

calloc_lem_example :
    let r = calloc 2 new_heap 1200 (2 ^ 16) (2 ^ 16) in
    let m = memheap_alloc 2 new_heap 1200 (2 ^ 16 * 2 ^ 16) in
    ((2 ^ 16 ≡ 0) ⊎ (2 ^ 16 ≡ 0) ⊎ (u32_mod ≤ 2 ^ 16 * 2 ^ 16) → r ≡ (none, new_heap))
    × (2 ^ 16 ≢ 0
        → 2 ^ 16 ≢ 0
        → 2 ^ 16 * 2 ^ 16 < u32_mod
        → (r.0 ≡ m.0) × ((p : ℕ) → m.0 ≡ some p → IsZeroed m.1.bytes r.1.bytes p (2 ^ 16 * 2 ^ 16)))
calloc_lem_example = calloc_lem 2 new_heap 1200 (2 ^ 16) (2 ^ 16)

-- Two blocks in use, and the rest.
abbrev two_taken : MemHeap
two_taken = take_item one_taken 1200 32 1052

two_taken-IsHeap : IsHeap two_taken 1200 (1000 ∷ 1052 ∷ 1104 ∷ []) (1104 ∷ [])
unfolding take_item memheap_init phys_list_insert_after free_list_replace
two_taken-IsHeap =
    take_split-IsHeap one_taken 1200 (1000 ∷ []) 1052 1104 [] [] [] one_taken-IsHeap (omega arith)
      (omega arith) (omega arith) refl 52

two_taken-HasRoom : HasRoom two_taken 1200 40 (1104 ∷ [])
unfolding count
two_taken-HasRoom x at fits = ground (arith, at)

realloc-IsMoved_example :
    let r = memheap_realloc 2 two_taken 1200 (some 1020) 40 in
    ((r ≡ (none, two_taken)) × NoneFits two_taken 40 (1104 ∷ []))
    ⊎ ((bs' : List ℕ) × (fs' : List ℕ) × (y : ℕ) × IsMoved two_taken 1200 1000 40
          (1000 ∷ 1052 ∷ 1104 ∷ [])
          (1104 ∷ [])
          r
          bs'
          fs'
          y)
unfolding count take_item memheap_init phys_list_insert_after free_list_replace
realloc-IsMoved_example =
    realloc-IsMoved 2 two_taken 1200 1000 40 (1000 ∷ 1052 ∷ 1104 ∷ []) (1104 ∷ []) two_taken-IsHeap
      (omega arith) refl two_taken-HasRoom (omega arith, refl) (omega arith) refl
