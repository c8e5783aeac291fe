-- ===== src/Memheap/System.antt =====
-- The system heap, kernel/nd_mem.c; its address is k_system_heap.
use nerd_rtos.Common.{Option, if◌then◌else◌, ltb, none, some, ℕ, ◌*◌, ◌-◌, ◌==◌, ◌||◌}
use nerd_rtos.Kernel.State.{u32_mod}
use nerd_rtos.Klibc.{memset}
use nerd_rtos.Memheap.Alloc.{memheap_alloc, memheap_free, memheap_init, memheap_realloc}
use nerd_rtos.Memheap.Item.{MemHeap}

abbrev pub system_heap_init : MemHeap → ℕ → ℕ → ℕ → MemHeap
system_heap_init h k_system_heap start size = memheap_init h k_system_heap start size

abbrev pub malloc : ℕ → MemHeap → ℕ → ℕ → Option ℕ × MemHeap
malloc rounds h k_system_heap size = memheap_alloc rounds h k_system_heap size

abbrev pub free : MemHeap → Option ℕ → MemHeap
free h ptr = memheap_free h ptr

abbrev pub realloc : ℕ → MemHeap → ℕ → Option ℕ → ℕ → Option ℕ × MemHeap
realloc rounds h k_system_heap ptr size = memheap_realloc rounds h k_system_heap ptr size

-- The bytes of a block are set to zero.
unfoldable pub zeroed : Option ℕ → MemHeap → ℕ → Option ℕ × MemHeap
zeroed none h total = (none, h)
zeroed (some ptr) h total = (some ptr, record h { bytes = memset total h.bytes ptr 0 })

unfoldable pub calloc : ℕ → MemHeap → ℕ → ℕ → ℕ → Option ℕ × MemHeap
calloc rounds h k_system_heap n size =
    let total = n * size in
    let (ptr, h') = malloc rounds h k_system_heap total in
    if size == 0 || n == 0
    then (none, h)
    else if ltb (u32_mod - 1) total
    then (none, h)
    else zeroed ptr h' total
