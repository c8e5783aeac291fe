-- ===== src/Memheap/Alloc.antt =====
-- Allocation and release, kernel/nd_memheap.c.
use nerd_rtos.Common.{
  Option, [], if◌then◌else◌, leb, ltb, memcpy, none, some, suc, update, zero, ℕ, ◌%◌, ◌&&◌, ◌+◌,
  ◌-◌, ◌==◌,
}
use nerd_rtos.Kernel.State.{u32_mod}
use nerd_rtos.Memheap.Item.{
  MemHeap, data_to_item, end_item, free_list_insert_after, free_list_remove, free_list_replace,
  item_data_size, item_init, item_is_free, item_next, item_size, item_split_at, item_to_data,
  or_low, phys_list_insert_after, phys_list_remove, set_free, set_used, start_item,
}

-- available_size += n and -= n
abbrev pub add_available : MemHeap → ℕ → MemHeap
add_available h n = record h { available_size = (h.available_size + n) % u32_mod }

abbrev pub sub_available : MemHeap → ℕ → MemHeap
sub_available h n = record h {
  available_size = (h.available_size + (u32_mod - n % u32_mod)) % u32_mod;
}

-- The two mergers of memheap_coalesce.
unfoldable pub merge_next : MemHeap → ℕ → MemHeap
merge_next h next_item =
    if item_is_free h next_item
    then add_available (phys_list_remove (free_list_remove h next_item) next_item) item_size
    else h

unfoldable pub merge_prev : MemHeap → ℕ → ℕ → MemHeap
merge_prev h heap item =
    if item_is_free h (h.prev item)
    then (let h' = add_available (phys_list_remove h item) item_size in set_free h' (h'.prev item))
    else set_free (free_list_insert_after h (start_item heap) item) item

unfoldable pub memheap_coalesce : MemHeap → ℕ → ℕ → MemHeap
memheap_coalesce h heap item =
    let h' = add_available h (item_data_size h item) in
    merge_prev (merge_next h' (item_next h' item)) heap item

-- The loop of _memheap_alloc, from `item` on for some rounds: the first block that is large enough,
-- or start_item.
unfoldable pub find_fit : ℕ → MemHeap → ℕ → ℕ → ℕ → ℕ
find_fit zero h heap size item = item
find_fit (suc n) h heap size item =
    let rest = find_fit n h heap size (h.next_free item) in
    if item == start_item heap
    then item
    else if leb size (item_data_size h item)
    then item
    else rest

-- What _memheap_alloc does with the block `item`, which is large enough.
unfoldable pub take_item : MemHeap → ℕ → ℕ → ℕ → MemHeap
take_item h heap size item =
    let block_size = item_data_size h item in
    let new_item = item_split_at item size in
    let split =
      sub_available
        (phys_list_insert_after (free_list_replace (item_init h new_item heap) item new_item) item
          new_item)
        (size + item_size) in
    let whole = sub_available (free_list_remove h item) block_size in
    set_used (if leb ((size + item_size) % u32_mod) block_size then split else whole) item

-- _memheap_alloc and nd_memheap_alloc, with a free list of fewer than `rounds` blocks
unfoldable pub memheap_alloc : ℕ → MemHeap → ℕ → ℕ → Option ℕ × MemHeap
memheap_alloc rounds h heap size =
    let item = find_fit rounds h heap size (h.next_free (start_item heap)) in
    if item == start_item heap
    then (none, h)
    else (some (item_to_data item), take_item h heap size item)

-- _memheap_free, without the assertion of a debug build, and nd_memheap_free
unfoldable pub memheap_free : MemHeap → Option ℕ → MemHeap
memheap_free h none = h
memheap_free h (some ptr) = memheap_coalesce h (h.pool (data_to_item ptr)) (data_to_item ptr)

-- nd_memheap_init; what it does not write stays as it was.
unfoldable pub memheap_init : MemHeap → ℕ → ℕ → ℕ → MemHeap
memheap_init h heap start size =
    let s = start_item heap in
    let e = end_item heap in
    record h {
      start_addr = start;
      pool_size = size;
      available_size = (size + (u32_mod - item_size)) % u32_mod;
      heap_wait_list = [];
      pool = update (update (update h.pool s heap) start heap) e heap;
      next = update (update (update h.next s (or_low start 1)) start e) e (or_low s 1);
      prev = update (update (update h.prev s start) start s) e start;
      next_free = update (update h.next_free s start) start s;
      prev_free = update (update h.prev_free s start) start s;
    }

-- nd_memheap_realloc where the block shrinks: the rest becomes a block if a header fits into it.
unfoldable pub shrink : MemHeap → ℕ → ℕ → ℕ → MemHeap
shrink h heap item size =
    let new_item = item_split_at item size in
    if leb item_size (item_data_size h item - size)
    then memheap_coalesce (phys_list_insert_after (item_init h new_item heap) item new_item) heap
        new_item
    else h

-- Where it grows into the free block behind it.
unfoldable pub grow : MemHeap → ℕ → ℕ → ℕ → ℕ → MemHeap
grow h heap item size next_item =
    let block_size = item_data_size h item in
    let left = (block_size + item_data_size h next_item + (u32_mod - size)) % u32_mod in
    let new_item = item_split_at item size in
    let h' = phys_list_remove (free_list_remove h next_item) next_item in
    let split =
      free_list_insert_after (phys_list_insert_after (item_init h' new_item heap) item new_item)
        (start_item heap) new_item in
    sub_available (if leb item_size left then split else add_available h' item_size)
      (size - block_size)

-- Where it is copied into another block.
unfoldable pub move_block : Option ℕ → MemHeap → ℕ → ℕ → Option ℕ × MemHeap
move_block none h ptr block_size = (none, h)
move_block (some new_ptr) h ptr block_size = (
  some new_ptr,
  memheap_free (record h { bytes = memcpy h.bytes new_ptr h.bytes ptr block_size }) (some ptr),
)

-- nd_memheap_realloc of a block.
unfoldable pub realloc_block : ℕ → MemHeap → ℕ → ℕ → ℕ → Option ℕ × MemHeap
realloc_block rounds h heap ptr size =
    let item = data_to_item ptr in
    let block_size = item_data_size h item in
    let next_item = item_next h item in
    let (new_ptr, h') = memheap_alloc rounds h heap size in
    if size == block_size
    then (some ptr, h)
    else if ltb size block_size
    then (some ptr, shrink h heap item size)
    else if item_is_free h next_item
        && leb size ((block_size + item_size + item_data_size h next_item) % u32_mod)
    then (some ptr, grow h heap item size next_item)
    else move_block new_ptr h' ptr block_size

unfoldable pub memheap_realloc : ℕ → MemHeap → ℕ → Option ℕ → ℕ → Option ℕ × MemHeap
memheap_realloc rounds h heap none size = memheap_alloc rounds h heap size
memheap_realloc rounds h heap (some ptr) size = realloc_block rounds h heap ptr size
