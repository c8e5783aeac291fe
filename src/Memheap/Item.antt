-- ===== src/Memheap/Item.antt =====
-- Block headers, include/nd_mem.h and the inline functions of kernel/nd_memheap.c.
use nerd_rtos.Common.{Bool, List, Memory, if◌then◌else◌, update, ℕ, ◌%◌, ◌*◌, ◌+◌, ◌-◌, ◌==◌}
use nerd_rtos.Ipc.MsgQueue.{offset}
use nerd_rtos.Kernel.State.{u32_mod}

-- sizeof(nd_memheap_item_t) on a 32-bit target without ND_CFG_DEBUG: five pointers
abbrev pub item_size : ℕ
item_size = 20

-- The headers, by their addresses, the bytes of the blocks, and the fields of nd_memheap_t. The
-- lowest bit of `next` says that the block is in use. The pointers to the pool are those that
-- item_init writes.
pub record MemHeap : Type 0 where
  pub pool : ℕ → ℕ
  pub next : ℕ → ℕ
  pub prev : ℕ → ℕ
  pub next_free : ℕ → ℕ
  pub prev_free : ℕ → ℕ
  pub bytes : Memory
  pub start_addr : ℕ
  pub pool_size : ℕ
  pub available_size : ℕ
  pub heap_wait_list : List ℕ

-- &heap->start_item and &heap->end_item of the heap at an address
abbrev pub start_item : ℕ → ℕ
start_item heap = heap

abbrev pub end_item : ℕ → ℕ
end_item heap = heap + item_size

-- n & ~1
abbrev pub clear_low : ℕ → ℕ
clear_low n = n - n % 2

-- n | (m & 1)
abbrev pub or_low : ℕ → ℕ → ℕ
or_low n m = if m % 2 == 0 then n else clear_low n + 1

-- ITEM_IS_FREE
abbrev pub item_is_free : MemHeap → ℕ → Bool
item_is_free h item = h.next item % 2 == 0

-- ITEM_SET_USED and ITEM_SET_FREE
abbrev pub set_used : MemHeap → ℕ → MemHeap
set_used h item = record h { next = update h.next item (or_low (h.next item) 1) }

abbrev pub set_free : MemHeap → ℕ → MemHeap
set_free h item = record h { next = update h.next item (clear_low (h.next item)) }

abbrev pub item_next : MemHeap → ℕ → ℕ
item_next h item = clear_low (h.next item)

abbrev pub item_set_next : MemHeap → ℕ → ℕ → MemHeap
item_set_next h item n = record h { next = update h.next item (or_low n (h.next item)) }

-- A difference of addresses as a 32-bit number.
abbrev pub item_data_size : MemHeap → ℕ → ℕ
item_data_size h item = (item_next h item + (2 * u32_mod - item - item_size)) % u32_mod

abbrev pub item_split_at : ℕ → ℕ → ℕ
item_split_at item offset = item + item_size + offset

abbrev pub item_to_data : ℕ → ℕ
item_to_data item = item + item_size

abbrev pub data_to_item : ℕ → ℕ
data_to_item ptr = ptr - item_size

abbrev pub item_init : MemHeap → ℕ → ℕ → MemHeap
item_init h item heap = record h { pool = update h.pool item heap }

-- The four assignments of phys_list_insert_after.
unfoldable pub phys_list_insert_after : MemHeap → ℕ → ℕ → MemHeap
phys_list_insert_after h anchor new_item =
    let h' = record h {
      next = update h.next new_item (item_next h anchor);
      prev = update h.prev new_item anchor;
    } in
    item_set_next (record h' { prev = update h'.prev (item_next h' anchor) new_item }) anchor
      new_item

unfoldable pub free_list_insert_after : MemHeap → ℕ → ℕ → MemHeap
free_list_insert_after h anchor item =
    let h' = record h {
      next_free = update h.next_free item (h.next_free anchor);
      prev_free = update h.prev_free item anchor;
    } in
    record h' {
      prev_free = update h'.prev_free (h'.next_free anchor) item;
      next_free = update h'.next_free anchor item;
    }

unfoldable pub phys_list_remove : MemHeap → ℕ → MemHeap
phys_list_remove h item =
    let h' = item_set_next h (h.prev item) (item_next h item) in
    record h' { prev = update h'.prev (item_next h' item) (h'.prev item) }

unfoldable pub free_list_remove : MemHeap → ℕ → MemHeap
free_list_remove h item =
    let h' = record h { next_free = update h.next_free (h.prev_free item) (h.next_free item) } in
    record h' { prev_free = update h'.prev_free (h'.next_free item) (h'.prev_free item) }

unfoldable pub free_list_replace : MemHeap → ℕ → ℕ → MemHeap
free_list_replace h old_item new_item =
    let h' = record h {
      prev_free = update h.prev_free new_item (h.prev_free old_item);
      next_free = update h.next_free new_item (h.next_free old_item);
    } in
    let h'' = record h' { prev_free = update h'.prev_free (h'.next_free old_item) new_item } in
    record h'' { next_free = update h''.next_free (h''.prev_free old_item) new_item }
