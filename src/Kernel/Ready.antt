-- ===== src/Kernel/Ready.antt =====
-- The ready lists and their bitmap, kernel/nd_scheduler.c and include/nd_bitops.h. The bitmap
-- k_thread_ready_bit is a word by its bits.
use nerd_rtos.Common.{
  Bool, Option, false, head?, if◌then◌else◌, leb, none, suc, true, update, zero, ℕ, ◌+◌, ◌-◌, ◌==◌,
}
use nerd_rtos.Kernel.Links.{list_insert_after, list_insert_before, list_is_empty, list_remove}
use nerd_rtos.Kernel.State.{Kernel, thread_priority_max}

-- word |= 1u << i
abbrev pub set_bit : (ℕ → Bool) → ℕ → ℕ → Bool
set_bit w i = update w i true

-- word &= ~(1u << i)
abbrev pub clear_bit : (ℕ → Bool) → ℕ → ℕ → Bool
clear_bit w i = update w i false

unfoldable pub ffs_from : ℕ → ℕ → (ℕ → Bool) → ℕ
ffs_from zero i w = 0
ffs_from (suc n) i w = let rest = ffs_from n (i + 1) w in if w i then i + 1 else rest

-- nd_ffs: one more than the index of the lowest bit that is set in a word of 32, 0 if none is.
unfoldable pub ffs : (ℕ → Bool) → ℕ
ffs w = ffs_from 32 0 w

unfoldable pub thread_ready_add_tail : Kernel → ℕ → Kernel
unfolding list_insert_before
thread_ready_add_tail k t =
    let prio = (k.threads t).priority in
    let k' = list_insert_before k prio t in
    if leb thread_priority_max prio
    then k
    else record k' { thread_ready_bit = set_bit k.thread_ready_bit prio }

unfoldable pub thread_ready_add_head : Kernel → ℕ → Kernel
unfolding list_insert_after
thread_ready_add_head k t =
    let prio = (k.threads t).priority in
    let k' = list_insert_after k prio t in
    if leb thread_priority_max prio
    then k
    else record k' { thread_ready_bit = set_bit k.thread_ready_bit prio }

unfoldable pub thread_ready_remove : Kernel → ℕ → Kernel
unfolding list_remove
thread_ready_remove k t =
    let prio = (k.threads t).priority in
    let k' = list_remove k t in
    if leb thread_priority_max prio
    then k
    else if list_is_empty k' prio
    then record k' { thread_ready_bit = clear_bit k'.thread_ready_bit prio }
    else k'

-- The entry of the first node of the lowest list whose bit is set. (A set bit over an empty list
-- would make the source take the list's head for a thread; here it gives none.)
unfoldable pub get_highest_priority_thread : Kernel → Option ℕ
get_highest_priority_thread k =
    let first = ffs k.thread_ready_bit in if first == 0 then none else head? (k.lists (first - 1))
