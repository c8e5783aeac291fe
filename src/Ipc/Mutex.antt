-- ===== src/Ipc/Mutex.antt =====
-- kernel/nd_mutex.c: mutexes with priority inheritance.
pub mod Keeps
pub mod Inherit
pub mod Owner
use nerd_rtos.Common.{
  List, Option, [], erase, if◌then◌else◌, is_at, ltb, none, not, some, update, ℕ, ◌==◌, ◌∷◌,
}
use nerd_rtos.Kernel.Links.{list_is_empty}
use nerd_rtos.Kernel.Ready.{thread_ready_add_head, thread_ready_remove}
use nerd_rtos.Kernel.Scheduler.{scheduler}
use nerd_rtos.Kernel.State.{
  Err, Kernel, Mutex, Outcome, ThreadStat, block, blocked, dead, ebusy, edeadlk, eok, eperm, init,
  ready, returned, running, set_thread, suspend, thread_priority_max, timeout_nowait,
}
use nerd_rtos.Kernel.Thread.{thread_pend, thread_wakeup}

-- A thread's list of the mutexes that it holds, and a mutex, in the kernel.
abbrev pub set_taken : Kernel → ℕ → List ℕ → Kernel
set_taken k t ms = set_thread k t (record (k.threads t) { taken_list = ms })

abbrev pub set_mutex : Kernel → ℕ → Mutex → Kernel
set_mutex k m mx = record k { mutexes = update k.mutexes m mx }

-- nd_mutex_init
unfoldable pub mutex_init : Kernel → ℕ → Kernel
mutex_init k m =
    let mx = k.mutexes m in
    record k {
      mutexes = update k.mutexes m (record mx { owner = none; priority = thread_priority_max });
      lists = update k.lists mx.wait_list [];
    }

abbrev pub set_priority : Kernel → ℕ → ℕ → Kernel
set_priority k t p = set_thread k t (record (k.threads t) { priority = p })

-- nd_thread_change_priority, by the thread's state: a ready thread moves to the head of its new
-- ready list.
unfoldable pub change_by_stat : ThreadStat → Kernel → ℕ → ℕ → Kernel
change_by_stat ready k t p = thread_ready_add_head (set_priority (thread_ready_remove k t) t p) t
change_by_stat init k t p = set_priority k t p
change_by_stat running k t p = set_priority k t p
change_by_stat block k t p = set_priority k t p
change_by_stat suspend k t p = set_priority k t p
change_by_stat dead k t p = set_priority k t p

unfoldable pub change_priority : Kernel → ℕ → ℕ → Kernel
unfolding change_by_stat
change_priority k t p = change_by_stat (k.threads t).stat k t p

-- The loop of nd_mutex_restore_priority over the mutexes that the thread holds.
unfoldable pub inherited : (ℕ → Mutex) → List ℕ → ℕ → ℕ
inherited mutexes [] p = p
inherited mutexes (m ∷ ms) p =
    inherited mutexes ms (if ltb (mutexes m).priority p then (mutexes m).priority else p)

-- nd_mutex_restore_priority
unfoldable pub restore_priority : Kernel → ℕ → Kernel
restore_priority k t =
    let th = k.threads t in set_priority k t (inherited k.mutexes th.taken_list th.init_priority)

-- The mutex goes to the head of the list of those that its new owner holds.
abbrev pub take_over : Kernel → ℕ → ℕ → Kernel
take_over k m t =
    set_taken (set_mutex k m (record (k.mutexes m) { owner = some t })) t
      (m ∷ (k.threads t).taken_list)

-- The part of nd_mutex_unlock after the owner has given the mutex back: to the thread that waits
-- first, or to nobody.
abbrev pub hand_over : ℕ → Option ℕ × Kernel → Kernel
hand_over m (none, k) = k
hand_over m (some t, k) = scheduler (take_over k m t)

unfoldable pub pass_on : Kernel → ℕ → Kernel
pass_on k m =
    let mx = k.mutexes m in
    if list_is_empty k mx.wait_list
    then set_mutex k m (record mx { owner = none; priority = thread_priority_max })
    else hand_over m (thread_wakeup k mx.wait_list)

-- nd_mutex_unlock by the current thread `c`.
unfoldable pub mutex_unlock : Kernel → ℕ → ℕ → Err × Kernel
mutex_unlock k c m =
    let k' = restore_priority (set_taken k c (erase m (k.threads c).taken_list)) c in
    if not (is_at (k.mutexes m).owner c) then (eperm, k) else (eok, pass_on k' m)

-- The owner `o` of mutex `m` inherits the priority of `c`, if that is higher.
unfoldable pub inherit : Kernel → ℕ → ℕ → ℕ → Kernel
inherit k c m o =
    let p = (k.threads c).priority in
    let k' = set_mutex k m (record (k.mutexes m) { priority = p }) in
    if ltb p (k.threads o).priority then change_priority k' o p else k

-- nd_mutex_lock by `c` on a mutex that `o` holds, up to where `c` sleeps.
unfoldable pub lock_held : Kernel → ℕ → ℕ → ℕ → ℕ → Outcome × Kernel
lock_held k c m o timeout =
    let k' = inherit k c m o in
    if timeout == timeout_nowait
    then (returned ebusy, k')
    else (blocked, scheduler (thread_pend k' c (k'.mutexes m).wait_list timeout))

unfoldable pub lock_by_owner : Option ℕ → Kernel → ℕ → ℕ → ℕ → Outcome × Kernel
lock_by_owner none k c m timeout = (returned eok, take_over k m c)
lock_by_owner (some o) k c m timeout =
    let held = lock_held k c m o timeout in if o == c then (returned edeadlk, k) else held

-- nd_mutex_lock by the current thread `c`, up to where it sleeps.
unfoldable pub mutex_lock : Kernel → ℕ → ℕ → ℕ → Outcome × Kernel
unfolding lock_by_owner
mutex_lock k c m timeout = lock_by_owner (k.mutexes m).owner k c m timeout
