-- ===== src/Kernel/Invariant/Sleep.antt =====
-- Sleeping on a list and waking its threads, nd_thread_pend and nd_thread_wakeup, and the kernel's
-- invariant.
use nerd_rtos.Common.{
  Bool-cases, Option, arith, head?, if◌then◌else◌, inl, inr, none, refl, some, suc, true, zero, ℕ,
  ◌==◌, ◌≡◌, ◌≤◌,
}
use nerd_rtos.Kernel.Invariant.{IsWf}
use nerd_rtos.Kernel.Invariant.Highest.{head_on}
use nerd_rtos.Kernel.Invariant.Moves.{wait_insert-Updates}
use nerd_rtos.Kernel.Invariant.Scheduling.{running_fit}
use nerd_rtos.Kernel.Invariant.Suspend.{then_set-Updates}
use nerd_rtos.Kernel.Invariant.Update.{IsWf-update}
use nerd_rtos.Kernel.Invariant.Waits.{threads_at, wake-IsWf}
use nerd_rtos.Kernel.Links.{list_is_empty}
use nerd_rtos.Kernel.Scheduler.{is_running, timer_start}
use nerd_rtos.Kernel.State.{
  Kernel, Thread, ThreadTimer, block, eok, thread_pend_timeout, thread_priority_max,
  timeout_forever,
}
use nerd_rtos.Kernel.Thread.{thread_pend, thread_wait_insert, thread_wakeup, wake_all, wake_first}

-- nd_thread_pend by a running thread.
pub thread_pend-IsWf :
    (k : Kernel) (c h timeout : ℕ)
    → is_running (k.threads c).stat ≡ true
    → thread_priority_max ≤ h
    → IsWf k
    → IsWf (thread_pend k c h timeout)
unfolding thread_pend
thread_pend-IsWf k c h timeout run above w =
    let f = w.fit c in
    let (off, unarmed) = running_fit (k.threads c) run f in
    let d = wait_insert-Updates k c h off above w.rings in
    let old = threads_at d in
    let th : Thread = record ((thread_wait_insert k h c).threads c) { error = eok; stat = block } in
    let tm : ThreadTimer = record th.timer { timeout = timeout; callback = thread_pend_timeout } in
    let th' : Thread =
      if timeout == timeout_forever then th else record th { timer = timer_start tm } in
    IsWf-update k c th' (then_set-Updates th' (ground arith) d)
      (record {
        stat_fits = ground arith;
        priority_bound = ground (arith, f.priority_bound);
        join_head = ground (arith, f.join_head);
        init_bound = ground (arith, f.init_bound);
      })
      (inl (λ r. ground arith)) (λ r. run) w

wakeup-at :
    (k : Kernel) (h : ℕ) (o : Option ℕ)
    → head? (k.lists h) ≡ o
    → thread_priority_max ≤ h
    → IsWf k
    → IsWf (wake_first k o).1
unfolding wake_first
wakeup-at k h none e above w = w
wakeup-at k h (some t) e above w = wake-IsWf k t h (head_on w t h e) above w

-- nd_thread_wakeup on the list of an object.
pub thread_wakeup-IsWf :
    (k : Kernel) (h : ℕ) → thread_priority_max ≤ h → IsWf k → IsWf (thread_wakeup k h).1
unfolding thread_wakeup
thread_wakeup-IsWf k h above w = wakeup-at k h (head? (k.lists h)) refl above w

pub wake_all-IsWf :
    (n : ℕ) (k : Kernel) (h : ℕ) → thread_priority_max ≤ h → IsWf k → IsWf (wake_all n k h)
unfolding wake_all
wake_all-IsWf zero k h above w = w
wake_all-IsWf (suc n) k h above w = elim (Bool-cases (list_is_empty k h)) [
  | inl e ↦ rw e w
  | inr e ↦ rw e (wake_all-IsWf n _ h above (thread_wakeup-IsWf k h above w))
]
