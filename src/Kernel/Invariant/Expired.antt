-- ===== src/Kernel/Invariant/Expired.antt =====
-- What happens when the timer of a thread expires and the kernel's invariant.
use nerd_rtos.Common.{arith, false, if◌then◌else◌, inl, refl, true, ℕ, ◌==◌, ◌≡◌, ◌≤◌}
use nerd_rtos.Kernel.Expiry.{call_back, thread_timer_expired}
use nerd_rtos.Kernel.Invariant.{IsFit, IsWf, fits_wait, is_slack}
use nerd_rtos.Kernel.Invariant.Lifecycle.{IsAwake-of_off}
use nerd_rtos.Kernel.Invariant.Moves.{add_tail-IsWf, set_thread-Updates}
use nerd_rtos.Kernel.Invariant.Scheduling.{scheduler-IsWf}
use nerd_rtos.Kernel.Invariant.Update.{IsWf-update}
use nerd_rtos.Kernel.Invariant.Waits.{end_wait-IsWf}
use nerd_rtos.Kernel.Links.{is_on}
use nerd_rtos.Kernel.Scheduler.{refill, timer_callback, timer_stop}
use nerd_rtos.Kernel.State.{
  Callback, Kernel, Link, Thread, block, etimeout, no_callback, on, ready, self, set_thread,
  thread_pend_timeout, thread_priority_max, thread_slice_timeout, thread_timer_callback, unlinked,
}
use nerd_rtos.Kernel.Thread.{pend_timeout}

-- A thread whose timer left the tree.
disarm : Thread → Thread
disarm th = record th { timer = timer_stop th.timer }

disarm-IsFit : (th : Thread) → IsFit th → IsFit (disarm th)
unfolding disarm
disarm-IsFit th f = record {
  stat_fits = ground (arith, f.stat_fits);
  priority_bound = f.priority_bound;
  join_head = f.join_head;
  init_bound = f.init_bound;
}

disarm-IsWf : (k : Kernel) (t : ℕ) → IsWf k → IsWf (set_thread k t (disarm (k.threads t)))
unfolding disarm
disarm-IsWf k t w =
    IsWf-update k t (disarm (k.threads t)) (set_thread-Updates k t _ refl w.rings)
      (disarm-IsFit (k.threads t) (w.fit t)) (inl (λ r. r)) (λ r. r) w

-- Which threads have an armed timer, and what it runs.
armed_fit :
    (th : Thread)
    → th.timer.armed ≡ true
    → IsFit th
    → (th.stat ≡ block)
      × (is_slack th.qnode ≡ true)
      × (fits_wait th.timer.callback true (is_on th.qnode) ≡ true)
armed_fit th a f = ground (arith, f.stat_fits)

on_of_slack :
    (l : Link)
    → is_on l ≡ true
    → is_slack l ≡ true
    → (h : ℕ) × (l ≡ on h) × (thread_priority_max ≤ h)
on_of_slack (on h) e s = (h, refl, ground arith)
on_of_slack unlinked e s = cc
on_of_slack self e s = cc

-- The end of a wait by its timer.
pub pend_timeout-IsWf :
    (k : Kernel) (t h : ℕ)
    → (k.threads t).qnode ≡ on h
    → thread_priority_max ≤ h
    → (k.threads t).timer.armed ≡ false
    → IsWf k
    → IsWf (pend_timeout k t)
unfolding pend_timeout
pend_timeout-IsWf k t h at above off w = scheduler-IsWf _ (
    end_wait-IsWf k t h at above w (record (k.threads t) { stat = ready; error = etimeout }) refl
      off)

-- The end of a delay.
pub timer_callback-IsWf :
    (k : Kernel) (t : ℕ)
    → is_on (k.threads t).qnode ≡ false
    → (k.threads t).timer.armed ≡ false
    → IsWf k
    → IsWf (timer_callback k t)
unfolding timer_callback
timer_callback-IsWf k t off unarmed w =
    let th : Thread = record (k.threads t) { stat = ready } in
    let th' : Thread = if th.time_slice == 0 then th else refill th in
    scheduler-IsWf _
      (add_tail-IsWf k t th' (IsAwake-of_off k t th' off (ground arith) (ground arith) (w.fit t)) w)

expired-at :
    (c : Callback) (k : Kernel) (t : ℕ)
    → fits_wait c true (is_on (k.threads t).qnode) ≡ true
    → is_slack (k.threads t).qnode ≡ true
    → (k.threads t).timer.armed ≡ false
    → IsWf k
    → IsWf (call_back c k t)
unfolding call_back
expired-at no_callback k t e s off w = cc
expired-at thread_slice_timeout k t e s off w = cc
expired-at thread_timer_callback k t e s off w = timer_callback-IsWf k t (ground arith) off w
expired-at thread_pend_timeout k t e s off w =
    let (h, at, above) = on_of_slack (k.threads t).qnode e s in
    pend_timeout-IsWf k t h at above off w

-- A thread's timer that is in the tree can expire at any time.
pub thread_timer_expired-IsWf :
    (k : Kernel) (t : ℕ)
    → (k.threads t).timer.armed ≡ true
    → IsWf k
    → IsWf (thread_timer_expired k t)
unfolding thread_timer_expired disarm
thread_timer_expired-IsWf k t a w =
    let (waiting, slack, fits) = armed_fit (k.threads t) a (w.fit t) in
    expired-at (k.threads t).timer.callback _ t (ground arith) (ground arith) (ground arith)
      (disarm-IsWf k t w)
