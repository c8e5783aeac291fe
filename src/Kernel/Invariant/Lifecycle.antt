-- ===== src/Kernel/Invariant/Lifecycle.antt =====
-- The operations of a thread on itself and on others, and the timer callbacks and the kernel's invariant.
use nerd_rtos.Common.{Bool-cases, ap, arith, false, inl, inr, is_at, leb, refl, true, ℕ, ◌||◌, ◌≡◌}
use nerd_rtos.Kernel.Invariant.{IsFit, IsWf}
use nerd_rtos.Kernel.Invariant.Moves.{IsAwake, add_tail-IsWf, set_thread-IsWf, set_thread-Updates}
use nerd_rtos.Kernel.Invariant.Scheduling.{running_fit, scheduler-IsWf}
use nerd_rtos.Kernel.Invariant.Update.{IsWf-update}
use nerd_rtos.Kernel.Links.{is_on, list_is_empty}
use nerd_rtos.Kernel.Scheduler.{is_running, slice_timeout, thread_delay, thread_yield}
use nerd_rtos.Kernel.State.{
  Kernel, Thread, ThreadStat, block, dead, init, ready, running, suspend, thread_priority_max,
}
use nerd_rtos.Kernel.Thread.{resume_by_stat, thread_resume}

pub IsAwake-of_off :
    (k : Kernel) (t : ℕ) (th : Thread)
    → is_on (k.threads t).qnode ≡ false
    → th ≡ record (k.threads t) {
      timer = th.timer;
      error = th.error;
      stat = ready;
      slice_left = th.slice_left;
      slice_start = th.slice_start;
    }
    → th.timer.armed ≡ false
    → IsFit (k.threads t)
    → IsAwake k t th
IsAwake-of_off k t th off e timer f = record {
  node = ap (λ (x : Thread). x.qnode) e;
  off = off;
  awake = ap (λ (x : Thread). x.stat) e;
  timer_off = timer;
  priority_bound = ground (arith, f.priority_bound);
  join_head = ground (arith, f.join_head);
  init_bound = ground (arith, f.init_bound);
}

suspend_fit :
    (th : Thread)
    → th.stat ≡ suspend
    → IsFit th
    → (is_on th.qnode ≡ false) × (th.timer.armed ≡ false)
suspend_fit th e f = ground (arith, f.stat_fits)

resume-at :
    (k : Kernel) (t : ℕ) (s : ThreadStat)
    → (k.threads t).stat ≡ s
    → IsWf k
    → IsWf (resume_by_stat s k t).1
unfolding resume_by_stat
resume-at k t suspend e w =
    let f = w.fit t in
    let (off, unarmed) = suspend_fit (k.threads t) e f in
    scheduler-IsWf _ (
      add_tail-IsWf k t (record (k.threads t) { stat = ready })
        (IsAwake-of_off k t _ off refl unarmed f) w)
resume-at k t init e w = w
resume-at k t ready e w = w
resume-at k t running e w = w
resume-at k t block e w = w
resume-at k t dead e w = w

-- nd_thread_resume keeps the invariant.
pub thread_resume-IsWf : (k : Kernel) (t : ℕ) → IsWf k → IsWf (thread_resume k t).1
unfolding thread_resume
thread_resume-IsWf k t w = resume-at k t (k.threads t).stat refl w

-- nd_thread_yield keeps it.
pub thread_yield-IsWf : (k : Kernel) (c : ℕ) → IsWf k → IsWf (thread_yield k c)
unfolding thread_yield
thread_yield-IsWf k c w = scheduler-IsWf _ (
    set_thread-IsWf k c (record (k.threads c) { yield = true })
      (record {
        node = refl;
        stat = refl;
        timer = refl;
        priority = refl;
        join = refl;
        initial = refl;
      })
      w)

pub slice_timeout-IsWf : (k : Kernel) (t : ℕ) → IsWf k → IsWf (slice_timeout k t)
unfolding slice_timeout
slice_timeout-IsWf k t w = elim (Bool-cases (is_at k.current_thread t)) [
  | inr e ↦ simp e w
  | inl e ↦
      simp e
        (elim (Bool-cases (
          leb thread_priority_max (k.threads t).priority
          || list_is_empty k (k.threads t).priority)) [
            | inl f ↦ rw f w
            | inr f ↦ rw f (
                scheduler-IsWf _ (
                  set_thread-IsWf k t
                    (record (k.threads t) { yield = true; slice_left = 0; slice_start = 0 })
                    (record {
                      node = refl;
                      stat = refl;
                      timer = refl;
                      priority = refl;
                      join = refl;
                      initial = refl;
                    })
                    w))
          ])
]

-- nd_thread_delay by a running thread keeps it.
pub thread_delay-IsWf :
    (k : Kernel) (c delay : ℕ)
    → is_running (k.threads c).stat ≡ true
    → IsWf k
    → IsWf (thread_delay k c delay)
unfolding thread_delay
thread_delay-IsWf k c delay run w =
    let f = w.fit c in
    let (off, unarmed) = running_fit (k.threads c) run f in
    scheduler-IsWf _ (
      IsWf-update k c _ (set_thread-Updates k c _ (ground arith) w.rings)
        (record {
          stat_fits = ground arith;
          priority_bound = ground (arith, f.priority_bound);
          join_head = ground (arith, f.join_head);
          init_bound = ground (arith, f.init_bound);
        })
        (inl (λ r. ground arith)) (λ r. run) w)
