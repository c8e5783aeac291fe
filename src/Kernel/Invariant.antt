-- ===== src/Kernel/Invariant.antt =====
-- What holds of the kernel between its operations.
pub mod Rings
pub mod Update
pub mod Moves
pub mod Highest
pub mod Scheduling
pub mod Switch
pub mod Waits
pub mod Lifecycle
pub mod Expired
pub mod Suspend
pub mod Sleep
pub mod Halt
pub mod Create
pub mod Boot
pub mod Priority
use nerd_rtos.Common.{
  Bool, Option, count, false, if◌then◌else◌, is_empty, leb, none, not, some, true, ℕ, ◌<◌, ◌==◌,
  ◌≡◌, ◌≤◌,
}
use nerd_rtos.Kernel.Links.{is_on}
use nerd_rtos.Kernel.Scheduler.{is_running}
use nerd_rtos.Kernel.State.{
  Callback, Kernel, Link, Thread, ThreadStat, block, dead, init, no_callback, on, ready, running,
  self, suspend, thread_pend_timeout, thread_priority_max, thread_slice_timeout,
  thread_timer_callback, unlinked,
}

-- How often a node stands on the list of head `h`.
abbrev pub sits : Link → ℕ → ℕ
sits (on g) h = if g == h then 1 else 0
sits unlinked h = 0
sits self h = 0

-- Each list holds exactly the threads whose nodes are on it, each once; the bitmap says which
-- ready lists hold a thread; no link was misused.
pub record IsLinked (k : Kernel) : Type 0 where
  pub linked : (t h : ℕ) → count t (k.lists h) ≡ sits (k.threads t).qnode h
  pub bits : (p : ℕ) → p < thread_priority_max → k.thread_ready_bit p ≡ not (is_empty (k.lists p))
  pub sound : k.fault ≡ false

abbrev pub is_slack : Link → Bool
is_slack (on h) = leb thread_priority_max h
is_slack unlinked = true
is_slack self = true

-- The timer of a blocked thread runs the end of its wait, or of its delay.
abbrev pub fits_wait : Callback → Bool → Bool → Bool
fits_wait c false waits = true
fits_wait thread_pend_timeout true waits = waits
fits_wait thread_timer_callback true waits = not waits
fits_wait no_callback true waits = false
fits_wait thread_slice_timeout true waits = false

-- A ready thread is on the ready list of its priority, a blocked one on no ready list, and no
-- other thread is on any list; only a blocked thread's timer is armed.
abbrev pub StatFits : ThreadStat → Thread → Type 0
StatFits ready th = (th.qnode ≡ on th.priority) × (th.timer.armed ≡ false)
StatFits block th =
    (is_slack th.qnode ≡ true)
    × (fits_wait th.timer.callback th.timer.armed (is_on th.qnode) ≡ true)
StatFits init th = (is_on th.qnode ≡ false) × (th.timer.armed ≡ false)
StatFits running th = (is_on th.qnode ≡ false) × (th.timer.armed ≡ false)
StatFits suspend th = (is_on th.qnode ≡ false) × (th.timer.armed ≡ false)
StatFits dead th = (is_on th.qnode ≡ false) × (th.timer.armed ≡ false)

pub record IsFit (th : Thread) : Type 0 where
  pub stat_fits : StatFits th.stat th
  pub priority_bound : th.priority < thread_priority_max
  pub join_head : thread_priority_max ≤ th.join_list
  pub init_bound : th.init_priority < thread_priority_max

-- While a switch is asked for, its thread is ready and no thread is running.
abbrev pub Awaits : (ℕ → Thread) → Bool → Option ℕ → Type 0
Awaits threads false n = Unit {0}
Awaits threads true none = ⊥
Awaits threads true (some n) =
    ((threads n).stat ≡ ready) × ((t : ℕ) → is_running (threads t).stat ≡ false)

-- The invariant of the kernel; only the current thread is running.
pub record IsWf (k : Kernel) : Type 0 where
  pub rings : IsLinked k
  pub fit : (t : ℕ) → IsFit (k.threads t)
  pub only : (t : ℕ) → is_running (k.threads t).stat ≡ true → k.current_thread ≡ some t
  pub awaited : Awaits k.threads k.switch_request k.next_thread
