-- ===== src/Kernel/Scheduler.antt =====
-- The scheduler of kernel/nd_scheduler.c: the choice of the next thread, the switch, time slices,
-- interrupt nesting, yield and delay.
use nerd_rtos.Common.{
  Bool, Option, false, if◌then◌else◌, is_at, leb, ltb, none, not, some, true, ℕ, ◌%◌, ◌&&◌, ◌+◌,
  ◌-◌, ◌==◌, ◌||◌,
}
use nerd_rtos.Kernel.Links.{list_is_empty}
use nerd_rtos.Kernel.Ready.{
  get_highest_priority_thread, thread_ready_add_head, thread_ready_add_tail, thread_ready_remove,
}
use nerd_rtos.Kernel.State.{
  Callback, Kernel, Thread, ThreadStat, ThreadTimer, block, dead, init, no_callback, ready, running,
  set_thread, suspend, thread_pend_timeout, thread_priority_max, thread_slice_timeout,
  thread_timer_callback, u32_mod, u64_mod,
}

abbrev pub is_running : ThreadStat → Bool
is_running running = true
is_running init = false
is_running ready = false
is_running block = false
is_running suspend = false
is_running dead = false

abbrev pub has_callback : Callback → Bool
has_callback no_callback = false
has_callback thread_timer_callback = true
has_callback thread_pend_timeout = true
has_callback thread_slice_timeout = true

-- nd_timer_start on a thread's timer: refused without a callback, else in the tree afterwards.
abbrev pub timer_start : ThreadTimer → ThreadTimer
timer_start tm = record tm { armed = has_callback tm.callback || tm.armed }

-- nd_timer_stop on a thread's timer.
abbrev pub timer_stop : ThreadTimer → ThreadTimer
timer_stop tm = record tm { armed = false }

-- nd_should_switch for a next thread `n` and a current thread `c`: the answer, `rr_rotate`, and
-- the state in which the current thread's request to yield is spent.
unfoldable pub should_switch : Kernel → ℕ → ℕ → Bool × Bool × Kernel
should_switch k n c =
    if ltb (k.threads n).priority (k.threads c).priority
    then (true, false, k)
    else if (k.threads n).priority == (k.threads c).priority && (k.threads c).yield
    then (true, true, set_thread k c (record (k.threads c) { yield = false }))
    else if not (is_running (k.threads c).stat)
    then (true, false, k)
    else (false, false, k)

-- A new slice for a thread that has one.
abbrev pub refill : Thread → Thread
refill th = record th { slice_left = th.time_slice; slice_start = 0 }

-- The running thread goes back to its ready list, first if a higher priority preempts it.
unfoldable pub requeue_current : Kernel → ℕ → ℕ → Bool → Kernel
requeue_current k n c rr_rotate =
    let th : Thread = record (k.threads c) { stat = ready } in
    let k' = set_thread k c (if rr_rotate && not (th.time_slice == 0) then refill th else th) in
    if ltb (k.threads n).priority th.priority
    then thread_ready_add_head k' c
    else thread_ready_add_tail k' c

-- nd_schedule_pick_next where there is a next thread and a current one.
unfoldable pub pick_between : Kernel → ℕ → ℕ → Option ℕ × Kernel
pick_between k n c =
    let (switch, rr_rotate, k') = should_switch k n c in
    if not switch
    then (none, k')
    else if is_running (k'.threads c).stat
    then (some n, requeue_current k' n c rr_rotate)
    else (some n, k')

-- nd_schedule_pick_next for the thread of the highest priority and the current one.
unfoldable pub pick_from : Kernel → Option ℕ → Option ℕ → Option ℕ × Kernel
pick_from k none c = (none, k)
pick_from k (some n) none = (none, k)
pick_from k (some n) (some c) = pick_between k n c

unfoldable pub schedule_pick_next : Kernel → Option ℕ × Kernel
unfolding pick_from
schedule_pick_next k = pick_from k (get_highest_priority_thread k) k.current_thread

-- nd_next_thread = next and nd_hw_do_switch.
abbrev pub request_switch : Option ℕ × Kernel → Kernel
request_switch (none, k) = k
request_switch (some n, k) = record k { next_thread = some n; switch_request = true }

unfoldable pub schedule_core : Kernel → Kernel
schedule_core k = request_switch (schedule_pick_next k)

unfoldable pub scheduler : Kernel → Kernel
scheduler k =
    if ltb 0 k.interrupt_nest_count
    then record k { interrupt_try_switch = true }
    else schedule_core k

-- The part of the slice that the thread has used is taken off; its slice timer stops.
abbrev pub charge_slice : ℕ → Thread → Thread
charge_slice now th =
    let elapsed = (now + u64_mod - th.slice_start) % u64_mod in
    let left =
      if not (th.slice_start == 0) && not (th.slice_left == 0)
      then (if leb th.slice_left elapsed then 0 else th.slice_left - elapsed)
      else th.slice_left in
    if not (th.time_slice == 0)
    then record th { slice_left = left; slice_timer = timer_stop th.slice_timer; slice_start = 0 }
    else th

-- The slice of the thread that is to run: its timer is started if the thread shares its priority
-- with one that is ready, else stopped.
abbrev pub start_slice : Bool → ℕ → Thread → Thread
start_slice shared now th =
    let left =
      if th.slice_left == 0 || ltb th.time_slice th.slice_left
      then th.time_slice
      else th.slice_left in
    if not (th.time_slice == 0) && (ltb th.priority thread_priority_max && shared)
    then record th {
      slice_left = left;
      slice_start = now;
      slice_timer = timer_start (record (timer_stop th.slice_timer) { timeout = left });
    }
    else if not (th.time_slice == 0)
    then record th {
      slice_timer = timer_stop th.slice_timer;
      slice_left = th.time_slice;
      slice_start = 0;
    }
    else th

abbrev pub charge_previous : Kernel → Option ℕ → Kernel
charge_previous k none = k
charge_previous k (some p) = set_thread k p (charge_slice k.now (k.threads p))

abbrev pub run_thread : Kernel → ℕ → Kernel
run_thread k n =
    let th : Thread = record (k.threads n) { stat = running } in
    let k' = record k { next_thread = none; current_thread = some n } in
    set_thread k' n (start_slice (not (list_is_empty k th.priority)) k.now th)

-- nd_context_switch_cb.
unfoldable pub context_switch_cb : Kernel → Option ℕ → Kernel
context_switch_cb k none = k
context_switch_cb k (some n) =
    run_thread (charge_previous (thread_ready_remove k n) k.current_thread) n

-- The handler of the requested switch (isr_pendsv): it takes nd_next_thread.
unfoldable pub do_switch : Kernel → Kernel
do_switch k = context_switch_cb (record k { switch_request = false }) k.next_thread

unfoldable pub schedule_irq_exit : Kernel → Kernel
schedule_irq_exit k =
    let (n, k') = schedule_pick_next (record k { interrupt_try_switch = false }) in
    if k.interrupt_try_switch then context_switch_cb k' n else k

-- nd_thread_slice_timeout for a thread that is not null.
unfoldable pub slice_timeout : Kernel → ℕ → Kernel
slice_timeout k t =
    let th = k.threads t in
    if not (is_at k.current_thread t)
    then k
    else if leb thread_priority_max th.priority || list_is_empty k th.priority
    then k
    else scheduler (set_thread k t (record th { yield = true; slice_left = 0; slice_start = 0 }))

unfoldable pub enter_interrupt : Kernel → Kernel
enter_interrupt k = record k { interrupt_nest_count = (k.interrupt_nest_count + 1) % u32_mod }

unfoldable pub exit_interrupt : Kernel → Kernel
exit_interrupt k = record k {
  interrupt_nest_count = (k.interrupt_nest_count + u32_mod - 1) % u32_mod;
}

-- nd_try_schedule, which nd_try_schedule_irqsave calls with interrupts off.
unfoldable pub try_schedule : Kernel → Kernel
try_schedule k =
    if ltb 0 k.interrupt_nest_count
    then k
    else if not k.interrupt_try_switch
    then k
    else schedule_core (record k { interrupt_try_switch = false })

-- nd_thread_yield by the current thread `c`.
unfoldable pub thread_yield : Kernel → ℕ → Kernel
thread_yield k c = scheduler (set_thread k c (record (k.threads c) { yield = true }))

-- thread_timer_callback: a delayed thread is ready again.
unfoldable pub timer_callback : Kernel → ℕ → Kernel
timer_callback k t =
    let th : Thread = record (k.threads t) { stat = ready } in
    scheduler
      (thread_ready_add_tail (set_thread k t (if th.time_slice == 0 then th else refill th)) t)

-- nd_thread_delay by the current thread `c`.
unfoldable pub thread_delay : Kernel → ℕ → ℕ → Kernel
thread_delay k c delay =
    let th = k.threads c in
    let th' : Thread =
      if th.time_slice == 0
      then th
      else record (refill th) { slice_timer = timer_stop th.slice_timer } in
    let tm : ThreadTimer = record th.timer { timeout = delay; callback = thread_timer_callback } in
    scheduler (set_thread k c (record th' { stat = block; timer = timer_start tm }))
