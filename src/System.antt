-- ===== src/System.antt =====
-- The kernel and its objects together: what the running thread, the interrupts and the switch
-- can do, one step after another. Each call runs with the interrupts off (nd_kernel_lock), so a
-- step is a whole call, or its part up to where its thread sleeps, or its part after that.
pub mod Reach
pub mod Safety
use nerd_rtos.Common.{Memory, Option, false, none, some, true, ℕ, ◌%◌, ◌+◌, ◌≡◌}
use nerd_rtos.Ipc.Event.{event_recv, event_send}
use nerd_rtos.Ipc.MsgQueue.{queue_recv, queue_recv_resume, queue_send, queue_send_resume}
use nerd_rtos.Ipc.Mutex.{mutex_lock, mutex_unlock}
use nerd_rtos.Ipc.Sem.{sem_release, sem_take}
use nerd_rtos.Kernel.Boot.{first_switch}
use nerd_rtos.Kernel.Expiry.{slice_timer_expired, thread_timer_expired}
use nerd_rtos.Kernel.Invariant.Create.{FreeIf}
use nerd_rtos.Kernel.Invariant.Halt.{CreatedIf, IsCreated}
use nerd_rtos.Kernel.Scheduler.{
  do_switch, enter_interrupt, exit_interrupt, is_running, thread_delay, thread_yield, try_schedule,
}
use nerd_rtos.Kernel.State.{EventOpt, Kernel, thread_slice_timeout, u64_mod}
use nerd_rtos.Kernel.Thread.{
  CreateArgs, thread_abort, thread_create, thread_join, thread_resume, thread_suspend,
}
use nerd_rtos.Pool.{mempool_alloc, mempool_alloc_resume, mempool_free}
use nerd_rtos.World.{
  Init, InitFits, IsHead, QueueFits, World, run_init, with_event, with_kernel, with_pool,
  with_queue, with_sem,
}

-- The calls of the running thread.
pub data Call : Type 0 where
  yields : Call
  delays : ℕ → Call
  takes : ℕ → ℕ → Call
  locks : ℕ → ℕ → Call
  unlocks : ℕ → Call
  awaits : ℕ → ℕ → EventOpt → ℕ → Call
  sends again_sends : ℕ → Memory → ℕ → Call
  receives again_receives : ℕ → Memory → ℕ → Call
  allocs again_allocs : ℕ → ℕ → Call
  joins : Option ℕ → ℕ → Call
  suspends : ℕ → Call
  aborts : Option ℕ → Call
  creates : CreateArgs → Call

-- What an interrupt handler can do, and what a thread can do too: the calls that do not sleep.
pub data Signal : Type 0 where
  enters leaves tries : Signal
  releases : ℕ → Signal
  posts : ℕ → ℕ → Signal
  frees : ℕ → ℕ → Signal
  resumes : ℕ → Signal
  timer_fires slice_fires : ℕ → Signal
  time_passes : ℕ → Signal

unfoldable pub run_call : Call → ℕ → World → World
run_call yields c w = with_kernel w (thread_yield w.kernel c)
run_call (delays n) c w = with_kernel w (thread_delay w.kernel c n)
run_call (takes s n) c w = let r = sem_take w.kernel c (w.sems s) n in with_sem w s r.1 r.2
run_call (locks m n) c w = with_kernel w (mutex_lock w.kernel c m n).1
run_call (unlocks m) c w = with_kernel w (mutex_unlock w.kernel c m).1
run_call (awaits e set opt n) c w =
    let r = event_recv w.kernel c (w.events e) set opt n in with_event w e r.1 r.2
run_call (sends q msg n) c w =
    let r = queue_send w.kernel c (w.queues q) msg n in with_queue w q r.1 r.2
run_call (again_sends q msg n) c w =
    let r = queue_send_resume w.kernel c (w.queues q) msg n in with_queue w q r.1 r.2
run_call (receives q out n) c w =
    let r = queue_recv w.kernel c (w.queues q) out n in with_queue w q r.2 r.3
run_call (again_receives q out n) c w =
    let r = queue_recv_resume w.kernel c (w.queues q) out n in with_queue w q r.2 r.3
run_call (allocs p n) c w = let r = mempool_alloc w.kernel c (w.pools p) n in with_pool w p r.1 r.2
run_call (again_allocs p n) c w =
    let r = mempool_alloc_resume w.kernel c (w.pools p) n in with_pool w p r.1 r.2
run_call (joins t n) c w = with_kernel w (thread_join w.kernel c t n).1
run_call (suspends t) c w = with_kernel w (thread_suspend w.kernel t).1
run_call (aborts t) c w = with_kernel w (thread_abort w.kernel t).1
run_call (creates args) c w = with_kernel w (thread_create w.kernel args).1

unfoldable pub run_signal : Signal → World → World
run_signal enters w = with_kernel w (enter_interrupt w.kernel)
run_signal leaves w = with_kernel w (exit_interrupt w.kernel)
run_signal tries w = with_kernel w (try_schedule w.kernel)
run_signal (releases s) w = let r = sem_release w.kernel (w.sems s) in with_sem w s r.1 r.2
run_signal (posts e set) w = let r = event_send w.kernel (w.events e) set in with_event w e r.0 r.1
run_signal (frees p b) w = let r = mempool_free w.kernel (w.pools p) b in with_pool w p r.0 r.1
run_signal (resumes t) w = with_kernel w (thread_resume w.kernel t).1
run_signal (timer_fires t) w = with_kernel w (thread_timer_expired w.kernel t)
run_signal (slice_fires t) w = with_kernel w (slice_timer_expired w.kernel t)
run_signal (time_passes n) w =
    with_kernel w (record w.kernel { now = (w.kernel.now + n) % u64_mod })

-- What a call needs: its object's lists are initialised, the thread that it is about was created,
-- and a thread is made only from a control block that is not in use.
abbrev pub CallFits : Call → World → Type 0
CallFits yields w = Unit {0}
CallFits (delays n) w = Unit {0}
CallFits (takes s n) w = IsHead w (w.sems s).wait_list
CallFits (locks m n) w = IsHead w (w.kernel.mutexes m).wait_list
CallFits (unlocks m) w = IsHead w (w.kernel.mutexes m).wait_list
CallFits (awaits e set opt n) w = IsHead w (w.events e).wait_list
CallFits (sends q msg n) w = QueueFits w q
CallFits (again_sends q msg n) w = QueueFits w q
CallFits (receives q out n) w = QueueFits w q
CallFits (again_receives q out n) w = QueueFits w q
CallFits (allocs p n) w = IsHead w (w.pools p).wait_list
CallFits (again_allocs p n) w = IsHead w (w.pools p).wait_list
CallFits (joins t n) w = CreatedIf w.kernel t
CallFits (suspends t) w = IsCreated w.kernel t
CallFits (aborts t) w = CreatedIf w.kernel t
CallFits (creates args) w = FreeIf w.kernel args.thread

-- What a signal needs: only a timer that is in the tree fires.
abbrev pub SignalFits : Signal → World → Type 0
SignalFits enters w = Unit {0}
SignalFits leaves w = Unit {0}
SignalFits tries w = Unit {0}
SignalFits (releases s) w = IsHead w (w.sems s).wait_list
SignalFits (posts e set) w = IsHead w (w.events e).wait_list
SignalFits (frees p b) w = IsHead w (w.pools p).wait_list
SignalFits (resumes t) w = Unit {0}
SignalFits (timer_fires t) w = (w.kernel.threads t).timer.armed ≡ true
SignalFits (slice_fires t) w = (w.kernel.threads t).slice_timer.callback ≡ thread_slice_timeout
SignalFits (time_passes n) w = Unit {0}

-- The thread `c` runs: no switch is asked for.
pub record Runs (k : Kernel) (c : ℕ) : Type 0 where
  pub current : k.current_thread ≡ some c
  pub runs : is_running (k.threads c).stat ≡ true
  pub quiet : k.switch_request ≡ false

-- A signal may come at any time, also between the request for a switch and the switch.
pub data Step : World → World → Type 0 where
  call_step :
      {w : World} (c : ℕ) (f : Call) → Runs w.kernel c → CallFits f w → Step w (run_call f c w)
  signal_step : {w : World} (s : Signal) → SignalFits s w → Step w (run_signal s w)
  init_step : {w : World} (i : Init) → InitFits i w → Step w (run_init i w)
  switch_step :
      {w : World} → w.kernel.switch_request ≡ true → Step w (with_kernel w (do_switch w.kernel))
  start_step :
      {w : World}
      → w.kernel.current_thread ≡ none
      → w.kernel.switch_request ≡ false
      → Step w (with_kernel w (first_switch w.kernel))
  prepare_step :
      {w : World} (args : CreateArgs)
      → w.kernel.current_thread ≡ none
      → FreeIf w.kernel args.thread
      → Step w (with_kernel w (thread_create w.kernel args).1)

-- The worlds that any number of steps leads to.
pub data Reaches (w : World) : World → Type 0 where
  at_start : Reaches w w
  then_step : {u v : World} → Reaches w u → Step u v → Reaches w v
