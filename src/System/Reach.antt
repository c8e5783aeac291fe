-- ===== src/System/Reach.antt =====
-- The steps of System and the invariant of the kernel.
use nerd_rtos.Common.{refl, ℕ, ◌≡◌}
use nerd_rtos.Ipc.Event.Keeps.{event_recv-IsWf, event_send-IsWf}
use nerd_rtos.Ipc.MsgQueue.Keeps.{
  queue_recv-IsWf, queue_recv_resume-IsWf, queue_send-IsWf, queue_send_resume-IsWf,
}
use nerd_rtos.Ipc.Mutex.Keeps.{mutex_lock-IsWf, mutex_unlock-IsWf}
use nerd_rtos.Ipc.Sem.Keeps.{sem_release-IsWf, sem_take-IsWf}
use nerd_rtos.Kernel.Expiry.{call_back, slice_timer_expired}
use nerd_rtos.Kernel.Invariant.{IsWf}
use nerd_rtos.Kernel.Invariant.Boot.{first_switch-IsWf}
use nerd_rtos.Kernel.Invariant.Create.{thread_create-IsWf}
use nerd_rtos.Kernel.Invariant.Expired.{thread_timer_expired-IsWf}
use nerd_rtos.Kernel.Invariant.Halt.{thread_abort-IsWf, thread_join-IsWf}
use nerd_rtos.Kernel.Invariant.Lifecycle.{
  slice_timeout-IsWf, thread_delay-IsWf, thread_resume-IsWf, thread_yield-IsWf,
}
use nerd_rtos.Kernel.Invariant.Moves.{set_thread-IsWf}
use nerd_rtos.Kernel.Invariant.Scheduling.{globals-IsWf}
use nerd_rtos.Kernel.Invariant.Suspend.{thread_suspend-IsWf}
use nerd_rtos.Kernel.Invariant.Switch.{do_switch-IsWf, try_schedule-IsWf}
use nerd_rtos.Kernel.Scheduler.{enter_interrupt, exit_interrupt, timer_stop}
use nerd_rtos.Kernel.State.{
  Callback, Kernel, no_callback, thread_pend_timeout, thread_slice_timeout, thread_timer_callback,
}
use nerd_rtos.Pool.Keeps.{mempool_alloc-IsWf, mempool_alloc_resume-IsWf, mempool_free-IsWf}
use nerd_rtos.System.{
  Call, CallFits, Reaches, Runs, Signal, SignalFits, Step, aborts, again_allocs, again_receives,
  again_sends, allocs, at_start, awaits, call_step, creates, delays, enters, frees, init_step,
  joins, leaves, locks, posts, prepare_step, receives, releases, resumes, run_call, run_signal,
  sends, signal_step, slice_fires, start_step, suspends, switch_step, takes, then_step, time_passes,
  timer_fires, tries, unlocks, yields,
}
use nerd_rtos.World.{World}
use nerd_rtos.World.Objects.{run_init-IsWf}

slice_expired-at :
    (c : Callback) (k : Kernel) (t : ℕ) → c ≡ thread_slice_timeout → IsWf k → IsWf (call_back c k t)
unfolding call_back
slice_expired-at no_callback k t e w = cc
slice_expired-at thread_slice_timeout k t e w = slice_timeout-IsWf k t w
slice_expired-at thread_timer_callback k t e w = cc
slice_expired-at thread_pend_timeout k t e w = cc

slice_timer_expired-IsWf :
    (k : Kernel) (t : ℕ)
    → (k.threads t).slice_timer.callback ≡ thread_slice_timeout
    → IsWf k
    → IsWf (slice_timer_expired k t)
unfolding slice_timer_expired
slice_timer_expired-IsWf k t e w = slice_expired-at (k.threads t).slice_timer.callback _ t e (
    set_thread-IsWf k t
      (record (k.threads t) { slice_timer = timer_stop (k.threads t).slice_timer })
      (record {
        node = refl;
        stat = refl;
        timer = refl;
        priority = refl;
        join = refl;
        initial = refl;
      })
      w)

now-IsWf : (k : Kernel) (n : ℕ) → IsWf k → IsWf (record k { now = n })
now-IsWf k n w = record {
  rings = record { linked = w.rings.linked; bits = w.rings.bits; sound = w.rings.sound };
  fit = w.fit;
  only = w.only;
  awaited = w.awaited;
}

run_call-IsWf :
    (f : Call) (c : ℕ) (w : World)
    → Runs w.kernel c
    → CallFits f w
    → IsWf w.kernel
    → IsWf (run_call f c w).kernel
unfolding run_call
run_call-IsWf yields c w r h i = thread_yield-IsWf w.kernel c i
run_call-IsWf (delays n) c w r h i = thread_delay-IsWf w.kernel c n r.runs i
run_call-IsWf (takes s n) c w r h i = sem_take-IsWf w.kernel c (w.sems s) n r.runs h.above i
run_call-IsWf (locks m n) c w r h i = mutex_lock-IsWf w.kernel c m n r.runs h.above i
run_call-IsWf (unlocks m) c w r h i = mutex_unlock-IsWf w.kernel c m r.runs h.above i
run_call-IsWf (awaits e set opt n) c w r h i =
    event_recv-IsWf w.kernel c (w.events e) set opt n r.runs h.above i
run_call-IsWf (sends q msg n) c w r h i =
    queue_send-IsWf w.kernel c (w.queues q) n r.runs h.send_head.above h.read_head.above i msg
run_call-IsWf (again_sends q msg n) c w r h i =
    queue_send_resume-IsWf w.kernel c (w.queues q) n r.runs h.send_head.above h.read_head.above i
      msg
run_call-IsWf (receives q out n) c w r h i =
    queue_recv-IsWf w.kernel c (w.queues q) n r.runs h.send_head.above h.read_head.above i out
run_call-IsWf (again_receives q out n) c w r h i =
    queue_recv_resume-IsWf w.kernel c (w.queues q) n r.runs h.send_head.above h.read_head.above i
      out
run_call-IsWf (allocs p n) c w r h i = mempool_alloc-IsWf w.kernel (w.pools p) h.above i c n r.runs
run_call-IsWf (again_allocs p n) c w r h i =
    mempool_alloc_resume-IsWf w.kernel (w.pools p) h.above i c n r.runs
run_call-IsWf (joins t n) c w r h i = thread_join-IsWf w.kernel c t n r.runs i
run_call-IsWf (suspends t) c w r h i = thread_suspend-IsWf w.kernel t r.quiet i
run_call-IsWf (aborts t) c w r h i = thread_abort-IsWf w.kernel t r.quiet h i
run_call-IsWf (creates args) c w r h i = thread_create-IsWf w.kernel args h i

run_signal-IsWf :
    (s : Signal) (w : World) → SignalFits s w → IsWf w.kernel → IsWf (run_signal s w).kernel
unfolding run_signal enter_interrupt exit_interrupt
run_signal-IsWf enters w h i = globals-IsWf w.kernel _ w.kernel.interrupt_try_switch i
run_signal-IsWf leaves w h i = globals-IsWf w.kernel _ w.kernel.interrupt_try_switch i
run_signal-IsWf tries w h i = try_schedule-IsWf w.kernel i
run_signal-IsWf (releases s) w h i = sem_release-IsWf w.kernel (w.sems s) h.above i
run_signal-IsWf (posts e set) w h i = event_send-IsWf w.kernel (w.events e) set h.above i
run_signal-IsWf (frees p b) w h i = mempool_free-IsWf w.kernel (w.pools p) h.above i b
run_signal-IsWf (resumes t) w h i = thread_resume-IsWf w.kernel t i
run_signal-IsWf (timer_fires t) w h i = thread_timer_expired-IsWf w.kernel t h i
run_signal-IsWf (slice_fires t) w h i = slice_timer_expired-IsWf w.kernel t h i
run_signal-IsWf (time_passes n) w h i = now-IsWf w.kernel _ i

Step-IsWf : {w v : World} → Step w v → IsWf w.kernel → IsWf v.kernel
Step-IsWf {w} (call_step c f r h) i = run_call-IsWf f c w r h i
Step-IsWf {w} (signal_step s h) i = run_signal-IsWf s w h i
Step-IsWf {w} (init_step j h) i = run_init-IsWf j w h i
Step-IsWf {w} (switch_step e) i = do_switch-IsWf w.kernel e i
Step-IsWf {w} (start_step c q) i = first_switch-IsWf w.kernel c q i
Step-IsWf {w} (prepare_step args c h) i = thread_create-IsWf w.kernel args h i

pub Reaches-IsWf : {w v : World} → IsWf w.kernel → Reaches w v → IsWf v.kernel
Reaches-IsWf i at_start = i
Reaches-IsWf i (then_step r s) = Step-IsWf s (Reaches-IsWf i r)
