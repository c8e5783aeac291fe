-- ===== src/Kernel/Expiry.antt =====
-- The round of timer_expired in kernel/nd_timer.c for a timer of a thread, which is one-shot: its
-- node leaves the tree, then its callback is called.
use nerd_rtos.Common.{ℕ}
use nerd_rtos.Kernel.Scheduler.{slice_timeout, timer_callback, timer_stop}
use nerd_rtos.Kernel.State.{
  Callback, Kernel, no_callback, set_thread, thread_pend_timeout, thread_slice_timeout,
  thread_timer_callback,
}
use nerd_rtos.Kernel.Thread.{pend_timeout}

unfoldable pub call_back : Callback → Kernel → ℕ → Kernel
call_back no_callback k t = k
call_back thread_timer_callback k t = timer_callback k t
call_back thread_pend_timeout k t = pend_timeout k t
call_back thread_slice_timeout k t = slice_timeout k t

unfoldable pub thread_timer_expired : Kernel → ℕ → Kernel
thread_timer_expired k t =
    let th = k.threads t in
    call_back th.timer.callback (set_thread k t (record th { timer = timer_stop th.timer })) t

unfoldable pub slice_timer_expired : Kernel → ℕ → Kernel
slice_timer_expired k t =
    let th = k.threads t in
    call_back th.slice_timer.callback
      (set_thread k t (record th { slice_timer = timer_stop th.slice_timer })) t
