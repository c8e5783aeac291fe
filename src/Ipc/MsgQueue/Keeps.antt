-- ===== src/Ipc/MsgQueue/Keeps.antt =====
-- The calls of a queue and the kernel's invariant.
use nerd_rtos.Common.{Bool-cases, Memory, inl, inr, true, ℕ, ◌==◌, ◌≡◌, ◌≤◌}
use nerd_rtos.Ipc.MsgQueue.{
  MsgQueue, is_timeout, notify, queue_recv, queue_recv_resume, queue_send, queue_send_resume,
}
use nerd_rtos.Kernel.Invariant.{IsWf}
use nerd_rtos.Kernel.Invariant.Scheduling.{scheduler-IsWf}
use nerd_rtos.Kernel.Invariant.Sleep.{thread_pend-IsWf, thread_wakeup-IsWf}
use nerd_rtos.Kernel.Links.{list_is_empty}
use nerd_rtos.Kernel.Scheduler.{is_running}
use nerd_rtos.Kernel.State.{Kernel, thread_priority_max, timeout_nowait}
use nerd_rtos.Kernel.Thread.{resume_error}

pub notify-IsWf : (k : Kernel) (h : ℕ) → thread_priority_max ≤ h → IsWf k → IsWf (notify k h)
notify-IsWf k h above w = elim (Bool-cases (list_is_empty k h)) [
  | inl e ↦ rw e w
  | inr e ↦ rw e (scheduler-IsWf _ (thread_wakeup-IsWf k h above w))
]

module _ (k : Kernel) (c : ℕ) (q : MsgQueue) (timeout : ℕ)
    (run : is_running (k.threads c).stat ≡ true) (send_above : thread_priority_max ≤ q.send_wait)
    (read_above : thread_priority_max ≤ q.read_wait) (w : IsWf k) where
  pub queue_send-IsWf : (msg : Memory) → IsWf (queue_send k c q msg timeout).2
  unfolding queue_send
  queue_send-IsWf msg = elim (Bool-cases (q.used_msg == q.max_msgs)) [
    | inr e ↦ simp e (notify-IsWf k q.read_wait read_above w)
    | inl e ↦ simp e (elim (Bool-cases (timeout == timeout_nowait)) [
      | inl f ↦ rw f w
      | inr f ↦ rw f (scheduler-IsWf _ (thread_pend-IsWf k c q.send_wait timeout run send_above w))
    ])
  ]

  pub queue_recv-IsWf : (out : Memory) → IsWf (queue_recv k c q out timeout).3
  unfolding queue_recv
  queue_recv-IsWf out = elim (Bool-cases (q.used_msg == 0)) [
    | inr e ↦ simp e (notify-IsWf k q.send_wait send_above w)
    | inl e ↦ simp e (elim (Bool-cases (timeout == timeout_nowait)) [
      | inl f ↦ rw f w
      | inr f ↦ rw f (scheduler-IsWf _ (thread_pend-IsWf k c q.read_wait timeout run read_above w))
    ])
  ]

  pub queue_send_resume-IsWf : (msg : Memory) → IsWf (queue_send_resume k c q msg timeout).2
  unfolding queue_send_resume
  queue_send_resume-IsWf msg = elim (Bool-cases (is_timeout (resume_error k c))) [
    | inl e ↦ rw e w
    | inr e ↦ rw e (queue_send-IsWf msg)
  ]

  pub queue_recv_resume-IsWf : (out : Memory) → IsWf (queue_recv_resume k c q out timeout).3
  unfolding queue_recv_resume
  queue_recv_resume-IsWf out = elim (Bool-cases (is_timeout (resume_error k c))) [
    | inl e ↦ rw e w
    | inr e ↦ rw e (queue_recv-IsWf out)
  ]
