-- ===== src/Pool/Keeps.antt =====
-- The calls of a pool and the kernel's invariant.
use nerd_rtos.Common.{Bool-cases, inl, inr, true, ℕ, ◌==◌, ◌≡◌, ◌≤◌}
use nerd_rtos.Ipc.MsgQueue.{is_timeout}
use nerd_rtos.Ipc.MsgQueue.Keeps.{notify-IsWf}
use nerd_rtos.Kernel.Invariant.{IsWf}
use nerd_rtos.Kernel.Invariant.Scheduling.{scheduler-IsWf}
use nerd_rtos.Kernel.Invariant.Sleep.{thread_pend-IsWf}
use nerd_rtos.Kernel.Scheduler.{is_running}
use nerd_rtos.Kernel.State.{Kernel, thread_priority_max, timeout_nowait}
use nerd_rtos.Kernel.Thread.{resume_error}
use nerd_rtos.Pool.{Pool, mempool_alloc, mempool_alloc_resume, mempool_free}

module _ (k : Kernel) (p : Pool) (above : thread_priority_max ≤ p.wait_list) (w : IsWf k) where
  pub mempool_free-IsWf : (b : ℕ) → IsWf (mempool_free k p b).1
  unfolding mempool_free
  mempool_free-IsWf b = notify-IsWf k p.wait_list above w

  module _ (c timeout : ℕ) (run : is_running (k.threads c).stat ≡ true) where
    pub mempool_alloc-IsWf : IsWf (mempool_alloc k c p timeout).2
    unfolding mempool_alloc
    mempool_alloc-IsWf = elim (Bool-cases (p.free_count == 0)) [
      | inr e ↦ simp e w
      | inl e ↦ simp e (elim (Bool-cases (timeout == timeout_nowait)) [
        | inl f ↦ rw f w
        | inr f ↦ rw f (scheduler-IsWf _ (thread_pend-IsWf k c p.wait_list timeout run above w))
      ])
    ]

    pub mempool_alloc_resume-IsWf : IsWf (mempool_alloc_resume k c p timeout).2
    unfolding mempool_alloc_resume
    mempool_alloc_resume-IsWf = elim (Bool-cases (is_timeout (resume_error k c))) [
      | inl e ↦ rw e w
      | inr e ↦ rw e mempool_alloc-IsWf
    ]
