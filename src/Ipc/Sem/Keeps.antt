-- ===== src/Ipc/Sem/Keeps.antt =====
-- The semaphore calls and the kernel's invariant.
use nerd_rtos.Common.{Bool-cases, inl, inr, is_positive, true, ℕ, ◌==◌, ◌≡◌, ◌≤◌}
use nerd_rtos.Ipc.Sem.{Sem, sem_release, sem_take}
use nerd_rtos.Kernel.Invariant.{IsWf}
use nerd_rtos.Kernel.Invariant.Scheduling.{scheduler-IsWf}
use nerd_rtos.Kernel.Invariant.Sleep.{thread_pend-IsWf, thread_wakeup-IsWf}
use nerd_rtos.Kernel.Links.{list_is_empty}
use nerd_rtos.Kernel.Scheduler.{is_running}
use nerd_rtos.Kernel.State.{Kernel, thread_priority_max, timeout_nowait}

pub sem_release-IsWf :
    (k : Kernel) (s : Sem) → thread_priority_max ≤ s.wait_list → IsWf k → IsWf (sem_release k s).2
unfolding sem_release
sem_release-IsWf k s above w = elim (Bool-cases (list_is_empty k s.wait_list)) [
  | inl e ↦ rw e w
  | inr e ↦ rw e (scheduler-IsWf _ (thread_wakeup-IsWf k s.wait_list above w))
]

pub sem_take-IsWf :
    (k : Kernel) (c : ℕ) (s : Sem) (timeout : ℕ)
    → is_running (k.threads c).stat ≡ true
    → thread_priority_max ≤ s.wait_list
    → IsWf k
    → IsWf (sem_take k c s timeout).2
unfolding sem_take
sem_take-IsWf k c s timeout run above w = elim (Bool-cases (is_positive s.val)) [
  | inl e ↦ rw e w
  | inr e ↦ rw e (elim (Bool-cases (timeout == timeout_nowait)) [
    | inl f ↦ rw f w
    | inr f ↦ rw f (scheduler-IsWf _ (thread_pend-IsWf k c s.wait_list timeout run above w))
  ])
]
