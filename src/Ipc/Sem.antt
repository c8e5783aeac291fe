-- ===== src/Ipc/Sem.antt =====
-- kernel/nd_sem.c. A call returns its outcome, the semaphore and the kernel.
pub mod Keeps
pub mod Balance
use nerd_rtos.Common.{[], dec32, if◌then◌else◌, inc32, is_positive, update, ℕ, ℤ, ◌==◌}
use nerd_rtos.Kernel.Links.{list_is_empty}
use nerd_rtos.Kernel.Scheduler.{scheduler}
use nerd_rtos.Kernel.State.{Err, Kernel, Outcome, blocked, ebusy, eok, returned, timeout_nowait}
use nerd_rtos.Kernel.Thread.{thread_pend, thread_wakeup}

pub record Sem : Type 0 where
  pub val : ℤ
  pub wait_list : ℕ

-- nd_sem_init: the waiting list is empty after.
unfoldable pub sem_init : Kernel → Sem → ℤ → Sem × Kernel
sem_init k s init_val =
    (record s { val = init_val }, record k { lists = update k.lists s.wait_list [] })

unfoldable pub sem_release : Kernel → Sem → Err × Sem × Kernel
sem_release k s =
    if list_is_empty k s.wait_list
    then (eok, record s { val = inc32 s.val }, k)
    else (eok, s, scheduler (thread_wakeup k s.wait_list).1)

-- nd_sem_take by the current thread `c`, up to where it sleeps.
unfoldable pub sem_take : Kernel → ℕ → Sem → ℕ → Outcome × Sem × Kernel
sem_take k c s timeout =
    if is_positive s.val
    then (returned eok, record s { val = dec32 s.val }, k)
    else if timeout == timeout_nowait
    then (returned ebusy, s, k)
    else (blocked, s, scheduler (thread_pend k c s.wait_list timeout))
