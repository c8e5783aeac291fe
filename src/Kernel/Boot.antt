-- ===== src/Kernel/Boot.antt =====
-- The start of the kernel: nd_scheduler_init, and the first switch of nd_scheduler_start.
use nerd_rtos.Common.{List, [], if◌then◌else◌, ltb, some, ℕ, ◌-◌}
use nerd_rtos.Kernel.Ready.{get_highest_priority_thread}
use nerd_rtos.Kernel.Scheduler.{context_switch_cb}
use nerd_rtos.Kernel.State.{Kernel, thread_priority_max}
use nerd_rtos.Kernel.Thread.{CreateArgs, thread_create}

-- The address of k_idle_thread and the pointers that nd_scheduler_init passes for it.
pub record IdleThread : Type 0 where
  pub thread : ℕ
  pub name : ℕ
  pub entry : ℕ
  pub stack : ℕ
  pub stack_size : ℕ

abbrev pub idle_args : IdleThread → CreateArgs
idle_args i = record {
  thread = some i.thread;
  name = some i.name;
  entry = some i.entry;
  priority = thread_priority_max - 1;
  stack = some i.stack;
  stack_size = i.stack_size;
  options = 1;
  time_slice = 0;
}

-- The loop over the ready lists: each is empty after.
abbrev pub init_lists : (ℕ → List ℕ) → ℕ → List ℕ
init_lists lists h = if ltb h thread_priority_max then [] else lists h

-- nd_scheduler_init
unfoldable pub scheduler_init : Kernel → IdleThread → Kernel
scheduler_init k i =
    (thread_create (record k { thread_list = []; lists = init_lists k.lists }) (idle_args i)).1

-- The handler of the switch that nd_scheduler_start asks for, where there is no current thread.
unfoldable pub first_switch : Kernel → Kernel
first_switch k = context_switch_cb k (get_highest_priority_thread k)
