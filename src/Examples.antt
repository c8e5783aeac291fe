-- ===== src/Examples.antt =====
-- A small system, by which the theorems are tried: the idle thread 0, a thread 1 of priority 5,
-- mutex 0, semaphore 0, queue 0.
pub mod States
pub mod Runs
pub mod Objects
pub mod Clock
pub mod Blocks
pub mod Strings
pub mod Typing
pub mod Printing
pub mod Heaps
use nerd_rtos.Common.{[], arith, false, none, pos, refl, some, ℕ, ◌+◌}
use nerd_rtos.Ipc.MsgQueue.{MsgQueue}
use nerd_rtos.Ipc.Mutex.{mutex_lock}
use nerd_rtos.Kernel.Boot.{IdleThread, first_switch, scheduler_init}
use nerd_rtos.Kernel.Invariant.Boot.{IsBlank}
use nerd_rtos.Kernel.Scheduler.{do_switch}
use nerd_rtos.Kernel.State.{
  Kernel, Thread, ThreadTimer, eok, event_and, init, no_callback, timeout_forever, unlinked,
}
use nerd_rtos.Kernel.Thread.{CreateArgs, thread_create, thread_join}
use nerd_rtos.World.{World}

abbrev pub zero_timer : ThreadTimer
zero_timer = record { armed = false; timeout = 0; callback = no_callback }

abbrev pub zero_thread : ℕ → Thread
zero_thread t = record {
  priority = 0;
  init_priority = 0;
  yield = false;
  error = eok;
  stat = init;
  options = 0;
  timer = zero_timer;
  qnode = unlinked;
  join_list = 1000 + t;
  time_slice = 0;
  slice_left = 0;
  slice_start = 0;
  slice_timer = zero_timer;
  taken_list = [];
  event_set = 0;
  event_opt = event_and;
}

abbrev pub blank : Kernel
blank = record {
  threads = zero_thread;
  current_thread = none;
  next_thread = none;
  interrupt_nest_count = 0;
  interrupt_try_switch = false;
  thread_ready_bit = λ p. false;
  lists = λ h. [];
  thread_list = [];
  mutexes = λ m. record { priority = 32; owner = none; wait_list = 2000 + m };
  switch_request = false;
  now = 0;
  fault = false;
}

pub blank_kernel : IsBlank blank
blank_kernel = record {
  thread_zero = λ t. (refl, refl, refl, refl, refl, omega arith);
  lists_empty = λ h. refl;
  bits_zero = λ p. refl;
  no_thread = refl;
  no_request = refl;
  no_fault = refl;
  outside = refl;
}

abbrev pub idle : IdleThread
idle = record { thread = 0; name = 1; entry = 2; stack = 3; stack_size = 512 }

abbrev pub empty_queue : MsgQueue
empty_queue = record {
  buf = λ a. 0;
  msg_size = 1;
  max_msgs = 0;
  used_msg = 0;
  read_ptr = 0;
  write_ptr = 0;
  send_wait = 5000;
  read_wait = 5001;
}

abbrev pub power_up : World
power_up = record {
  kernel = blank;
  sems = λ s. record { val = pos 1; wait_list = 3000 + s };
  events = λ e. record { set = 0; wait_list = 4000 + e };
  queues = λ q. empty_queue;
  pools = λ p. record {
    start = 0;
    block_size = 0;
    block_count = 0;
    free_count = 0;
    free_list = none;
    wait_list = 5000 + p;
    cells = λ a. 0;
  };
  initialised = λ h. false;
}

abbrev pub worker : CreateArgs
worker = record {
  thread = some 1;
  name = some 1;
  entry = some 2;
  priority = 5;
  stack = some 4;
  stack_size = 512;
  options = 0;
  time_slice = 0;
}

-- The idle thread runs.
abbrev pub idling : Kernel
idling = first_switch (scheduler_init blank idle)

-- It has locked mutex 0.
abbrev pub locked : Kernel
locked = (mutex_lock idling 0 0 0).1

-- The worker is made, and runs.
abbrev pub working : Kernel
working = do_switch (thread_create locked worker).1

-- It waits for the mutex, and the idle thread runs on with its priority.
abbrev pub contended : Kernel
contended = do_switch (mutex_lock working 1 0 timeout_forever).1

-- Where the worker waits for the idle thread to end instead.
abbrev pub joined : Kernel
joined = do_switch (thread_join working 1 (some 0) timeout_forever).1
