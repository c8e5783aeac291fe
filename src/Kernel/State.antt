-- ===== src/Kernel/State.antt =====
-- The types of include/nd_thread.h, include/nd_timer.h and include/nd_def.h, and the globals of
-- kernel/nd_scheduler.c as one record. Threads, mutexes and list heads are addresses; the ready
-- lists have the addresses below `thread_priority_max`.
use nerd_rtos.Common.{Bool, List, Option, update, ℕ, ◌-◌, ◌^◌}

-- ND_THREAD_PRIORITY_MAX
abbrev pub thread_priority_max : ℕ
thread_priority_max = 32

abbrev pub u64_mod : ℕ
u64_mod = 2 ^ 64

abbrev pub u32_mod : ℕ
u32_mod = 2 ^ 32

abbrev pub timeout_forever : ℕ
timeout_forever = 2 ^ 64 - 1

abbrev pub timeout_nowait : ℕ
timeout_nowait = 0

pub data Err : Type 0 where
  eok error etimeout efull eempty enomem enosys ebusy eio eintr einval eperm edeadlk : Err

pub data ThreadStat : Type 0 where
  init ready running block suspend dead : ThreadStat

pub data EventOpt : Type 0 where
  event_and event_or : EventOpt

-- Where a thread's `qnode` is: its pointers are null, point to itself, or it is on the list of a
-- head.
pub data Link : Type 0 where
  unlinked self : Link
  on : ℕ → Link

-- The functions that the kernel stores in a thread's timers; `no_callback` is the null pointer.
pub data Callback : Type 0 where
  no_callback thread_timer_callback thread_pend_timeout thread_slice_timeout : Callback

-- A thread's own timer: `armed` says that its node is in the tree of timers.
pub record ThreadTimer : Type 0 where
  pub armed : Bool
  pub timeout : ℕ
  pub callback : Callback

pub record Thread : Type 0 where
  pub priority : ℕ
  pub init_priority : ℕ
  pub yield : Bool
  pub error : Err
  pub stat : ThreadStat
  pub options : ℕ
  pub timer : ThreadTimer
  pub qnode : Link
  pub join_list : ℕ
  pub time_slice : ℕ
  pub slice_left : ℕ
  pub slice_start : ℕ
  pub slice_timer : ThreadTimer
  pub taken_list : List ℕ
  pub event_set : ℕ
  pub event_opt : EventOpt

pub record Mutex : Type 0 where
  pub priority : ℕ
  pub owner : Option ℕ
  pub wait_list : ℕ

-- `lists h` is what the list of head `h` holds, first to last. `switch_request` is the switch
-- that nd_hw_do_switch asks for, made when the interrupts are on again. `now` is the clock.
-- `fault` records a write through a null link, or a node put on a second list.
pub record Kernel : Type 0 where
  pub threads : ℕ → Thread
  pub current_thread : Option ℕ
  pub next_thread : Option ℕ
  pub interrupt_nest_count : ℕ
  pub interrupt_try_switch : Bool
  pub thread_ready_bit : ℕ → Bool
  pub lists : ℕ → List ℕ
  pub thread_list : List ℕ
  pub mutexes : ℕ → Mutex
  pub switch_request : Bool
  pub now : ℕ
  pub fault : Bool

abbrev pub set_thread : Kernel → ℕ → Thread → Kernel
set_thread k t th = record k { threads = update k.threads t th }

abbrev pub set_stat : Kernel → ℕ → ThreadStat → Kernel
set_stat k t s = set_thread k t (record (k.threads t) { stat = s })

-- What a blocking call has done when it comes to its end: returned, or put the calling thread to
-- sleep, so that the rest of the call runs when the thread runs again.
pub data Outcome : Type 0 where
  returned : Err → Outcome
  blocked : Outcome
