-- ===== src/World.antt =====
-- The kernel and its objects together, and their initialisation: nd_sem_init, nd_mutex_init,
-- nd_event_init, nd_queue_init and nd_mempool_init.
pub mod Objects
use nerd_rtos.Common.{Bool, Memory, [], false, if◌then◌else◌, true, update, ℕ, ℤ, ◌≡◌, ◌≤◌}
use nerd_rtos.Ipc.Event.{Event, event_init}
use nerd_rtos.Ipc.MsgQueue.{MsgQueue, queue_init}
use nerd_rtos.Ipc.Mutex.{mutex_init}
use nerd_rtos.Ipc.Sem.{Sem, sem_init}
use nerd_rtos.Kernel.State.{
  Err, Kernel, ebusy, edeadlk, eempty, efull, eintr, einval, eio, enomem, enosys, eok, eperm, error,
  etimeout, thread_priority_max,
}
use nerd_rtos.Pool.{Pool, mempool_init}

abbrev pub is_eok : Err → Bool
is_eok eok = true
is_eok etimeout = false
is_eok error = false
is_eok efull = false
is_eok eempty = false
is_eok enomem = false
is_eok enosys = false
is_eok ebusy = false
is_eok eio = false
is_eok eintr = false
is_eok einval = false
is_eok eperm = false
is_eok edeadlk = false

-- The kernel, its objects, and which heads of their lists nd_list_init has run on: the others are
-- null pointers, which no call looks at here.
pub record World : Type 0 where
  pub kernel : Kernel
  pub sems : ℕ → Sem
  pub events : ℕ → Event
  pub queues : ℕ → MsgQueue
  pub pools : ℕ → Pool
  pub initialised : ℕ → Bool

-- The initialisation of an object, which may come at any time, also before the start.
pub data Init : Type 0 where
  sem_inits : ℕ → ℤ → Init
  mutex_inits event_inits : ℕ → Init
  queue_inits : ℕ → Memory → ℕ → ℕ → Init
  pool_inits : ℕ → ℕ → ℕ → ℕ → Init

abbrev pub with_kernel : World → Kernel → World
with_kernel w k = record w { kernel = k }

abbrev pub with_sem : World → ℕ → Sem → Kernel → World
with_sem w s x k = record w { kernel = k; sems = update w.sems s x }

abbrev pub with_event : World → ℕ → Event → Kernel → World
with_event w e x k = record w { kernel = k; events = update w.events e x }

abbrev pub with_queue : World → ℕ → MsgQueue → Kernel → World
with_queue w q x k = record w { kernel = k; queues = update w.queues q x }

abbrev pub with_pool : World → ℕ → Pool → Kernel → World
with_pool w p x k = record w { kernel = k; pools = update w.pools p x }

-- The head `h` is initialised.
abbrev pub with_head : World → ℕ → World
with_head w h = record w { initialised = update w.initialised h true }

-- The two heads of a queue that nd_queue_init accepts.
abbrev pub with_heads_if : Bool → World → ℕ → ℕ → World
with_heads_if made w g h = record w {
  initialised = if made then update (update w.initialised g true) h true else w.initialised;
}

unfoldable pub run_init : Init → World → World
run_init (sem_inits s v) w =
    let r = sem_init w.kernel (w.sems s) v in with_head (with_sem w s r.0 r.1) (w.sems s).wait_list
run_init (mutex_inits m) w =
    with_head (with_kernel w (mutex_init w.kernel m)) (w.kernel.mutexes m).wait_list
run_init (event_inits e) w =
    let r = event_init w.kernel (w.events e) in
    with_head (with_event w e r.0 r.1) (w.events e).wait_list
run_init (queue_inits q buf size n) w =
    let r = queue_init w.kernel (w.queues q) buf size n in
    with_heads_if (is_eok r.0) (with_queue w q r.1 r.2) (w.queues q).read_wait
      (w.queues q).send_wait
run_init (pool_inits p start size n) w =
    let r = mempool_init w.kernel (w.pools p) start size n in
    with_head (with_pool w p r.0 r.1) (w.pools p).wait_list

-- The list of an object is none of the ready lists, and its head was initialised.
pub record IsHead (w : World) (h : ℕ) : Type 0 where
  pub above : thread_priority_max ≤ h
  pub made : w.initialised h ≡ true

-- Both lists of a queue.
pub record QueueFits (w : World) (q : ℕ) : Type 0 where
  pub send_head : IsHead w (w.queues q).send_wait
  pub read_head : IsHead w (w.queues q).read_wait

-- An object is initialised only while no thread waits for it.
pub record IsUnused (w : World) (h : ℕ) : Type 0 where
  pub above : thread_priority_max ≤ h
  pub empty : w.kernel.lists h ≡ []

pub record BothUnused (w : World) (q : ℕ) : Type 0 where
  pub send : IsUnused w (w.queues q).send_wait
  pub read : IsUnused w (w.queues q).read_wait

abbrev pub InitFits : Init → World → Type 0
InitFits (sem_inits s v) w = IsUnused w (w.sems s).wait_list
InitFits (mutex_inits m) w = IsUnused w (w.kernel.mutexes m).wait_list
InitFits (event_inits e) w = IsUnused w (w.events e).wait_list
InitFits (queue_inits q buf size n) w = BothUnused w q
InitFits (pool_inits p start size n) w = IsUnused w (w.pools p).wait_list
