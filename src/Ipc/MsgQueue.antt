-- ===== src/Ipc/MsgQueue.antt =====
-- kernel/nd_queue.c: queues of messages of one size in a ring of a power of two. Indices and
-- counts are 32-bit words.
pub mod Ring
pub mod Fifo
pub mod Init
pub mod Keeps
pub mod Runs
use Prim.Native.Nat.{bit_and}
use nerd_rtos.Common.{
  Bool, Memory, [], false, if◌then◌else◌, ltb, memcpy, not, true, update, ℕ, ◌%◌, ◌*◌, ◌+◌, ◌-◌,
  ◌==◌, ◌||◌,
}
use nerd_rtos.Kernel.Links.{list_is_empty}
use nerd_rtos.Kernel.Scheduler.{scheduler}
use nerd_rtos.Kernel.State.{
  Err, Kernel, Outcome, blocked, ebusy, edeadlk, eempty, efull, eintr, einval, eio, enomem, enosys,
  eok, eperm, error, etimeout, returned, timeout_nowait, u32_mod,
}
use nerd_rtos.Kernel.Thread.{resume_error, thread_pend, thread_wakeup}

pub record MsgQueue : Type 0 where
  pub buf : Memory
  pub msg_size : ℕ
  pub max_msgs : ℕ
  pub used_msg : ℕ
  pub read_ptr : ℕ
  pub write_ptr : ℕ
  pub send_wait : ℕ
  pub read_wait : ℕ

-- nd_queue_init; both waiting lists are empty after.
unfoldable pub queue_init : Kernel → MsgQueue → Memory → ℕ → ℕ → Err × MsgQueue × Kernel
queue_init k q buf msg_size max_msgs =
    if not (bit_and max_msgs ((max_msgs + u32_mod - 1) % u32_mod) == 0) || ltb max_msgs 1
    then (einval, q, k)
    else (
      eok,
      record q {
        buf = buf;
        msg_size = msg_size;
        max_msgs = max_msgs;
        used_msg = 0;
        read_ptr = 0;
        write_ptr = 0;
      },
      record k { lists = update (update k.lists q.read_wait []) q.send_wait [] },
    )

-- Where the message of index `ptr` stands in the buffer, as a 32-bit product.
abbrev pub offset : MsgQueue → ℕ → ℕ
offset q ptr = bit_and ptr (q.max_msgs - 1) * q.msg_size % u32_mod

-- The copy of the message at `c` into the ring.
unfoldable pub put : MsgQueue → Memory → MsgQueue
put q c = record q {
  buf = memcpy q.buf (offset q q.write_ptr) c 0 q.msg_size;
  write_ptr = (q.write_ptr + 1) % u32_mod;
  used_msg = (q.used_msg + 1) % u32_mod;
}

-- The copy of the oldest message out of the ring; it runs only when there is one.
unfoldable pub get : MsgQueue → Memory → Memory × MsgQueue
get q out = (
  memcpy out 0 q.buf (offset q q.read_ptr) q.msg_size,
  record q { read_ptr = (q.read_ptr + 1) % u32_mod; used_msg = q.used_msg - 1 },
)

-- The wakeup of a thread that waits on `h`, if one does.
abbrev pub notify : Kernel → ℕ → Kernel
notify k h = if list_is_empty k h then k else scheduler (thread_wakeup k h).1

-- A round of the loop of nd_queue_send by the current thread `c`, up to where it sleeps.
unfoldable pub queue_send : Kernel → ℕ → MsgQueue → Memory → ℕ → Outcome × MsgQueue × Kernel
queue_send k c q msg timeout =
    if not (q.used_msg == q.max_msgs)
    then (returned eok, put q msg, notify k q.read_wait)
    else if timeout == timeout_nowait
    then (returned efull, q, k)
    else (blocked, q, scheduler (thread_pend k c q.send_wait timeout))

abbrev pub is_timeout : Err → Bool
is_timeout etimeout = true
is_timeout eok = false
is_timeout error = false
is_timeout efull = false
is_timeout eempty = false
is_timeout enomem = false
is_timeout enosys = false
is_timeout ebusy = false
is_timeout eio = false
is_timeout eintr = false
is_timeout einval = false
is_timeout eperm = false
is_timeout edeadlk = false

-- What nd_queue_send does when its thread runs again: it gives up after a timeout, else tries
-- once more.
unfoldable pub queue_send_resume : Kernel → ℕ → MsgQueue → Memory → ℕ → Outcome × MsgQueue × Kernel
queue_send_resume k c q msg timeout =
    if is_timeout (resume_error k c)
    then (returned (resume_error k c), q, k)
    else queue_send k c q msg timeout

-- A round of the loop of nd_queue_recv; the first part of the result is the caller's buffer.
unfoldable pub queue_recv :
    Kernel → ℕ → MsgQueue → Memory → ℕ → Outcome × Memory × MsgQueue × Kernel
queue_recv k c q out timeout =
    let (out', q') = get q out in
    if not (q.used_msg == 0)
    then (returned eok, out', q', notify k q.send_wait)
    else if timeout == timeout_nowait
    then (returned eempty, out, q, k)
    else (blocked, out, q, scheduler (thread_pend k c q.read_wait timeout))

unfoldable pub queue_recv_resume :
    Kernel → ℕ → MsgQueue → Memory → ℕ → Outcome × Memory × MsgQueue × Kernel
queue_recv_resume k c q out timeout =
    if is_timeout (resume_error k c)
    then (returned (resume_error k c), out, q, k)
    else queue_recv k c q out timeout
