-- ===== src/Ipc/MsgQueue/Fifo.antt =====
-- A queue as its clients see it: a bounded list of messages, oldest first.
use nerd_rtos.Common.{
  Bool, Bool-cases, List, Memory, Option, [], ap, arith, false, if◌then◌else◌, inl, inr, length,
  none, not, read, refl, some, suc, sym, true, zero, ℕ, ◌*◌, ◌++◌, ◌+◌, ◌<◌, ◌==◌, ◌∷◌, ◌≡◌,
}
use nerd_rtos.Ipc.MsgQueue.{MsgQueue, queue_recv, queue_send}
use nerd_rtos.Ipc.MsgQueue.Ring.{
  IsRing, contents, contents-get, contents-put, get-IsRing, messages, put-IsRing,
}
use nerd_rtos.Kernel.State.{
  Kernel, Outcome, blocked, ebusy, edeadlk, eempty, efull, eintr, einval, eio, enomem, enosys, eok,
  eperm, error, etimeout, returned, timeout_nowait, u32_mod,
}

-- What a send and a receive are to do, by the messages that the queue holds; `cap` is how many it
-- can hold.
pub fifo_send : ℕ → List (List ℕ) → List ℕ → ℕ → Outcome × List (List ℕ)
fifo_send cap xs msg timeout =
    if not (length xs == cap)
    then (returned eok, xs ++ msg ∷ [])
    else if timeout == timeout_nowait
    then (returned efull, xs)
    else (blocked, xs)

-- With the message for the caller, if it gets one.
pub fifo_recv : List (List ℕ) → ℕ → Outcome × Option (List ℕ) × List (List ℕ)
fifo_recv (x ∷ xs) timeout = (returned eok, some x, xs)
fifo_recv [] timeout =
    if timeout == timeout_nowait then (returned eempty, none, []) else (blocked, none, [])

abbrev pub is_returned_ok : Outcome → Bool
is_returned_ok (returned eok) = true
is_returned_ok (returned etimeout) = false
is_returned_ok (returned error) = false
is_returned_ok (returned efull) = false
is_returned_ok (returned eempty) = false
is_returned_ok (returned enomem) = false
is_returned_ok (returned enosys) = false
is_returned_ok (returned ebusy) = false
is_returned_ok (returned eio) = false
is_returned_ok (returned eintr) = false
is_returned_ok (returned einval) = false
is_returned_ok (returned eperm) = false
is_returned_ok (returned edeadlk) = false
is_returned_ok blocked = false

length-messages : (buf : Memory) (m s p n : ℕ) → length (messages buf m s p n) ≡ n
unfolding messages
length-messages buf m s p zero = refl
length-messages buf m s p (suc n) = ap suc (length-messages buf m s (p + 1) n)

module _ (k : Kernel) (c : ℕ) (q : MsgQueue) (r : IsRing q) (timeout : ℕ) where
  -- On a well-formed ring of fewer than 2^32 bytes, a round of nd_queue_send returns, fails or
  -- blocks as a send on a bounded first-in first-out list does, and afterwards the ring holds
  -- what that list holds: the new message last if there was room, else no change.
  pub queue_send_refines :
      (msg : Memory)
      → q.max_msgs * q.msg_size < u32_mod
      → let (o, q', k') = queue_send k c q msg timeout in
        (o, contents q') ≡ fifo_send q.max_msgs (contents q) (read msg 0 q.msg_size) timeout
  unfolding queue_send fifo_send
  queue_send_refines msg bytes =
      let len = length-messages q.buf q.max_msgs q.msg_size q.read_ptr q.used_msg in
      elim (Bool-cases (q.used_msg == q.max_msgs)) [
        | inl e ↦
            simp (len, e)
              (elim (Bool-cases (timeout == timeout_nowait)) [
                | inl f ↦ rw f refl
                | inr f ↦ rw f refl
              ])
        | inr e ↦
            simp (len, e)
              (ap (λ xs. (returned eok, xs)) (contents-put q r msg (ground (arith, r.fits)) bytes))
      ]

  contents-empty : q.used_msg ≡ 0 → contents q ≡ []
  unfolding messages
  contents-empty e = ap (messages q.buf q.max_msgs q.msg_size q.read_ptr) e

  -- On a well-formed ring of fewer than 2^32 bytes, a round of nd_queue_recv returns, fails or
  -- blocks as a receive on a first-in first-out list does, the message that it delivers to the
  -- caller's buffer is the oldest one, and afterwards the ring holds the rest.
  pub queue_recv_refines :
      (out : Memory)
      → q.max_msgs * q.msg_size < u32_mod
      → let (o, out', q', k') = queue_recv k c q out timeout in
        (o, (if is_returned_ok o then some (read out' 0 q.msg_size) else none), contents q')
        ≡ fifo_recv (contents q) timeout
  unfolding queue_recv fifo_recv
  queue_recv_refines out bytes = elim (Bool-cases (q.used_msg == 0)) [
    | inl e ↦
        let none_left = contents-empty (ground arith) in
        simp (e, none_left)
          (elim (Bool-cases (timeout == timeout_nowait)) [
            | inl f ↦ simp (f, none_left) refl
            | inr f ↦ simp (f, none_left) refl
          ])
    | inr e ↦
        simp e (sym (ap (λ xs. fifo_recv xs timeout) (contents-get q r out (ground arith) bytes)))
  ]

  -- A round of nd_queue_send on a well-formed ring leaves it well formed: the count is within
  -- the capacity, and the 32-bit indices differ by the count also after they wrap.
  pub queue_send-IsRing : (msg : Memory) → IsRing (queue_send k c q msg timeout).1
  unfolding queue_send
  queue_send-IsRing msg = elim (Bool-cases (q.used_msg == q.max_msgs)) [
    | inl e ↦ elim (Bool-cases (timeout == timeout_nowait)) [
      | inl f ↦ simp (e, f) r
      | inr f ↦ simp (e, f) r
    ]
    | inr e ↦ simp e (put-IsRing q r msg (ground (arith, r.fits)))
  ]

  -- A round of nd_queue_recv on a well-formed ring leaves it well formed.
  pub queue_recv-IsRing : (out : Memory) → IsRing (queue_recv k c q out timeout).2
  unfolding queue_recv
  queue_recv-IsRing out = elim (Bool-cases (q.used_msg == 0)) [
    | inl e ↦ elim (Bool-cases (timeout == timeout_nowait)) [
      | inl f ↦ simp (e, f) r
      | inr f ↦ simp (e, f) r
    ]
    | inr e ↦ simp e (get-IsRing q r out (ground arith))
  ]
