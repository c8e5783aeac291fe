-- ===== src/Ipc/MsgQueue/Runs.antt =====
-- Sequences of calls of nd_queue_send and nd_queue_recv on one queue, kernel/nd_queue.c.
use nerd_rtos.Common.{
  List, Memory, Option, [], ap, ap₂, arith, if◌then◌else◌, none, read, refl, some, ℕ, ◌*◌, ◌<◌, ◌∙◌,
  ◌∷◌, ◌≡◌,
}
use nerd_rtos.Ipc.MsgQueue.{MsgQueue, get, put, queue_recv, queue_send}
use nerd_rtos.Ipc.MsgQueue.Fifo.{
  fifo_recv, fifo_send, is_returned_ok, queue_recv-IsRing, queue_recv_refines, queue_send-IsRing,
  queue_send_refines,
}
use nerd_rtos.Ipc.MsgQueue.Ring.{IsRing, contents}
use nerd_rtos.Kernel.State.{Kernel, Outcome, u32_mod}

-- A round of a call: the kernel that it finds, the thread, its buffer and the timeout.
pub data Round : Type 0 where
  send_round : Kernel → ℕ → Memory → ℕ → Round
  recv_round : Kernel → ℕ → Memory → ℕ → Round

-- What the caller learns: the outcome, and the message that a receive has delivered.
pub record Answer : Type 0 where
  pub outcome : Outcome
  pub message : Option (List ℕ)

abbrev answer : Outcome → Option (List ℕ) → Answer
answer o m = record { outcome = o; message = m }

unfoldable pub ring_round : Round → MsgQueue → Answer × MsgQueue
ring_round (send_round k c msg timeout) q =
    let r = queue_send k c q msg timeout in (record { outcome = r.0; message = none }, r.1)
ring_round (recv_round k c out timeout) q =
    let r = queue_recv k c q out timeout in
    let message = if is_returned_ok r.0 then some (read r.1 0 q.msg_size) else none in
    (record { outcome = r.0; message = message }, r.2)

unfoldable pub ring_run : List Round → MsgQueue → List Answer × MsgQueue
ring_run [] q = ([], q)
ring_run (o ∷ os) q = let r = ring_round o q in let s = ring_run os r.1 in (r.0 ∷ s.0, s.1)

-- The same on a bounded list of messages of one size, oldest first.
unfoldable pub fifo_round : ℕ → ℕ → Round → List (List ℕ) → Answer × List (List ℕ)
fifo_round cap size (send_round k c msg timeout) xs =
    let r = fifo_send cap xs (read msg 0 size) timeout in
    (record { outcome = r.0; message = none }, r.1)
fifo_round cap size (recv_round k c out timeout) xs =
    let r = fifo_recv xs timeout in (record { outcome = r.0; message = r.1 }, r.2)

unfoldable pub fifo_run : ℕ → ℕ → List Round → List (List ℕ) → List Answer × List (List ℕ)
fifo_run cap size [] xs = ([], xs)
fifo_run cap size (o ∷ os) xs =
    let r = fifo_round cap size o xs in let s = fifo_run cap size os r.1 in (r.0 ∷ s.0, s.1)

send-sizes :
    (k : Kernel) (c : ℕ) (q : MsgQueue) (msg : Memory) (timeout : ℕ)
    → let q' = (queue_send k c q msg timeout).1 in
      (q'.max_msgs ≡ q.max_msgs) × (q'.msg_size ≡ q.msg_size)
unfolding queue_send put
send-sizes k c q msg timeout = (ground arith, ground arith)

recv-sizes :
    (k : Kernel) (c : ℕ) (q : MsgQueue) (out : Memory) (timeout : ℕ)
    → let q' = (queue_recv k c q out timeout).2 in
      (q'.max_msgs ≡ q.max_msgs) × (q'.msg_size ≡ q.msg_size)
unfolding queue_recv get
recv-sizes k c q out timeout = (ground arith, ground arith)

round-sizes :
    (o : Round) (q : MsgQueue)
    → let q' = (ring_round o q).1 in (q'.max_msgs ≡ q.max_msgs) × (q'.msg_size ≡ q.msg_size)
unfolding ring_round
round-sizes (send_round k c msg timeout) q = send-sizes k c q msg timeout
round-sizes (recv_round k c out timeout) q = recv-sizes k c q out timeout

round-IsRing : (o : Round) (q : MsgQueue) → IsRing q → IsRing (ring_round o q).1
unfolding ring_round
round-IsRing (send_round k c msg timeout) q r = queue_send-IsRing k c q r timeout msg
round-IsRing (recv_round k c out timeout) q r = queue_recv-IsRing k c q r timeout out

round_refines :
    (o : Round) (q : MsgQueue)
    → IsRing q
    → q.max_msgs * q.msg_size < u32_mod
    → ((ring_round o q).0, contents (ring_round o q).1)
      ≡ fifo_round q.max_msgs q.msg_size o (contents q)
unfolding ring_round fifo_round
round_refines (send_round k c msg timeout) q r bytes =
    ap (λ (p : Outcome × List (List ℕ)). (answer p.0 none, p.1))
      (queue_send_refines k c q r timeout msg bytes)
round_refines (recv_round k c out timeout) q r bytes =
    ap (λ (p : Outcome × Option (List ℕ) × List (List ℕ)). (answer p.0 p.1, p.2))
      (queue_recv_refines k c q r timeout out bytes)

-- On a well-formed ring of fewer than 2^32 bytes, for every sequence of rounds of nd_queue_send
-- and nd_queue_recv, by any threads and in any kernels, the outcomes and the messages that the
-- callers get are those of the same sequence on a bounded first-in first-out list that begins
-- with what the ring holds, and the ring holds in the end what that list holds.
pub ring_run_refines :
    (os : List Round) (q : MsgQueue)
    → IsRing q
    → q.max_msgs * q.msg_size < u32_mod
    → let (answers, q') = ring_run os q in
      (answers, contents q') ≡ fifo_run q.max_msgs q.msg_size os (contents q)
unfolding ring_run fifo_run
ring_run_refines [] q r bytes = refl
ring_run_refines (o ∷ os) q r bytes =
    let q' = (ring_round o q).1 in
    let (cap, size) = round-sizes o q in
    let bytes' : q'.max_msgs * q'.msg_size < u32_mod = rw (cap, size) bytes in
    let later = ring_run_refines os q' (round-IsRing o q r) bytes' in
    let at_sizes = later ∙ ap₂ (λ (m s : ℕ). fifo_run m s os (contents q')) cap size in
    ap (λ (s : List Answer × List (List ℕ)). ((ring_round o q).0 ∷ s.0, s.1)) at_sizes
    ∙ ap
        (λ (p : Answer × List (List ℕ)).
          let s = fifo_run q.max_msgs q.msg_size os p.1 in (p.0 ∷ s.0, s.1))
        (round_refines o q r bytes)
