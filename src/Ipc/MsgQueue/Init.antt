-- ===== src/Ipc/MsgQueue/Init.antt =====
-- What nd_queue_init accepts.
use Prim.Native.Nat.{bit_and}
use native.Mathlib.Decide.{dec_lt}
use nerd_rtos.Common.{Memory, [], ap, arith, refl, sym, ℕ, ◌%◌, ◌+◌, ◌-◌, ◌<◌, ◌^◌, ◌↔◌, ◌∙◌, ◌≡◌}
use nerd_rtos.Common.Bits.{bit_and_pred_pow, pow_of_bit_and_pred, two-pow_pos, two_pow-le}
use nerd_rtos.Ipc.MsgQueue.{MsgQueue, queue_init}
use nerd_rtos.Ipc.MsgQueue.Ring.{IsRing, contents, messages}
use nerd_rtos.Kernel.State.{Kernel, eok, u32_mod}

pred_wrap : (n : ℕ) → 0 < n → n < u32_mod → (n + u32_mod - 1) % u32_mod ≡ n - 1
pred_wrap n gt lt = omega arith

module _ (k : Kernel) (q : MsgQueue) (buf : Memory) (s n : ℕ) where
  accepted :
      (queue_init k q buf s n).0 ≡ eok → (0 < n) × (bit_and n ((n + u32_mod - 1) % u32_mod) ≡ 0)
  unfolding queue_init
  accepted e = (ground arith, ground arith)

  accepts : 0 < n → bit_and n ((n + u32_mod - 1) % u32_mod) ≡ 0 → (queue_init k q buf s n).0 ≡ eok
  unfolding queue_init
  accepts gt e = ground arith

  -- For a 32-bit number of messages, nd_queue_init returns ND_EOK exactly if that number is a
  -- power of two.
  pub queue_init_iff : n < u32_mod → ((queue_init k q buf s n).0 ≡ eok) ↔ ((j : ℕ) × (n ≡ 2 ^ j))
  queue_init_iff lt = (
    λ e.
        let (gt, none_common) = accepted e in
        pow_of_bit_and_pred n gt (ap (bit_and n) (sym (pred_wrap n gt lt)) ∙ none_common),
    λ (j, e).
        let gt : 0 < n = omega (arith, e, two-pow_pos j) in
        accepts gt (
          ap (bit_and n) (pred_wrap n gt lt)
          ∙ ap (λ (x : ℕ). bit_and x (x - 1)) e
          ∙ bit_and_pred_pow j),
  )

  fresh : MsgQueue
  fresh = record q {
    buf = buf;
    msg_size = s;
    max_msgs = n;
    used_msg = 0;
    read_ptr = 0;
    write_ptr = 0;
  }

  init-fresh : (queue_init k q buf s n).0 ≡ eok → (queue_init k q buf s n).1 ≡ fresh
  unfolding queue_init fresh
  init-fresh e = ground arith

  log_small : (j : ℕ) → n < u32_mod → n ≡ 2 ^ j → j < 32
  log_small j lt e = elim (dec_lt j 32) [
    | yes h ↦ h
    | no h ↦ absurd (omega (arith, two_pow-le j 32 (omega arith), e))
  ]

  -- If nd_queue_init returns ND_EOK for a 32-bit number of messages, the ring is well formed and
  -- holds no message.
  pub queue_init-IsRing :
      n < u32_mod
      → (queue_init k q buf s n).0 ≡ eok
      → IsRing (queue_init k q buf s n).1 × (contents (queue_init k q buf s n).1 ≡ [])
  unfolding fresh messages
  queue_init-IsRing lt e =
      let (j, p) = (queue_init_iff lt).0 e in
      rw (init-fresh e) (
        record {
          log = j;
          small = log_small j lt p;
          size = p;
          fits = omega arith;
          bound = omega arith;
          ends = refl;
        },
        refl,
      )
