-- ===== src/Ipc/MsgQueue/Ring.antt =====
-- The messages in the ring of a queue, kernel/nd_queue.c.
use Prim.Native.Nat.{bit_and}
use native.Mathlib.Nat.{mod-mod_of_dvd, mod-add-mod, mod-eq_of_lt, mod-eq-sub-mod, mod-lt}
use native.Mathlib.Decide.{dec_lt}
use nerd_rtos.Common.{
  List, Memory, [], ap, ap₂, arith, inl, inr, memcpy, read, read-memcpy_apart, read-memcpy_self,
  refl, suc, sym, zero, ℕ, ◌%◌, ◌*◌, ◌++◌, ◌+◌, ◌-◌, ◌<◌, ◌^◌, ◌∙◌, ◌∷◌, ◌≡◌, ◌≢◌, ◌≤◌, ◌⊎◌,
}
use nerd_rtos.Common.Bits.{bit_and_mask, two_pow-le, two_pow_dvd}
use nerd_rtos.Ipc.MsgQueue.{MsgQueue, get, offset, put}
use nerd_rtos.Kernel.State.{u32_mod}

-- The `n` messages of size `s` from index `p` on, in a ring of `m`.
unfoldable pub messages : Memory → ℕ → ℕ → ℕ → ℕ → List (List ℕ)
messages buf m s p zero = []
messages buf m s p (suc n) = read buf (p % m * s) s ∷ messages buf m s (p + 1) n

-- What a queue holds.
abbrev pub contents : MsgQueue → List (List ℕ)
contents q = messages q.buf q.max_msgs q.msg_size q.read_ptr q.used_msg

pub record IsRing (q : MsgQueue) : Type 0 where
  pub log : ℕ
  pub small : log < 32
  pub size : q.max_msgs ≡ 2 ^ log
  pub fits : q.used_msg ≤ q.max_msgs
  pub bound : q.read_ptr < u32_mod
  pub ends : q.write_ptr ≡ (q.read_ptr + q.used_msg) % u32_mod

-- Fewer steps than the ring is long do not lead back to the same place.
add-mod-ne : (m p k : ℕ) → suc k < m → (p + suc k) % m ≢ p % m
add-mod-ne m p k h = elim (dec_lt (p % m + suc k) m) [
  | yes lt ↦ omega (arith, mod-add-mod p m (suc k), mod-eq_of_lt lt)
  | no ge ↦ omega (
    arith,
    mod-add-mod p m (suc k),
    mod-lt p {m = m} (omega arith),
    mod-eq-sub-mod {n = p % m + suc k} {m = m} (omega arith),
    mod-eq_of_lt {n = p % m + suc k - m} {m = m} (omega (arith, mod-lt p {m = m} (omega arith))),
  )
]

-- Blocks of one size at different places do not meet.
blocks_apart : (x y s : ℕ) → x ≢ y → (x * s + s ≤ y * s) ⊎ (y * s + s ≤ x * s)
blocks_apart x y s ne = elim (dec_lt x y) [
  | yes lt ↦ inl (grind arith)
  | no ge ↦ let gt : y < x = omega arith in inr (grind arith)
]

-- The messages depend on the place of the first in the ring alone.
messages-mod :
    (buf : Memory) (m s n p q : ℕ) → p % m ≡ q % m → messages buf m s p n ≡ messages buf m s q n
unfolding messages
messages-mod buf m s zero p q e = refl
messages-mod buf m s (suc n) p q e = ap₂ ◌∷◌ (ap (λ (x : ℕ). read buf (x * s) s) e) (
    messages-mod buf m s n (p + 1) (q + 1)
      (sym (mod-add-mod p m 1) ∙ ap (λ (x : ℕ). (x + 1) % m) e ∙ mod-add-mod q m 1))

-- A message written behind the last one comes last.
messages-memcpy :
    (buf c : Memory) (m s n p w : ℕ)
    → n < m
    → w % m ≡ (p + n) % m
    → messages (memcpy buf (w % m * s) c 0 s) m s p (suc n)
      ≡ messages buf m s p n ++ read c 0 s ∷ []
unfolding messages
messages-memcpy buf c m s zero p w lt e =
    let same : p % m ≡ w % m = ap (λ (x : ℕ). x % m) (omega arith) ∙ sym e in
    ap (λ x. x ∷ [])
      (ap (λ (x : ℕ). read (memcpy buf (w % m * s) c 0 s) (x * s) s) same
        ∙ read-memcpy_self buf (w % m * s) c 0 s)
messages-memcpy buf c m s (suc n) p w lt e =
    let ne : p % m ≢ w % m = λ f. add-mod-ne m p n lt (sym (f ∙ e)) in
    ap₂ ◌∷◌
      (read-memcpy_apart buf (w % m * s) c 0 s (p % m * s) s (blocks_apart (p % m) (w % m) s ne))
      (messages-memcpy buf c m s n (p + 1) w (omega arith)
        (e ∙ ap (λ (x : ℕ). x % m) (omega arith)))

messages_of_ne :
    (buf : Memory) (m s p n : ℕ)
    → n ≢ 0
    → messages buf m s p n ≡ read buf (p % m * s) s ∷ messages buf m s (p + 1) (n - 1)
unfolding messages
messages_of_ne buf m s p zero ne = absurd (ne refl)
messages_of_ne buf m s p (suc n) ne =
    ap (λ (x : ℕ). read buf (p % m * s) s ∷ messages buf m s (p + 1) x) (omega arith)

place_lt : (x m s limit : ℕ) → x < m → m * s < limit → x * s < limit
place_lt x m s limit lt bytes = let le : x * s ≤ m * s = grind arith in omega (arith, le, bytes)

size_pos : (q : MsgQueue) → IsRing q → 0 < q.max_msgs
size_pos q r = let p = two_pow-le r.log 0 (omega arith) in omega (arith, r.size, p)

module _ (q : MsgQueue) (r : IsRing q) where
  max_lt : q.max_msgs < u32_mod
  max_lt = omega (arith, r.size, two_pow-le 31 r.log (omega (arith, r.small)))

  -- A mask of one less than a power of two takes the remainder.
  masked : (ptr : ℕ) → bit_and ptr (q.max_msgs - 1) ≡ ptr % q.max_msgs
  masked ptr = rw (r.size) (bit_and_mask r.log ptr)

  -- Where the whole ring has fewer than 2 ^ 32 bytes, the product does not wrap.
  offset-mod :
      (ptr : ℕ) → q.max_msgs * q.msg_size < u32_mod → offset q ptr ≡ ptr % q.max_msgs * q.msg_size
  offset-mod ptr bytes =
      let in_ring = mod-lt ptr {m = q.max_msgs} (size_pos q r) in
      ap (λ (x : ℕ). x * q.msg_size % u32_mod) (masked ptr)
      ∙ mod-eq_of_lt (place_lt (ptr % q.max_msgs) q.max_msgs q.msg_size u32_mod in_ring bytes)

  -- A 32-bit index has the same place in the ring as the index that it stands for.
  wrap-mod : (x : ℕ) → x % u32_mod % q.max_msgs ≡ x % q.max_msgs
  wrap-mod x =
      rw (r.size) (mod-mod_of_dvd (2 ^ r.log) x (two_pow_dvd 32 r.log (omega (arith, r.small))))

  -- nd_queue_send puts its message behind those that the queue holds.
  pub contents-put :
      (c : Memory)
      → q.used_msg < q.max_msgs
      → q.max_msgs * q.msg_size < u32_mod
      → contents (put q c) ≡ contents q ++ read c 0 q.msg_size ∷ []
  unfolding put
  contents-put c lt bytes =
      let used : (q.used_msg + 1) % u32_mod ≡ suc q.used_msg = omega (arith, max_lt) in
      let place : q.write_ptr % q.max_msgs ≡ (q.read_ptr + q.used_msg) % q.max_msgs =
        ap (λ (x : ℕ). x % q.max_msgs) (r.ends) ∙ wrap-mod (q.read_ptr + q.used_msg) in
      rw (used, offset-mod q.write_ptr bytes)
        (messages-memcpy q.buf c q.max_msgs q.msg_size q.used_msg q.read_ptr q.write_ptr lt place)

  pub put-IsRing : (c : Memory) → q.used_msg < q.max_msgs → IsRing (put q c)
  unfolding put
  put-IsRing c lt = record {
    log = r.log;
    small = r.small;
    size = r.size;
    fits = omega (arith, max_lt);
    bound = r.bound;
    ends = omega (arith, max_lt, r.ends, r.bound);
  }

  -- nd_queue_recv takes the oldest message, which its caller finds in its buffer.
  pub contents-get :
      (out : Memory)
      → q.used_msg ≢ 0
      → q.max_msgs * q.msg_size < u32_mod
      → contents q ≡ read (get q out).0 0 q.msg_size ∷ contents (get q out).1
  unfolding get
  contents-get out ne bytes =
      messages_of_ne q.buf q.max_msgs q.msg_size q.read_ptr q.used_msg ne
      ∙ ap₂ ◌∷◌
          (ap (λ (x : ℕ). read q.buf x q.msg_size) (sym (offset-mod q.read_ptr bytes))
            ∙ sym (read-memcpy_self out 0 q.buf (offset q q.read_ptr) q.msg_size))
          (messages-mod q.buf q.max_msgs q.msg_size (q.used_msg - 1) (q.read_ptr + 1)
            ((q.read_ptr + 1) % u32_mod) (sym (wrap-mod (q.read_ptr + 1))))

  pub get-IsRing : (out : Memory) → q.used_msg ≢ 0 → IsRing (get q out).1
  unfolding get
  get-IsRing out ne = record {
    log = r.log;
    small = r.small;
    size = r.size;
    fits = omega (arith, r.fits);
    bound = omega arith;
    ends = omega (arith, r.ends, r.bound);
  }
