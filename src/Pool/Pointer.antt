-- ===== src/Pool/Pointer.antt =====
-- The pointers that the free blocks of a pool of kernel/nd_mempool.c hold, byte by byte.
use nerd_rtos.Common.{
  Memory, Option, ap, arith, leb, ltb, none, refl, some, suc, true, zero, ℕ, ◌+◌, ◌-◌, ◌<◌, ◌∙◌,
  ◌≡◌, ◌≤◌, ◌⊎◌,
}
use nerd_rtos.Kernel.State.{u32_mod}
use nerd_rtos.Pool.{
  address, pointer_at, pointer_size, to_pointer, word_at, word_byte, write_pointer,
}

-- An address that a pointer can hold with the four bytes from there on, and that is not null.
pub record IsPointer (a : ℕ) : Type 0 where
  pub not_null : 0 < a
  pub in_range : a + pointer_size ≤ u32_mod

abbrev pub Fits : Option ℕ → Type 0
Fits none = Unit {0}
Fits (some a) = IsPointer a

-- The pointers at two addresses do not share a byte.
abbrev pub IsDistant : ℕ → ℕ → Type 0
IsDistant a b = (a + pointer_size ≤ b) ⊎ (b + pointer_size ≤ a)

written-outside :
    (m : Memory) (a : ℕ) (o : Option ℕ) (x : ℕ)
    → (x < a) ⊎ (a + pointer_size ≤ x)
    → write_pointer m a o x ≡ m x
unfolding write_pointer
written-outside m a o x out = ground (arith, out)

written-at :
    (m : Memory) (a : ℕ) (o : Option ℕ) (i : ℕ)
    → i < pointer_size
    → write_pointer m a o (a + i) ≡ word_byte (address o) i
unfolding write_pointer
written-at m a o i lt =
    let low : leb a (a + i) ≡ true = ground arith in
    let high : ltb (a + i) (a + pointer_size) ≡ true = ground (arith, lt) in
    let place : 0 + (a + i - a) ≡ i = omega arith in rw (low, high, place) refl

pub pointer_at-apart :
    (m : Memory) (a : ℕ) (o : Option ℕ) (b : ℕ)
    → IsDistant a b
    → pointer_at (write_pointer m a o) b ≡ pointer_at m b
unfolding pointer_at
pointer_at-apart m a o b apart =
    let e0 = written-outside m a o b (ground (arith, apart)) in
    let e1 = written-outside m a o (b + 1) (outside 1 (omega arith)) in
    let e2 = written-outside m a o (b + 2) (outside 2 (omega arith)) in
    let e3 = written-outside m a o (b + 3) (outside 3 (omega arith)) in
    ap to_pointer (omega (arith, e0, e1, e2, e3))
  where
    outside : (i : ℕ) → i < pointer_size → (b + i < a) ⊎ (a + pointer_size ≤ b + i)
    outside i lt = ground (arith, apart, lt)

written-first :
    (m : Memory) (a : ℕ) (o : Option ℕ) → write_pointer m a o a ≡ word_byte (address o) 0
unfolding write_pointer
written-first m a o =
    let place : 0 + (a - a) ≡ 0 = omega arith in
    let low : leb a a ≡ true = ground arith in
    let high : ltb a (a + pointer_size) ≡ true = ground arith in rw (low, high, place) refl

word_at-written :
    (m : Memory) (a : ℕ) (o : Option ℕ)
    → address o < u32_mod
    → word_at (write_pointer m a o) a ≡ address o
word_at-written m a o lt =
    let e0 : write_pointer m a o a ≡ word_byte (address o) 0 = written-first m a o in
    let e1 = written-at m a o 1 (omega arith) in
    let e2 = written-at m a o 2 (omega arith) in
    let e3 = written-at m a o 3 (omega arith) in omega (arith, e0, e1, e2, e3, lt)

to_pointer-address : (o : Option ℕ) → Fits o → to_pointer (address o) ≡ o
to_pointer-address none f = refl
to_pointer-address (some zero) f = absurd (omega (arith, f.not_null))
to_pointer-address (some (suc a)) f = refl

Fits-range : (o : Option ℕ) → Fits o → address o < u32_mod
Fits-range none f = omega arith
Fits-range (some a) f = omega (arith, f.in_range)

-- A pointer that was written is read back.
pub pointer_at-written :
    (m : Memory) (a : ℕ) (o : Option ℕ) → Fits o → pointer_at (write_pointer m a o) a ≡ o
unfolding pointer_at
pointer_at-written m a o f =
    ap to_pointer (word_at-written m a o (Fits-range o f)) ∙ to_pointer-address o f
