-- ===== src/Pool/Chain.antt =====
-- The free blocks of a pool of kernel/nd_mempool.c as a list, the next to be given first.
use nerd_rtos.Common.{
  Bool-cases, List, Memory, Option, [], ap, arith, count, count-cons, false, inl, inr, length, none,
  refl, some, subst, ℕ, ◌-◌, ◌<◌, ◌==◌, ◌∷◌, ◌≡◌, ◌≢◌, ◌≤◌,
}
use nerd_rtos.Kernel.State.{Kernel, u32_mod}
use nerd_rtos.Pool.{Pool, gives, mempool_alloc, mempool_free, pointer_at, take_block, write_pointer}
use nerd_rtos.Pool.Pointer.{Fits, IsDistant, IsPointer, pointer_at-apart, pointer_at-written}

unfoldable pub IsChain : Memory → Option ℕ → List ℕ → Type 0
IsChain cells none [] = Unit {0}
IsChain cells none (b ∷ bs) = ⊥
IsChain cells (some a) [] = ⊥
IsChain cells (some a) (b ∷ bs) = (a ≡ b) × IsChain cells (pointer_at cells a) bs

-- The pool has exactly these blocks free, each once; they have room for a pointer each.
pub record IsPool (p : Pool) (bs : List ℕ) : Type 0 where
  pub chain : IsChain p.cells p.free_list bs
  pub counted : p.free_count ≡ length bs
  pub once : (b : ℕ) → count b bs ≤ 1
  pub pointers : (b : ℕ) → count b bs ≢ 0 → IsPointer b
  pub apart : (a b : ℕ) → count a bs ≢ 0 → count b bs ≢ 0 → a ≢ b → IsDistant a b

-- A pointer that shares no byte with those in the blocks changes nothing.
IsChain-write :
    (cells : Memory) (a : ℕ) (v o : Option ℕ) (bs : List ℕ)
    → ((b : ℕ) → count b bs ≢ 0 → IsDistant a b)
    → IsChain cells o bs
    → IsChain (write_pointer cells a v) o bs
unfolding IsChain count
IsChain-write cells a v none [] h c = c
IsChain-write cells a v none (b ∷ bs) h c = absurd c
IsChain-write cells a v (some d) [] h c = absurd c
IsChain-write cells a v (some d) (b ∷ bs) h (e, c) =
    let same = pointer_at-apart cells a v d (h d (ground (arith, e))) in
    (
      e,
      rw same
          (IsChain-write cells a v (pointer_at cells d) bs (λ u at. h u (ground (arith, at))) c),
    )

IsChain-head :
    (cells : Memory) (o : Option ℕ) (b : ℕ) (bs : List ℕ)
    → IsChain cells o (b ∷ bs)
    → (o ≡ some b) × IsChain cells (pointer_at cells b) bs
unfolding IsChain
IsChain-head cells none b bs c = absurd c
IsChain-head cells (some a) b bs (e, c) =
    (ap some e, subst (λ x. IsChain cells (pointer_at cells x) bs) e c)

module _ (k : Kernel) (c : ℕ) (p : Pool) (timeout : ℕ) where
  -- If the pool has free blocks, a round of nd_mempool_alloc returns the first one, the others
  -- stay free in their order, and the kernel is not changed.
  pub mempool_alloc-first :
      (b : ℕ) (bs : List ℕ)
      → IsPool p (b ∷ bs)
      → let (a, p', k') = mempool_alloc k c p timeout in
        (a ≡ gives (some b)) × IsPool p' bs × (k' ≡ k)
  unfolding mempool_alloc take_block IsChain
  mempool_alloc-first b bs i =
      let (head, rest) = IsChain-head p.cells p.free_list b bs i.chain in
      let some_left : (p.free_count == 0) ≡ false = ground (arith, i.counted) in
      simp (some_left, head)
        (
          refl,
          record {
            chain = rest;
            counted = omega (arith, i.counted);
            once = λ u. omega (arith, i.once u, count-cons u b bs);
            pointers = λ u at. i.pointers u (omega (arith, at, count-cons u b bs));
            apart = λ u v u_at v_at ne.
                i.apart u v (omega (arith, u_at, count-cons u b bs))
                  (omega (arith, v_at, count-cons v b bs)) ne;
          },
          refl,
        )

first-Fits :
    (cells : Memory) (o : Option ℕ) (bs : List ℕ)
    → IsChain cells o bs
    → ((b : ℕ) → count b bs ≢ 0 → IsPointer b)
    → Fits o
unfolding IsChain count
first-Fits cells none bs c at = tt
first-Fits cells (some a) [] c at = absurd c
first-Fits cells (some a) (b ∷ bs) (e, c) at = at a (ground (arith, e))

IsChain-at :
    (p : Pool) (b : ℕ) (bs : List ℕ)
    → IsPool p bs
    → ((d : ℕ) → count d bs ≢ 0 → IsDistant b d)
    → let m = write_pointer p.cells b p.free_list in IsChain m (pointer_at m b) bs
IsChain-at p b bs i away =
    rw
      (pointer_at-written p.cells b p.free_list
        (first-Fits p.cells p.free_list bs i.chain i.pointers))
      (IsChain-write p.cells b p.free_list p.free_list bs away i.chain)

free-once : (bs : List ℕ) (b u : ℕ) → count b bs ≡ 0 → count u bs ≤ 1 → count u (b ∷ bs) ≤ 1
unfolding count
free-once bs b u fresh h = ground arith

module _ (b : ℕ) (bs : List ℕ) (away : (d : ℕ) → count d bs ≢ 0 → IsDistant b d) where
  not-free : count b bs ≡ 0
  not-free = elim (Bool-cases (count b bs == 0)) [
    | inl e ↦ ground (arith, e)
    | inr e ↦ let a = away b (ground (arith, e)) in absurd (ground (arith, a))
  ]

  joined-apart :
      ((a c : ℕ) → count a bs ≢ 0 → count c bs ≢ 0 → a ≢ c → IsDistant a c)
      → (a c : ℕ) → count a (b ∷ bs) ≢ 0
      → count c (b ∷ bs) ≢ 0
      → a ≢ c
      → IsDistant a c
  unfolding count
  joined-apart old a c a_at c_at ne = elim (Bool-cases (b == a)) [
    | inl e ↦ let x = away c (ground (arith, e, c_at, ne)) in ground (arith, x, e)
    | inr e ↦ elim (Bool-cases (b == c)) [
      | inl f ↦ let x = away a (ground (arith, e, a_at)) in ground (arith, x, f)
      | inr f ↦ old a c (ground (arith, e, a_at)) (ground (arith, f, c_at)) ne
    ]
  ]

  joined-pointers :
      IsPointer b
      → ((a : ℕ) → count a bs ≢ 0 → IsPointer a)
      → (a : ℕ) → count a (b ∷ bs) ≢ 0
      → IsPointer a
  unfolding count
  joined-pointers p old a at = elim (Bool-cases (b == a)) [
    | inl e ↦ subst IsPointer (ground (arith, e)) p
    | inr e ↦ old a (ground (arith, e, at))
  ]

-- A block that has room for a pointer, is not at address 0 and whose first four bytes are apart
-- from those of every free block is the first free one after nd_mempool_free, the others stay
-- free in their order, and the count agrees, if fewer than 2^32 - 1 blocks were free.
pub mempool_free-first :
    (k : Kernel) (p : Pool) (b : ℕ) (bs : List ℕ)
    → IsPool p bs
    → IsPointer b
    → ((d : ℕ) → count d bs ≢ 0 → IsDistant b d)
    → length bs < u32_mod - 1
    → IsPool (mempool_free k p b).0 (b ∷ bs)
unfolding mempool_free IsChain
mempool_free-first k p b bs i valid away small = record {
  chain = (refl, IsChain-at p b bs i away);
  counted = omega (arith, i.counted);
  once = λ u. free-once bs b u (not-free b bs away) (i.once u);
  pointers = joined-pointers b bs away valid i.pointers;
  apart = joined-apart b bs away i.apart;
}
