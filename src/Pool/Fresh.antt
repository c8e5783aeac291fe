-- ===== src/Pool/Fresh.antt =====
-- nd_mempool_init of kernel/nd_mempool.c: the blocks of a new pool.
use nerd_rtos.Common.{
  Bool-cases, List, Memory, Option, [], ap, arith, count, if◌then◌else◌, inl, inr, length, ltb,
  none, refl, some, subst, suc, sym, zero, ℕ, ◌*◌, ◌+◌, ◌-◌, ◌<◌, ◌==◌, ◌∙◌, ◌∷◌, ◌≡◌, ◌≢◌, ◌≤◌,
}
use nerd_rtos.Kernel.State.{Kernel, u32_mod}
use nerd_rtos.Pool.{
  Pool, block_at, link_blocks, mempool_init, pointer_at, pointer_size, write_pointer,
}
use nerd_rtos.Pool.Chain.{IsChain, IsPool}
use nerd_rtos.Pool.Pointer.{Fits, IsDistant, IsPointer, pointer_at-apart, pointer_at-written}

unfoldable pub blocks : ℕ → ℕ → ℕ → ℕ → List ℕ
blocks zero i start size = []
blocks (suc left) i start size = block_at start size i ∷ blocks left (i + 1) start size

module _ (start size : ℕ) (some_size : pointer_size ≤ size) where
  -- The block `i` stands behind the one before, where the offset does not wrap.
  next_block :
      (i : ℕ)
      → (i + 1) * size < u32_mod
      → block_at start size (i + 1) ≡ block_at start size i + size
  next_block i lt = let e : (i + 1) * size ≡ i * size + size = grind arith in omega (arith, e)

  fits_less : (i left : ℕ) → (i + suc left) * size < u32_mod → (i + 1 + left) * size < u32_mod
  fits_less i left lt = let e : i + suc left ≡ i + 1 + left = omega arith in rw⁻¹ e lt

  fits_next : (i left : ℕ) → (i + 1 + left) * size < u32_mod → (i + 1) * size < u32_mod
  fits_next i left lt =
      let e : (i + 1 + left) * size ≡ (i + 1) * size + left * size = grind arith in omega (arith, e)

  -- No block from `i` on stands below the block `i`.
  blocks-above :
      (left i a : ℕ)
      → (i + left) * size < u32_mod
      → a < block_at start size i
      → count a (blocks left i start size) ≡ 0
  unfolding blocks count
  blocks-above zero i a lt below = refl
  blocks-above (suc left) i a lt below =
      let small = fits_less i left lt in
      let next = next_block i (fits_next i left small) in
      ground (arith, blocks-above left (i + 1) a small (omega arith))

  blocks-once :
      (left i a : ℕ) → (i + left) * size < u32_mod → count a (blocks left i start size) ≤ 1
  unfolding blocks count
  blocks-once zero i a lt = omega arith
  blocks-once (suc left) i a lt =
      let small = fits_less i left lt in
      let next = next_block i (fits_next i left small) in
      let more = blocks-once left (i + 1) a small in
      elim (Bool-cases (block_at start size i == a)) [
        | inl e ↦ ground (arith, blocks-above left (i + 1) a small (ground arith))
        | inr e ↦ ground (arith, more)
      ]

  blocks-from :
      (left i a : ℕ)
      → (i + left) * size < u32_mod
      → count a (blocks left i start size) ≢ 0
      → block_at start size i ≤ a
  blocks-from left i a lt at = elim (Bool-cases (ltb a (block_at start size i))) [
    | inl e ↦ absurd (at (blocks-above left i a lt (ground (arith, e))))
    | inr e ↦ ground (arith, e)
  ]

  -- Two blocks are a block's size apart, and so their pointers share no byte.
  blocks-apart :
      (left i a b : ℕ)
      → (i + left) * size < u32_mod
      → count a (blocks left i start size) ≢ 0
      → count b (blocks left i start size) ≢ 0
      → a ≢ b
      → IsDistant a b
  unfolding blocks count
  blocks-apart zero i a b lt a_at b_at ne = absurd (a_at refl)
  blocks-apart (suc left) i a b lt a_at b_at ne =
      let small = fits_less i left lt in
      let next = next_block i (fits_next i left small) in
      elim (Bool-cases (block_at start size i == a)) [
        | inl e ↦
            let from = blocks-from left (i + 1) b small (ground (arith, e, b_at, ne)) in
            inl (ground (arith, next, from, e))
        | inr e ↦ elim (Bool-cases (block_at start size i == b)) [
          | inl f ↦
              let from = blocks-from left (i + 1) a small (ground (arith, e, a_at)) in
              inr (ground (arith, next, from, f))
          | inr f ↦
              blocks-apart left (i + 1) a b small (ground (arith, e, a_at))
                (ground (arith, f, b_at)) ne
        ]
      ]

  whole_block :
      (i left : ℕ)
      → 0 < start
      → start + (i + suc left) * size ≤ u32_mod
      → IsPointer (block_at start size i)
  whole_block i left positive lt =
      let e : (i + suc left) * size ≡ i * size + size + left * size = grind arith in
      record { not_null = omega (arith, positive); in_range = omega (arith, e, lt, some_size) }

  room_less :
      (i left : ℕ)
      → start + (i + suc left) * size ≤ u32_mod
      → start + (i + 1 + left) * size ≤ u32_mod
  room_less i left lt = let e : i + suc left ≡ i + 1 + left = omega arith in rw⁻¹ e lt

  -- Each block has room for a pointer, which can point to it.
  blocks-pointers :
      (left i b : ℕ)
      → 0 < start
      → start + (i + left) * size ≤ u32_mod
      → count b (blocks left i start size) ≢ 0
      → IsPointer b
  unfolding blocks count
  blocks-pointers zero i b positive lt at = absurd (at refl)
  blocks-pointers (suc left) i b positive lt at = elim (Bool-cases (block_at start size i == b)) [
    | inl e ↦ subst IsPointer (ground (arith, e)) (whole_block i left positive lt)
    | inr e ↦ blocks-pointers left (i + 1) b positive (room_less i left lt) (ground (arith, e, at))
  ]

  -- The loop writes no pointer into a block before those that are left.
  link_blocks-before :
      (left i n a : ℕ) (cells : Memory)
      → (i + left) * size < u32_mod
      → a + pointer_size ≤ block_at start size i
      → pointer_at (link_blocks left i start size n cells) a ≡ pointer_at cells a
  unfolding link_blocks
  link_blocks-before zero i n a cells lt before = refl
  link_blocks-before (suc left) i n a cells lt before =
      let small = fits_less i left lt in
      let next = next_block i (fits_next i left small) in
      let after = if ltb i (n - 1) then some (block_at start size (i + 1)) else none in
      link_blocks-before left (i + 1) n a (write_pointer cells (block_at start size i) after) small
        (omega (arith, next, before))
      ∙ pointer_at-apart cells (block_at start size i) after a (inr before)

  length-blocks : (left i : ℕ) → length (blocks left i start size) ≡ left
  unfolding blocks
  length-blocks zero i = refl
  length-blocks (suc left) i = ap suc (length-blocks left (i + 1))

  abbrev from_block : ℕ → ℕ → Option ℕ
  from_block zero i = none
  from_block (suc left) i = some (block_at start size i)

  next_pointer :
      (left i n : ℕ)
      → n ≡ i + suc left
      → (if ltb i (n - 1) then some (block_at start size (i + 1)) else none)
        ≡ from_block left (i + 1)
  next_pointer zero i n e = ground arith
  next_pointer (suc left) i n e = ground arith

  from_block-Fits :
      (left i : ℕ) → 0 < start → start + (i + left) * size ≤ u32_mod → Fits (from_block left i)
  from_block-Fits zero i positive lt = tt
  from_block-Fits (suc left) i positive lt = whole_block i left positive lt

  link_blocks-IsChain :
      (left i n : ℕ) (cells : Memory)
      → n ≡ i + left
      → 0 < start
      → start + (i + left) * size ≤ u32_mod
      → IsChain
          (link_blocks left i start size n cells)
          (from_block left i)
          (blocks left i start size)
  unfolding blocks link_blocks IsChain
  link_blocks-IsChain zero i n cells e positive lt = tt
  link_blocks-IsChain (suc left) i n cells e positive lt =
      let room = room_less i left lt in
      let small : (i + 1 + left) * size < u32_mod = omega (arith, room, positive) in
      let next = next_block i (fits_next i left small) in
      let after = if ltb i (n - 1) then some (block_at start size (i + 1)) else none in
      let cells' = write_pointer cells (block_at start size i) after in
      let kept =
        link_blocks-before left (i + 1) n (block_at start size i) cells' small
          (omega (arith, next, some_size)) in
      let same : after ≡ from_block left (i + 1) = next_pointer left i n e in
      let here : pointer_at cells' (block_at start size i) ≡ from_block left (i + 1) =
        pointer_at-written cells (block_at start size i) after
          (subst Fits (sym same) (from_block-Fits left (i + 1) positive room))
        ∙ same in
      (
        refl,
        rw (kept ∙ here) (link_blocks-IsChain left (i + 1) n cells' (omega arith) positive room),
      )

first_block :
    (start size n : ℕ) (some_size : pointer_size ≤ size)
    → 0 < n
    → from_block start size some_size n 0 ≡ some start
first_block start size zero h lt = absurd (omega arith)
first_block start size (suc n) h lt =
    let e : block_at start size 0 ≡ start = ground arith in ap some e

-- For at least one block of at least four bytes, in memory that begins after address 0 and ends
-- at 2^32 or before, nd_mempool_init makes a pool in which exactly the blocks at the multiples
-- of the size that it was given, one behind the other, are free, each once: the chain of
-- pointers in memory leads through them, and no two of these share a byte.
pub mempool_init-IsPool :
    (k : Kernel) (p : Pool) (start size n : ℕ)
    → 0 < start
    → pointer_size ≤ size
    → 0 < n
    → start + n * size ≤ u32_mod
    → IsPool (mempool_init k p start size n).0 (blocks n 0 start size)
unfolding mempool_init
mempool_init-IsPool k p start size n positive some_size some_block lt =
    let small : (0 + n) * size < u32_mod = omega (arith, lt, positive) in
    let room : start + (0 + n) * size ≤ u32_mod = omega (arith, lt) in
    record {
      chain =
          rw⁻¹ (first_block start size n some_size some_block)
            (link_blocks-IsChain start size some_size n 0 n p.cells (omega arith) positive room);
      counted = sym (length-blocks start size some_size n 0);
      once = λ b. blocks-once start size some_size n 0 b small;
      pointers = λ b at. blocks-pointers start size some_size n 0 b positive room at;
      apart = λ a b a_at b_at ne. blocks-apart start size some_size n 0 a b small a_at b_at ne;
    }
