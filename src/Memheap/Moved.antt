-- ===== src/Memheap/Moved.antt =====
-- nd_memheap_realloc where the block is copied into another one.
use nerd_rtos.Common.{
  List, Memory, Option, ap, arith, count, false, inl, inr, length, ltb, memcpy, none, read,
  read-memcpy_self, refl, some, subst, sym, ℕ, ◌%◌, ◌++◌, ◌+◌, ◌<◌, ◌==◌, ◌∙◌, ◌∷◌, ◌≡◌, ◌≢◌, ◌≤◌,
  ◌⊎◌,
}
use nerd_rtos.Memheap.Alloc.{
  memheap_alloc, memheap_free, memheap_realloc, move_block, realloc_block,
}
use nerd_rtos.Memheap.Allocated.{Allocated, count-here, given, refused}
use nerd_rtos.Memheap.Allocated.Whole.{HasRoom, memheap_alloc-Allocated}
use nerd_rtos.Memheap.Apart.{data_size-grows}
use nerd_rtos.Memheap.FirstFit.{NoneFits}
use nerd_rtos.Memheap.Invariant.{IsHeap}
use nerd_rtos.Memheap.Item.{
  MemHeap, data_to_item, item_data_size, item_is_free, item_next, item_size, item_to_data,
}
use nerd_rtos.Memheap.Kept.{alloc-bytes, alloc-size, free-bytes}
use nerd_rtos.Memheap.Release.Whole.{memheap_free-IsReleased}

bytes-IsHeap :
    (h : MemHeap) (heap : ℕ) (bs fs : List ℕ) (m : Memory)
    → IsHeap h heap bs fs
    → IsHeap (record h { bytes = m }) heap bs fs
bytes-IsHeap h heap bs fs m f = record {
  phys = f.phys;
  spaced = f.spaced;
  before_heap = f.before_heap;
  even = f.even;
  free_chain = f.free_chain;
  marked = f.marked;
  ends_used = f.ends_used;
  pools = f.pools;
  limited = f.limited;
}

-- The block `x` was copied into another block `y` of the size asked for, and released: its bytes
-- belong to a free block, and every other block that was in use is still there and in use.
pub record IsMoved (h : MemHeap) (heap x size : ℕ) (bs fs : List ℕ) (r : Option ℕ × MemHeap)
    (bs' fs' : List ℕ) (y : ℕ) : Type 0 where
  pub moved_ptr : r.0 ≡ some (item_to_data y)
  pub moved_other : y ≢ x
  pub moved_heap : IsHeap r.1 heap bs' fs'
  pub moved_used : (count y bs' ≢ 0) × (count y fs' ≡ 0) × (size ≤ item_data_size r.1 y)
  pub moved_bytes :
      read r.1.bytes (item_to_data y) (item_data_size h x)
      ≡ read h.bytes (item_to_data x) (item_data_size h x)
  pub moved_released :
      (z : ℕ) × (count z fs' ≢ 0)
      × (z ≤ x)
      × (x + item_size + item_data_size h x ≤ z + item_size + item_data_size r.1 z)
  pub moved_others :
      (z : ℕ) → count z bs ≢ 0 → count z fs ≡ 0 → z ≢ x → (count z bs' ≢ 0) × (count z fs' ≡ 0)

realloc_moves :
    (rounds : ℕ) (h : MemHeap) (heap x size : ℕ)
    → item_data_size h x < size
    → item_is_free h (item_next h x) ≡ false
    → memheap_realloc rounds h heap (some (item_to_data x)) size
      ≡ move_block
          (memheap_alloc rounds h heap size).0
          (memheap_alloc rounds h heap size).1
          (item_to_data x)
          (item_data_size h x)
unfolding memheap_realloc realloc_block
realloc_moves rounds h heap x size lt used =
    let item : data_to_item (item_to_data x) ≡ x = omega arith in
    let ne : (size == item_data_size h x) ≡ false = ground (arith, lt) in
    let not_less : ltb size (item_data_size h x) ≡ false = ground (arith, lt) in
    rw (item, ne, not_less, used) refl

module _ (h : MemHeap) (heap x size : ℕ) (bs fs : List ℕ) (used : count x fs ≡ 0) where
  other_block : (before : List ℕ) (y : ℕ) (after : List ℕ) → fs ≡ before ++ y ∷ after → x ≢ y
  other_block before y after q same =
      count-here y before after
        (subst (λ z. count z (before ++ y ∷ after) ≡ 0) same (subst (λ l. count x l ≡ 0) q used))

  -- The copy into `y` and the release of `x`, where `h1` is the heap after the allocation.
  copied :
      (h1 : MemHeap) (bs1 fs1 : List ℕ) (y : ℕ)
      → IsHeap h1 heap bs1 fs1
      → h1.bytes ≡ h.bytes
      → (count y bs1 ≢ 0) × (count y fs1 ≡ 0) × (size ≤ item_data_size h1 y)
      → (count x bs1 ≢ 0) × (count x fs1 ≡ 0)
      → x ≢ y
      → item_data_size h1 x ≡ item_data_size h x
      → ((z : ℕ) → count z bs ≢ 0 → count z fs ≡ 0 → z ≢ x → (count z bs1 ≢ 0) × (count z fs1 ≡ 0))
      → (bs' : List ℕ) × (fs' : List ℕ) × IsMoved h heap x size bs fs
          (move_block (some (item_to_data y)) h1 (item_to_data x) (item_data_size h x))
          bs'
          fs'
          y
  unfolding move_block
  copied h1 bs1 fs1 y g same (y_at, y_used, enough) (x_at, x_used) ne x_size kept =
      let n = item_data_size h x in
      let m = memcpy h1.bytes (item_to_data y) h1.bytes (item_to_data x) n in
      let h2 = record h1 { bytes = m } in
      let g2 = bytes-IsHeap h1 heap bs1 fs1 m g in
      let (bs', fs', z, r) = memheap_free-IsReleased h2 heap x bs1 fs1 g2 x_at x_used in
      let (y_at', y_used') = r.released_others y y_at y_used (λ e. ne (sym e)) in
      let grown =
        data_size-grows h2 (memheap_free h2 (some (item_to_data x))) heap bs1 fs1 bs' fs' y g2
          r.released_heap y_at y_at' r.released_fewer in
      (
        bs',
        fs',
        record {
          moved_ptr = refl;
          moved_other = λ e. ne (sym e);
          moved_heap = r.released_heap;
          moved_used = (y_at', y_used', omega (arith, enough, grown));
          moved_bytes =
              ap (λ b. read b (item_to_data y) n) (free-bytes h2 (item_to_data x))
              ∙ read-memcpy_self h1.bytes (item_to_data y) h1.bytes (item_to_data x) n
              ∙ ap (λ b. read b (item_to_data x) n) same;
          moved_released =
              (z, r.released_free, r.released_from, omega (arith, r.released_to, x_size));
          moved_others = λ z at none_free other.
              let (at1, used1) = kept z at none_free other in r.released_others z at1 used1 other;
        },
      )

listed-at :
    (h : MemHeap) (heap : ℕ) (bs fs : List ℕ) (y : ℕ)
    → IsHeap h heap bs fs
    → (before after : List ℕ) → fs ≡ before ++ y ∷ after
    → count y bs ≢ 0
listed-at h heap bs fs y f before after q =
    let m = f.marked y in
    let here = count-here y before after in ground (arith, m, here, ap (count y) q)

-- In a heap in order, nd_memheap_realloc of a block in use to a larger size, where the block
-- behind it is in use too, is an allocation, a copy and a release: it returns null and changes
-- nothing if no free block is large enough, or it gives another block, in use and of at least
-- the size, with the bytes of the old one; the bytes of the old block then belong to one free
-- block, every other block that was in use is still there and in use, and the heap is in order
-- again. (The size is even and leaves the rest of a split before the nd_memheap_t.)
pub realloc-IsMoved :
    (rounds : ℕ) (h : MemHeap) (heap x size : ℕ) (bs fs : List ℕ)
    → IsHeap h heap bs fs
    → length fs < rounds
    → size % 2 ≡ 0
    → HasRoom h heap size fs
    → (count x bs ≢ 0) × (count x fs ≡ 0)
    → item_data_size h x < size
    → item_is_free h (item_next h x) ≡ false
    → let r = memheap_realloc rounds h heap (some (item_to_data x)) size in
      ((r ≡ (none, h)) × NoneFits h size fs)
      ⊎ ((bs' : List ℕ) × (fs' : List ℕ) × (y : ℕ) × IsMoved h heap x size bs fs r bs' fs' y)
unfolding move_block
realloc-IsMoved rounds h heap x size bs fs f lt size_even room (at, used) grows next_used =
    rw (realloc_moves rounds h heap x size grows next_used) (
      by_alloc (memheap_alloc rounds h heap size) (alloc-bytes rounds h heap size)
        (alloc-size h heap bs fs x f at rounds size)
        (memheap_alloc-Allocated rounds h heap size bs fs f lt size_even room))
  where
    by_alloc :
        (a : Option ℕ × MemHeap)
        → a.1.bytes ≡ h.bytes
        → ((y : ℕ)
            → a.0 ≡ some (item_to_data y)
            → count y bs ≢ 0
            → x ≢ y
            → item_data_size a.1 x ≡ item_data_size h x)
        → Allocated h heap size bs fs a
        → let r = move_block a.0 a.1 (item_to_data x) (item_data_size h x) in
          ((r ≡ (none, h)) × NoneFits h size fs)
          ⊎ ((bs' : List ℕ) × (fs' : List ℕ) × (y : ℕ) × IsMoved h heap x size bs fs r bs' fs' y)
    by_alloc a same sizes (refused e none_fits) = inl (rw e (refl, none_fits))
    by_alloc a same sizes
          (given y before after bs1 fs1 ptr q small g (y_at, y_used, enough) others clear) =
        let ne = other_block h heap x size bs fs used before y after q in
        let (x_at, x_free) = others x at ne in
        let y_in : count y bs ≢ 0 = listed-at h heap bs fs y f before after q in
        let (bs', fs', m) =
          copied h heap x size bs fs used a.1 bs1 fs1 y g same (y_at, y_used, enough)
            (x_at, x_free ∙ used) ne (sizes y ptr y_in ne)
            (λ z z_at z_used other.
              let apart = other_block h heap z size bs fs z_used before y after q in
              let (at1, free1) = others z z_at apart in (at1, free1 ∙ z_used)) in
        inr (rw ptr (bs', fs', y, m))
