-- ===== src/Memheap/Allocated/Whole.antt =====
-- The whole of nd_memheap_alloc.
use nerd_rtos.Common.{
  List, arith, count, false, length, none, refl, some, subst, sym, true, ℕ, ◌%◌, ◌++◌, ◌+◌, ◌<◌,
  ◌==◌, ◌∷◌, ◌≡◌, ◌≢◌, ◌≤◌,
}
use nerd_rtos.Memheap.Alloc.{find_fit, memheap_alloc, take_item}
use nerd_rtos.Memheap.Allocated.{Allocated, count-here, refused}
use nerd_rtos.Memheap.Allocated.Taken.{taken}
use nerd_rtos.Memheap.FirstFit.{Fit, find_fit-from, first_fit, fit_item, no_fit}
use nerd_rtos.Memheap.Invariant.{IsHeap, free-IsPath}
use nerd_rtos.Memheap.Item.{MemHeap, item_data_size, item_size, item_split_at, item_to_data}
use nerd_rtos.Memheap.Spaced.{count-split}

alloc_refused :
    (rounds : ℕ) (h : MemHeap) (heap size : ℕ)
    → find_fit rounds h heap size (h.next_free heap) ≡ heap
    → memheap_alloc rounds h heap size ≡ (none, h)
unfolding memheap_alloc
alloc_refused rounds h heap size e =
    let c : (find_fit rounds h heap size (h.next_free heap) == heap) ≡ true = ground (arith, e) in
    rw c refl

alloc_given :
    (rounds : ℕ) (h : MemHeap) (heap size x : ℕ)
    → find_fit rounds h heap size (h.next_free heap) ≡ x
    → (x == heap) ≡ false
    → memheap_alloc rounds h heap size ≡ (some (item_to_data x), take_item h heap size x)
unfolding memheap_alloc
alloc_given rounds h heap size x e ne = rw (e, ne) refl

-- The rest of the block that is split lies before the nd_memheap_t.
abbrev pub HasRoom : MemHeap → ℕ → ℕ → List ℕ → Type 0
HasRoom h heap size fs =
    (x : ℕ)
    → count x fs ≢ 0
    → size + item_size ≤ item_data_size h x
    → item_split_at x size + item_size ≤ heap

-- In a heap in order whose memory lies before its nd_memheap_t, for an even size whose block
-- leaves the rest of a split before the nd_memheap_t, nd_memheap_alloc either returns null and
-- changes nothing, no free block being large enough, or it gives the first block of the free
-- list that is large enough: the heap is in order again, the block is in use and has at least
-- the size, no other block overlaps the bytes asked for, and every other block is still there,
-- free or in use as before.
pub memheap_alloc-Allocated :
    (rounds : ℕ) (h : MemHeap) (heap size : ℕ) (bs fs : List ℕ)
    → IsHeap h heap bs fs
    → length fs < rounds
    → size % 2 ≡ 0
    → HasRoom h heap size fs
    → Allocated h heap size bs fs (memheap_alloc rounds h heap size)
memheap_alloc-Allocated rounds h heap size bs fs f lt size_even room =
    let (fit, e) =
      find_fit-from rounds h heap size heap fs lt (free-IsPath f).end_away f.free_chain in
    by_fit fit e
  where
    free_in-blocks : (x : ℕ) → count x fs ≢ 0 → count x bs ≢ 0
    free_in-blocks x at = let m = f.marked x in ground (arith, m, at)

    x_heap : (x : ℕ) → count x fs ≢ 0 → (x == heap) ≡ false
    x_heap x at = let le = f.before_heap x (free_in-blocks x at) in ground (arith, le)

    by_fit :
        (fit : Fit h size fs)
        → find_fit rounds h heap size (h.next_free heap) ≡ fit_item heap fit
        → Allocated h heap size bs fs (memheap_alloc rounds h heap size)
    by_fit (no_fit none_fits) e = refused (alloc_refused rounds h heap size e) none_fits
    by_fit (first_fit before x after q small fits) e =
        let at = subst (λ l. count x l ≢ 0) (sym q) (count-here x before after) in
        let (ps, qs, q') = count-split x bs (free_in-blocks x at) in
        let f' = subst (IsHeap h heap (ps ++ x ∷ qs)) q (subst (λ l. IsHeap h heap l fs) q' f) in
        let ne : (x == heap) ≡ false = x_heap x at in
        rw (alloc_given rounds h heap size x e ne, q, q')
          (taken h heap size ps x qs before after f' fits small size_even (room x at))
