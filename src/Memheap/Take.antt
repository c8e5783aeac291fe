-- ===== src/Memheap/Take.antt =====
-- Taking a block off the free list keeps the invariant.
use nerd_rtos.Common.{
  List, [], arith, count, count-append, false, refl, ℕ, ◌++◌, ◌+◌, ◌-◌, ◌==◌, ◌∷◌, ◌≡◌, ◌≤◌,
}
use nerd_rtos.Memheap.Alloc.{sub_available}
use nerd_rtos.Memheap.Invariant.{IsHeap, end-away, free-IsPath, heap-away}
use nerd_rtos.Memheap.Item.{
  MemHeap, clear_low, free_list_remove, item_data_size, item_next, item_size, or_low, set_used,
}
use nerd_rtos.Memheap.Links.{IsLinks-Same, free_list_remove-IsLinks}
use nerd_rtos.Memheap.Ring.{IsLinks-first, IsLinks-split, first_node}
use nerd_rtos.Memheap.Spaced.{IsSpaced, IsSpaced-below, IsSpaced-split}

-- The size of a block's data is the distance from its header to the next.
pub data_size :
    (h : MemHeap) (heap : ℕ) (ps : List ℕ) (x : ℕ) (qs fs : List ℕ)
    → IsHeap h heap (ps ++ x ∷ qs) fs
    → (x + item_size ≤ first_node qs (heap + 20))
      × (first_node qs (heap + 20) ≤ heap + 20)
      × (item_data_size h x ≡ first_node qs (heap + 20) - x - item_size)
unfolding IsSpaced
data_size h heap ps x qs fs f =
    let (front, back) = IsLinks-split (item_next h) h.prev heap ps x qs (heap + 20) f.phys in
    let e : item_next h x ≡ first_node qs (heap + 20) =
      IsLinks-first (item_next h) h.prev x qs (heap + 20) back in
    let (le, s) = (IsSpaced-split ps x qs (heap + 20) f.spaced).1 in
    let below = first_node-below qs (heap + 20) s in
    (le, below, omega (arith, e, le, below, f.limited))
  where
    first_node-below : (xs : List ℕ) (limit : ℕ) → IsSpaced xs limit → first_node xs limit ≤ limit
    first_node-below [] limit s = omega arith
    first_node-below (x ∷ xs) limit s =
        let le = IsSpaced-below x (x ∷ xs) limit s (unfold count in ground arith) in
        omega (arith, le)

-- The block is marked as used.
pub clear_low-used : (n : ℕ) → clear_low (or_low n 1) ≡ clear_low n
clear_low-used n = omega arith

count-middle : (z x : ℕ) (xs ys : List ℕ) → count z (xs ++ x ∷ ys) ≡ count z xs + count z (x ∷ ys)
count-middle z x xs ys = count-append z xs (x ∷ ys)

module _ (h : MemHeap) (heap : ℕ) (ps : List ℕ) (x : ℕ) (qs before after : List ℕ)
    (f : IsHeap h heap (ps ++ x ∷ qs) (before ++ x ∷ after)) where
  x-heap : (x == heap) ≡ false
  unfolding count
  x-heap = let a = heap-away f in let c = count-append heap ps (x ∷ qs) in ground (arith, a, c)

  x-end : (x == heap + 20) ≡ false
  unfolding count
  x-end = let a = end-away f in let c = count-append (heap + 20) ps (x ∷ qs) in ground (arith, a, c)

  pub take_whole-IsHeap :
      (n : ℕ)
      → IsHeap
          (set_used (sub_available (free_list_remove h x) n) x)
          heap
          (ps ++ x ∷ qs)
          (before ++ after)
  unfolding free_list_remove count
  take_whole-IsHeap n = record {
    phys =
        IsLinks-Same _ _ _ _ heap (ps ++ x ∷ qs) (heap + 20)
          (λ z. let e = clear_low-used (h.next x) in ground (arith, e)) (λ z. refl) f.phys;
    spaced = f.spaced;
    before_heap = f.before_heap;
    even = f.even;
    free_chain = free_list_remove-IsLinks h heap before x after heap (free-IsPath f) f.free_chain;
    marked = λ z.
        let m = f.marked z in
        let o = (free-IsPath f).once z in
        let c = count-append z before (x ∷ after) in
        let c' = count-append z before after in ground (arith, m, o, c, c');
    ends_used = (
      (let e = f.ends_used.0 in let ne = x-heap in ground (arith, e, ne)),
      (let e = f.ends_used.1 in let ne = x-end in ground (arith, e, ne)),
    );
    pools = f.pools;
    limited = f.limited;
  }
