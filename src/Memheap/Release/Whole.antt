-- ===== src/Memheap/Release/Whole.antt =====
-- The whole of nd_memheap_free.
use nerd_rtos.Common.{
  Bool-cases, List, [], ap, append_assoc, arith, count, count-append, inl, inr, refl, some, subst,
  sym, true, ℕ, ◌++◌, ◌+◌, ◌∙◌, ◌∷◌, ◌≡◌, ◌≢◌, ◌≤◌, ◌⊎◌,
}
use nerd_rtos.Memheap.Alloc.{add_available, memheap_coalesce, memheap_free, merge_next, merge_prev}
use nerd_rtos.Memheap.Allocated.{count-here}
use nerd_rtos.Memheap.Invariant.{IsHeap}
use nerd_rtos.Memheap.Item.{
  MemHeap, data_to_item, free_list_insert_after, item_data_size, item_is_free, item_next, item_size,
  item_to_data, phys_list_remove, set_free, start_item,
}
use nerd_rtos.Memheap.Marks.{available-IsHeap, listed-IsHeap, set_free-IsHeap}
use nerd_rtos.Memheap.Merge.{IsHeapBut-used, drop-IsHeap, remove-mark}
use nerd_rtos.Memheap.Release.{merge_next-IsMerged, true_ne_false}
use nerd_rtos.Memheap.Ring.{IsLinks-last, IsLinks-split, first_node, last_node}
use nerd_rtos.Memheap.Spaced.{IsSpaced, IsSpaced-split, count-split}
use nerd_rtos.Memheap.Take.{data_size}

-- The heap is in order, the bytes of the block `x` from its header on to `limit` belong to a free
-- block `y`, every other block that was in use is still there and in use, and no block is new.
pub record IsReleased (heap x limit : ℕ) (bs fs : List ℕ) (h' : MemHeap) (bs' fs' : List ℕ) (y : ℕ)
    : Type 0 where
  pub released_heap : IsHeap h' heap bs' fs'
  pub released_free : count y fs' ≢ 0
  pub released_from : y ≤ x
  pub released_to : limit ≤ y + item_size + item_data_size h' y
  pub released_others :
      (z : ℕ) → count z bs ≢ 0 → count z fs ≡ 0 → z ≢ x → (count z bs' ≢ 0) × (count z fs' ≡ 0)
  pub released_fewer : (z : ℕ) → count z bs' ≢ 0 → count z bs ≢ 0

last_split_more : (x : ℕ) (xs : List ℕ) → (front : List ℕ) × (x ∷ xs ≡ front ++ last_node x xs ∷ [])
unfolding last_node
last_split_more x [] = ([], refl)
last_split_more x (y ∷ ys) = let (front, e) = last_split_more y ys in (x ∷ front, ap (◌∷◌ x) e)

last_split :
    (a : ℕ) (xs : List ℕ)
    → (last_node a xs ≡ a) ⊎ ((front : List ℕ) × (xs ≡ front ++ last_node a xs ∷ []))
unfolding last_node
last_split a [] = inl refl
last_split a (x ∷ xs) = inr (last_split_more x xs)

module _ (h : MemHeap) (heap x : ℕ) (qs fs : List ℕ) where
  prev_last : (ps : List ℕ) → IsHeap h heap (ps ++ x ∷ qs) fs → h.prev x ≡ last_node heap ps
  prev_last ps f =
      let (front, back) = IsLinks-split (item_next h) h.prev heap ps x qs (heap + 20) f.phys in
      IsLinks-last (item_next h) h.prev heap ps x front

  -- The block `x` is swallowed by the free block `p` before it.
  before_free :
      (ps : List ℕ) (p : ℕ)
      → IsHeap h heap (ps ++ p ∷ x ∷ qs) fs
      → count x fs ≡ 0
      → item_is_free h p ≡ true
      → IsReleased heap x
          (first_node qs (heap + 20))
          (ps ++ p ∷ x ∷ qs)
          fs
          (set_free (add_available (phys_list_remove h x) item_size) p)
          (ps ++ p ∷ qs)
          fs
          p
  unfolding count IsSpaced
  before_free ps p f used e =
      let assoc = append_assoc ps (p ∷ []) (x ∷ qs) in
      let f' = subst (λ l. IsHeap h heap l fs) (sym assoc) f in
      let but = IsHeapBut-used h heap x ((ps ++ p ∷ []) ++ x ∷ qs) fs f' used in
      let g =
        subst (λ l. IsHeap (phys_list_remove h x) heap l fs) (append_assoc ps (p ∷ []) qs)
          (drop-IsHeap h heap (ps ++ p ∷ []) x qs fs but) in
      let s = add_available (phys_list_remove h x) item_size in
      let g' = available-IsHeap (phys_list_remove h x) heap (ps ++ p ∷ qs) fs s.available_size g in
      let mark : item_is_free s p ≡ true = remove-mark h heap (ps ++ p ∷ []) x qs fs but p ∙ e in
      let final = set_free-IsHeap s heap (ps ++ p ∷ qs) fs p mark g' in
      let (le, below, size) = data_size (set_free s p) heap ps p qs fs final in
      let (near, rest) = (IsSpaced-split ps p (x ∷ qs) (heap + 20) f.spaced).1 in
      let m = f.marked p in
      let here = count-here p ps (x ∷ qs) in
      record {
        released_heap = final;
        released_free = ground (arith, m, e, here);
        released_from = omega (arith, near);
        released_to = omega (arith, le, size);
        released_others = λ z at none_free ne.
            let c = count-append z ps (p ∷ x ∷ qs) in
            let c' = count-append z ps (p ∷ qs) in (ground (arith, c, c', at, ne), none_free);
        released_fewer = λ z at.
            let c = count-append z ps (p ∷ x ∷ qs) in
            let c' = count-append z ps (p ∷ qs) in ground (arith, c, c', at);
      }

  -- It is put on the free list.
  before_used :
      (ps : List ℕ)
      → IsHeap h heap (ps ++ x ∷ qs) fs
      → count x fs ≡ 0
      → IsReleased heap x
          (first_node qs (heap + 20))
          (ps ++ x ∷ qs)
          fs
          (set_free (free_list_insert_after h (start_item heap) x) x)
          (ps ++ x ∷ qs)
          (x ∷ fs)
          x
  unfolding count
  before_used ps f used =
      let final = listed-IsHeap h heap (ps ++ x ∷ qs) fs x f (count-here x ps qs) used in
      let (le, below, size) = data_size _ heap ps x qs (x ∷ fs) final in
      record {
        released_heap = final;
        released_free = ground arith;
        released_from = omega arith;
        released_to = omega (arith, le, size);
        released_others = λ z at none_free ne. (at, ground (arith, none_free, ne));
        released_fewer = λ z at. at;
      }

prev_same : (h : MemHeap) (x : ℕ) → (phys_list_remove h x).prev x ≡ h.prev x
unfolding phys_list_remove
prev_same h x = ground arith

module _ (h : MemHeap) (heap x : ℕ) (qs fs : List ℕ) where
  merge_before :
      (ps : List ℕ)
      → IsHeap h heap (ps ++ x ∷ qs) fs
      → count x fs ≡ 0
      → item_is_free h (last_node heap ps) ≡ true
      → (bs' : List ℕ) × (fs' : List ℕ) × (y : ℕ) × IsReleased heap x
          (first_node qs (heap + 20))
          (ps ++ x ∷ qs)
          fs
          (set_free (add_available (phys_list_remove h x) item_size) (last_node heap ps))
          bs'
          fs'
          y
  merge_before ps f used e = elim (last_split heap ps) [
    | inl same ↦ absurd (true_ne_false (sym e ∙ ap (item_is_free h) same ∙ f.ends_used.0))
    | inr (front, q) ↦
        let p = last_node heap ps in
        let bs_eq : ps ++ x ∷ qs ≡ front ++ p ∷ x ∷ qs =
          ap (λ l. l ++ x ∷ qs) q ∙ append_assoc front (p ∷ []) (x ∷ qs) in
        let r =
          before_free h heap x qs fs front p (subst (λ l. IsHeap h heap l fs) bs_eq f) used e in
        (
          front ++ p ∷ qs,
          fs,
          p,
          subst
              (λ l.
                IsReleased heap x (first_node qs (heap + 20)) l fs
                  (set_free (add_available (phys_list_remove h x) item_size) p) (front ++ p ∷ qs) fs
                  p)
              (sym bs_eq) r,
        )
  ]

  merge_prev-IsReleased :
      (ps : List ℕ)
      → IsHeap h heap (ps ++ x ∷ qs) fs
      → count x fs ≡ 0
      → (bs' : List ℕ) × (fs' : List ℕ) × (y : ℕ) × IsReleased heap x
          (first_node qs (heap + 20))
          (ps ++ x ∷ qs)
          fs
          (merge_prev h heap x)
          bs'
          fs'
          y
  unfolding merge_prev
  merge_prev-IsReleased ps f used =
      let p_eq = prev_last h heap x qs fs ps f in
      rw (prev_same h x, p_eq)
        (elim (Bool-cases (item_is_free h (last_node heap ps))) [
          | inl e ↦ rw e (merge_before ps f used e)
          | inr e ↦ rw e (ps ++ x ∷ qs, x ∷ fs, x, before_used h heap x qs fs ps f used)
        ])

coalesce-IsReleased :
    (h : MemHeap) (heap : ℕ) (ps : List ℕ) (x : ℕ) (qs fs : List ℕ)
    → IsHeap h heap (ps ++ x ∷ qs) fs
    → count x fs ≡ 0
    → (bs' : List ℕ) × (fs' : List ℕ) × (y : ℕ) × IsReleased heap x
        (x + item_size + item_data_size h x)
        (ps ++ x ∷ qs)
        fs
        (memheap_coalesce h heap x)
        bs'
        fs'
        y
unfolding memheap_coalesce
coalesce-IsReleased h heap ps x qs fs f used =
    let h0 = add_available h (item_data_size h x) in
    let f0 = available-IsHeap h heap (ps ++ x ∷ qs) fs h0.available_size f in
    let (le, below, size) = data_size h heap ps x qs fs f in
    let (qs1, fs1, m) = merge_next-IsMerged h0 heap ps x qs fs f0 used in
    let h1 = merge_next h0 (item_next h0 x) in
    let (bs', fs', y, r) = merge_prev-IsReleased h1 heap x qs1 fs1 ps m.merged_heap m.merged_used in
    (
      bs',
      fs',
      y,
      record {
        released_heap = r.released_heap;
        released_free = r.released_free;
        released_from = r.released_from;
        released_to = omega (arith, r.released_to, m.merged_end, le, size);
        released_others = λ z at none_free ne.
            let (at', none_free') = m.merged_others z at none_free in
            r.released_others z at' none_free' ne;
        released_fewer = λ z at. m.merged_fewer z (r.released_fewer z at);
      },
    )

-- In a heap in order, nd_memheap_free of a block in use leaves the heap in order, whether it
-- merges the block with the one behind, the one before, both or none: all bytes of the block
-- then belong to one free block, and every other block that was in use is still there and in
-- use.
pub memheap_free-IsReleased :
    (h : MemHeap) (heap x : ℕ) (bs fs : List ℕ)
    → IsHeap h heap bs fs
    → count x bs ≢ 0
    → count x fs ≡ 0
    → (bs' : List ℕ) × (fs' : List ℕ) × (y : ℕ) × IsReleased heap x
        (x + item_size + item_data_size h x)
        bs
        fs
        (memheap_free h (some (item_to_data x)))
        bs'
        fs'
        y
unfolding memheap_free
memheap_free-IsReleased h heap x bs fs f at used =
    let (ps, qs, q) = count-split x bs at in
    let item : data_to_item (item_to_data x) ≡ x = omega arith in
    let f' = subst (λ l. IsHeap h heap l fs) q f in
    rw (item, f.pools x at, q) (coalesce-IsReleased h heap ps x qs fs f' used)
