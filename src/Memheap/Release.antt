-- ===== src/Memheap/Release.antt =====
-- What nd_memheap_free does to a heap in order.
pub mod Whole
use nerd_rtos.Common.{
  Bool-cases, List, [], ap, append_assoc, arith, count, count-append, false, inl, inr, subst, sym,
  true, ℕ, ◌%◌, ◌++◌, ◌+◌, ◌==◌, ◌∙◌, ◌∷◌, ◌≡◌, ◌≢◌, ◌≤◌,
}
use nerd_rtos.Kernel.State.{u32_mod}
use nerd_rtos.Memheap.Alloc.{add_available, merge_next}
use nerd_rtos.Memheap.Allocated.{count-here}
use nerd_rtos.Memheap.Invariant.{IsHeap}
use nerd_rtos.Memheap.Item.{
  MemHeap, free_list_remove, item_is_free, item_next, item_size, phys_list_remove,
}
use nerd_rtos.Memheap.Marks.{available-IsHeap}
use nerd_rtos.Memheap.Merge.{IsHeapBut, IsHeapBut-unlisted, drop-IsHeap}
use nerd_rtos.Memheap.Ring.{IsLinks-first, IsLinks-split, first_node}
use nerd_rtos.Memheap.Spaced.{count-split}
use nerd_rtos.Memheap.Take.{data_size}

-- The block `x` in use has swallowed a free one behind it, or not.
pub record IsMerged (h : MemHeap) (heap : ℕ) (ps : List ℕ) (x : ℕ) (qs fs : List ℕ) (h' : MemHeap)
    (qs' fs' : List ℕ) : Type 0 where
  pub merged_heap : IsHeap h' heap (ps ++ x ∷ qs') fs'
  pub merged_used : count x fs' ≡ 0
  pub merged_end : first_node qs (heap + 20) ≤ first_node qs' (heap + 20)
  pub merged_others :
      (z : ℕ)
      → count z (ps ++ x ∷ qs) ≢ 0
      → count z fs ≡ 0
      → (count z (ps ++ x ∷ qs') ≢ 0) × (count z fs' ≡ 0)
  pub merged_fewer : (z : ℕ) → count z (ps ++ x ∷ qs') ≢ 0 → count z (ps ++ x ∷ qs) ≢ 0

pub true_ne_false : true ≢ false
true_ne_false p = cc

swallowed-others :
    (z : ℕ) (ps : List ℕ) (x y : ℕ) (qs before after : List ℕ)
    → count z (ps ++ x ∷ y ∷ qs) ≢ 0
    → count z (before ++ y ∷ after) ≡ 0
    → (count z (ps ++ x ∷ qs) ≢ 0) × (count z (before ++ after) ≡ 0)
unfolding count
swallowed-others z ps x y qs before after at used =
    let c = count-append z ps (x ∷ y ∷ qs) in
    let c' = count-append z ps (x ∷ qs) in
    let d = count-append z before (y ∷ after) in
    let d' = count-append z before after in
    let y_z : (y == z) ≡ false = ground (arith, d, used) in
    (ground (arith, c, c', at, y_z), omega (arith, d, d', used))

IsHeapBut-subst :
    (h : MemHeap) (heap x : ℕ) (bs bs' fs : List ℕ)
    → bs ≡ bs'
    → IsHeapBut h heap x bs fs
    → IsHeapBut h heap x bs' fs
IsHeapBut-subst h heap x bs bs' fs e = subst (λ l. IsHeapBut h heap x l fs) e

module _ (h : MemHeap) (heap : ℕ) (ps : List ℕ) (x : ℕ) where
  -- The free block `y` behind `x` is swallowed.
  swallow :
      (y : ℕ) (qs before after : List ℕ)
      → IsHeap h heap (ps ++ x ∷ y ∷ qs) (before ++ y ∷ after)
      → IsHeap (phys_list_remove (free_list_remove h y) y) heap (ps ++ x ∷ qs) (before ++ after)
  swallow y qs before after f =
      let g = IsHeapBut-unlisted h heap (ps ++ x ∷ y ∷ qs) before y after f in
      subst (λ l. IsHeap (phys_list_remove (free_list_remove h y) y) heap l (before ++ after))
        (append_assoc ps (x ∷ []) qs)
        (drop-IsHeap (free_list_remove h y) heap (ps ++ x ∷ []) y qs (before ++ after) (
          IsHeapBut-subst (free_list_remove h y) heap y (ps ++ x ∷ y ∷ qs)
            ((ps ++ x ∷ []) ++ y ∷ qs) (before ++ after) (sym (append_assoc ps (x ∷ []) (y ∷ qs)))
            g))

  next_first :
      (qs fs : List ℕ) → IsHeap h heap (ps ++ x ∷ qs) fs → item_next h x ≡ first_node qs (heap + 20)
  next_first qs fs f =
      let (front, back) = IsLinks-split (item_next h) h.prev heap ps x qs (heap + 20) f.phys in
      IsLinks-first (item_next h) h.prev x qs (heap + 20) back

  free_next :
      (qs fs : List ℕ)
      → IsHeap h heap (ps ++ x ∷ qs) fs
      → count x fs ≡ 0
      → item_is_free h (first_node qs (heap + 20)) ≡ true
      → (qs' : List ℕ) × (fs' : List ℕ) × IsMerged h heap ps x qs fs
          (add_available
            (phys_list_remove
              (free_list_remove h (first_node qs (heap + 20)))
              (first_node qs (heap + 20)))
            item_size)
          qs'
          fs'
  unfolding count
  free_next [] fs f used e = absurd (true_ne_false (sym e ∙ f.ends_used.1))
  free_next (y ∷ qs) fs f used e =
      let m = f.marked y in
      let here = count-here y (ps ++ x ∷ []) qs in
      let assoc = ap (count y) (append_assoc ps (x ∷ []) (y ∷ qs)) in
      let listed_y : count y fs ≢ 0 = ground (arith, m, e, here, assoc) in
      let (before, after, q) = count-split y fs listed_y in
      let f' = subst (IsHeap h heap (ps ++ x ∷ y ∷ qs)) q f in
      let used' = subst (λ l. count x l ≡ 0) q used in
      let g = swallow y qs before after f' in
      let s = phys_list_remove (free_list_remove h y) y in
      let (le, below, size) =
        data_size h heap (ps ++ x ∷ []) y qs fs
          (subst (λ l. IsHeap h heap l fs) (sym (append_assoc ps (x ∷ []) (y ∷ qs))) f) in
      (
        qs,
        before ++ after,
        record {
          merged_heap =
              available-IsHeap s heap (ps ++ x ∷ qs) (before ++ after)
                ((s.available_size + item_size) % u32_mod) g;
          merged_used =
              let d = count-append x before (y ∷ after) in
              let d' = count-append x before after in omega (arith, d, d', used');
          merged_end = omega (arith, le);
          merged_others = λ z at none_free.
              swallowed-others z ps x y qs before after at (subst (λ l. count z l ≡ 0) q none_free);
          merged_fewer = λ z at.
              let c = count-append z ps (x ∷ y ∷ qs) in
              let c' = count-append z ps (x ∷ qs) in ground (arith, c, c', at);
        },
      )

  pub merge_next-IsMerged :
      (qs fs : List ℕ)
      → IsHeap h heap (ps ++ x ∷ qs) fs
      → count x fs ≡ 0
      → (qs' : List ℕ) × (fs' : List ℕ) × IsMerged h heap ps x qs fs
          (merge_next h (item_next h x))
          qs'
          fs'
  unfolding merge_next
  merge_next-IsMerged qs fs f used =
      rw (next_first qs fs f) (elim (Bool-cases (item_is_free h (first_node qs (heap + 20)))) [
        | inl e ↦ rw e (free_next qs fs f used e)
        | inr e ↦ rw e (
          qs,
          fs,
          record {
            merged_heap = f;
            merged_used = used;
            merged_end = omega arith;
            merged_others = λ z at none_free. (at, none_free);
            merged_fewer = λ z at. at;
          },
        )
      ])
