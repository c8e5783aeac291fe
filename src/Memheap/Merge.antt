-- ===== src/Memheap/Merge.antt =====
-- Merging a block with its neighbours keeps the invariant.
use nerd_rtos.Common.{
  Bool-cases, List, arith, count, count-append, false, if◌then◌else◌, inl, inr, subst, ℕ, ◌%◌, ◌++◌,
  ◌+◌, ◌<◌, ◌==◌, ◌∙◌, ◌∷◌, ◌≡◌, ◌≢◌, ◌≤◌,
}
use nerd_rtos.Kernel.State.{u32_mod}
use nerd_rtos.Memheap.Invariant.{IsHeap, free-IsPath}
use nerd_rtos.Memheap.Item.{
  MemHeap, free_list_remove, item_is_free, item_next, item_size, phys_list_remove,
}
use nerd_rtos.Memheap.Links.{
  even-clear_low, free_list_remove-IsLinks, mod-or_low, phys_list_remove-IsLinks,
}
use nerd_rtos.Memheap.Ring.{IsLinks}
use nerd_rtos.Memheap.Ring.Path.{IsPath}
use nerd_rtos.Memheap.Spaced.{IsSpaced, IsSpaced-distinct, IsSpaced-remove, absent_or_not}

-- The invariant but for the mark of the block `x`, which is neither free nor in use.
pub record IsHeapBut (h : MemHeap) (heap x : ℕ) (bs fs : List ℕ) : Type 0 where
  pub but_phys : IsLinks (item_next h) h.prev heap bs (heap + 20)
  pub but_spaced : IsSpaced bs (heap + 20)
  pub but_before_heap : (y : ℕ) → count y bs ≢ 0 → y + item_size ≤ heap
  pub but_even : (y : ℕ) → count y (heap ∷ bs) ≢ 0 → y % 2 ≡ 0
  pub but_free_chain : IsLinks h.next_free h.prev_free heap fs heap
  pub but_marked :
      (y : ℕ) → count y fs ≡ (if y == x then 0 else if item_is_free h y then count y bs else 0)
  pub but_ends_used : (item_is_free h heap ≡ false) × (item_is_free h (heap + 20) ≡ false)
  pub but_pools : (y : ℕ) → count y bs ≢ 0 → h.pool y ≡ heap
  pub but_limited : heap + 20 < u32_mod

pub IsHeapBut-used :
    (h : MemHeap) (heap x : ℕ) (bs fs : List ℕ)
    → IsHeap h heap bs fs
    → count x fs ≡ 0
    → IsHeapBut h heap x bs fs
IsHeapBut-used h heap x bs fs f used = record {
  but_phys = f.phys;
  but_spaced = f.spaced;
  but_before_heap = f.before_heap;
  but_even = f.even;
  but_free_chain = f.free_chain;
  but_marked = λ y. elim (Bool-cases (y == x)) [
    | inl e ↦ let same : x ≡ y = ground (arith, e) in rw e (subst (λ z. count z fs ≡ 0) same used)
    | inr e ↦ rw e (f.marked y)
  ];
  but_ends_used = f.ends_used;
  but_pools = f.pools;
  but_limited = f.limited;
}

pub IsHeapBut-unlisted :
    (h : MemHeap) (heap : ℕ) (bs before : List ℕ) (x : ℕ) (after : List ℕ)
    → IsHeap h heap bs (before ++ x ∷ after)
    → IsHeapBut (free_list_remove h x) heap x bs (before ++ after)
unfolding free_list_remove count
IsHeapBut-unlisted h heap bs before x after f = record {
  but_phys = f.phys;
  but_spaced = f.spaced;
  but_before_heap = f.before_heap;
  but_even = f.even;
  but_free_chain = free_list_remove-IsLinks h heap before x after heap (free-IsPath f) f.free_chain;
  but_marked = λ y.
      let m = f.marked y in
      let o = (free-IsPath f).once y in
      let c = count-append y before (x ∷ after) in
      let c' = count-append y before after in
      elim (Bool-cases (y == x)) [
        | inl e ↦ rw e (ground (arith, e, o, c, c'))
        | inr e ↦ rw e (
            let same : count y (before ++ after) ≡ count y (before ++ x ∷ after) =
              ground (arith, c, c', e) in
            same ∙ m)
      ];
  but_ends_used = f.ends_used;
  but_pools = f.pools;
  but_limited = f.limited;
}

module _ (h : MemHeap) (heap : ℕ) (us : List ℕ) (x : ℕ) (vs fs : List ℕ)
    (f : IsHeapBut h heap x (us ++ x ∷ vs) fs) where
  dropped-less : (y : ℕ) → count y (us ++ vs) ≤ count y (us ++ x ∷ vs)
  unfolding count
  dropped-less y =
      let c = count-append y us (x ∷ vs) in let c' = count-append y us vs in omega (arith, c, c')

  dropped-same : (y : ℕ) → (y == x) ≡ false → count y (us ++ vs) ≡ count y (us ++ x ∷ vs)
  unfolding count
  dropped-same y e =
      let c = count-append y us (x ∷ vs) in
      let c' = count-append y us vs in ground (arith, c, c', e)

  gone : count x (us ++ vs) ≡ 0
  unfolding count
  gone =
      let o = IsSpaced-distinct x (us ++ x ∷ vs) (heap + 20) f.but_spaced in
      let c = count-append x us (x ∷ vs) in
      let c' = count-append x us vs in ground (arith, o, c, c')

  but-away : (y : ℕ) → heap ≤ y → count y (us ++ x ∷ vs) ≡ 0
  but-away y ge = elim (absent_or_not y (us ++ x ∷ vs)) [
    | inl e ↦ e
    | inr at ↦ let le = f.but_before_heap y at in absurd (omega (arith, le, ge))
  ]

  but-IsPath : IsPath heap (us ++ x ∷ vs) (heap + 20)
  unfolding count
  but-IsPath = record {
    once = λ z.
        let o = IsSpaced-distinct z (us ++ x ∷ vs) (heap + 20) f.but_spaced in
        let a = but-away heap (omega arith) in ground (arith, o, a);
    end_away = but-away (heap + 20) (omega arith);
  }

  -- The links of the neighbours change, the marks do not.
  pub remove-mark : (y : ℕ) → item_is_free (phys_list_remove h x) y ≡ item_is_free h y
  unfolding phys_list_remove
  remove-mark y =
      let m = mod-or_low (item_next h x) (h.next (h.prev x)) (even-clear_low (h.next x)) in
      ground (arith, m)

  pub drop-IsHeap : IsHeap (phys_list_remove h x) heap (us ++ vs) fs
  drop-IsHeap = record {
    phys = phys_list_remove-IsLinks h heap us x vs (heap + 20) but-IsPath f.but_phys;
    spaced = IsSpaced-remove us x vs (heap + 20) f.but_spaced;
    before_heap = λ y at. f.but_before_heap y (let l = dropped-less y in omega (arith, l, at));
    even = λ y at. f.but_even y (let l = dropped-less y in unfold count in omega (arith, l, at));
    free_chain = unfold phys_list_remove in f.but_free_chain;
    marked = λ y.
        let m = f.but_marked y in
        rw (remove-mark y) (elim (Bool-cases (y == x)) [
          | inl e ↦
              let same : x ≡ y = ground (arith, e) in
              let none_left = subst (λ z. count z (us ++ vs) ≡ 0) same gone in
              ground (arith, m, e, none_left)
          | inr e ↦ let s = dropped-same y e in ground (arith, m, e, s)
        ]);
    ends_used = (remove-mark heap ∙ f.but_ends_used.0, remove-mark (heap + 20) ∙ f.but_ends_used.1);
    pools = λ y at.
        unfold phys_list_remove in f.but_pools y (let l = dropped-less y in omega (arith, l, at));
    limited = f.but_limited;
  }
