-- ===== src/Memheap/Allocated/Taken.antt =====
-- The block that is taken from the free list, split or whole.
use nerd_rtos.Common.{
  Bool-cases, List, arith, count, count-append, false, inl, inr, leb, refl, some, subst, ℕ, ◌%◌,
  ◌++◌, ◌+◌, ◌==◌, ◌∷◌, ◌≡◌, ◌≢◌, ◌≤◌,
}
use nerd_rtos.Kernel.State.{u32_mod}
use nerd_rtos.Memheap.Alloc.{take_item}
use nerd_rtos.Memheap.Allocated.{Allocated, IsClear-blocks, count-here, given}
use nerd_rtos.Memheap.FirstFit.{NoneFits}
use nerd_rtos.Memheap.Invariant.{IsHeap, free-IsPath}
use nerd_rtos.Memheap.Item.{MemHeap, item_data_size, item_size, item_split_at, item_to_data}
use nerd_rtos.Memheap.Ring.{first_node}
use nerd_rtos.Memheap.Split.{between-fresh, take_split-IsHeap}
use nerd_rtos.Memheap.Take.{data_size, take_whole-IsHeap}

module _ (h : MemHeap) (heap size : ℕ) (ps : List ℕ) (x : ℕ) (qs before after : List ℕ)
    (f : IsHeap h heap (ps ++ x ∷ qs) (before ++ x ∷ after)) (fits : size ≤ item_data_size h x)
    (small : NoneFits h size before) where
  x-once : count x (before ++ x ∷ after) ≤ 1
  unfolding count
  x-once = let o = (free-IsPath f).once x in ground (arith, o)

  x-taken : count x (before ++ after) ≡ 0
  unfolding count
  x-taken =
      let o = x-once in
      let c = count-append x before (x ∷ after) in
      let c' = count-append x before after in ground (arith, o, c, c')

  taken_whole :
      (s : MemHeap)
      → IsHeap s heap (ps ++ x ∷ qs) (before ++ after)
      → Allocated h heap size (ps ++ x ∷ qs) (before ++ x ∷ after) (some (item_to_data x), s)
  unfolding count
  taken_whole s g =
      let (le, below, old) = data_size h heap ps x qs (before ++ x ∷ after) f in
      let (le', below', now) = data_size s heap ps x qs (before ++ after) g in
      given x before after (ps ++ x ∷ qs) (before ++ after) refl refl small g
        (count-here x ps qs, x-taken, omega (arith, fits, old, now))
        (λ y at ne.
          let c = count-append y before (x ∷ after) in
          let c' = count-append y before after in (at, ground (arith, c, c', ne)))
        (IsClear-blocks s heap (ps ++ x ∷ qs) (before ++ after) x size g (count-here x ps qs)
          (omega (arith, fits, old, now)))

  module _ (n : ℕ) (from : x + item_size ≤ n) where
    x-cut : count x (before ++ n ∷ after) ≡ 0
    unfolding count
    x-cut =
        let o = x-taken in
        let c = count-append x before (n ∷ after) in
        let c' = count-append x before after in ground (arith, o, c, c', from)

    other_in : (y : ℕ) → count y (ps ++ x ∷ qs) ≢ 0 → count y (ps ++ x ∷ n ∷ qs) ≢ 0
    unfolding count
    other_in y at =
        let c = count-append y ps (x ∷ qs) in
        let c' = count-append y ps (x ∷ n ∷ qs) in omega (arith, at, c, c')

    other_free :
        (y : ℕ)
        → count n (ps ++ x ∷ qs) ≡ 0
        → count y (ps ++ x ∷ qs) ≢ 0
        → y ≢ x
        → count y (before ++ n ∷ after) ≡ count y (before ++ x ∷ after)
    unfolding count
    other_free y new at ne =
        let n_y : (n == y) ≡ false = elim (Bool-cases (n == y)) [
          | inl e ↦
              let same : n ≡ y = ground (arith, e) in
              absurd (at (subst (λ z. count z (ps ++ x ∷ qs) ≡ 0) same new))
          | inr e ↦ e
        ] in
        let x_y : (x == y) ≡ false = ground (arith, ne) in
        let c = count-append y before (x ∷ after) in
        let c' = count-append y before (n ∷ after) in ground (arith, c, c', n_y, x_y)

  taken_split :
      (n : ℕ) (s : MemHeap)
      → n ≡ item_split_at x size
      → count n (ps ++ x ∷ qs) ≡ 0
      → IsHeap s heap (ps ++ x ∷ n ∷ qs) (before ++ n ∷ after)
      → Allocated h heap size (ps ++ x ∷ qs) (before ++ x ∷ after) (some (item_to_data x), s)
  taken_split n s e new g =
      let (le, below, now) = data_size s heap ps x (n ∷ qs) (before ++ n ∷ after) g in
      given x before after (ps ++ x ∷ n ∷ qs) (before ++ n ∷ after) refl refl small g
        (count-here x ps (n ∷ qs), x-cut n le, omega (arith, e, now))
        (λ y at ne. (other_in n le y at, other_free n le y new at ne))
        (IsClear-blocks s heap (ps ++ x ∷ n ∷ qs) (before ++ n ∷ after) x size g
          (count-here x ps (n ∷ qs)) (omega (arith, e, now)))

  pub taken :
      size % 2 ≡ 0
      → (size + item_size ≤ item_data_size h x → item_split_at x size + item_size ≤ heap)
      → Allocated h heap size
          (ps ++ x ∷ qs)
          (before ++ x ∷ after)
          (some (item_to_data x), take_item h heap size x)
  unfolding take_item
  taken size_even room =
      let (le, below, old) = data_size h heap ps x qs (before ++ x ∷ after) f in
      let limit = f.limited in
      let no_wrap : (size + item_size) % u32_mod ≡ size + item_size =
        omega (arith, fits, old, below, limit) in
      elim (Bool-cases (leb ((size + item_size) % u32_mod) (item_data_size h x))) [
        | inl e ↦
            let n = item_split_at x size in
            let splits : size + item_size ≤ item_data_size h x = ground (arith, e, no_wrap) in
            let from : x + item_size ≤ n = omega arith in
            let to : n + item_size ≤ first_node qs (heap + 20) = omega (arith, splits, old) in
            let x_even = f.even x x-present in
            let n_even : n % 2 ≡ 0 = omega (arith, x_even, size_even) in
            let fresh =
              between-fresh h heap ps x n qs (before ++ x ∷ after) f from to (room splits) in
            rw e (
              taken_split n _ refl (fresh-blocks n fresh) (
                take_split-IsHeap h heap ps x n qs before after f from to (room splits) n_even
                  (size + item_size)))
        | inr e ↦
            rw e
              (taken_whole _ (take_whole-IsHeap h heap ps x qs before after f (item_data_size h x)))
      ]
    where
      x-present : count x (heap ∷ ps ++ x ∷ qs) ≢ 0
      x-present = let c = count-here x ps qs in unfold count in ground (arith, c)

      fresh-blocks :
          (n : ℕ) → count n (heap ∷ (heap + 20) ∷ ps ++ x ∷ qs) ≡ 0 → count n (ps ++ x ∷ qs) ≡ 0
      fresh-blocks n e = unfold count in ground (arith, e)
