-- ===== src/Memheap/Marks.antt =====
-- Small changes of a heap in order: the count of free bytes, marks, and a block on the free list.
use nerd_rtos.Common.{
  Bool-cases, List, ap, arith, count, false, if◌then◌else◌, inl, inr, refl, subst, sym, true, ℕ,
  ◌%◌, ◌+◌, ◌==◌, ◌∙◌, ◌∷◌, ◌≡◌, ◌≢◌, ◌≤◌,
}
use nerd_rtos.Memheap.Invariant.{IsHeap, free-IsPath}
use nerd_rtos.Memheap.Item.{
  MemHeap, clear_low, free_list_insert_after, item_is_free, item_next, item_size, set_free,
}
use nerd_rtos.Memheap.Links.{IsLinks-Same, even-clear_low, free_list_insert_after-IsLinks}
use nerd_rtos.Memheap.Spaced.{IsSpaced-distinct}

pub available-IsHeap :
    (h : MemHeap) (heap : ℕ) (bs fs : List ℕ) (n : ℕ)
    → IsHeap h heap bs fs
    → IsHeap (record h { available_size = n }) heap bs fs
available-IsHeap h heap bs fs n f = record {
  phys = f.phys;
  spaced = f.spaced;
  before_heap = f.before_heap;
  even = f.even;
  free_chain = f.free_chain;
  marked = f.marked;
  ends_used = f.ends_used;
  pools = f.pools;
  limited = f.limited;
}

clear_low-clear_low : (n : ℕ) → clear_low (clear_low n) ≡ clear_low n
clear_low-clear_low n = omega arith

-- A free block is marked as free once more.
pub set_free-IsHeap :
    (h : MemHeap) (heap : ℕ) (bs fs : List ℕ) (p : ℕ)
    → item_is_free h p ≡ true
    → IsHeap h heap bs fs
    → IsHeap (set_free h p) heap bs fs
set_free-IsHeap h heap bs fs p e f =
    let same : (z : ℕ) → (set_free h p).next z ≡ h.next z = λ z. ground (arith, e) in
    let mark : (z : ℕ) → item_is_free (set_free h p) z ≡ item_is_free h z =
      λ z. ap (λ k. k % 2 == 0) (same z) in
    record {
      phys =
          IsLinks-Same _ _ _ _ heap bs (heap + 20) (λ z. ap clear_low (same z)) (λ z. refl) f.phys;
      spaced = f.spaced;
      before_heap = f.before_heap;
      even = f.even;
      free_chain = f.free_chain;
      marked = λ z. f.marked z ∙ ap (λ b. if b then count z bs else 0) (sym (mark z));
      ends_used = (mark heap ∙ f.ends_used.0, mark (heap + 20) ∙ f.ends_used.1);
      pools = f.pools;
      limited = f.limited;
    }

module _ (h : MemHeap) (heap : ℕ) (bs fs : List ℕ) (x : ℕ) (f : IsHeap h heap bs fs)
    (at : count x bs ≢ 0) (used : count x fs ≡ 0) where
  abbrev listed : MemHeap
  listed = set_free (free_list_insert_after h heap x) x

  listed-mark : (z : ℕ) → item_is_free listed z ≡ (if z == x then true else item_is_free h z)
  unfolding free_list_insert_after
  listed-mark z =
      let e = even-clear_low (h.next x) in
      elim (Bool-cases (z == x)) [ inl c ↦ rw c (ground (arith, c, e)) | inr c ↦ ground (arith, c) ]

  x_below : x + item_size ≤ heap
  x_below = f.before_heap x at

  listed-marked : (z : ℕ) → count z (x ∷ fs) ≡ (if item_is_free listed z then count z bs else 0)
  unfolding count
  listed-marked z =
      let m = f.marked z in
      rw (listed-mark z) (elim (Bool-cases (z == x)) [
        | inl e ↦ rw e (
            let same : x ≡ z = ground (arith, e) in
            let one : count x bs ≤ 1 = IsSpaced-distinct x bs (heap + 20) f.spaced in
            subst (λ y. count y (x ∷ fs) ≡ count y bs) same (ground (arith, one, at, used)))
        | inr e ↦ rw e (let n : count z (x ∷ fs) ≡ count z fs = ground (arith, e) in n ∙ m)
      ])

  pub listed-IsHeap : IsHeap listed heap bs (x ∷ fs)
  unfolding count
  listed-IsHeap =
      let below = x_below in
      let heap_x : (heap == x) ≡ false = ground (arith, below) in
      let end_x : (heap + 20 == x) ≡ false = ground (arith, below) in
      record {
        phys =
            IsLinks-Same (item_next h) _ h.prev _ heap bs (heap + 20)
              (λ z.
                unfold free_list_insert_after in
                (let c = clear_low-clear_low (h.next x) in ground (arith, c)))
              (λ z. unfold free_list_insert_after in refl) f.phys;
        spaced = f.spaced;
        before_heap = f.before_heap;
        even = f.even;
        free_chain =
            free_list_insert_after-IsLinks h heap x fs heap (free-IsPath f)
              (ground (arith, used, below)) f.free_chain;
        marked = listed-marked;
        ends_used = (
          listed-mark heap ∙ rw heap_x f.ends_used.0,
          listed-mark (heap + 20) ∙ rw end_x f.ends_used.1,
        );
        pools = unfold free_list_insert_after in f.pools;
        limited = f.limited;
      }
