-- ===== src/Memheap/Allocated.antt =====
-- What nd_memheap_alloc does to a heap in order.
pub mod Taken
pub mod Whole
use nerd_rtos.Common.{
  List, Option, arith, count, count-append, inl, inr, none, some, ℕ, ◌++◌, ◌+◌, ◌∷◌, ◌≡◌, ◌≢◌, ◌≤◌,
  ◌⊎◌,
}
use nerd_rtos.Memheap.Apart.{blocks_apart}
use nerd_rtos.Memheap.FirstFit.{NoneFits}
use nerd_rtos.Memheap.Invariant.{IsHeap}
use nerd_rtos.Memheap.Item.{MemHeap, item_data_size, item_size, item_to_data}

-- The `size` bytes of the block `x` and the block `y` do not overlap.
abbrev pub IsClear : MemHeap → ℕ → ℕ → ℕ → Type 0
IsClear h x size y = (item_to_data x + size ≤ y) ⊎ (y + item_size + item_data_size h y ≤ x)

pub IsClear-blocks :
    (h : MemHeap) (heap : ℕ) (bs fs : List ℕ) (x size : ℕ)
    → IsHeap h heap bs fs
    → count x bs ≢ 0
    → size ≤ item_data_size h x
    → (y : ℕ) → count y bs ≢ 0
    → y ≢ x
    → IsClear h x size y
IsClear-blocks h heap bs fs x size f at enough y y_at ne =
    elim (blocks_apart h heap bs fs x y f at y_at ne) [
      | inl before ↦ inl (omega (arith, before, enough))
      | inr after ↦ inr after
    ]

-- The allocation was refused, for no free block is large enough; or the first block `x` of the free
-- list that is large enough was given: it is no longer free, it has at least the size asked for, no
-- other block overlaps it, and every other block is still there, free or not as before.
pub data Allocated (h : MemHeap) (heap size : ℕ) (bs fs : List ℕ) (r : Option ℕ × MemHeap)
    : Type 0 where
  refused : r ≡ (none, h) → NoneFits h size fs → Allocated h heap size bs fs r
  given :
      (x : ℕ) (before after bs' fs' : List ℕ)
      → r.0 ≡ some (item_to_data x)
      → fs ≡ before ++ x ∷ after
      → NoneFits h size before
      → IsHeap r.1 heap bs' fs'
      → (count x bs' ≢ 0) × (count x fs' ≡ 0) × (size ≤ item_data_size r.1 x)
      → ((y : ℕ) → count y bs ≢ 0 → y ≢ x → (count y bs' ≢ 0) × (count y fs' ≡ count y fs))
      → ((y : ℕ) → count y bs' ≢ 0 → y ≢ x → IsClear r.1 x size y)
      → Allocated h heap size bs fs r

pub count-here : (x : ℕ) (xs ys : List ℕ) → count x (xs ++ x ∷ ys) ≢ 0
unfolding count
count-here x xs ys = let c = count-append x xs (x ∷ ys) in ground (arith, c)
