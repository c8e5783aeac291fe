-- ===== src/Memheap/FirstFit.antt =====
-- The free list as a ring, and which block is allocated.
use nerd_rtos.Common.{
  Bool-cases, List, [], ap, arith, count, inl, inr, leb, length, refl, suc, zero, ℕ, ◌++◌, ◌<◌, ◌∙◌,
  ◌∷◌, ◌≡◌, ◌≤◌,
}
use nerd_rtos.Memheap.Alloc.{find_fit}
use nerd_rtos.Memheap.Item.{MemHeap, item_data_size}
use nerd_rtos.Memheap.Ring.{IsDistinct, IsLinks}

-- The free list leads from start_item through the blocks `fs` back to it, and no block stands in it
-- twice.
pub record IsFreeList (h : MemHeap) (heap : ℕ) (fs : List ℕ) : Type 0 where
  pub linked : IsLinks h.next_free h.prev_free heap fs heap
  pub distinct : IsDistinct (heap ∷ fs)

-- No block of the list has `size` bytes.
unfoldable pub NoneFits : MemHeap → ℕ → List ℕ → Type 0
NoneFits h size [] = Unit
NoneFits h size (x ∷ xs) = (item_data_size h x < size) × NoneFits h size xs

-- Either no block fits, or the blocks before the first that does, it, and those behind it.
pub data Fit (h : MemHeap) (size : ℕ) (fs : List ℕ) : Type 0 where
  no_fit : NoneFits h size fs → Fit h size fs
  first_fit :
      (before : List ℕ) (x : ℕ) (after : List ℕ)
      → fs ≡ before ++ x ∷ after
      → NoneFits h size before
      → size ≤ item_data_size h x
      → Fit h size fs

-- The block that the loop gives, by what the list has.
abbrev pub fit_item : {h : MemHeap} {size : ℕ} {fs : List ℕ} → ℕ → Fit h size fs → ℕ
fit_item heap (no_fit none_fits) = heap
fit_item heap (first_fit before x after e smaller fits) = x

pub find_fit-from :
    (n : ℕ) (h : MemHeap) (heap size a : ℕ) (fs : List ℕ)
    → length fs < n
    → count heap fs ≡ 0
    → IsLinks h.next_free h.prev_free a fs heap
    → (f : Fit h size fs) × (find_fit n h heap size (h.next_free a) ≡ fit_item heap f)
unfolding find_fit IsLinks NoneFits count
find_fit-from zero h heap size a fs lt away c = absurd (omega arith)
find_fit-from (suc n) h heap size a [] lt away (e, f) = (no_fit tt, ground (arith, e))
find_fit-from (suc n) h heap size a (x ∷ fs) lt away (e, f, c) =
    elim (Bool-cases (leb size (item_data_size h x))) [
      | inl fits ↦ (first_fit [] x fs refl tt (ground arith), ground (arith, e, away, fits))
      | inr small ↦
          let smaller : item_data_size h x < size = ground arith in
          let step : find_fit (suc n) h heap size (h.next_free a)
              ≡ find_fit n h heap size (h.next_free x) =
            ground (arith, e, away, small) in
          later smaller step
            (find_fit-from n h heap size x fs (omega arith) (ground (arith, away)) c)
    ]
  where
    later :
        item_data_size h x < size
        → find_fit (suc n) h heap size (h.next_free a) ≡ find_fit n h heap size (h.next_free x)
        → (f : Fit h size fs) × (find_fit n h heap size (h.next_free x) ≡ fit_item heap f)
        → (f : Fit h size (x ∷ fs)) × (find_fit (suc n) h heap size (h.next_free a)
            ≡ fit_item heap f)
    later smaller step (no_fit none_fits, p) = (no_fit (smaller, none_fits), step ∙ p)
    later smaller step (first_fit before y after q others fits, p) =
        (first_fit (x ∷ before) y after (ap (◌∷◌ x) q) (smaller, others) fits, step ∙ p)
