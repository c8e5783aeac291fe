-- ===== src/Memheap/Apart.antt =====
-- The blocks of a heap in order do not overlap.
use nerd_rtos.Common.{
  Bool-cases, List, [], ap, append_assoc, arith, count, count-append, inl, inr, refl, subst, sym, ℕ,
  ◌++◌, ◌+◌, ◌==◌, ◌∙◌, ◌∷◌, ◌≢◌, ◌≤◌, ◌⊎◌,
}
use nerd_rtos.Memheap.Invariant.{IsHeap}
use nerd_rtos.Memheap.Item.{MemHeap, item_data_size, item_size}
use nerd_rtos.Memheap.Ring.{first_node}
use nerd_rtos.Memheap.Spaced.{IsSpaced, IsSpaced-behind, IsSpaced-split, absent_or_not, count-split}
use nerd_rtos.Memheap.Take.{data_size}

from_first :
    (y : ℕ) (xs : List ℕ) (limit : ℕ) → IsSpaced xs limit → count y xs ≢ 0 → first_node xs limit ≤ y
unfolding count
from_first y [] limit s at = absurd (at refl)
from_first y (x ∷ xs) limit s at = elim (Bool-cases (x == y)) [
  | inl e ↦ ground (arith, e)
  | inr e ↦ let far = IsSpaced-behind x y xs limit s (ground (arith, e, at)) in omega (arith, far)
]

-- A block behind `x` begins where its bytes end, or later.
behind-apart :
    (h : MemHeap) (heap : ℕ) (ps : List ℕ) (x : ℕ) (qs fs : List ℕ) (y : ℕ)
    → IsHeap h heap (ps ++ x ∷ qs) fs
    → count y qs ≢ 0
    → x + item_size + item_data_size h x ≤ y
unfolding IsSpaced
behind-apart h heap ps x qs fs y f at =
    let (le, below, size) = data_size h heap ps x qs fs f in
    let (r, s) = (IsSpaced-split ps x qs (heap + 20) f.spaced).1 in
    let from = from_first y qs (heap + 20) s at in omega (arith, le, size, from)

pub blocks_apart :
    (h : MemHeap) (heap : ℕ) (bs fs : List ℕ) (x y : ℕ)
    → IsHeap h heap bs fs
    → count x bs ≢ 0
    → count y bs ≢ 0
    → y ≢ x
    → (x + item_size + item_data_size h x ≤ y) ⊎ (y + item_size + item_data_size h y ≤ x)
unfolding count
blocks_apart h heap bs fs x y f x_at y_at ne =
    let (ps, qs, q) = count-split x bs x_at in
    let f' = subst (λ l. IsHeap h heap l fs) q f in
    let y_at' = subst (λ l. count y l ≢ 0) q y_at in
    let c = count-append y ps (x ∷ qs) in
    elim (absent_or_not y qs) [
      | inr behind ↦ inl (behind-apart h heap ps x qs fs y f' behind)
      | inl e ↦
          let (us, vs, p) = count-split y ps (ground (arith, y_at', c, e, ne)) in
          let f'' =
            subst (λ l. IsHeap h heap l fs)
              (ap (λ l. l ++ x ∷ qs) p ∙ append_assoc us (y ∷ vs) (x ∷ qs)) f' in
          inr (behind-apart h heap us y (vs ++ x ∷ qs) fs x f'' (count-middle_one x vs qs))
    ]
  where
    count-middle_one : (x : ℕ) (vs qs : List ℕ) → count x (vs ++ x ∷ qs) ≢ 0
    count-middle_one x vs qs = let c = count-append x vs (x ∷ qs) in ground (arith, c)

count-second : (z y : ℕ) (ps qs : List ℕ) → count z (ps ++ y ∷ z ∷ qs) ≢ 0
unfolding count
count-second z y ps qs = let c = count-append z ps (y ∷ z ∷ qs) in ground (arith, c)

-- With fewer headers a block that is still there is not smaller.
pub data_size-grows :
    (h h' : MemHeap) (heap : ℕ) (bs fs bs' fs' : List ℕ) (y : ℕ)
    → IsHeap h heap bs fs
    → IsHeap h' heap bs' fs'
    → count y bs ≢ 0
    → count y bs' ≢ 0
    → ((z : ℕ) → count z bs' ≢ 0 → count z bs ≢ 0)
    → item_data_size h y ≤ item_data_size h' y
data_size-grows h h' heap bs fs bs' fs' y f f' at at' fewer =
    let (ps, qs, q) = count-split y bs' at' in
    let g = subst (λ l. IsHeap h' heap l fs') q f' in
    up_to_next ps qs g (λ z z_at. fewer z (subst (λ l. count z l ≢ 0) (sym q) z_at))
  where
    whole : y + item_size + item_data_size h y ≤ heap + 20
    whole =
        let (us, vs, p) = count-split y bs at in
        let (le, below, size) = data_size h heap us y vs fs (subst (λ l. IsHeap h heap l fs) p f) in
        omega (arith, le, below, size)

    up_to_next :
        (ps qs : List ℕ)
        → IsHeap h' heap (ps ++ y ∷ qs) fs'
        → ((z : ℕ) → count z (ps ++ y ∷ qs) ≢ 0 → count z bs ≢ 0)
        → item_data_size h y ≤ item_data_size h' y
    up_to_next ps [] g old =
        let (le, below, size) = data_size h' heap ps y [] fs' g in omega (arith, whole, le, size)
    up_to_next ps (z ∷ qs) g old =
        let (le, below, size) = data_size h' heap ps y (z ∷ qs) fs' g in
        let z_at = count-second z y ps qs in
        elim (blocks_apart h heap bs fs y z f at (old z z_at) (omega (arith, le))) [
          | inl e ↦ omega (arith, le, size, e)
          | inr e ↦ absurd (omega (arith, le, e))
        ]
