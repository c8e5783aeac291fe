-- ===== src/Memheap/Ring/Change.antt =====
-- Doubly linked lists as nodes are linked in and out.
use nerd_rtos.Common.{
  Bool-cases, List, [], arith, count, false, inl, inr, subst, update, ℕ, ◌==◌, ◌∷◌, ◌≡◌, ◌≢◌,
}
use nerd_rtos.Memheap.Ring.{
  IsDistinct, IsLinks, IsLinks-update_next, IsLinks-update_prev, count-last_node, first_node,
  last_node,
}

-- The end of a chain is moved from `x` to `n`.
pub IsLinks-new_end :
    (nx pv : ℕ → ℕ) (a : ℕ) (xs : List ℕ) (x n : ℕ)
    → IsDistinct (a ∷ xs)
    → count n xs ≡ 0
    → IsLinks nx pv a xs x
    → IsLinks (update nx (last_node a xs) n) (update pv n (last_node a xs)) a xs n
unfolding IsLinks last_node count
IsLinks-new_end nx pv a [] x n distinct new (e, f) = (ground arith, ground arith)
IsLinks-new_end nx pv a (y ∷ xs) x n distinct new (e, f, c) =
    let some_last = count-last_node y xs in
    let once = distinct a in
    let away : (last_node y xs == a) ≡ false = elim (Bool-cases (last_node y xs == a)) [
      | inl same ↦
          let l : last_node y xs ≡ a = ground arith in
          let again : count a (y ∷ xs) ≢ 0 = subst (λ z. count z (y ∷ xs) ≢ 0) l some_last in
          absurd (ground (arith, once, again))
      | inr other ↦ other
    ] in
    (
      ground (arith, e, away),
      ground (arith, f, new),
      IsLinks-new_end nx pv y xs x n (λ z. let o = distinct z in ground (arith, o))
          (ground (arith, new)) c,
    )

-- The beginning of a chain is moved from `x` to `n`.
pub IsLinks-new_begin :
    (nx pv : ℕ → ℕ) (x n : ℕ) (xs : List ℕ) (b : ℕ)
    → count n xs ≡ 0
    → IsDistinct (b ∷ xs)
    → IsLinks nx pv x xs b
    → IsLinks (update nx n (first_node xs b)) (update pv (first_node xs b) n) n xs b
unfolding IsLinks count
IsLinks-new_begin nx pv x n [] b new distinct (e, f) = (ground arith, ground arith)
IsLinks-new_begin nx pv x n (y ∷ xs) b new distinct (e, f, c) = (
  ground arith,
  ground arith,
  (let once = distinct y in
      IsLinks-update_next nx (update pv y n) n y y xs b (ground (arith, new))
        (IsLinks-update_prev nx pv y n y xs b (ground (arith, once)) c)),
)
