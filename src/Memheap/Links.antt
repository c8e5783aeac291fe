-- ===== src/Memheap/Links.antt =====
-- The operations on the two lists of a heap, as changes of chains.
use nerd_rtos.Common.{
  Bool-cases, List, [], arith, count, count-append, false, inl, inr, refl, subst, sym, ℕ, ◌%◌, ◌++◌,
  ◌==◌, ◌∙◌, ◌∷◌, ◌≡◌,
}
use nerd_rtos.Memheap.Item.{
  MemHeap, clear_low, free_list_insert_after, free_list_remove, free_list_replace, item_next,
  or_low, phys_list_insert_after, phys_list_remove,
}
use nerd_rtos.Memheap.Ring.{
  IsLinks, IsLinks-first, IsLinks-last, IsLinks-split, count-last_node, last_node,
}
use nerd_rtos.Memheap.Ring.Nodes.{
  IsLinks-insert, IsLinks-insert_after, IsLinks-remove, IsLinks-replace,
}
use nerd_rtos.Memheap.Ring.Path.{IsPath, first_node-ne, front-away, x_away}

pub IsLinks-Same :
    (nx nx' pv pv' : ℕ → ℕ) (a : ℕ) (xs : List ℕ) (b : ℕ)
    → ((x : ℕ) → nx' x ≡ nx x)
    → ((x : ℕ) → pv' x ≡ pv x)
    → IsLinks nx pv a xs b
    → IsLinks nx' pv' a xs b
unfolding IsLinks
IsLinks-Same nx nx' pv pv' a [] b n p (e, f) = (n a ∙ e, p b ∙ f)
IsLinks-Same nx nx' pv pv' a (x ∷ xs) b n p (e, f, c) =
    (n a ∙ e, p x ∙ f, IsLinks-Same nx nx' pv pv' x xs b n p c)

pub clear_low-even : (n : ℕ) → n % 2 ≡ 0 → clear_low n ≡ n
clear_low-even n e = omega (arith, e)

pub even-clear_low : (n : ℕ) → clear_low n % 2 ≡ 0
even-clear_low n = omega arith

pub clear_low-or_low : (n m : ℕ) → n % 2 ≡ 0 → clear_low (or_low n m) ≡ n
clear_low-or_low n m e = ground (arith, e)

-- A link that was changed keeps the mark.
pub mod-or_low : (n m : ℕ) → n % 2 ≡ 0 → or_low n m % 2 ≡ m % 2
mod-or_low n m e = ground (arith, e)

module _ (h : MemHeap) (a : ℕ) (xs : List ℕ) (x : ℕ) (ys : List ℕ) (b : ℕ)
    (p : IsPath a (xs ++ x ∷ ys) b) where
  last-ne : (l : ℕ) → l ≡ last_node a xs → (l == x) ≡ false
  unfolding count
  last-ne l e = elim (Bool-cases (l == x)) [
    | inl same ↦
        let at : x ≡ last_node a xs = ground (arith, e) in
        let none_there = front-away (last_node a xs) a xs x ys b p (count-last_node a xs) in
        let none_here = subst (λ z. count z (x ∷ ys) ≡ 0) (sym at) none_there in
        absurd (ground (arith, none_here))
    | inr other ↦ other
  ]

  pub free_list_remove-IsLinks :
      IsLinks h.next_free h.prev_free a (xs ++ x ∷ ys) b
      → let h' = free_list_remove h x in IsLinks h'.next_free h'.prev_free a (xs ++ ys) b
  unfolding free_list_remove
  free_list_remove-IsLinks c =
      IsLinks-Same _ _ _ _ a (xs ++ ys) b (λ z. refl) (λ z. ground arith)
        (IsLinks-remove h.next_free h.prev_free a xs x ys b p c)

  pub free_list_replace-IsLinks :
      (n : ℕ)
      → count n (a ∷ b ∷ xs ++ x ∷ ys) ≡ 0
      → IsLinks h.next_free h.prev_free a (xs ++ x ∷ ys) b
      → let h' = free_list_replace h x n in IsLinks h'.next_free h'.prev_free a (xs ++ n ∷ ys) b
  unfolding free_list_replace count
  free_list_replace-IsLinks n new c =
      let counts = count-append n xs (x ∷ ys) in
      let n_x : (n == x) ≡ false = ground (arith, new, counts) in
      let (front, back) = IsLinks-split h.next_free h.prev_free a xs x ys b c in
      let f_x : (h.next_free x == x) ≡ false =
        subst (λ z. (z == x) ≡ false) (sym (IsLinks-first h.next_free h.prev_free x ys b back))
          (first_node-ne x ys b (x_away a xs x ys b p)) in
      IsLinks-Same _ _ _ _ a (xs ++ n ∷ ys) b (λ z. ground (arith, n_x, f_x))
        (λ z. ground (arith, n_x)) (IsLinks-replace h.next_free h.prev_free a xs x n ys b p new c)

  pub phys_list_remove-IsLinks :
      IsLinks (item_next h) h.prev a (xs ++ x ∷ ys) b
      → let h' = phys_list_remove h x in IsLinks (item_next h') h'.prev a (xs ++ ys) b
  unfolding phys_list_remove
  phys_list_remove-IsLinks c =
      let (front, back) = IsLinks-split (item_next h) h.prev a xs x ys b c in
      let l_x = last-ne (h.prev x) (IsLinks-last (item_next h) h.prev a xs x front) in
      let even_next = even-clear_low (h.next x) in
      let clear = clear_low-or_low (item_next h x) (h.next (h.prev x)) even_next in
      IsLinks-Same _ _ _ _ a (xs ++ ys) b (λ z. ground (arith, clear)) (λ z. ground (arith, l_x))
        (IsLinks-remove (item_next h) h.prev a xs x ys b p c)

  pub phys_list_insert_after-IsLinks :
      (n : ℕ)
      → n % 2 ≡ 0
      → count n (a ∷ b ∷ xs ++ x ∷ ys) ≡ 0
      → IsLinks (item_next h) h.prev a (xs ++ x ∷ ys) b
      → let h' = phys_list_insert_after h x n in
        IsLinks (item_next h') h'.prev a (xs ++ x ∷ n ∷ ys) b
  unfolding phys_list_insert_after count
  phys_list_insert_after-IsLinks n e new c =
      let counts = count-append n xs (x ∷ ys) in
      let n_x : (n == x) ≡ false = ground (arith, new, counts) in
      let even_next = even-clear_low (h.next x) in
      let same = clear_low-even (item_next h x) even_next in
      let clear = clear_low-or_low n (h.next x) e in
      IsLinks-Same _ _ _ _ a (xs ++ x ∷ n ∷ ys) b (λ z. ground (arith, n_x, clear, same))
        (λ z. ground (arith, n_x)) (IsLinks-insert_after (item_next h) h.prev a xs x n ys b p new c)

pub free_list_insert_after-IsLinks :
    (h : MemHeap) (a n : ℕ) (xs : List ℕ) (b : ℕ)
    → IsPath a xs b
    → count n (a ∷ b ∷ xs) ≡ 0
    → IsLinks h.next_free h.prev_free a xs b
    → let h' = free_list_insert_after h a n in IsLinks h'.next_free h'.prev_free a (n ∷ xs) b
unfolding free_list_insert_after count
free_list_insert_after-IsLinks h a n xs b p new c =
    let n_a : (n == a) ≡ false = ground (arith, new) in
    IsLinks-Same _ _ _ _ a (n ∷ xs) b (λ z. ground (arith, n_a)) (λ z. ground (arith, n_a))
      (IsLinks-insert h.next_free h.prev_free a n xs b p new c)
