-- ===== src/Memheap/Split.antt =====
-- Splitting a block keeps the invariant.
use nerd_rtos.Common.{
  Bool-cases, List, ap, arith, count, count-append, false, if◌then◌else◌, inl, inr, refl, subst,
  sym, true, ℕ, ◌%◌, ◌++◌, ◌+◌, ◌==◌, ◌∙◌, ◌∷◌, ◌≡◌, ◌≢◌, ◌≤◌, ◌⊎◌,
}
use nerd_rtos.Memheap.Alloc.{sub_available}
use nerd_rtos.Memheap.Invariant.{IsHeap, end-away, free-IsPath, heap-away, phys-IsPath}
use nerd_rtos.Memheap.Item.{
  MemHeap, free_list_replace, item_init, item_is_free, item_next, item_size, phys_list_insert_after,
  set_used,
}
use nerd_rtos.Memheap.Links.{
  IsLinks-Same, even-clear_low, free_list_replace-IsLinks, mod-or_low,
  phys_list_insert_after-IsLinks,
}
use nerd_rtos.Memheap.Ring.{IsLinks, first_node}
use nerd_rtos.Memheap.Spaced.{
  IsSpaced, IsSpaced-before, IsSpaced-below, IsSpaced-insert, IsSpaced-split, absent_or_not,
}
use nerd_rtos.Memheap.Take.{clear_low-used}

module _ (h : MemHeap) (heap : ℕ) (ps : List ℕ) (x n : ℕ) (qs fs : List ℕ)
    (f : IsHeap h heap (ps ++ x ∷ qs) fs) (from : x + item_size ≤ n)
    (to : n + item_size ≤ first_node qs (heap + 20)) (room : n + item_size ≤ heap) where
  -- An address between a block and the next is no block.
  pub between-fresh : count n (heap ∷ (heap + 20) ∷ ps ++ x ∷ qs) ≡ 0
  unfolding count IsSpaced
  between-fresh =
      let (front, (le, back)) = IsSpaced-split ps x qs (heap + 20) f.spaced in
      let in_front : count n ps ≡ 0 = elim (absent_or_not n ps) [
        | inl e ↦ e
        | inr at ↦ let b = IsSpaced-below n ps x front at in absurd (omega (arith, b, from))
      ] in
      let behind = IsSpaced-before n qs (heap + 20) back to in
      let c = count-append n ps (x ∷ qs) in between in_front behind c
    where
      between :
          count n ps ≡ 0
          → count n qs ≡ 0
          → count n (ps ++ x ∷ qs) ≡ count n ps + count n (x ∷ qs)
          → count n (heap ∷ (heap + 20) ∷ ps ++ x ∷ qs) ≡ 0
      between in_front behind c = ground (arith, in_front, behind, c, from, room)

  count-with_new : (z : ℕ) → count z (ps ++ x ∷ n ∷ qs) ≡ count z (n ∷ ps ++ x ∷ qs)
  unfolding count
  count-with_new z =
      let c = count-append z ps (x ∷ n ∷ qs) in
      let c' = count-append z ps (x ∷ qs) in omega (arith, c, c')

module _ (h : MemHeap) (heap : ℕ) (ps : List ℕ) (x n : ℕ) (qs before after : List ℕ)
    (f : IsHeap h heap (ps ++ x ∷ qs) (before ++ x ∷ after)) (from : x + item_size ≤ n)
    (to : n + item_size ≤ first_node qs (heap + 20)) (room : n + item_size ≤ heap)
    (n_even : n % 2 ≡ 0) where
  -- The heap with the block `x` cut at `n`, and `n` free in its place.
  abbrev cut_at : ℕ → MemHeap
  cut_at size =
      set_used
        (sub_available (phys_list_insert_after (free_list_replace (item_init h n heap) x n) x n)
          size)
        x

  fresh : count n (heap ∷ (heap + 20) ∷ ps ++ x ∷ qs) ≡ 0
  fresh = between-fresh h heap ps x n qs (before ++ x ∷ after) f from to room

  not_free : count n (before ++ x ∷ after) ≡ 0
  unfolding count
  not_free = let m = f.marked n in let new = fresh in ground (arith, m, new)

  n_x : (n == x) ≡ false
  n_x = ground (arith, from)

  cut-phys :
      (size : ℕ)
      → IsLinks (item_next (cut_at size)) (cut_at size).prev heap (ps ++ x ∷ n ∷ qs) (heap + 20)
  unfolding phys_list_insert_after free_list_replace
  cut-phys size =
      let h1 = free_list_replace (item_init h n heap) x n in
      let h2 = phys_list_insert_after h1 x n in
      IsLinks-Same (item_next h2) _ h2.prev _ heap (ps ++ x ∷ n ∷ qs) (heap + 20)
        (λ z. let e = clear_low-used (h2.next x) in ground (arith, e)) (λ z. refl)
        (phys_list_insert_after-IsLinks h1 heap ps x qs (heap + 20) (phys-IsPath f) n n_even fresh
          f.phys)

  cut-free :
      (size : ℕ)
      → IsLinks (cut_at size).next_free (cut_at size).prev_free heap (before ++ n ∷ after) heap
  unfolding phys_list_insert_after count
  cut-free size =
      let new = fresh in
      free_list_replace-IsLinks (item_init h n heap) heap before x after heap (free-IsPath f) n
        (let none_free = not_free in ground (arith, new, none_free)) f.free_chain

  -- The marks: `x` is used, `n` is free, and no other mark changes.
  cut-mark :
      (size z : ℕ)
      → item_is_free (cut_at size) z
        ≡ (if z == x then false else if z == n then true else item_is_free h z)
  unfolding phys_list_insert_after free_list_replace
  cut-mark size z =
      let n_ne = n_x in
      let e = even-clear_low (h.next x) in
      let m = mod-or_low n (h.next x) n_even in
      elim (Bool-cases (z == x)) [
        | inl c ↦ rw c (ground arith)
        | inr c ↦ elim (Bool-cases (z == n)) [
          | inl c' ↦ ground (arith, c, c', n_ne, e)
          | inr c' ↦ ground (arith, c, c', n_ne)
        ]
      ]

  at_old : (z : ℕ) → (z == x) ≡ true → count z (before ++ n ∷ after) ≡ 0
  unfolding count
  at_old z e =
      let o = (free-IsPath f).once z in
      let c = count-append z before (x ∷ after) in
      let c' = count-append z before (n ∷ after) in
      let n_ne = n_x in ground (arith, e, o, c, c', n_ne)

  at_new : (z : ℕ) → (z == n) ≡ true → count z (before ++ n ∷ after) ≡ count z (n ∷ ps ++ x ∷ qs)
  unfolding count
  at_new z e =
      let c = count-append n before (x ∷ after) in
      let c' = count-append n before (n ∷ after) in
      let none_free = not_free in
      let new = fresh in
      let here : count n (before ++ n ∷ after) ≡ count n (n ∷ ps ++ x ∷ qs) =
        ground (arith, c, c', none_free, new) in
      let same : z ≡ n = ground (arith, e) in
      subst (λ w. count w (before ++ n ∷ after) ≡ count w (n ∷ ps ++ x ∷ qs)) (sym same) here

  elsewhere :
      (z : ℕ)
      → (z == x) ≡ false
      → (z == n) ≡ false
      → count z (before ++ n ∷ after) ≡ (if item_is_free h z then count z (n ∷ ps ++ x ∷ qs) else 0)
  unfolding count
  elsewhere z e e' =
      let m = f.marked z in
      let c = count-append z before (x ∷ after) in
      let c' = count-append z before (n ∷ after) in
      let before_after : count z (before ++ n ∷ after) ≡ count z (before ++ x ∷ after) =
        ground (arith, c, c', e, e') in
      let none_new : count z (n ∷ ps ++ x ∷ qs) ≡ count z (ps ++ x ∷ qs) = ground (arith, e') in
      before_after ∙ m ∙ ap (λ k. if item_is_free h z then k else 0) (sym none_new)

  cut-marked :
      (size z : ℕ)
      → count z (before ++ n ∷ after)
        ≡ (if item_is_free (cut_at size) z then count z (ps ++ x ∷ n ∷ qs) else 0)
  cut-marked size z =
      let with_new = count-with_new h heap ps x n qs (before ++ x ∷ after) f from to room z in
      rw (cut-mark size z, with_new)
        (elim (Bool-cases (z == x)) [
          | inl e ↦ rw e (at_old z e)
          | inr e ↦ elim (Bool-cases (z == n)) [
            | inl e' ↦ rw (e, e') (at_new z e')
            | inr e' ↦ rw (e, e') (elsewhere z e e')
          ]
        ])

  away-marks :
      (size z : ℕ)
      → count z (ps ++ x ∷ qs) ≡ 0
      → (z == n) ≡ false
      → item_is_free (cut_at size) z ≡ item_is_free h z
  away-marks size z e ne =
      let z_x : (z == x) ≡ false = x_present z e in rw (cut-mark size z, z_x, ne) refl
    where
      x_present : (z : ℕ) → count z (ps ++ x ∷ qs) ≡ 0 → (z == x) ≡ false
      x_present z e = let c = count-append z ps (x ∷ qs) in unfold count in ground (arith, e, c)

  new_or_old : (z : ℕ) → count z (ps ++ x ∷ n ∷ qs) ≢ 0 → (z ≡ n) ⊎ (count z (ps ++ x ∷ qs) ≢ 0)
  unfolding count
  new_or_old z at =
      let with_new = count-with_new h heap ps x n qs (before ++ x ∷ after) f from to room z in
      elim (Bool-cases (n == z)) [
        | inl e ↦ inl (ground (arith, e))
        | inr e ↦ inr (ground (arith, e, with_new, at))
      ]

  cut-even : (z : ℕ) → count z (heap ∷ ps ++ x ∷ n ∷ qs) ≢ 0 → z % 2 ≡ 0
  unfolding count
  cut-even z at = elim (Bool-cases (heap == z)) [
    | inl e ↦ f.even z (ground (arith, e))
    | inr e ↦ elim (new_or_old z (ground (arith, e, at))) [
      | inl same ↦ omega (arith, same, n_even)
      | inr old ↦ f.even z (ground (arith, old))
    ]
  ]

  cut-pools : (size z : ℕ) → count z (ps ++ x ∷ n ∷ qs) ≢ 0 → (cut_at size).pool z ≡ heap
  unfolding phys_list_insert_after free_list_replace
  cut-pools size z at = elim (new_or_old z at) [
    | inl same ↦ ground (arith, same)
    | inr old ↦ let o = f.pools z old in ground (arith, o)
  ]

  pub take_split-IsHeap :
      (size : ℕ) → IsHeap (cut_at size) heap (ps ++ x ∷ n ∷ qs) (before ++ n ∷ after)
  take_split-IsHeap size = record {
    phys = cut-phys size;
    spaced = IsSpaced-insert ps x n qs (heap + 20) from to f.spaced;
    before_heap = λ z at. elim (new_or_old z at) [
      | inl same ↦ omega (arith, same, room)
      | inr old ↦ f.before_heap z old
    ];
    even = cut-even;
    free_chain = cut-free size;
    marked = cut-marked size;
    ends_used = (
      away-marks size heap (heap-away f) (ground (arith, room)) ∙ f.ends_used.0,
      away-marks size (heap + 20) (end-away f) (ground (arith, room)) ∙ f.ends_used.1,
    );
    pools = cut-pools size;
    limited = f.limited;
  }
