-- ===== src/Memheap/Ring/Nodes.antt =====
-- A node is linked into a doubly linked list, out of it, or in another's place.
use nerd_rtos.Common.{
  Bool-cases, List, [], append-nil, arith, count, count-append, false, inl, inr, subst, sym, update,
  ℕ, ◌++◌, ◌==◌, ◌∷◌, ◌≡◌, ◌≢◌,
}
use nerd_rtos.Memheap.Ring.{
  IsLinks, IsLinks-append, IsLinks-first, IsLinks-last, IsLinks-split, IsLinks-update_next,
  IsLinks-update_prev, count-last_node, first_node, last_node,
}
use nerd_rtos.Memheap.Ring.Change.{IsLinks-new_begin, IsLinks-new_end}
use nerd_rtos.Memheap.Ring.Path.{
  IsPath, IsPath-back, IsPath-front, back-away, back_apart, end_apart, first_node-away,
  first_node-ne, front-away,
}

IsLinks-unlink :
    (nx pv : ℕ → ℕ) (a : ℕ) (xs : List ℕ) (x : ℕ) (ys : List ℕ) (b : ℕ)
    → IsPath a (xs ++ x ∷ ys) b
    → IsLinks nx pv a xs x
    → IsLinks nx pv x ys b
    → IsLinks
        (update nx (last_node a xs) (first_node ys b))
        (update pv (first_node ys b) (last_node a xs))
        a
        (xs ++ ys)
        b
unfolding IsLinks count
IsLinks-unlink nx pv a xs x [] b p c (e, f) =
    let front = IsPath-front a xs x [] b p in
    let away : count b xs ≡ 0 =
      let o = p.end_away in ground (arith, count-append b xs (x ∷ []), o) in
    subst (λ zs. IsLinks (update nx (last_node a xs) b) (update pv b (last_node a xs)) a zs b)
      (sym (append-nil xs)) (IsLinks-new_end nx pv a xs x b front.once away c)
IsLinks-unlink nx pv a xs x (y ∷ ys) b p c (e, f, d) =
    let front = IsPath-front a xs x (y ∷ ys) b p in
    let back = IsPath-back a xs x (y ∷ ys) b p in
    let l = last_node a xs in
    let l_away = front-away l a xs x (y ∷ ys) b p (count-last_node a xs) in
    let y_away = back-away y a xs x (y ∷ ys) b p (ground arith) in
    let y_once = back.once y in
    let b_away = back.end_away in
    IsLinks-append (update nx l y) (update pv y l) a xs y ys b
      (IsLinks-new_end nx pv a xs x y front.once (ground (arith, y_away)) c)
      (IsLinks-update_next nx (update pv y l) l y y ys b (ground (arith, l_away))
        (IsLinks-update_prev nx pv y l y ys b (ground (arith, y_once, b_away)) d))

-- The node `x` is linked out.
pub IsLinks-remove :
    (nx pv : ℕ → ℕ) (a : ℕ) (xs : List ℕ) (x : ℕ) (ys : List ℕ) (b : ℕ)
    → IsPath a (xs ++ x ∷ ys) b
    → IsLinks nx pv a (xs ++ x ∷ ys) b
    → IsLinks (update nx (pv x) (nx x)) (update pv (nx x) (pv x)) a (xs ++ ys) b
IsLinks-remove nx pv a xs x ys b p c =
    let (front, back) = IsLinks-split nx pv a xs x ys b c in
    rw (IsLinks-last nx pv a xs x front, IsLinks-first nx pv x ys b back)
      (IsLinks-unlink nx pv a xs x ys b p front back)

-- The node `n` is linked in behind the first, `a`.
pub IsLinks-insert :
    (nx pv : ℕ → ℕ) (a n : ℕ) (xs : List ℕ) (b : ℕ)
    → IsPath a xs b
    → count n (a ∷ b ∷ xs) ≡ 0
    → IsLinks nx pv a xs b
    → IsLinks (update (update nx n (nx a)) a n) (update (update pv n a) (nx a) n) a (n ∷ xs) b
unfolding IsLinks count
IsLinks-insert nx pv a n xs b p new c =
    let f = first_node xs b in
    let b_away = p.end_away in
    let start = IsLinks-update_prev nx pv n a a xs b (ground (arith, new)) c in
    let begun =
      IsLinks-new_begin nx (update pv n a) a n xs b (ground (arith, new))
        (λ z. let o = p.once z in ground (arith, o, b_away)) start in
    let a_away : count a (n ∷ xs) ≡ 0 = let o = p.once a in ground (arith, o, new) in
    let f_away : (f == n) ≡ false = first_node-ne n xs b (ground (arith, new)) in
    subst (λ z. IsLinks (update (update nx n z) a n) (update (update pv n a) z n) a (n ∷ xs) b)
      (sym (IsLinks-first nx pv a xs b c))
      (
        ground arith,
        ground (arith, f_away),
        IsLinks-update_next (update nx n f) (update (update pv n a) f n) a n n xs b a_away begun,
      )

-- The node `n` is linked in behind `x`.
pub IsLinks-insert_after :
    (nx pv : ℕ → ℕ) (a : ℕ) (xs : List ℕ) (x n : ℕ) (ys : List ℕ) (b : ℕ)
    → IsPath a (xs ++ x ∷ ys) b
    → count n (a ∷ b ∷ xs ++ x ∷ ys) ≡ 0
    → IsLinks nx pv a (xs ++ x ∷ ys) b
    → IsLinks
        (update (update nx n (nx x)) x n)
        (update (update pv n x) (nx x) n)
        a
        (xs ++ x ∷ n ∷ ys)
        b
unfolding count
IsLinks-insert_after nx pv a xs x n ys b p new c =
    let (front, back) = IsLinks-split nx pv a xs x ys b c in
    let p' = IsPath-back a xs x ys b p in
    let counts = count-append n xs (x ∷ ys) in
    let f = nx x in
    let f_away : count f (x ∷ xs) ≡ 0 =
      subst (λ z. count z (x ∷ xs) ≡ 0) (sym (IsLinks-first nx pv x ys b back))
        (first_node-away x ys b (x ∷ xs) (end_apart a xs x ys b p)
          (λ y at. back_apart y a xs x ys b p at)) in
    IsLinks-append (update (update nx n f) x n) (update (update pv n x) f n) a xs x (n ∷ ys) b
      (IsLinks-update_next (update nx n f) (update (update pv n x) f n) x n a xs x
        (back-away x a xs x ys b p (ground arith))
        (IsLinks-update_prev (update nx n f) (update pv n x) f n a xs x f_away (
          IsLinks-update_next nx (update pv n x) n f a xs x (ground (arith, new, counts))
            (IsLinks-update_prev nx pv n x a xs x (ground (arith, new, counts)) front))))
      (IsLinks-insert nx pv x n ys b p' (ground (arith, new, counts)) back)

-- The node `n` takes the place of `x`.
pub IsLinks-replace :
    (nx pv : ℕ → ℕ) (a : ℕ) (xs : List ℕ) (x n : ℕ) (ys : List ℕ) (b : ℕ)
    → IsPath a (xs ++ x ∷ ys) b
    → count n (a ∷ b ∷ xs ++ x ∷ ys) ≡ 0
    → IsLinks nx pv a (xs ++ x ∷ ys) b
    → IsLinks
        (update (update nx n (nx x)) (pv x) n)
        (update (update pv n (pv x)) (nx x) n)
        a
        (xs ++ n ∷ ys)
        b
unfolding count
IsLinks-replace nx pv a xs x n ys b p new c =
    let (front, back) = IsLinks-split nx pv a xs x ys b c in
    let counts = count-append n xs (x ∷ ys) in
    let f = first_node ys b in
    let l = last_node a xs in
    let f_front : count f (x ∷ xs) ≡ 0 =
      first_node-away x ys b (x ∷ xs) (end_apart a xs x ys b p)
        (λ y at. back_apart y a xs x ys b p at) in
    let f_new : (f == n) ≡ false = first_node-ne n ys b (ground (arith, new, counts)) in
    let l_back = front-away l a xs x ys b p (count-last_node a xs) in
    let l_new : (l == n) ≡ false = elim (Bool-cases (l == n)) [
      | inl e ↦
          let same : l ≡ n = ground arith in
          let at = subst (λ z. count z (a ∷ xs) ≢ 0) same (count-last_node a xs) in
          absurd (at (ground (arith, new, counts)))
      | inr e ↦ e
    ] in
    let front' =
      IsLinks-new_end (update nx n f) pv a xs x n (IsPath-front a xs x ys b p).once
        (ground (arith, new, counts))
        (IsLinks-update_next nx pv n f a xs x (ground (arith, new, counts)) front) in
    let back' =
      IsLinks-new_begin nx (update pv n l) x n ys b (ground (arith, new, counts))
        (λ z.
          let o = (IsPath-back a xs x ys b p).once z in
          let e = (IsPath-back a xs x ys b p).end_away in ground (arith, o, e))
        (IsLinks-update_prev nx pv n l x ys b (ground (arith, new, counts)) back) in
    subst
      (λ z.
        IsLinks (update (update nx n z) (pv x) n) (update (update pv n (pv x)) z n) a (xs ++ n ∷ ys)
          b)
      (sym (IsLinks-first nx pv x ys b back))
      (subst
        (λ z. IsLinks (update (update nx n f) z n) (update (update pv n z) f n) a (xs ++ n ∷ ys) b)
        (sym (IsLinks-last nx pv a xs x front))
        (IsLinks-append (update (update nx n f) l n) (update (update pv n l) f n) a xs n ys b
          (IsLinks-update_prev (update (update nx n f) l n) (update pv n l) f n a xs n
            (ground (arith, f_front, f_new)) front')
          (IsLinks-update_next (update nx n f) (update (update pv n l) f n) l n n ys b
            (ground (arith, l_back, l_new)) back')))
