-- ===== src/Memheap/Ring/Path.antt =====
-- The nodes of a doubly linked list stand in it once.
use nerd_rtos.Common.{List, [], arith, count, count-append, false, ℕ, ◌++◌, ◌==◌, ◌∷◌, ◌≡◌, ◌≢◌}
use nerd_rtos.Memheap.Ring.{IsDistinct, first_node}

-- The nodes from `a` through `xs` stand once, and `b` is not one of `xs`.
pub record IsPath (a : ℕ) (xs : List ℕ) (b : ℕ) : Type 0 where
  pub once : IsDistinct (a ∷ xs)
  pub end_away : count b xs ≡ 0

-- The pieces of a path that is cut at `x`.
pub IsPath-front :
    (a : ℕ) (xs : List ℕ) (x : ℕ) (ys : List ℕ) (b : ℕ) → IsPath a (xs ++ x ∷ ys) b → IsPath a xs x
unfolding count
IsPath-front a xs x ys b p = record {
  once = λ z. let o = p.once z in ground (arith, count-append z xs (x ∷ ys), o);
  end_away = let o = p.once x in ground (arith, count-append x xs (x ∷ ys), o);
}

pub IsPath-back :
    (a : ℕ) (xs : List ℕ) (x : ℕ) (ys : List ℕ) (b : ℕ) → IsPath a (xs ++ x ∷ ys) b → IsPath x ys b
unfolding count
IsPath-back a xs x ys b p = record {
  once = λ z. let o = p.once z in ground (arith, count-append z xs (x ∷ ys), o);
  end_away = let o = p.end_away in ground (arith, count-append b xs (x ∷ ys), o);
}

-- What stands among `a` and `xs` does not stand at `x` or behind it.
pub front-away :
    (k a : ℕ) (xs : List ℕ) (x : ℕ) (ys : List ℕ) (b : ℕ)
    → IsPath a (xs ++ x ∷ ys) b
    → count k (a ∷ xs) ≢ 0
    → count k (x ∷ ys) ≡ 0
unfolding count
front-away k a xs x ys b p at =
    let o = p.once k in ground (arith, count-append k xs (x ∷ ys), o, at)

-- What stands at `x` or behind it does not stand among `a` and `xs`.
pub back-away :
    (k a : ℕ) (xs : List ℕ) (x : ℕ) (ys : List ℕ) (b : ℕ)
    → IsPath a (xs ++ x ∷ ys) b
    → count k (x ∷ ys) ≢ 0
    → count k (a ∷ xs) ≡ 0
unfolding count
back-away k a xs x ys b p at = let o = p.once k in ground (arith, count-append k xs (x ∷ ys), o, at)

pub first_node-away :
    (k : ℕ) (ys : List ℕ) (b : ℕ) (zs : List ℕ)
    → count b zs ≡ 0
    → ((y : ℕ) → count y ys ≢ 0 → count y zs ≡ 0)
    → count (first_node ys b) zs ≡ 0
unfolding count
first_node-away k [] b zs e h = e
first_node-away k (y ∷ ys) b zs e h = h y (ground arith)

pub first_node-ne :
    (n : ℕ) (xs : List ℕ) (b : ℕ) → count n (b ∷ xs) ≡ 0 → (first_node xs b == n) ≡ false
unfolding count
first_node-ne n [] b e = ground (arith, e)
first_node-ne n (x ∷ xs) b e = ground (arith, e)

pub back_apart :
    (y a : ℕ) (xs : List ℕ) (x : ℕ) (ys : List ℕ) (b : ℕ)
    → IsPath a (xs ++ x ∷ ys) b
    → count y ys ≢ 0
    → count y (x ∷ xs) ≡ 0
unfolding count
back_apart y a xs x ys b p at =
    let o = p.once y in ground (arith, count-append y xs (x ∷ ys), o, at)

pub end_apart :
    (a : ℕ) (xs : List ℕ) (x : ℕ) (ys : List ℕ) (b : ℕ)
    → IsPath a (xs ++ x ∷ ys) b
    → count b (x ∷ xs) ≡ 0
unfolding count
end_apart a xs x ys b p = let o = p.end_away in ground (arith, count-append b xs (x ∷ ys), o)

-- `x` is neither the end nor behind itself.
pub x_away :
    (a : ℕ) (xs : List ℕ) (x : ℕ) (ys : List ℕ) (b : ℕ)
    → IsPath a (xs ++ x ∷ ys) b
    → count x (b ∷ ys) ≡ 0
unfolding count
x_away a xs x ys b p =
    let back = IsPath-back a xs x ys b p in
    let o = back.once x in let e = p.end_away in ground (arith, o, e, count-append b xs (x ∷ ys))
