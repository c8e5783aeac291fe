-- ===== src/Memheap/Ring.antt =====
-- Doubly linked lists by the addresses of their nodes.
pub mod Change
pub mod Path
pub mod Nodes
use nerd_rtos.Common.{List, [], arith, count, update, ℕ, ◌++◌, ◌∷◌, ◌≡◌, ◌≢◌, ◌≤◌}

-- From `a` the links lead through the nodes `xs` to `b`, and back.
unfoldable pub IsLinks : (ℕ → ℕ) → (ℕ → ℕ) → ℕ → List ℕ → ℕ → Type 0
IsLinks nx pv a [] b = (nx a ≡ b) × (pv b ≡ a)
IsLinks nx pv a (x ∷ xs) b = (nx a ≡ x) × (pv x ≡ a) × IsLinks nx pv x xs b

-- A write to a node that is not on the way changes nothing.
pub IsLinks-update_next :
    (nx pv : ℕ → ℕ) (k v a : ℕ) (xs : List ℕ) (b : ℕ)
    → count k (a ∷ xs) ≡ 0
    → IsLinks nx pv a xs b
    → IsLinks (update nx k v) pv a xs b
unfolding IsLinks count
IsLinks-update_next nx pv k v a [] b none_at (e, f) = (ground (arith, e, none_at), f)
IsLinks-update_next nx pv k v a (x ∷ xs) b none_at (e, f, c) = (
  ground (arith, e, none_at),
  f,
  IsLinks-update_next nx pv k v x xs b (ground (arith, none_at)) c,
)

pub IsLinks-update_prev :
    (nx pv : ℕ → ℕ) (k v a : ℕ) (xs : List ℕ) (b : ℕ)
    → count k (b ∷ xs) ≡ 0
    → IsLinks nx pv a xs b
    → IsLinks nx (update pv k v) a xs b
unfolding IsLinks count
IsLinks-update_prev nx pv k v a [] b none_at (e, f) = (e, ground (arith, f, none_at))
IsLinks-update_prev nx pv k v a (x ∷ xs) b none_at (e, f, c) = (
  e,
  ground (arith, f, none_at),
  IsLinks-update_prev nx pv k v x xs b (ground (arith, none_at)) c,
)

pub IsLinks-append :
    (nx pv : ℕ → ℕ) (a : ℕ) (xs : List ℕ) (x : ℕ) (ys : List ℕ) (b : ℕ)
    → IsLinks nx pv a xs x
    → IsLinks nx pv x ys b
    → IsLinks nx pv a (xs ++ x ∷ ys) b
unfolding IsLinks
IsLinks-append nx pv a [] x ys b (e, f) c = (e, f, c)
IsLinks-append nx pv a (y ∷ xs) x ys b (e, f, d) c = (e, f, IsLinks-append nx pv y xs x ys b d c)

pub IsLinks-split :
    (nx pv : ℕ → ℕ) (a : ℕ) (xs : List ℕ) (x : ℕ) (ys : List ℕ) (b : ℕ)
    → IsLinks nx pv a (xs ++ x ∷ ys) b
    → IsLinks nx pv a xs x × IsLinks nx pv x ys b
unfolding IsLinks
IsLinks-split nx pv a [] x ys b (e, f, c) = ((e, f), c)
IsLinks-split nx pv a (y ∷ xs) x ys b (e, f, c) =
    let (d, r) = IsLinks-split nx pv y xs x ys b c in ((e, f, d), r)

-- The first node behind `a`, and the last before `b`.
abbrev pub first_node : List ℕ → ℕ → ℕ
first_node [] b = b
first_node (x ∷ xs) b = x

unfoldable pub last_node : ℕ → List ℕ → ℕ
last_node a [] = a
last_node a (x ∷ xs) = last_node x xs

pub IsLinks-first :
    (nx pv : ℕ → ℕ) (a : ℕ) (xs : List ℕ) (b : ℕ) → IsLinks nx pv a xs b → nx a ≡ first_node xs b
unfolding IsLinks
IsLinks-first nx pv a [] b (e, f) = e
IsLinks-first nx pv a (x ∷ xs) b (e, f, c) = e

pub IsLinks-last :
    (nx pv : ℕ → ℕ) (a : ℕ) (xs : List ℕ) (b : ℕ) → IsLinks nx pv a xs b → pv b ≡ last_node a xs
unfolding IsLinks last_node
IsLinks-last nx pv a [] b (e, f) = f
IsLinks-last nx pv a (x ∷ xs) b (e, f, c) = IsLinks-last nx pv x xs b c

pub count-last_node : (a : ℕ) (xs : List ℕ) → count (last_node a xs) (a ∷ xs) ≢ 0
unfolding count last_node
count-last_node a [] = ground arith
count-last_node a (x ∷ xs) = ground (arith, count-last_node x xs)

-- No node stands twice.
abbrev pub IsDistinct : List ℕ → Type 0
IsDistinct xs = (x : ℕ) → count x xs ≤ 1
