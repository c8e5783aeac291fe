-- ===== src/Memheap/Spaced.antt =====
-- Blocks in the order of their addresses, with room for a header between one and the next.
use nerd_rtos.Common.{
  Bool-cases, List, [], ap, arith, count, inl, inr, refl, ℕ, ◌++◌, ◌+◌, ◌==◌, ◌∷◌, ◌≡◌, ◌≢◌, ◌≤◌,
  ◌⊎◌,
}
use nerd_rtos.Memheap.Item.{item_size}
use nerd_rtos.Memheap.Ring.{first_node}

unfoldable pub IsSpaced : List ℕ → ℕ → Type 0
IsSpaced [] limit = Unit
IsSpaced (x ∷ xs) limit = (x + item_size ≤ first_node xs limit) × IsSpaced xs limit

-- A block ends before the limit.
pub IsSpaced-below :
    (y : ℕ) (xs : List ℕ) (limit : ℕ) → IsSpaced xs limit → count y xs ≢ 0 → y + item_size ≤ limit
unfolding IsSpaced count
IsSpaced-below y [] limit s at = absurd (at refl)
IsSpaced-below y (x ∷ []) limit (le, s) at = ground (arith, le, at)
IsSpaced-below y (x ∷ z ∷ xs) limit (le, s) at =
    let below_z = IsSpaced-below z (z ∷ xs) limit s (ground arith) in
    elim (Bool-cases (x == y)) [
      | inl e ↦ ground (arith, e, le, below_z)
      | inr e ↦ IsSpaced-below y (z ∷ xs) limit s (ground (arith, e, at))
    ]

-- The blocks behind the first lie behind it.
pub IsSpaced-behind :
    (x y : ℕ) (xs : List ℕ) (limit : ℕ)
    → IsSpaced (x ∷ xs) limit
    → count y xs ≢ 0
    → x + item_size ≤ y
unfolding IsSpaced count
IsSpaced-behind x y [] limit s at = absurd (at refl)
IsSpaced-behind x y (z ∷ xs) limit (le, s) at = elim (Bool-cases (z == y)) [
  | inl e ↦ ground (arith, e, le)
  | inr e ↦
      let more = IsSpaced-behind z y xs limit s (ground (arith, e, at)) in omega (arith, le, more)
]

pub absent_or_not : (y : ℕ) (xs : List ℕ) → (count y xs ≡ 0) ⊎ (count y xs ≢ 0)
absent_or_not y xs = elim (Bool-cases (count y xs == 0)) [
  | inl e ↦ inl (ground arith)
  | inr e ↦ inr (ground arith)
]

one_more_node : (x y : ℕ) (xs : List ℕ) → count y xs ≡ 0 → count y (x ∷ xs) ≤ 1
unfolding count
one_more_node x y xs e = ground (arith, e)

other_node : (x y : ℕ) (xs : List ℕ) → x ≢ y → count y xs ≤ 1 → count y (x ∷ xs) ≤ 1
unfolding count
other_node x y xs ne le = ground (arith, ne, le)

pub IsSpaced-distinct : (y : ℕ) (xs : List ℕ) (limit : ℕ) → IsSpaced xs limit → count y xs ≤ 1
unfolding count IsSpaced
IsSpaced-distinct y [] limit s = omega arith
IsSpaced-distinct y (x ∷ xs) limit (le, s) = elim (absent_or_not y xs) [
  | inl e ↦ one_more_node x y xs e
  | inr at ↦
      let far = IsSpaced-behind x y xs limit (le, s) at in
      other_node x y xs (omega (arith, far)) (IsSpaced-distinct y xs limit s)
]

other_node_absent : (x y : ℕ) (xs : List ℕ) → x ≢ y → count y xs ≡ 0 → count y (x ∷ xs) ≡ 0
unfolding count
other_node_absent x y xs ne e = ground (arith, ne, e)

-- An address before the first block is no block.
pub IsSpaced-before :
    (n : ℕ) (xs : List ℕ) (limit : ℕ)
    → IsSpaced xs limit
    → n + item_size ≤ first_node xs limit
    → count n xs ≡ 0
unfolding IsSpaced
IsSpaced-before n [] limit s le = unfold count in refl
IsSpaced-before n (x ∷ xs) limit (r, s) le =
    other_node_absent x n xs (omega (arith, le))
      (IsSpaced-before n xs limit s (omega (arith, le, r)))

pub IsSpaced-split :
    (xs : List ℕ) (x : ℕ) (ys : List ℕ) (limit : ℕ)
    → IsSpaced (xs ++ x ∷ ys) limit
    → IsSpaced xs x × IsSpaced (x ∷ ys) limit
unfolding IsSpaced
IsSpaced-split [] x ys limit s = (tt, s)
IsSpaced-split (z ∷ []) x ys limit (le, s) = ((le, tt), s)
IsSpaced-split (z ∷ w ∷ xs) x ys limit (le, s) =
    let (f, b) = IsSpaced-split (w ∷ xs) x ys limit s in ((le, f), b)

pub IsSpaced-append :
    (xs ys : List ℕ) (limit : ℕ)
    → IsSpaced xs (first_node ys limit)
    → IsSpaced ys limit
    → IsSpaced (xs ++ ys) limit
unfolding IsSpaced
IsSpaced-append [] ys limit s t = t
IsSpaced-append (z ∷ []) ys limit (le, s) t = (le, t)
IsSpaced-append (z ∷ w ∷ xs) ys limit (le, s) t = (le, IsSpaced-append (w ∷ xs) ys limit s t)

pub IsSpaced-wider :
    (xs : List ℕ) (limit limit' : ℕ) → limit ≤ limit' → IsSpaced xs limit → IsSpaced xs limit'
unfolding IsSpaced
IsSpaced-wider [] limit limit' le s = tt
IsSpaced-wider (x ∷ []) limit limit' le (r, s) = (omega (arith, r), tt)
IsSpaced-wider (x ∷ y ∷ xs) limit limit' le (r, s) = (r, IsSpaced-wider (y ∷ xs) limit limit' le s)

-- A block between `x` and the next, and the blocks without `x`.
pub IsSpaced-insert :
    (xs : List ℕ) (x n : ℕ) (ys : List ℕ) (limit : ℕ)
    → x + item_size ≤ n
    → n + item_size ≤ first_node ys limit
    → IsSpaced (xs ++ x ∷ ys) limit
    → IsSpaced (xs ++ x ∷ n ∷ ys) limit
unfolding IsSpaced
IsSpaced-insert xs x n ys limit from to s =
    let (f, (le, b)) = IsSpaced-split xs x ys limit s in
    IsSpaced-append xs (x ∷ n ∷ ys) limit f (from, (to, b))

pub IsSpaced-remove :
    (xs : List ℕ) (x : ℕ) (ys : List ℕ) (limit : ℕ)
    → IsSpaced (xs ++ x ∷ ys) limit
    → IsSpaced (xs ++ ys) limit
unfolding IsSpaced
IsSpaced-remove xs x ys limit s =
    let (f, (le, b)) = IsSpaced-split xs x ys limit s in
    IsSpaced-append xs ys limit (IsSpaced-wider xs x (first_node ys limit) (omega (arith, le)) f) b

-- Where an address stands in a list.
pub count-split :
    (x : ℕ) (xs : List ℕ)
    → count x xs ≢ 0
    → (before : List ℕ) × (after : List ℕ) × (xs ≡ before ++ x ∷ after)
unfolding count
count-split x [] at = absurd (at refl)
count-split x (y ∷ xs) at = elim (Bool-cases (y == x)) [
  | inl e ↦ let same : y ≡ x = ground arith in ([], xs, ap (λ z. z ∷ xs) same)
  | inr e ↦
      let (before, after, q) = count-split x xs (ground (arith, e, at)) in
      (y ∷ before, after, ap (◌∷◌ y) q)
]
