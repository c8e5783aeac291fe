-- ===== src/Common/Lists.antt =====
-- Lists of addresses: how often an address stands in one, and what is left without it.
use Prim.Native.Nat.{ℕ, suc, ◌+◌}
use mathlib.Core.Path.{◌≡◌, refl}
use mathlib.Core.Logic.{◌≢◌, ◌⊎◌, inl, inr}
use mathlib.Core.Bool.{Bool, true, false}
use mathlib.Core.Option.{Option, none, some}
use mathlib.Core.List.{List, [], ◌∷◌, ◌++◌}
use native.Mathlib.Omega.{arith}
use nerd_rtos.Common.Tests.{◌==◌, if◌then◌else◌}

module _ {ℓ} {A : Type ℓ} where
  abbrev pub length : List A → ℕ
  length [] = 0
  length (x ∷ xs) = suc (length xs)

  abbrev pub is_empty : List A → Bool
  is_empty [] = true
  is_empty (x ∷ xs) = false

  abbrev pub head? : List A → Option A
  head? [] = none
  head? (x ∷ xs) = some x

  pub List-cases : (xs : List A) → (xs ≡ []) ⊎ ((a : A) × (ys : List A) × (xs ≡ a ∷ ys))
  List-cases [] = inl refl
  List-cases (x ∷ xs) = inr (x, xs, refl)

  pub length-append : (xs ys : List A) → length (xs ++ ys) ≡ length xs + length ys
  length-append [] ys = omega arith
  length-append (x ∷ xs) ys = omega (arith, length-append xs ys)

  pub is_empty-snoc : (xs : List A) (a : A) → is_empty (xs ++ a ∷ []) ≡ false
  is_empty-snoc [] a = refl
  is_empty-snoc (x ∷ xs) a = refl

unfoldable pub count : ℕ → List ℕ → ℕ
count a [] = 0
count a (x ∷ xs) = (if x == a then 1 else 0) + count a xs

-- The list without the address `a`.
unfoldable pub erase : ℕ → List ℕ → List ℕ
erase a [] = []
erase a (x ∷ xs) = let rest = erase a xs in if x == a then rest else x ∷ rest

pub count-append : (a : ℕ) (xs ys : List ℕ) → count a (xs ++ ys) ≡ count a xs + count a ys
unfolding count
count-append a [] ys = omega arith
count-append a (x ∷ xs) ys = omega (arith, count-append a xs ys)

pub count-snoc :
    (a b : ℕ) (xs : List ℕ) → count a (xs ++ b ∷ []) ≡ count a xs + (if b == a then 1 else 0)
unfolding count
count-snoc a b [] = omega arith
count-snoc a b (x ∷ xs) = omega (arith, count-snoc a b xs)

pub count-cons : (a b : ℕ) (xs : List ℕ) → count a (b ∷ xs) ≡ (if b == a then 1 else 0) + count a xs
unfolding count
count-cons a b xs = refl

pub count-nil : (a : ℕ) → count a [] ≡ 0
unfolding count
count-nil a = refl

pub count-erase :
    (a b : ℕ) (xs : List ℕ) → count a (erase b xs) ≡ (if b == a then 0 else count a xs)
unfolding count erase
count-erase a b [] = ground arith
count-erase a b (x ∷ xs) = ground (arith, count-erase a b xs)

-- An address that stands in no list leaves nothing to erase.
pub erase-of_count_zero : (a : ℕ) (xs : List ℕ) → count a xs ≡ 0 → erase a xs ≡ xs
unfolding count erase
erase-of_count_zero a [] h = refl
erase-of_count_zero a (x ∷ xs) h = ground (arith, erase-of_count_zero a xs)

pub count-pos_of_head : (a : ℕ) (xs : List ℕ) → head? xs ≡ some a → count a xs ≢ 0
unfolding count
count-pos_of_head a [] h = cc
count-pos_of_head a (x ∷ xs) h = ground arith

pub is_empty-erase : (a : ℕ) (xs : List ℕ) → is_empty xs ≡ true → is_empty (erase a xs) ≡ true
unfolding erase
is_empty-erase a [] h = refl
is_empty-erase a (x ∷ xs) h = cc
