-- ===== src/Timer/Order.antt =====
-- The place of a timer in the tree: the descent of timer_node_insert in kernel/nd_timer.c.
-- All of the list have `p` or less.
use nerd_rtos.Common.{
  Bool-cases, List, [], ap, arith, false, inl, inr, ltb, refl, sym, true, ℕ, ◌++◌, ◌∙◌, ◌∷◌, ◌≡◌,
  ◌≤◌,
}
use nerd_rtos.Kernel.Thread.{insert_by_priority}
use nerd_rtos.Kernel.Waiting.Order.{AllFrom, IsSorted}
use nerd_rtos.Timer.{Tree, branch, descend, in_order, leaf}

AllTo : (ℕ → ℕ) → ℕ → List ℕ → Type 0
AllTo e p [] = Unit {0}
AllTo e p (x ∷ xs) = (e x ≤ p) × AllTo e p xs

AllTo-weaken : (e : ℕ → ℕ) (p q : ℕ) (xs : List ℕ) → p ≤ q → AllTo e p xs → AllTo e q xs
unfolding AllTo
AllTo-weaken e p q [] le a = tt
AllTo-weaken e p q (x ∷ xs) le (b, a) = (omega arith, AllTo-weaken e p q xs le a)

AllFrom-middle : (e : ℕ → ℕ) (p x : ℕ) (xs ys : List ℕ) → AllFrom e p (xs ++ x ∷ ys) → p ≤ e x
unfolding AllFrom
AllFrom-middle e p x [] ys a = a.0
AllFrom-middle e p x (z ∷ xs) ys a = AllFrom-middle e p x xs ys a.1

-- What a sorted list is around one of its elements.
IsSorted-left : (e : ℕ → ℕ) (x : ℕ) (xs ys : List ℕ) → IsSorted e (xs ++ x ∷ ys) → AllTo e (e x) xs
unfolding AllTo IsSorted
IsSorted-left e x [] ys s = tt
IsSorted-left e x (z ∷ xs) ys (a, s) = (AllFrom-middle e (e z) x xs ys a, IsSorted-left e x xs ys s)

IsSorted-right : (e : ℕ → ℕ) (x : ℕ) (xs ys : List ℕ) → IsSorted e (xs ++ x ∷ ys) → IsSorted e ys
unfolding IsSorted
IsSorted-right e x [] ys (a, s) = s
IsSorted-right e x (z ∷ xs) ys (a, s) = IsSorted-right e x xs ys s

AllFrom-append_left : (e : ℕ → ℕ) (p : ℕ) (xs ys : List ℕ) → AllFrom e p (xs ++ ys) → AllFrom e p xs
unfolding AllFrom
AllFrom-append_left e p [] ys a = tt
AllFrom-append_left e p (x ∷ xs) ys (b, a) = (b, AllFrom-append_left e p xs ys a)

IsSorted-before : (e : ℕ → ℕ) (xs ys : List ℕ) → IsSorted e (xs ++ ys) → IsSorted e xs
unfolding IsSorted
IsSorted-before e [] ys s = tt
IsSorted-before e (x ∷ xs) ys (a, s) =
    (AllFrom-append_left e (e x) xs ys a, IsSorted-before e xs ys s)

insert-left :
    (e : ℕ → ℕ) (t x : ℕ) (xs ys : List ℕ)
    → ltb (e t) (e x) ≡ true
    → insert_by_priority e t (xs ++ x ∷ ys) ≡ insert_by_priority e t xs ++ x ∷ ys
unfolding insert_by_priority
insert-left e t x [] ys lt = rw lt refl
insert-left e t x (z ∷ xs) ys lt = elim (Bool-cases (ltb (e t) (e z))) [
  | inl b ↦ rw b refl
  | inr b ↦ rw b (ap (λ (l : List ℕ). z ∷ l) (insert-left e t x xs ys lt))
]

insert-right :
    (e : ℕ → ℕ) (t x : ℕ) (xs ys : List ℕ)
    → ltb (e t) (e x) ≡ false
    → AllTo e (e t) xs
    → insert_by_priority e t (xs ++ x ∷ ys) ≡ xs ++ x ∷ insert_by_priority e t ys
unfolding insert_by_priority AllTo
insert-right e t x [] ys lt a = rw lt refl
insert-right e t x (z ∷ xs) ys lt (b, a) =
    let f : ltb (e t) (e z) ≡ false = ground arith in
    rw f (ap (λ (l : List ℕ). z ∷ l) (insert-right e t x xs ys lt a))

-- In a tree that goes from early to late times of expiry, the descent of timer_node_insert puts
-- a timer where a walk along the timers in their order would: behind all that expire no later,
-- before the first that expires later.
pub descend-in_order :
    (e : ℕ → ℕ) (t : ℕ) (tree : Tree)
    → IsSorted e (in_order tree)
    → in_order (descend e t tree) ≡ insert_by_priority e t (in_order tree)
unfolding descend in_order insert_by_priority
descend-in_order e t leaf s = refl
descend-in_order e t (branch l x r) s = elim (Bool-cases (ltb (e t) (e x))) [
  | inl b ↦ rw b (
      ap (λ (xs : List ℕ). xs ++ x ∷ in_order r)
        (descend-in_order e t l (IsSorted-before e (in_order l) _ s))
      ∙ sym (insert-left e t x (in_order l) (in_order r) b))
  | inr b ↦
      let near =
        AllTo-weaken e (e x) (e t) (in_order l) (ground arith)
          (IsSorted-left e x (in_order l) (in_order r) s) in
      rw b (
        ap (λ (xs : List ℕ). in_order l ++ x ∷ xs)
          (descend-in_order e t r (IsSorted-right e x (in_order l) (in_order r) s))
        ∙ sym (insert-right e t x (in_order l) (in_order r) b near))
]
