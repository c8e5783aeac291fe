-- ===== src/Kernel/Waiting/Order.antt =====
-- The order in which threads wait on a list and leave it: nd_thread_wait_insert and
-- nd_thread_wakeup of kernel/nd_thread.c.
-- The threads of a list that have priority `p` or a higher one, and the others, in their order.
use nerd_rtos.Common.{
  Bool-cases, List, List-cases, [], ap, arith, count, false, fun_ext, if◌then◌else◌, inl, inr, leb,
  ltb, refl, some, subst, true, update, ℕ, ◌++◌, ◌<◌, ◌∙◌, ◌∷◌, ◌≡◌, ◌≢◌, ◌≤◌,
}
use nerd_rtos.Kernel.Invariant.{IsWf}
use nerd_rtos.Kernel.Links.{Link-cases, list_insert_before, list_remove, unlink}
use nerd_rtos.Kernel.Ready.{thread_ready_add_tail}
use nerd_rtos.Kernel.State.{Kernel, eok, ready, thread_priority_max}
use nerd_rtos.Kernel.Thread.{
  insert_by_priority, thread_wait_insert, thread_wakeup, wake, wake_first,
}

unfoldable pub not_lower : (ℕ → ℕ) → ℕ → List ℕ → List ℕ
not_lower prio p [] = []
not_lower prio p (x ∷ xs) = if leb (prio x) p then x ∷ not_lower prio p xs else not_lower prio p xs

unfoldable pub lower : (ℕ → ℕ) → ℕ → List ℕ → List ℕ
lower prio p [] = []
lower prio p (x ∷ xs) = if leb (prio x) p then lower prio p xs else x ∷ lower prio p xs

-- No thread of the list has a higher priority than `p`.
unfoldable pub AllFrom : (ℕ → ℕ) → ℕ → List ℕ → Type 0
AllFrom prio p [] = Unit {0}
AllFrom prio p (x ∷ xs) = (p ≤ prio x) × AllFrom prio p xs

-- The list goes from high priorities to low ones.
unfoldable pub IsSorted : (ℕ → ℕ) → List ℕ → Type 0
unfolding AllFrom
IsSorted prio [] = Unit {0}
IsSorted prio (x ∷ xs) = AllFrom prio (prio x) xs × IsSorted prio xs

pub AllFrom-weaken :
    (prio : ℕ → ℕ) (p q : ℕ) (xs : List ℕ) → p ≤ q → AllFrom prio q xs → AllFrom prio p xs
unfolding AllFrom
AllFrom-weaken prio p q [] le a = tt
AllFrom-weaken prio p q (x ∷ xs) le (b, a) = (omega arith, AllFrom-weaken prio p q xs le a)

pub AllFrom-at :
    (prio : ℕ → ℕ) (p : ℕ) (xs : List ℕ) (u : ℕ) → AllFrom prio p xs → count u xs ≢ 0 → p ≤ prio u
unfolding AllFrom count
AllFrom-at prio p [] u a h = absurd (h refl)
AllFrom-at prio p (x ∷ xs) u (b, a) h = ground (arith, AllFrom-at prio p xs u a)

pub AllFrom-insert :
    (prio : ℕ → ℕ) (p t : ℕ) (xs : List ℕ)
    → p ≤ prio t
    → AllFrom prio p xs
    → AllFrom prio p (insert_by_priority prio t xs)
unfolding AllFrom insert_by_priority
AllFrom-insert prio p t [] le a = (le, tt)
AllFrom-insert prio p t (x ∷ xs) le (b, a) = elim (Bool-cases (ltb (prio t) (prio x))) [
  | inl e ↦ rw e (le, (b, a))
  | inr e ↦ rw e (b, AllFrom-insert prio p t xs le a)
]

pub insert-IsSorted :
    (prio : ℕ → ℕ) (t : ℕ) (xs : List ℕ)
    → IsSorted prio xs
    → IsSorted prio (insert_by_priority prio t xs)
unfolding IsSorted AllFrom insert_by_priority
insert-IsSorted prio t [] s = (tt, tt)
insert-IsSorted prio t (x ∷ xs) (a, s) = elim (Bool-cases (ltb (prio t) (prio x))) [
  | inl e ↦ rw e ((ground arith, AllFrom-weaken prio (prio t) (prio x) xs (ground arith) a), (a, s))
  | inr e ↦ rw e (AllFrom-insert prio (prio x) t xs (ground arith) a, insert-IsSorted prio t xs s)
]

-- If all have a lower priority, the first part is empty and the second the whole list.
not_lower-of_above :
    (prio : ℕ → ℕ) (p q : ℕ) (xs : List ℕ)
    → p < q
    → AllFrom prio q xs
    → (not_lower prio p xs ≡ []) × (lower prio p xs ≡ xs)
unfolding not_lower lower AllFrom
not_lower-of_above prio p q [] lt a = (refl, refl)
not_lower-of_above prio p q (x ∷ xs) lt (b, a) =
    let (i, j) = not_lower-of_above prio p q xs lt a in
    let e : leb (prio x) p ≡ false = ground arith in rw e (i, ap (λ ys. x ∷ ys) j)

pub insert-splits :
    (prio : ℕ → ℕ) (t : ℕ) (xs : List ℕ)
    → IsSorted prio xs
    → insert_by_priority prio t xs ≡ not_lower prio (prio t) xs ++ t ∷ lower prio (prio t) xs
unfolding IsSorted not_lower lower insert_by_priority
insert-splits prio t [] s = refl
insert-splits prio t (x ∷ xs) (a, s) = elim (Bool-cases (ltb (prio t) (prio x))) [
  | inl e ↦
      let f : leb (prio x) (prio t) ≡ false = ground arith in
      let (i, j) = not_lower-of_above prio (prio t) (prio x) xs (ground arith) a in
      rw (e, f, i, j) refl
  | inr e ↦
      let f : leb (prio x) (prio t) ≡ true = ground arith in
      rw (e, f) (ap (λ ys. x ∷ ys) (insert-splits prio t xs s))
]

update-same : (f : ℕ → List ℕ) (h : ℕ) (xs : List ℕ) → update f h xs h ≡ xs
update-same f h xs = ground arith

abbrev priority_of : Kernel → ℕ → ℕ
priority_of k x = (k.threads x).priority

same_priorities : (k : Kernel) (h t : ℕ) → priority_of k ≡ priority_of (thread_wait_insert k h t)
unfolding thread_wait_insert
same_priorities k h t = fun_ext (λ x. ground arith)

insert-lists :
    (k : Kernel) (h t : ℕ)
    → (thread_wait_insert k h t).lists h
      ≡ insert_by_priority (λ x. (k.threads x).priority) t (k.lists h)
unfolding thread_wait_insert
insert-lists k h t = update-same k.lists h _

-- If a waiting list goes from high priorities to low ones, nd_thread_wait_insert puts the thread
-- behind all threads of its own or a higher priority and before all others, keeping their order,
-- and the list still goes from high priorities to low ones.
pub thread_wait_insert-ordered :
    (k : Kernel) (h t : ℕ)
    → IsSorted (λ x. (k.threads x).priority) (k.lists h)
    → let p = (k.threads t).priority in
      ((thread_wait_insert k h t).lists h
        ≡ not_lower (λ x. (k.threads x).priority) p (k.lists h)
          ++ t ∷ lower (λ x. (k.threads x).priority) p (k.lists h))
      × IsSorted
          (λ x. ((thread_wait_insert k h t).threads x).priority)
          ((thread_wait_insert k h t).lists h)
thread_wait_insert-ordered k h t s =
    let prio = λ (x : ℕ). (k.threads x).priority in
    (
      insert-lists k h t ∙ insert-splits prio t (k.lists h) s,
      subst (λ f. IsSorted f ((thread_wait_insert k h t).lists h)) (same_priorities k h t)
          (rw (insert-lists k h t) (insert-IsSorted prio t (k.lists h) s)),
    )

-- The first of a sorted list has the highest priority.
highest_of_head :
    (prio : ℕ → ℕ) (x : ℕ) (xs : List ℕ)
    → IsSorted prio (x ∷ xs)
    → (u : ℕ) → count u (x ∷ xs) ≢ 0
    → prio x ≤ prio u
unfolding IsSorted count
highest_of_head prio x xs (a, s) u h = ground (arith, AllFrom-at prio (prio x) xs u a)

pub wake-ready :
    (k : Kernel) (t : ℕ)
    → (((wake k t).threads t).stat ≡ ready) × (((wake k t).threads t).error ≡ eok)
unfolding wake thread_ready_add_tail list_insert_before list_remove unlink
wake-ready k t = elim (Link-cases (k.threads t).qnode) [
  | inl e ↦ rw e (ground arith)
  | inr (inl e) ↦ rw e (ground arith)
  | inr (inr (h, e)) ↦ rw e (ground arith)
]

-- If, in a well-formed kernel, a waiting list goes from high priorities to low ones, the thread
-- that nd_thread_wakeup takes from it is ready afterwards with the error ND_EOK, and no thread
-- on the list had a higher priority.
pub thread_wakeup-highest :
    (k : Kernel) (h t : ℕ)
    → thread_priority_max ≤ h
    → IsWf k
    → IsSorted (λ x. (k.threads x).priority) (k.lists h)
    → (thread_wakeup k h).0 ≡ some t
    → (((thread_wakeup k h).1.threads t).stat ≡ ready)
      × (((thread_wakeup k h).1.threads t).error ≡ eok)
      × ((u : ℕ) → count u (k.lists h) ≢ 0 → (k.threads t).priority ≤ (k.threads u).priority)
unfolding thread_wakeup wake_first
thread_wakeup-highest k h t above w s e = elim (List-cases (k.lists h)) [
  | inl z ↦ absurd (ground arith)
  | inr (x, xs, c) ↦
      let same : t ≡ x = ground arith in
      simp (c, same)
        (
          (wake-ready k x).0,
          (wake-ready k x).1,
          highest_of_head (λ y. (k.threads y).priority) x xs (rw⁻¹ c s),
        )
]
