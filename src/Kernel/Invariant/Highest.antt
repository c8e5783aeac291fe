-- ===== src/Kernel/Invariant/Highest.antt =====
-- The bitmap search of nd_ffs, and the thread that it leads the scheduler to.
use nerd_rtos.Common.{
  Bool, Bool-cases, List, [], ap, arith, count, count-nil, count-pos_of_head, false, head?, inl,
  inr, is_empty, none, not, refl, some, suc, true, zero, ℕ, ℕ-cases, ◌+◌, ◌<◌, ◌∙◌, ◌∷◌, ◌≡◌, ◌≢◌,
  ◌≤◌,
}
use nerd_rtos.Kernel.Invariant.{IsFit, IsWf}
use nerd_rtos.Kernel.Ready.{ffs, ffs_from, get_highest_priority_thread}
use nerd_rtos.Kernel.State.{Kernel, Thread, on, ready, thread_priority_max}

-- `p` is the lowest index from `i` on whose bit is set.
abbrev pub Lowest : ℕ → (ℕ → Bool) → ℕ → Type 0
Lowest i w p = (i ≤ p) × (w p ≡ true) × ((q : ℕ) → i ≤ q → q < p → w q ≡ false)

ffs_from-Lowest :
    (n i : ℕ) (w : ℕ → Bool) (p : ℕ) → ffs_from n i w ≡ suc p → Lowest i w p × (p < i + n)
unfolding ffs_from
ffs_from-Lowest zero i w p e = absurd (omega arith)
ffs_from-Lowest (suc n) i w p e = elim (Bool-cases (w i)) [
  | inl set ↦
      let at : p ≡ i = ground arith in
      rw at ((omega arith, set, λ q ge lt. absurd (omega arith)), omega arith)
  | inr clear ↦
      let (low, below) = ffs_from-Lowest n (i + 1) w p (ground arith) in
      ((omega (arith, low.0), low.1, λ q ge lt. ground (arith, low.2 q)), omega arith)
]

ffs_from-zero :
    (n i : ℕ) (w : ℕ → Bool) → ffs_from n i w ≡ 0 → (q : ℕ) → i ≤ q → q < i + n → w q ≡ false
unfolding ffs_from
ffs_from-zero zero i w e q ge lt = absurd (omega arith)
ffs_from-zero (suc n) i w e q ge lt = elim (Bool-cases (w i)) [
  | inl set ↦ absurd (ground arith)
  | inr clear ↦ ground (arith, ffs_from-zero n (i + 1) w (ground arith) q)
]

-- If nd_ffs gives one more than p, then p is below 32, bit p is set, and no lower bit is set.
pub ffs-Lowest : (w : ℕ → Bool) (p : ℕ) → ffs w ≡ suc p → Lowest 0 w p × (p < thread_priority_max)
unfolding ffs
ffs-Lowest w p e = ffs_from-Lowest 32 0 w p e

-- It gives zero only if no bit is set.
pub ffs-zero : (w : ℕ → Bool) → ffs w ≡ 0 → (q : ℕ) → q < thread_priority_max → w q ≡ false
unfolding ffs
ffs-zero w e q lt = ffs_from-zero 32 0 w e q (omega arith) (omega arith)

-- A thread on a ready list is ready, at the priority of that list.
pub ready_of_on :
    (th : Thread) (p : ℕ)
    → th.qnode ≡ on p
    → p < thread_priority_max
    → IsFit th
    → (th.stat ≡ ready) × (th.priority ≡ p)
ready_of_on th p at lt f = ground (arith, f.stat_fits)

is_empty-of_count : (t : ℕ) (xs : List ℕ) → count t xs ≢ 0 → is_empty xs ≡ false
is_empty-of_count t [] h = absurd (h (count-nil t))
is_empty-of_count t (x ∷ xs) h = refl

module _ {k : Kernel} (w : IsWf k) where
  pub head_on : (t h : ℕ) → head? (k.lists h) ≡ some t → (k.threads t).qnode ≡ on h
  head_on t h e = ground (arith, w.rings.linked t h, count-pos_of_head t (k.lists h))

  -- The bit of a ready thread's priority is set.
  bit_of_ready :
      (t : ℕ) → (k.threads t).stat ≡ ready → k.thread_ready_bit (k.threads t).priority ≡ true
  bit_of_ready t r =
      let f = w.fit t in
      let there : count t (k.lists (k.threads t).priority) ≢ 0 =
        ground (arith, f.stat_fits, w.rings.linked t (k.threads t).priority) in
      w.rings.bits (k.threads t).priority f.priority_bound
      ∙ ap not (is_empty-of_count t (k.lists (k.threads t).priority) there)

  highest_at :
      (p n : ℕ)
      → ffs k.thread_ready_bit ≡ suc p
      → head? (k.lists p) ≡ some n
      → ((k.threads n).stat ≡ ready)
        × ((t : ℕ) → (k.threads t).stat ≡ ready → (k.threads n).priority ≤ (k.threads t).priority)
  highest_at p n e h =
      let (low, lt) = ffs-Lowest k.thread_ready_bit p e in
      let (r, same) = ready_of_on (k.threads n) p (head_on n p h) lt (w.fit n) in
      (r, λ t rt. ground (arith, bit_of_ready t rt, low.2 (k.threads t).priority))

  -- In a well-formed kernel, the thread that nd_get_highest_priority_thread gives is ready, and
  -- no ready thread has a higher priority.
  pub get_highest-ready :
      (n : ℕ)
      → get_highest_priority_thread k ≡ some n
      → ((k.threads n).stat ≡ ready)
        × ((t : ℕ) → (k.threads t).stat ≡ ready → (k.threads n).priority ≤ (k.threads t).priority)
  unfolding get_highest_priority_thread
  get_highest-ready n e = elim (ℕ-cases (ffs k.thread_ready_bit)) [
    | inl z ↦ absurd (ground arith)
    | inr (p, s) ↦ highest_at p n s (ground arith)
  ]

  -- There is none only if no thread is ready.
  pub get_highest-none : get_highest_priority_thread k ≡ none → (t : ℕ) → (k.threads t).stat ≢ ready
  unfolding get_highest_priority_thread
  get_highest-none e t r = elim (ℕ-cases (ffs k.thread_ready_bit)) [
    | inl z ↦ ground (
      arith,
      bit_of_ready t r,
      ffs-zero k.thread_ready_bit z (k.threads t).priority,
      (w.fit t).priority_bound,
    )
    | inr (p, s) ↦
        let (low, lt) = ffs-Lowest k.thread_ready_bit p s in
        ground (arith, low.1, w.rings.bits p lt)
  ]
