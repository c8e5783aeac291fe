-- ===== src/Ipc/Mutex/Inherit.antt =====
-- Priority inheritance of kernel/nd_mutex.c: what the owner of a mutex inherits, and what its
-- priority is when it gives a mutex back.
-- `p` is the highest of the priority `i` and those of the mutexes of a list.
use nerd_rtos.Common.{
  Bool-cases, List, [], arith, count, if◌then◌else◌, inl, inr, ltb, refl, ℕ, ◌∷◌, ◌≡◌, ◌≢◌, ◌≤◌,
  ◌⊎◌,
}
use nerd_rtos.Ipc.Mutex.{inherited}
use nerd_rtos.Kernel.State.{Kernel, Mutex}

pub record IsHighest (mutexes : ℕ → Mutex) (ms : List ℕ) (i p : ℕ) : Type 0 where
  pub own : p ≤ i
  pub each : (m : ℕ) → count m ms ≢ 0 → p ≤ (mutexes m).priority
  pub attained : (p ≡ i) ⊎ ((m : ℕ) × (count m ms ≢ 0) × (p ≡ (mutexes m).priority))

pub inherited-IsHighest :
    (mutexes : ℕ → Mutex) (ms : List ℕ) (i : ℕ) → IsHighest mutexes ms i (inherited mutexes ms i)
unfolding inherited count
inherited-IsHighest mutexes [] i = record {
  own = omega arith;
  each = λ m h. absurd (h refl);
  attained = inl refl;
}
inherited-IsHighest mutexes (x ∷ xs) i =
    let j = if ltb (mutexes x).priority i then (mutexes x).priority else i in
    let r = inherited-IsHighest mutexes xs j in
    record {
      own = ground (arith, r.own);
      each = λ m h. ground (arith, r.own, r.each m);
      attained = elim r.attained [
        | inl e ↦ elim (Bool-cases (ltb (mutexes x).priority i)) [
          | inl l ↦ inr (x, ground arith, ground arith)
          | inr l ↦ inl (ground arith)
        ]
        | inr (m, n, e) ↦ inr (m, ground arith, e)
      ];
    }

-- The priority that the owner `o` has after thread `c` has asked for its mutex.
abbrev pub raised : Kernel → ℕ → ℕ → ℕ
raised k c o =
    if ltb (k.threads c).priority (k.threads o).priority
    then (k.threads c).priority
    else (k.threads o).priority

-- The priority that the mutex records after thread `c` has asked its owner `o` for it.
abbrev pub recorded : Kernel → ℕ → ℕ → ℕ → ℕ
recorded k c m o =
    if ltb (k.threads c).priority (k.threads o).priority
    then (k.threads c).priority
    else (k.mutexes m).priority
