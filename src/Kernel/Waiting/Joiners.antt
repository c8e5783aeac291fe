-- ===== src/Kernel/Waiting/Joiners.antt =====
-- The threads that wait for another to end: nd_thread_halt of kernel/nd_thread.c.
use nerd_rtos.Common.{
  Bool, Bool-cases, List-cases, [], ap, arith, count, false, head?, inl, inr, is_at, length, refl,
  subst, suc, sym, zero, ℕ, ◌==◌, ◌∙◌, ◌≡◌, ◌≢◌, ◌≤◌,
}
use nerd_rtos.Kernel.Invariant.{IsWf, sits}
use nerd_rtos.Kernel.Invariant.Halt.{halted-IsWf, halted-other, thread_halt-IsWf}
use nerd_rtos.Kernel.Invariant.Highest.{head_on}
use nerd_rtos.Kernel.Invariant.Suspend.{ready_fit}
use nerd_rtos.Kernel.Invariant.Waits.{wake-IsWf}
use nerd_rtos.Kernel.Links.{list_insert_after, list_insert_before, list_remove, unlink}
use nerd_rtos.Kernel.Ready.{thread_ready_add_head, thread_ready_add_tail}
use nerd_rtos.Kernel.Scheduler.{requeue_current, scheduler}
use nerd_rtos.Kernel.State.{Kernel, Thread, eok, ready, thread_priority_max}
use nerd_rtos.Kernel.Thread.{
  halt_dead, halt_unlink, is_dead, thread_halt, thread_wakeup, wake, wake_all, wake_first,
}
use nerd_rtos.Kernel.Waiting.Kept.{scheduler-Holds, scheduler-lists, wake-takes_first}
use nerd_rtos.Kernel.Waiting.Order.{wake-ready}

-- The thread `u` is ready, and its wait did not time out.
abbrev pub IsWoken : Kernel → ℕ → Type 0
IsWoken k u = ((k.threads u).stat ≡ ready) × ((k.threads u).error ≡ eok)

wake-other : (k : Kernel) (t u : ℕ) → u ≢ t → IsWoken k u → IsWoken (wake k t) u
unfolding wake list_remove unlink thread_ready_add_tail list_insert_before
wake-other k t u other (r, e) = (ground (arith, other, r), ground (arith, other, e))

wake-keeps_IsWoken : (k : Kernel) (t u : ℕ) → IsWoken k u → IsWoken (wake k t) u
wake-keeps_IsWoken k t u i = elim (Bool-cases (t == u)) [
  | inl e ↦ subst (λ x. IsWoken (wake k t) x) (ground (arith, e)) (wake-ready k t)
  | inr e ↦ wake-other k t u (ground (arith, e)) i
]

wake_all-keeps_IsWoken : (n : ℕ) (k : Kernel) (h u : ℕ) → IsWoken k u → IsWoken (wake_all n k h) u
unfolding wake_all thread_wakeup wake_first
wake_all-keeps_IsWoken zero k h u i = i
wake_all-keeps_IsWoken (suc n) k h u i = elim (List-cases (k.lists h)) [
  | inl e ↦ simp e i
  | inr (x, xs, e) ↦ simp e (wake_all-keeps_IsWoken n (wake k x) h u (wake-keeps_IsWoken k x u i))
]

-- With as many rounds as the list is long, the loop empties it and wakes every thread on it.
wake_all-IsWoken :
    (n : ℕ) (k : Kernel) (h : ℕ)
    → thread_priority_max ≤ h
    → IsWf k
    → length (k.lists h) ≤ n
    → ((wake_all n k h).lists h ≡ [])
      × ((u : ℕ) → count u (k.lists h) ≢ 0 → IsWoken (wake_all n k h) u)
unfolding wake_all thread_wakeup wake_first count
wake_all-IsWoken zero k h above w le = elim (List-cases (k.lists h)) [
  | inl e ↦ (e, λ u waits. absurd (waits (ap (count u) e)))
  | inr (x, xs, e) ↦ absurd (omega (arith, le, ap length e))
]
wake_all-IsWoken (suc n) k h above w le = elim (List-cases (k.lists h)) [
  | inl e ↦ simp e (refl, λ u waits. absurd (waits refl))
  | inr (x, xs, e) ↦
      let e' = wake-takes_first k h x xs above w e in
      let w' = wake-IsWf k x h (head_on w x h (ap head? e)) above w in
      let (empty, rest) =
        wake_all-IsWoken n (wake k x) h above w' (omega (arith, le, ap length e, ap length e')) in
      simp e (
        empty,
        λ u waits. elim (Bool-cases (x == u)) [
          | inl same ↦
              wake_all-keeps_IsWoken n (wake k x) h u
                (subst (λ y. IsWoken (wake k x) y) (ground (arith, same)) (wake-ready k x))
          | inr ne ↦ rest u (subst (λ l. count u l ≢ 0) (sym e') (ground (arith, waits, ne)))
        ],
      )
]

requeue_current-IsWoken :
    (u : ℕ) (k : Kernel) (n c : ℕ) (b : Bool) → IsWoken k u → IsWoken (requeue_current k n c b) u
unfolding requeue_current thread_ready_add_head thread_ready_add_tail list_insert_before
    list_insert_after
requeue_current-IsWoken u k n c b (r, e) = (ground (arith, r), ground (arith, e))

scheduler-IsWoken : (u : ℕ) (k : Kernel) → IsWoken k u → IsWoken (scheduler k) u
scheduler-IsWoken u =
    scheduler-Holds (λ k. IsWoken k u) (requeue_current-IsWoken u)
      (λ k c i. (ground (arith, i.0), ground (arith, i.1))) (λ k n i. i) (λ k i. i)

-- A ready thread is on the ready list of its priority, once.
ready-queued :
    (k : Kernel) (u : ℕ)
    → IsWf k
    → (k.threads u).stat ≡ ready
    → count u (k.lists (k.threads u).priority) ≡ 1
ready-queued k u w r =
    let at = (ready_fit (k.threads u) r (w.fit u)).0 in
    w.rings.linked u (k.threads u).priority
    ∙ ap (λ l. sits l (k.threads u).priority) at
    ∙ ground arith

-- A thread that waited for `t` to end waits no more: it is ready, on the ready list of its
-- priority, and its nd_thread_join is to return ND_EOK.
abbrev pub IsReleasedBy : Kernel → ℕ → Type 0
IsReleasedBy k u = IsWoken k u × (count u (k.lists (k.threads u).priority) ≡ 1)

module _ (k : Kernel) (t : ℕ) (quiet : k.switch_request ≡ false)
    (alive : is_dead (k.threads t).stat ≡ false) (created : count t k.thread_list ≢ 0)
    (w : IsWf k) where
  abbrev Woken : Kernel → Type 0
  Woken k' =
      (k'.lists (k.threads t).join_list ≡ [])
      × ((u : ℕ) → count u (k.lists (k.threads t).join_list) ≢ 0 → u ≢ t → IsWoken k' u)

  halted-Woken :
      let l = halt_dead (halt_unlink (k.threads t).stat k t) t in
      Woken (wake_all (length (l.lists (k.threads t).join_list)) l (k.threads t).join_list)
  halted-Woken =
      let h = (k.threads t).join_list in
      let l = halt_dead (halt_unlink (k.threads t).stat k t) t in
      let w' = halted-IsWf k t quiet created w in
      let (empty, woken) =
        wake_all-IsWoken (length (l.lists h)) l h (w.fit t).join_head w' (omega arith) in
      (
        empty,
        λ u waits other.
            let same : count u (l.lists h) ≡ count u (k.lists h) =
              w'.rings.linked u h
              ∙ ap (λ (th : Thread). sits th.qnode h) (halted-other k t created w u other)
              ∙ sym (w.rings.linked u h) in
            woken u (omega (arith, waits, same)),
      )

  halt-Woken : Woken (thread_halt k t)
  unfolding thread_halt
  halt-Woken =
      let h = (k.threads t).join_list in
      let l = halt_dead (halt_unlink (k.threads t).stat k t) t in
      let after = wake_all (length (l.lists h)) l h in
      let (empty, woken) = halted-Woken in
      elim (Bool-cases (is_at k.current_thread t)) [
        | inl c ↦
            rw (alive, c)
              (
                scheduler-lists h (w.fit t).join_head after ∙ empty,
                λ u waits other. scheduler-IsWoken u after (woken u waits other),
              )
        | inr c ↦ rw (alive, c) (empty, woken)
      ]

  -- In a well-formed kernel in which no switch is asked for, after nd_thread_halt of a thread
  -- that is on the list of threads and not dead its join list is empty, with as many rounds of
  -- the loop as the list was long, and every other thread that stood on it is ready, stands once
  -- on the ready list of its priority, and has the error ND_EOK, which its nd_thread_join is to
  -- return.
  pub thread_halt-joiners :
      let k' = thread_halt k t in
      let h = (k.threads t).join_list in
      (k'.lists h ≡ []) × ((u : ℕ) → count u (k.lists h) ≢ 0 → u ≢ t → IsReleasedBy k' u)
  thread_halt-joiners =
      let (empty, woken) = halt-Woken in
      let w' = thread_halt-IsWf k t quiet (inr created) w in
      (
        empty,
        λ u waits other.
            let i = woken u waits other in (i, ready-queued (thread_halt k t) u w' i.0),
      )
