-- ===== src/Kernel/Invariant/Priority.antt =====
-- The choice of nd_schedule_core and the priorities of the ready threads.
use nerd_rtos.Common.{
  Bool, Bool-cases, Option, arith, false, if◌then◌else◌, inl, inr, ltb, none, refl, some, true, ℕ,
  ◌&&◌, ◌==◌, ◌≡◌, ◌≤◌,
}
use nerd_rtos.Kernel.Invariant.{IsWf}
use nerd_rtos.Kernel.Invariant.Highest.{get_highest-none, get_highest-ready}
use nerd_rtos.Kernel.Invariant.Scheduling.{PicksIf, schedule_pick_next-PicksIf, spend_yield}
use nerd_rtos.Kernel.Ready.{
  get_highest_priority_thread, thread_ready_add_head, thread_ready_add_tail,
}
use nerd_rtos.Kernel.Scheduler.{
  is_running, pick_between, pick_from, request_switch, requeue_current, schedule_core,
  schedule_pick_next, should_switch,
}
use nerd_rtos.Kernel.State.{Kernel, ready}

-- No ready thread has a higher priority than `n`.
abbrev Leads : Kernel → ℕ → Type 0
Leads k n = (t : ℕ) → (k.threads t).stat ≡ ready → (k.threads n).priority ≤ (k.threads t).priority

abbrev LeadsIf : ℕ → Option ℕ × Kernel → Type 0
LeadsIf c (none, k') = Leads k' c
LeadsIf c (some n, k') = Leads k' n

-- The thread that runs when the interrupts are on again.
abbrev pub to_run : Kernel → Option ℕ
to_run k = if k.switch_request then k.next_thread else k.current_thread

module _ (k : Kernel) (n c : ℕ) (leads : Leads k n) where
  requeue-Leads :
      (b : Bool)
      → (k.threads n).priority ≤ (k.threads c).priority
      → Leads (requeue_current k n c b) n
  unfolding requeue_current thread_ready_add_head thread_ready_add_tail
  requeue-Leads b le t r = ground (arith, leads t)

  leave-LeadsIf :
      (b : Bool)
      → (k.threads n).priority ≤ (k.threads c).priority
      → LeadsIf c
          (if is_running (k.threads c).stat then (some n, requeue_current k n c b) else (some n, k))
  leave-LeadsIf b le = elim (Bool-cases (is_running (k.threads c).stat)) [
    | inl e ↦ rw e (requeue-Leads b le)
    | inr e ↦ rw e leads
  ]

spend_yield-Leads : (k : Kernel) (n c : ℕ) → Leads k n → Leads (spend_yield k c) n
spend_yield-Leads k n c leads t r = ground (arith, leads t)

module _ (k : Kernel) (n c : ℕ) (leads : Leads k n) where
  stay-LeadsIf :
      ltb (k.threads n).priority (k.threads c).priority ≡ false
      → LeadsIf c (if is_running (k.threads c).stat then (none, k) else (some n, k))
  stay-LeadsIf lt = elim (Bool-cases (is_running (k.threads c).stat)) [
    | inl e ↦ rw e (λ t r. ground (arith, leads t))
    | inr e ↦ rw e leads
  ]

  pick_between-LeadsIf : LeadsIf c (pick_between k n c)
  unfolding pick_between should_switch
  pick_between-LeadsIf = elim (Bool-cases (ltb (k.threads n).priority (k.threads c).priority)) [
    | inl e ↦ rw e (leave-LeadsIf k n c leads false (ground arith))
    | inr e ↦
        rw e
          (elim (Bool-cases
            ((k.threads n).priority == (k.threads c).priority && (k.threads c).yield)) [
              | inl y ↦ rw y (
                  leave-LeadsIf (spend_yield k c) n c (spend_yield-Leads k n c leads) true
                    (ground arith))
              | inr y ↦ rw y (elim (Bool-cases (is_running (k.threads c).stat)) [
                | inl r ↦ rw r (λ t q. ground (arith, leads t))
                | inr r ↦ rw r (rw r leads)
              ])
            ])
  ]

pick_from-LeadsIf :
    (k : Kernel) (o r : Option ℕ) (c : ℕ)
    → r ≡ some c
    → ((n : ℕ) → o ≡ some n → Leads k n)
    → (o ≡ none → Leads k c)
    → LeadsIf c (pick_from k o r)
unfolding pick_from
pick_from-LeadsIf k none r c e h g = g refl
pick_from-LeadsIf k (some n) none c e h g = ground arith
pick_from-LeadsIf k (some n) (some d) c e h g =
    let same : d ≡ c = ground arith in rw same (pick_between-LeadsIf k n c (h n refl))

schedule_pick_next-LeadsIf :
    (k : Kernel) (c : ℕ) → k.current_thread ≡ some c → IsWf k → LeadsIf c (schedule_pick_next k)
unfolding schedule_pick_next
schedule_pick_next-LeadsIf k c e w =
    pick_from-LeadsIf k (get_highest_priority_thread k) k.current_thread c e
      (λ n h. (get_highest-ready w n h).1) (λ h t r. absurd (get_highest-none w h t r))

to_run-current :
    (k : Kernel) (c n : ℕ)
    → k.current_thread ≡ some c
    → k.switch_request ≡ false
    → to_run k ≡ some n
    → n ≡ c
to_run-current k c n e off h = ground arith

request_switch-Leads :
    (k : Kernel) (c : ℕ) (r : Option ℕ × Kernel)
    → k.current_thread ≡ some c
    → k.switch_request ≡ false
    → PicksIf k r
    → LeadsIf c r
    → (n : ℕ) → to_run (request_switch r) ≡ some n
    → Leads (request_switch r) n
request_switch-Leads k c (none, k') e off p l n h =
    let same : n ≡ c = to_run-current k' c n (simp p e) (simp p off) h in rw same l
request_switch-Leads k c (some m, k') e off p l n h = let same : n ≡ m = ground arith in rw same l

-- If the kernel is well formed, has a current thread and no switch is asked for, then after
-- nd_schedule_core the thread that is to run (the requested one, or the current one if no switch
-- is requested) has at least the priority of every ready thread.
pub schedule_core-leads :
    (k : Kernel) (c n : ℕ)
    → k.current_thread ≡ some c
    → k.switch_request ≡ false
    → IsWf k
    → to_run (schedule_core k) ≡ some n
    → (t : ℕ) → ((schedule_core k).threads t).stat ≡ ready
    → ((schedule_core k).threads n).priority ≤ ((schedule_core k).threads t).priority
unfolding schedule_core
schedule_core-leads k c n e off w h =
    request_switch-Leads k c (schedule_pick_next k) e off (schedule_pick_next-PicksIf k w)
      (schedule_pick_next-LeadsIf k c e w) n h
