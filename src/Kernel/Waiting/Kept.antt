-- ===== src/Kernel/Waiting/Kept.antt =====
-- What nd_scheduler and nd_thread_wakeup do to lists of waiting threads, mutexes and priorities.
use nerd_rtos.Common.{
  Bool, Bool-cases, List, Option, ap, arith, count, erase, erase-of_count_zero, false, head?,
  if◌then◌else◌, inl, inr, ltb, none, refl, some, true, ℕ, ◌&&◌, ◌==◌, ◌∙◌, ◌∷◌, ◌≡◌, ◌≤◌,
}
use nerd_rtos.Kernel.Invariant.{IsWf}
use nerd_rtos.Kernel.Invariant.Highest.{head_on}
use nerd_rtos.Kernel.Invariant.Scheduling.{spend_yield}
use nerd_rtos.Kernel.Links.{list_insert_after, list_insert_before, list_remove, unlink}
use nerd_rtos.Kernel.Ready.{
  get_highest_priority_thread, thread_ready_add_head, thread_ready_add_tail,
}
use nerd_rtos.Kernel.Scheduler.{
  is_running, pick_between, pick_from, request_switch, requeue_current, schedule_core,
  schedule_pick_next, scheduler, should_switch,
}
use nerd_rtos.Kernel.State.{Kernel, on, thread_priority_max}
use nerd_rtos.Kernel.Thread.{thread_wakeup, wake, wake_first}

ready_add_tail-lists :
    (k : Kernel) (t h : ℕ)
    → thread_priority_max ≤ h
    → (thread_ready_add_tail k t).lists h ≡ k.lists h
unfolding thread_ready_add_tail list_insert_before
ready_add_tail-lists k t h above = ground arith

ready_add_head-lists :
    (k : Kernel) (t h : ℕ)
    → thread_priority_max ≤ h
    → (thread_ready_add_head k t).lists h ≡ k.lists h
unfolding thread_ready_add_head list_insert_after
ready_add_head-lists k t h above = ground arith

-- What a call of the scheduler keeps, where its four writes keep it.
module _ (P : Kernel → Type 0)
    (requeue_holds : (k : Kernel) (n c : ℕ) (b : Bool) → P k → P (requeue_current k n c b))
    (spend_holds : (k : Kernel) (c : ℕ) → P k → P (spend_yield k c))
    (request_holds : (k : Kernel) (n : Option ℕ)
      → P k
      → P (record k { next_thread = n; switch_request = true }))
    (try_holds : (k : Kernel) → P k → P (record k { interrupt_try_switch = true })) where
  abbrev Holds : Option ℕ × Kernel → Type 0
  Holds r = P r.1

  leave-Holds :
      (l : Kernel) (n c : ℕ) (b : Bool)
      → P l
      → Holds
          (if is_running (l.threads c).stat then (some n, requeue_current l n c b) else (some n, l))
  leave-Holds l n c b p = elim (Bool-cases (is_running (l.threads c).stat)) [
    | inl r ↦ rw r (requeue_holds l n c b p)
    | inr r ↦ rw r p
  ]

  pick_between-Holds : (k : Kernel) (n c : ℕ) → P k → Holds (pick_between k n c)
  unfolding pick_between should_switch
  pick_between-Holds k n c p =
      elim (Bool-cases (ltb (k.threads n).priority (k.threads c).priority)) [
        | inl e ↦ rw e (leave-Holds k n c false p)
        | inr e ↦
            rw e
              (elim (Bool-cases
                ((k.threads n).priority == (k.threads c).priority && (k.threads c).yield)) [
                  | inl y ↦ rw y (leave-Holds (spend_yield k c) n c true (spend_holds k c p))
                  | inr y ↦ rw y (elim (Bool-cases (is_running (k.threads c).stat)) [
                    | inl r ↦ rw r p
                    | inr r ↦ rw r (rw r p)
                  ])
                ])
      ]

  pick_from-Holds : (k : Kernel) (o c : Option ℕ) → P k → Holds (pick_from k o c)
  unfolding pick_from
  pick_from-Holds k none c p = p
  pick_from-Holds k (some n) none p = p
  pick_from-Holds k (some n) (some c) p = pick_between-Holds k n c p

  request_switch-Holds : (r : Option ℕ × Kernel) → Holds r → P (request_switch r)
  request_switch-Holds (none, k) p = p
  request_switch-Holds (some n, k) p = request_holds k (some n) p

  pub scheduler-Holds : (k : Kernel) → P k → P (scheduler k)
  unfolding scheduler schedule_core schedule_pick_next
  scheduler-Holds k p = elim (Bool-cases (ltb 0 k.interrupt_nest_count)) [
    | inl e ↦ rw e (try_holds k p)
    | inr e ↦ rw e (
        request_switch-Holds (pick_from k (get_highest_priority_thread k) k.current_thread)
          (pick_from-Holds k (get_highest_priority_thread k) k.current_thread p))
  ]

-- What it does not change.
pub scheduler-keeps :
    {A : Type 0} (obs : Kernel → A)
    → ((k : Kernel) (n c : ℕ) (b : Bool) → obs (requeue_current k n c b) ≡ obs k)
    → ((k : Kernel) (c : ℕ) → obs (spend_yield k c) ≡ obs k)
    → ((k : Kernel) (n : Option ℕ)
        → obs (record k { next_thread = n; switch_request = true }) ≡ obs k)
    → ((k : Kernel) → obs (record k { interrupt_try_switch = true }) ≡ obs k)
    → (k : Kernel) → obs (scheduler k) ≡ obs k
scheduler-keeps obs requeue spend request try k =
    scheduler-Holds (λ l. obs l ≡ obs k) (λ l n c b e. requeue l n c b ∙ e) (λ l c e. spend l c ∙ e)
      (λ l n e. request l n ∙ e) (λ l e. try l ∙ e) k refl

-- A thread's record, less what the scheduler writes in it.
requeue_current-owned :
    (k : Kernel) (n c : ℕ) (b : Bool) (u : ℕ)
    → (((requeue_current k n c b).threads u).priority ≡ (k.threads u).priority)
      × (((requeue_current k n c b).threads u).taken_list ≡ (k.threads u).taken_list)
unfolding requeue_current thread_ready_add_head thread_ready_add_tail list_insert_before
    list_insert_after
requeue_current-owned k n c b u = (ground arith, ground arith)

requeue_current-mutexes :
    (k : Kernel) (n c : ℕ) (b : Bool) → (requeue_current k n c b).mutexes ≡ k.mutexes
unfolding requeue_current thread_ready_add_head thread_ready_add_tail list_insert_before
    list_insert_after
requeue_current-mutexes k n c b = ground arith

pub scheduler-mutexes : (k : Kernel) → (scheduler k).mutexes ≡ k.mutexes
scheduler-mutexes =
    scheduler-keeps (λ k. k.mutexes) requeue_current-mutexes (λ k c. refl) (λ k n. refl) (λ k. refl)

pub scheduler-priority :
    (u : ℕ) (k : Kernel) → ((scheduler k).threads u).priority ≡ (k.threads u).priority
scheduler-priority u =
    scheduler-keeps (λ k. (k.threads u).priority) (λ k n c b. (requeue_current-owned k n c b u).0)
      (λ k c. ground arith) (λ k n. refl) (λ k. refl)

pub scheduler-taken_list :
    (u : ℕ) (k : Kernel) → ((scheduler k).threads u).taken_list ≡ (k.threads u).taken_list
scheduler-taken_list u =
    scheduler-keeps (λ k. (k.threads u).taken_list) (λ k n c b. (requeue_current-owned k n c b u).1)
      (λ k c. ground arith) (λ k n. refl) (λ k. refl)

module _ (h : ℕ) (above : thread_priority_max ≤ h) where
  requeue_current-lists :
      (k : Kernel) (n c : ℕ) (b : Bool) → (requeue_current k n c b).lists h ≡ k.lists h
  unfolding requeue_current
  requeue_current-lists k n c b =
      elim (Bool-cases (ltb (k.threads n).priority (k.threads c).priority)) [
        | inl e ↦ rw e (ready_add_head-lists _ c h above)
        | inr e ↦ rw e (ready_add_tail-lists _ c h above)
      ]

  pub scheduler-lists : (k : Kernel) → (scheduler k).lists h ≡ k.lists h
  scheduler-lists =
      scheduler-keeps (λ k. k.lists h) requeue_current-lists (λ k c. refl) (λ k n. refl) (λ k. refl)

  wake-lists :
      (k : Kernel) (t : ℕ) → (k.threads t).qnode ≡ on h → (wake k t).lists h ≡ erase t (k.lists h)
  unfolding wake list_remove unlink
  wake-lists k t e = ready_add_tail-lists _ t h above ∙ (rw (e) (ground arith))

-- An address that stands on no list.
pub erase-head : (t : ℕ) (ts : List ℕ) → count t (t ∷ ts) ≡ 1 → erase t (t ∷ ts) ≡ ts
unfolding erase count
erase-head t ts e = ground (arith, erase-of_count_zero t ts)

pub wake-takes_first :
    (k : Kernel) (h t : ℕ) (ts : List ℕ)
    → thread_priority_max ≤ h
    → IsWf k
    → k.lists h ≡ t ∷ ts
    → (wake k t).lists h ≡ ts
wake-takes_first k h t ts above w e =
    let at = head_on w t h (ap head? e) in
    wake-lists h above k t at
    ∙ ap (erase t) e
    ∙ erase-head t ts (ground (arith, w.rings.linked t h, ap (count t) e))

pub thread_wakeup-lists :
    (k : Kernel) (h t : ℕ) (ts : List ℕ)
    → thread_priority_max ≤ h
    → IsWf k
    → k.lists h ≡ t ∷ ts
    → (thread_wakeup k h).1.lists h ≡ ts
unfolding thread_wakeup wake_first
thread_wakeup-lists k h t ts above w e = simp e (wake-takes_first k h t ts above w e)
