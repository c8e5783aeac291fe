-- ===== src/Ipc/Mutex/Owner.antt =====
-- Who owns a mutex of kernel/nd_mutex.c after a lock and after an unlock.
use nerd_rtos.Common.{
  List, List-cases, Option, ap, arith, erase, head?, inl, inr, is_at, none, refl, some, true, ℕ,
  ◌∙◌, ◌∷◌, ◌≡◌, ◌≢◌, ◌≤◌,
}
use nerd_rtos.Ipc.Mutex.{
  inherited, lock_by_owner, lock_held, mutex_lock, mutex_unlock, pass_on, restore_priority,
  set_taken, take_over,
}
use nerd_rtos.Ipc.Mutex.Inherit.{IsHighest, inherited-IsHighest}
use nerd_rtos.Ipc.Mutex.Keeps.{restore_priority-IsWf, set_taken-IsWf}
use nerd_rtos.Kernel.Invariant.{IsWf}
use nerd_rtos.Kernel.Invariant.Highest.{head_on}
use nerd_rtos.Kernel.Invariant.Scheduling.{running_fit}
use nerd_rtos.Kernel.Links.{Link-cases, list_insert_before, list_remove, unlink}
use nerd_rtos.Kernel.Ready.{thread_ready_add_tail}
use nerd_rtos.Kernel.Scheduler.{is_running}
use nerd_rtos.Kernel.State.{Kernel, Mutex, eok, returned, thread_priority_max}
use nerd_rtos.Kernel.Thread.{thread_wakeup, wake, wake_first}
use nerd_rtos.Kernel.Waiting.Kept.{
  scheduler-lists, scheduler-mutexes, scheduler-priority, scheduler-taken_list, wake-takes_first,
}

wake-mutexes : (k : Kernel) (t : ℕ) → (wake k t).mutexes ≡ k.mutexes
unfolding wake thread_ready_add_tail list_insert_before list_remove unlink
wake-mutexes k t = elim (Link-cases (k.threads t).qnode) [
  | inl e ↦ rw e (ground arith)
  | inr (inl e) ↦ rw e (ground arith)
  | inr (inr (h, e)) ↦ rw e (ground arith)
]

wake-owned :
    (k : Kernel) (t u : ℕ)
    → (((wake k t).threads u).taken_list ≡ (k.threads u).taken_list)
      × (((wake k t).threads u).priority ≡ (k.threads u).priority)
unfolding wake thread_ready_add_tail list_insert_before list_remove unlink
wake-owned k t u = elim (Link-cases (k.threads t).qnode) [
  | inl e ↦ rw e (ground arith, ground arith)
  | inr (inl e) ↦ rw e (ground arith, ground arith)
  | inr (inr (h, e)) ↦ rw e (ground arith, ground arith)
]

-- The kernel after the owner `c` has taken the mutex off its list and has its own priority back.
given_back : Kernel → ℕ → ℕ → Kernel
given_back k c m = restore_priority (set_taken k c (erase m (k.threads c).taken_list)) c

given_back-IsWf :
    (k : Kernel) (c m : ℕ) → is_running (k.threads c).stat ≡ true → IsWf k → IsWf (given_back k c m)
unfolding given_back
given_back-IsWf k c m run w =
    let k1 = set_taken k c (erase m (k.threads c).taken_list) in
    restore_priority-IsWf k1 c (ground arith) (set_taken-IsWf k c _ w)

given_back-same :
    (k : Kernel) (c m u : ℕ)
    → u ≢ c
    → ((given_back k c m).threads u).taken_list ≡ (k.threads u).taken_list
unfolding given_back restore_priority
given_back-same k c m u n = ground arith

-- A thread that waits is not the one that runs.
waiter_apart :
    (k : Kernel) (c h t : ℕ)
    → is_running (k.threads c).stat ≡ true
    → head? (k.lists h) ≡ some t
    → IsWf k
    → t ≢ c
waiter_apart k c h t run e w same =
    let off = (running_fit (k.threads c) run (w.fit c)).0 in ground (arith, head_on w t h e)

take_over-taken :
    (k : Kernel) (m t : ℕ) → ((take_over k m t).threads t).taken_list ≡ m ∷ (k.threads t).taken_list
take_over-taken k m t = ground arith

take_over-priority :
    (k : Kernel) (m t u : ℕ) → ((take_over k m t).threads u).priority ≡ (k.threads u).priority
take_over-priority k m t u = ground arith

-- In a well-formed kernel, when the running owner of a mutex unlocks it while threads wait,
-- nd_mutex_unlock returns ND_EOK, the thread at the head of the waiting list owns the mutex and
-- has it first in its list of taken mutexes, and the waiting list is left with the others. The
-- waiting list is none of the ready lists.
pub mutex_unlock-hands_over :
    (k : Kernel) (c m t : ℕ) (ts : List ℕ)
    → is_running (k.threads c).stat ≡ true
    → thread_priority_max ≤ (k.mutexes m).wait_list
    → IsWf k
    → (k.mutexes m).owner ≡ some c
    → k.lists (k.mutexes m).wait_list ≡ t ∷ ts
    → let (r, k') = mutex_unlock k c m in
      (r ≡ eok)
      × ((k'.mutexes m).owner ≡ some t)
      × ((k'.threads t).taken_list ≡ m ∷ (k.threads t).taken_list)
      × (k'.lists (k.mutexes m).wait_list ≡ ts)
unfolding mutex_unlock pass_on restore_priority thread_wakeup wake_first given_back
mutex_unlock-hands_over k c m t ts run above w owner waiting =
    let h = (k.mutexes m).wait_list in
    let k1 = given_back k c m in
    let woken = wake k1 t in
    let own : is_at (k.mutexes m).owner c ≡ true = ground arith in
    let w1 = given_back-IsWf k c m run w in
    let apart = waiter_apart k c h t run (ap head? waiting) w in
    simp (own, waiting)
      (
        refl,
        ap (λ (f : ℕ → Mutex). (f m).owner) (scheduler-mutexes (take_over woken m t))
            ∙ ground arith,
        scheduler-taken_list t (take_over woken m t)
            ∙ take_over-taken woken m t
            ∙ ap (λ (ms : List ℕ). m ∷ ms) ((wake-owned k1 t t).0 ∙ given_back-same k c m t apart),
        scheduler-lists h above (take_over woken m t) ∙ wake-takes_first k1 h t ts above w1 waiting,
      )

given_back-priority :
    (k : Kernel) (c m : ℕ)
    → ((given_back k c m).threads c).priority
      ≡ inherited k.mutexes (erase m (k.threads c).taken_list) (k.threads c).init_priority
unfolding given_back restore_priority
given_back-priority k c m = ground arith

mutex_unlock-priority :
    (k : Kernel) (c m : ℕ)
    → (k.mutexes m).owner ≡ some c
    → ((mutex_unlock k c m).1.threads c).priority ≡ ((given_back k c m).threads c).priority
unfolding mutex_unlock pass_on given_back thread_wakeup wake_first restore_priority
mutex_unlock-priority k c m owner =
    let own : is_at (k.mutexes m).owner c ≡ true = ground arith in
    let k1 = given_back k c m in
    elim (List-cases (k.lists (k.mutexes m).wait_list)) [
      | inl e ↦ simp (own, e) refl
      | inr (t, ts, e) ↦
          simp (own, e)
            (scheduler-priority c (take_over (wake k1 t) m t)
              ∙ take_over-priority (wake k1 t) m t c
              ∙ (wake-owned k1 t c).1)
    ]

-- After its owner has unlocked a mutex, the owner's priority is the highest of its initial
-- priority and the priorities that its other taken mutexes record: not lower than any of them,
-- and equal to one of them.
pub mutex_unlock-restores :
    (k : Kernel) (c m : ℕ)
    → (k.mutexes m).owner ≡ some c
    → IsHighest k.mutexes
        (erase m (k.threads c).taken_list)
        (k.threads c).init_priority
        ((mutex_unlock k c m).1.threads c).priority
mutex_unlock-restores k c m owner =
    rw (mutex_unlock-priority k c m owner, given_back-priority k c m)
      (inherited-IsHighest k.mutexes (erase m (k.threads c).taken_list) (k.threads c).init_priority)

held-blocks :
    (k : Kernel) (c m o timeout : ℕ) → (lock_by_owner (some o) k c m timeout).0 ≢ returned eok
unfolding lock_by_owner lock_held
held-blocks k c m o timeout e = ground arith

lock_by_owner-eok :
    (owner : Option ℕ) (k : Kernel) (c m timeout : ℕ)
    → (lock_by_owner owner k c m timeout).0 ≡ returned eok
    → let k' = (lock_by_owner owner k c m timeout).1 in
      (owner ≡ none)
      × ((k'.mutexes m).owner ≡ some c)
      × ((k'.threads c).taken_list ≡ m ∷ (k.threads c).taken_list)
unfolding lock_by_owner
lock_by_owner-eok none k c m timeout e = (refl, ground arith, take_over-taken k m c)
lock_by_owner-eok (some o) k c m timeout e = absurd (held-blocks k c m o timeout e)

-- If nd_mutex_lock returns ND_EOK without sleeping, then the mutex had no owner before, the
-- calling thread owns it after, and it is the first of that thread's taken mutexes.
pub mutex_lock-eok :
    (k : Kernel) (c m timeout : ℕ)
    → (mutex_lock k c m timeout).0 ≡ returned eok
    → let k' = (mutex_lock k c m timeout).1 in
      ((k.mutexes m).owner ≡ none)
      × ((k'.mutexes m).owner ≡ some c)
      × ((k'.threads c).taken_list ≡ m ∷ (k.threads c).taken_list)
unfolding mutex_lock
mutex_lock-eok k c m timeout e = lock_by_owner-eok (k.mutexes m).owner k c m timeout e
