-- ===== src/Ipc/Mutex/Keeps.antt =====
-- The mutex calls and the kernel's invariant.
use nerd_rtos.Common.{
  Bool, Bool-cases, List, Option, [], ap, arith, erase, false, inl, inr, is_at, ltb, none, refl,
  some, true, ℕ, ◌<◌, ◌==◌, ◌∙◌, ◌∷◌, ◌≡◌, ◌≤◌,
}
use nerd_rtos.Ipc.Mutex.{
  change_by_stat, change_priority, hand_over, inherit, inherited, lock_by_owner, lock_held,
  mutex_lock, mutex_unlock, pass_on, restore_priority, set_mutex, set_priority, set_taken,
  take_over,
}
use nerd_rtos.Kernel.Invariant.{IsWf}
use nerd_rtos.Kernel.Invariant.Moves.{
  Updates-trans, add_head-Updates, ready_remove-Updates, set_thread-IsWf, set_thread-Updates,
}
use nerd_rtos.Kernel.Invariant.Scheduling.{scheduler-IsWf}
use nerd_rtos.Kernel.Invariant.Sleep.{thread_pend-IsWf, thread_wakeup-IsWf}
use nerd_rtos.Kernel.Invariant.Suspend.{ready_fit}
use nerd_rtos.Kernel.Invariant.Update.{IsWf-update}
use nerd_rtos.Kernel.Invariant.Waits.{threads_at}
use nerd_rtos.Kernel.Links.{is_on, list_is_empty}
use nerd_rtos.Kernel.Ready.{thread_ready_add_head, thread_ready_remove}
use nerd_rtos.Kernel.Scheduler.{is_running}
use nerd_rtos.Kernel.State.{
  Kernel, Mutex, Thread, ThreadStat, block, dead, init, on, ready, running, suspend,
  thread_priority_max, timeout_nowait,
}

pub set_mutex-IsWf : (k : Kernel) (m : ℕ) (mx : Mutex) → IsWf k → IsWf (set_mutex k m mx)
set_mutex-IsWf k m mx w = record {
  rings = record { linked = w.rings.linked; bits = w.rings.bits; sound = w.rings.sound };
  fit = w.fit;
  only = w.only;
  awaited = w.awaited;
}

pub set_taken-IsWf : (k : Kernel) (t : ℕ) (ms : List ℕ) → IsWf k → IsWf (set_taken k t ms)
set_taken-IsWf k t ms w =
    set_thread-IsWf k t (record (k.threads t) { taken_list = ms })
      (record {
        node = refl;
        stat = refl;
        timer = refl;
        priority = refl;
        join = refl;
        initial = refl;
      })
      w

pub take_over-IsWf : (k : Kernel) (m t : ℕ) → IsWf k → IsWf (take_over k m t)
take_over-IsWf k m t w = set_taken-IsWf _ t _ (set_mutex-IsWf k m _ w)

abbrev is_ready : ThreadStat → Bool
is_ready ready = true
is_ready init = false
is_ready running = false
is_ready block = false
is_ready suspend = false
is_ready dead = false

-- A new priority for a thread that is not ready.
set_priority-IsWf :
    (k : Kernel) (t p : ℕ)
    → is_ready (k.threads t).stat ≡ false
    → p < thread_priority_max
    → IsWf k
    → IsWf (set_priority k t p)
set_priority-IsWf k t p unready lt w =
    let f = w.fit t in
    IsWf-update k t (record (k.threads t) { priority = p }) (set_thread-Updates k t _ refl w.rings)
      (record {
        stat_fits = ground (arith, f.stat_fits);
        priority_bound = lt;
        join_head = f.join_head;
        init_bound = f.init_bound;
      })
      (inl (λ r. r)) (λ r. r) w

change_ready-IsWf :
    (k : Kernel) (t p : ℕ)
    → (k.threads t).stat ≡ ready
    → p < thread_priority_max
    → IsWf k
    → IsWf (thread_ready_add_head (set_priority (thread_ready_remove k t) t p) t)
change_ready-IsWf k t p e lt w =
    let f = w.fit t in
    let (at, unarmed) = ready_fit (k.threads t) e f in
    let d = ready_remove-Updates k t at f.priority_bound w.rings in
    let k1 = thread_ready_remove k t in
    let old = threads_at d in
    let th : Thread = record (k1.threads t) { priority = p } in
    let d2 = add_head-Updates k1 t th refl (ap (λ (x : Thread). is_on x.qnode) old) lt d.rings in
    IsWf-update k t (record th { qnode = on p }) (Updates-trans d d2)
      (record {
        stat_fits = ground arith;
        priority_bound = lt;
        join_head = ground (arith, f.join_head);
        init_bound = ground (arith, f.init_bound);
      })
      (inl (λ r. ground arith)) (ground arith) w

change-at :
    (k : Kernel) (t p : ℕ) (s : ThreadStat)
    → (k.threads t).stat ≡ s
    → p < thread_priority_max
    → IsWf k
    → IsWf (change_by_stat s k t p)
unfolding change_by_stat
change-at k t p ready e lt w = change_ready-IsWf k t p e lt w
change-at k t p init e lt w = set_priority-IsWf k t p (ap is_ready e) lt w
change-at k t p running e lt w = set_priority-IsWf k t p (ap is_ready e) lt w
change-at k t p block e lt w = set_priority-IsWf k t p (ap is_ready e) lt w
change-at k t p suspend e lt w = set_priority-IsWf k t p (ap is_ready e) lt w
change-at k t p dead e lt w = set_priority-IsWf k t p (ap is_ready e) lt w

pub change_priority-IsWf :
    (k : Kernel) (t p : ℕ) → p < thread_priority_max → IsWf k → IsWf (change_priority k t p)
unfolding change_priority
change_priority-IsWf k t p lt w = change-at k t p (k.threads t).stat refl lt w

-- The priority that a thread inherits is at most the one that it starts from.
pub inherited-le : (mutexes : ℕ → Mutex) (ms : List ℕ) (p : ℕ) → inherited mutexes ms p ≤ p
unfolding inherited
inherited-le mutexes [] p = omega arith
inherited-le mutexes (m ∷ ms) p =
    ground (arith, inherited-le mutexes ms p, inherited-le mutexes ms (mutexes m).priority)

pub restore_priority-IsWf :
    (k : Kernel) (t : ℕ)
    → is_ready (k.threads t).stat ≡ false
    → IsWf k
    → IsWf (restore_priority k t)
unfolding restore_priority
restore_priority-IsWf k t unready w =
    let th = k.threads t in
    let le = inherited-le k.mutexes th.taken_list th.init_priority in
    set_priority-IsWf k t _ unready (omega (arith, le, (w.fit t).init_bound)) w

hand_over-IsWf : (m : ℕ) (r : Option ℕ × Kernel) → IsWf r.1 → IsWf (hand_over m r)
hand_over-IsWf m (none, k) w = w
hand_over-IsWf m (some t, k) w = scheduler-IsWf _ (take_over-IsWf k m t w)

pass_on-IsWf :
    (k : Kernel) (m : ℕ)
    → thread_priority_max ≤ (k.mutexes m).wait_list
    → IsWf k
    → IsWf (pass_on k m)
unfolding pass_on
pass_on-IsWf k m above w = elim (Bool-cases (list_is_empty k (k.mutexes m).wait_list)) [
  | inl e ↦ rw e (set_mutex-IsWf k m _ w)
  | inr e ↦ rw e (hand_over-IsWf m _ (thread_wakeup-IsWf k (k.mutexes m).wait_list above w))
]

pub mutex_unlock-IsWf :
    (k : Kernel) (c m : ℕ)
    → is_running (k.threads c).stat ≡ true
    → thread_priority_max ≤ (k.mutexes m).wait_list
    → IsWf k
    → IsWf (mutex_unlock k c m).1
unfolding mutex_unlock restore_priority
mutex_unlock-IsWf k c m run above w =
    let k1 = set_taken k c (erase m (k.threads c).taken_list) in
    let w1 = set_taken-IsWf k c (erase m (k.threads c).taken_list) w in
    let w2 = restore_priority-IsWf k1 c (ground arith) w1 in
    elim (Bool-cases (is_at (k.mutexes m).owner c)) [
      | inl e ↦ simp e (pass_on-IsWf (restore_priority k1 c) m above w2)
      | inr e ↦ simp e w
    ]

inherit-IsWf : (k : Kernel) (c m o : ℕ) → IsWf k → IsWf (inherit k c m o)
unfolding inherit
inherit-IsWf k c m o w = elim (Bool-cases (ltb (k.threads c).priority (k.threads o).priority)) [
  | inl e ↦ rw e (change_priority-IsWf _ o _ (w.fit c).priority_bound (set_mutex-IsWf k m _ w))
  | inr e ↦ rw e w
]

stat-change_at :
    (k : Kernel) (t p u : ℕ) (s : ThreadStat)
    → ((change_by_stat s k t p).threads u).stat ≡ (k.threads u).stat
unfolding change_by_stat thread_ready_add_head thread_ready_remove
stat-change_at k t p u ready = ground arith
stat-change_at k t p u init = ground arith
stat-change_at k t p u running = ground arith
stat-change_at k t p u block = ground arith
stat-change_at k t p u suspend = ground arith
stat-change_at k t p u dead = ground arith

-- Inheritance changes no thread's state.
pub stat-inherit :
    (k : Kernel) (c m o u : ℕ) → ((inherit k c m o).threads u).stat ≡ (k.threads u).stat
unfolding inherit change_priority
stat-inherit k c m o u = elim (Bool-cases (ltb (k.threads c).priority (k.threads o).priority)) [
  | inl e ↦ rw e (stat-change_at _ o (k.threads c).priority u (k.threads o).stat)
  | inr e ↦ rw e refl
]

mutexes-change_at :
    (k : Kernel) (t p : ℕ) (s : ThreadStat) → (change_by_stat s k t p).mutexes ≡ k.mutexes
unfolding change_by_stat thread_ready_add_head thread_ready_remove
mutexes-change_at k t p ready = ground arith
mutexes-change_at k t p init = refl
mutexes-change_at k t p running = refl
mutexes-change_at k t p block = refl
mutexes-change_at k t p suspend = refl
mutexes-change_at k t p dead = refl

-- Nor does it move the waiting list of the mutex.
wait_list-inherit :
    (k : Kernel) (c m o : ℕ) → ((inherit k c m o).mutexes m).wait_list ≡ (k.mutexes m).wait_list
unfolding inherit change_priority
wait_list-inherit k c m o = elim (Bool-cases (ltb (k.threads c).priority (k.threads o).priority)) [
  | inl e ↦ rw (e, mutexes-change_at _ o (k.threads c).priority (k.threads o).stat) (ground arith)
  | inr e ↦ rw e refl
]

module _ (k : Kernel) (c m timeout : ℕ) (run : is_running (k.threads c).stat ≡ true) where
  lock_held-IsWf :
      (o : ℕ)
      → thread_priority_max ≤ (k.mutexes m).wait_list
      → IsWf k
      → IsWf (lock_held k c m o timeout).1
  unfolding lock_held
  lock_held-IsWf o above w =
      let w' = inherit-IsWf k c m o w in
      elim (Bool-cases (timeout == timeout_nowait)) [
        | inl e ↦ rw e w'
        | inr e ↦ rw e (
            scheduler-IsWf _ (
              thread_pend-IsWf _ c _ timeout (ap is_running (stat-inherit k c m o c) ∙ run)
                (rw (wait_list-inherit k c m o) above) w'))
      ]

  lock-at :
      (o : Option ℕ)
      → thread_priority_max ≤ (k.mutexes m).wait_list
      → IsWf k
      → IsWf (lock_by_owner o k c m timeout).1
  unfolding lock_by_owner
  lock-at none above w = take_over-IsWf k m c w
  lock-at (some o) above w = elim (Bool-cases (o == c)) [
    | inl e ↦ rw e w
    | inr e ↦ rw e (lock_held-IsWf o above w)
  ]

  pub mutex_lock-IsWf :
      thread_priority_max ≤ (k.mutexes m).wait_list → IsWf k → IsWf (mutex_lock k c m timeout).1
  unfolding mutex_lock
  mutex_lock-IsWf above w = lock-at (k.mutexes m).owner above w
