-- ===== src/Kernel/Invariant/Suspend.antt =====
-- Suspension and waiting and the kernel's invariant.
use nerd_rtos.Common.{
  Bool-cases, ap, arith, false, fun_ext, inl, inr, is_empty, refl, sym, true, ℕ, ◌∙◌, ◌≡◌,
}
use nerd_rtos.Kernel.Invariant.{IsFit, IsLinked, IsWf, is_slack}
use nerd_rtos.Kernel.Invariant.Moves.{
  Updates-trans, list_remove-Updates, ready_remove-Updates, set_thread-Updates,
}
use nerd_rtos.Kernel.Invariant.Scheduling.{running_fit, scheduler-IsWf}
use nerd_rtos.Kernel.Invariant.Update.{IsWf-update, Updates}
use nerd_rtos.Kernel.Invariant.Waits.{retarget, threads_at}
use nerd_rtos.Kernel.Links.{list_remove}
use nerd_rtos.Kernel.Ready.{thread_ready_remove}
use nerd_rtos.Kernel.Scheduler.{scheduler, timer_stop}
use nerd_rtos.Kernel.State.{
  Kernel, Link, Thread, ThreadStat, block, dead, init, on, ready, running, self, set_stat,
  set_thread, suspend, unlinked,
}
use nerd_rtos.Kernel.Thread.{suspend_blocked, suspend_by_stat, thread_suspend, unlink_if_linked}

unlink_self-IsLinked :
    (k : Kernel) (t : ℕ) → (k.threads t).qnode ≡ self → IsLinked k → IsLinked (list_remove k t)
unfolding list_remove
unlink_self-IsLinked k t e r = record {
  linked = λ u h. ground (arith, r.linked u h);
  bits = λ p lt. ground (arith, r.bits p);
  sound = ground (arith, r.sound);
}

unlink_self-Updates :
    (k : Kernel) (t : ℕ)
    → (k.threads t).qnode ≡ self
    → IsLinked k
    → Updates k t (record (k.threads t) { qnode = unlinked }) (list_remove k t)
unfolding list_remove
unlink_self-Updates k t e r = record {
  rings = unlink_self-IsLinked k t e r;
  threads = fun_ext λ u. ground arith;
  current = ground arith;
  next = ground arith;
  request = ground arith;
}

-- No change is a change of one thread to itself.
pub stays-Updates : (k : Kernel) (t : ℕ) → IsLinked k → Updates k t (k.threads t) k
stays-Updates k t r = record {
  rings = r;
  threads = fun_ext λ u. ground arith;
  current = refl;
  next = refl;
  request = refl;
}

unlink-at :
    (k : Kernel) (t : ℕ) (l : Link)
    → (k.threads t).qnode ≡ l
    → is_slack l ≡ true
    → IsLinked k
    → Updates k t (record (k.threads t) { qnode = unlinked }) (unlink_if_linked k t)
unlink-at k t (on h) e s r = rw (e, unlink_if_linked) (list_remove-Updates k t h e (ground arith) r)
unlink-at k t self e s r = rw (e, unlink_if_linked) (unlink_self-Updates k t e r)
unlink-at k t unlinked e s r =
    rw (e, unlink_if_linked)
      (record {
        rings = r;
        threads = fun_ext λ u. ground arith;
        current = refl;
        next = refl;
        request = refl;
      })

-- A thread that may be on a waiting list, but on no ready list, leaves it.
pub unlink_if_linked-Updates :
    (k : Kernel) (t : ℕ) (th : Thread)
    → k.threads t ≡ th
    → is_slack th.qnode ≡ true
    → IsLinked k
    → Updates k t (record th { qnode = unlinked }) (unlink_if_linked k t)
unlink_if_linked-Updates k t th e s r =
    retarget (ap (λ (x : Thread). record x { qnode = unlinked }) e)
      (unlink-at k t (k.threads t).qnode refl (ap (λ (x : Thread). is_slack x.qnode) e ∙ s) r)

-- A change of one thread after another.
pub then_set-Updates :
    {k k' : Kernel} {t : ℕ} {th : Thread} (th' : Thread)
    → th'.qnode ≡ th.qnode
    → Updates k t th k'
    → Updates k t th' (set_thread k' t th')
then_set-Updates {k'} {t} th' e d =
    Updates-trans d
      (set_thread-Updates k' t th' (e ∙ ap (λ (x : Thread). x.qnode) (sym (threads_at d))) d.rings)

pub block_fit : (th : Thread) → th.stat ≡ block → IsFit th → is_slack th.qnode ≡ true
block_fit th e f = ground (arith, f.stat_fits)

pub ready_fit :
    (th : Thread)
    → th.stat ≡ ready
    → IsFit th
    → (th.qnode ≡ on th.priority) × (th.timer.armed ≡ false)
ready_fit th e f = ground (arith, f.stat_fits)

suspend_blocked-IsWf :
    (k : Kernel) (t : ℕ) → (k.threads t).stat ≡ block → IsWf k → IsWf (suspend_blocked k t)
unfolding suspend_blocked
suspend_blocked-IsWf k t e w =
    let f = w.fit t in
    let th : Thread = record (k.threads t) { stat = suspend } in
    let d1 = set_thread-Updates k t th refl w.rings in
    let d2 =
      Updates-trans d1
        (unlink_if_linked-Updates _ t th (threads_at d1) (block_fit (k.threads t) e f) d1.rings) in
    let k2 = unlink_if_linked (set_stat k t suspend) t in
    let old = threads_at d2 in
    let th3 : Thread = record (k2.threads t) { timer = timer_stop (k2.threads t).timer } in
    scheduler-IsWf _ (
      IsWf-update k t th3 (then_set-Updates th3 (ap (λ (x : Thread). x.qnode) old) d2)
        (record {
          stat_fits = ground arith;
          priority_bound = ground (arith, f.priority_bound);
          join_head = ground (arith, f.join_head);
          init_bound = ground (arith, f.init_bound);
        })
        (inl (λ r. ground arith)) (ground arith) w)

suspend_ready-IsWf :
    (k : Kernel) (t : ℕ)
    → (k.threads t).stat ≡ ready
    → k.switch_request ≡ false
    → IsWf k
    → IsWf (set_stat (thread_ready_remove k t) t suspend)
suspend_ready-IsWf k t e quiet w =
    let f = w.fit t in
    let (at, unarmed) = ready_fit (k.threads t) e f in
    let d = ready_remove-Updates k t at f.priority_bound w.rings in
    let old = threads_at d in
    let th : Thread = record ((thread_ready_remove k t).threads t) { stat = suspend } in
    IsWf-update k t th (then_set-Updates th (ap (λ (x : Thread). x.qnode) old) d)
      (record {
        stat_fits = ground arith;
        priority_bound = ground (arith, f.priority_bound);
        join_head = ground (arith, f.join_head);
        init_bound = ground (arith, f.init_bound);
      })
      (inr quiet) (ground arith) w

suspend_running-IsWf :
    (k : Kernel) (t : ℕ)
    → (k.threads t).stat ≡ running
    → IsWf k
    → IsWf (scheduler (set_stat k t suspend))
suspend_running-IsWf k t e w =
    let f = w.fit t in
    let (off, unarmed) = running_fit (k.threads t) (ground arith) f in
    scheduler-IsWf _ (
      IsWf-update k t (record (k.threads t) { stat = suspend })
        (set_thread-Updates k t _ refl w.rings)
        (record {
          stat_fits = (off, unarmed);
          priority_bound = f.priority_bound;
          join_head = f.join_head;
          init_bound = f.init_bound;
        })
        (inl (λ r. ground arith)) (ground arith) w)

suspend-at :
    (k : Kernel) (t : ℕ) (s : ThreadStat)
    → (k.threads t).stat ≡ s
    → k.switch_request ≡ false
    → IsWf k
    → IsWf (suspend_by_stat s k t).1
unfolding suspend_by_stat
suspend-at k t ready e quiet w = suspend_ready-IsWf k t e quiet w
suspend-at k t running e quiet w = suspend_running-IsWf k t e w
suspend-at k t block e quiet w = suspend_blocked-IsWf k t e w
suspend-at k t init e quiet w = w
suspend-at k t suspend e quiet w = w
suspend-at k t dead e quiet w = w

-- nd_thread_suspend keeps the invariant, where no switch is asked for.
pub thread_suspend-IsWf :
    (k : Kernel) (t : ℕ) → k.switch_request ≡ false → IsWf k → IsWf (thread_suspend k t).1
unfolding thread_suspend
thread_suspend-IsWf k t quiet w = elim (Bool-cases (is_empty (k.threads t).taken_list)) [
  | inl e ↦ simp e (suspend-at k t (k.threads t).stat refl quiet w)
  | inr e ↦ simp e w
]
