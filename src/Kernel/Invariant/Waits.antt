-- ===== src/Kernel/Invariant/Waits.antt =====
-- A thread that waits, or sleeps, and becomes ready again.
use nerd_rtos.Common.{ap, arith, false, fun_ext, inl, refl, subst, sym, ℕ, ◌<◌, ◌∙◌, ◌≡◌, ◌≤◌}
use nerd_rtos.Kernel.Invariant.{IsFit, IsLinked, IsWf}
use nerd_rtos.Kernel.Invariant.Moves.{Updates-trans, list_remove-Updates, set_thread-Updates}
use nerd_rtos.Kernel.Invariant.Rings.{add_tail-IsLinked}
use nerd_rtos.Kernel.Invariant.Update.{IsWf-update, Updates}
use nerd_rtos.Kernel.Links.{is_on, list_remove}
use nerd_rtos.Kernel.Ready.{thread_ready_add_tail}
use nerd_rtos.Kernel.Scheduler.{timer_stop}
use nerd_rtos.Kernel.State.{
  Kernel, Thread, block, eok, on, ready, set_thread, thread_priority_max, unlinked,
}
use nerd_rtos.Kernel.Thread.{wake}

pub threads_at : {k k' : Kernel} {t : ℕ} {th : Thread} → Updates k t th k' → k'.threads t ≡ th
threads_at d = rw (d.threads) (ground arith)

pub retarget : {k k' : Kernel} {t : ℕ} {a b : Thread} → a ≡ b → Updates k t a k' → Updates k t b k'
retarget {k} {k'} {t} e d = subst (λ x. Updates k t x k') e d

module _ (k : Kernel) (t : ℕ) (th : Thread) (at : k.threads t ≡ th) (r : IsLinked k) where
  pub ready_again-Updates :
      is_on th.qnode ≡ false
      → th.priority < thread_priority_max
      → Updates k t (record th { qnode = on th.priority }) (thread_ready_add_tail k t)
  unfolding thread_ready_add_tail
  ready_again-Updates off lt = record {
    rings = add_tail-IsLinked k t (ground arith) r;
    threads = fun_ext λ u. ground arith;
    current = ground arith;
    next = ground arith;
    request = ground arith;
  }

  pub unwait-Updates :
      (h : ℕ)
      → th.qnode ≡ on h
      → thread_priority_max ≤ h
      → Updates k t (record th { qnode = unlinked }) (list_remove k t)
  unwait-Updates h e above =
      retarget (ap (λ (x : Thread). record x { qnode = unlinked }) at)
        (list_remove-Updates k t h (ap (λ (x : Thread). x.qnode) at ∙ e) above r)

-- A waiting thread, changed to `th`, goes to the end of its ready list.
pub requeue_waiting-Updates :
    (k : Kernel) (t h : ℕ) (th : Thread)
    → (k.threads t).qnode ≡ on h
    → th.qnode ≡ on h
    → thread_priority_max ≤ h
    → th.priority < thread_priority_max
    → IsLinked k
    → Updates k t
        (record th { qnode = on th.priority })
        (thread_ready_add_tail (list_remove (set_thread k t th) t) t)
requeue_waiting-Updates k t h th e e' above lt r =
    let d1 = set_thread-Updates k t th (e' ∙ sym e) r in
    let d2 = unwait-Updates _ t th (threads_at d1) d1.rings h e' above in
    let d12 = Updates-trans d1 d2 in
    let d3 =
      ready_again-Updates _ t (record th { qnode = unlinked }) (threads_at d12) d2.rings refl lt in
    Updates-trans d12 d3

waits_on :
    (th : Thread) (h : ℕ) → th.qnode ≡ on h → thread_priority_max ≤ h → IsFit th → th.stat ≡ block
waits_on th h e above f = ground (arith, f.stat_fits)

module _ (k : Kernel) (t h : ℕ) (at : (k.threads t).qnode ≡ on h) (above : thread_priority_max ≤ h)
    (w : IsWf k) where
  -- A thread that waits on the list of an object is ready after it is woken.
  pub wake-IsWf : IsWf (wake k t)
  unfolding wake
  wake-IsWf =
      let f = w.fit t in
      let th = k.threads t in
      let th' : Thread = record th { timer = timer_stop th.timer; error = eok; stat = ready } in
      IsWf-update k t _ (requeue_waiting-Updates k t h th' at at above f.priority_bound w.rings)
        (record {
          stat_fits = (refl, refl);
          priority_bound = f.priority_bound;
          join_head = f.join_head;
          init_bound = f.init_bound;
        })
        (inl (λ _. refl)) (ground arith) w

  pub end_wait-IsWf :
      (th : Thread)
      → th ≡ record (k.threads t) { timer = th.timer; error = th.error; stat = ready }
      → th.timer.armed ≡ false
      → IsWf (thread_ready_add_tail (list_remove (set_thread k t th) t) t)
  end_wait-IsWf th e off =
      let f = w.fit t in
      IsWf-update k t (record th { qnode = on th.priority })
        (requeue_waiting-Updates k t h th at (ap (λ (x : Thread). x.qnode) e ∙ at) above
          (ground (arith, f.priority_bound)) w.rings)
        (record {
          stat_fits = ground arith;
          priority_bound = ground (arith, f.priority_bound);
          join_head = ground (arith, f.join_head);
          init_bound = ground (arith, f.init_bound);
        })
        (inl (λ _. ground arith)) (ground arith) w
