-- ===== src/Kernel/Invariant/Moves.antt =====
-- The moves of one thread between the lists, from a state in which the invariant holds.
use nerd_rtos.Common.{arith, false, fun_ext, inl, refl, update, ℕ, ◌<◌, ◌∙◌, ◌≡◌, ◌≤◌}
use nerd_rtos.Kernel.Invariant.{IsFit, IsLinked, IsWf}
use nerd_rtos.Kernel.Invariant.Rings.{
  add_head-IsLinked, add_tail-IsLinked, list_remove-IsLinked, ready_remove-IsLinked,
  set_thread-IsLinked, wait_insert-IsLinked,
}
use nerd_rtos.Kernel.Invariant.Update.{IsWf-update, Updates}
use nerd_rtos.Kernel.Links.{is_on, list_remove}
use nerd_rtos.Kernel.Ready.{thread_ready_add_head, thread_ready_add_tail, thread_ready_remove}
use nerd_rtos.Kernel.State.{Kernel, Thread, on, ready, set_thread, thread_priority_max, unlinked}
use nerd_rtos.Kernel.Thread.{thread_wait_insert}

update-update :
    {A : Type 0} (f : ℕ → A) (t : ℕ) (a b : A) → update (update f t a) t b ≡ update f t b
update-update f t a b = fun_ext λ u. ground arith

pub set_thread-Updates :
    (k : Kernel) (t : ℕ) (th : Thread)
    → th.qnode ≡ (k.threads t).qnode
    → IsLinked k
    → Updates k t th (set_thread k t th)
set_thread-Updates k t th e r = record {
  rings = set_thread-IsLinked k t th e r;
  threads = refl;
  current = refl;
  next = refl;
  request = refl;
}

module _ (k : Kernel) (t : ℕ) (th : Thread) where
  threads-add_tail :
      th.priority < thread_priority_max
      → (thread_ready_add_tail (set_thread k t th) t).threads
        ≡ update k.threads t (record th { qnode = on th.priority })
  unfolding thread_ready_add_tail
  threads-add_tail lt = fun_ext λ u. ground arith

  threads-add_head :
      th.priority < thread_priority_max
      → (thread_ready_add_head (set_thread k t th) t).threads
        ≡ update k.threads t (record th { qnode = on th.priority })
  unfolding thread_ready_add_head
  threads-add_head lt = fun_ext λ u. ground arith

  pub add_tail-Updates :
      th.qnode ≡ (k.threads t).qnode
      → is_on (k.threads t).qnode ≡ false
      → th.priority < thread_priority_max
      → IsLinked k
      → Updates k t
          (record th { qnode = on th.priority })
          (thread_ready_add_tail (set_thread k t th) t)
  unfolding thread_ready_add_tail
  add_tail-Updates e off lt r = record {
    rings = add_tail-IsLinked _ t (ground arith) (set_thread-IsLinked k t th e r);
    threads = threads-add_tail lt;
    current = ground arith;
    next = ground arith;
    request = ground arith;
  }

  pub add_head-Updates :
      th.qnode ≡ (k.threads t).qnode
      → is_on (k.threads t).qnode ≡ false
      → th.priority < thread_priority_max
      → IsLinked k
      → Updates k t
          (record th { qnode = on th.priority })
          (thread_ready_add_head (set_thread k t th) t)
  unfolding thread_ready_add_head
  add_head-Updates e off lt r = record {
    rings = add_head-IsLinked _ t (ground arith) (set_thread-IsLinked k t th e r);
    threads = threads-add_head lt;
    current = ground arith;
    next = ground arith;
    request = ground arith;
  }

module _ (k : Kernel) (t : ℕ) where
  pub list_remove-Updates :
      (h : ℕ)
      → (k.threads t).qnode ≡ on h
      → thread_priority_max ≤ h
      → IsLinked k
      → Updates k t (record (k.threads t) { qnode = unlinked }) (list_remove k t)
  unfolding list_remove
  list_remove-Updates h at above r = record {
    rings = list_remove-IsLinked k t h at above r;
    threads = fun_ext λ u. ground arith;
    current = ground arith;
    next = ground arith;
    request = ground arith;
  }

  pub ready_remove-Updates :
      (k.threads t).qnode ≡ on (k.threads t).priority
      → (k.threads t).priority < thread_priority_max
      → IsLinked k
      → Updates k t (record (k.threads t) { qnode = unlinked }) (thread_ready_remove k t)
  unfolding thread_ready_remove
  ready_remove-Updates at lt r = record {
    rings = ready_remove-IsLinked k t at r;
    threads = fun_ext λ u. ground arith;
    current = ground arith;
    next = ground arith;
    request = ground arith;
  }

  pub wait_insert-Updates :
      (h : ℕ)
      → is_on (k.threads t).qnode ≡ false
      → thread_priority_max ≤ h
      → IsLinked k
      → Updates k t (record (k.threads t) { qnode = on h }) (thread_wait_insert k h t)
  unfolding thread_wait_insert
  wait_insert-Updates h off above r = record {
    rings = wait_insert-IsLinked k h t off above r;
    threads = fun_ext λ u. ground arith;
    current = ground arith;
    next = ground arith;
    request = ground arith;
  }

-- Two changes of one thread are one.
pub Updates-trans :
    {k l m : Kernel} {t : ℕ} {a b : Thread} → Updates k t a l → Updates l t b m → Updates k t b m
Updates-trans {k} {t} {a} {b} d e = record {
  rings = e.rings;
  threads = e.threads ∙ (rw (d.threads) (update-update k.threads t a b));
  current = e.current ∙ d.current;
  next = e.next ∙ d.next;
  request = e.request ∙ d.request;
}

-- What a thread is to be when it goes on its ready list.
pub record IsAwake (k : Kernel) (t : ℕ) (th : Thread) : Type 0 where
  pub node : th.qnode ≡ (k.threads t).qnode
  pub off : is_on (k.threads t).qnode ≡ false
  pub awake : th.stat ≡ ready
  pub timer_off : th.timer.armed ≡ false
  pub priority_bound : th.priority < thread_priority_max
  pub join_head : thread_priority_max ≤ th.join_list
  pub init_bound : th.init_priority < thread_priority_max

module _ (k : Kernel) (t : ℕ) (th : Thread) (a : IsAwake k t th) where
  queued-IsFit : IsFit (record th { qnode = on th.priority })
  queued-IsFit = record {
    stat_fits = rw (a.awake) (refl, a.timer_off);
    priority_bound = a.priority_bound;
    join_head = a.join_head;
    init_bound = a.init_bound;
  }

  pub add_tail-IsWf : IsWf k → IsWf (thread_ready_add_tail (set_thread k t th) t)
  add_tail-IsWf w =
      IsWf-update k t _ (add_tail-Updates k t th a.node a.off a.priority_bound w.rings) queued-IsFit
        (inl (λ _. a.awake)) (ground (arith, a.awake)) w

  pub add_head-IsWf : IsWf k → IsWf (thread_ready_add_head (set_thread k t th) t)
  add_head-IsWf w =
      IsWf-update k t _ (add_head-Updates k t th a.node a.off a.priority_bound w.rings) queued-IsFit
        (inl (λ _. a.awake)) (ground (arith, a.awake)) w

-- Two threads that the invariant does not tell apart.
pub record Alike (th old : Thread) : Type 0 where
  pub node : th.qnode ≡ old.qnode
  pub stat : th.stat ≡ old.stat
  pub timer : th.timer ≡ old.timer
  pub priority : th.priority ≡ old.priority
  pub join : th.join_list ≡ old.join_list
  pub initial : th.init_priority ≡ old.init_priority

pub Alike-IsFit : (th old : Thread) → Alike th old → IsFit old → IsFit th
Alike-IsFit th old a f = record {
  stat_fits = ground (arith, f.stat_fits);
  priority_bound = omega (arith, a.priority, f.priority_bound);
  join_head = omega (arith, a.join, f.join_head);
  init_bound = omega (arith, a.initial, f.init_bound);
}

pub set_thread-IsWf :
    (k : Kernel) (t : ℕ) (th : Thread) → Alike th (k.threads t) → IsWf k → IsWf (set_thread k t th)
set_thread-IsWf k t th a w =
    IsWf-update k t th (set_thread-Updates k t th a.node w.rings)
      (Alike-IsFit th (k.threads t) a (w.fit t)) (inl (λ r. a.stat ∙ r)) (ground (arith, a.stat)) w
