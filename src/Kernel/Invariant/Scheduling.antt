-- ===== src/Kernel/Invariant/Scheduling.antt =====
-- The scheduler and the kernel's invariant.
use nerd_rtos.Common.{
  Bool, Bool-cases, Option, arith, false, if◌then◌else◌, inl, inr, ltb, none, not, refl, some, true,
  ℕ, ◌&&◌, ◌==◌, ◌∙◌, ◌≡◌,
}
use nerd_rtos.Kernel.Invariant.{IsFit, IsWf}
use nerd_rtos.Kernel.Invariant.Highest.{get_highest-ready}
use nerd_rtos.Kernel.Invariant.Moves.{IsAwake, add_head-IsWf, add_tail-IsWf, set_thread-IsWf}
use nerd_rtos.Kernel.Links.{is_on}
use nerd_rtos.Kernel.Ready.{
  get_highest_priority_thread, thread_ready_add_head, thread_ready_add_tail,
}
use nerd_rtos.Kernel.Scheduler.{
  is_running, pick_between, pick_from, refill, request_switch, requeue_current, schedule_core,
  schedule_pick_next, scheduler, should_switch,
}
use nerd_rtos.Kernel.State.{Kernel, Thread, ready, set_thread}

-- A running thread is on no list, and its timer is not armed.
pub running_fit :
    (th : Thread)
    → is_running th.stat ≡ true
    → IsFit th
    → (is_on th.qnode ≡ false) × (th.timer.armed ≡ false)
running_fit th r f = ground (arith, f.stat_fits)

-- What is left alone by the choice of a thread, and that the choice can be asked for.
pub record Picks (k : Kernel) (n : ℕ) (k' : Kernel) : Type 0 where
  pub wf : IsWf k'
  pub isready : (k'.threads n).stat ≡ ready
  pub idle : (t : ℕ) → is_running (k'.threads t).stat ≡ false
  pub request : k'.switch_request ≡ k.switch_request
  pub current : k'.current_thread ≡ k.current_thread

abbrev pub PicksIf : Kernel → Option ℕ × Kernel → Type 0
PicksIf k (none, k') = k' ≡ k
PicksIf k (some n, k') = Picks k n k'

abbrev Chosen : Kernel → Option ℕ × Kernel → Type 0
Chosen k (none, k') = ⊥
Chosen k (some n, k') = Picks k n k'

Chosen-PicksIf :
    (k l : Kernel) (r : Option ℕ × Kernel)
    → l.switch_request ≡ k.switch_request
    → l.current_thread ≡ k.current_thread
    → Chosen l r
    → PicksIf k r
Chosen-PicksIf k l (none, k') e f c = absurd c
Chosen-PicksIf k l (some n, k') e f c = record {
  wf = c.wf;
  isready = c.isready;
  idle = c.idle;
  request = c.request ∙ e;
  current = c.current ∙ f;
}

idle_of_current :
    (k : Kernel) (c : ℕ)
    → k.current_thread ≡ some c
    → is_running (k.threads c).stat ≡ false
    → IsWf k
    → (t : ℕ) → is_running (k.threads t).stat ≡ false
idle_of_current k c e stopped w t = ground (arith, w.only t)

module _ (k : Kernel) (n c : ℕ) (current : k.current_thread ≡ some c) (w : IsWf k) where
  requeued : Bool → Thread
  requeued b =
      let th : Thread = record (k.threads c) { stat = ready } in
      if b && not (th.time_slice == 0) then refill th else th

  requeued-IsAwake : (b : Bool) → is_running (k.threads c).stat ≡ true → IsAwake k c (requeued b)
  unfolding requeued
  requeued-IsAwake b r =
      let f = w.fit c in
      let (off, unarmed) = running_fit (k.threads c) r f in
      record {
        node = ground arith;
        off = off;
        awake = ground arith;
        timer_off = ground arith;
        priority_bound = ground (arith, f.priority_bound);
        join_head = ground (arith, f.join_head);
        init_bound = ground (arith, f.init_bound);
      }

  requeue-IsWf : (b : Bool) → is_running (k.threads c).stat ≡ true → IsWf (requeue_current k n c b)
  unfolding requeue_current requeued
  requeue-IsWf b r = elim (Bool-cases (ltb (k.threads n).priority (k.threads c).priority)) [
    | inl e ↦ rw e (add_head-IsWf k c (requeued b) (requeued-IsAwake b r) w)
    | inr e ↦ rw e (add_tail-IsWf k c (requeued b) (requeued-IsAwake b r) w)
  ]

  requeue-Picks :
      (b : Bool)
      → is_running (k.threads c).stat ≡ true
      → (k.threads n).stat ≡ ready
      → Picks k n (requeue_current k n c b)
  unfolding requeue_current thread_ready_add_head thread_ready_add_tail
  requeue-Picks b r isready = record {
    wf = requeue-IsWf b r;
    isready = ground arith;
    idle = λ t. ground (arith, w.only t);
    request = ground arith;
    current = ground arith;
  }

-- After the thread's request to yield is spent.
abbrev pub spend_yield : Kernel → ℕ → Kernel
spend_yield k c = set_thread k c (record (k.threads c) { yield = false })

spend_yield-IsWf : (k : Kernel) (c : ℕ) → IsWf k → IsWf (spend_yield k c)
spend_yield-IsWf k c w =
    set_thread-IsWf k c (record (k.threads c) { yield = false })
      (record {
        node = refl;
        stat = refl;
        timer = refl;
        priority = refl;
        join = refl;
        initial = refl;
      })
      w

module _ (k : Kernel) (n c : ℕ) (current : k.current_thread ≡ some c) (w : IsWf k) where
  stay-Picks : is_running (k.threads c).stat ≡ false → (k.threads n).stat ≡ ready → Picks k n k
  stay-Picks stopped isready = record {
    wf = w;
    isready = isready;
    idle = idle_of_current k c current stopped w;
    request = refl;
    current = refl;
  }

  leave-Chosen :
      (b : Bool)
      → (k.threads n).stat ≡ ready
      → Chosen k
          (if is_running (k.threads c).stat then (some n, requeue_current k n c b) else (some n, k))
  leave-Chosen b isready = elim (Bool-cases (is_running (k.threads c).stat)) [
    | inl e ↦ rw e (requeue-Picks k n c current w b e isready)
    | inr e ↦ rw e (stay-Picks e isready)
  ]

module _ (k : Kernel) (n c : ℕ) (current : k.current_thread ≡ some c) (w : IsWf k) where
  yield-PicksIf :
      (k.threads n).stat ≡ ready
      → PicksIf k (
          if is_running ((spend_yield k c).threads c).stat
          then (some n, requeue_current (spend_yield k c) n c true)
          else (some n, spend_yield k c))
  yield-PicksIf isready =
      Chosen-PicksIf k (spend_yield k c) _ refl refl
        (leave-Chosen (spend_yield k c) n c current (spend_yield-IsWf k c w) true (ground arith))

  pick_between-PicksIf : (k.threads n).stat ≡ ready → PicksIf k (pick_between k n c)
  unfolding pick_between should_switch
  pick_between-PicksIf isready =
      elim (Bool-cases (ltb (k.threads n).priority (k.threads c).priority)) [
        | inl e ↦ rw e (Chosen-PicksIf k k _ refl refl (leave-Chosen k n c current w false isready))
        | inr e ↦
            rw e
              (elim (Bool-cases
                ((k.threads n).priority == (k.threads c).priority && (k.threads c).yield)) [
                  | inl y ↦ rw y (yield-PicksIf isready)
                  | inr y ↦ rw y (elim (Bool-cases (is_running (k.threads c).stat)) [
                    | inl r ↦ rw r refl
                    | inr r ↦ rw r (rw r (stay-Picks k n c current w r isready))
                  ])
                ])
      ]

pick_from-PicksIf :
    (k : Kernel) (o c : Option ℕ)
    → k.current_thread ≡ c
    → ((n : ℕ) → o ≡ some n → (k.threads n).stat ≡ ready)
    → IsWf k
    → PicksIf k (pick_from k o c)
unfolding pick_from
pick_from-PicksIf k none c e h w = refl
pick_from-PicksIf k (some n) none e h w = refl
pick_from-PicksIf k (some n) (some c) e h w = pick_between-PicksIf k n c e w (h n refl)

-- The choice of the next thread keeps the invariant. If it chooses a thread, that thread is ready
-- and no thread is running any more; if not, nothing has changed.
pub schedule_pick_next-PicksIf : (k : Kernel) → IsWf k → PicksIf k (schedule_pick_next k)
unfolding schedule_pick_next
schedule_pick_next-PicksIf k w =
    pick_from-PicksIf k (get_highest_priority_thread k) k.current_thread refl
      (λ n e. (get_highest-ready w n e).0) w

request_switch-IsWf :
    (k : Kernel) (r : Option ℕ × Kernel) → IsWf k → PicksIf k r → IsWf (request_switch r)
request_switch-IsWf k (none, k') w e = rw e w
request_switch-IsWf k (some n, k') w c = record {
  rings = record { linked = c.wf.rings.linked; bits = c.wf.rings.bits; sound = c.wf.rings.sound };
  fit = c.wf.fit;
  only = c.wf.only;
  awaited = (c.isready, c.idle);
}

pub schedule_core-IsWf : (k : Kernel) → IsWf k → IsWf (schedule_core k)
unfolding schedule_core
schedule_core-IsWf k w =
    request_switch-IsWf k (schedule_pick_next k) w (schedule_pick_next-PicksIf k w)

-- A change of what the invariant does not speak of.
pub globals-IsWf :
    (k : Kernel) (n : ℕ) (b : Bool)
    → IsWf k
    → IsWf (record k { interrupt_nest_count = n; interrupt_try_switch = b })
globals-IsWf k n b w = record {
  rings = record { linked = w.rings.linked; bits = w.rings.bits; sound = w.rings.sound };
  fit = w.fit;
  only = w.only;
  awaited = w.awaited;
}

pub scheduler-IsWf : (k : Kernel) → IsWf k → IsWf (scheduler k)
unfolding scheduler
scheduler-IsWf k w = elim (Bool-cases (ltb 0 k.interrupt_nest_count)) [
  | inl e ↦ rw e (globals-IsWf k k.interrupt_nest_count true w)
  | inr e ↦ rw e (schedule_core-IsWf k w)
]
