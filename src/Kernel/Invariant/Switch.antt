-- ===== src/Kernel/Invariant/Switch.antt =====
-- The switch to the next thread, and what the interrupt handlers do about it.
use nerd_rtos.Common.{
  Bool, Bool-cases, Option, arith, false, inl, inr, ltb, none, not, refl, some, true, update, ℕ,
  ◌<◌, ◌==◌, ◌∙◌, ◌≡◌, ◌≢◌, ◌≤◌,
}
use nerd_rtos.Kernel.Invariant.{Awaits, IsFit, IsLinked, IsWf}
use nerd_rtos.Kernel.Invariant.Moves.{Alike, Alike-IsFit, ready_remove-Updates}
use nerd_rtos.Kernel.Invariant.Rings.{set_thread-IsLinked}
use nerd_rtos.Kernel.Invariant.Scheduling.{
  PicksIf, globals-IsWf, schedule_core-IsWf, schedule_pick_next-PicksIf,
}
use nerd_rtos.Kernel.Invariant.Update.{Updates}
use nerd_rtos.Kernel.Links.{is_on, list_is_empty}
use nerd_rtos.Kernel.Ready.{thread_ready_remove}
use nerd_rtos.Kernel.Scheduler.{
  charge_previous, charge_slice, context_switch_cb, do_switch, is_running, run_thread,
  schedule_irq_exit, schedule_pick_next, start_slice, try_schedule,
}
use nerd_rtos.Kernel.State.{Kernel, Thread, ready, running, thread_priority_max, unlinked}

charge-Alike : (now : ℕ) (th : Thread) → Alike (charge_slice now th) th
charge-Alike now th = record {
  node = ground arith;
  stat = ground arith;
  timer = ground arith;
  priority = ground arith;
  join = ground arith;
  initial = ground arith;
}

start-Alike : (b : Bool) (now : ℕ) (th : Thread) → Alike (start_slice b now th) th
start-Alike b now th = record {
  node = ground arith;
  stat = ground arith;
  timer = ground arith;
  priority = ground arith;
  join = ground arith;
  initial = ground arith;
}

Alike-refl : (th : Thread) → Alike th th
Alike-refl th = record {
  node = refl;
  stat = refl;
  timer = refl;
  priority = refl;
  join = refl;
  initial = refl;
}

Alike-update :
    (ths : ℕ → Thread) (t : ℕ) (th : Thread) (u : ℕ)
    → Alike th (ths t)
    → Alike (update ths t th u) (ths u)
Alike-update ths t th u a = record {
  node = ground (arith, a.node);
  stat = ground (arith, a.stat);
  timer = ground (arith, a.timer);
  priority = ground (arith, a.priority);
  join = ground (arith, a.join);
  initial = ground (arith, a.initial);
}

charge_previous-Alike :
    (k : Kernel) (c : Option ℕ) (u : ℕ) → Alike ((charge_previous k c).threads u) (k.threads u)
charge_previous-Alike k none u = Alike-refl (k.threads u)
charge_previous-Alike k (some p) u =
    Alike-update k.threads p (charge_slice k.now (k.threads p)) u (charge-Alike k.now (k.threads p))

charge_previous-IsLinked : (k : Kernel) (c : Option ℕ) → IsLinked k → IsLinked (charge_previous k c)
charge_previous-IsLinked k none r = r
charge_previous-IsLinked k (some p) r =
    set_thread-IsLinked k p (charge_slice k.now (k.threads p))
      (charge-Alike k.now (k.threads p)).node r

request-charge :
    (k : Kernel) (c : Option ℕ) → (charge_previous k c).switch_request ≡ k.switch_request
request-charge k none = refl
request-charge k (some p) = refl

-- A thread that is to run next, once it is off its ready list.
pub record IsNext (th : Thread) : Type 0 where
  pub off : is_on th.qnode ≡ false
  pub timer_off : th.timer.armed ≡ false
  pub priority_bound : th.priority < thread_priority_max
  pub join_head : thread_priority_max ≤ th.join_list
  pub init_bound : th.init_priority < thread_priority_max

module _ (k : Kernel) (n : ℕ) where
  run_thread-IsLinked : IsLinked k → IsLinked (run_thread k n)
  run_thread-IsLinked r =
      let th : Thread = record (k.threads n) { stat = running } in
      let b = not (list_is_empty k th.priority) in
      let a = start-Alike b k.now th in
      let s = set_thread-IsLinked k n (start_slice b k.now th) (a.node) r in
      record { linked = s.linked; bits = s.bits; sound = s.sound }

  run-IsFit :
      (b : Bool)
      → IsNext (k.threads n)
      → IsFit (start_slice b k.now (record (k.threads n) { stat = running }))
  run-IsFit b x =
      Alike-IsFit _ (record (k.threads n) { stat = running })
        (start-Alike b k.now (record (k.threads n) { stat = running }))
        (record {
          stat_fits = (x.off, x.timer_off);
          priority_bound = x.priority_bound;
          join_head = x.join_head;
          init_bound = x.init_bound;
        })

  run_thread-IsWf :
      IsLinked k
      → IsNext (k.threads n)
      → ((u : ℕ) → u ≢ n → IsFit (k.threads u))
      → ((u : ℕ) → is_running (k.threads u).stat ≡ false)
      → k.switch_request ≡ false
      → IsWf (run_thread k n)
  run_thread-IsWf r x fit idle e = record {
    rings = run_thread-IsLinked r;
    fit = λ u. elim (Bool-cases (n == u)) [
      | inl same ↦ rw same (run-IsFit (not (list_is_empty k (k.threads n).priority)) x)
      | inr other ↦ rw other (fit u (ground arith))
    ];
    only = λ u. ground (arith, idle u);
    awaited = rw e tt;
  }

Alike-IsNext : (th old : Thread) → Alike th old → IsNext old → IsNext th
Alike-IsNext th old a x = record {
  off = ground (arith, a.node, x.off);
  timer_off = ground (arith, a.timer, x.timer_off);
  priority_bound = omega (arith, a.priority, x.priority_bound);
  join_head = omega (arith, a.join, x.join_head);
  init_bound = omega (arith, a.initial, x.init_bound);
}

module _ (k : Kernel) (n : ℕ) (w : IsWf k) (isready : (k.threads n).stat ≡ ready) where
  removed-Updates :
      Updates k n (record (k.threads n) { qnode = unlinked }) (thread_ready_remove k n)
  removed-Updates =
      let f = w.fit n in
      ready_remove-Updates k n (ground (arith, f.stat_fits)) f.priority_bound w.rings

  removed-IsNext : IsNext ((thread_ready_remove k n).threads n)
  removed-IsNext =
      let f = w.fit n in
      rw (removed-Updates.threads) (record {
        off = ground arith;
        timer_off = ground (arith, f.stat_fits);
        priority_bound = ground (arith, f.priority_bound);
        join_head = ground (arith, f.join_head);
        init_bound = ground (arith, f.init_bound);
      })

  removed_other : (u : ℕ) → u ≢ n → (thread_ready_remove k n).threads u ≡ k.threads u
  removed_other u ne = rw (removed-Updates.threads) (ground arith)

  removed_running :
      (u : ℕ)
      → is_running (k.threads u).stat ≡ false
      → is_running ((thread_ready_remove k n).threads u).stat ≡ false
  removed_running u idle = rw (removed-Updates.threads) (ground arith)

  -- A switch to a ready thread, while none runs, keeps the invariant.
  pub context_switch_cb-IsWf :
      ((u : ℕ) → is_running (k.threads u).stat ≡ false)
      → k.switch_request ≡ false
      → IsWf (context_switch_cb k (some n))
  unfolding context_switch_cb
  context_switch_cb-IsWf idle e =
      let k1 = thread_ready_remove k n in
      let k2 = charge_previous k1 k.current_thread in
      let like = charge_previous-Alike k1 k.current_thread in
      run_thread-IsWf k2 n (charge_previous-IsLinked k1 k.current_thread removed-Updates.rings)
        (Alike-IsNext _ (k1.threads n) (like n) removed-IsNext)
        (λ u ne. Alike-IsFit _ (k1.threads u) (like u) (rw (removed_other u ne) (w.fit u)))
        (λ u. ground (arith, (like u).stat, removed_running u (idle u)))
        (request-charge k1 k.current_thread ∙ (removed-Updates.request ∙ e))

cleared-IsWf : (k : Kernel) → IsWf k → IsWf (record k { switch_request = false })
cleared-IsWf k w = record {
  rings = record { linked = w.rings.linked; bits = w.rings.bits; sound = w.rings.sound };
  fit = w.fit;
  only = w.only;
  awaited = tt;
}

do_switch-at :
    (k : Kernel) (b : Bool) (o : Option ℕ)
    → IsWf k
    → Awaits k.threads b o
    → b ≡ true
    → IsWf (context_switch_cb (record k { switch_request = false }) o)
do_switch-at k false o w a e = cc
do_switch-at k true none w a e = absurd a
do_switch-at k true (some n) w (isready, idle) e =
    context_switch_cb-IsWf (record k { switch_request = false }) n (cleared-IsWf k w) isready idle
      refl

-- The switch that was asked for keeps the invariant.
pub do_switch-IsWf : (k : Kernel) → k.switch_request ≡ true → IsWf k → IsWf (do_switch k)
unfolding do_switch
do_switch-IsWf k e w = do_switch-at k k.switch_request k.next_thread w w.awaited e

irq_exit-at :
    (k : Kernel) (r : Option ℕ × Kernel)
    → IsWf k
    → k.switch_request ≡ false
    → PicksIf k r
    → let (n, k') = r in IsWf (context_switch_cb k' n)
unfolding context_switch_cb
irq_exit-at k (none, k') w e p = rw p w
irq_exit-at k (some n, k') w e p = context_switch_cb-IsWf k' n p.wf p.isready p.idle (p.request ∙ e)

-- So does a switch at the end of an interrupt, where none is asked for already.
pub schedule_irq_exit-IsWf :
    (k : Kernel) → k.switch_request ≡ false → IsWf k → IsWf (schedule_irq_exit k)
unfolding schedule_irq_exit
schedule_irq_exit-IsWf k e w =
    let k' : Kernel = record k { interrupt_try_switch = false } in
    let w' = globals-IsWf k k.interrupt_nest_count false w in
    elim (Bool-cases k.interrupt_try_switch) [
      | inl f ↦
          simp f (irq_exit-at k' (schedule_pick_next k') w' e (schedule_pick_next-PicksIf k' w'))
      | inr f ↦ simp f w
    ]

pub try_schedule-IsWf : (k : Kernel) → IsWf k → IsWf (try_schedule k)
unfolding try_schedule
try_schedule-IsWf k w = elim (Bool-cases (ltb 0 k.interrupt_nest_count)) [
  | inl e ↦ rw e w
  | inr e ↦ rw e (elim (Bool-cases k.interrupt_try_switch) [
    | inl f ↦ simp f (schedule_core-IsWf _ (globals-IsWf k k.interrupt_nest_count false w))
    | inr f ↦ simp f w
  ])
]
