-- ===== src/Ipc/Event/Keeps.antt =====
-- The event calls and the kernel's invariant.
use Prim.Native.Nat.{bit_or}
use nerd_rtos.Common.{
  Bool-cases, List, [], ap, arith, count, inl, inr, refl, true, ℕ, ◌==◌, ◌∙◌, ◌∷◌, ◌≡◌, ◌≢◌, ◌≤◌,
}
use nerd_rtos.Ipc.Event.{
  Event, event_is_satisfied, event_recv, event_send, event_wakeup, send_loop, send_one,
}
use nerd_rtos.Kernel.Invariant.{IsWf}
use nerd_rtos.Kernel.Invariant.Moves.{
  Updates-trans, add_tail-Updates, list_remove-Updates, set_thread-IsWf,
}
use nerd_rtos.Kernel.Invariant.Scheduling.{scheduler-IsWf}
use nerd_rtos.Kernel.Invariant.Sleep.{thread_pend-IsWf}
use nerd_rtos.Kernel.Invariant.Update.{IsWf-update, Updates}
use nerd_rtos.Kernel.Invariant.Waits.{retarget, threads_at}
use nerd_rtos.Kernel.Links.{is_on, list_remove}
use nerd_rtos.Kernel.Scheduler.{is_running, timer_stop}
use nerd_rtos.Kernel.State.{
  EventOpt, Kernel, Thread, on, ready, set_thread, thread_priority_max, timeout_nowait,
}

-- A woken thread.
woken : Thread → Thread
woken th = record th { timer = timer_stop th.timer; stat = ready; qnode = on th.priority }

module _ (k : Kernel) (t h : ℕ) (at : (k.threads t).qnode ≡ on h) (above : thread_priority_max ≤ h)
    (w : IsWf k) where
  event_wakeup-Updates : Updates k t (woken (k.threads t)) (event_wakeup k t)
  unfolding event_wakeup woken
  event_wakeup-Updates =
      let f = w.fit t in
      let d = list_remove-Updates k t h at above w.rings in
      let old = threads_at d in
      let k1 = list_remove k t in
      let th : Thread = record (k1.threads t) {
        timer = timer_stop (k1.threads t).timer;
        stat = ready;
      } in
      let d2 =
        add_tail-Updates k1 t th refl (ap (λ (x : Thread). is_on x.qnode) old)
          (ground (arith, f.priority_bound)) d.rings in
      retarget (ap woken old) (Updates-trans d d2)

  -- A thread that waits for events is ready after nd_event_wakeup.
  pub event_wakeup-IsWf : IsWf (event_wakeup k t)
  unfolding woken
  event_wakeup-IsWf =
      let f = w.fit t in
      IsWf-update k t (woken (k.threads t)) event_wakeup-Updates
        (record {
          stat_fits = (refl, refl);
          priority_bound = f.priority_bound;
          join_head = f.join_head;
          init_bound = f.init_bound;
        })
        (inl (λ r. refl)) (ground arith) w

  event_wakeup_other : (u : ℕ) → u ≢ t → (event_wakeup k t).threads u ≡ k.threads u
  event_wakeup_other u ne = rw (event_wakeup-Updates.threads) (ground arith)

-- The threads of a list that are on the list of head `h`, each once.
abbrev AllOn : Kernel → ℕ → List ℕ → Type 0
AllOn k h [] = Unit {0}
AllOn k h (t ∷ ts) = ((k.threads t).qnode ≡ on h) × (count t ts ≡ 0) × AllOn k h ts

count_tail : (t u : ℕ) (us : List ℕ) → count t (u ∷ us) ≡ 0 → (u ≢ t) × (count t us ≡ 0)
unfolding count
count_tail t u us c = (ground arith, ground arith)

-- The wakeup of another thread moves none of them.
AllOn-wakeup :
    (k : Kernel) (h t : ℕ) (ts : List ℕ)
    → (k.threads t).qnode ≡ on h
    → thread_priority_max ≤ h
    → IsWf k
    → count t ts ≡ 0
    → AllOn k h ts
    → AllOn (event_wakeup k t) h ts
AllOn-wakeup k h t [] at above w c a = tt
AllOn-wakeup k h t (u ∷ us) at above w c (here, once, a) =
    let (ne, c') = count_tail t u us c in
    (
      ap (λ (x : Thread). x.qnode) (event_wakeup_other k t h at above w u ne) ∙ here,
      once,
      AllOn-wakeup k h t us at above w c' a,
    )

send_one-IsWf :
    (t h : ℕ) (ts : List ℕ) (r : ℕ × Kernel)
    → thread_priority_max ≤ h
    → AllOn r.1 h (t ∷ ts)
    → IsWf r.1
    → IsWf (send_one t r).1 × AllOn (send_one t r).1 h ts
unfolding send_one
send_one-IsWf t h ts (set, k) above (at, once, a) w =
    elim (Bool-cases (event_is_satisfied set (k.threads t).event_set (k.threads t).event_opt)) [
      | inl e ↦ rw e (event_wakeup-IsWf k t h at above w, AllOn-wakeup k h t ts at above w once a)
      | inr e ↦ rw e (w, a)
    ]

send_loop-IsWf :
    (ts : List ℕ) (h : ℕ) (r : ℕ × Kernel)
    → thread_priority_max ≤ h
    → AllOn r.1 h ts
    → IsWf r.1
    → IsWf (send_loop ts r).1
unfolding send_loop
send_loop-IsWf [] h r above a w = w
send_loop-IsWf (t ∷ ts) h r above a w =
    let (w', a') = send_one-IsWf t h ts r above a w in
    send_loop-IsWf ts h (send_one t r) above a' w'

AllOn-of :
    (k : Kernel) (h : ℕ) (ts : List ℕ)
    → ((t : ℕ) → count t ts ≤ 1)
    → ((t : ℕ) → count t ts ≢ 0 → (k.threads t).qnode ≡ on h)
    → AllOn k h ts
unfolding count
AllOn-of k h [] once there = tt
AllOn-of k h (t ∷ ts) once there = (
  there t (ground arith),
  ground (arith, once t),
  AllOn-of k h ts (λ u. ground (arith, once u)) (λ u c. there u (ground arith)),
)

-- What a list holds is on it.
AllOn-list : (k : Kernel) (h : ℕ) → IsWf k → AllOn k h (k.lists h)
AllOn-list k h w =
    AllOn-of k h (k.lists h) (λ t. ground (arith, w.rings.linked t h))
      (λ t c. ground (arith, w.rings.linked t h))

pub event_send-IsWf :
    (k : Kernel) (e : Event) (set : ℕ)
    → thread_priority_max ≤ e.wait_list
    → IsWf k
    → IsWf (event_send k e set).1
unfolding event_send
event_send-IsWf k e set above w = scheduler-IsWf _ (
    send_loop-IsWf (k.lists e.wait_list) e.wait_list (bit_or e.set set, k) above
      (AllOn-list k e.wait_list w) w)

pub event_recv-IsWf :
    (k : Kernel) (c : ℕ) (e : Event) (set : ℕ) (opt : EventOpt) (timeout : ℕ)
    → is_running (k.threads c).stat ≡ true
    → thread_priority_max ≤ e.wait_list
    → IsWf k
    → IsWf (event_recv k c e set opt timeout).2
unfolding event_recv
event_recv-IsWf k c e set opt timeout run above w =
    let k' = set_thread k c (record (k.threads c) { event_set = set; event_opt = opt }) in
    let w' =
      set_thread-IsWf k c (record (k.threads c) { event_set = set; event_opt = opt })
        (record {
          node = refl;
          stat = refl;
          timer = refl;
          priority = refl;
          join = refl;
          initial = refl;
        })
        w in
    elim (Bool-cases (event_is_satisfied e.set set opt)) [
      | inl f ↦ rw f w'
      | inr f ↦ rw f (elim (Bool-cases (timeout == timeout_nowait)) [
        | inl g ↦ rw g w'
        | inr g ↦
            rw g
              (scheduler-IsWf _ (thread_pend-IsWf k' c e.wait_list timeout (ground arith) above w'))
      ])
    ]
