-- ===== src/Kernel/Invariant/Halt.antt =====
-- The end of a thread, and joining one, and the kernel's invariant.
use nerd_rtos.Common.{
  Bool-cases, Option, ap, arith, count, false, inl, inr, is_at, length, none, refl, some, subst,
  sym, true, ℕ, ◌==◌, ◌∙◌, ◌≡◌, ◌≢◌, ◌⊎◌,
}
use nerd_rtos.Kernel.Invariant.{IsWf}
use nerd_rtos.Kernel.Invariant.Moves.{Updates-trans, ready_remove-Updates, set_thread-Updates}
use nerd_rtos.Kernel.Invariant.Scheduling.{scheduler-IsWf}
use nerd_rtos.Kernel.Invariant.Sleep.{thread_pend-IsWf, wake_all-IsWf}
use nerd_rtos.Kernel.Invariant.Suspend.{
  block_fit, ready_fit, stays-Updates, unlink_if_linked-Updates,
}
use nerd_rtos.Kernel.Invariant.Update.{IsWf-update, Updates}
use nerd_rtos.Kernel.Invariant.Waits.{retarget, threads_at}
use nerd_rtos.Kernel.Links.{is_on, list_remove, unlink}
use nerd_rtos.Kernel.Ready.{thread_ready_remove}
use nerd_rtos.Kernel.Scheduler.{is_running, timer_stop}
use nerd_rtos.Kernel.State.{
  Kernel, Link, Thread, ThreadStat, block, dead, init, ready, running, suspend, timeout_nowait,
  unlinked,
}
use nerd_rtos.Kernel.Thread.{
  halt_dead, halt_unlink, is_dead, is_essential, thread_abort, thread_halt, thread_join,
}

halt_unlink-Updates :
    (k : Kernel) (t : ℕ) (s : ThreadStat)
    → (k.threads t).stat ≡ s
    → IsWf k
    → (l : Link) × (is_on l ≡ false)
      × Updates k t (record (k.threads t) { qnode = l }) (halt_unlink s k t)
unfolding halt_unlink
halt_unlink-Updates k t ready e w =
    let f = w.fit t in
    (
      unlinked,
      refl,
      ready_remove-Updates k t (ready_fit (k.threads t) e f).0 f.priority_bound w.rings,
    )
halt_unlink-Updates k t block e w = (
  unlinked,
  refl,
  unlink_if_linked-Updates k t (k.threads t) refl (block_fit (k.threads t) e (w.fit t)) w.rings,
)
halt_unlink-Updates k t init e w =
    let f = w.fit t in ((k.threads t).qnode, ground (arith, f.stat_fits), stays-Updates k t w.rings)
halt_unlink-Updates k t running e w =
    let f = w.fit t in ((k.threads t).qnode, ground (arith, f.stat_fits), stays-Updates k t w.rings)
halt_unlink-Updates k t suspend e w =
    let f = w.fit t in ((k.threads t).qnode, ground (arith, f.stat_fits), stays-Updates k t w.rings)
halt_unlink-Updates k t dead e w =
    let f = w.fit t in ((k.threads t).qnode, ground (arith, f.stat_fits), stays-Updates k t w.rings)

-- The thread is on the list of all threads, or it has ended: it was created.
abbrev pub IsCreated : Kernel → ℕ → Type 0
IsCreated k t = (is_dead (k.threads t).stat ≡ true) ⊎ (count t k.thread_list ≢ 0)

-- So was the thread that a call names, if it names one.
abbrev pub CreatedIf : Kernel → Option ℕ → Type 0
CreatedIf k none = Unit {0}
CreatedIf k (some t) = IsCreated k t

halt_unlink-thread_list :
    (s : ThreadStat) (k : Kernel) (t : ℕ) → (halt_unlink s k t).thread_list ≡ k.thread_list
unfolding halt_unlink thread_ready_remove list_remove unlink
halt_unlink-thread_list ready k t = ground arith
halt_unlink-thread_list block k t = ground arith
halt_unlink-thread_list init k t = refl
halt_unlink-thread_list running k t = refl
halt_unlink-thread_list suspend k t = refl
halt_unlink-thread_list dead k t = refl

module _ (k : Kernel) (t : ℕ) (l : Link) (k' : Kernel) (created : count t k'.thread_list ≢ 0) where
  pub halt_dead-Updates :
      Updates k t (record (k.threads t) { qnode = l }) k'
      → let th = k.threads t in
        Updates k t
          (record th {
            qnode = l;
            stat = dead;
            timer = timer_stop th.timer;
            slice_timer = timer_stop th.slice_timer;
          })
          (halt_dead k' t)
  unfolding halt_dead
  halt_dead-Updates d =
      let th' : Thread = record (k'.threads t) {
        stat = dead;
        timer = timer_stop (k'.threads t).timer;
        slice_timer = timer_stop (k'.threads t).slice_timer;
      } in
      let s = set_thread-Updates k' t th' refl d.rings in
      let r = s.rings in
      let e = Updates-trans d s in
      retarget (ap dying (threads_at d)) (record {
        rings = record {
          linked = r.linked;
          bits = r.bits;
          sound = ground (arith, created, d.rings.sound);
        };
        threads = e.threads;
        current = e.current;
        next = e.next;
        request = e.request;
      })
    where
      dying : Thread → Thread
      dying x = record x {
        stat = dead;
        timer = timer_stop x.timer;
        slice_timer = timer_stop x.slice_timer;
      }

  halt_dead-IsWf :
      is_on l ≡ false
      → Updates k t (record (k.threads t) { qnode = l }) k'
      → k.switch_request ≡ false
      → IsWf k
      → IsWf (halt_dead k' t)
  halt_dead-IsWf off d quiet w =
      let f = w.fit t in
      IsWf-update k t _ (halt_dead-Updates d)
        (record {
          stat_fits = (off, refl);
          priority_bound = f.priority_bound;
          join_head = f.join_head;
          init_bound = f.init_bound;
        })
        (inr quiet) (ground arith) w

still_listed :
    (k : Kernel) (t : ℕ)
    → count t k.thread_list ≢ 0
    → count t (halt_unlink (k.threads t).stat k t).thread_list ≢ 0
still_listed k t created =
    subst (λ l. count t l ≢ 0) (sym (halt_unlink-thread_list (k.threads t).stat k t)) created

pub halted-IsWf :
    (k : Kernel) (t : ℕ)
    → k.switch_request ≡ false
    → count t k.thread_list ≢ 0
    → IsWf k
    → IsWf (halt_dead (halt_unlink (k.threads t).stat k t) t)
halted-IsWf k t quiet created w =
    let (l, off, d) = halt_unlink-Updates k t (k.threads t).stat refl w in
    halt_dead-IsWf k t l _ (still_listed k t created) off d quiet w

-- The end of a thread does not change another thread.
pub halted-other :
    (k : Kernel) (t : ℕ)
    → count t k.thread_list ≢ 0
    → IsWf k
    → (u : ℕ) → u ≢ t
    → (halt_dead (halt_unlink (k.threads t).stat k t) t).threads u ≡ k.threads u
halted-other k t created w u other =
    let (l, off, d) = halt_unlink-Updates k t (k.threads t).stat refl w in
    let ne : (t == u) ≡ false = ground (arith, other) in
    ap (λ ths. ths u) (halt_dead-Updates k t l _ (still_listed k t created) d).threads ∙ rw ne refl

-- nd_thread_halt of a thread that was created keeps the invariant, where no switch is asked for.
pub thread_halt-IsWf :
    (k : Kernel) (t : ℕ)
    → k.switch_request ≡ false
    → IsCreated k t
    → IsWf k
    → IsWf (thread_halt k t)
unfolding thread_halt
thread_halt-IsWf k t quiet (inl dead_before) w = rw dead_before w
thread_halt-IsWf k t quiet (inr created) w =
    let k' = halt_dead (halt_unlink (k.threads t).stat k t) t in
    let h = (k.threads t).join_list in
    let f = w.fit t in
    let w' = halted-IsWf k t quiet created w in
    let woken = wake_all-IsWf (length (k'.lists h)) k' h f.join_head w' in
    elim (Bool-cases (is_dead (k.threads t).stat)) [
      | inl e ↦ rw e w
      | inr e ↦ rw e (elim (Bool-cases (is_at k.current_thread t)) [
        | inl c ↦ rw c (scheduler-IsWf _ woken)
        | inr c ↦ rw c woken
      ])
    ]

pub thread_abort-IsWf :
    (k : Kernel) (t : Option ℕ)
    → k.switch_request ≡ false
    → CreatedIf k t
    → IsWf k
    → IsWf (thread_abort k t).1
unfolding thread_abort
thread_abort-IsWf k none quiet c w = w
thread_abort-IsWf k (some t) quiet created w = elim (Bool-cases (is_dead (k.threads t).stat)) [
  | inl e ↦ rw e w
  | inr e ↦ rw e (elim (Bool-cases (is_essential (k.threads t))) [
    | inl f ↦ rw f w
    | inr f ↦ rw f (thread_halt-IsWf k t quiet created w)
  ])
]

-- nd_thread_join by a running thread.
pub thread_join-IsWf :
    (k : Kernel) (c : ℕ) (t : Option ℕ) (timeout : ℕ)
    → is_running (k.threads c).stat ≡ true
    → IsWf k
    → IsWf (thread_join k c t timeout).1
unfolding thread_join
thread_join-IsWf k c none timeout run w = w
thread_join-IsWf k c (some t) timeout run w = elim (Bool-cases (t == c)) [
  | inl e ↦ rw e w
  | inr e ↦ rw e (elim (Bool-cases (is_dead (k.threads t).stat)) [
    | inl f ↦ rw f w
    | inr f ↦ rw f (elim (Bool-cases (timeout == timeout_nowait)) [
      | inl g ↦ rw g w
      | inr g ↦ rw g (scheduler-IsWf _ (thread_pend-IsWf k c _ timeout run (w.fit t).join_head w))
    ])
  ])
]
