-- ===== src/Kernel/Invariant/Create.antt =====
-- The creation of a thread and the kernel's invariant.
use nerd_rtos.Common.{
  Bool-cases, Option, [], arith, count-nil, false, fun_ext, inl, inr, none, refl, some, update, ℕ,
  ◌++◌, ◌<◌, ◌∙◌, ◌∷◌, ◌≡◌, ◌⊎◌,
}
use nerd_rtos.Kernel.Invariant.{IsFit, IsLinked, IsWf}
use nerd_rtos.Kernel.Invariant.Scheduling.{scheduler-IsWf}
use nerd_rtos.Kernel.Invariant.Update.{IsWf-update, Updates}
use nerd_rtos.Kernel.Invariant.Waits.{ready_again-Updates}
use nerd_rtos.Kernel.Links.{is_on}
use nerd_rtos.Kernel.State.{Kernel, Thread, dead, init, on, ready, thread_priority_max}
use nerd_rtos.Kernel.Thread.{
  CreateArgs, create_at, create_ready, refuses, thread_create, thread_init,
}
use nerd_rtos.Memheap.System.{free}

-- A thread control block that the kernel does not use: never started or at its end, and with
-- nobody waiting for it.
pub record IsFree (k : Kernel) (t : ℕ) : Type 0 where
  pub idle : ((k.threads t).stat ≡ init) ⊎ ((k.threads t).stat ≡ dead)
  pub alone : k.lists (k.threads t).join_list ≡ []

idle_fit : (th : Thread) → (th.stat ≡ init) ⊎ (th.stat ≡ dead) → IsFit th → is_on th.qnode ≡ false
idle_fit th e f = ground (arith, f.stat_fits)

module _ (k : Kernel) (t : ℕ) (args : CreateArgs) where
  -- The thread as nd_thread_create leaves it, and the state before it is put on its ready list.
  created : Thread
  created =
      let th = thread_init (k.threads t) args.priority args.time_slice in
      record th { options = args.options; stat = ready }

  listed : Kernel
  unfolding created thread_init
  listed = record k {
    threads = update k.threads t created;
    lists = update k.lists (k.threads t).join_list [];
    thread_list = k.thread_list ++ t ∷ [];
  }

  listed-IsLinked : IsFree k t → IsWf k → IsLinked listed
  unfolding listed
  listed-IsLinked free w =
      let r = w.rings in
      let off = idle_fit (k.threads t) free.idle (w.fit t) in
      record {
        linked = λ u h. ground (arith, r.linked u h, free.alone, count-nil u, off);
        bits = λ p lt. ground (arith, r.bits p, (w.fit t).join_head);
        sound = r.sound;
      }

  create_ready-Updates :
      IsFree k t
      → args.priority < thread_priority_max
      → IsWf k
      → Updates k t (record created { qnode = on created.priority }) (create_ready k t args)
  unfolding create_ready listed
  create_ready-Updates free lt w =
      let d =
        ready_again-Updates listed t created (ground arith) (listed-IsLinked free w) refl lt in
      record {
        rings = d.rings;
        threads = d.threads ∙ fun_ext λ u. ground arith;
        current = d.current;
        next = d.next;
        request = d.request;
      }

  create_ready-IsWf :
      IsFree k t → args.priority < thread_priority_max → IsWf k → IsWf (create_ready k t args)
  unfolding created thread_init
  create_ready-IsWf free lt w =
      IsWf-update k t (record created { qnode = on created.priority })
        (create_ready-Updates free lt w)
        (record {
          stat_fits = (refl, refl);
          priority_bound = lt;
          join_head = (w.fit t).join_head;
          init_bound = lt;
        })
        (inl (λ r. refl)) (ground arith) w

abbrev pub FreeIf : Kernel → Option ℕ → Type 0
FreeIf k none = Unit {0}
FreeIf k (some t) = IsFree k t

create-at :
    (k : Kernel) (o : Option ℕ) (args : CreateArgs)
    → FreeIf k o
    → IsWf k
    → IsWf (create_at o k args).1
unfolding create_at
create-at k none args free w = w
create-at k (some t) args free w = elim (Bool-cases (refuses args)) [
  | inl e ↦ rw e w
  | inr e ↦ rw e (scheduler-IsWf _ (create_ready-IsWf k t args free (ground arith) w))
]

-- nd_thread_create on a free control block keeps the invariant.
pub thread_create-IsWf :
    (k : Kernel) (args : CreateArgs) → FreeIf k args.thread → IsWf k → IsWf (thread_create k args).1
unfolding thread_create
thread_create-IsWf k args free w = create-at k args.thread args free w
