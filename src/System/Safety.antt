-- ===== src/System/Safety.antt =====
-- What holds in every world that the started system reaches.
-- The world in which nd_scheduler_init has run on a kernel whose variables are zero.
use nerd_rtos.Common.{arith, count, true, ℕ, ◌<◌, ◌↔◌, ◌≡◌}
use nerd_rtos.Kernel.Boot.{IdleThread, scheduler_init}
use nerd_rtos.Kernel.Invariant.{IsWf}
use nerd_rtos.Kernel.Invariant.Boot.{IsBlank, scheduler_init-IsWf}
use nerd_rtos.Kernel.Invariant.Highest.{ready_of_on}
use nerd_rtos.Kernel.Scheduler.{is_running}
use nerd_rtos.Kernel.State.{ready, thread_priority_max}
use nerd_rtos.System.{Reaches}
use nerd_rtos.System.Reach.{Reaches-IsWf}
use nerd_rtos.World.{World, with_kernel}

abbrev pub booted : World → IdleThread → World
booted w i = with_kernel w (scheduler_init w.kernel i)

module _ (w v : World) (i : IdleThread) (blank : IsBlank w.kernel)
    (r : Reaches (booted w i) v) where
  pub boot-IsWf : IsWf v.kernel
  boot-IsWf = Reaches-IsWf (scheduler_init-IsWf w.kernel blank i) r

  -- In every world that a system started by nd_scheduler_init on zeroed variables reaches, no
  -- two different threads are in the running state.
  pub boot-one_runner :
      (t u : ℕ)
      → is_running (v.kernel.threads t).stat ≡ true
      → is_running (v.kernel.threads u).stat ≡ true
      → t ≡ u
  boot-one_runner t u a b = ground (arith, boot-IsWf.only t, boot-IsWf.only u)

  -- In every world that a system started by nd_scheduler_init on zeroed variables reaches, a
  -- thread stands once on the ready list of priority p exactly if it is ready and has priority
  -- p.
  pub boot-ready_queued :
      (t p : ℕ)
      → p < thread_priority_max
      → (count t (v.kernel.lists p) ≡ 1)
        ↔ (((v.kernel.threads t).stat ≡ ready) × ((v.kernel.threads t).priority ≡ p))
  boot-ready_queued t p lt =
      let s = boot-IsWf in
      (
        λ c. ready_of_on (v.kernel.threads t) p (ground (arith, s.rings.linked t p)) lt (s.fit t),
        λ (a, b). ground (arith, s.rings.linked t p, (s.fit t).stat_fits),
      )
