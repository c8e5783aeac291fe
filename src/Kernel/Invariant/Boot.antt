-- ===== src/Kernel/Invariant/Boot.antt =====
-- nd_scheduler_init and the first switch, and the kernel's invariant.
use nerd_rtos.Common.{Option, [], arith, count-nil, false, inl, none, refl, some, ℕ, ◌≡◌, ◌≤◌}
use nerd_rtos.Kernel.Boot.{IdleThread, first_switch, idle_args, init_lists, scheduler_init}
use nerd_rtos.Kernel.Invariant.{IsWf}
use nerd_rtos.Kernel.Invariant.Create.{thread_create-IsWf}
use nerd_rtos.Kernel.Invariant.Highest.{get_highest-ready}
use nerd_rtos.Kernel.Invariant.Switch.{context_switch_cb-IsWf}
use nerd_rtos.Kernel.Ready.{get_highest_priority_thread}
use nerd_rtos.Kernel.Scheduler.{context_switch_cb}
use nerd_rtos.Kernel.State.{Kernel, init, thread_priority_max, unlinked}

-- Memory as it is before the kernel runs: all threads zero, no list in use, no interrupt.
pub record IsBlank (k : Kernel) : Type 0 where
  pub thread_zero :
      (t : ℕ)
      → ((k.threads t).stat ≡ init)
        × ((k.threads t).qnode ≡ unlinked)
        × ((k.threads t).timer.armed ≡ false)
        × ((k.threads t).priority ≡ 0)
        × ((k.threads t).init_priority ≡ 0)
        × (thread_priority_max ≤ (k.threads t).join_list)
  pub lists_empty : (h : ℕ) → k.lists h ≡ []
  pub bits_zero : (p : ℕ) → k.thread_ready_bit p ≡ false
  pub no_thread : k.current_thread ≡ none
  pub no_request : k.switch_request ≡ false
  pub no_fault : k.fault ≡ false
  pub outside : k.interrupt_nest_count ≡ 0

module _ (k : Kernel) (b : IsBlank k) where
  blank-IsWf : IsWf k
  blank-IsWf = record {
    rings = record {
      linked = λ t h. ground (arith, b.thread_zero t, b.lists_empty h, count-nil t);
      bits = λ p lt. ground (arith, b.lists_empty p, b.bits_zero p);
      sound = b.no_fault;
    };
    fit = λ t. record {
      stat_fits = ground (arith, b.thread_zero t);
      priority_bound = ground (arith, b.thread_zero t);
      join_head = ground (arith, b.thread_zero t);
      init_bound = ground (arith, b.thread_zero t);
    };
    only = λ t. ground (arith, b.thread_zero t);
    awaited = rw (b.no_request) tt;
  }

  cleared : Kernel
  cleared = record k { thread_list = []; lists = init_lists k.lists }

  cleared-IsWf : IsWf cleared
  unfolding cleared
  cleared-IsWf =
      let w = blank-IsWf in
      record {
        rings = record {
          linked = λ t h. ground (arith, w.rings.linked t h, b.lists_empty h, count-nil t);
          bits = λ p lt. ground (arith, w.rings.bits p, b.lists_empty p);
          sound = w.rings.sound;
        };
        fit = w.fit;
        only = w.only;
        awaited = w.awaited;
      }

  -- After nd_scheduler_init the invariant holds.
  pub scheduler_init-IsWf : (i : IdleThread) → IsWf (scheduler_init k i)
  unfolding scheduler_init cleared
  scheduler_init-IsWf i =
      thread_create-IsWf cleared (idle_args i)
        (record {
          idle = inl (b.thread_zero i.thread).0;
          alone = ground (arith, b.lists_empty (k.threads i.thread).join_list);
        })
        cleared-IsWf

module _ (k : Kernel) where
  first-at :
      (o : Option ℕ)
      → get_highest_priority_thread k ≡ o
      → k.current_thread ≡ none
      → k.switch_request ≡ false
      → IsWf k
      → IsWf (context_switch_cb k o)
  unfolding context_switch_cb
  first-at none e c q w = w
  first-at (some n) e c q w =
      context_switch_cb-IsWf k n w (get_highest-ready w n e).0 (λ u. ground (arith, w.only u)) q

  -- The first switch keeps it.
  pub first_switch-IsWf :
      k.current_thread ≡ none → k.switch_request ≡ false → IsWf k → IsWf (first_switch k)
  unfolding first_switch
  first_switch-IsWf c q w = first-at (get_highest_priority_thread k) refl c q w
