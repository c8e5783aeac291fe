-- ===== src/Examples/Runs.antt =====
-- The system as it starts, and the scheduler's theorems at its states.
use nerd_rtos.Common.{
  [], arith, count, erase, inl, refl, some, true, ℕ, ◌++◌, ◌↔◌, ◌∷◌, ◌≡◌, ◌≢◌, ◌≤◌,
}
use nerd_rtos.Examples.{
  blank, blank_kernel, contended, idle, idling, joined, locked, power_up, worker, working,
}
use nerd_rtos.Examples.States.{start_facts, waiting_facts, working_facts}
use nerd_rtos.Ipc.Mutex.{
  change_by_stat, change_priority, inherit, lock_by_owner, lock_held, mutex_init, mutex_lock,
}
use nerd_rtos.Ipc.Mutex.Keeps.{mutex_lock-IsWf}
use nerd_rtos.Kernel.Boot.{first_switch, scheduler_init}
use nerd_rtos.Kernel.Invariant.{IsWf}
use nerd_rtos.Kernel.Invariant.Boot.{first_switch-IsWf, scheduler_init-IsWf}
use nerd_rtos.Kernel.Invariant.Create.{IsFree, thread_create-IsWf}
use nerd_rtos.Kernel.Invariant.Halt.{thread_join-IsWf}
use nerd_rtos.Kernel.Invariant.Highest.{get_highest-ready}
use nerd_rtos.Kernel.Invariant.Priority.{schedule_core-leads}
use nerd_rtos.Kernel.Invariant.Switch.{do_switch-IsWf}
use nerd_rtos.Kernel.Links.{list_insert_after, list_insert_before, list_remove, unlink}
use nerd_rtos.Kernel.Ready.{
  ffs, ffs_from, get_highest_priority_thread, thread_ready_add_head, thread_ready_add_tail,
  thread_ready_remove,
}
use nerd_rtos.Kernel.Scheduler.{
  context_switch_cb, do_switch, is_running, pick_between, pick_from, requeue_current, schedule_core,
  schedule_pick_next, scheduler, should_switch,
}
use nerd_rtos.Kernel.State.{eok, ready, timeout_forever}
use nerd_rtos.Kernel.Thread.{
  create_at, create_ready, insert_by_priority, thread_create, thread_halt, thread_init, thread_join,
  thread_pend, thread_wait_insert, thread_wakeup, wake, wake_first,
}
use nerd_rtos.Kernel.Waiting.Joiners.{IsReleasedBy, thread_halt-joiners}
use nerd_rtos.Kernel.Waiting.Order.{
  AllFrom, IsSorted, lower, not_lower, thread_wait_insert-ordered, thread_wakeup-highest,
}
use nerd_rtos.System.{
  Reaches, at_start, call_step, init_step, locks, run_call, start_step, then_step,
}
use nerd_rtos.System.Safety.{boot-one_runner, boot-ready_queued, booted}
use nerd_rtos.World.{World, mutex_inits, run_init, with_kernel}

idling-IsWf : IsWf idling
idling-IsWf =
    first_switch-IsWf (scheduler_init blank idle) start_facts.booted_current
      start_facts.booted_quiet (scheduler_init-IsWf blank blank_kernel idle)

pub locked-IsWf : IsWf locked
locked-IsWf =
    mutex_lock-IsWf idling 0 0 0 start_facts.idling_running (omega (arith, start_facts.mutex_head))
      idling-IsWf

worker-IsFree : IsFree locked 1
worker-IsFree = record { idle = inl start_facts.worker_idle; alone = start_facts.worker_alone }

pub created-IsWf : IsWf (thread_create locked worker).1
created-IsWf = thread_create-IsWf locked worker worker-IsFree locked-IsWf

pub working-IsWf : IsWf working
working-IsWf =
    do_switch-IsWf (thread_create locked worker).1 start_facts.created_request created-IsWf

pub contended-IsWf : IsWf contended
contended-IsWf =
    do_switch-IsWf (mutex_lock working 1 0 timeout_forever).1 working_facts.pended_request (
      mutex_lock-IsWf working 1 0 timeout_forever working_facts.working_running
        (omega (arith, working_facts.working_head)) working-IsWf)

joined-IsWf : IsWf joined
joined-IsWf =
    do_switch-IsWf (thread_join working 1 (some 0) timeout_forever).1 waiting_facts.joined_request (
      thread_join-IsWf working 1 (some 0) timeout_forever working_facts.working_running
        working-IsWf)

abbrev switched : World
switched = with_kernel (booted power_up idle) idling

abbrev ahead : World
ahead = run_call (locks 0 0) 0 (run_init (mutex_inits 0) switched)

-- The start, the initialisation of a mutex, and a call that locks it.
progress : Reaches (booted power_up idle) ahead
unfolding run_call run_init mutex_init
progress =
    then_step
      (then_step
        (then_step at_start (start_step start_facts.booted_current start_facts.booted_quiet))
        (init_step (mutex_inits 0) (record {
          above = omega (arith, start_facts.mutex_head);
          empty = start_facts.mutex_free;
        })))
      (call_step 0 (locks 0 0)
        (record {
          current = start_facts.idling_current;
          runs = start_facts.idling_running;
          quiet = start_facts.idling_quiet;
        })
        (record { above = omega (arith, start_facts.mutex_head); made = ground arith }))

ahead-running : is_running (ahead.kernel.threads 0).stat ≡ true
unfolding first_switch scheduler_init thread_create create_at create_ready thread_init
    thread_ready_add_tail list_insert_before scheduler schedule_core schedule_pick_next pick_from
    get_highest_priority_thread ffs ffs_from context_switch_cb thread_ready_remove list_remove
    unlink mutex_lock lock_by_owner lock_held do_switch pick_between should_switch requeue_current
    thread_ready_add_head list_insert_after inherit change_priority change_by_stat thread_pend
    thread_wait_insert insert_by_priority erase run_call run_init mutex_init thread_join
    thread_wakeup wake_first wake
ahead-running = refl

abbrev runner : ℕ
runner = 0

boot-one_runner_example : runner ≡ 0
boot-one_runner_example =
    boot-one_runner power_up ahead idle blank_kernel progress runner 0 ahead-running ahead-running

boot-ready_queued_example :
    (count 1 (ahead.kernel.lists 5) ≡ 1)
    ↔ (((ahead.kernel.threads 1).stat ≡ ready) × ((ahead.kernel.threads 1).priority ≡ 5))
boot-ready_queued_example =
    boot-ready_queued power_up ahead idle blank_kernel progress 1 5 (omega arith)

schedule_core-leads_example :
    ((schedule_core working).threads 1).priority ≤ ((schedule_core working).threads 0).priority
schedule_core-leads_example =
    schedule_core-leads working 1 1 working_facts.working_current working_facts.working_quiet
      working-IsWf working_facts.working_stays 0 working_facts.working_kept

get_highest-ready_example :
    ((working.threads 0).stat ≡ ready)
    × ((t : ℕ)
        → (working.threads t).stat ≡ ready
        → (working.threads 0).priority ≤ (working.threads t).priority)
get_highest-ready_example = get_highest-ready working-IsWf 0 working_facts.working_highest

contended-IsSorted : IsSorted (λ x. (contended.threads x).priority) (contended.lists 2000)
unfolding IsSorted AllFrom
contended-IsSorted = rw waiting_facts.contended_list (tt, tt)

thread_wait_insert-ordered_example :
    let prio = λ (x : ℕ). (contended.threads x).priority in
    ((thread_wait_insert contended 2000 0).lists 2000
      ≡ not_lower prio (prio 0) (contended.lists 2000)
        ++ 0 ∷ lower prio (prio 0) (contended.lists 2000))
    × IsSorted
        (λ x. ((thread_wait_insert contended 2000 0).threads x).priority)
        ((thread_wait_insert contended 2000 0).lists 2000)
thread_wait_insert-ordered_example = thread_wait_insert-ordered contended 2000 0 contended-IsSorted

thread_wakeup-highest_example :
    (((thread_wakeup contended 2000).1.threads 1).stat ≡ ready)
    × (((thread_wakeup contended 2000).1.threads 1).error ≡ eok)
    × ((u : ℕ)
        → count u (contended.lists 2000) ≢ 0
        → (contended.threads 1).priority ≤ (contended.threads u).priority)
thread_wakeup-highest_example =
    thread_wakeup-highest contended 2000 1 (omega arith) contended-IsWf contended-IsSorted
      waiting_facts.contended_first

thread_halt-joiners_example :
    let k' = thread_halt joined 0 in
    let h = (joined.threads 0).join_list in
    (k'.lists h ≡ []) × ((u : ℕ) → count u (joined.lists h) ≢ 0 → u ≢ 0 → IsReleasedBy k' u)
thread_halt-joiners_example =
    thread_halt-joiners joined 0 waiting_facts.joined_quiet waiting_facts.joined_alive
      waiting_facts.joined_created joined-IsWf
