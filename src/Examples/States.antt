-- ===== src/Examples/States.antt =====
-- What evaluation shows of the small system.
use nerd_rtos.Common.{[], arith, count, erase, false, none, refl, some, true, ◌∷◌, ◌≡◌, ◌≢◌}
use nerd_rtos.Examples.{blank, contended, idle, idling, joined, locked, worker, working}
use nerd_rtos.Ipc.Mutex.{
  change_by_stat, change_priority, inherit, lock_by_owner, lock_held, mutex_lock,
}
use nerd_rtos.Kernel.Boot.{first_switch, scheduler_init}
use nerd_rtos.Kernel.Invariant.Priority.{to_run}
use nerd_rtos.Kernel.Links.{list_insert_after, list_insert_before, list_remove, unlink}
use nerd_rtos.Kernel.Ready.{
  ffs, ffs_from, get_highest_priority_thread, thread_ready_add_head, thread_ready_add_tail,
  thread_ready_remove,
}
use nerd_rtos.Kernel.Scheduler.{
  context_switch_cb, do_switch, is_running, pick_between, pick_from, requeue_current, schedule_core,
  schedule_pick_next, scheduler, should_switch,
}
use nerd_rtos.Kernel.State.{init, ready, timeout_forever}
use nerd_rtos.Kernel.Thread.{
  create_at, create_ready, insert_by_priority, is_dead, thread_create, thread_init, thread_join,
  thread_pend, thread_wait_insert, thread_wakeup, wake, wake_first,
}

-- The system as it starts.
pub record FactsStart : Type 0 where
  pub booted_current : (scheduler_init blank idle).current_thread ≡ none
  pub booted_quiet : (scheduler_init blank idle).switch_request ≡ false
  pub idling_current : idling.current_thread ≡ some 0
  pub idling_quiet : idling.switch_request ≡ false
  pub idling_running : is_running (idling.threads 0).stat ≡ true
  pub mutex_head : (idling.mutexes 0).wait_list ≡ 2000
  pub mutex_free : idling.lists (idling.mutexes 0).wait_list ≡ []
  pub worker_idle : (locked.threads 1).stat ≡ init
  pub worker_alone : locked.lists (locked.threads 1).join_list ≡ []
  pub locked_current : locked.current_thread ≡ some 0
  pub created_request : (thread_create locked worker).1.switch_request ≡ true

pub start_facts : FactsStart
unfolding first_switch scheduler_init thread_create create_at create_ready thread_init
    thread_ready_add_tail list_insert_before scheduler schedule_core schedule_pick_next pick_from
    get_highest_priority_thread ffs ffs_from context_switch_cb thread_ready_remove list_remove
    unlink mutex_lock lock_by_owner lock_held do_switch pick_between should_switch requeue_current
    thread_ready_add_head list_insert_after inherit change_priority change_by_stat thread_pend
    thread_wait_insert insert_by_priority erase
start_facts = record {
  booted_current = refl;
  booted_quiet = refl;
  idling_current = refl;
  idling_quiet = refl;
  idling_running = refl;
  mutex_head = refl;
  mutex_free = refl;
  worker_idle = refl;
  worker_alone = refl;
  locked_current = refl;
  created_request = refl;
}

-- The worker runs.
pub record FactsWorking : Type 0 where
  pub working_running : is_running (working.threads 1).stat ≡ true
  pub working_head : (working.mutexes 0).wait_list ≡ 2000
  pub working_owner : (working.mutexes 0).owner ≡ some 0
  pub pended_request : (mutex_lock working 1 0 timeout_forever).1.switch_request ≡ true
  pub working_current : working.current_thread ≡ some 1
  pub working_quiet : working.switch_request ≡ false
  pub working_stays : to_run (schedule_core working) ≡ some 1
  pub working_other : (working.threads 0).stat ≡ ready
  pub working_kept : ((schedule_core working).threads 0).stat ≡ ready
  pub working_highest : get_highest_priority_thread working ≡ some 0

pub working_facts : FactsWorking
unfolding first_switch scheduler_init thread_create create_at create_ready thread_init
    thread_ready_add_tail list_insert_before scheduler schedule_core schedule_pick_next pick_from
    get_highest_priority_thread ffs ffs_from context_switch_cb thread_ready_remove list_remove
    unlink mutex_lock lock_by_owner lock_held do_switch pick_between should_switch requeue_current
    thread_ready_add_head list_insert_after inherit change_priority change_by_stat thread_pend
    thread_wait_insert insert_by_priority erase thread_join thread_wakeup wake_first wake
working_facts = record {
  working_running = refl;
  working_head = refl;
  working_owner = refl;
  pended_request = refl;
  working_current = refl;
  working_quiet = refl;
  working_stays = refl;
  working_other = refl;
  working_kept = refl;
  working_highest = refl;
}

-- The worker waits for the mutex, or for the idle thread to end.
pub record FactsWaiting : Type 0 where
  pub contended_running : is_running (contended.threads 0).stat ≡ true
  pub contended_owner : (contended.mutexes 0).owner ≡ some 0
  pub contended_head : (contended.mutexes 0).wait_list ≡ 2000
  pub contended_waits : contended.lists (contended.mutexes 0).wait_list ≡ 1 ∷ []
  pub contended_first : (thread_wakeup contended 2000).0 ≡ some 1
  pub contended_list : contended.lists 2000 ≡ 1 ∷ []
  pub joined_request : (thread_join working 1 (some 0) timeout_forever).1.switch_request ≡ true
  pub joined_quiet : joined.switch_request ≡ false
  pub joined_alive : is_dead (joined.threads 0).stat ≡ false
  pub joined_created : count 0 joined.thread_list ≢ 0

pub waiting_facts : FactsWaiting
unfolding first_switch scheduler_init thread_create create_at create_ready thread_init
    thread_ready_add_tail list_insert_before scheduler schedule_core schedule_pick_next pick_from
    get_highest_priority_thread ffs ffs_from context_switch_cb thread_ready_remove list_remove
    unlink mutex_lock lock_by_owner lock_held do_switch pick_between should_switch requeue_current
    thread_ready_add_head list_insert_after inherit change_priority change_by_stat thread_pend
    thread_wait_insert insert_by_priority erase thread_join thread_wakeup wake_first wake count
waiting_facts = record {
  contended_running = refl;
  contended_owner = refl;
  contended_head = refl;
  contended_waits = refl;
  contended_first = refl;
  contended_list = refl;
  joined_request = refl;
  joined_quiet = refl;
  joined_alive = refl;
  joined_created = omega arith;
}
