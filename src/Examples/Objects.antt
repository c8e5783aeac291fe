-- ===== src/Examples/Objects.antt =====
-- The theorems on mutexes, semaphores and queues at concrete states.
use nerd_rtos.Common.{
  List, Memory, [], ap, arith, erase, if◌then◌else◌, negsuc, none, pos, read, refl, some, ℕ, ℤ, ◌-◌,
  ◌<◌, ◌^◌, ◌↔◌, ◌∷◌, ◌≡◌, ◌≢◌,
}
use nerd_rtos.Examples.{blank, contended, empty_queue, idling, locked, power_up}
use nerd_rtos.Examples.Runs.{contended-IsWf}
use nerd_rtos.Examples.States.{waiting_facts}
use nerd_rtos.Ipc.MsgQueue.{MsgQueue, put, queue_init, queue_recv, queue_send}
use nerd_rtos.Ipc.MsgQueue.Fifo.{
  fifo_recv, fifo_send, is_returned_ok, queue_recv-IsRing, queue_recv_refines, queue_send-IsRing,
  queue_send_refines,
}
use nerd_rtos.Ipc.MsgQueue.Init.{queue_init-IsRing, queue_init_iff}
use nerd_rtos.Ipc.MsgQueue.Ring.{IsRing, contents}
use nerd_rtos.Ipc.MsgQueue.Runs.{
  Round, fifo_run, recv_round, ring_run, ring_run_refines, send_round,
}
use nerd_rtos.Ipc.Mutex.{
  change_by_stat, change_priority, inherit, lock_by_owner, lock_held, mutex_lock, mutex_unlock,
}
use nerd_rtos.Ipc.Mutex.Inherit.{IsHighest}
use nerd_rtos.Ipc.Mutex.Owner.{mutex_lock-eok, mutex_unlock-hands_over, mutex_unlock-restores}
use nerd_rtos.Ipc.Sem.{Sem, sem_release, sem_take}
use nerd_rtos.Ipc.Sem.Balance.{IsBalanced, sem_release-IsBalanced, sem_take-IsBalanced}
use nerd_rtos.Kernel.Boot.{first_switch, scheduler_init}
use nerd_rtos.Kernel.Links.{list_insert_after, list_insert_before, list_remove, unlink}
use nerd_rtos.Kernel.Ready.{
  ffs, ffs_from, get_highest_priority_thread, thread_ready_add_head, thread_ready_add_tail,
  thread_ready_remove,
}
use nerd_rtos.Kernel.Scheduler.{
  context_switch_cb, do_switch, pick_between, pick_from, requeue_current, schedule_core,
  schedule_pick_next, scheduler, should_switch,
}
use nerd_rtos.Kernel.State.{Err, Kernel, eok, returned, u32_mod}
use nerd_rtos.Kernel.Thread.{
  create_at, create_ready, insert_by_priority, thread_create, thread_init, thread_pend,
  thread_wait_insert,
}

idling-free : (mutex_lock idling 0 0 0).0 ≡ returned eok
unfolding first_switch scheduler_init thread_create create_at create_ready thread_init
    thread_ready_add_tail list_insert_before scheduler schedule_core schedule_pick_next pick_from
    get_highest_priority_thread ffs ffs_from context_switch_cb thread_ready_remove list_remove
    unlink mutex_lock lock_by_owner lock_held do_switch pick_between should_switch requeue_current
    thread_ready_add_head list_insert_after inherit change_priority change_by_stat thread_pend
    thread_wait_insert insert_by_priority erase
idling-free = refl

mutex_unlock-hands_over_example :
    let (r, k') = mutex_unlock contended 0 0 in
    (r ≡ eok)
    × ((k'.mutexes 0).owner ≡ some 1)
    × ((k'.threads 1).taken_list ≡ 0 ∷ (contended.threads 1).taken_list)
    × (k'.lists (contended.mutexes 0).wait_list ≡ [])
mutex_unlock-hands_over_example =
    mutex_unlock-hands_over contended 0 0 1 [] waiting_facts.contended_running
      (omega (arith, waiting_facts.contended_head)) contended-IsWf waiting_facts.contended_owner
      waiting_facts.contended_waits

mutex_unlock-restores_example :
    IsHighest contended.mutexes
      (erase 0 (contended.threads 0).taken_list)
      (contended.threads 0).init_priority
      ((mutex_unlock contended 0 0).1.threads 0).priority
mutex_unlock-restores_example = mutex_unlock-restores contended 0 0 waiting_facts.contended_owner

mutex_lock-eok_example :
    ((idling.mutexes 0).owner ≡ none)
    × ((locked.mutexes 0).owner ≡ some 0)
    × ((locked.threads 0).taken_list ≡ 0 ∷ (idling.threads 0).taken_list)
mutex_lock-eok_example = mutex_lock-eok idling 0 0 0 idling-free

-- A ring of two messages of one byte.
abbrev made : Err × MsgQueue × Kernel
made = queue_init blank empty_queue (λ a. 0) 1 2

made-ok : made.0 ≡ eok
unfolding queue_init
made-ok = refl

two_small : 2 < u32_mod
two_small = omega arith

queue_init_iff_example : (made.0 ≡ eok) ↔ ((j : ℕ) × (2 ≡ 2 ^ j))
queue_init_iff_example = queue_init_iff blank empty_queue (λ a. 0) 1 2 two_small

queue_init-IsRing_example : IsRing made.1 × (contents made.1 ≡ [])
queue_init-IsRing_example = queue_init-IsRing blank empty_queue (λ a. 0) 1 2 two_small made-ok

made-IsRing : IsRing made.1
made-IsRing = (queue_init-IsRing blank empty_queue (λ a. 0) 1 2 two_small made-ok).0

abbrev seven : Memory
seven a = 7

queue_send_refines_example :
    let (o, q', k') = queue_send blank 0 made.1 seven 0 in
    (o, contents q')
    ≡ fifo_send (made.1).max_msgs (contents made.1) (read seven 0 (made.1).msg_size) 0
unfolding queue_init
queue_send_refines_example = queue_send_refines blank 0 made.1 made-IsRing 0 seven (omega arith)

queue_send-IsRing_example : IsRing (queue_send blank 0 made.1 seven 0).1
queue_send-IsRing_example = queue_send-IsRing blank 0 made.1 made-IsRing 0 seven

-- The ring with a message in it.
abbrev filled : MsgQueue
filled = (queue_send blank 0 made.1 seven 0).1

filled-IsRing : IsRing filled
filled-IsRing = queue_send-IsRing blank 0 made.1 made-IsRing 0 seven

queue_recv_refines_example :
    let (o, out', q', k') = queue_recv blank 0 filled (λ a. 0) 0 in
    (o, (if is_returned_ok o then some (read out' 0 filled.msg_size) else none), contents q')
    ≡ fifo_recv (contents filled) 0
unfolding queue_send queue_init put
queue_recv_refines_example =
    queue_recv_refines blank 0 filled filled-IsRing 0 (λ a. 0) (omega arith)

-- A message is sent and received, and the queue is empty again.
abbrev there_and_back : List Round
there_and_back = send_round blank 0 seven 0 ∷ recv_round blank 1 (λ a. 0) 0 ∷ []

ring_run_refines_example :
    let (answers, q') = ring_run there_and_back made.1 in
    (answers, contents q')
    ≡ fifo_run (made.1).max_msgs (made.1).msg_size there_and_back (contents made.1)
unfolding queue_init
ring_run_refines_example = ring_run_refines there_and_back made.1 made-IsRing (omega arith)

queue_recv-IsRing_example : IsRing (queue_recv blank 0 filled (λ a. 0) 0).2
queue_recv-IsRing_example = queue_recv-IsRing blank 0 filled filled-IsRing 0 (λ a. 0)

abbrev sem_one : Sem
sem_one = power_up.sems 0

abbrev magnitude : ℤ → ℕ
magnitude (pos n) = n
magnitude (negsuc n) = n

below_max : sem_one.val ≢ pos (2 ^ 31 - 1)
below_max e = absurd (omega (arith, ap magnitude e))

sem_one-IsBalanced : IsBalanced sem_one blank
unfolding IsBalanced
sem_one-IsBalanced = (omega arith, λ f. absurd (ground arith))

sem_release-IsBalanced_example : let (r, s', k') = sem_release blank sem_one in IsBalanced s' k'
sem_release-IsBalanced_example = sem_release-IsBalanced blank sem_one below_max sem_one-IsBalanced

sem_take-IsBalanced_example : let (r, s', k') = sem_take blank 0 sem_one 0 in IsBalanced s' k'
sem_take-IsBalanced_example = sem_take-IsBalanced blank 0 sem_one 0 sem_one-IsBalanced
