-- ===== src/Kernel/Thread.antt =====
-- kernel/nd_thread.c: creation, waiting, suspension and the end of threads.
use nerd_rtos.Common.{
  Bool, List, Option, [], count, erase, false, head?, if◌then◌else◌, is_at, is_empty, is_none, leb,
  length, ltb, none, not, some, suc, true, update, zero, ℕ, ◌%◌, ◌++◌, ◌==◌, ◌||◌, ◌∷◌,
}
use nerd_rtos.Kernel.Links.{is_linked, link, list_is_empty, list_remove}
use nerd_rtos.Kernel.Ready.{thread_ready_add_tail, thread_ready_remove}
use nerd_rtos.Kernel.Scheduler.{scheduler, timer_start, timer_stop}
use nerd_rtos.Kernel.State.{
  Err, Kernel, Outcome, Thread, ThreadStat, ThreadTimer, block, blocked, dead, ebusy, edeadlk,
  einval, eok, eperm, error, etimeout, event_and, init, ready, returned, running, self, set_stat,
  set_thread, suspend, thread_pend_timeout, thread_priority_max, thread_slice_timeout,
  timeout_forever, timeout_nowait,
}

-- nd_thread_resume, by what the thread's state is.
unfoldable pub resume_by_stat : ThreadStat → Kernel → ℕ → Err × Kernel
resume_by_stat suspend k t = (eok, scheduler (thread_ready_add_tail (set_stat k t ready) t))
resume_by_stat init k t = (error, k)
resume_by_stat ready k t = (error, k)
resume_by_stat running k t = (error, k)
resume_by_stat block k t = (error, k)
resume_by_stat dead k t = (error, k)

unfoldable pub thread_resume : Kernel → ℕ → Err × Kernel
unfolding resume_by_stat
thread_resume k t = resume_by_stat (k.threads t).stat k t

-- nd_thread_pend_timeout: the wait of a thread ends without what it waited for.
unfoldable pub pend_timeout : Kernel → ℕ → Kernel
pend_timeout k t =
    let th : Thread = record (k.threads t) { stat = ready; error = etimeout } in
    scheduler (thread_ready_add_tail (list_remove (set_thread k t th) t) t)

-- A waiting list with a thread in its place: before the first of a lower priority.
unfoldable pub insert_by_priority : (ℕ → ℕ) → ℕ → List ℕ → List ℕ
insert_by_priority prio t [] = t ∷ []
insert_by_priority prio t (x ∷ xs) =
    let rest = insert_by_priority prio t xs in
    if ltb (prio t) (prio x) then t ∷ x ∷ xs else x ∷ rest

-- nd_thread_wait_insert
unfoldable pub thread_wait_insert : Kernel → ℕ → ℕ → Kernel
thread_wait_insert k h t =
    link k h t (insert_by_priority (λ x. (k.threads x).priority) t (k.lists h))

-- nd_thread_pend by the current thread `c`.
unfoldable pub thread_pend : Kernel → ℕ → ℕ → ℕ → Kernel
unfolding thread_wait_insert
thread_pend k c h timeout =
    let k' = thread_wait_insert k h c in
    let th : Thread = record (k'.threads c) { error = eok; stat = block } in
    let tm : ThreadTimer = record th.timer { timeout = timeout; callback = thread_pend_timeout } in
    set_thread k' c
      (if timeout == timeout_forever then th else record th { timer = timer_start tm })

-- nd_thread_wakeup for the first thread of a list.
unfoldable pub wake : Kernel → ℕ → Kernel
wake k t =
    let th = k.threads t in
    let th' : Thread = record th { timer = timer_stop th.timer; error = eok; stat = ready } in
    thread_ready_add_tail (list_remove (set_thread k t th') t) t

unfoldable pub wake_first : Kernel → Option ℕ → Option ℕ × Kernel
wake_first k none = (none, k)
wake_first k (some t) = (some t, wake k t)

-- nd_thread_wakeup: the thread, and the state in which it is ready; none for an empty list, whose
-- head the source would take for a thread.
unfoldable pub thread_wakeup : Kernel → ℕ → Option ℕ × Kernel
unfolding wake_first
thread_wakeup k h = wake_first k (head? (k.lists h))

abbrev pub unlink_if_linked : Kernel → ℕ → Kernel
unlink_if_linked k t = let k' = list_remove k t in if is_linked (k.threads t).qnode then k' else k

-- A suspended thread that was blocked: off its list, without its timer.
unfoldable pub suspend_blocked : Kernel → ℕ → Kernel
suspend_blocked k t =
    let k' = unlink_if_linked (set_stat k t suspend) t in
    scheduler (set_thread k' t (record (k'.threads t) { timer = timer_stop (k'.threads t).timer }))

-- nd_thread_suspend for a thread that holds no mutex, by what its state is.
unfoldable pub suspend_by_stat : ThreadStat → Kernel → ℕ → Err × Kernel
suspend_by_stat ready k t = (eok, set_stat (thread_ready_remove k t) t suspend)
suspend_by_stat running k t = (eok, scheduler (set_stat k t suspend))
suspend_by_stat block k t = (eok, suspend_blocked k t)
suspend_by_stat init k t = (error, k)
suspend_by_stat suspend k t = (error, k)
suspend_by_stat dead k t = (error, k)

unfoldable pub thread_suspend : Kernel → ℕ → Err × Kernel
unfolding suspend_by_stat
thread_suspend k t =
    if not (is_empty (k.threads t).taken_list)
    then (eperm, k)
    else suspend_by_stat (k.threads t).stat k t

-- while (!nd_list_is_empty(&thread->join_list)) nd_thread_wakeup(...), with as many rounds as the
-- list is long.
unfoldable pub wake_all : ℕ → Kernel → ℕ → Kernel
wake_all zero k h = k
wake_all (suc n) k h =
    let rest = wake_all n (thread_wakeup k h).1 h in if list_is_empty k h then k else rest

-- The first part of nd_thread_halt: the thread leaves the list that its state keeps it on.
unfoldable pub halt_unlink : ThreadStat → Kernel → ℕ → Kernel
halt_unlink ready k t = thread_ready_remove k t
halt_unlink block k t = unlink_if_linked k t
halt_unlink init k t = k
halt_unlink running k t = k
halt_unlink suspend k t = k
halt_unlink dead k t = k

-- Then it is dead, its timers are stopped, and it leaves the list of threads. The node of a thread
-- that was never created is on no list: nd_list_remove writes through its null pointers.
unfoldable pub halt_dead : Kernel → ℕ → Kernel
halt_dead k t =
    let th = k.threads t in
    record k {
      threads = update k.threads t (record th {
        stat = dead;
        timer = timer_stop th.timer;
        slice_timer = timer_stop th.slice_timer;
      });
      thread_list = erase t k.thread_list;
      fault = k.fault || count t k.thread_list == 0;
    }

abbrev pub is_dead : ThreadStat → Bool
is_dead dead = true
is_dead init = false
is_dead ready = false
is_dead running = false
is_dead block = false
is_dead suspend = false

-- nd_thread_halt
unfoldable pub thread_halt : Kernel → ℕ → Kernel
thread_halt k t =
    let k' = halt_dead (halt_unlink (k.threads t).stat k t) t in
    let h = (k.threads t).join_list in
    let woken = wake_all (length (k'.lists h)) k' h in
    if is_dead (k.threads t).stat
    then k
    else if is_at k.current_thread t
    then scheduler woken
    else woken

-- nd_is_thread_essential: options & ND_THREAD_OPT_ESSENTIAL
abbrev pub is_essential : Thread → Bool
is_essential th = th.options % 2 == 1

-- nd_thread_abort; nd_thread_entry ends with it.
unfoldable pub thread_abort : Kernel → Option ℕ → Err × Kernel
thread_abort k none = (einval, k)
thread_abort k (some t) =
    if is_dead (k.threads t).stat
    then (eok, k)
    else if is_essential (k.threads t)
    then (eperm, k)
    else (eok, thread_halt k t)

-- nd_thread_init, of the fields that the kernel reads; the thread's mutexes, if any, are
-- forgotten.
unfoldable pub thread_init : Thread → ℕ → ℕ → Thread
thread_init th priority time_slice = record th {
  priority = priority;
  init_priority = priority;
  yield = false;
  stat = init;
  timer = record th.timer { armed = false };
  qnode = self;
  time_slice = time_slice;
  slice_left = time_slice;
  slice_start = 0;
  slice_timer = record th.slice_timer { armed = false; callback = thread_slice_timeout };
  taken_list = [];
  event_set = 0;
  event_opt = event_and;
}

-- The arguments of nd_thread_create, its pointers as addresses or null.
pub record CreateArgs : Type 0 where
  pub thread : Option ℕ
  pub name : Option ℕ
  pub entry : Option ℕ
  pub priority : ℕ
  pub stack : Option ℕ
  pub stack_size : ℕ
  pub options : ℕ
  pub time_slice : ℕ

-- The part of nd_thread_create past its checks, for the thread at `t`: its join list is empty, it
-- is the last of the threads, and ready.
unfoldable pub create_ready : Kernel → ℕ → CreateArgs → Kernel
create_ready k t args =
    let th = thread_init (k.threads t) args.priority args.time_slice in
    thread_ready_add_tail
      (record k {
        threads = update k.threads t (record th { options = args.options; stat = ready });
        lists = update k.lists th.join_list [];
        thread_list = k.thread_list ++ t ∷ [];
      })
      t

-- The checks of nd_thread_create on all but the pointer to the thread.
abbrev pub refuses : CreateArgs → Bool
refuses args =
    is_none args.name
    || is_none args.entry
    || is_none args.stack
    || args.stack_size == 0
    || leb thread_priority_max args.priority

unfoldable pub create_at : Option ℕ → Kernel → CreateArgs → Err × Kernel
create_at none k args = (einval, k)
create_at (some t) k args =
    if refuses args then (einval, k) else (eok, scheduler (create_ready k t args))

-- nd_thread_create
unfoldable pub thread_create : Kernel → CreateArgs → Err × Kernel
unfolding create_at
thread_create k args = create_at args.thread k args

-- nd_thread_join by the current thread `c`, up to where it sleeps.
unfoldable pub thread_join : Kernel → ℕ → Option ℕ → ℕ → Outcome × Kernel
thread_join k c none timeout = (returned einval, k)
thread_join k c (some t) timeout =
    if t == c
    then (returned edeadlk, k)
    else if is_dead (k.threads t).stat
    then (returned eok, k)
    else if timeout == timeout_nowait
    then (returned ebusy, k)
    else (blocked, scheduler (thread_pend k c (k.threads t).join_list timeout))

-- What a blocking call returns when its thread runs again: nd_current_thread->error.
abbrev pub resume_error : Kernel → ℕ → Err
resume_error k c = (k.threads c).error
