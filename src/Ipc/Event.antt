-- ===== src/Ipc/Event.antt =====
-- kernel/nd_event.c. A set of events is a word of 64 bits, a thread's a word of 32.
pub mod Keeps
use Prim.Native.Nat.{bit_and, bit_or}
use nerd_rtos.Common.{Bool, List, [], if◌then◌else◌, not, update, ℕ, ◌%◌, ◌-◌, ◌==◌, ◌∷◌}
use nerd_rtos.Kernel.Links.{list_remove}
use nerd_rtos.Kernel.Ready.{thread_ready_add_tail}
use nerd_rtos.Kernel.Scheduler.{scheduler, timer_stop}
use nerd_rtos.Kernel.State.{
  EventOpt, Kernel, Outcome, blocked, ebusy, eok, event_and, event_or, ready, returned, set_thread,
  timeout_nowait, u32_mod,
}
use nerd_rtos.Kernel.Thread.{thread_pend}

pub record Event : Type 0 where
  pub set : ℕ
  pub wait_list : ℕ

-- nd_event_init
unfoldable pub event_init : Kernel → Event → Event × Kernel
event_init k e = (record e { set = 0 }, record k { lists = update k.lists e.wait_list [] })

-- nd_event_is_satisfied, whose first argument is cut to 32 bits.
unfoldable pub event_is_satisfied : ℕ → ℕ → EventOpt → Bool
event_is_satisfied set wanted event_and = bit_and (set % u32_mod) wanted == wanted
event_is_satisfied set wanted event_or = not (bit_and (set % u32_mod) wanted == 0)

-- set &= ~wanted, where ~ is taken on 32 bits and the upper half of the 64-bit word is cleared.
unfoldable pub clear_events : ℕ → ℕ → ℕ
clear_events set wanted = bit_and set (u32_mod - 1 - wanted)

-- nd_event_wakeup
unfoldable pub event_wakeup : Kernel → ℕ → Kernel
event_wakeup k t =
    let k' = list_remove k t in
    let th = k'.threads t in
    thread_ready_add_tail
      (set_thread k' t (record th { timer = timer_stop th.timer; stat = ready })) t

-- The round of nd_event_send for a thread that waits.
unfoldable pub send_one : ℕ → ℕ × Kernel → ℕ × Kernel
send_one t (set, k) =
    let th = k.threads t in
    if event_is_satisfied set th.event_set th.event_opt
    then (clear_events set th.event_set, event_wakeup k t)
    else (set, k)

-- Its loop, over the threads that wait as they stood when it began.
unfoldable pub send_loop : List ℕ → ℕ × Kernel → ℕ × Kernel
send_loop [] r = r
send_loop (t ∷ ts) r = send_loop ts (send_one t r)

-- nd_event_send
unfoldable pub event_send : Kernel → Event → ℕ → Event × Kernel
event_send k e set =
    let (set', k') = send_loop (k.lists e.wait_list) (bit_or e.set set, k) in
    (record e { set = set' }, scheduler k')

-- nd_event_recv by the current thread `c`, up to where it sleeps.
unfoldable pub event_recv : Kernel → ℕ → Event → ℕ → EventOpt → ℕ → Outcome × Event × Kernel
event_recv k c e set opt timeout =
    let k' = set_thread k c (record (k.threads c) { event_set = set; event_opt = opt }) in
    if event_is_satisfied e.set set opt
    then (returned eok, record e { set = clear_events e.set set }, k')
    else if timeout == timeout_nowait
    then (returned ebusy, e, k')
    else (blocked, e, scheduler (thread_pend k' c e.wait_list timeout))
