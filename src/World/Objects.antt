-- ===== src/World/Objects.antt =====
-- The initialisation of objects and the invariant of the kernel.
use Prim.Native.Nat.{bit_and}
use nerd_rtos.Common.{
  Bool-cases, Memory, [], ap, arith, count, inl, inr, is_empty, ltb, not, refl, sym, update, ℕ, ◌%◌,
  ◌+◌, ◌-◌, ◌==◌, ◌||◌, ◌∙◌, ◌≡◌,
}
use nerd_rtos.Ipc.Event.{event_init}
use nerd_rtos.Ipc.MsgQueue.{MsgQueue, queue_init}
use nerd_rtos.Ipc.Mutex.{mutex_init}
use nerd_rtos.Ipc.Sem.{sem_init}
use nerd_rtos.Kernel.Invariant.{IsWf}
use nerd_rtos.Kernel.State.{Kernel, u32_mod}
use nerd_rtos.Pool.{mempool_init}
use nerd_rtos.World.{
  Init, InitFits, World, event_inits, mutex_inits, pool_inits, queue_inits, run_init, sem_inits,
}

-- An empty list is made empty.
emptied-IsWf :
    (k : Kernel) (h : ℕ) → k.lists h ≡ [] → IsWf k → IsWf (record k { lists = update k.lists h [] })
unfolding count
emptied-IsWf k h e w = record {
  rings = record {
    linked = λ t g.
        let l = w.rings.linked t g in
        elim (Bool-cases (h == g)) [
          | inl same ↦ rw same (
              sym (ap (count t) e) ∙ ap (λ (x : ℕ). count t (k.lists x)) (ground (arith, same)) ∙ l)
          | inr other ↦ rw other l
        ];
    bits = λ p lt.
        let b = w.rings.bits p lt in
        elim (Bool-cases (h == p)) [
          | inl same ↦ rw same (
              b
              ∙ ap (λ (x : ℕ). not (is_empty (k.lists x))) (ground (arith, same))
              ∙ ap (λ l. not (is_empty l)) e)
          | inr other ↦ rw other b
        ];
    sound = w.rings.sound;
  };
  fit = w.fit;
  only = w.only;
  awaited = w.awaited;
}

mutex_init-IsWf :
    (k : Kernel) (m : ℕ) → k.lists (k.mutexes m).wait_list ≡ [] → IsWf k → IsWf (mutex_init k m)
unfolding mutex_init
mutex_init-IsWf k m e w =
    let i = emptied-IsWf k (k.mutexes m).wait_list e w in
    record {
      rings = record { linked = i.rings.linked; bits = i.rings.bits; sound = i.rings.sound };
      fit = i.fit;
      only = i.only;
      awaited = i.awaited;
    }

still_empty : (k : Kernel) (g h : ℕ) → k.lists h ≡ [] → update k.lists g [] h ≡ []
still_empty k g h e = elim (Bool-cases (g == h)) [
  | inl same ↦ rw same refl
  | inr other ↦ rw other e
]

queue_init-IsWf :
    (k : Kernel) (q : MsgQueue) (buf : Memory) (msg_size max_msgs : ℕ)
    → k.lists q.send_wait ≡ []
    → k.lists q.read_wait ≡ []
    → IsWf k
    → IsWf (queue_init k q buf msg_size max_msgs).2
unfolding queue_init
queue_init-IsWf k q buf msg_size max_msgs e f w =
    elim (Bool-cases
      (not (bit_and max_msgs ((max_msgs + u32_mod - 1) % u32_mod) == 0) || ltb max_msgs 1)) [
        | inl z ↦ rw z w
        | inr z ↦ rw z (
            emptied-IsWf _ q.send_wait (still_empty k q.read_wait q.send_wait e)
              (emptied-IsWf k q.read_wait f w))
      ]

pub run_init-IsWf :
    (i : Init) (w : World) → InitFits i w → IsWf w.kernel → IsWf (run_init i w).kernel
unfolding run_init sem_init event_init mempool_init
run_init-IsWf (sem_inits s v) w h i = emptied-IsWf w.kernel (w.sems s).wait_list h.empty i
run_init-IsWf (mutex_inits m) w h i = mutex_init-IsWf w.kernel m h.empty i
run_init-IsWf (event_inits e) w h i = emptied-IsWf w.kernel (w.events e).wait_list h.empty i
run_init-IsWf (queue_inits q buf size n) w h i =
    queue_init-IsWf w.kernel (w.queues q) buf size n h.send.empty h.read.empty i
run_init-IsWf (pool_inits p start size n) w h i =
    emptied-IsWf w.kernel (w.pools p).wait_list h.empty i
