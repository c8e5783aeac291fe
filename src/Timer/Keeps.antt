-- ===== src/Timer/Keeps.antt =====
-- The operations of kernel/nd_timer.c and the order of the tree of timers.
use nerd_rtos.Common.{
  Bool, Bool-cases, List, Option, [], arith, count, count-erase, erase, false, if◌then◌else◌, inl,
  inr, is_none, leb, none, refl, some, true, ℕ, ◌%◌, ◌+◌, ◌==◌, ◌∙◌, ◌∷◌, ◌≡◌, ◌≢◌,
}
use nerd_rtos.Kernel.Invariant.Rings.{count-insert_by_priority}
use nerd_rtos.Kernel.State.{u64_mod}
use nerd_rtos.Kernel.Thread.{insert_by_priority}
use nerd_rtos.Kernel.Waiting.Order.{AllFrom, IsSorted, insert-IsSorted}
use nerd_rtos.Timer.{
  HwCall, RbTree, Timers, arm_first, descend, hw, in_order, nd_timer_start, nd_timer_stop,
  node_erase, rearm, remove_tickless, set_expire, set_timer, timer_insert, timer_node_insert,
  timer_remove, trigger, trigger_clear, trigger_if_due,
}
use nerd_rtos.Timer.Order.{descend-in_order}

abbrev pub expires : Timers → ℕ → ℕ
expires s t = (s.timers t).expire_time

pub record IsTimers (s : Timers) : Type 0 where
  pub placed : (t : ℕ) → count t (in_order s.root) ≡ (if (s.timers t).linked then 1 else 0)
  pub sorted : IsSorted (expires s) (in_order s.root)

-- Only the keys of the list's elements matter.
AllFrom-same :
    (e f : ℕ → ℕ) (p : ℕ) (xs : List ℕ)
    → ((u : ℕ) → count u xs ≢ 0 → e u ≡ f u)
    → AllFrom e p xs
    → AllFrom f p xs
unfolding AllFrom count
AllFrom-same e f p [] same a = tt
AllFrom-same e f p (x ∷ xs) same (b, a) =
    let at : e x ≡ f x = same x (ground arith) in
    (omega arith, AllFrom-same e f p xs (λ u h. same u (omega arith)) a)

IsSorted-same :
    (e f : ℕ → ℕ) (xs : List ℕ)
    → ((u : ℕ) → count u xs ≢ 0 → e u ≡ f u)
    → IsSorted e xs
    → IsSorted f xs
unfolding IsSorted count
IsSorted-same e f [] same s = tt
IsSorted-same e f (x ∷ xs) same (a, s) =
    let at : e x ≡ f x = same x (ground arith) in
    let rest = λ (u : ℕ) (h : count u xs ≢ 0). same u (omega arith) in
    (rw⁻¹ at (AllFrom-same e f (e x) xs rest a), IsSorted-same e f xs rest s)

AllFrom-erase : (e : ℕ → ℕ) (p a : ℕ) (xs : List ℕ) → AllFrom e p xs → AllFrom e p (erase a xs)
unfolding AllFrom erase
AllFrom-erase e p a [] h = tt
AllFrom-erase e p a (x ∷ xs) (b, h) = elim (Bool-cases (x == a)) [
  | inl c ↦ rw c (AllFrom-erase e p a xs h)
  | inr c ↦ rw c (b, AllFrom-erase e p a xs h)
]

erase-IsSorted : (e : ℕ → ℕ) (a : ℕ) (xs : List ℕ) → IsSorted e xs → IsSorted e (erase a xs)
unfolding IsSorted erase
erase-IsSorted e a [] s = tt
erase-IsSorted e a (x ∷ xs) (h, s) = elim (Bool-cases (x == a)) [
  | inl c ↦ rw c (erase-IsSorted e a xs s)
  | inr c ↦ rw c (AllFrom-erase e (e x) a xs h, erase-IsSorted e a xs s)
]

hw-IsTimers : (s : Timers) (c : HwCall) → IsTimers s → IsTimers (hw s c)
hw-IsTimers s c i = record { placed = i.placed; sorted = i.sorted }

module _ (rb : RbTree) where
  trigger-IsTimers : (s : Timers) (m : ℕ) → IsTimers s → IsTimers (trigger_if_due rb s m)
  trigger-IsTimers s m i = elim (Bool-cases (leb (s.timers m).expire_time s.now)) [
    | inl e ↦ rw e (hw-IsTimers s trigger i)
    | inr e ↦ rw e i
  ]

  pub node_erase-IsTimers : (s : Timers) (t : ℕ) → IsTimers s → IsTimers (node_erase rb s t)
  unfolding node_erase
  node_erase-IsTimers s t i = record {
    placed = λ u.
        rw (rb.rb_erase-in_order s.root t)
          (ground (arith, count-erase u t (in_order s.root), i.placed u));
    sorted = rw (rb.rb_erase-in_order s.root t) (
        IsSorted-same (expires s) _ (erase t (in_order s.root)) (λ u h. ground arith)
          (erase-IsSorted (expires s) t (in_order s.root) i.sorted));
  }

  rearm-IsTimers : (s : Timers) (o : Option ℕ) → IsTimers s → IsTimers (rearm rb s o)
  unfolding rearm
  rearm-IsTimers s none i = hw-IsTimers s trigger_clear i
  rearm-IsTimers s (some m) i = trigger-IsTimers _ m (hw-IsTimers s _ i)

  remove_tickless-IsTimers :
      (s : Timers) (t : ℕ) (o : Option ℕ) → IsTimers s → IsTimers (remove_tickless rb s t o)
  unfolding remove_tickless
  remove_tickless-IsTimers s t none i = node_erase-IsTimers s t i
  remove_tickless-IsTimers s t (some m) i = elim (Bool-cases (m == t)) [
    | inl e ↦ rw e (rearm-IsTimers _ _ (node_erase-IsTimers s t i))
    | inr e ↦ rw e (trigger-IsTimers _ m (node_erase-IsTimers s t i))
  ]

  timer_remove-IsTimers :
      (tickless : Bool) (s : Timers) (t : ℕ) → IsTimers s → IsTimers (timer_remove rb tickless s t)
  unfolding timer_remove
  timer_remove-IsTimers tickless s t i = elim (Bool-cases (s.timers t).linked) [
    | inr e ↦ simp e i
    | inl e ↦ elim (Bool-cases tickless) [
      | inl f ↦ simp (e, f) (remove_tickless-IsTimers s t (rb.rb_first s.root) i)
      | inr f ↦ simp (e, f) (node_erase-IsTimers s t i)
    ]
  ]

  -- A new time of expiry for a timer that is not in the tree.
  set_expire-IsTimers :
      (s : Timers) (t at : ℕ)
      → (s.timers t).linked ≡ false
      → IsTimers s
      → IsTimers (set_timer s t (record (s.timers t) { expire_time = at }))
  set_expire-IsTimers s t at off i = record {
    placed = λ u. ground (arith, i.placed u);
    sorted =
        IsSorted-same (expires s) _ (in_order s.root) (λ u h. ground (arith, i.placed u)) i.sorted;
  }

  node_insert-IsTimers :
      (s : Timers) (t : ℕ)
      → (s.timers t).linked ≡ false
      → IsTimers s
      → IsTimers (timer_node_insert rb s t)
  unfolding timer_node_insert
  node_insert-IsTimers s t off i =
      let at =
        rb.rb_insert_color-in_order (descend (expires s) t s.root) t
        ∙ descend-in_order (expires s) t s.root i.sorted in
      record {
        placed = λ u. rw at (
            ground (arith, count-insert_by_priority (expires s) u t (in_order s.root), i.placed u));
        sorted = rw at (
            IsSorted-same (expires s) _ (insert_by_priority (expires s) t (in_order s.root))
              (λ u h. ground arith) (insert-IsSorted (expires s) t (in_order s.root) i.sorted));
      }

  trigger-linked :
      (s : Timers) (m t : ℕ) → ((trigger_if_due rb s m).timers t).linked ≡ (s.timers t).linked
  trigger-linked s m t = ground arith

  rearm-linked :
      (s : Timers) (o : Option ℕ) (t : ℕ) → ((rearm rb s o).timers t).linked ≡ (s.timers t).linked
  unfolding rearm
  rearm-linked s none t = refl
  rearm-linked s (some m) t = trigger-linked (hw s (set_expire (expires s m))) m t

  node_erase-off : (s : Timers) (t : ℕ) → ((node_erase rb s t).timers t).linked ≡ false
  unfolding node_erase
  node_erase-off s t = ground arith

  remove_tickless-off :
      (s : Timers) (t : ℕ) (o : Option ℕ) → ((remove_tickless rb s t o).timers t).linked ≡ false
  unfolding remove_tickless
  remove_tickless-off s t none = node_erase-off s t
  remove_tickless-off s t (some m) = elim (Bool-cases (m == t)) [
    | inl e ↦ rw e (rearm-linked (node_erase rb s t) _ t ∙ node_erase-off s t)
    | inr e ↦ rw e (trigger-linked (node_erase rb s t) m t ∙ node_erase-off s t)
  ]

  timer_remove-off :
      (tickless : Bool) (s : Timers) (t : ℕ)
      → ((timer_remove rb tickless s t).timers t).linked ≡ false
  unfolding timer_remove
  timer_remove-off tickless s t = elim (Bool-cases (s.timers t).linked) [
    | inr e ↦ simp e refl
    | inl e ↦ elim (Bool-cases tickless) [
      | inl f ↦ simp (e, f) (remove_tickless-off s t (rb.rb_first s.root))
      | inr f ↦ simp (e, f) (node_erase-off s t)
    ]
  ]

  arm_first-IsTimers :
      (s : Timers) (t : ℕ) (o : Option ℕ) → IsTimers s → IsTimers (arm_first rb s t o)
  unfolding arm_first
  arm_first-IsTimers s t none i = i
  arm_first-IsTimers s t (some m) i = elim (Bool-cases (m == t)) [
    | inl e ↦ rw e (trigger-IsTimers (hw s (set_expire (expires s m))) m (hw-IsTimers s _ i))
    | inr e ↦ rw e (trigger-IsTimers s m i)
  ]

  timer_insert-IsTimers :
      (tickless : Bool) (s : Timers) (t : ℕ)
      → (s.timers t).linked ≡ false
      → IsTimers s
      → IsTimers (timer_insert rb tickless s t)
  unfolding timer_insert
  timer_insert-IsTimers tickless s t off i = elim (Bool-cases tickless) [
    | inl f ↦ rw f (
        arm_first-IsTimers _ t _
          (node_insert-IsTimers _ t (ground arith) (set_expire-IsTimers s t _ off i)))
    | inr f ↦ rw f (node_insert-IsTimers s t off i)
  ]

  -- The timer `t`, off the tree, with its time of expiry by the clock unless `tickless`.
  abbrev timed : Bool → Timers → ℕ → Timers
  timed tickless s t =
      let tm = s.timers t in
      let s2 = set_timer s t (record tm { expire_time = (s.now + tm.timeout) % u64_mod }) in
      if tickless then s else s2

  timed-IsTimers :
      (tickless : Bool) (s : Timers) (t : ℕ)
      → (s.timers t).linked ≡ false
      → IsTimers s
      → IsTimers (timer_insert rb tickless (timed tickless s t) t)
  timed-IsTimers false s t off i =
      timer_insert-IsTimers false (timed false s t) t (ground arith)
        (set_expire-IsTimers s t _ off i)
  timed-IsTimers true s t off i = timer_insert-IsTimers true s t off i

  -- If the tree of timers goes from early to late times of expiry and holds exactly the timers
  -- that are linked, each once, the same holds after nd_timer_start of any timer, also one that
  -- is in the tree already, with or without ticks. The tree library keeps the order when it
  -- rebalances, and erases and finds the first node.
  pub nd_timer_start-IsTimers :
      (tickless : Bool) (s : Timers) (t : Option ℕ)
      → IsTimers s
      → IsTimers (nd_timer_start rb tickless s t).1
  unfolding nd_timer_start
  nd_timer_start-IsTimers tickless s none i = i
  nd_timer_start-IsTimers tickless s (some t) i =
      elim (Bool-cases (is_none (s.timers t).callback)) [
        | inl e ↦ rw e i
        | inr e ↦ rw e (
            timed-IsTimers tickless (timer_remove rb tickless s t) t (timer_remove-off tickless s t)
              (timer_remove-IsTimers tickless s t i))
      ]

  -- If the tree of timers goes from early to late times of expiry and holds exactly the timers
  -- that are linked, each once, the same holds after nd_timer_stop.
  pub nd_timer_stop-IsTimers :
      (tickless : Bool) (s : Timers) (t : Option ℕ)
      → IsTimers s
      → IsTimers (nd_timer_stop rb tickless s t).1
  unfolding nd_timer_stop
  nd_timer_stop-IsTimers tickless s none i = i
  nd_timer_stop-IsTimers tickless s (some t) i = timer_remove-IsTimers tickless s t i
