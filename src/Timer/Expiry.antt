-- ===== src/Timer/Expiry.antt =====
-- The time of expiry that nd_timer_start of kernel/nd_timer.c gives a timer.
-- What the removal of a timer leaves alone.
use nerd_rtos.Common.{
  Bool, Bool-cases, Option, ap₂, arith, false, if◌then◌else◌, inl, inr, leb, none, refl, some, true,
  ℕ, ◌%◌, ◌&&◌, ◌+◌, ◌-◌, ◌/◌, ◌==◌, ◌^◌, ◌∙◌, ◌≡◌,
}
use nerd_rtos.Kernel.State.{eok, u64_mod}
use nerd_rtos.Timer.{
  HwCall, RbTree, Timers, arm_first, hw, nd_timer_start, node_erase, rearm, remove_tickless,
  set_expire, set_timer, timer_insert, timer_node_insert, timer_remove, trigger, trigger_clear,
  trigger_if_due,
}
use nerd_rtos.Timer.Keeps.{expires}

record Same (s s' : Timers) (t : ℕ) : Type 0 where
  period : (s'.timers t).timeout ≡ (s.timers t).timeout
  clock : s'.now ≡ s.now
  link_kept : (s'.timers t).expire_time ≡ (s.timers t).expire_time

Same-refl : (s : Timers) (t : ℕ) → Same s s t
Same-refl s t = record { period = refl; clock = refl; link_kept = refl }

Same-trans : (s s' s'' : Timers) (t : ℕ) → Same s s' t → Same s' s'' t → Same s s'' t
Same-trans s s' s'' t a b = record {
  period = b.period ∙ a.period;
  clock = b.clock ∙ a.clock;
  link_kept = b.link_kept ∙ a.link_kept;
}

hw-Same : (s : Timers) (c : HwCall) (t : ℕ) → Same s (hw s c) t
hw-Same s c t = record { period = refl; clock = refl; link_kept = refl }

-- When a timer of this period expires, by the configuration.
abbrev pub due_at : Bool → ℕ → ℕ → ℕ
due_at tickless now period =
    if tickless && leb ((2 ^ 64 - 1) / 2) period then 2 ^ 64 - 1 else (now + period) % u64_mod

due_tickless :
    (now period : ℕ)
    → (if leb ((2 ^ 64 - 1) / 2) period then 2 ^ 64 - 1 else (period + now) % u64_mod)
      ≡ due_at true now period
due_tickless now period = let e : period + now ≡ now + period = omega arith in rw e refl

module _ (rb : RbTree) where
  trigger-Same : (s : Timers) (m t : ℕ) → Same s (trigger_if_due rb s m) t
  trigger-Same s m t = elim (Bool-cases (leb (s.timers m).expire_time s.now)) [
    | inl e ↦ rw e (hw-Same s trigger t)
    | inr e ↦ rw e (Same-refl s t)
  ]

  erase-Same : (s : Timers) (m t : ℕ) → Same s (node_erase rb s m) t
  unfolding node_erase
  erase-Same s m t = record { period = ground arith; clock = refl; link_kept = ground arith }

  rearm-Same : (s : Timers) (o : Option ℕ) (t : ℕ) → Same s (rearm rb s o) t
  unfolding rearm
  rearm-Same s none t = hw-Same s trigger_clear t
  rearm-Same s (some m) t =
      Same-trans s (hw s (set_expire (expires s m))) _ t (hw-Same s _ t)
        (trigger-Same (hw s (set_expire (expires s m))) m t)

  tickless-Same : (s : Timers) (m : ℕ) (o : Option ℕ) (t : ℕ) → Same s (remove_tickless rb s m o) t
  unfolding remove_tickless
  tickless-Same s m none t = erase-Same s m t
  tickless-Same s m (some f) t = elim (Bool-cases (f == m)) [
    | inl e ↦ rw e (
        Same-trans s (node_erase rb s m) _ t (erase-Same s m t)
          (rearm-Same (node_erase rb s m) _ t))
    | inr e ↦ rw e (
        Same-trans s (node_erase rb s m) _ t (erase-Same s m t)
          (trigger-Same (node_erase rb s m) f t))
  ]

  remove-Same : (tickless : Bool) (s : Timers) (t : ℕ) → Same s (timer_remove rb tickless s t) t
  unfolding timer_remove
  remove-Same tickless s t = elim (Bool-cases (s.timers t).linked) [
    | inr e ↦ simp e (Same-refl s t)
    | inl e ↦ elim (Bool-cases tickless) [
      | inl f ↦ simp (e, f) (tickless-Same s t (rb.rb_first s.root) t)
      | inr f ↦ simp (e, f) (erase-Same s t t)
    ]
  ]

  arm-Same : (s : Timers) (m : ℕ) (o : Option ℕ) (t : ℕ) → Same s (arm_first rb s m o) t
  unfolding arm_first
  arm-Same s m none t = Same-refl s t
  arm-Same s m (some f) t = elim (Bool-cases (f == m)) [
    | inl e ↦ rw e (
        Same-trans s (hw s (set_expire (expires s f))) _ t (hw-Same s _ t)
          (trigger-Same (hw s (set_expire (expires s f))) f t))
    | inr e ↦ rw e (trigger-Same s f t)
  ]

  node-at :
      (s : Timers) (t v : ℕ)
      → ((timer_node_insert rb (set_timer s t (record (s.timers t) { expire_time = v })) t).timers
          t).expire_time
        ≡ v
  unfolding timer_node_insert
  node-at s t v = ground arith

  insert-at :
      (s : Timers) (t : ℕ)
      → ((timer_insert rb true s t).timers t).expire_time ≡ due_at true s.now (s.timers t).timeout
  unfolding timer_insert
  insert-at s t =
      let period = (s.timers t).timeout in
      let v = if leb ((2 ^ 64 - 1) / 2) period then 2 ^ 64 - 1 else (period + s.now) % u64_mod in
      let s' = timer_node_insert rb (set_timer s t (record (s.timers t) { expire_time = v })) t in
      (arm-Same s' t (rb.rb_first s'.root) t).link_kept ∙ node-at s t v ∙ due_tickless s.now period

  -- nd_timer_start of a timer with a callback returns ND_EOK, and the timer expires its period
  -- after the current time, modulo 2^64; in the tickless configuration a period of at least half
  -- of the largest 64-bit number gives the largest 64-bit number instead.
  pub nd_timer_start-due :
      (tickless : Bool) (s : Timers) (t f : ℕ)
      → (s.timers t).callback ≡ some f
      → let (r, s') = nd_timer_start rb tickless s (some t) in
        (r ≡ eok) × ((s'.timers t).expire_time ≡ due_at tickless s.now (s.timers t).timeout)
  unfolding nd_timer_start timer_insert
  nd_timer_start-due true s t f e =
      let k = remove-Same true s t in
      simp e (refl, insert-at (timer_remove rb true s t) t ∙ ap₂ (due_at true) k.clock k.period)
  nd_timer_start-due false s t f e =
      let k = remove-Same false s t in
      simp e (refl, node-at (timer_remove rb false s t) t _ ∙ ap₂ (due_at false) k.clock k.period)
