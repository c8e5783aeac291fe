-- ===== src/Timer.antt =====
-- kernel/nd_timer.c: timers in a tree by the time at which they expire. `tickless` is
-- ND_CFG_TICKLESS: a timer of the hardware is set to the first, else the clock counts ticks.
pub mod Order
pub mod Keeps
pub mod Expiring
pub mod Expiry
use nerd_rtos.Common.{
  Bool, List, Option, [], erase, false, head?, if◌then◌else◌, is_none, leb, ltb, none, not, some,
  suc, true, update, zero, ℕ, ◌%◌, ◌++◌, ◌+◌, ◌-◌, ◌/◌, ◌==◌, ◌^◌, ◌||◌, ◌∷◌, ◌≡◌,
}
use nerd_rtos.Kernel.State.{Err, einval, eok, u64_mod}

pub data TimerType : Type 0 where
  one_shot periodic : TimerType

-- A timer; `linked` says that its node is not empty (RB_EMPTY_NODE), `callback` is a function's
-- address or null.
pub record Timer : Type 0 where
  pub kind : TimerType
  pub timeout : ℕ
  pub callback : Option ℕ
  pub linked : Bool
  pub expire_time : ℕ

-- The nodes of rbtree_root by their timers, without their colours.
pub data Tree : Type 0 where
  leaf : Tree
  branch : Tree → ℕ → Tree → Tree

-- What the tickless configuration asks of the hardware.
pub data HwCall : Type 0 where
  set_expire : ℕ → HwCall
  trigger trigger_clear : HwCall

-- The timers, the tree, the clock, and the calls of the hardware so far, latest first.
pub record Timers : Type 0 where
  pub timers : ℕ → Timer
  pub root : Tree
  pub now : ℕ
  pub calls : List HwCall

unfoldable pub in_order : Tree → List ℕ
in_order leaf = []
in_order (branch l x r) = in_order l ++ x ∷ in_order r

-- The library of red-black trees (lib/rbtree.c): it rebalances without a change of the order, takes
-- a node out, and finds the first.
pub record RbTree : Type 0 where
  pub rb_insert_color : Tree → ℕ → Tree
  pub rb_erase : Tree → ℕ → Tree
  pub rb_first : Tree → Option ℕ
  pub rb_insert_color-in_order : (t : Tree) (n : ℕ) → in_order (rb_insert_color t n) ≡ in_order t
  pub rb_erase-in_order : (t : Tree) (n : ℕ) → in_order (rb_erase t n) ≡ erase n (in_order t)
  pub rb_first-in_order : (t : Tree) → rb_first t ≡ head? (in_order t)

abbrev pub set_timer : Timers → ℕ → Timer → Timers
set_timer s t tm = record s { timers = update s.timers t tm }

abbrev pub hw : Timers → HwCall → Timers
hw s c = record s { calls = c ∷ s.calls }

-- The descent of timer_node_insert to the empty link for the timer `t`.
unfoldable pub descend : (ℕ → ℕ) → ℕ → Tree → Tree
descend expire t leaf = branch leaf t leaf
descend expire t (branch l x r) =
    let left = descend expire t l in
    let right = descend expire t r in
    if ltb (expire t) (expire x) then branch left x r else branch l x right

module _ (rb : RbTree) where
  -- timer_node_insert
  unfoldable pub timer_node_insert : Timers → ℕ → Timers
  timer_node_insert s t = record s {
    root = rb.rb_insert_color (descend (λ x. (s.timers x).expire_time) t s.root) t;
    timers = update s.timers t (record (s.timers t) { linked = true });
  }

  -- nd_hw_hrtimer_trigger if the time of `m` has come.
  abbrev pub trigger_if_due : Timers → ℕ → Timers
  trigger_if_due s m = if leb (s.timers m).expire_time s.now then hw s trigger else s

  unfoldable pub arm_first : Timers → ℕ → Option ℕ → Timers
  arm_first s t none = s
  arm_first s t (some m) =
      trigger_if_due (if m == t then hw s (set_expire (s.timers m).expire_time) else s) m

  unfoldable pub timer_insert : Bool → Timers → ℕ → Timers
  timer_insert tickless s t =
      let tm = s.timers t in
      let at =
        if leb ((2 ^ 64 - 1) / 2) tm.timeout then 2 ^ 64 - 1 else (tm.timeout + s.now) % u64_mod in
      let s' = timer_node_insert (set_timer s t (record tm { expire_time = at })) t in
      if tickless then arm_first s' t (rb.rb_first s'.root) else timer_node_insert s t

  -- rb_erase and RB_CLEAR_NODE.
  unfoldable pub node_erase : Timers → ℕ → Timers
  node_erase s t = record s {
    root = rb.rb_erase s.root t;
    timers = update s.timers t (record (s.timers t) { linked = false });
  }

  unfoldable pub rearm : Timers → Option ℕ → Timers
  rearm s none = hw s trigger_clear
  rearm s (some m) = trigger_if_due (hw s (set_expire (s.timers m).expire_time)) m

  -- The tickless part of timer_remove, by the first timer before; the tree is not empty.
  unfoldable pub remove_tickless : Timers → ℕ → Option ℕ → Timers
  remove_tickless s t none = node_erase s t
  remove_tickless s t (some m) =
      let s' = node_erase s t in
      if m == t then rearm s' (rb.rb_first s'.root) else trigger_if_due s' m

  unfoldable pub timer_remove : Bool → Timers → ℕ → Timers
  timer_remove tickless s t =
      if not (s.timers t).linked
      then s
      else if tickless
      then remove_tickless s t (rb.rb_first s.root)
      else node_erase s t

  -- nd_timer_start, of a timer or the null pointer.
  unfoldable pub nd_timer_start : Bool → Timers → Option ℕ → Err × Timers
  nd_timer_start tickless s none = (einval, s)
  nd_timer_start tickless s (some t) =
      let s1 = timer_remove tickless s t in
      let tm = s1.timers t in
      let s2 = set_timer s1 t (record tm { expire_time = (s1.now + tm.timeout) % u64_mod }) in
      if is_none (s.timers t).callback
      then (einval, s)
      else (eok, timer_insert tickless (if tickless then s1 else s2) t)

  unfoldable pub nd_timer_stop : Bool → Timers → Option ℕ → Err × Timers
  nd_timer_stop tickless s none = (einval, s)
  nd_timer_stop tickless s (some t) = (eok, timer_remove tickless s t)

  -- A periodic timer goes back into the tree, one period later.
  unfoldable pub renew : TimerType → Timers → ℕ → Timers
  renew one_shot s m = s
  renew periodic s m =
      let tm = s.timers m in
      let at = (tm.expire_time + tm.timeout) % u64_mod in
      timer_node_insert (set_timer s m (record tm { expire_time = at })) m

  -- `call f m` is what the function `f`, the callback of the timer `m`, does to the timers.
  abbrev pub call_if : (ℕ → ℕ → Timers → Timers) → Option ℕ → ℕ → Timers → Timers
  call_if call none m s = s
  call_if call (some f) m s = call f m s

  -- The round of timer_expired for the first timer, whose time has come.
  unfoldable pub expire_round : (ℕ → ℕ → Timers → Timers) → Timers → ℕ → Timers
  expire_round call s m =
      let s' = node_erase s m in call_if call (s.timers m).callback m (renew (s.timers m).kind s' m)

  unfoldable pub expire_first :
      (Timers → Timers) → (ℕ → ℕ → Timers → Timers) → Timers → Option ℕ → Timers
  expire_first rest call s none = s
  expire_first rest call s (some m) =
      let s' = rest (expire_round call s m) in if ltb s.now (s.timers m).expire_time then s else s'

  -- The loop of timer_expired, for at most so many rounds.
  unfoldable pub expire_loop : ℕ → (ℕ → ℕ → Timers → Timers) → Timers → Timers
  expire_loop zero call s = s
  expire_loop (suc n) call s = expire_first (expire_loop n call) call s (rb.rb_first s.root)

  -- timer_expired, which nd_timer_process calls with interrupts off.
  unfoldable pub timer_expired : Bool → ℕ → (ℕ → ℕ → Timers → Timers) → Timers → Timers
  timer_expired tickless n call s =
      let s' = expire_loop n call s in if tickless then rearm s' (rb.rb_first s'.root) else s'

-- nd_timer_init, less the timer's name and the argument of its callback.
unfoldable pub nd_timer_init : Timers → Option ℕ → TimerType → ℕ → Option ℕ → Err × Timers
nd_timer_init s none kind timeout callback = (einval, s)
nd_timer_init s (some t) kind timeout callback =
    if is_none callback || timeout == 0 then (einval, s) else (
      eok,
      set_timer s t (record (s.timers t) {
        kind = kind;
        timeout = timeout;
        callback = callback;
        linked = false;
      }),
    )
