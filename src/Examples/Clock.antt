-- ===== src/Examples/Clock.antt =====
-- The theorems on timers with a tree library that keeps its trees as lists.
use nerd_rtos.Common.{
  List, [], ap, arith, count, erase, false, head?, length, refl, some, true, ℕ, ◌*◌, ◌+◌, ◌∷◌, ◌≡◌,
}
use nerd_rtos.Kernel.State.{eok}
use nerd_rtos.Kernel.Thread.{insert_by_priority}
use nerd_rtos.Kernel.Waiting.Order.{AllFrom, IsSorted}
use nerd_rtos.Timer.{
  RbTree, Timers, Tree, branch, descend, in_order, leaf, nd_timer_start, nd_timer_stop, one_shot,
  timer_expired, timer_insert, timer_node_insert, timer_remove,
}
use nerd_rtos.Timer.Expiring.{NoneDue, timer_expired-NoneDue}
use nerd_rtos.Timer.Expiry.{due_at, nd_timer_start-due}
use nerd_rtos.Timer.Keeps.{IsTimers, nd_timer_start-IsTimers, nd_timer_stop-IsTimers}
use nerd_rtos.Timer.Order.{descend-in_order}

abbrev spine : List ℕ → Tree
spine [] = leaf
spine (x ∷ xs) = branch leaf x (spine xs)

spine-in_order : (xs : List ℕ) → in_order (spine xs) ≡ xs
unfolding in_order
spine-in_order [] = refl
spine-in_order (x ∷ xs) = ap (λ (ys : List ℕ). x ∷ ys) (spine-in_order xs)

-- It never rebalances, and builds the tree anew to take a node out.
abbrev list_tree : RbTree
list_tree = record {
  rb_insert_color = λ t n. t;
  rb_erase = λ t n. spine (erase n (in_order t));
  rb_first = λ t. head? (in_order t);
  rb_insert_color-in_order = λ t n. refl;
  rb_erase-in_order = λ t n. spine-in_order (erase n (in_order t));
  rb_first-in_order = λ t. refl;
}

abbrev no_timers : Timers
no_timers = record {
  timers = λ t. record {
    kind = one_shot;
    timeout = 10 * (t + 1);
    callback = some 1;
    linked = false;
    expire_time = 0;
  };
  root = leaf;
  now = 0;
  calls = [];
}

no_timers-IsTimers : IsTimers no_timers
unfolding in_order IsSorted count
no_timers-IsTimers = record { placed = λ t. refl; sorted = tt }

abbrev one_started : Timers
one_started = (nd_timer_start list_tree false no_timers (some 2)).1

nd_timer_start-IsTimers_example : IsTimers one_started
nd_timer_start-IsTimers_example =
    nd_timer_start-IsTimers list_tree false no_timers (some 2) no_timers-IsTimers

one_started-IsTimers : IsTimers one_started
one_started-IsTimers = nd_timer_start-IsTimers list_tree false no_timers (some 2) no_timers-IsTimers

nd_timer_stop-IsTimers_example : IsTimers (nd_timer_stop list_tree true one_started (some 2)).1
nd_timer_stop-IsTimers_example =
    nd_timer_stop-IsTimers list_tree true one_started (some 2) one_started-IsTimers

one_started-OneShot : (u : ℕ) → (one_started.timers u).kind ≡ one_shot
unfolding nd_timer_start timer_remove timer_insert timer_node_insert
one_started-OneShot u = ground arith

abbrev idle_callback : ℕ → ℕ → Timers → Timers
idle_callback f m s = s

-- The clock shows 30, at which the timer is due.
abbrev at_thirty : Timers
at_thirty = record one_started { now = 30 }

at_thirty-IsTimers : IsTimers at_thirty
at_thirty-IsTimers = record {
  placed = one_started-IsTimers.placed;
  sorted = one_started-IsTimers.sorted;
}

timer_expired-NoneDue_example :
    NoneDue
      (timer_expired list_tree false (length (in_order at_thirty.root)) idle_callback at_thirty)
timer_expired-NoneDue_example =
    timer_expired-NoneDue list_tree idle_callback (λ f m s. refl) at_thirty one_started-OneShot
      at_thirty-IsTimers

-- A tree of the timers 0 and 4.
abbrev two_nodes : Tree
two_nodes = branch leaf 0 (branch leaf 4 leaf)

two_nodes-IsSorted : IsSorted (λ t. 10 * t) (in_order two_nodes)
unfolding in_order IsSorted AllFrom
two_nodes-IsSorted = ((omega arith, tt), (tt, tt))

descend-in_order_example :
    in_order (descend (λ t. 10 * t) 2 two_nodes)
    ≡ insert_by_priority (λ t. 10 * t) 2 (in_order two_nodes)
descend-in_order_example = descend-in_order (λ t. 10 * t) 2 two_nodes two_nodes-IsSorted

nd_timer_start-due_example :
    let (r, s') = nd_timer_start list_tree true no_timers (some 2) in
    (r ≡ eok) × ((s'.timers 2).expire_time ≡ due_at true 0 30)
nd_timer_start-due_example = nd_timer_start-due list_tree true no_timers 2 1 refl
