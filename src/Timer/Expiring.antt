-- ===== src/Timer/Expiring.antt =====
-- The end of the loop of timer_expired in kernel/nd_timer.c.
use nerd_rtos.Common.{
  Bool-cases, List, List-cases, Option, ap, arith, count, count-nil, erase, false, head?, inl, inr,
  length, ltb, none, refl, some, subst, suc, zero, ℕ, ◌<◌, ◌∙◌, ◌∷◌, ◌≡◌, ◌≢◌, ◌≤◌,
}
use nerd_rtos.Kernel.Waiting.Kept.{erase-head}
use nerd_rtos.Kernel.Waiting.Order.{AllFrom-at, IsSorted}
use nerd_rtos.Timer.{
  RbTree, Timers, call_if, expire_first, expire_loop, expire_round, in_order, node_erase, one_shot,
  renew, timer_expired,
}
use nerd_rtos.Timer.Keeps.{IsTimers, expires, node_erase-IsTimers}

count_head : (x : ℕ) (xs : List ℕ) → count x (x ∷ xs) ≢ 0
unfolding count
count_head x xs e = ground arith

later_than_head :
    (e : ℕ → ℕ) (x : ℕ) (xs : List ℕ) (u : ℕ)
    → IsSorted e (x ∷ xs)
    → count u (x ∷ xs) ≢ 0
    → e x ≤ e u
unfolding IsSorted count
later_than_head e x xs u (a, s) h = ground (arith, AllFrom-at e (e x) xs u a)

-- No timer in the tree is due.
abbrev pub NoneDue : Timers → Type 0
NoneDue s = (u : ℕ) → count u (in_order s.root) ≢ 0 → s.now < (s.timers u).expire_time

module _ (rb : RbTree) (call : ℕ → ℕ → Timers → Timers)
    (untouched : (f m : ℕ) (s : Timers) → call f m s ≡ s) where
  call_if-same : (o : Option ℕ) (m : ℕ) (s : Timers) → call_if rb call o m s ≡ s
  call_if-same none m s = refl
  call_if-same (some f) m s = untouched f m s

  abbrev OneShot : Timers → Type 0
  OneShot s = (u : ℕ) → (s.timers u).kind ≡ one_shot

  round-OneShot : (s : Timers) (m : ℕ) → OneShot s → expire_round rb call s m ≡ node_erase rb s m
  unfolding expire_round renew
  round-OneShot s m o = rw (o m) (call_if-same (s.timers m).callback m (node_erase rb s m))

  node_erase-OneShot : (s : Timers) (m : ℕ) → OneShot s → OneShot (node_erase rb s m)
  unfolding node_erase
  node_erase-OneShot s m o u = ground (arith, o u)

  node_erase-in_order :
      (s : Timers) (m : ℕ) (ms : List ℕ)
      → IsTimers s
      → in_order s.root ≡ m ∷ ms
      → in_order (node_erase rb s m).root ≡ ms
  unfolding node_erase
  node_erase-in_order s m ms i e =
      rb.rb_erase-in_order s.root m
      ∙ ap (erase m) e
      ∙ erase-head m ms (ground (arith, i.placed m, ap (count m) e, count_head m ms))

  loop-NoneDue :
      (n : ℕ) (s : Timers)
      → length (in_order s.root) ≤ n
      → OneShot s
      → IsTimers s
      → NoneDue (expire_loop rb n call s)
  unfolding expire_loop expire_first
  loop-NoneDue zero s le o i = elim (List-cases (in_order s.root)) [
    | inl e ↦ λ u h. absurd (h (ap (count u) e ∙ count-nil u))
    | inr (x, xs, e) ↦ absurd (omega (arith, le, ap length e))
  ]
  loop-NoneDue (suc n) s le o i = elim (List-cases (in_order s.root)) [
    | inl e ↦
        let first : rb.rb_first s.root ≡ none = rb.rb_first-in_order s.root ∙ ap head? e in
        rw first (λ u h. absurd (h (ap (count u) e ∙ count-nil u)))
    | inr (x, xs, e) ↦
        let first : rb.rb_first s.root ≡ some x = rb.rb_first-in_order s.root ∙ ap head? e in
        elim (Bool-cases (ltb s.now (s.timers x).expire_time)) [
          | inl l ↦
              rw (first, l)
                (λ u h.
                  let late =
                    later_than_head (expires s) x xs u (subst (IsSorted (expires s)) e i.sorted)
                      (λ z. h (ap (count u) e ∙ z)) in
                  ground (arith, late))
          | inr l ↦
              let rest = node_erase-in_order s x xs i e in
              rw (first, l, round-OneShot s x o)
                (loop-NoneDue n (node_erase rb s x) (omega (arith, le, ap length e, ap length rest))
                  (node_erase-OneShot s x o) (node_erase-IsTimers rb s x i))
        ]
  ]

  -- If all timers are one-shot, the tree of timers is in order and the callbacks change no
  -- timer, then as many rounds of the loop of timer_expired as the tree has timers are enough:
  -- afterwards no timer in the tree is due. This is for the configuration with ticks.
  pub timer_expired-NoneDue :
      (s : Timers)
      → OneShot s
      → IsTimers s
      → NoneDue (timer_expired rb false (length (in_order s.root)) call s)
  unfolding timer_expired
  timer_expired-NoneDue s o i = loop-NoneDue (length (in_order s.root)) s (omega arith) o i
