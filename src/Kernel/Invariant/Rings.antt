-- ===== src/Kernel/Invariant/Rings.antt =====
-- The list operations and the bitmap of the ready lists.
use nerd_rtos.Common.{
  List, [], arith, count, count-cons, count-erase, count-snoc, false, if◌then◌else◌, is_empty-erase,
  is_empty-snoc, ℕ, ◌+◌, ◌==◌, ◌∷◌, ◌≡◌, ◌≤◌,
}
use nerd_rtos.Kernel.Invariant.{IsLinked}
use nerd_rtos.Kernel.Links.{is_on, list_remove}
use nerd_rtos.Kernel.Ready.{thread_ready_add_head, thread_ready_add_tail, thread_ready_remove}
use nerd_rtos.Kernel.State.{Kernel, Thread, on, set_thread, thread_priority_max}
use nerd_rtos.Kernel.Thread.{insert_by_priority, thread_wait_insert}

pub set_thread-IsLinked :
    (k : Kernel) (t : ℕ) (th : Thread)
    → th.qnode ≡ (k.threads t).qnode
    → IsLinked k
    → IsLinked (set_thread k t th)
set_thread-IsLinked k t th e r = record {
  linked = λ u h. ground (arith, r.linked u h);
  bits = r.bits;
  sound = r.sound;
}

pub add_tail-IsLinked :
    (k : Kernel) (t : ℕ)
    → is_on (k.threads t).qnode ≡ false
    → IsLinked k
    → IsLinked (thread_ready_add_tail k t)
unfolding thread_ready_add_tail
add_tail-IsLinked k t off r = record {
  linked = λ u h. ground (arith, r.linked u h, count-snoc u t (k.lists (k.threads t).priority));
  bits = λ p lt. ground (arith, r.bits p, is_empty-snoc (k.lists p) t);
  sound = ground (arith, r.sound);
}

pub add_head-IsLinked :
    (k : Kernel) (t : ℕ)
    → is_on (k.threads t).qnode ≡ false
    → IsLinked k
    → IsLinked (thread_ready_add_head k t)
unfolding thread_ready_add_head
add_head-IsLinked k t off r = record {
  linked = λ u h. ground (arith, r.linked u h, count-cons u t (k.lists (k.threads t).priority));
  bits = λ p lt. ground (arith, r.bits p);
  sound = ground (arith, r.sound);
}

pub list_remove-IsLinked :
    (k : Kernel) (t h : ℕ)
    → (k.threads t).qnode ≡ on h
    → thread_priority_max ≤ h
    → IsLinked k
    → IsLinked (list_remove k t)
unfolding list_remove
list_remove-IsLinked k t h at above r = record {
  linked = λ u g. ground (arith, r.linked u g, count-erase u t (k.lists h));
  bits = λ p lt. ground (arith, r.bits p);
  sound = ground (arith, r.sound);
}

pub ready_remove-IsLinked :
    (k : Kernel) (t : ℕ)
    → (k.threads t).qnode ≡ on (k.threads t).priority
    → IsLinked k
    → IsLinked (thread_ready_remove k t)
unfolding thread_ready_remove
ready_remove-IsLinked k t at r = record {
  linked = λ u g. ground (arith, r.linked u g, count-erase u t (k.lists (k.threads t).priority));
  bits = λ p lt. ground (arith, r.bits p, is_empty-erase t (k.lists (k.threads t).priority));
  sound = ground (arith, r.sound);
}

-- A thread in its place by priority adds that thread and no other.
pub count-insert_by_priority :
    (prio : ℕ → ℕ) (u t : ℕ) (xs : List ℕ)
    → count u (insert_by_priority prio t xs) ≡ (if t == u then 1 else 0) + count u xs
unfolding insert_by_priority count
count-insert_by_priority prio u t [] = ground arith
count-insert_by_priority prio u t (x ∷ xs) = ground (arith, count-insert_by_priority prio u t xs)

pub wait_insert-IsLinked :
    (k : Kernel) (h t : ℕ)
    → is_on (k.threads t).qnode ≡ false
    → thread_priority_max ≤ h
    → IsLinked k
    → IsLinked (thread_wait_insert k h t)
unfolding thread_wait_insert
wait_insert-IsLinked k h t off above r = record {
  linked = λ u g.
      ground (
        arith,
        r.linked u g,
        count-insert_by_priority (λ x. (k.threads x).priority) u t (k.lists h),
      );
  bits = λ p lt. ground (arith, r.bits p);
  sound = ground (arith, r.sound);
}
