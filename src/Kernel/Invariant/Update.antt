-- ===== src/Kernel/Invariant/Update.antt =====
-- The invariant after a change of one thread.
use nerd_rtos.Common.{
  Bool, Bool-cases, Option, arith, false, inl, inr, none, some, true, update, ℕ, ◌==◌, ◌≡◌, ◌⊎◌,
}
use nerd_rtos.Kernel.Invariant.{Awaits, IsFit, IsLinked, IsWf}
use nerd_rtos.Kernel.Scheduler.{is_running}
use nerd_rtos.Kernel.State.{Kernel, Thread, ready}

abbrev KeepsReady : Kernel → ℕ → Thread → Type 0
KeepsReady k t th = (((k.threads t).stat ≡ ready) → th.stat ≡ ready) ⊎ (k.switch_request ≡ false)

-- A state that differs from `k` in its lists and in the thread `t`, now `th`.
pub record Updates (k : Kernel) (t : ℕ) (th : Thread) (k' : Kernel) : Type 0 where
  pub rings : IsLinked k'
  pub threads : k'.threads ≡ update k.threads t th
  pub current : k'.current_thread ≡ k.current_thread
  pub next : k'.next_thread ≡ k.next_thread
  pub request : k'.switch_request ≡ k.switch_request

IsFit-update :
    (ths : ℕ → Thread) (t : ℕ) (th : Thread) (u : ℕ)
    → IsFit th
    → IsFit (ths u)
    → IsFit (update ths t th u)
IsFit-update ths t th u new old = elim (Bool-cases (t == u)) [ inl e ↦ rw e new | inr e ↦ rw e old ]

Awaits-update :
    (ths : ℕ → Thread) (t : ℕ) (th : Thread) (b : Bool) (n : Option ℕ)
    → ((((ths t).stat ≡ ready) → th.stat ≡ ready) ⊎ (b ≡ false))
    → (is_running th.stat ≡ true → is_running (ths t).stat ≡ true)
    → Awaits ths b n
    → Awaits (update ths t th) b n
Awaits-update ths t th false n keep run a = tt
Awaits-update ths t th true none keep run a = a
Awaits-update ths t th true (some n) keep run (isready, idle) =
    (ground arith, λ u. ground (arith, idle u, idle t))

module _ (k : Kernel) (t : ℕ) (th : Thread) {k' : Kernel} where
  pub IsWf-update :
      Updates k t th k'
      → IsFit th
      → KeepsReady k t th
      → (is_running th.stat ≡ true → is_running (k.threads t).stat ≡ true)
      → IsWf k
      → IsWf k'
  IsWf-update d new keep run w = record {
    rings = d.rings;
    fit = λ u. rw (d.threads) (IsFit-update k.threads t th u new (w.fit u));
    only = λ u. rw (d.threads, d.current) (λ r. ground (arith, w.only u, w.only t));
    awaited =
        rw (d.threads, d.request, d.next)
          (Awaits-update k.threads t th k.switch_request k.next_thread keep run w.awaited);
  }
