-- ===== src/Ipc/Sem/Balance.antt =====
-- The count of a semaphore of kernel/nd_sem.c and the threads that wait for it.
-- The count is a number below 2^31, and zero while a thread waits.
use nerd_rtos.Common.{
  Bool, Bool-cases, List-cases, ap, arith, dec32, false, inc32, inl, inr, is_empty, is_positive,
  negsuc, pos, refl, subst, suc, true, zero, ℕ, ℤ, ◌-◌, ◌<◌, ◌==◌, ◌^◌, ◌≡◌, ◌≢◌,
}
use nerd_rtos.Ipc.Sem.{Sem, sem_release, sem_take}
use nerd_rtos.Kernel.Links.{list_is_empty}
use nerd_rtos.Kernel.State.{Kernel, timeout_nowait}

abbrev pub Balanced : ℤ → Bool → Type 0
Balanced (pos n) none_waits = (n < 2 ^ 31) × ((none_waits ≡ false) → n ≡ 0)
Balanced (negsuc n) none_waits = ⊥

unfoldable pub IsBalanced : Sem → Kernel → Type 0
IsBalanced s k = Balanced s.val (list_is_empty k s.wait_list)

release-at : (v : ℤ) → v ≢ pos (2 ^ 31 - 1) → Balanced v true → Balanced (inc32 v) true
release-at (pos n) below b =
    let other : n ≢ 2 ^ 31 - 1 = λ e. below (ap pos e) in
    let e : (n == 2 ^ 31 - 1) ≡ false = ground arith in
    rw e (omega (arith, b.0), λ f. absurd (ground arith))
release-at (negsuc n) below b = absurd b

take-at : (v : ℤ) (b : Bool) → is_positive v ≡ true → Balanced v b → Balanced (dec32 v) b
take-at (pos zero) b e c = absurd (ground arith)
take-at (pos (suc n)) b e c = (omega (arith, c.0), λ f. absurd (omega (arith, c.1 f)))
take-at (negsuc n) b e c = absurd c

-- A count of zero suits any list.
zero-at : (v : ℤ) (b d : Bool) → is_positive v ≡ false → Balanced v b → Balanced v d
zero-at (pos n) b d e c = let z : n ≡ 0 = ground arith in (omega arith, λ f. z)
zero-at (negsuc n) b d e c = absurd c

waited-at : (v : ℤ) → Balanced v false → is_positive v ≡ false
waited-at (pos n) c = ground (arith, c.1 refl)
waited-at (negsuc n) c = absurd c

-- If a semaphore's count is not negative, is zero while a thread waits for it, and is not the
-- largest 32-bit number, the first two hold after nd_sem_release.
pub sem_release-IsBalanced :
    (k : Kernel) (s : Sem)
    → s.val ≢ pos (2 ^ 31 - 1)
    → IsBalanced s k
    → let (r, s', k') = sem_release k s in IsBalanced s' k'
unfolding IsBalanced sem_release
sem_release-IsBalanced k s below b = elim (List-cases (k.lists s.wait_list)) [
  | inl e ↦ simp e (release-at s.val below (subst (Balanced s.val) (ap is_empty e) b))
  | inr (t, ts, e) ↦
      let b' : Balanced s.val false = subst (Balanced s.val) (ap is_empty e) b in
      simp e (zero-at s.val false _ (waited-at s.val b') b')
]

-- If a semaphore's count is not negative and is zero while a thread waits for it, the same holds
-- after nd_sem_take.
pub sem_take-IsBalanced :
    (k : Kernel) (c : ℕ) (s : Sem) (timeout : ℕ)
    → IsBalanced s k
    → let (r, s', k') = sem_take k c s timeout in IsBalanced s' k'
unfolding IsBalanced sem_take
sem_take-IsBalanced k c s timeout b = elim (Bool-cases (is_positive s.val)) [
  | inl e ↦ simp e (take-at s.val _ e b)
  | inr e ↦ elim (Bool-cases (timeout == timeout_nowait)) [
    | inl z ↦ simp (e, z) b
    | inr z ↦ simp (e, z) (zero-at s.val _ _ e b)
  ]
]
