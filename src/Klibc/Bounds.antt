-- ===== src/Klibc/Bounds.antt =====
-- Which bytes nd_memset and nd_strncpy write.
use nerd_rtos.Common.{
  Bool-cases, Memory, arith, false, inl, inr, refl, suc, update, zero, ℕ, ◌%◌, ◌+◌, ◌<◌, ◌==◌, ◌∙◌,
  ◌≡◌, ◌≤◌, ◌⊎◌,
}
use nerd_rtos.Klibc.{memset, strncpy}

abbrev pub Outside : ℕ → ℕ → ℕ → Type 0
Outside a d n = (a < d) ⊎ (d + n ≤ a)

apart_first : (a d n : ℕ) → Outside a d (suc n) → (d == a) ≡ false
apart_first a d n (inl lt) = ground arith
apart_first a d n (inr ge) = ground arith

apart_rest : (a d n : ℕ) → Outside a d (suc n) → Outside a (d + 1) n
apart_rest a d n (inl lt) = inl (omega arith)
apart_rest a d n (inr ge) = inr (omega arith)

update-apart : (mem : Memory) (a d v : ℕ) → (d == a) ≡ false → update mem d v a ≡ mem a
update-apart mem a d v e = ground arith

pub memset-Outside : (n : ℕ) (mem : Memory) (d c a : ℕ) → Outside a d n → memset n mem d c a ≡ mem a
unfolding memset
memset-Outside zero mem d c a out = refl
memset-Outside (suc n) mem d c a out =
    memset-Outside n (update mem d (c % 256)) (d + 1) c a (apart_rest a d n out)
    ∙ update-apart mem a d (c % 256) (apart_first a d n out)

-- nd_strncpy changes no byte outside the `count` bytes from its destination on.
pub strncpy-Outside :
    (n : ℕ) (mem : Memory) (d s a : ℕ) → Outside a d n → strncpy n mem d s a ≡ mem a
unfolding strncpy
strncpy-Outside zero mem d s a out = refl
strncpy-Outside (suc n) mem d s a out = elim (Bool-cases (mem s == 0)) [
  | inl e ↦ rw e (memset-Outside (suc n) mem d 0 a out)
  | inr e ↦ rw e (
      strncpy-Outside n (update mem d (mem s)) (d + 1) (s + 1) a (apart_rest a d n out)
      ∙ update-apart mem a d (mem s) (apart_first a d n out))
]
