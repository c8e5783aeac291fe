-- ===== src/Common/Bytes.antt =====
-- Bytes of memory by their offsets, and the copy of a block of them.
use Prim.Native.Nat.{ℕ, zero, suc, ◌+◌, ◌-◌, ◌≤◌, ◌<◌}
use mathlib.Core.Path.{◌≡◌, refl, ap₂}
use mathlib.Core.Bool.{◌&&◌}
use mathlib.Core.List.{List, [], ◌∷◌}
use mathlib.Core.Logic.{◌⊎◌}
use native.Mathlib.Omega.{arith}
use nerd_rtos.Common.Tests.{leb, ltb, if◌then◌else◌}

abbrev pub Memory : Type 0
Memory = ℕ → ℕ

-- nd_memcpy(dest + d, src + s, n) for blocks that do not overlap.
abbrev pub memcpy : Memory → ℕ → Memory → ℕ → ℕ → Memory
memcpy dest d src s n a = if leb d a && ltb a (d + n) then src (s + (a - d)) else dest a

-- The `n` bytes from offset `a` on.
abbrev pub read : Memory → ℕ → ℕ → List ℕ
read mem a zero = []
read mem a (suc n) = mem a ∷ read mem (a + 1) n

pub read_eq :
    (m : Memory) (a : ℕ) (m' : Memory) (b n : ℕ)
    → ((i : ℕ) → i < n → m (a + i) ≡ m' (b + i))
    → read m a n ≡ read m' b n
read_eq m a m' b zero h = refl
read_eq m a m' b (suc n) h =
    ap₂ ◌∷◌ (at_zero (h 0 (omega arith)))
      (read_eq m (a + 1) m' (b + 1) n (λ i lt. at_next i (h (suc i) (omega arith))))
  where
    at_zero : m (a + 0) ≡ m' (b + 0) → m a ≡ m' b
    at_zero e = ground (arith, e)

    at_next : (i : ℕ) → m (a + suc i) ≡ m' (b + suc i) → m (a + 1 + i) ≡ m' (b + 1 + i)
    at_next i e = ground (arith, e)

-- What was copied is read back.
pub read-memcpy_self :
    (dest : Memory) (d : ℕ) (src : Memory) (s n : ℕ)
    → read (memcpy dest d src s n) d n ≡ read src s n
read-memcpy_self dest d src s n = read_eq (memcpy dest d src s n) d src s n (λ i lt. ground arith)

-- A block that the copy does not meet is left as it was.
pub read-memcpy_apart :
    (dest : Memory) (d : ℕ) (src : Memory) (s n a m : ℕ)
    → (a + m ≤ d) ⊎ (d + n ≤ a)
    → read (memcpy dest d src s n) a m ≡ read dest a m
read-memcpy_apart dest d src s n a m apart =
    read_eq (memcpy dest d src s n) a dest a m (λ i lt. ground arith)
