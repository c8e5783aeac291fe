-- ===== src/Common/Int.antt =====
-- A signed 32-bit number as an integer: `negsuc n` is -(n + 1).
use Prim.Native.Nat.{ℕ, zero, suc, ◌+◌, ◌-◌, ◌^◌}
use mathlib.Core.Bool.{Bool, false}
use nerd_rtos.Common.Tests.{◌==◌, ltb, if◌then◌else◌}

pub data ℤ : Type 0 where
  pos : ℕ → ℤ
  negsuc : ℕ → ℤ

-- n > 0
abbrev pub is_positive : ℤ → Bool
is_positive (pos n) = ltb 0 n
is_positive (negsuc n) = false

-- n++ on an int32_t: past the largest number the smallest comes.
abbrev pub inc32 : ℤ → ℤ
inc32 (pos n) = if n == 2 ^ 31 - 1 then negsuc (2 ^ 31 - 1) else pos (n + 1)
inc32 (negsuc zero) = pos 0
inc32 (negsuc (suc n)) = negsuc n

-- n-- on an int32_t above its smallest number.
abbrev pub dec32 : ℤ → ℤ
dec32 (pos zero) = negsuc 0
dec32 (pos (suc n)) = pos n
dec32 (negsuc n) = negsuc (n + 1)
