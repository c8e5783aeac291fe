-- ===== src/Klibc.antt =====
-- Strings in memory, kernel/nd_klibc.c: bytes up to a zero. The loops run for at most as many rounds
-- as their first argument says.
pub mod Compare
pub mod Bounds
pub mod Token
pub mod Print
pub mod Copy
use nerd_rtos.Common.{
  Bool, Memory, false, if◌then◌else◌, leb, negsuc, not, pos, suc, true, update, zero, ℕ, ℤ, ◌%◌,
  ◌&&◌, ◌+◌, ◌-◌, ◌==◌,
}

-- nd_strlen
unfoldable pub strlen : ℕ → Memory → ℕ → ℕ
strlen zero mem s = 0
strlen (suc n) mem s = let rest = strlen n mem (s + 1) in if mem s == 0 then 0 else rest + 1

-- The difference of two bytes as an int.
abbrev pub difference : ℕ → ℕ → ℤ
difference x y = if leb y x then pos (x - y) else negsuc (y - x - 1)

-- nd_strcmp
unfoldable pub strcmp : ℕ → Memory → ℕ → ℕ → ℤ
strcmp zero mem a b = difference (mem a) (mem b)
strcmp (suc n) mem a b =
    let rest = strcmp n mem (a + 1) (b + 1) in
    if not (mem a == 0) && mem a == mem b then rest else difference (mem a) (mem b)

-- nd_memset, of the byte that its second argument is cut to.
unfoldable pub memset : ℕ → Memory → ℕ → ℕ → Memory
memset zero mem s c = mem
memset (suc n) mem s c = memset n (update mem s (c % 256)) (s + 1) c

-- nd_strncpy: the bytes of the string, then zeros, `count` in all.
unfoldable pub strncpy : ℕ → Memory → ℕ → ℕ → Memory
strncpy zero mem d s = mem
strncpy (suc n) mem d s =
    let copied = strncpy n (update mem d (mem s)) (d + 1) (s + 1) in
    if mem s == 0 then memset (suc n) mem d 0 else copied

-- is_delim, of a character and the string of the delimiters at `d`.
unfoldable pub is_delim : ℕ → Memory → ℕ → ℕ → Bool
is_delim zero mem c d = false
is_delim (suc n) mem c d =
    let rest = is_delim n mem c (d + 1) in
    if mem d == 0 then false else if c == mem d then true else rest
