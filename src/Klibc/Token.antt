-- ===== src/Klibc/Token.antt =====
-- nd_strtok_r of kernel/nd_klibc.c.
pub mod Keeps
use nerd_rtos.Common.{
  Memory, Option, if◌then◌else◌, none, not, some, suc, update, zero, ℕ, ◌&&◌, ◌+◌, ◌==◌,
}
use nerd_rtos.Klibc.{is_delim}

-- The first loop: to the first character from `s` on that is no delimiter. `m` is for how many
-- rounds at most is_delim runs.
unfoldable pub skip_delims : ℕ → ℕ → Memory → ℕ → ℕ → ℕ
skip_delims m zero mem s delim = s
skip_delims m (suc n) mem s delim =
    let rest = skip_delims m n mem (s + 1) delim in
    if not (mem s == 0) && is_delim m mem (mem s) delim then rest else s

-- The second loop: to the first delimiter from `s` on.
unfoldable pub skip_token : ℕ → ℕ → Memory → ℕ → ℕ → ℕ
skip_token m zero mem s delim = s
skip_token m (suc n) mem s delim =
    let rest = skip_token m n mem (s + 1) delim in
    if not (mem s == 0) && not (is_delim m mem (mem s) delim) then rest else s

-- Where the search begins: at `str`, or where the last call left off.
abbrev pub begin : Option ℕ → ℕ → ℕ
begin none save = save
begin (some str) save = str

-- What follows the token that starts at `t` and ends at `e`.
unfoldable pub cut_token : Memory → ℕ → ℕ → Option ℕ × ℕ × Memory
cut_token mem t e = if mem e == 0 then (some t, e, mem) else (some t, e + 1, update mem e 0)

-- The token, the pointer for the next call, and the memory.
unfoldable pub strtok_r : ℕ → ℕ → Memory → Option ℕ → ℕ → ℕ → Option ℕ × ℕ × Memory
strtok_r m n mem str delim save =
    let t = skip_delims m n mem (begin str save) delim in
    if mem t == 0 then (none, t, mem) else cut_token mem t (skip_token m n mem t delim)
