-- ===== src/Shell/Line.antt =====
-- The line that is typed: line ends and the replacement of the line, nd_shell.c.
pub mod Shown
use nerd_rtos.Common.{
  Bool, [], false, if◌then◌else◌, ltb, not, suc, true, update, zero, ℕ, ◌%◌, ◌&&◌, ◌++◌, ◌+◌, ◌-◌,
  ◌==◌, ◌||◌, ◌∷◌,
}
use nerd_rtos.Shell.State.{Input, Shell, Statics, buffer_size, puts}

abbrev pub ascii_cr : ℕ
ascii_cr = 13

abbrev pub ascii_lf : ℕ
ascii_lf = 10

-- shell_is_line_end
unfoldable pub is_line_end : Shell → ℕ → Bool × Shell
is_line_end s c =
    if not (c == ascii_cr) && not (c == ascii_lf)
    then (false, record s { last_line_end = 0 })
    else if s.last_line_end == 0 || c == s.last_line_end
    then (true, record s { last_line_end = c })
    else (false, s)

-- A character is removed, on the screen too.
abbrev pub rub_out : Input → Input
rub_out i = puts (record i { shell_len = i.shell_len - 1 }) (8 ∷ 32 ∷ 8 ∷ [])

-- The first loop of shell_replace_input, for as many rounds as there are characters.
unfoldable pub erase_input : ℕ → Input → Input
erase_input zero i = i
erase_input (suc n) i = let rest = erase_input n (rub_out i) in if i.shell_len == 0 then i else rest

-- A character `c` is added to the line, and shown.
abbrev pub add_char : Statics → Input → ℕ → Input
add_char l i c = record i {
  mem = update i.mem (l.shell_buf + i.shell_len) c;
  shell_len = (i.shell_len + 1) % 256;
  output = i.output ++ (c ∷ []);
}

-- The second loop, for as many rounds as the buffer is long.
unfoldable pub copy_input : ℕ → Statics → Input → ℕ → Input
copy_input zero l i line = i
copy_input (suc n) l i line =
    let c = i.mem (line + i.shell_len) in
    let rest = copy_input n l (add_char l i c) line in
    if not (c == 0) && ltb i.shell_len (buffer_size - 1) then rest else i

-- shell_buf[shell_len] = 0
abbrev pub end_line : Statics → Input → Input
end_line l i = record i { mem = update i.mem (l.shell_buf + i.shell_len) 0 }

unfoldable pub replace_input : Statics → Input → ℕ → Input
replace_input l i line = end_line l (copy_input buffer_size l (erase_input i.shell_len i) line)
