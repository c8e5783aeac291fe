-- ===== src/Shell/History.antt =====
-- The history of lines, nd_shell.c: a ring of eight lines.
pub mod Recall
use nerd_rtos.Common.{
  Bool, Memory, dec32, false, if◌then◌else◌, leb, ltb, negsuc, pos, suc, true, zero, ℕ, ℤ, ◌%◌, ◌+◌,
  ◌-◌, ◌==◌, ◌||◌,
}
use nerd_rtos.Klibc.{strcmp, strncpy}
use nerd_rtos.Shell.Line.{replace_input}
use nerd_rtos.Shell.State.{
  History, Shell, Statics, buffer_size, history_depth, history_line, input_normal,
}

-- shell_history_browse_index; browse_pos is at most write_pos + 7 where the code uses it.
abbrev pub browse_index : History → ℕ
browse_index h = elim h.browse_pos [
  | pos b ↦ (h.write_pos + history_depth - 1 - b) % history_depth
  | negsuc b ↦ (h.write_pos + history_depth - 1 + (b + 1)) % history_depth
]

-- browse_pos >= n
abbrev pub at_least : ℤ → ℕ → Bool
at_least (pos b) n = leb n b
at_least (negsuc b) n = false

-- browse_pos++ on an int8_t
abbrev pub inc8 : ℤ → ℤ
inc8 (pos b) = if b == 127 then negsuc 127 else pos (b + 1)
inc8 (negsuc zero) = pos 0
inc8 (negsuc (suc b)) = negsuc b

abbrev pub is_negative : ℤ → Bool
is_negative (pos b) = false
is_negative (negsuc b) = true

-- The line at the position of the browsing becomes the input.
unfoldable pub show_line : Statics → Shell → Shell
show_line l s = record s {
  input = replace_input l s.input (history_line l (browse_index s.shell_history));
}

abbrev pub set_browse : Shell → ℤ → Shell
set_browse s b = record s { shell_history = record s.shell_history { browse_pos = b } }

unfoldable pub history_prev : Statics → Shell → Shell
history_prev l s =
    let h = s.shell_history in
    if h.history_count == 0 || at_least h.browse_pos (h.history_count - 1)
    then s
    else show_line l (set_browse s (inc8 h.browse_pos))

unfoldable pub history_next : Statics → Shell → Shell
history_next l s =
    let b = s.shell_history.browse_pos in
    let t = set_browse s (dec32 b) in
    if is_negative b
    then s
    else if is_negative (dec32 b)
    then record t { input = replace_input l t.input l.empty_string }
    else show_line l t

unfoldable pub history_init : History → History
history_init h = record h {
  input_state = input_normal;
  history_count = 0;
  write_pos = 0;
  browse_pos = negsuc 0;
}

unfoldable pub is_zero : ℤ → Bool
is_zero (pos zero) = true
is_zero (pos (suc n)) = false
is_zero (negsuc n) = false

-- shell_history_is_last_duplicate
unfoldable pub is_last_duplicate : Statics → Memory → History → ℕ → Bool
is_last_duplicate l mem h line =
    if h.history_count == 0
    then false
    else is_zero (
        strcmp buffer_size mem (history_line l ((h.write_pos + history_depth - 1) % history_depth))
          line)

-- The rest of shell_history_save, of a line that is not the last one again.
unfoldable pub add_line : Statics → Shell → ℕ → Shell
add_line l s buf =
    let h = s.shell_history in
    record s {
      input = record s.input {
        mem = strncpy buffer_size s.input.mem (history_line l h.write_pos) buf;
      };
      shell_history = record h {
        history_count =
            if ltb h.history_count history_depth then h.history_count + 1 else h.history_count;
        write_pos = (h.write_pos + 1) % history_depth;
      };
    }

unfoldable pub history_save : Statics → Shell → ℕ → Shell
history_save l s buf =
    if is_last_duplicate l s.input.mem s.shell_history buf then s else add_line l s buf
