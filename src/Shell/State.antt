-- ===== src/Shell/State.antt =====
-- The globals of components/shell/src/nd_shell.c. All its strings stand in one memory; a character
-- is its byte.
use nerd_rtos.Common.{List, Memory, [], ℕ, ℤ, ◌*◌, ◌++◌, ◌+◌, ◌∷◌}

-- SHELL_BUFFER_SIZE, SHELL_HISTORY_DEPTH, ARGC_MAX
abbrev pub buffer_size : ℕ
buffer_size = 128

abbrev pub history_depth : ℕ
history_depth = 8

abbrev pub argc_max : ℕ
argc_max = 8

-- shell_input_state_t
pub data InputState : Type 0 where
  input_normal input_esc input_csi : InputState

-- The addresses of the arrays shell_buf and shell_history.history and of the literals "" and " ".
pub record Statics : Type 0 where
  pub shell_buf : ℕ
  pub history : ℕ
  pub empty_string : ℕ
  pub space_string : ℕ

-- The memory, shell_len, and the characters that shell_putc was given so far.
pub record Input : Type 0 where
  pub mem : Memory
  pub shell_len : ℕ
  pub output : List ℕ

-- shell_history_t; the array `history` is in the memory.
pub record History : Type 0 where
  pub history_count : ℕ
  pub write_pos : ℕ
  pub browse_pos : ℤ
  pub input_state : InputState

pub record Shell : Type 0 where
  pub input : Input
  pub shell_history : History
  pub last_line_end : ℕ

-- shell_putc and shell_puts, which the ports define
abbrev pub putc : Input → ℕ → Input
putc i c = record i { output = i.output ++ (c ∷ []) }

abbrev pub puts : Input → List ℕ → Input
puts i cs = record i { output = i.output ++ cs }

-- The address of the line `n` of the history.
abbrev pub history_line : Statics → ℕ → ℕ
history_line l n = l.history + n * 128
