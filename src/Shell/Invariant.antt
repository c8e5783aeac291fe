-- ===== src/Shell/Invariant.antt =====
-- The invariant of the shell's globals.
pub mod Editing
pub mod Saving
pub mod Rounds
pub mod Parsing
pub mod Browsing
pub mod Help
use nerd_rtos.Common.{Memory, negsuc, pos, ℕ, ℤ, ◌+◌, ◌<◌, ◌≡◌, ◌≤◌, ◌⊎◌}
use nerd_rtos.Klibc.Compare.{IsString}
use nerd_rtos.Shell.State.{History, Shell, Statics, history_line}

-- A string of fewer than 128 characters stands at `a`.
abbrev pub IsLine : Memory → ℕ → Type 0
IsLine mem a = (n : ℕ) × (n < 128) × IsString mem a n

-- browse_pos < n
abbrev pub IsBelow : ℤ → ℕ → Type 0
IsBelow (pos b) n = b < n
IsBelow (negsuc b) n = b ≡ 0

-- The buffer and the history are different arrays.
abbrev pub IsApart : Statics → Type 0
IsApart l = (l.shell_buf + 128 ≤ l.history) ⊎ (l.history + 1024 ≤ l.shell_buf)

-- The history counts at most eight lines and fills them in turn; the browsing stands at one that
-- it counts, or at none.
pub record IsHistory (l : Statics) (h : History) (mem : Memory) : Type 0 where
  pub counted : h.history_count ≤ 8
  pub written : h.write_pos < 8
  pub in_turn : h.history_count < 8 → h.write_pos ≡ h.history_count
  pub browsed : IsBelow h.browse_pos h.history_count
  pub lines : (i : ℕ) → i < h.history_count → IsLine mem (history_line l i)

-- The length leaves room for the zero, and the history is in order.
pub record IsShell (l : Statics) (s : Shell) : Type 0 where
  pub fits : s.input.shell_len < 128
  pub history_fine : IsHistory l s.shell_history s.input.mem
