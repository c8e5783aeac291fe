-- ===== src/Shell/Command.antt =====
-- Command lines and commands, nd_shell.c and nd_shell.h.
pub mod Lookup
use nerd_rtos.Common.{
  Bool, List, Memory, Option, [], false, if◌then◌else◌, none, read, some, suc, zero, ℕ, ◌∷◌,
}
use nerd_rtos.Klibc.{strcmp, strlen}
use nerd_rtos.Klibc.Token.{strtok_r}
use nerd_rtos.Shell.History.{is_zero}
use nerd_rtos.Shell.State.{Input, Shell, Statics, buffer_size, puts}

-- struct nd_shell_cmd: the strings by their addresses; `func` is what the call of the command with
-- argc and argv makes of the shell.
pub record Command : Type 0 where
  pub name : Option ℕ
  pub desc : Option ℕ
  pub func : ℕ → List ℕ → Shell → Shell

-- The loop of shell_parse, for as many rounds as argv has room: the tokens, and the memory.
unfoldable pub parse_loop : ℕ → Memory → ℕ → Option ℕ → ℕ → List ℕ × Memory
parse_loop zero mem space token save = ([], mem)
parse_loop (suc n) mem space none save = ([], mem)
parse_loop (suc n) mem space (some t) save =
    let (token, save', mem') = strtok_r 2 buffer_size mem none space save in
    let (argv, mem'') = parse_loop n mem' space token save' in (t ∷ argv, mem'')

unfoldable pub parse : Statics → Memory → ℕ → ℕ → List ℕ × Memory
parse l mem cmd_line max_argc =
    let (token, save, mem') = strtok_r 2 buffer_size mem (some cmd_line) l.space_string 0 in
    parse_loop max_argc mem' l.space_string token save

-- The test of shell_find, with the pointer to the command's name.
unfoldable pub is_name : Memory → ℕ → Option ℕ → Bool
is_name mem name none = false
is_name mem name (some a) = is_zero (strcmp buffer_size mem name a)

abbrev pub has_name : Memory → ℕ → Command → Bool
has_name mem name cmd = is_name mem name cmd.name

-- shell_find, in the commands from __shell_cmd_start to __shell_cmd_end
unfoldable pub find : List Command → Memory → ℕ → Option Command
find [] mem name = none
find (cmd ∷ cmds) mem name =
    let rest = find cmds mem name in if has_name mem name cmd then some cmd else rest

-- The characters of the string at `a`.
abbrev pub chars : Memory → ℕ → List ℕ
chars mem a = read mem a (strlen buffer_size mem a)

-- A round of nd_shell_help.
unfoldable pub help_line : Input → Option ℕ → Option ℕ → Input
help_line i none desc = i
help_line i (some a) none = i
help_line i (some a) (some b) =
    puts
      (puts (puts (puts (puts i (32 ∷ 45 ∷ 32 ∷ [])) (chars i.mem a)) (32 ∷ 45 ∷ 32 ∷ []))
        (chars i.mem b))
      (13 ∷ 10 ∷ [])

unfoldable pub help_lines : List Command → Input → Input
help_lines [] i = i
help_lines (cmd ∷ cmds) i = help_lines cmds (help_line i cmd.name cmd.desc)

unfoldable pub help : List Command → ℕ → List ℕ → Shell → Shell
help cmds argc argv s = record s { input = help_lines cmds (puts s.input (13 ∷ 10 ∷ [])) }
