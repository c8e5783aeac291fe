-- ===== src/Shell/Task.antt =====
-- The task of the shell, nd_shell.c: what it does with each character.
use nerd_rtos.Common.{
  Bool, List, Option, [], false, if◌then◌else◌, leb, length, ltb, negsuc, none, not, some, true, ℕ,
  ◌&&◌, ◌-◌, ◌==◌, ◌||◌, ◌∷◌,
}
use nerd_rtos.Shell.Command.{Command, find, parse}
use nerd_rtos.Shell.History.{history_init, history_next, history_prev, history_save, set_browse}
use nerd_rtos.Shell.Line.{add_char, end_line, is_line_end, rub_out}
use nerd_rtos.Shell.State.{
  InputState, Shell, Statics, argc_max, buffer_size, input_csi, input_esc, input_normal, puts,
}

abbrev pub set_state : Shell → InputState → Shell
set_state s i = record s { shell_history = record s.shell_history { input_state = i } }

-- What an arrow key does.
unfoldable pub arrow : Statics → Shell → ℕ → Shell
arrow l s c = if c == 65 then history_prev l s else if c == 66 then history_next l s else s

-- The cases of shell_handle_ansi.
unfoldable pub ansi_case : Statics → Shell → ℕ → InputState → Bool × Shell
ansi_case l s c input_normal = if c == 27 then (true, set_state s input_esc) else (false, s)
ansi_case l s c input_esc = (true, set_state s (if c == 91 then input_csi else input_normal))
ansi_case l s c input_csi = (true, set_state (arrow l s c) input_normal)

-- shell_handle_ansi
unfoldable pub handle_ansi : Statics → Shell → ℕ → Bool × Shell
handle_ansi l s c = ansi_case l s c s.shell_history.input_state

-- The end of a line in shell_input.
unfoldable pub line_ended : Statics → Shell → Shell
line_ended l s =
    set_browse (record s { input = end_line l (puts s.input (13 ∷ 10 ∷ [])) }) (negsuc 0)

-- The rest of shell_input, for a character that neither belongs to an escape sequence nor ends
-- the line.
unfoldable pub edit : Statics → Shell → ℕ → Shell
edit l s c =
    if c == 8 || c == 127
    then if ltb 0 s.input.shell_len
      then set_browse (record s { input = rub_out s.input }) (negsuc 0)
      else s
    else if leb 32 c && leb c 126 && ltb s.input.shell_len (buffer_size - 1)
    then record (set_browse s (negsuc 0)) { input = add_char l s.input c }
    else s

-- shell_input
unfoldable pub shell_input : Statics → Shell → ℕ → Bool × Shell
shell_input l s c =
    let (handled, t) = handle_ansi l s c in
    let (ended, u) = is_line_end t c in
    if handled then (false, t) else if ended then (true, line_ended l u) else (false, edit l u c)

abbrev pub print : Shell → List ℕ → Shell
print s cs = record s { input = puts s.input cs }

-- "nerd@rtos:~$ "
abbrev pub prompt : List ℕ
prompt = 110 ∷ 101 ∷ 114 ∷ 100 ∷ 64 ∷ 114 ∷ 116 ∷ 111 ∷ 115 ∷ 58 ∷ 126 ∷ 36 ∷ 32 ∷ []

-- "command not found\r\n"
abbrev pub not_found : List ℕ
not_found =
    99 ∷ 111 ∷ 109 ∷ 109 ∷ 97 ∷ 110 ∷ 100 ∷ 32 ∷ 110 ∷ 111 ∷ 116 ∷ 32 ∷ 102 ∷ 111 ∷ 117 ∷ 110 ∷ 100
    ∷ 13 ∷ 10 ∷ []

-- The call of the command, if there is one.
unfoldable pub call_command : Option Command → List ℕ → Shell → Shell
call_command none argv s = print s not_found
call_command (some cmd) argv s = cmd.func (length argv) argv s

-- What the task does with the arguments of a line.
unfoldable pub execute : List Command → List ℕ → Shell → Shell
execute cmds [] s = s
execute cmds (name ∷ args) s = call_command (find cmds s.input.mem name) (name ∷ args) s

-- A line that is not empty is saved, taken apart and executed.
unfoldable pub run_line : Statics → List Command → Shell → Shell
run_line l cmds s =
    let t = history_save l s l.shell_buf in
    let (argv, mem') = parse l t.input.mem l.shell_buf argc_max in
    execute cmds argv (record t { input = record t.input { mem = mem' } })

-- The end of a round of the loop of nd_shell_task_entry.
abbrev pub new_line : Shell → Shell
new_line s = print (record s { input = record s.input { shell_len = 0 } }) prompt

-- A round of the loop of nd_shell_task_entry, for the character that shell_getc has returned.
unfoldable pub task_round : Statics → List Command → Shell → ℕ → Shell
task_round l cmds s c =
    let (ended, t) = shell_input l s c in
    let ran = run_line l cmds t in
    if not ended then t else new_line (if ltb 0 t.input.shell_len then ran else t)

-- What it does before the loop.
unfoldable pub task_start : Shell → Shell
task_start s = print (record s { shell_history = history_init s.shell_history }) prompt

-- The task after it was given the characters `cs`, one a round.
unfoldable pub task_entry : Statics → List Command → Shell → List ℕ → Shell
task_entry l cmds s [] = s
task_entry l cmds s (c ∷ cs) = task_entry l cmds (task_round l cmds s c) cs
