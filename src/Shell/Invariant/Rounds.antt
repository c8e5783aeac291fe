-- ===== src/Shell/Invariant/Rounds.antt =====
-- Every round of the shell's task keeps the invariant.
use nerd_rtos.Common.{
  Bool, Bool-cases, List, Memory, [], arith, if◌then◌else◌, inl, inr, length, ltb, negsuc, refl,
  true, ℕ, ◌+◌, ◌<◌, ◌∙◌, ◌∷◌, ◌≡◌,
}
use nerd_rtos.Klibc.Copy.{IsString-last, IsString-of_zero}
use nerd_rtos.Shell.Command.{Command, find, has_name, parse}
use nerd_rtos.Shell.History.{history_init, history_save, set_browse}
use nerd_rtos.Shell.Invariant.{IsApart, IsShell}
use nerd_rtos.Shell.Invariant.Browsing.{browse-IsHistory, edit-IsShell, handle_ansi-IsShell}
use nerd_rtos.Shell.Invariant.Editing.{IsHistory-edit, add_char-IsEdit, end_line-IsEdit}
use nerd_rtos.Shell.Invariant.Parsing.{parse-same}
use nerd_rtos.Shell.Invariant.Saving.{history_save-IsShell, history_save-buffer}
use nerd_rtos.Shell.Line.{add_char, end_line, is_line_end, rub_out}
use nerd_rtos.Shell.State.{Shell, Statics, argc_max, puts}
use nerd_rtos.Shell.Task.{
  call_command, edit, execute, handle_ansi, line_ended, not_found, print, prompt, run_line,
  shell_input, task_entry, task_round, task_start,
}

-- Whatever its arguments are, the command leaves the shell in order.
abbrev pub KeepsShell : Statics → Command → Type 0
KeepsShell l cmd =
    (argc : ℕ) (argv : List ℕ) (s : Shell) → IsShell l s → IsShell l (cmd.func argc argv s)

unfoldable pub EachKeepsShell : Statics → List Command → Type 0
EachKeepsShell l [] = Unit
EachKeepsShell l (cmd ∷ cmds) = KeepsShell l cmd × EachKeepsShell l cmds

print-IsShell : (l : Statics) (s : Shell) (cs : List ℕ) → IsShell l s → IsShell l (print s cs)
print-IsShell l s cs f = record { fits = f.fits; history_fine = f.history_fine }

set_browse-IsShell : (l : Statics) (s : Shell) → IsShell l s → IsShell l (set_browse s (negsuc 0))
set_browse-IsShell l s f = record {
  fits = f.fits;
  history_fine = browse-IsHistory l s.shell_history s.input.mem (negsuc 0) f.history_fine refl;
}

is_line_end-IsShell :
    (l : Statics) (s : Shell) (c : ℕ) → IsShell l s → IsShell l (is_line_end s c).1
unfolding is_line_end
is_line_end-IsShell l s c f =
    let g : (e : ℕ) → IsShell l (record s { last_line_end = e }) =
      λ e. record { fits = f.fits; history_fine = f.history_fine } in
    ground (arith, f, g 0, g c)

line_ended-IsShell :
    (l : Statics) (s : Shell) → IsApart l → IsShell l s → IsShell l (line_ended l s)
unfolding line_ended
line_ended-IsShell l s apart f =
    edit-IsShell l (print s (13 ∷ 10 ∷ [])) (end_line l (puts s.input (13 ∷ 10 ∷ []))) (negsuc 0)
      apart (print-IsShell l s (13 ∷ 10 ∷ []) f) refl
      (end_line-IsEdit l (puts s.input (13 ∷ 10 ∷ [])) f.fits)

pub line_ended-zero :
    (l : Statics) (s : Shell)
    → (line_ended l s).input.mem (l.shell_buf + (line_ended l s).input.shell_len) ≡ 0
unfolding line_ended
line_ended-zero l s = ground arith

edit_char-IsShell :
    (l : Statics) (s : Shell) (c : ℕ) → IsApart l → IsShell l s → IsShell l (edit l s c)
unfolding edit
edit_char-IsShell l s c apart f =
    let deleted : IsShell l (set_browse (record s { input = rub_out s.input }) (negsuc 0)) =
      edit-IsShell l s (rub_out s.input) (negsuc 0) apart f refl
        (record { edit_fits = omega (arith, f.fits); edit_same = λ a out. refl }) in
    let added : s.input.shell_len < 127
        → IsShell l (record (set_browse s (negsuc 0)) { input = add_char l s.input c }) =
      λ lt.
        edit-IsShell l s (add_char l s.input c) (negsuc 0) apart f refl
          (add_char-IsEdit l s.input c lt) in
    ground (arith, f, deleted, added)

-- After the end of a line the memory has the zero that ends the line.
abbrev IsEnded : Statics → Bool × Shell → Type 0
IsEnded l r = r.0 ≡ true → r.1.input.mem (l.shell_buf + r.1.input.shell_len) ≡ 0

shell_input-IsShell :
    (l : Statics) (s : Shell) (c : ℕ)
    → IsApart l
    → IsShell l s
    → IsShell l (shell_input l s c).1 × IsEnded l (shell_input l s c)
unfolding shell_input
shell_input-IsShell l s c apart f =
    let t = (handle_ansi l s c).1 in
    let u = (is_line_end t c).1 in
    let g = handle_ansi-IsShell l s c apart f in
    let h = is_line_end-IsShell l t c g in
    elim (Bool-cases (handle_ansi l s c).0) [
      | inl e ↦ rw e (g, λ e'. cc)
      | inr e ↦ rw e (elim (Bool-cases (is_line_end t c).0) [
        | inl e' ↦ rw e' (line_ended-IsShell l u apart h, λ e''. line_ended-zero l u)
        | inr e' ↦ rw e' (edit_char-IsShell l u c apart h, λ e''. cc)
      ])
    ]

call-IsShell :
    (l : Statics) (cmds : List Command) (mem : Memory) (name : ℕ) (argv : List ℕ) (s : Shell)
    → EachKeepsShell l cmds
    → IsShell l s
    → IsShell l (call_command (find cmds mem name) argv s)
unfolding call_command find EachKeepsShell
call-IsShell l [] mem name argv s keeps f = print-IsShell l s not_found f
call-IsShell l (cmd ∷ cmds) mem name argv s (keep, keeps) f =
    elim (Bool-cases (has_name mem name cmd)) [
      | inl e ↦ rw e (keep (length argv) argv s f)
      | inr e ↦ rw e (call-IsShell l cmds mem name argv s keeps f)
    ]

execute-IsShell :
    (l : Statics) (cmds : List Command) (argv : List ℕ) (s : Shell)
    → EachKeepsShell l cmds
    → IsShell l s
    → IsShell l (execute cmds argv s)
unfolding execute
execute-IsShell l cmds [] s keeps f = f
execute-IsShell l cmds (name ∷ args) s keeps f =
    call-IsShell l cmds s.input.mem name (name ∷ args) s keeps f

run_line-IsShell :
    (l : Statics) (cmds : List Command) (s : Shell)
    → IsApart l
    → EachKeepsShell l cmds
    → IsShell l s
    → s.input.mem (l.shell_buf + s.input.shell_len) ≡ 0
    → IsShell l (run_line l cmds s)
unfolding run_line
run_line-IsShell l cmds s apart keeps f e =
    let (n, le, string) = IsString-of_zero s.input.shell_len s.input.mem l.shell_buf e in
    let lt : n < 128 = omega (arith, f.fits) in
    let t = history_save l s l.shell_buf in
    let g = history_save-IsShell l s n apart f lt string in
    let zero_at =
      history_save-buffer l s n apart f lt ∙ IsString-last n s.input.mem l.shell_buf string in
    let p = parse l t.input.mem l.shell_buf argc_max in
    execute-IsShell l cmds p.0 (record t { input = record t.input { mem = p.1 } }) keeps
      (record {
        fits = g.fits;
        history_fine =
            IsHistory-edit l t.shell_history t.input.mem p.1 apart
              (λ a out. parse-same l t.input.mem n argc_max a lt zero_at out) g.history_fine;
      })

task_round-IsShell :
    (l : Statics) (cmds : List Command) (s : Shell) (c : ℕ)
    → IsApart l
    → EachKeepsShell l cmds
    → IsShell l s
    → IsShell l (task_round l cmds s c)
unfolding task_round
task_round-IsShell l cmds s c apart keeps f =
    let t = (shell_input l s c).1 in
    let (g, zero_at) = shell_input-IsShell l s c apart f in
    elim (Bool-cases (shell_input l s c).0) [
      | inl e ↦ rw e (
          let ran : IsShell l (if ltb 0 t.input.shell_len then run_line l cmds t else t) =
            ground (arith, g, run_line-IsShell l cmds t apart keeps g (zero_at e)) in
          print-IsShell l _ prompt (record { fits = omega arith; history_fine = ran.history_fine }))
      | inr e ↦ rw e g
    ]

task_start-IsShell : (l : Statics) (s : Shell) → s.input.shell_len ≡ 0 → IsShell l (task_start s)
unfolding task_start history_init
task_start-IsShell l s e = record {
  fits = omega (arith, e);
  history_fine = record {
    counted = omega arith;
    written = omega arith;
    in_turn = λ lt. refl;
    browsed = refl;
    lines = λ i lt. absurd (omega (arith, lt));
  };
}

task_rounds-IsShell :
    (l : Statics) (cmds : List Command) (s : Shell) (cs : List ℕ)
    → IsApart l
    → EachKeepsShell l cmds
    → IsShell l s
    → IsShell l (task_entry l cmds s cs)
unfolding task_entry
task_rounds-IsShell l cmds s [] apart keeps f = f
task_rounds-IsShell l cmds s (c ∷ cs) apart keeps f =
    task_rounds-IsShell l cmds (task_round l cmds s c) cs apart keeps
      (task_round-IsShell l cmds s c apart keeps f)

-- If shell_buf and the history are different arrays, shell_len is 0 at first and the commands
-- keep the invariant, then whatever characters nd_shell_task_entry is given, after each of them
-- the length of the line leaves room for its zero, the history counts at most eight lines, each
-- of which ends within its 128 bytes, and the browsing stands at one of them or at none.
pub task_entry-IsShell :
    (l : Statics) (cmds : List Command) (s : Shell) (cs : List ℕ)
    → IsApart l
    → EachKeepsShell l cmds
    → s.input.shell_len ≡ 0
    → IsShell l (task_entry l cmds (task_start s) cs)
task_entry-IsShell l cmds s cs apart keeps e =
    task_rounds-IsShell l cmds (task_start s) cs apart keeps (task_start-IsShell l s e)
