-- ===== src/Examples/Typing.antt =====
-- A shell with one command, `hi`, and that word typed.
use nerd_rtos.Common.{
  List, Memory, [], arith, inl, negsuc, none, read, refl, some, subst, update, ℕ, ◌++◌, ◌∷◌, ◌≡◌,
}
use nerd_rtos.Klibc.Bounds.{Outside}
use nerd_rtos.Klibc.Compare.{IsString}
use nerd_rtos.Shell.Command.{Command, help}
use nerd_rtos.Shell.Command.Lookup.{EachHasString, IsNamed, NoneNamed, execute_lem}
use nerd_rtos.Shell.History.{history_prev, history_save}
use nerd_rtos.Shell.History.Recall.{history_prev-history_save}
use nerd_rtos.Shell.Invariant.{IsApart, IsShell}
use nerd_rtos.Shell.Invariant.Help.{help-KeepsShell}
use nerd_rtos.Shell.Invariant.Rounds.{EachKeepsShell, task_entry-IsShell}
use nerd_rtos.Shell.State.{History, Shell, Statics, input_normal}
use nerd_rtos.Shell.Task.{execute, not_found, print, task_entry, task_start}

abbrev places : Statics
places = record { shell_buf = 0; history = 1000; empty_string = 3000; space_string = 3010 }

-- "hi" in the buffer and as the name of the command, and " ".
abbrev typed_memory : Memory
typed_memory =
    update (update (update (update (update (λ a. 0) 3010 32) 0 104) 1 105) 4000 104) 4001 105

abbrev fresh_history : History
fresh_history = record {
  history_count = 0;
  write_pos = 0;
  browse_pos = negsuc 0;
  input_state = input_normal;
}

abbrev typed : Shell
typed = record {
  input = record { mem = typed_memory; shell_len = 2; output = [] };
  shell_history = fresh_history;
  last_line_end = 0;
}

abbrev hi : Command
hi = record { name = some 4000; desc = none; func = help [] }

places-IsApart : IsApart places
places-IsApart = inl (omega arith)

typed-IsShell : IsShell places typed
typed-IsShell = record {
  fits = omega arith;
  history_fine = record {
    counted = omega arith;
    written = omega arith;
    in_turn = λ lt. refl;
    browsed = refl;
    lines = λ i lt. absurd (omega (arith, lt));
  };
}

typed-IsString : IsString typed_memory 0 2
unfolding IsString
typed-IsString = ((λ e. absurd (omega arith)), ((λ e. absurd (omega arith)), refl))

name-IsString : IsString typed_memory 4000 2
unfolding IsString
name-IsString = ((λ e. absurd (omega arith)), ((λ e. absurd (omega arith)), refl))

-- The characters of "hi", the end of the line, and the arrow up.
abbrev keys : List ℕ
keys = 104 ∷ 105 ∷ 13 ∷ 27 ∷ 91 ∷ 65 ∷ []

abbrev powered : Shell
powered = record {
  input = record { mem = typed_memory; shell_len = 0; output = [] };
  shell_history = record fresh_history { history_count = 3 };
  last_line_end = 0;
}

task_entry-IsShell_example : IsShell places (task_entry places (hi ∷ []) (task_start powered) keys)
task_entry-IsShell_example =
    task_entry-IsShell places (hi ∷ []) powered keys places-IsApart
      (unfold EachKeepsShell in (help-KeepsShell places [] (some 4000) none, tt)) refl

-- The line is saved and the buffer is used again.
abbrev reused : Shell
reused =
    let t = history_save places typed 0 in
    record t { input = record { mem = update t.input.mem 0 120; shell_len = 1; output = [] } }

reused-same :
    (a : ℕ) → Outside a 0 128 → reused.input.mem a ≡ (history_save places typed 0).input.mem a
reused-same a out = ground (arith, out)

history_prev-history_save_example :
    let v = (history_prev places reused).input in
    (v.shell_len ≡ 2) × IsString v.mem 0 2 × (read v.mem 0 2 ≡ 104 ∷ 105 ∷ [])
history_prev-history_save_example =
    history_prev-history_save places typed reused 2 places-IsApart typed-IsShell (omega arith)
      typed-IsString refl refl reused-same

hi-EachHasString : EachHasString typed_memory (hi ∷ [])
unfolding EachHasString
hi-EachHasString = (
  (λ a e.
      let at : 4000 ≡ a = cc in
      subst (λ x. (m : ℕ) × IsString typed_memory x m) at (2, name-IsString)),
  tt,
)

execute_lem_example :
    (NoneNamed typed_memory 0 2 (hi ∷ [])
      → execute (hi ∷ []) (0 ∷ []) typed ≡ print typed not_found)
    × ((before : List Command) (cmd : Command) (after : List Command)
        → hi ∷ [] ≡ before ++ cmd ∷ after
        → NoneNamed typed_memory 0 2 before
        → IsNamed typed_memory 0 2 cmd
        → execute (hi ∷ []) (0 ∷ []) typed ≡ cmd.func 1 (0 ∷ []) typed)
execute_lem_example =
    execute_lem (hi ∷ []) 0 2 [] typed (omega arith) typed-IsString hi-EachHasString
