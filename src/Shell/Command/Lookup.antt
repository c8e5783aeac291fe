-- ===== src/Shell/Command/Lookup.antt =====
-- Which command shell_find finds.
use nerd_rtos.Common.{
  Bool-cases, List, Memory, Option-cases, [], ap, false, inl, inr, length, none, pos, read, refl,
  some, subst, suc, sym, true, ℕ, ℤ, ◌++◌, ◌∙◌, ◌∷◌, ◌≡◌, ◌≢◌, ◌≤◌,
}
use nerd_rtos.Klibc.{strcmp}
use nerd_rtos.Klibc.Compare.{IsString, strcmp-equal}
use nerd_rtos.Shell.Command.{Command, find, has_name, is_name}
use nerd_rtos.Shell.History.{is_zero}
use nerd_rtos.Shell.History.Recall.{is_zero-pos}
use nerd_rtos.Shell.State.{Shell, buffer_size}
use nerd_rtos.Shell.Task.{call_command, execute, not_found, print}

-- The command has a name, a string of `m` characters, that is the string of `n` at `name`.
abbrev pub IsNamed : Memory → ℕ → ℕ → Command → Type 0
IsNamed mem name n cmd =
    (a : ℕ) × (m : ℕ) × (cmd.name ≡ some a) × IsString mem a m × (read mem name n ≡ read mem a m)

-- If the command has a name at all, it is a string.
abbrev pub HasString : Memory → Command → Type 0
HasString mem cmd = (a : ℕ) → cmd.name ≡ some a → (m : ℕ) × IsString mem a m

unfoldable pub EachHasString : Memory → List Command → Type 0
EachHasString mem [] = Unit
EachHasString mem (cmd ∷ cmds) = HasString mem cmd × EachHasString mem cmds

unfoldable pub NoneNamed : Memory → ℕ → ℕ → List Command → Type 0
NoneNamed mem name n [] = Unit
NoneNamed mem name n (cmd ∷ cmds) = ¬ IsNamed mem name n cmd × NoneNamed mem name n cmds

is_zero-of_pos : (d : ℤ) → d ≡ pos 0 → is_zero d ≡ true
unfolding is_zero
is_zero-of_pos d e = rw e refl

has_name-of_IsNamed :
    (mem : Memory) (name n : ℕ) (cmd : Command)
    → n ≤ 128
    → IsString mem name n
    → IsNamed mem name n cmd
    → has_name mem name cmd ≡ true
unfolding is_name
has_name-of_IsNamed mem name n cmd le s (a, m, e, s', same) =
    ap (is_name mem name) e ∙ is_zero-of_pos _ ((strcmp-equal 128 mem name a n m le s s').1 same)

IsNamed-of_has_name :
    (mem : Memory) (name n : ℕ) (cmd : Command)
    → n ≤ 128
    → IsString mem name n
    → HasString mem cmd
    → has_name mem name cmd ≡ true
    → IsNamed mem name n cmd
unfolding is_name
IsNamed-of_has_name mem name n cmd le s has e = elim (Option-cases cmd.name) [
  | inl o ↦ absurd (true_ne_false (sym e ∙ ap (is_name mem name) o))
  | inr (a, o) ↦
      let (m, s') = has a o in
      let zero_at : is_zero (strcmp buffer_size mem name a) ≡ true =
        sym (ap (is_name mem name) o) ∙ e in
      (a, m, o, s', (strcmp-equal 128 mem name a n m le s s').0 (is_zero-pos _ zero_at))
]
  where
    true_ne_false : true ≢ false
    true_ne_false p = cc

find-none :
    (mem : Memory) (name n : ℕ) (cmds : List Command)
    → n ≤ 128
    → IsString mem name n
    → EachHasString mem cmds
    → NoneNamed mem name n cmds
    → find cmds mem name ≡ none
unfolding find EachHasString NoneNamed
find-none mem name n [] le s has unnamed = refl
find-none mem name n (cmd ∷ cmds) le s (has, more) (unnamed, others) =
    elim (Bool-cases (has_name mem name cmd)) [
      | inl e ↦ absurd (unnamed (IsNamed-of_has_name mem name n cmd le s has e))
      | inr e ↦ rw e (find-none mem name n cmds le s more others)
    ]

find-some :
    (mem : Memory) (name n : ℕ) (before : List Command) (cmd : Command) (after : List Command)
    → n ≤ 128
    → IsString mem name n
    → EachHasString mem (before ++ cmd ∷ after)
    → NoneNamed mem name n before
    → IsNamed mem name n cmd
    → find (before ++ cmd ∷ after) mem name ≡ some cmd
unfolding find EachHasString NoneNamed
find-some mem name n [] cmd after le s has unnamed named =
    rw (has_name-of_IsNamed mem name n cmd le s named) refl
find-some mem name n (other ∷ before) cmd after le s (has, more) (unnamed, others) named =
    elim (Bool-cases (has_name mem name other)) [
      | inl e ↦ absurd (unnamed (IsNamed-of_has_name mem name n other le s has e))
      | inr e ↦ rw e (find-some mem name n before cmd after le s more others named)
    ]

-- For arguments whose first is a string of at most 128 characters, and commands whose names are
-- strings: if no command has that name, the shell prints "command not found" and nothing else
-- changes; otherwise the first command of that name is called, with the number of the arguments
-- and the arguments.
pub execute_lem :
    (cmds : List Command) (name n : ℕ) (args : List ℕ) (s : Shell)
    → n ≤ 128
    → IsString s.input.mem name n
    → EachHasString s.input.mem cmds
    → (NoneNamed s.input.mem name n cmds → execute cmds (name ∷ args) s ≡ print s not_found)
      × ((before : List Command) (cmd : Command) (after : List Command)
          → cmds ≡ before ++ cmd ∷ after
          → NoneNamed s.input.mem name n before
          → IsNamed s.input.mem name n cmd
          → execute cmds (name ∷ args) s ≡ cmd.func (suc (length args)) (name ∷ args) s)
unfolding execute call_command
execute_lem cmds name n args s le string has = (
  λ unnamed. rw (find-none s.input.mem name n cmds le string has unnamed) refl,
  λ before cmd after e unnamed named.
      let has' = subst (EachHasString s.input.mem) e has in
      rw (e, find-some s.input.mem name n before cmd after le string has' unnamed named) refl,
)
