-- ===== src/Shell/Invariant/Help.antt =====
-- The command `help` only prints.
use nerd_rtos.Common.{List, Option, [], none, refl, some, subst, sym, ℕ, ◌<◌, ◌∙◌, ◌∷◌, ◌≡◌}
use nerd_rtos.Shell.Command.{Command, help, help_line, help_lines}
use nerd_rtos.Shell.Invariant.{IsHistory}
use nerd_rtos.Shell.Invariant.Rounds.{KeepsShell}
use nerd_rtos.Shell.State.{Input, Statics, puts}

help_line-keeps :
    (i : Input) (name desc : Option ℕ)
    → ((help_line i name desc).mem ≡ i.mem) × ((help_line i name desc).shell_len ≡ i.shell_len)
unfolding help_line
help_line-keeps i none desc = (refl, refl)
help_line-keeps i (some a) none = (refl, refl)
help_line-keeps i (some a) (some b) = (refl, refl)

help_lines-keeps :
    (cmds : List Command) (i : Input)
    → ((help_lines cmds i).mem ≡ i.mem) × ((help_lines cmds i).shell_len ≡ i.shell_len)
unfolding help_lines
help_lines-keeps [] i = (refl, refl)
help_lines-keeps (cmd ∷ cmds) i =
    let (m, n) = help_lines-keeps cmds (help_line i cmd.name cmd.desc) in
    let (m', n') = help_line-keeps i cmd.name cmd.desc in (m ∙ m', n ∙ n')

pub help-KeepsShell :
    (l : Statics) (cmds : List Command) (name desc : Option ℕ)
    → KeepsShell l (record { name = name; desc = desc; func = help cmds })
unfolding help
help-KeepsShell l cmds name desc argc argv s f =
    let (m, n) = help_lines-keeps cmds (puts s.input (13 ∷ 10 ∷ [])) in
    record {
      fits = subst (λ x. x < 128) (sym n) f.fits;
      history_fine = subst (IsHistory l s.shell_history) (sym m) f.history_fine;
    }
