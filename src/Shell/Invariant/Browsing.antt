-- ===== src/Shell/Invariant/Browsing.antt =====
-- The escape sequences and the browsing of the history keep the invariant.
use nerd_rtos.Common.{
  Bool-cases, Memory, arith, dec32, false, inl, inr, negsuc, pos, refl, suc, zero, ℕ, ℤ, ◌-◌, ◌==◌,
  ◌||◌, ◌≡◌, ◌≤◌,
}
use nerd_rtos.Shell.History.{
  at_least, browse_index, history_next, history_prev, inc8, is_negative, set_browse, show_line,
}
use nerd_rtos.Shell.Invariant.{IsApart, IsBelow, IsHistory, IsShell}
use nerd_rtos.Shell.Invariant.Editing.{IsEdit, IsHistory-edit, replace_input-IsEdit}
use nerd_rtos.Shell.State.{
  History, Input, InputState, Shell, Statics, history_line, input_csi, input_esc, input_normal,
}
use nerd_rtos.Shell.Task.{ansi_case, arrow, handle_ansi, set_state}

pub browse-IsHistory :
    (l : Statics) (h : History) (mem : Memory) (b : ℤ)
    → IsHistory l h mem
    → IsBelow b h.history_count
    → IsHistory l (record h { browse_pos = b }) mem
browse-IsHistory l h mem b f below = record {
  counted = f.counted;
  written = f.written;
  in_turn = f.in_turn;
  browsed = below;
  lines = f.lines;
}

pub state-IsShell :
    (l : Statics) (s : Shell) (i : InputState) → IsShell l s → IsShell l (set_state s i)
state-IsShell l s i f = record {
  fits = f.fits;
  history_fine = record {
    counted = f.history_fine.counted;
    written = f.history_fine.written;
    in_turn = f.history_fine.in_turn;
    browsed = f.history_fine.browsed;
    lines = f.history_fine.lines;
  };
}

pub edit-IsShell :
    (l : Statics) (s : Shell) (i : Input) (b : ℤ)
    → IsApart l
    → IsShell l s
    → IsBelow b s.shell_history.history_count
    → IsEdit l s.input i
    → IsShell l (record (set_browse s b) { input = i })
edit-IsShell l s i b apart f below e = record {
  fits = e.edit_fits;
  history_fine =
      IsHistory-edit l (record s.shell_history { browse_pos = b }) s.input.mem i.mem apart
        e.edit_same (browse-IsHistory l s.shell_history s.input.mem b f.history_fine below);
}

inc8-IsBelow :
    (b : ℤ) (n : ℕ)
    → n ≤ 8
    → IsBelow b n
    → (n == 0 || at_least b (n - 1)) ≡ false
    → IsBelow (inc8 b) n
inc8-IsBelow (pos b) n le below e = ground arith
inc8-IsBelow (negsuc zero) n le below e = ground arith
inc8-IsBelow (negsuc (suc b)) n le below e = absurd (omega (arith, below))

dec32-IsBelow : (b : ℤ) (n : ℕ) → is_negative b ≡ false → IsBelow b n → IsBelow (dec32 b) n
dec32-IsBelow (pos zero) n e below = refl
dec32-IsBelow (pos (suc b)) n e below = omega (arith, below)
dec32-IsBelow (negsuc b) n e below = cc

show_line-IsShell :
    (l : Statics) (s : Shell) (b : ℤ)
    → IsApart l
    → IsShell l s
    → IsBelow b s.shell_history.history_count
    → IsShell l (show_line l (set_browse s b))
unfolding show_line
show_line-IsShell l s b apart f below = edit-IsShell l s _ b apart f below (
    replace_input-IsEdit l s.input (history_line l (browse_index (set_browse s b).shell_history))
      f.fits)

pub history_prev-IsShell :
    (l : Statics) (s : Shell) → IsApart l → IsShell l s → IsShell l (history_prev l s)
unfolding history_prev
history_prev-IsShell l s apart f =
    let h = s.shell_history in
    let g = f.history_fine in
    elim (Bool-cases (h.history_count == 0 || at_least h.browse_pos (h.history_count - 1))) [
      | inl e ↦ rw e f
      | inr e ↦ rw e (
          show_line-IsShell l s (inc8 h.browse_pos) apart f
            (inc8-IsBelow h.browse_pos h.history_count g.counted g.browsed e))
    ]

pub history_next-IsShell :
    (l : Statics) (s : Shell) → IsApart l → IsShell l s → IsShell l (history_next l s)
unfolding history_next
history_next-IsShell l s apart f =
    let b = s.shell_history.browse_pos in
    elim (Bool-cases (is_negative b)) [
      | inl e ↦ rw e f
      | inr e ↦ rw e (
          let below = dec32-IsBelow b s.shell_history.history_count e f.history_fine.browsed in
          elim (Bool-cases (is_negative (dec32 b))) [
            | inl e' ↦ rw e' (
                edit-IsShell l s _ (dec32 b) apart f below
                  (replace_input-IsEdit l s.input l.empty_string f.fits))
            | inr e' ↦ rw e' (show_line-IsShell l s (dec32 b) apart f below)
          ])
    ]

arrow-IsShell :
    (l : Statics) (s : Shell) (c : ℕ) → IsApart l → IsShell l s → IsShell l (arrow l s c)
unfolding arrow
arrow-IsShell l s c apart f =
    ground (arith, f, history_prev-IsShell l s apart f, history_next-IsShell l s apart f)

ansi_case-IsShell :
    (l : Statics) (s : Shell) (c : ℕ) (i : InputState)
    → IsApart l
    → IsShell l s
    → IsShell l (ansi_case l s c i).1
unfolding ansi_case
ansi_case-IsShell l s c input_normal apart f = ground (arith, f, state-IsShell l s input_esc f)
ansi_case-IsShell l s c input_esc apart f = state-IsShell l s _ f
ansi_case-IsShell l s c input_csi apart f =
    state-IsShell l (arrow l s c) input_normal (arrow-IsShell l s c apart f)

pub handle_ansi-IsShell :
    (l : Statics) (s : Shell) (c : ℕ) → IsApart l → IsShell l s → IsShell l (handle_ansi l s c).1
unfolding handle_ansi
handle_ansi-IsShell l s c apart f = ansi_case-IsShell l s c s.shell_history.input_state apart f
