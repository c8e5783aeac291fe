-- ===== src/Shell/Invariant/Editing.antt =====
-- The editing of the line keeps the invariant: it writes no byte outside the buffer.
use nerd_rtos.Common.{
  Bool-cases, Memory, arith, inl, inr, ltb, not, refl, suc, update, zero, ℕ, ◌&&◌, ◌+◌, ◌-◌, ◌<◌,
  ◌==◌, ◌∙◌, ◌≡◌, ◌≤◌,
}
use nerd_rtos.Klibc.Bounds.{Outside}
use nerd_rtos.Klibc.Copy.{IsString-Same}
use nerd_rtos.Shell.Invariant.{IsApart, IsHistory, IsLine}
use nerd_rtos.Shell.Line.{add_char, copy_input, end_line, erase_input, replace_input, rub_out}
use nerd_rtos.Shell.State.{History, Input, Statics, buffer_size, history_line}

-- Only bytes of the buffer have changed, and the length leaves room for the zero.
pub record IsEdit (l : Statics) (i i' : Input) : Type 0 where
  pub edit_fits : i'.shell_len < 128
  pub edit_same : (a : ℕ) → Outside a l.shell_buf 128 → i'.mem a ≡ i.mem a

IsEdit-trans : (l : Statics) (i j k : Input) → IsEdit l i j → IsEdit l j k → IsEdit l i k
IsEdit-trans l i j k e f = record {
  edit_fits = f.edit_fits;
  edit_same = λ a out. f.edit_same a out ∙ e.edit_same a out;
}

erase_input-IsEdit :
    (n : ℕ) (l : Statics) (i : Input) → i.shell_len < 128 → IsEdit l i (erase_input n i)
unfolding erase_input
erase_input-IsEdit zero l i lt = record { edit_fits = lt; edit_same = λ a out. refl }
erase_input-IsEdit (suc n) l i lt = elim (Bool-cases (i.shell_len == 0)) [
  | inl c ↦ rw c (record { edit_fits = lt; edit_same = λ a out. refl })
  | inr c ↦ rw c (
      let e = erase_input-IsEdit n l (rub_out i) (omega (arith, lt)) in
      record { edit_fits = e.edit_fits; edit_same = e.edit_same })
]

pub erase_input-all : (n : ℕ) (i : Input) → i.shell_len ≤ n → (erase_input n i).shell_len ≡ 0
unfolding erase_input
erase_input-all zero i le = omega (arith, le)
erase_input-all (suc n) i le = elim (Bool-cases (i.shell_len == 0)) [
  | inl c ↦ rw c (ground arith)
  | inr c ↦ rw c (erase_input-all n (rub_out i) (omega (arith, le)))
]

pub erase_input-mem : (n : ℕ) (i : Input) → (erase_input n i).mem ≡ i.mem
unfolding erase_input
erase_input-mem zero i = refl
erase_input-mem (suc n) i = elim (Bool-cases (i.shell_len == 0)) [
  | inl c ↦ rw c refl
  | inr c ↦ rw c (erase_input-mem n (rub_out i))
]

update-buffer :
    (l : Statics) (mem : Memory) (n v a : ℕ)
    → n < 128
    → Outside a l.shell_buf 128
    → update mem (l.shell_buf + n) v a ≡ mem a
update-buffer l mem n v a lt out = ground arith

pub add_char-IsEdit :
    (l : Statics) (i : Input) (c : ℕ) → i.shell_len < 127 → IsEdit l i (add_char l i c)
add_char-IsEdit l i c lt = record {
  edit_fits = omega (arith, lt);
  edit_same = λ a out. update-buffer l i.mem i.shell_len c a (omega (arith, lt)) out;
}

copy_input-IsEdit :
    (n : ℕ) (l : Statics) (i : Input) (line : ℕ)
    → i.shell_len < 128
    → IsEdit l i (copy_input n l i line)
unfolding copy_input
copy_input-IsEdit zero l i line lt = record { edit_fits = lt; edit_same = λ a out. refl }
copy_input-IsEdit (suc n) l i line lt =
    let c = i.mem (line + i.shell_len) in
    elim (Bool-cases (not (c == 0) && ltb i.shell_len (buffer_size - 1))) [
      | inl e ↦ rw e (
          let lt' : i.shell_len < 127 = ground arith in
          let f = add_char-IsEdit l i c lt' in
          IsEdit-trans l i (add_char l i c) (copy_input n l (add_char l i c) line) f
            (copy_input-IsEdit n l (add_char l i c) line f.edit_fits))
      | inr e ↦ rw e (record { edit_fits = lt; edit_same = λ a out. refl })
    ]

pub end_line-IsEdit : (l : Statics) (i : Input) → i.shell_len < 128 → IsEdit l i (end_line l i)
end_line-IsEdit l i lt = record {
  edit_fits = lt;
  edit_same = λ a out. update-buffer l i.mem i.shell_len 0 a lt out;
}

pub replace_input-IsEdit :
    (l : Statics) (i : Input) (line : ℕ) → i.shell_len < 128 → IsEdit l i (replace_input l i line)
unfolding replace_input
replace_input-IsEdit l i line lt =
    let j = erase_input i.shell_len i in
    let k = copy_input buffer_size l j line in
    let e = erase_input-IsEdit i.shell_len l i lt in
    let f = copy_input-IsEdit buffer_size l j line e.edit_fits in
    IsEdit-trans l i j (end_line l k) e
      (IsEdit-trans l j k (end_line l k) f (end_line-IsEdit l k f.edit_fits))

-- The line `n` of the history is not in the buffer.
pub line-Outside :
    (l : Statics) (n i : ℕ)
    → IsApart l
    → n < 8
    → i < 128
    → Outside (history_line l n + i) l.shell_buf 128
line-Outside l n i (inl e) lt ilt = inr (omega arith)
line-Outside l n i (inr e) lt ilt = inl (omega arith)

pub IsLine-edit :
    (l : Statics) (mem mem' : Memory) (n : ℕ)
    → IsApart l
    → ((a : ℕ) → Outside a l.shell_buf 128 → mem' a ≡ mem a)
    → n < 8
    → IsLine mem (history_line l n)
    → IsLine mem' (history_line l n)
IsLine-edit l mem mem' n apart same lt (k, klt, s) = (
  k,
  klt,
  IsString-Same k mem (history_line l n) mem' (history_line l n)
      (λ i le. same (history_line l n + i) (line-Outside l n i apart lt (omega arith))) s,
)

pub IsHistory-edit :
    (l : Statics) (h : History) (mem mem' : Memory)
    → IsApart l
    → ((a : ℕ) → Outside a l.shell_buf 128 → mem' a ≡ mem a)
    → IsHistory l h mem
    → IsHistory l h mem'
IsHistory-edit l h mem mem' apart same f = record {
  counted = f.counted;
  written = f.written;
  in_turn = f.in_turn;
  browsed = f.browsed;
  lines = λ i lt. IsLine-edit l mem mem' i apart same (omega (arith, lt, f.counted)) (f.lines i lt);
}
