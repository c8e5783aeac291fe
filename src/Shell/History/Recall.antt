-- ===== src/Shell/History/Recall.antt =====
-- A line that was saved comes back.
use nerd_rtos.Common.{
  Bool-cases, Memory, ap, arith, inl, inr, length, ltb, negsuc, pos, read, read_eq, refl, subst,
  suc, sym, true, zero, ℕ, ℤ, ◌%◌, ◌+◌, ◌-◌, ◌<◌, ◌∙◌, ◌≡◌, ◌≢◌, ◌≤◌,
}
use nerd_rtos.Klibc.{strcmp, strncpy}
use nerd_rtos.Klibc.Bounds.{Outside}
use nerd_rtos.Klibc.Compare.{IsString, strcmp-equal}
use nerd_rtos.Klibc.Copy.{IsString-Same, strncpy-copied}
use nerd_rtos.Shell.History.{
  add_line, history_prev, history_save, is_last_duplicate, is_zero, show_line,
}
use nerd_rtos.Shell.Invariant.{IsApart, IsShell}
use nerd_rtos.Shell.Invariant.Editing.{line-Outside}
use nerd_rtos.Shell.Invariant.Saving.{line_apart}
use nerd_rtos.Shell.Line.{replace_input}
use nerd_rtos.Shell.Line.Shown.{replace_input-line}
use nerd_rtos.Shell.State.{History, Shell, Statics, buffer_size, history_depth, history_line}

-- The line that was written last.
abbrev last_line : History → ℕ
last_line h = (h.write_pos + history_depth - 1) % history_depth

-- The history counts a line, and the last one is the string of `n` characters that stands at `b` in
-- the memory `m`.
record IsLast (l : Statics) (h : History) (mem : Memory) (m : Memory) (b n : ℕ) : Type 0 where
  some_line : h.history_count ≢ 0
  last_string : IsString mem (history_line l (last_line h)) n
  last_bytes : read mem (history_line l (last_line h)) n ≡ read m b n

last_counted :
    (w n : ℕ)
    → n ≢ 0
    → n ≤ 8
    → w < 8
    → (n < 8 → w ≡ n)
    → (w + history_depth - 1) % history_depth < n
last_counted w n ne le lt turn = elim (Bool-cases (ltb n 8)) [
  | inl e ↦ let w_eq = turn (ground arith) in omega (arith, w_eq, ne)
  | inr e ↦ let n_eq : n ≡ 8 = ground arith in omega (arith, n_eq)
]

length-read : (mem : Memory) (a n : ℕ) → length (read mem a n) ≡ n
length-read mem a zero = refl
length-read mem a (suc n) = omega (arith, length-read mem (a + 1) n)

pub is_zero-pos : (d : ℤ) → is_zero d ≡ true → d ≡ pos 0
unfolding is_zero
is_zero-pos (pos zero) e = refl
is_zero-pos (pos (suc n)) e = cc
is_zero-pos (negsuc n) e = cc

duplicate-IsLast :
    (l : Statics) (s : Shell) (n : ℕ)
    → IsShell l s
    → n < 128
    → IsString s.input.mem l.shell_buf n
    → is_last_duplicate l s.input.mem s.shell_history l.shell_buf ≡ true
    → IsLast l s.shell_history s.input.mem s.input.mem l.shell_buf n
unfolding is_last_duplicate
duplicate-IsLast l s n f lt string e =
    let h = s.shell_history in
    let g = f.history_fine in
    let mem = s.input.mem in
    let line = history_line l (last_line h) in
    let ne : h.history_count ≢ 0 = λ z. ground (arith, z, e) in
    let same : is_zero (strcmp 128 mem line l.shell_buf) ≡ true = ground (arith, e) in
    let (m, mlt, other) =
      g.lines (last_line h)
        (last_counted h.write_pos h.history_count ne g.counted g.written g.in_turn) in
    let bytes =
      (strcmp-equal 128 mem line l.shell_buf m n (omega (arith, mlt)) other string).0
        (is_zero-pos _ same) in
    let m_eq : m ≡ n =
      sym (length-read mem line m) ∙ ap length bytes ∙ length-read mem l.shell_buf n in
    record {
      some_line = ne;
      last_string = subst (λ x. IsString mem line x) m_eq other;
      last_bytes = subst (λ x. read mem line x ≡ read mem l.shell_buf n) m_eq bytes;
    }

add_line-IsLast :
    (l : Statics) (s : Shell) (n : ℕ)
    → IsApart l
    → IsShell l s
    → n < 128
    → IsString s.input.mem l.shell_buf n
    → let t = add_line l s l.shell_buf in
      IsLast l t.shell_history t.input.mem s.input.mem l.shell_buf n
unfolding add_line
add_line-IsLast l s n apart f lt string =
    let h = s.shell_history in
    let g = f.history_fine in
    let mem = s.input.mem in
    let line = history_line l h.write_pos in
    let mem' = strncpy buffer_size mem line l.shell_buf in
    let at : h.write_pos ≡ last_line (add_line l s l.shell_buf).shell_history =
      omega (arith, g.written) in
    let copied : (i : ℕ) → i ≤ n → mem' (line + i) ≡ mem (l.shell_buf + i) = λ i le.
      strncpy-copied 128 n mem line l.shell_buf i lt (line_apart l h.write_pos apart g.written)
        string le in
    record {
      some_line = ground arith;
      last_string =
          subst (λ x. IsString mem' (history_line l x) n) at
            (IsString-Same n mem l.shell_buf mem' line copied string);
      last_bytes =
          subst (λ x. read mem' (history_line l x) n ≡ read mem l.shell_buf n) at
            (read_eq mem' line mem l.shell_buf n (λ i ilt. copied i (omega arith)));
    }

history_save-IsLast :
    (l : Statics) (s : Shell) (n : ℕ)
    → IsApart l
    → IsShell l s
    → n < 128
    → IsString s.input.mem l.shell_buf n
    → let t = history_save l s l.shell_buf in
      IsLast l t.shell_history t.input.mem s.input.mem l.shell_buf n
unfolding history_save
history_save-IsLast l s n apart f lt string =
    elim (Bool-cases (is_last_duplicate l s.input.mem s.shell_history l.shell_buf)) [
      | inl e ↦ rw e (duplicate-IsLast l s n f lt string e)
      | inr e ↦ rw e (add_line-IsLast l s n apart f lt string)
    ]

-- The first step back from no line shows the last one.
history_prev-last :
    (l : Statics) (u : Shell)
    → u.shell_history.history_count ≢ 0
    → u.shell_history.browse_pos ≡ negsuc 0
    → (history_prev l u).input
      ≡ replace_input l u.input (history_line l (last_line u.shell_history))
unfolding history_prev show_line
history_prev-last l u ne e = ground (arith, e, ne)

history_save-browse :
    (l : Statics) (s : Shell) (b : ℕ)
    → (history_save l s b).shell_history.browse_pos ≡ s.shell_history.browse_pos
unfolding history_save add_line
history_save-browse l s b = ground arith

-- The line saved last, at most 127 characters long, comes back: after shell_history_save,
-- whatever has since happened to the buffer, if the history is as it was saved and nothing is
-- browsed, the arrow up makes a line of the same length and the same characters, with its zero.
pub history_prev-history_save :
    (l : Statics) (s u : Shell) (n : ℕ)
    → IsApart l
    → IsShell l s
    → n < 128
    → IsString s.input.mem l.shell_buf n
    → s.shell_history.browse_pos ≡ negsuc 0
    → u.shell_history ≡ (history_save l s l.shell_buf).shell_history
    → ((a : ℕ)
        → Outside a l.shell_buf 128
        → u.input.mem a ≡ (history_save l s l.shell_buf).input.mem a)
    → let v = (history_prev l u).input in
      (v.shell_len ≡ n)
      × IsString v.mem l.shell_buf n
      × (read v.mem l.shell_buf n ≡ read s.input.mem l.shell_buf n)
history_prev-history_save l s u n apart f lt string e same_history same =
    let t = history_save l s l.shell_buf in
    let last = history_save-IsLast l s n apart f lt string in
    let line = history_line l (last_line t.shell_history) in
    let below : last_line t.shell_history < 8 = omega arith in
    let string' : IsString u.input.mem line n =
      IsString-Same n t.input.mem line u.input.mem line
        (λ i le.
          same (line + i) (line-Outside l (last_line t.shell_history) i apart below (omega arith)))
        last.last_string in
    let bytes : read u.input.mem line n ≡ read t.input.mem line n =
      read_eq u.input.mem line t.input.mem line n (λ i ilt.
        same (line + i) (line-Outside l (last_line t.shell_history) i apart below (omega arith))) in
    let shown =
      replace_input-line l u.input line n lt (line_apart l (last_line t.shell_history) apart below)
        string' in
    let step : (history_prev l u).input ≡ replace_input l u.input line =
      history_prev-last l u (λ z. last.some_line (ap (λ h. h.history_count) (sym same_history) ∙ z))
        (ap (λ h. h.browse_pos) same_history ∙ history_save-browse l s l.shell_buf ∙ e)
      ∙ ap (λ h. replace_input l u.input (history_line l (last_line h))) same_history in
    rw step (shown.0, shown.1, shown.2 ∙ bytes ∙ last.last_bytes)
