-- ===== src/Shell/Invariant/Saving.antt =====
-- Saving a line keeps the invariant.
use nerd_rtos.Common.{
  Bool-cases, Memory, arith, if◌then◌else◌, inl, inr, ltb, negsuc, pos, refl, subst, ℕ, ℤ, ◌%◌, ◌+◌,
  ◌<◌, ◌==◌, ◌≡◌, ◌≢◌, ◌≤◌, ◌⊎◌,
}
use nerd_rtos.Klibc.{strncpy}
use nerd_rtos.Klibc.Bounds.{Outside, strncpy-Outside}
use nerd_rtos.Klibc.Compare.{IsString}
use nerd_rtos.Klibc.Copy.{IsString-Same, strncpy-copied}
use nerd_rtos.Shell.History.{add_line, history_save, is_last_duplicate}
use nerd_rtos.Shell.Invariant.{IsApart, IsBelow, IsHistory, IsLine, IsShell}
use nerd_rtos.Shell.State.{History, Shell, Statics, buffer_size, history_line}

-- The line `n` of the history and the buffer are apart, in the form that nd_strncpy wants.
pub line_apart :
    (l : Statics) (n : ℕ)
    → IsApart l
    → n < 8
    → (history_line l n + 128 ≤ l.shell_buf) ⊎ (l.shell_buf + 128 ≤ history_line l n)
line_apart l n (inl e) lt = inr (omega arith)
line_apart l n (inr e) lt = inl (omega arith)

other_line :
    (l : Statics) (n m j : ℕ)
    → n ≢ m
    → j < 128
    → Outside (history_line l n + j) (history_line l m) 128
other_line l n m j ne lt = elim (Bool-cases (ltb n m)) [
  | inl e ↦ let n_lt : n < m = ground arith in inl (omega (arith, n_lt))
  | inr e ↦ let m_lt : m < n = ground (arith, ne) in inr (omega (arith, m_lt))
]

-- The line that is saved stands in the history.
saved-IsLine :
    (l : Statics) (mem : Memory) (n w : ℕ)
    → IsApart l
    → n < 128
    → w < 8
    → IsString mem l.shell_buf n
    → IsString (strncpy buffer_size mem (history_line l w) l.shell_buf) (history_line l w) n
saved-IsLine l mem n w apart lt wlt s =
    IsString-Same n mem l.shell_buf (strncpy buffer_size mem (history_line l w) l.shell_buf)
      (history_line l w)
      (λ i le.
        strncpy-copied 128 n mem (history_line l w) l.shell_buf i lt (line_apart l w apart wlt) s
          le)
      s

kept-IsLine :
    (l : Statics) (mem : Memory) (i w : ℕ)
    → i ≢ w
    → IsLine mem (history_line l i)
    → IsLine (strncpy buffer_size mem (history_line l w) l.shell_buf) (history_line l i)
kept-IsLine l mem i w ne (k, lt, s) = (
  k,
  lt,
  IsString-Same k mem (history_line l i) (strncpy buffer_size mem (history_line l w) l.shell_buf)
      (history_line l i)
      (λ j le.
        strncpy-Outside 128 mem (history_line l w) l.shell_buf (history_line l i + j)
          (other_line l i w j ne (omega arith)))
      s,
)

one_more : ℕ → ℕ
one_more n = if ltb n 8 then n + 1 else n

IsBelow-one_more : (b : ℤ) (n : ℕ) → IsBelow b n → IsBelow b (one_more n)
unfolding one_more
IsBelow-one_more (pos b) n h = ground arith
IsBelow-one_more (negsuc b) n h = h

in_turn-one_more : (n w : ℕ) → (n < 8 → w ≡ n) → one_more n < 8 → (w + 1) % 8 ≡ one_more n
unfolding one_more
in_turn-one_more n w turn lt = let n_lt : n < 8 = ground arith in let e = turn n_lt in ground arith

earlier : (n w i : ℕ) → n ≤ 8 → w < 8 → (n < 8 → w ≡ n) → i < one_more n → i ≢ w → i < n
unfolding one_more
earlier n w i le wlt turn lt ne = elim (Bool-cases (ltb n 8)) [
  | inl e ↦ let w_eq = turn (ground arith) in ground arith
  | inr e ↦ ground arith
]

after_saving :
    (l : Statics) (h : History) (mem : Memory) (n i : ℕ)
    → IsApart l
    → IsHistory l h mem
    → n < 128
    → IsString mem l.shell_buf n
    → i < one_more h.history_count
    → IsLine (strncpy buffer_size mem (history_line l h.write_pos) l.shell_buf) (history_line l i)
after_saving l h mem n i apart f nlt s lt = elim (Bool-cases (i == h.write_pos)) [
  | inl e ↦
      let i_eq : h.write_pos ≡ i = ground arith in
      subst
        (λ w.
          IsLine (strncpy buffer_size mem (history_line l h.write_pos) l.shell_buf)
            (history_line l w))
        i_eq (n, nlt, saved-IsLine l mem n h.write_pos apart nlt f.written s)
  | inr e ↦
      let ne : i ≢ h.write_pos = ground arith in
      kept-IsLine l mem i h.write_pos ne
        (f.lines i (earlier h.history_count h.write_pos i f.counted f.written f.in_turn lt ne))
]

add_line-IsHistory :
    (l : Statics) (s : Shell) (n : ℕ)
    → IsApart l
    → IsHistory l s.shell_history s.input.mem
    → n < 128
    → IsString s.input.mem l.shell_buf n
    → let t = add_line l s l.shell_buf in IsHistory l t.shell_history t.input.mem
unfolding add_line
add_line-IsHistory l s n apart f nlt string =
    let h = s.shell_history in
    record {
      counted = ground (arith, f.counted);
      written = omega arith;
      in_turn = unfold one_more in in_turn-one_more h.history_count h.write_pos f.in_turn;
      browsed = unfold one_more in IsBelow-one_more h.browse_pos h.history_count f.browsed;
      lines = λ i lt. after_saving l h s.input.mem n i apart f nlt string (unfold one_more in lt);
    }

pub history_save-IsShell :
    (l : Statics) (s : Shell) (n : ℕ)
    → IsApart l
    → IsShell l s
    → n < 128
    → IsString s.input.mem l.shell_buf n
    → IsShell l (history_save l s l.shell_buf)
unfolding history_save
history_save-IsShell l s n apart f nlt string =
    elim (Bool-cases (is_last_duplicate l s.input.mem s.shell_history l.shell_buf)) [
      | inl e ↦ rw e f
      | inr e ↦ rw e (
          unfold add_line in
          record {
            fits = f.fits;
            history_fine = add_line-IsHistory l s n apart f.history_fine nlt string;
          })
    ]

-- The line that is saved is still in the buffer.
pub history_save-buffer :
    (l : Statics) (s : Shell) (i : ℕ)
    → IsApart l
    → IsShell l s
    → i < 128
    → (history_save l s l.shell_buf).input.mem (l.shell_buf + i) ≡ s.input.mem (l.shell_buf + i)
unfolding history_save add_line
history_save-buffer l s i apart f lt =
    elim (Bool-cases (is_last_duplicate l s.input.mem s.shell_history l.shell_buf)) [
      | inl e ↦ rw e refl
      | inr e ↦ rw e (
          strncpy-Outside 128 s.input.mem (history_line l s.shell_history.write_pos) l.shell_buf
            (l.shell_buf + i)
            (buffer-Outside l s.shell_history.write_pos i apart f.history_fine.written lt))
    ]
  where
    buffer-Outside :
        (l : Statics) (n i : ℕ)
        → IsApart l
        → n < 8
        → i < 128
        → Outside (l.shell_buf + i) (history_line l n) 128
    buffer-Outside l n i (inl e) nlt ilt = inl (omega arith)
    buffer-Outside l n i (inr e) nlt ilt = inr (omega arith)
