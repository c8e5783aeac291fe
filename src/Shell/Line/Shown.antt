-- ===== src/Shell/Line/Shown.antt =====
-- What shell_replace_input puts into the buffer.
use nerd_rtos.Common.{
  Bool-cases, arith, inl, inr, ltb, not, read, read_eq, refl, suc, true, zero, ℕ, ℕ-cases, ◌&&◌,
  ◌+◌, ◌-◌, ◌<◌, ◌==◌, ◌∙◌, ◌≡◌, ◌≤◌, ◌⊎◌,
}
use nerd_rtos.Klibc.Compare.{IsString}
use nerd_rtos.Klibc.Copy.{IsString-Same, IsString-last}
use nerd_rtos.Shell.Invariant.Editing.{erase_input-all, erase_input-mem}
use nerd_rtos.Shell.Line.{add_char, copy_input, end_line, erase_input, replace_input}
use nerd_rtos.Shell.State.{Input, Statics, buffer_size}

-- The two loops never write before the end of the line.
copy_input-before :
    (n : ℕ) (l : Statics) (i : Input) (line a : ℕ)
    → i.shell_len < 128
    → a < l.shell_buf + i.shell_len
    → (copy_input n l i line).mem a ≡ i.mem a
unfolding copy_input
copy_input-before zero l i line a fits lt = refl
copy_input-before (suc n) l i line a fits lt =
    let c = i.mem (line + i.shell_len) in
    elim (Bool-cases (not (c == 0) && ltb i.shell_len (buffer_size - 1))) [
      | inl e ↦ rw e (
          let room : i.shell_len < 127 = ground arith in
          copy_input-before n l (add_char l i c) line a (omega (arith, room))
            (omega (arith, room, lt))
          ∙ ground (arith, lt))
      | inr e ↦ rw e refl
    ]

-- The string of `r` characters at `line + k` is copied behind the `k` characters in the buffer.
record IsCopied (l : Statics) (i j : Input) (line k r : ℕ) : Type 0 where
  copied_len : j.shell_len ≡ k + r
  copied_bytes : (x : ℕ) → x < r → j.mem (l.shell_buf + k + x) ≡ i.mem (line + k + x)

abbrev pub IsElsewhere : Statics → ℕ → Type 0
IsElsewhere l line = (line + 128 ≤ l.shell_buf) ⊎ (l.shell_buf + 128 ≤ line)

add_char-line :
    (l : Statics) (i : Input) (line c k x : ℕ)
    → IsElsewhere l line
    → i.shell_len ≡ k
    → k < 128
    → x < 128
    → (add_char l i c).mem (line + x) ≡ i.mem (line + x)
add_char-line l i line c k x (inl e) len lt xlt = ground (arith, len)
add_char-line l i line c k x (inr e) len lt xlt = ground (arith, len)

copy_input-IsCopied :
    (n : ℕ) (l : Statics) (i : Input) (line k r : ℕ)
    → r ≤ n
    → k + r < 128
    → IsElsewhere l line
    → i.shell_len ≡ k
    → IsString i.mem (line + k) r
    → IsCopied l i (copy_input n l i line) line k r
unfolding copy_input IsString
copy_input-IsCopied zero l i line k zero le lt els e s = record {
  copied_len = omega (arith, e);
  copied_bytes = λ x xlt. absurd (omega (arith, xlt));
}
copy_input-IsCopied zero l i line k (suc r) le lt els e s = absurd (omega (arith, le))
copy_input-IsCopied (suc n) l i line k zero le lt els e s =
    rw (e, s)
      (record {
        copied_len = omega (arith, e);
        copied_bytes = λ x xlt. absurd (omega (arith, xlt));
      })
copy_input-IsCopied (suc n) l i line k (suc r) le lt els e (some_byte, s) =
    let c = i.mem (line + i.shell_len) in
    let go : (not (c == 0) && ltb i.shell_len (buffer_size - 1)) ≡ true =
      ground (arith, e, some_byte) in
    let i' = add_char l i c in
    let j = copy_input n l i' line in
    let len : i'.shell_len ≡ k + 1 = omega (arith, e) in
    let same : (x : ℕ) → x < 128 → i'.mem (line + x) ≡ i.mem (line + x) =
      λ x xlt. add_char-line l i line c k x els e (omega arith) xlt in
    let s' : IsString i'.mem (line + (k + 1)) r =
      IsString-Same r i.mem (line + k + 1) i'.mem (line + (k + 1))
        (λ x xle. let f = same (k + 1 + x) (omega arith) in ground (arith, f)) s in
    let rest = copy_input-IsCopied n l i' line (k + 1) r (omega arith) (omega arith) els len s' in
    rw go (record {
      copied_len = omega (arith, rest.copied_len);
      copied_bytes = λ x xlt. elim (ℕ-cases x) [
        | inl z ↦
            let f =
              copy_input-before n l i' line (l.shell_buf + k) (omega (arith, len))
                (omega (arith, len)) in
            ground (arith, f, z, e)
        | inr (y, z) ↦
            let f = rest.copied_bytes y (omega arith) in
            let g = same (k + 1 + y) (omega arith) in ground (arith, f, g, z)
      ];
    })

-- A string shorter than 128 that is not in the buffer is the line after shell_replace_input.
pub replace_input-line :
    (l : Statics) (i : Input) (line n : ℕ)
    → n < 128
    → IsElsewhere l line
    → IsString i.mem line n
    → let j = replace_input l i line in
      (j.shell_len ≡ n)
      × IsString j.mem l.shell_buf n
      × (read j.mem l.shell_buf n ≡ read i.mem line n)
unfolding replace_input
replace_input-line l i line n lt els s =
    let i' = erase_input i.shell_len i in
    let j = copy_input buffer_size l i' line in
    let k = end_line l j in
    let mem_same = erase_input-mem i.shell_len i in
    let s' : IsString i'.mem (line + 0) n =
      IsString-Same n i.mem line i'.mem (line + 0) (λ x le. ground (arith, mem_same)) s in
    let copy =
      copy_input-IsCopied 128 l i' line 0 n (omega arith) (omega arith) els
        (erase_input-all i.shell_len i (omega arith)) s' in
    let bytes : (x : ℕ) → x < n → k.mem (l.shell_buf + x) ≡ i.mem (line + x) =
      λ x xlt. let f = copy.copied_bytes x xlt in ground (arith, f, mem_same, copy.copied_len) in
    let last = IsString-last n i.mem line s in
    (
      omega (arith, copy.copied_len),
      IsString-Same n i.mem line k.mem l.shell_buf
          (λ x le. elim (Bool-cases (ltb x n)) [
            | inl e ↦ bytes x (ground arith)
            | inr e ↦ let xe : x ≡ n = ground arith in ground (arith, xe, last, copy.copied_len)
          ])
          s,
      read_eq k.mem l.shell_buf i.mem line n bytes,
    )
