-- ===== src/Klibc/Print.antt =====
-- nd_vsnprintf and nd_snprintf of kernel/nd_klibc.c, on a 32-bit target: int, long and pointers are
-- words below 2^32, and the arguments are the list of them. (An argument that is missing, which C
-- leaves undefined, is read as 0.)
pub mod Digits
pub mod Written
pub mod Signed
use nerd_rtos.Common.{
  Bool, List, Memory, [], count, if◌then◌else◌, leb, ltb, not, suc, update, zero, ℕ, ◌%◌, ◌&&◌, ◌*◌,
  ◌+◌, ◌-◌, ◌/◌, ◌==◌, ◌^◌, ◌||◌, ◌∷◌,
}
use nerd_rtos.Kernel.State.{u32_mod}
use nerd_rtos.Klibc.{strlen}

-- What the formatter writes to: the memory, `written`, and the local tmp_buf.
pub record Printer : Type 0 where
  pub mem : Memory
  pub written : ℕ
  pub tmp_buf : Memory

-- Where `out` points: into tmp_buf or into the memory.
pub data Source : Type 0 where
  in_tmp in_mem : ℕ → Source

abbrev pub fetch : Printer → Source → ℕ
fetch p (in_tmp i) = p.tmp_buf i
fetch p (in_mem a) = p.mem a

abbrev pub next_char : Source → Source
next_char (in_tmp i) = in_tmp (i + 1)
next_char (in_mem a) = in_mem (a + 1)

-- buf_putc
unfoldable pub buf_putc : ℕ → ℕ → Printer → ℕ → Printer
buf_putc buf size p c =
    if ltb p.written (size - 1)
    then record p { mem = update p.mem (buf + p.written) c; written = (p.written + 1) % u32_mod }
    else p

-- buf_putn, of `len` characters
unfoldable pub buf_putn : ℕ → ℕ → ℕ → Printer → Source → Printer
buf_putn buf size zero p str = p
buf_putn buf size (suc len) p str =
    buf_putn buf size len (buf_putc buf size p (fetch p str)) (next_char str)

-- buf_pad
unfoldable pub buf_pad : ℕ → ℕ → ℕ → Printer → Printer
buf_pad buf size zero p = p
buf_pad buf size (suc count) p = buf_pad buf size count (buf_putc buf size p 32)

-- The loop that writes the decimal digits of `value` from tmp_buf + len on, the lowest first: the
-- new tmp_buf and `len`. A word has ten digits at most.
unfoldable pub decimal_digits : ℕ → Memory → ℕ → ℕ → Memory × ℕ
decimal_digits zero tmp len value = (tmp, len)
decimal_digits (suc n) tmp len value =
    let rest = decimal_digits n (update tmp len (value % 10 + 48)) (len + 1) (value / 10) in
    if value == 0 then (tmp, len) else rest

abbrev pub hex_digit : ℕ → ℕ
hex_digit d = if ltb d 10 then 48 + d else 97 + d - 10

-- The loop of the hexadecimal digits; `num & 0xF` and `num >>= 4` of a word.
unfoldable pub hex_digits : ℕ → Memory → ℕ → ℕ → Memory × ℕ
hex_digits zero tmp len num = (tmp, len)
hex_digits (suc n) tmp len num =
    let rest = hex_digits n (update tmp len (hex_digit (num % 16))) (len + 1) (num / 16) in
    if num == 0 then (tmp, len) else rest

-- The loop that turns the digits from `i` to `j` round.
unfoldable pub turn_round : ℕ → Memory → ℕ → ℕ → Memory
turn_round zero tmp i j = tmp
turn_round (suc n) tmp i j =
    let rest = turn_round n (update (update tmp i (tmp j)) j (tmp i)) (i + 1) (j - 1) in
    if ltb i j then rest else tmp

abbrev pub turned : ℕ → Memory × ℕ → Memory × ℕ
turned start (tmp, len) = (turn_round len tmp start (len - 1), len)

-- The text of a number from tmp_buf + start on, where the value is 0 and where it is not.
unfoldable pub print_decimal : Memory → ℕ → ℕ → Memory × ℕ
print_decimal tmp start value =
    if value == 0
    then (update tmp start 48, start + 1)
    else turned start (decimal_digits 10 tmp start value)

unfoldable pub print_hex : Memory → ℕ → Memory × ℕ
print_hex tmp num = if num == 0 then (update tmp 0 48, 1) else turned 0 (hex_digits 8 tmp 0 num)

-- The case 'd', of a word that is read as a signed number.
unfoldable pub print_signed : Memory → ℕ → Memory × ℕ
print_signed tmp num =
    if ltb num (2 ^ 31)
    then print_decimal tmp 0 num
    else print_decimal (update tmp 0 45) 1 (u32_mod - num)

-- va_arg, and what is left
abbrev pub first_arg : List ℕ → ℕ
first_arg [] = 0
first_arg (x ∷ xs) = x

abbrev pub later_args : List ℕ → List ℕ
later_args [] = []
later_args (x ∷ xs) = xs

-- What a conversion leaves: tmp_buf, `out`, `len` and the arguments.
pub record Text : Type 0 where
  pub text_tmp : Memory
  pub out : Source
  pub len : ℕ
  pub rest_args : List ℕ

abbrev pub tmp_text : Memory × ℕ → List ℕ → Text
tmp_text (tmp, n) args = record { text_tmp = tmp; out = in_tmp 0; len = n; rest_args = args }

-- The case 's': a string or, for a null pointer, the literal "(null)" at `null_string`.
abbrev pub string_text : ℕ → ℕ → Printer → List ℕ → Text
string_text rounds null_string p args =
    let s = if first_arg args == 0 then null_string else first_arg args in
    record {
      text_tmp = p.tmp_buf;
      out = in_mem s;
      len = strlen rounds p.mem s;
      rest_args = later_args args;
    }

-- The switch over the character `c`: d, u, x, s, c, % and others.
unfoldable pub convert : ℕ → ℕ → Printer → ℕ → List ℕ → Text
convert rounds null_string p c args =
    let tmp = p.tmp_buf in
    if c == 100
    then tmp_text (print_signed tmp (first_arg args)) (later_args args)
    else if c == 117
    then tmp_text (print_decimal tmp 0 (first_arg args)) (later_args args)
    else if c == 120
    then tmp_text (print_hex tmp (first_arg args)) (later_args args)
    else if c == 115
    then string_text rounds null_string p args
    else if c == 99
    then tmp_text (update tmp 0 (first_arg args % 256), 1) (later_args args)
    else if c == 37
    then tmp_text (update tmp 0 37, 1) args
    else tmp_text (update (update tmp 0 37) 1 c, 2) args

-- The text, padded to the width.
unfoldable pub put_text : ℕ → ℕ → Bool → ℕ → Printer → Text → Printer
put_text buf size left_align width p t =
    let q = record p { tmp_buf = t.text_tmp } in
    let pad = width - t.len in
    if left_align
    then buf_pad buf size pad (buf_putn buf size t.len q t.out)
    else buf_putn buf size t.len (buf_pad buf size pad q) t.out

-- The digits of the width from `fmt` on: the width and where they end.
unfoldable pub read_width : ℕ → Memory → ℕ → ℕ → ℕ × ℕ
read_width zero mem fmt width = (width, fmt)
read_width (suc n) mem fmt width =
    let rest = read_width n mem (fmt + 1) ((width * 10 + (mem fmt - 48)) % u32_mod) in
    if leb 48 (mem fmt) && leb (mem fmt) 57 then rest else (width, fmt)

-- Past the character `c`, if it stands at `fmt`.
abbrev pub past : Memory → ℕ → ℕ → ℕ
past mem c fmt = if mem fmt == c then fmt + 1 else fmt

-- What follows a '%' at `fmt - 1`: the printer, where the format goes on, and the arguments.
unfoldable pub directive : ℕ → ℕ → ℕ → ℕ → Printer → ℕ → List ℕ → Printer × ℕ × List ℕ
directive rounds null_string buf size p fmt args =
    let (width, after) = read_width rounds p.mem (past p.mem 45 fmt) 0 in
    let last = past p.mem 108 after in
    let t = convert rounds null_string p (p.mem last) args in
    (put_text buf size (p.mem fmt == 45) width p t, last + 1, t.rest_args)

-- The loop over the format.
unfoldable pub format_loop : ℕ → ℕ → ℕ → ℕ → ℕ → Printer → ℕ → List ℕ → Printer
format_loop zero rounds null_string buf size p fmt args = p
format_loop (suc n) rounds null_string buf size p fmt args =
    let (q, fmt', args') = directive rounds null_string buf size p (fmt + 1) args in
    let plain =
      format_loop n rounds null_string buf size (buf_putc buf size p (p.mem fmt)) (fmt + 1) args in
    let converted = format_loop n rounds null_string buf size q fmt' args' in
    if p.mem fmt == 0 || not (ltb p.written (size - 1))
    then p
    else if not (p.mem fmt == 37)
    then plain
    else converted

-- nd_vsnprintf, with a format and strings of fewer than `rounds` characters: the memory and what it
-- returns.
unfoldable pub vsnprintf : ℕ → ℕ → Memory → Memory → ℕ → ℕ → ℕ → List ℕ → Memory × ℕ
vsnprintf rounds null_string mem tmp buf size fmt args =
    let p : Printer = record { mem = mem; written = 0; tmp_buf = tmp } in
    let q = format_loop rounds rounds null_string buf size p fmt args in
    if size == 0 then (mem, 0) else (update q.mem (buf + q.written) 0, q.written)
