-- ===== src/Klibc/Print/Written.antt =====
-- How much nd_vsnprintf writes, and where.
use nerd_rtos.Common.{
  Bool, Bool-cases, List, Memory, arith, count, false, inl, inr, ltb, not, refl, suc, update, zero,
  ℕ, ◌+◌, ◌-◌, ◌<◌, ◌==◌, ◌||◌, ◌∙◌, ◌≡◌,
}
use nerd_rtos.Klibc.Bounds.{Outside}
use nerd_rtos.Klibc.Print.{
  Printer, Source, Text, buf_pad, buf_putc, buf_putn, convert, directive, fetch, format_loop,
  next_char, past, put_text, read_width, vsnprintf,
}

-- Bytes before `buf` or from `buf + size` on are as they were, and there is room for the zero.
record IsWithin (buf size : ℕ) (p q : Printer) : Type 0 where
  within : q.written < size
  outside : (a : ℕ) → Outside a buf size → q.mem a ≡ p.mem a

IsWithin-trans :
    {buf size : ℕ} {p q r : Printer}
    → IsWithin buf size p q
    → IsWithin buf size q r
    → IsWithin buf size p r
IsWithin-trans f g = record {
  within = g.within;
  outside = λ a out. g.outside a out ∙ f.outside a out;
}

IsWithin-refl : {buf size : ℕ} {p : Printer} → p.written < size → IsWithin buf size p p
IsWithin-refl lt = record { within = lt; outside = λ a out. refl }

update-Outside :
    (mem : Memory) (buf size n v a : ℕ)
    → n < size
    → Outside a buf size
    → update mem (buf + n) v a ≡ mem a
update-Outside mem buf size n v a lt out = ground (arith, out)

module _ (buf size : ℕ) where
  buf_putc-IsWithin :
      (p : Printer) (c : ℕ) → p.written < size → IsWithin buf size p (buf_putc buf size p c)
  unfolding buf_putc
  buf_putc-IsWithin p c lt = elim (Bool-cases (ltb p.written (size - 1))) [
    | inl e ↦ rw e (
        let room : p.written + 1 < size = ground arith in
        record {
          within = omega (arith, room);
          outside = λ a out. update-Outside p.mem buf size p.written c a (omega (arith, room)) out;
        })
    | inr e ↦ rw e (IsWithin-refl lt)
  ]

  buf_putn-IsWithin :
      (len : ℕ) (p : Printer) (str : Source)
      → p.written < size
      → IsWithin buf size p (buf_putn buf size len p str)
  unfolding buf_putn
  buf_putn-IsWithin zero p str lt = IsWithin-refl lt
  buf_putn-IsWithin (suc len) p str lt =
      let f = buf_putc-IsWithin p (fetch p str) lt in
      IsWithin-trans f
        (buf_putn-IsWithin len (buf_putc buf size p (fetch p str)) (next_char str) f.within)

  buf_pad-IsWithin :
      (count : ℕ) (p : Printer) → p.written < size → IsWithin buf size p (buf_pad buf size count p)
  unfolding buf_pad
  buf_pad-IsWithin zero p lt = IsWithin-refl lt
  buf_pad-IsWithin (suc count) p lt =
      let f = buf_putc-IsWithin p 32 lt in
      IsWithin-trans f (buf_pad-IsWithin count (buf_putc buf size p 32) f.within)

  put_text-IsWithin :
      (left_align : Bool) (width : ℕ) (p : Printer) (t : Text)
      → p.written < size
      → IsWithin buf size p (put_text buf size left_align width p t)
  unfolding put_text
  put_text-IsWithin left_align width p t lt =
      let q = record p { tmp_buf = t.text_tmp } in
      let pad = width - t.len in
      let start : IsWithin buf size p q = record { within = lt; outside = λ a out. refl } in
      let f = buf_putn-IsWithin t.len q t.out lt in
      let g = buf_pad-IsWithin pad q lt in
      let left = IsWithin-trans start (IsWithin-trans f (buf_pad-IsWithin pad _ f.within)) in
      let right =
        IsWithin-trans start (IsWithin-trans g (buf_putn-IsWithin t.len _ t.out g.within)) in
      ground (arith, left, right)

  format_loop-IsWithin :
      (n rounds null_string : ℕ) (p : Printer) (fmt : ℕ) (args : List ℕ)
      → p.written < size
      → IsWithin buf size p (format_loop n rounds null_string buf size p fmt args)
  unfolding format_loop directive
  format_loop-IsWithin zero rounds null_string p fmt args lt = IsWithin-refl lt
  format_loop-IsWithin (suc n) rounds null_string p fmt args lt =
      let (width, after) = read_width rounds p.mem (past p.mem 45 (fmt + 1)) 0 in
      let last = past p.mem 108 after in
      let t = convert rounds null_string p (p.mem last) args in
      let f = buf_putc-IsWithin p (p.mem fmt) lt in
      let g = put_text-IsWithin (p.mem (fmt + 1) == 45) width p t lt in
      let plain =
        IsWithin-trans f (format_loop-IsWithin n rounds null_string _ (fmt + 1) args f.within) in
      let converted =
        IsWithin-trans g
          (format_loop-IsWithin n rounds null_string _ (last + 1) t.rest_args g.within) in
      elim (Bool-cases (p.mem fmt == 0 || not (ltb p.written (size - 1)))) [
        | inl e ↦ rw e (IsWithin-refl lt)
        | inr e ↦ rw e (elim (Bool-cases (p.mem fmt == 37)) [
          | inl e' ↦ rw e' converted
          | inr e' ↦ rw e' plain
        ])
      ]

-- For every format, arguments and size above 0, nd_vsnprintf returns less than the size, ends
-- what it wrote with a zero, and changes no byte outside the `size` bytes from `buf` on.
pub vsnprintf-bounds :
    (rounds null_string : ℕ) (mem tmp : Memory) (buf size fmt : ℕ) (args : List ℕ)
    → 0 < size
    → let (mem', n) = vsnprintf rounds null_string mem tmp buf size fmt args in
      (n < size) × (mem' (buf + n) ≡ 0) × ((a : ℕ) → Outside a buf size → mem' a ≡ mem a)
unfolding vsnprintf
vsnprintf-bounds rounds null_string mem tmp buf size fmt args lt =
    let p : Printer = record { mem = mem; written = 0; tmp_buf = tmp } in
    let f = format_loop-IsWithin buf size rounds rounds null_string p fmt args lt in
    let q = format_loop rounds rounds null_string buf size p fmt args in
    let some_size : (size == 0) ≡ false = ground arith in
    rw some_size (
      f.within,
      ground arith,
      λ a out. update-Outside q.mem buf size q.written 0 a f.within out ∙ f.outside a out,
    )
