-- ===== src/Examples/Printing.antt =====
-- The formatter on a small buffer.
use nerd_rtos.Common.{
  Memory, [], arith, negsuc, read, refl, update, ℕ, ◌+◌, ◌-◌, ◌<◌, ◌^◌, ◌∷◌, ◌≡◌, ◌≤◌,
}
use nerd_rtos.Klibc.{strlen}
use nerd_rtos.Klibc.Bounds.{Outside}
use nerd_rtos.Klibc.Print.{
  buf_pad, buf_putc, buf_putn, convert, decimal_digits, directive, format_loop, print_decimal,
  print_signed, put_text, read_width, turn_round, vsnprintf,
}
use nerd_rtos.Klibc.Print.Signed.{int_of_text, print_signed-int_of_text}
use nerd_rtos.Klibc.Print.Written.{vsnprintf-bounds}

-- "a%d" at 200.
abbrev format_memory : Memory
format_memory = update (update (update (λ a. 0) 200 97) 201 37) 202 100

vsnprintf-bounds_example :
    let (mem', n) = vsnprintf 8 300 format_memory (λ a. 0) 100 4 200 (1234 ∷ []) in
    (n < 4) × (mem' (100 + n) ≡ 0) × ((a : ℕ) → Outside a 100 4 → mem' a ≡ format_memory a)
vsnprintf-bounds_example =
    vsnprintf-bounds 8 300 format_memory (λ a. 0) 100 4 200 (1234 ∷ []) (omega arith)

-- What is cut off: "a123" would not fit with its zero.
cut_off :
    read (vsnprintf 8 300 format_memory (λ a. 0) 100 4 200 (1234 ∷ [])).0 100 4
    ≡ 97 ∷ 49 ∷ 50 ∷ 0 ∷ []
unfolding vsnprintf format_loop directive convert put_text buf_pad buf_putn buf_putc print_signed
    print_decimal decimal_digits turn_round read_width strlen
cut_off = refl

print_signed-int_of_text_example :
    let (tmp', len) = print_signed (λ a. 0) (2 ^ 32 - 5) in
    (int_of_text tmp' len ≡ negsuc 4) × (0 < len) × (len ≤ 11)
print_signed-int_of_text_example = print_signed-int_of_text (λ a. 0) (2 ^ 32 - 5) (omega arith)
