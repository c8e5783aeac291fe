-- ===== src/Klibc/Compare.antt =====
-- What nd_strlen and nd_strcmp say of the strings that they are given.
-- A string of `n` bytes stands at `s`, with a zero after it.
use nerd_rtos.Common.{
  Bool-cases, List, Memory, [], ap, ap₂, arith, inl, inr, leb, length, pos, read, refl, suc, sym,
  zero, ℕ, ◌+◌, ◌<◌, ◌==◌, ◌↔◌, ◌∙◌, ◌∷◌, ◌≡◌, ◌≢◌, ◌≤◌,
}
use nerd_rtos.Klibc.{difference, strcmp, strlen}

unfoldable pub IsString : Memory → ℕ → ℕ → Type 0
IsString mem s zero = mem s ≡ 0
IsString mem s (suc n) = (mem s ≢ 0) × IsString mem (s + 1) n

-- For a string in memory that ends with a zero byte, nd_strlen gives its length, if it may run
-- for more rounds than that.
pub strlen-IsString :
    (fuel : ℕ) (mem : Memory) (s n : ℕ) → n < fuel → IsString mem s n → strlen fuel mem s ≡ n
unfolding strlen IsString
strlen-IsString zero mem s n lt i = absurd (omega arith)
strlen-IsString (suc fuel) mem s zero lt i = ground arith
strlen-IsString (suc fuel) mem s (suc n) lt (some_byte, i) =
    ground (arith, strlen-IsString fuel mem (s + 1) n (omega arith) i)

difference-zero : (x y : ℕ) → difference x y ≡ pos 0 → x ≡ y
difference-zero x y e = elim (Bool-cases (leb y x)) [ inl l ↦ ground arith | inr l ↦ ground arith ]

same-difference : (x y : ℕ) → x ≡ y → difference x y ≡ pos 0
same-difference x y e = ground arith

first_equal :
    (fuel : ℕ) (mem : Memory) (a b : ℕ) → strcmp (suc fuel) mem a b ≡ pos 0 → mem a ≡ mem b
unfolding strcmp
first_equal fuel mem a b e = elim (Bool-cases (mem a == mem b)) [
  | inl c ↦ ground arith
  | inr c ↦
      let d : difference (mem a) (mem b) ≡ pos 0 = ground arith in difference-zero (mem a) (mem b) d
]

rest_zero :
    (fuel : ℕ) (mem : Memory) (a b : ℕ)
    → mem a ≢ 0
    → strcmp (suc fuel) mem a b ≡ pos 0
    → strcmp fuel mem (a + 1) (b + 1) ≡ pos 0
unfolding strcmp
rest_zero fuel mem a b some_byte e = let same = first_equal fuel mem a b e in ground arith

equal-of_zero :
    (fuel : ℕ) (mem : Memory) (a b n m : ℕ)
    → n ≤ fuel
    → IsString mem a n
    → IsString mem b m
    → strcmp fuel mem a b ≡ pos 0
    → read mem a n ≡ read mem b m
unfolding strcmp IsString
equal-of_zero fuel mem a b zero zero le i j e = refl
equal-of_zero zero mem a b zero (suc m) le i (some_byte, j) e =
    absurd (some_byte (sym (difference-zero (mem a) (mem b) e) ∙ i))
equal-of_zero (suc fuel) mem a b zero (suc m) le i (some_byte, j) e =
    let d : difference (mem a) (mem b) ≡ pos 0 = ground arith in
    absurd (some_byte (sym (difference-zero (mem a) (mem b) d) ∙ i))
equal-of_zero zero mem a b (suc n) m le i j e = absurd (omega arith)
equal-of_zero (suc fuel) mem a b (suc n) zero le (some_byte, i) j e =
    absurd (some_byte (first_equal fuel mem a b e ∙ j))
equal-of_zero (suc fuel) mem a b (suc n) (suc m) le (some_byte, i) (other_byte, j) e =
    ap₂ ◌∷◌ (first_equal fuel mem a b e) (
      equal-of_zero fuel mem (a + 1) (b + 1) n m (omega arith) i j
        (rest_zero fuel mem a b some_byte e))

abbrev first_byte : List ℕ → ℕ
first_byte [] = 0
first_byte (x ∷ xs) = x

abbrev later_bytes : List ℕ → List ℕ
later_bytes [] = []
later_bytes (x ∷ xs) = xs

zero-of_equal :
    (fuel : ℕ) (mem : Memory) (a b n m : ℕ)
    → n ≤ fuel
    → IsString mem a n
    → IsString mem b m
    → read mem a n ≡ read mem b m
    → strcmp fuel mem a b ≡ pos 0
unfolding strcmp IsString
zero-of_equal zero mem a b zero zero le i j e = same-difference (mem a) (mem b) (i ∙ sym j)
zero-of_equal (suc fuel) mem a b zero zero le i j e =
    let d = same-difference (mem a) (mem b) (i ∙ sym j) in ground arith
zero-of_equal fuel mem a b zero (suc m) le i j e = absurd (omega (arith, ap length e))
zero-of_equal fuel mem a b (suc n) zero le i j e = absurd (omega (arith, ap length e))
zero-of_equal zero mem a b (suc n) (suc m) le i j e = absurd (omega arith)
zero-of_equal (suc fuel) mem a b (suc n) (suc m) le (some_byte, i) (other_byte, j) e =
    let same : mem a ≡ mem b = ap first_byte e in
    let more = zero-of_equal fuel mem (a + 1) (b + 1) n m (omega arith) i j (ap later_bytes e) in
    ground arith

-- For two strings in memory that end with a zero byte, nd_strcmp gives 0 exactly if the strings
-- are equal; as many rounds as the first string is long are enough.
pub strcmp-equal :
    (fuel : ℕ) (mem : Memory) (a b n m : ℕ)
    → n ≤ fuel
    → IsString mem a n
    → IsString mem b m
    → (strcmp fuel mem a b ≡ pos 0) ↔ (read mem a n ≡ read mem b m)
strcmp-equal fuel mem a b n m le i j =
    (equal-of_zero fuel mem a b n m le i j, zero-of_equal fuel mem a b n m le i j)
