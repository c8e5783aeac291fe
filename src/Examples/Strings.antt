-- ===== src/Examples/Strings.antt =====
-- The theorems on strings at two strings in one memory.
-- "ab" at 0 and again at 10; all else is zero.
use nerd_rtos.Common.{Memory, arith, if◌then◌else◌, pos, read, refl, ◌==◌, ◌||◌, ◌↔◌, ◌≡◌}
use nerd_rtos.Klibc.{strcmp}
use nerd_rtos.Klibc.Compare.{IsString, strcmp-equal}

abbrev two_strings : Memory
two_strings a = if a == 0 || a == 10 then 97 else if a == 1 || a == 11 then 98 else 0

first-IsString : IsString two_strings 0 2
unfolding IsString
first-IsString = ((λ e. absurd (omega arith)), ((λ e. absurd (omega arith)), refl))

second-IsString : IsString two_strings 10 2
unfolding IsString
second-IsString = ((λ e. absurd (omega arith)), ((λ e. absurd (omega arith)), refl))

strcmp-equal_example :
    (strcmp 2 two_strings 0 10 ≡ pos 0) ↔ (read two_strings 0 2 ≡ read two_strings 10 2)
strcmp-equal_example =
    strcmp-equal 2 two_strings 0 10 2 2 (omega arith) first-IsString second-IsString
