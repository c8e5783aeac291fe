-- ===== src/Shell/Invariant/Parsing.antt =====
-- What shell_parse leaves alone.
use nerd_rtos.Common.{
  Memory, Option, arith, none, refl, some, suc, zero, ℕ, ◌+◌, ◌<◌, ◌∙◌, ◌≡◌, ◌≤◌, ◌⊎◌,
}
use nerd_rtos.Klibc.Bounds.{Outside}
use nerd_rtos.Klibc.Token.{strtok_r}
use nerd_rtos.Klibc.Token.Keeps.{strtok_r-IsCut}
use nerd_rtos.Shell.Command.{parse, parse_loop}
use nerd_rtos.Shell.State.{Statics, buffer_size}

parse_loop-same :
    (n : ℕ) (mem : Memory) (space : ℕ) (token : Option ℕ) (save z a : ℕ)
    → save ≤ z
    → mem z ≡ 0
    → (a < save) ⊎ (z ≤ a)
    → (parse_loop n mem space token save).1 a ≡ mem a
unfolding parse_loop
parse_loop-same zero mem space token save z a le e out = refl
parse_loop-same (suc n) mem space none save z a le e out = refl
parse_loop-same (suc n) mem space (some t) save z a le e out =
    let cut = strtok_r-IsCut 2 buffer_size mem none space save z le e in
    let (token', save', mem') = strtok_r 2 buffer_size mem none space save in
    let out' : (a < save') ⊎ (z ≤ a) = ground (arith, out, cut.cut_from) in
    parse_loop-same n mem' space token' save' z a cut.cut_save cut.cut_zero out'
    ∙ cut.cut_same a out

-- Only bytes of the buffer change, if a zero stands in it.
pub parse-same :
    (l : Statics) (mem : Memory) (n max_argc a : ℕ)
    → n < 128
    → mem (l.shell_buf + n) ≡ 0
    → Outside a l.shell_buf 128
    → (parse l mem l.shell_buf max_argc).1 a ≡ mem a
unfolding parse
parse-same l mem n max_argc a lt e out =
    let z = l.shell_buf + n in
    let cut =
      strtok_r-IsCut 2 buffer_size mem (some l.shell_buf) l.space_string 0 z (omega arith) e in
    let (token, save, mem') = strtok_r 2 buffer_size mem (some l.shell_buf) l.space_string 0 in
    let near : (a < l.shell_buf) ⊎ (z ≤ a) = ground (arith, out, lt) in
    let later : (a < save) ⊎ (z ≤ a) = ground (arith, near, cut.cut_from) in
    parse_loop-same max_argc mem' l.space_string token save z a cut.cut_save cut.cut_zero later
    ∙ cut.cut_same a near
