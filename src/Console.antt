-- ===== src/Console.antt =====
-- kernel/console.c: line editing of the console's input and the reads of it. cons.lock is held from one
-- sleep to the next. `sent` lists what uartputc_sync was given; the process listing of procdump, the
-- UART itself and the table of devices are not modelled.
pub mod View
pub mod Erasing
pub mod Storing
pub mod Editing
mod Tests
use oslab.Prelude.{
  ℕ, zero, suc, ◌+◌, ◌-◌, ◌%◌, ◌^◌, Bool, true, false, not, ◌&&◌, ◌||◌, List, [], ◌∷◌, ◌++◌, ◌==◌,
  ltb, if◌then◌else◌, put,
}
use oslab.Prelude.Run.{Run, done, out_of_fuel, ◌>>=◌}

abbrev pub input_buf_size : ℕ
input_buf_size = 128

abbrev pub uint_mod : ℕ
uint_mod = 2 ^ 32

-- the read, write and edit indices count without end, modulo 2^32
pub record Console : Type 0 where
  pub buf : ℕ → ℕ
  pub r : ℕ
  pub w : ℕ
  pub e : ℕ
  pub sent : List ℕ

abbrev pub backspace : ℕ
backspace = 256

unfoldable pub consputc : ℕ → Console → Console
consputc c s =
    if c == backspace
    then record s { sent = s.sent ++ (8 ∷ 32 ∷ 8 ∷ []) }
    else record s { sent = s.sent ++ (c ∷ []) }

-- `cons.e--; consputc(BACKSPACE);`
unfoldable pub erase : Console → Console
unfolding consputc
erase s = consputc backspace (record s { e = (s.e + uint_mod - 1) % uint_mod })

-- the loop for control-U
pub kill_line : ℕ → Console → Run Console
unfolding erase
kill_line zero s = out_of_fuel
kill_line (suc fuel) s =
    if not (s.e == s.w) && not (s.buf ((s.e + uint_mod - 1) % uint_mod % input_buf_size) == 10)
    then kill_line fuel (erase s)
    else done s

-- `consputc(c); cons.buf[cons.e++ % INPUT_BUF_SIZE] = c;`
unfoldable pub put_char : ℕ → Console → Console
unfolding consputc
put_char c s =
    let s1 = consputc c s in
    record s1 { buf = put s1.buf (s1.e % input_buf_size) (c % 256); e = (s1.e + 1) % uint_mod }

-- the test for a whole line, an end of file or a full buffer, with what it does: the console, and
-- whether consoleread was woken
unfoldable pub end_line : ℕ → Console → Bool × Console
end_line c s =
    if c == 10 || (c == 4 || (s.e + uint_mod - s.r) % uint_mod == input_buf_size)
    then (true, record s { w = s.e })
    else (false, s)

-- the default case
unfoldable pub store_char : ℕ → Console → Bool × Console
unfolding put_char end_line
store_char c s =
    let c' = if c == 13 then 10 else c in
    if not (c == 0) && ltb ((s.e + uint_mod - s.r) % uint_mod) input_buf_size
    then end_line c' (put_char c' s)
    else (false, s)

-- The console after a character, and whether consoleread was woken. 16 is control-P, 21 control-U, 8
-- control-H and 127 delete. The loop has fuel for a full buffer.
unfoldable pub consoleintr : ℕ → Console → Run (Bool × Console)
unfolding kill_line erase store_char
consoleintr c s =
    if c == 16
    then done (false, s)
    else if c == 21
    then (kill_line (input_buf_size + 1) s >>= λ s'. done (false, s'))
    else if c == 8 || c == 127
    then done (false, if not (s.e == s.w) then erase s else s)
    else done (store_char c s)

-- A pass of consoleread up to its next sleep: it returns a count, finds no input, having `n` bytes to
-- go and `dst` its next address, or returns -1 because the process was killed.
pub data Reading : Type 0 where
  returns : ℕ → Reading
  no_input : ℕ → ℕ → Reading
  minus_one : Reading

-- `writable` says of each address whether either_copyout succeeds. Besides the outcome it gives the
-- bytes that were copied out and the console.
pub consoleread : ℕ → ℕ → ℕ → (ℕ → Bool) → Bool → Console → Reading × List ℕ × Console
consoleread target zero dst writable was_killed s = (returns target, [], s)
consoleread target (suc n) dst writable was_killed s =
    let c = s.buf (s.r % input_buf_size) in
    let s1 = record s { r = (s.r + 1) % uint_mod } in
    let (outcome, bytes, s2) = consoleread target n (dst + 1) writable was_killed s1 in
    if s.r == s.w
    then (if was_killed then minus_one else no_input (suc n) dst, [], s)
    else if c == 4
    then (returns (target - suc n), [], if ltb (suc n) target then s else s1)
    else if not (writable dst)
    then (returns (target - suc n), [], s1)
    else if c == 10
    then (returns (target - n), c ∷ [], s1)
    else (outcome, c ∷ bytes, s2)
