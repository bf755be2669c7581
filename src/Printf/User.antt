-- ===== src/Printf/User.antt =====
-- user/printf.c. `putc` appends a character to the output.
use oslab.Prelude.{
  ℕ, ◌-◌, ◌%◌, ◌^◌, Bool, true, false, ◌&&◌, List, [], ◌∷◌, ◌++◌, ◌==◌, leb, if◌then◌else◌,
}
use oslab.Prelude.Run.{Run, done, ◌>>=◌}
use oslab.Printf.{
  percent, minus, buf_size, upper, itoa_loop, printptr_loop, Arg, next_num, next_str,
}

-- The first argument is an `int`, to which a longer number is cut.
unfoldable pub printint : ℕ → ℕ → Bool → Run (List ℕ)
unfolding itoa_loop
printint xx base sgn =
    let bits = xx % 2 ^ 32 in
    let neg = sgn && leb (2 ^ 31) bits in
    let x = if neg then 2 ^ 32 - bits else bits in
    itoa_loop buf_size upper x base [] >>= λ buf. done (if neg then minus ∷ buf else buf)

unfoldable pub printptr : ℕ → List ℕ
unfolding printptr_loop
printptr x = 48 ∷ 120 ∷ printptr_loop 16 upper x

-- the case of `state == '%'`, with what it prints and the arguments that are left
unfoldable pub directive : ℕ → List Arg → Run (List ℕ × List Arg)
unfolding next_num next_str printint printptr
directive c args =
    if c == 100
    then (next_num args >>= λ (x, left). printint x 10 true >>= λ out. done (out, left))
    else if c == 108
    then (next_num args >>= λ (x, left). printint x 10 false >>= λ out. done (out, left))
    else if c == 120
    then (next_num args >>= λ (x, left). printint x 16 false >>= λ out. done (out, left))
    else if c == 112
    then (next_num args >>= λ (x, left). done (printptr x, left))
    else if c == 115
    then next_str args
    else if c == 99
    then (next_num args >>= λ (x, left). done (x % 256 ∷ [], left))
    else if c == percent
    then done (percent ∷ [], args)
    else done (percent ∷ c ∷ [], args)

-- `after` says that the state is '%'.
unfoldable pub vprintf : List ℕ → Bool → List Arg → Run (List ℕ)
vprintf [] after args = done []
vprintf (c ∷ fmt) after args =
    let enter = vprintf fmt true args in
    let plain = vprintf fmt false args >>= λ out. done (c ∷ out) in
    let special =
      directive c args >>= λ (text, left). vprintf fmt false left >>= λ out. done (text ++ out) in
    if after then special else if c == percent then enter else plain
