-- ===== src/Printf/Kernel.antt =====
-- kernel/printf.c. The lock pr.lock is left out.
use oslab.Prelude.{ℕ, ◌-◌, ◌^◌, Bool, true, ◌&&◌, List, [], ◌∷◌, ◌++◌, ◌==◌, leb, if◌then◌else◌}
use oslab.Prelude.Run.{Run, done, ◌>>=◌}
use oslab.Printf.{
  percent, minus, buf_size, lower, itoa_loop, printptr_loop, Arg, next_num, next_str,
}

unfoldable pub printint : ℕ → ℕ → Bool → Run (List ℕ)
unfolding itoa_loop
printint xx base sign =
    let negative = sign && leb (2 ^ 31) xx in
    let x = if negative then 2 ^ 32 - xx else xx in
    itoa_loop buf_size lower x base [] >>= λ buf. done (if negative then minus ∷ buf else buf)

unfoldable pub printptr : ℕ → List ℕ
unfolding printptr_loop
printptr x = 48 ∷ 120 ∷ printptr_loop 16 lower x

-- the `switch`, with what it prints and the arguments that are left
unfoldable pub directive : ℕ → List Arg → Run (List ℕ × List Arg)
unfolding next_num next_str printint printptr
directive c args =
    if c == 100
    then (next_num args >>= λ (x, left). printint x 10 true >>= λ out. done (out, left))
    else if c == 120
    then (next_num args >>= λ (x, left). printint x 16 true >>= λ out. done (out, left))
    else if c == 112
    then (next_num args >>= λ (x, left). done (printptr x, left))
    else if c == 115
    then next_str args
    else if c == percent
    then done (percent ∷ [], args)
    else done (percent ∷ c ∷ [], args)

-- A zero byte behind a % ends the format, as the end of the string does.
unfoldable pub printf : List ℕ → List Arg → Run (List ℕ)
printf [] args = done []
printf (c ∷ []) args = if c == percent then done [] else done (c ∷ [])
printf (c ∷ d ∷ fmt) args =
    let plain = printf (d ∷ fmt) args >>= λ out. done (c ∷ out) in
    let special =
      directive d args >>= λ (text, left). printf fmt left >>= λ out. done (text ++ out) in
    if c == percent then special else plain
