-- ===== src/Printf.antt =====
-- kernel/printf.c and user/printf.c: what the two versions of printf share. Output is a list of
-- characters. An `int` is the 32 bits that hold it, and a `char*` is the string that it points to, or
-- `none` if it is null. Kernel has kernel/printf.c, and User has user/printf.c.
pub mod Kernel
pub mod User
pub mod Numeral
pub mod Pieces
mod Tests
use oslab.Prelude.{
  ℕ, zero, suc, ◌+◌, ◌-◌, ◌*◌, ◌/◌, ◌%◌, ◌^◌, Bool, true, false, ◌&&◌, List, [], ◌∷◌, ◌++◌, Option,
  none, some, ◌==◌, ltb, leb, if◌then◌else◌,
}
use oslab.Prelude.Run.{Run, done, panic, out_of_fuel, ◌>>=◌}

abbrev pub percent : ℕ
percent = 37

abbrev pub minus : ℕ
minus = 45

-- the size of the array of printint
abbrev pub buf_size : ℕ
buf_size = 16

-- `digits`, in the kernel and in user programs
abbrev pub lower : ℕ → ℕ
lower d = if ltb d 10 then 48 + d else 87 + d

abbrev pub upper : ℕ → ℕ
upper d = if ltb d 10 then 48 + d else 55 + d

-- The loop of printint that fills `buf`, whose characters are listed from the last to the first, as they
-- are printed. The rounds are the places of `buf`: with none left it would be overrun.
pub itoa_loop : ℕ → (ℕ → ℕ) → ℕ → ℕ → List ℕ → Run (List ℕ)
itoa_loop zero digits x base buf = out_of_fuel
itoa_loop (suc rounds) digits x base buf =
    let rest = itoa_loop rounds digits (x / base) base (digits (x % base) ∷ buf) in
    if x / base == 0 then done (digits (x % base) ∷ buf) else rest

-- the loop of printptr
pub printptr_loop : ℕ → (ℕ → ℕ) → ℕ → List ℕ
printptr_loop zero digits x = []
printptr_loop (suc rounds) digits x =
    digits (x / 2 ^ 60) ∷ printptr_loop rounds digits (x * 16 % 2 ^ 64)

-- "(null)"
abbrev pub null_text : List ℕ
null_text = 40 ∷ 110 ∷ 117 ∷ 108 ∷ 108 ∷ 41 ∷ []

-- the arguments behind the format: a number in its bits, or a string
pub data Arg : Type 0 where
  num : ℕ → Arg
  str : Option (List ℕ) → Arg

-- va_arg of a number, and of a string, and the arguments that are left. The program is undefined if the
-- argument is missing or has another type.
pub next_num : List Arg → Run (ℕ × List Arg)
next_num (num x ∷ args) = done (x, args)
next_num _ = panic "va_arg"

pub next_str : List Arg → Run (List ℕ × List Arg)
next_str (str none ∷ args) = done (null_text, args)
next_str (str (some s) ∷ args) = done (s, args)
next_str _ = panic "va_arg"
