-- ===== src/Printf/Tests.antt =====
-- Tests of kernel/printf.c and user/printf.c.
use oslab.Prelude.{◌%◌, ◌^◌, ◌≡◌, refl, inl, inr, true, false, List, [], ◌∷◌, none, some, arith}
use oslab.Prelude.Run.{done}
use oslab.Printf.{lower, upper, num}
use oslab.Printf.Kernel
use oslab.Printf.User
use oslab.Printf.Numeral.{IsPrinted, kernel-printint, user-printint}
use oslab.Printf.Pieces.{
  Piece, text, dec, hex, ptr, string, percent_sign, formats, arguments, outputs, user_output,
  user-vprintf,
}

minus_12 : Kernel.printint 4294967284 10 true ≡ done (45 ∷ 49 ∷ 50 ∷ [])
unfolding Kernel.printint
minus_12 = refl

kernel-printint_example : IsPrinted lower 10 true 4294967284 (Kernel.printint 4294967284 10 true)
kernel-printint_example = kernel-printint 10 4294967284 true (inl refl) (omega arith)

user-printint_example :
    IsPrinted upper 16 false (4294967551 % 2 ^ 32) (User.printint 4294967551 16 false)
user-printint_example = user-printint 16 4294967551 false (inr refl)

abbrev some_pieces : List Piece
some_pieces =
    text (97 ∷ 61 ∷ [])
    ∷ dec 12
    ∷ string none
    ∷ percent_sign
    ∷ hex 255
    ∷ string (some (98 ∷ []))
    ∷ ptr 7
    ∷ []

-- "a=%d"
a_is_12 : User.vprintf (97 ∷ 61 ∷ 37 ∷ 100 ∷ []) false (num 12 ∷ []) ≡ done (97 ∷ 61 ∷ 49 ∷ 50 ∷ [])
unfolding User.vprintf User.directive
a_is_12 = refl

-- a % at the end of the format
ends_in_percent : Kernel.printf (97 ∷ 37 ∷ []) [] ≡ done (97 ∷ [])
unfolding Kernel.printf
ends_in_percent = refl

user-vprintf_example :
    User.vprintf (formats some_pieces) false (arguments some_pieces)
    ≡ outputs user_output some_pieces
user-vprintf_example = user-vprintf some_pieces refl
