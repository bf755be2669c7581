-- ===== src/Printf/Pieces.antt =====
-- A format of kernel/printf.c or user/printf.c is read piece by piece.
use oslab.Prelude.{
  ℕ, ◌≡◌, refl, ap, ◌∙◌, Bool, true, false, not, ◌&&◌, List, [], ◌∷◌, ◌++◌, Option, none, some,
  arith, ◌==◌,
}
use oslab.Prelude.Run.{Run, done, panic, out_of_fuel, ◌>>=◌}
use oslab.Printf.{percent, null_text, Arg, num, str}
use oslab.Printf.Kernel
use oslab.Printf.User

-- what a format is made of: plain text, and the directives %d, %x, %p, %s and %%
pub data Piece : Type 0 where
  text : List ℕ → Piece
  dec : ℕ → Piece
  hex : ℕ → Piece
  ptr : ℕ → Piece
  string : Option (List ℕ) → Piece
  percent_sign : Piece

abbrev pub format_of : Piece → List ℕ
format_of (text s) = s
format_of (dec x) = percent ∷ 100 ∷ []
format_of (hex x) = percent ∷ 120 ∷ []
format_of (ptr x) = percent ∷ 112 ∷ []
format_of (string s) = percent ∷ 115 ∷ []
format_of percent_sign = percent ∷ percent ∷ []

abbrev pub args_of : Piece → List Arg
args_of (dec x) = num x ∷ []
args_of (hex x) = num x ∷ []
args_of (ptr x) = num x ∷ []
args_of (string s) = str s ∷ []
args_of _ = []

abbrev pub no_percent : List ℕ → Bool
no_percent [] = true
no_percent (c ∷ s) = not (c == percent) && no_percent s

abbrev pub is_plain : Piece → Bool
is_plain (text s) = no_percent s
is_plain _ = true

abbrev pub text_of : Option (List ℕ) → List ℕ
text_of none = null_text
text_of (some s) = s

-- what a piece prints, in the kernel and in user programs
abbrev pub kernel_output : Piece → Run (List ℕ)
kernel_output (text s) = done s
kernel_output (dec x) = Kernel.printint x 10 true
kernel_output (hex x) = Kernel.printint x 16 true
kernel_output (ptr x) = done (Kernel.printptr x)
kernel_output (string s) = done (text_of s)
kernel_output percent_sign = done (percent ∷ [])

abbrev pub user_output : Piece → Run (List ℕ)
user_output (text s) = done s
user_output (dec x) = User.printint x 10 true
user_output (hex x) = User.printint x 16 false
user_output (ptr x) = done (User.printptr x)
user_output (string s) = done (text_of s)
user_output percent_sign = done (percent ∷ [])

abbrev pub formats : List Piece → List ℕ
formats [] = []
formats (p ∷ ps) = format_of p ++ formats ps

abbrev pub arguments : List Piece → List Arg
arguments [] = []
arguments (p ∷ ps) = args_of p ++ arguments ps

abbrev pub all_plain : List Piece → Bool
all_plain [] = true
all_plain (p ∷ ps) = is_plain p && all_plain ps

abbrev pub both : Run (List ℕ) → Run (List ℕ) → Run (List ℕ)
both r s = r >>= λ a. s >>= λ b. done (a ++ b)

abbrev pub outputs : (Piece → Run (List ℕ)) → List Piece → Run (List ℕ)
outputs output [] = done []
outputs output (p ∷ ps) = both (output p) (outputs output ps)

-- a number is printed and the arguments behind it are kept
keeps :
    (r : Run (List ℕ)) (left : List Arg) (rest : List Arg → Run (List ℕ))
    → ((r >>= λ out. done (out, left)) >>= λ (shown, args).
        rest args >>= λ out. done (shown ++ out))
      ≡ both r (rest left)
keeps (done out) left rest = refl
keeps (panic e) left rest = refl
keeps out_of_fuel left rest = refl

one_char :
    (c : ℕ) (s : List ℕ) (r : Run (List ℕ))
    → ((r >>= λ b. done (s ++ b)) >>= λ out. done (c ∷ out)) ≡ (r >>= λ b. done (c ∷ s ++ b))
one_char c s (done out) = refl
one_char c s (panic e) = refl
one_char c s out_of_fuel = refl

no_text : (r : Run (List ℕ)) → r ≡ (r >>= λ b. done b)
no_text (done out) = refl
no_text (panic e) = refl
no_text out_of_fuel = refl

-- a function that prints a character other than % as it is
module _ (print : List ℕ → List Arg → Run (List ℕ))
    (plain : (c : ℕ) (fmt : List ℕ) (args : List Arg)
      → (c == percent) ≡ false
      → print (c ∷ fmt) args ≡ (print fmt args >>= λ out. done (c ∷ out))) where
  plain_text :
      (s fmt : List ℕ) (args : List Arg)
      → no_percent s ≡ true
      → print (s ++ fmt) args ≡ both (done s) (print fmt args)
  plain_text [] fmt args h = no_text (print fmt args)
  plain_text (c ∷ s) fmt args h =
      plain c (s ++ fmt) args (ground arith)
      ∙ ap (λ r. r >>= λ out. done (c ∷ out)) (plain_text s fmt args (ground arith))
      ∙ one_char c s (print fmt args)

-- a function that reads each piece as it is meant
module _ (print : List ℕ → List Arg → Run (List ℕ)) (output : Piece → Run (List ℕ))
    (nothing : print [] [] ≡ done [])
    (one : (p : Piece) (fmt : List ℕ) (args : List Arg)
      → is_plain p ≡ true
      → print (format_of p ++ fmt) (args_of p ++ args) ≡ both (output p) (print fmt args)) where
  pieces :
      (ps : List Piece)
      → all_plain ps ≡ true
      → print (formats ps) (arguments ps) ≡ outputs output ps
  pieces [] h = nothing
  pieces (p ∷ ps) h =
      one p (formats ps) (arguments ps) (ground arith)
      ∙ ap (both (output p)) (pieces ps (ground arith))

kernel_plain :
    (c : ℕ) (fmt : List ℕ) (args : List Arg)
    → (c == percent) ≡ false
    → Kernel.printf (c ∷ fmt) args ≡ (Kernel.printf fmt args >>= λ out. done (c ∷ out))
unfolding Kernel.printf
kernel_plain c [] args h = rw h refl
kernel_plain c (d ∷ fmt) args h = rw h refl

kernel_piece :
    (p : Piece) (fmt : List ℕ) (args : List Arg)
    → is_plain p ≡ true
    → Kernel.printf (format_of p ++ fmt) (args_of p ++ args)
      ≡ both (kernel_output p) (Kernel.printf fmt args)
unfolding Kernel.printf Kernel.directive
kernel_piece (text s) fmt args h = plain_text Kernel.printf kernel_plain s fmt args h
kernel_piece (dec x) fmt args h = keeps (Kernel.printint x 10 true) args (Kernel.printf fmt)
kernel_piece (hex x) fmt args h = keeps (Kernel.printint x 16 true) args (Kernel.printf fmt)
kernel_piece (ptr x) fmt args h = refl
kernel_piece (string none) fmt args h = refl
kernel_piece (string (some s)) fmt args h = refl
kernel_piece percent_sign fmt args h = refl

-- printf of the kernel, called with a format made of plain text without % and of %d, %x, %p, %s and %%, and
-- with the arguments that these directives want, prints what the pieces stand for, in their order: the text,
-- the numbers as printint and printptr do, the strings, with (null) for a null pointer, and a % sign.
pub kernel-printf :
    (ps : List Piece)
    → all_plain ps ≡ true
    → Kernel.printf (formats ps) (arguments ps) ≡ outputs kernel_output ps
unfolding Kernel.printf
kernel-printf = pieces Kernel.printf kernel_output refl kernel_piece

user_plain :
    (c : ℕ) (fmt : List ℕ) (args : List Arg)
    → (c == percent) ≡ false
    → User.vprintf (c ∷ fmt) false args ≡ (User.vprintf fmt false args >>= λ out. done (c ∷ out))
unfolding User.vprintf
user_plain c fmt args h = rw h refl

user_piece :
    (p : Piece) (fmt : List ℕ) (args : List Arg)
    → is_plain p ≡ true
    → User.vprintf (format_of p ++ fmt) false (args_of p ++ args)
      ≡ both (user_output p) (User.vprintf fmt false args)
unfolding User.vprintf User.directive
user_piece (text s) fmt args h =
    plain_text (λ fmt args. User.vprintf fmt false args) user_plain s fmt args h
user_piece (dec x) fmt args h = keeps (User.printint x 10 true) args (User.vprintf fmt false)
user_piece (hex x) fmt args h = keeps (User.printint x 16 false) args (User.vprintf fmt false)
user_piece (ptr x) fmt args h = refl
user_piece (string none) fmt args h = refl
user_piece (string (some s)) fmt args h = refl
user_piece percent_sign fmt args h = refl

-- vprintf of user programs, called with such a format and such arguments, prints what the pieces stand for,
-- in their order, with %x unsigned.
pub user-vprintf :
    (ps : List Piece)
    → all_plain ps ≡ true
    → User.vprintf (formats ps) false (arguments ps) ≡ outputs user_output ps
unfolding User.vprintf
user-vprintf = pieces (λ fmt args. User.vprintf fmt false args) user_output refl user_piece
