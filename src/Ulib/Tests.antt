-- ===== src/Ulib/Tests.antt =====
-- Tests of user/ulib.c.
use oslab.Prelude.{ℕ, ◌≡◌, refl, true, List, [], ◌∷◌, some, arith, get_or}
use oslab.Prelude.Run.{done}
use oslab.Prelude.Int.{pos}
use oslab.Str.{Memory}
use oslab.Ulib.{strlen, strchr, gets, atoi, memcmp, memcpy}
use oslab.Ulib.Lines.{line_of, behind, IsRead, gets_lem}
use oslab.Ulib.Numbers.{atoi-printint}
use oslab.Printf.User

-- "12", "13" and "12", at 0, 3 and 6
abbrev memory : Memory
memory a = get_or (49 ∷ 50 ∷ 0 ∷ 49 ∷ 51 ∷ 0 ∷ 49 ∷ 50 ∷ 0 ∷ []) a 7

abbrev word_12 : List ℕ
word_12 = 49 ∷ 50 ∷ []

abbrev word_13 : List ℕ
word_13 = 49 ∷ 51 ∷ []

length_12 : strlen 5 memory 0 ≡ some 2
unfolding strlen
length_12 = refl

found_50 : strchr 5 memory 0 50 ≡ some 1
unfolding strchr
found_50 = refl

same_bytes : memcmp memory 0 6 3 ≡ pos 0
unfolding memcmp
same_bytes = refl

copied : memcpy memory 1 0 3 2 ≡ 50
unfolding memcpy
copied = refl

-- "ab\nc"
abbrev typed : List ℕ
typed = 97 ∷ 98 ∷ 10 ∷ 99 ∷ []

gets_lem_example :
    (more : Memory) × (gets memory 40 10 typed ≡ (more, behind 9 typed))
    × IsRead memory more 40 10 (line_of 9 typed)
unfolding line_of
gets_lem_example = gets_lem memory 40 10 typed (omega arith) refl

twelve : User.printint 12 10 true ≡ done (49 ∷ 50 ∷ [])
unfolding User.printint
twelve = refl

atoi-printint_example : atoi 12 memory 0 ≡ some 12
atoi-printint_example =
    atoi-printint 12 12 memory 0 (49 ∷ 50 ∷ []) (omega arith) (omega arith) twelve
      (refl, (λ e. omega (arith, e)), (refl, (λ e. omega (arith, e)), refl))
