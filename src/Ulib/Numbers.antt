-- ===== src/Ulib/Numbers.antt =====
-- atoi of user/ulib.c reads what printf prints with %d.
use oslab.Prelude.{
  ℕ, zero, suc, ◌+◌, ◌-◌, ◌*◌, ◌%◌, ◌^◌, ◌≤◌, ◌<◌, ◌≡◌, refl, sym, ap, ◌∙◌, inl, true, false, ◌&&◌,
  List, [], ◌∷◌, map, some, arith, leb, length,
}
use oslab.Prelude.Run.{Run, done, panic, out_of_fuel}
use mathlib.Core.Path.{subst}
use oslab.Str.{Memory}
use oslab.Ulib.{atoi_loop, atoi}
use oslab.Ulib.Strings.{Holds}
use oslab.Printf.{upper}
use oslab.Printf.User
use oslab.Printf.Numeral.{number, negative, are_digits, user-printint}

number_le : (acc : ℕ) (ds : List ℕ) → acc ≤ number 10 acc ds
number_le acc [] = omega arith
number_le acc (d ∷ ds) = omega (arith, number_le (10 * acc + d) ds)

atoi_loop_lem :
    (fuel : ℕ) (m : Memory) (s acc : ℕ) (ds : List ℕ)
    → Holds m s (map upper ds)
    → are_digits 10 ds ≡ true
    → number 10 acc ds < 2 ^ 32
    → length ds < fuel
    → atoi_loop fuel m s acc ≡ some (number 10 acc ds)
unfolding atoi_loop
atoi_loop_lem zero m s acc ds h all small lt = absurd (omega arith)
atoi_loop_lem (suc fuel) m s acc [] h all small lt = ground (arith, h)
atoi_loop_lem (suc fuel) m s acc (d ∷ ds) (e, ne, h) all small lt =
    let digit : d < 10 = ground (arith, all) in
    let char : m s ≡ 48 + d = e ∙ ground (arith, digit) in
    let is_digit : (leb 48 (m s) && leb (m s) 57) ≡ true = ground (arith, char, digit) in
    let value : (acc * 10 + m s - 48) % 2 ^ 32 ≡ 10 * acc + d =
      omega (arith, char, number_le (10 * acc + d) ds, small) in
    rw is_digit (
      ap (atoi_loop fuel m (s + 1)) value
      ∙ atoi_loop_lem fuel m (s + 1) (10 * acc + d) ds h (ground (arith, all)) small
          (omega (arith, lt)))

text_of : Run (List ℕ) → List ℕ
text_of (done out) = out
text_of (panic e) = []
text_of out_of_fuel = []

-- atoi of a string that printf printed with %d for a number that is not negative returns the number, with fuel
-- for 12 rounds.
pub atoi-printint :
    (xx fuel : ℕ) (m : Memory) (s : ℕ) (out : List ℕ)
    → xx < 2 ^ 31
    → 12 ≤ fuel
    → User.printint xx 10 true ≡ done out
    → Holds m s out
    → atoi fuel m s ≡ some xx
unfolding atoi text_of
atoi-printint xx fuel m s out small enough printed h =
    let (ds, v, e, few) = user-printint 10 xx true (inl refl) in
    let plain : negative true (xx % 2 ^ 32) ≡ false = ground (arith, small) in
    let shown : User.printint xx 10 true ≡ done (map upper ds) = rw plain at e in
    let same : out ≡ map upper ds = ap text_of (sym printed ∙ shown) in
    let value : number 10 0 ds ≡ xx = v.value ∙ rw plain (omega (arith, small)) in
    atoi_loop_lem fuel m s 0 ds (subst (Holds m s) same h) v.digits (omega (arith, value, small))
      (omega (arith, few, enough))
    ∙ ap some value
