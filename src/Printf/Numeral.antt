-- ===== src/Printf/Numeral.antt =====
-- printint of kernel/printf.c and user/printf.c prints the numeral of the number, and its array is large
-- enough.
use native.Mathlib.Omega.{pow_step}
use mathlib.Core.List.{append-nil}
use oslab.Prelude.{
  ℕ, zero, suc, ◌+◌, ◌-◌, ◌*◌, ◌/◌, ◌%◌, ◌^◌, ◌≤◌, ◌<◌, ◌≡◌, ◌≢◌, ◌⊎◌, inl, inr, refl, sym, ap, ◌∙◌,
  Bool, true, false, List, [], ◌∷◌, ◌++◌, map, arith, ◌==◌, leb, ltb, ◌&&◌, if◌then◌else◌,
  ℕ_discrete, length, length-append,
}
use oslab.Prelude.Run.{Run, done}
use oslab.Printf.Kernel
use oslab.Printf.User
use oslab.Printf.{itoa_loop, minus, buf_size, lower, upper}

-- the number that digits stand for, behind others that stand for `acc`
abbrev pub number : ℕ → ℕ → List ℕ → ℕ
number base acc [] = acc
number base acc (d ∷ ds) = number base (base * acc + d) ds

number-append :
    (base acc : ℕ) (ds : List ℕ) (d : ℕ)
    → number base acc (ds ++ (d ∷ [])) ≡ base * number base acc ds + d
number-append base acc [] d = refl
number-append base acc (e ∷ ds) d = number-append base (base * acc + e) ds d

abbrev pub are_digits : ℕ → List ℕ → Bool
are_digits base [] = true
are_digits base (d ∷ ds) = ltb d base && are_digits base ds

are_digits-append :
    (base : ℕ) (ds : List ℕ) (d : ℕ)
    → are_digits base ds ≡ true
    → d < base
    → are_digits base (ds ++ (d ∷ [])) ≡ true
are_digits-append base [] d h lt = ground arith
are_digits-append base (e ∷ ds) d h lt = ground (arith, are_digits-append base ds d)

-- no zero in front of other digits, and not the empty list
abbrev pub Starts : List ℕ → Type 0
Starts [] = ⊥
Starts (d ∷ ds) = (d ≢ 0) ⊎ (ds ≡ [])

-- digits below the base that stand for `x`, without a zero in front
pub record IsNumeral (base x : ℕ) (ds : List ℕ) : Type 0 where
  pub value : number base 0 ds ≡ x
  pub digits : are_digits base ds ≡ true
  pub starts : Starts ds

-- one more digit behind those of a positive number
Starts-append :
    (base x : ℕ) (ds : List ℕ) (d : ℕ) → x ≢ 0 → IsNumeral base x ds → Starts (ds ++ (d ∷ []))
Starts-append base x [] d ne v = absurd v.starts
Starts-append base x (e ∷ ds) d ne v = elim v.starts [
  | inl nonzero ↦ inl nonzero
  | inr alone ↦ inl (λ z. ne (sym v.value ∙ rw (alone, z) (omega arith)))
]

abbrev Prints : ℕ → ℕ → (ℕ → ℕ) → ℕ → ℕ → List ℕ → Type 0
Prints rounds k digits base x buf =
    (ds : List ℕ) × (itoa_loop rounds digits x base buf ≡ done (map digits ds ++ buf))
    × IsNumeral base x ds
    × (length ds ≤ suc k)

map_behind :
    (f : ℕ → ℕ) (ds : List ℕ) (d : ℕ) (buf : List ℕ)
    → map f (ds ++ (d ∷ [])) ++ buf ≡ map f ds ++ (f d ∷ buf)
map_behind f [] d buf = refl
map_behind f (e ∷ ds) d buf = ap (λ l. f e ∷ l) (map_behind f ds d buf)

-- with what printint uses of a base
module _ (base : ℕ) (mod-lt : (x : ℕ) → x % base < base)
    (div_mod : (x : ℕ) → base * (x / base) + x % base ≡ x)
    (div_small : (x : ℕ) → x < base ^ 1 → x / base ≡ 0)
    (div-lt : (x k : ℕ) → x < base ^ suc (suc k) → x / base < base ^ suc k) (digits : ℕ → ℕ) where
  -- the digits of x / base, and the last one
  one_more :
      (k rounds x : ℕ) (buf : List ℕ)
      → x / base ≢ 0
      → Prints rounds k digits base (x / base) (digits (x % base) ∷ buf)
      → Prints (suc rounds) (suc k) digits base x buf
  unfolding itoa_loop
  one_more k rounds x buf ne (ds, e, v, few) =
      let more : (x / base == 0) ≡ false = ground arith in
      (
        ds ++ (x % base ∷ []),
        rw more (e ∙ ap done (sym (map_behind digits ds (x % base) buf))),
        record {
          value =
              number-append base 0 ds (x % base)
              ∙ ap (λ q. base * q + x % base) v.value
              ∙ div_mod x;
          digits = are_digits-append base ds (x % base) v.digits (mod-lt x);
          starts = Starts-append base (x / base) ds (x % base) ne v;
        },
        omega (arith, few, length-append ds (x % base ∷ [])),
      )

  one_digit :
      (k rounds x : ℕ) (buf : List ℕ) → x / base ≡ 0 → Prints (suc rounds) k digits base x buf
  unfolding itoa_loop
  one_digit k rounds x buf z =
      let last : (x / base == 0) ≡ true = ground arith in
      (
        x % base ∷ [],
        rw last refl,
        record {
          value = ap (λ q. base * q + x % base) (sym z) ∙ div_mod x;
          digits = ground (arith, mod-lt x);
          starts = inr refl;
        },
        omega arith,
      )

  itoa_loop_lem :
      (k rounds x : ℕ) (buf : List ℕ)
      → x < base ^ suc k
      → k < rounds
      → Prints rounds k digits base x buf
  itoa_loop_lem k zero x buf lt few = absurd (omega arith)
  itoa_loop_lem zero (suc rounds) x buf lt few = one_digit 0 rounds x buf (div_small x lt)
  itoa_loop_lem (suc k) (suc rounds) x buf lt few = elim (ℕ_discrete (x / base) 0) [
    | yes z ↦ one_digit (suc k) rounds x buf z
    | no ne ↦
        one_more k rounds x buf ne (
          itoa_loop_lem k rounds (x / base) (digits (x % base) ∷ buf) (div-lt x k lt) (omega arith))
  ]

decimal : (x : ℕ) (digits : ℕ → ℕ) (buf : List ℕ) → x < 2 ^ 32 → Prints buf_size 9 digits 10 x buf
decimal x digits buf lt =
    itoa_loop_lem 10 (λ x. omega arith) (λ x. omega arith) (λ x lt. omega arith)
      (λ x k lt. omega (arith, pow_step 10 (suc k))) digits 9 buf_size x buf (omega arith)
      (omega arith)

hexadecimal :
    (x : ℕ) (digits : ℕ → ℕ) (buf : List ℕ) → x < 2 ^ 32 → Prints buf_size 7 digits 16 x buf
hexadecimal x digits buf lt =
    itoa_loop_lem 16 (λ x. omega arith) (λ x. omega arith) (λ x lt. omega arith)
      (λ x k lt. omega (arith, pow_step 16 (suc k))) digits 7 buf_size x buf (omega arith)
      (omega arith)

-- an int is negative, and its magnitude
abbrev pub negative : Bool → ℕ → Bool
negative sign xx = sign && leb (2 ^ 31) xx

abbrev pub magnitude : Bool → ℕ → ℕ
magnitude sign xx = if negative sign xx then 2 ^ 32 - xx else xx

-- The text is a minus, if the number is negative, and the numeral of its magnitude, and has 11 characters
-- at most.
abbrev pub IsPrinted : (ℕ → ℕ) → ℕ → Bool → ℕ → Run (List ℕ) → Type 0
IsPrinted digits base sign xx run =
    (ds : List ℕ) × IsNumeral base (magnitude sign xx) ds
    × (run ≡ done (if negative sign xx then minus ∷ map digits ds else map digits ds))
    × (length ds + (if negative sign xx then 1 else 0) ≤ 11)

numeral :
    (base x : ℕ) (digits : ℕ → ℕ)
    → (base ≡ 10) ⊎ (base ≡ 16)
    → x < 2 ^ 32
    → (ds : List ℕ) × IsNumeral base x ds
      × (itoa_loop buf_size digits x base [] ≡ done (map digits ds))
      × (length ds ≤ 10)
numeral base x digits (inl ten) lt =
    let (ds, e, v, few) = decimal x digits [] lt in
    (ds, rw ten v, rw ten (e ∙ ap done (append-nil (map digits ds))), few)
numeral base x digits (inr sixteen) lt =
    let (ds, e, v, few) = hexadecimal x digits [] lt in
    (ds, rw sixteen v, rw sixteen (e ∙ ap done (append-nil (map digits ds))), omega (arith, few))

-- printint of the kernel prints the number in its base, 10 or 16, and with its sign if it is asked to. It
-- uses at most 11 of the 16 places of its array.
pub kernel-printint :
    (base xx : ℕ) (sign : Bool)
    → (base ≡ 10) ⊎ (base ≡ 16)
    → xx < 2 ^ 32
    → IsPrinted lower base sign xx (Kernel.printint xx base sign)
unfolding Kernel.printint
kernel-printint base xx sign which lt =
    let (ds, v, e, few) = numeral base (magnitude sign xx) lower which (ground arith) in
    (ds, v, rw e refl, ground (arith, few))

-- printint of user programs prints the low 32 bits of its argument in its base, 10 or 16, and with their
-- sign if it is asked to. It uses at most 11 of the 16 places of its array.
pub user-printint :
    (base xx : ℕ) (sgn : Bool)
    → (base ≡ 10) ⊎ (base ≡ 16)
    → IsPrinted upper base sgn (xx % 2 ^ 32) (User.printint xx base sgn)
unfolding User.printint
user-printint base xx sgn which =
    let (ds, v, e, few) = numeral base (magnitude sgn (xx % 2 ^ 32)) upper which (ground arith) in
    (ds, v, rw e refl, ground (arith, few))
