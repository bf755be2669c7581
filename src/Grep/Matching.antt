-- ===== src/Grep/Matching.antt =====
-- The matcher of user/grep.c finds exactly what its expressions mean.
use mathlib.Core.Bool.{true≢false}
use oslab.Prelude.{
  ℕ, ◌≡◌, ◌≢◌, ◌⊎◌, ◌↔◌, inl, inr, refl, sym, ap, Bool, true, false, not, ◌||◌, List, [], ◌∷◌, ◌++◌,
  ◌==◌, arith, ℕ_discrete, Bool-cases,
}
use oslab.Grep.{caret, dot, star, dollar, is_end, matchstar, matchone, matchhere, match_loop, match}

-- a character of the expression stands for one of the text
abbrev pub Stands : ℕ → ℕ → Type 0
Stands c x = (c ≡ dot) ⊎ (c ≡ x)

pub data Repeats (c : ℕ) : List ℕ → Type 0 where
  stop : Repeats c []
  again : {x : ℕ} {xs : List ℕ} → Stands c x → Repeats c xs → Repeats c (x ∷ xs)

-- `c` is not before a star, nor the anchor at the end
abbrev pub is_single : ℕ → List ℕ → Bool
is_single c [] = not (c == dollar)
is_single c (d ∷ re) = not (d == star)

-- The expression fits the beginning of the text.
pub data Fits : List ℕ → List ℕ → Type 0 where
  nothing : {text : List ℕ} → Fits [] text
  at_end : Fits (dollar ∷ []) []
  one :
      {c x : ℕ} {re text : List ℕ}
      → is_single c re ≡ true
      → Stands c x
      → Fits re text
      → Fits (c ∷ re) (x ∷ text)
  many :
      {c : ℕ} {re whole : List ℕ} (xs text : List ℕ)
      → whole ≡ xs ++ text
      → Repeats c xs
      → Fits re text
      → Fits (c ∷ star ∷ re) whole

Stands-or_not : (c x : ℕ) → (c == dot || c == x) ≡ true → Stands c x
Stands-or_not c x e = ground arith

-- one more character before a repetition
longer :
    (c x : ℕ) (re text : List ℕ)
    → Stands c x
    → Fits (c ∷ star ∷ re) text
    → Fits (c ∷ star ∷ re) (x ∷ text)
longer c x re text st (one single st' f) = absurd (true≢false (sym single))
longer c x re text st (many xs text' e reps f) =
    many (x ∷ xs) text' (ap (λ t. x ∷ t) e) (again st reps) f

repeats_or_not : (c x : ℕ) → (x == c || c == dot) ≡ true → Stands c x
repeats_or_not c x e = ground arith

module _ (re : List ℕ) (here : List ℕ → Bool)
    (sound : (text : List ℕ) → here text ≡ true → Fits re text) where
  matchstar_sound :
      (c : ℕ) (text : List ℕ) → matchstar here c text ≡ true → Fits (c ∷ star ∷ re) text
  unfolding matchstar
  matchstar_sound c [] e = many [] [] refl stop (sound [] e)
  matchstar_sound c (x ∷ text) e = elim (Bool-cases (here (x ∷ text))) [
    | inl found ↦ many [] (x ∷ text) refl stop (sound (x ∷ text) found)
    | inr late ↦
        longer c x re text (repeats_or_not c x (ground arith))
          (matchstar_sound c text (ground arith))
  ]

  matchone_sound :
      (c : ℕ) (text : List ℕ)
      → is_single c re ≡ true
      → matchone here c text ≡ true
      → Fits (c ∷ re) text
  unfolding matchone
  matchone_sound c [] single e = absurd (true≢false (sym e))
  matchone_sound c (x ∷ text) single e =
      one single (Stands-or_not c x (ground arith)) (sound text (ground arith))

ended : (text : List ℕ) → is_end text ≡ true → Fits (dollar ∷ []) text
ended [] e = at_end
ended (x ∷ text) e = absurd (true≢false (sym e))

pub matchhere_sound : (re text : List ℕ) → matchhere re text ≡ true → Fits re text
unfolding matchhere
matchhere_sound [] text e = nothing
matchhere_sound (c ∷ []) text e = elim (Bool-cases (c == dollar)) [
  | inl last ↦ let same : c ≡ dollar = ground arith in rw same (ended text (rw last at e))
  | inr other ↦
      matchone_sound [] (matchhere []) (matchhere_sound []) c text (rw other refl) (rw other at e)
]
matchhere_sound (c ∷ d ∷ re) text e = elim (Bool-cases (d == star)) [
  | inl starred ↦
      let same : d ≡ star = ground arith in
      rw same (matchstar_sound re (matchhere re) (matchhere_sound re) c text (rw starred at e))
  | inr single ↦
      matchone_sound (d ∷ re) (matchhere (d ∷ re)) (matchhere_sound (d ∷ re)) c text
        (rw single refl) (rw single at e)
]

-- the converse
one_complete :
    (here : List ℕ → Bool) (c x : ℕ) (text : List ℕ)
    → Stands c x
    → here text ≡ true
    → matchone here c (x ∷ text) ≡ true
unfolding matchone
one_complete here c x text st e = ground arith

star_complete :
    (here : List ℕ → Bool) (c : ℕ) (xs text : List ℕ)
    → Repeats c xs
    → here text ≡ true
    → matchstar here c (xs ++ text) ≡ true
unfolding matchstar
star_complete here c [] [] stop e = e
star_complete here c [] (x ∷ text) stop e = rw e refl
star_complete here c (x ∷ xs) text (again st reps) e =
    ground (arith, star_complete here c xs text reps e)

matchhere_complete : {re text : List ℕ} → Fits re text → matchhere re text ≡ true
unfolding matchhere
matchhere_complete nothing = refl
matchhere_complete at_end = refl
matchhere_complete (one {c} {x} {re = []} {text} single st f) =
    let plain : (c == dollar) ≡ false = ground arith in
    rw plain (one_complete (matchhere []) c x text st (matchhere_complete f))
matchhere_complete (one {c} {x} {re = d ∷ re} {text} single st f) =
    let plain : (d == star) ≡ false = ground arith in
    rw plain (one_complete (matchhere (d ∷ re)) c x text st (matchhere_complete f))
matchhere_complete (many {c} {re} xs text e reps f) =
    rw e (star_complete (matchhere re) c xs text reps (matchhere_complete f))

-- the expression fits the text from some place on
abbrev pub Occurs : List ℕ → List ℕ → Type 0
Occurs re text = (before : List ℕ) × (after : List ℕ) × (text ≡ before ++ after) × Fits re after

loop_sound : (re text : List ℕ) → match_loop re text ≡ true → Occurs re text
unfolding match_loop
loop_sound re [] e = ([], [], refl, matchhere_sound re [] e)
loop_sound re (x ∷ text) e = elim (Bool-cases (matchhere re (x ∷ text))) [
  | inl found ↦ ([], x ∷ text, refl, matchhere_sound re (x ∷ text) found)
  | inr late ↦
      let (before, after, split, f) = loop_sound re text (rw late at e) in
      (x ∷ before, after, ap (λ t. x ∷ t) split, f)
]

loop_complete : (re before after : List ℕ) → Fits re after → match_loop re (before ++ after) ≡ true
unfolding match_loop
loop_complete re [] [] f = matchhere_complete f
loop_complete re [] (x ∷ after) f = rw (matchhere_complete f) refl
loop_complete re (x ∷ before) after f = ground (arith, loop_complete re before after f)

-- what an expression means: after ^ it fits the beginning of the text, else some part
abbrev pub Means : List ℕ → List ℕ → Type 0
Means [] text = Occurs [] text
Means (c ∷ re) text = ((c ≡ caret) × Fits re text) ⊎ ((c ≢ caret) × Occurs (c ∷ re) text)

-- match returns 1 exactly if the text has a part that the expression means.
pub match_iff : (re text : List ℕ) → (match re text ≡ true) ↔ Means re text
unfolding match
match_iff [] text =
    (loop_sound [] text, λ (before, after, split, f). rw split (loop_complete [] before after f))
match_iff (c ∷ re) text = elim (ℕ_discrete c caret) [
  | yes e ↦
      let anchored : (c == caret) ≡ true = ground arith in
      (
        λ found. inl (e, matchhere_sound re text (rw anchored at found)),
        λ m. elim m [
          | inl (_, f) ↦ rw anchored (matchhere_complete f)
          | inr (ne, _) ↦ absurd (ne e)
        ],
      )
  | no ne ↦
      let floating : (c == caret) ≡ false = ground arith in
      (
        λ found. inr (ne, loop_sound (c ∷ re) text (rw floating at found)),
        λ m. elim m [
          | inl (e, _) ↦ absurd (ne e)
          | inr (_, (before, after, split, f)) ↦
              rw (floating, split) (loop_complete (c ∷ re) before after f)
        ],
      )
]
