-- ===== src/Sh/Lexer.antt =====
-- The tokens of user/sh.c.
use oslab.Prelude.{
  ℕ, ◌≤◌, ◌<◌, ◌≡◌, refl, sym, ap, ◌∙◌, ◌⊎◌, inl, inr, true, false, List, [], ◌∷◌, ◌==◌, arith,
  length, Bool-cases,
}
use oslab.Sh.Steps.{kind, left, next}
use oslab.Sh.{
  skip_white, behind_word, greater, token, gettoken, at, in_word, strchr, whitespace, single,
}

pub skip_white_le : (s : List ℕ) → length (skip_white s) ≤ length s
unfolding skip_white
skip_white_le [] = omega arith
skip_white_le (c ∷ s) = ground (arith, skip_white_le s)

behind_word_le : (s : List ℕ) → length (behind_word s) ≤ length s
unfolding behind_word
behind_word_le [] = omega arith
behind_word_le (c ∷ s) = ground (arith, behind_word_le s)

skip_white-nil : skip_white [] ≡ []
unfolding skip_white
skip_white-nil = refl

over_white : (c : ℕ) (s : List ℕ) → strchr whitespace c ≡ true → skip_white (c ∷ s) ≡ skip_white s
unfolding skip_white
over_white c s h = rw h refl

pub at_solid : (c : ℕ) (s : List ℕ) → strchr whitespace c ≡ false → skip_white (c ∷ s) ≡ c ∷ s
unfolding skip_white
at_solid c s h = rw h refl

skip_white-cases :
    (s : List ℕ)
    → (skip_white s ≡ [])
      ⊎ ((c : ℕ) × (t : List ℕ) × (skip_white s ≡ c ∷ t) × (strchr whitespace c ≡ false))
unfolding skip_white
skip_white-cases [] = inl refl
skip_white-cases (c ∷ s) = elim (Bool-cases (strchr whitespace c)) [
  | inl h ↦ rw h (skip_white-cases s)
  | inr h ↦ inr (c, s, rw h refl, h)
]

pub skip_white-skip_white : (s : List ℕ) → skip_white (skip_white s) ≡ skip_white s
skip_white-skip_white s = elim (skip_white-cases s) [
  | inl e ↦ rw e (skip_white-nil)
  | inr (c, t, e, h) ↦ rw e (at_solid c t h)
]

greater_le : (s : List ℕ) → length (left (greater s)) ≤ length s
unfolding greater
greater_le [] = omega arith
greater_le (d ∷ s) = ground (arith, skip_white_le s, skip_white_le (d ∷ s))

-- a character that is neither white nor a token
in_word_lem :
    (c : ℕ)
    → strchr whitespace c ≡ false
    → strchr single c ≡ false
    → (c == 62) ≡ false
    → in_word c ≡ true
unfolding in_word
in_word_lem c w s g = ground arith

-- A token other than the end takes characters.
token-lt :
    (c : ℕ) (s : List ℕ)
    → strchr whitespace c ≡ false
    → (c == 0) ≡ false
    → length (left (token (c ∷ s))) ≤ length s
unfolding token
token-lt c s w z = elim (Bool-cases (strchr single c)) [
  | inl one ↦ rw (z, one) (skip_white_le s)
  | inr more ↦ elim (Bool-cases (c == 62)) [
    | inl g ↦ rw (z, more, g) (greater_le s)
    | inr name ↦
        rw (z, more, name, in_word_lem c w more name)
          (omega (arith, skip_white_le (behind_word s), behind_word_le s))
  ]
]

token-zero : (c : ℕ) (s : List ℕ) → (c == 0) ≡ true → token (c ∷ s) ≡ (0, [], c ∷ s)
unfolding token
token-zero c s h = rw h refl

token-nil : token [] ≡ (0, [], [])
unfolding token
token-nil = refl

pub gettoken-lt :
    (s : List ℕ) → (kind (gettoken s) == 0) ≡ false → length (left (gettoken s)) < length s
unfolding gettoken
gettoken-lt s h = elim (skip_white-cases s) [
  | inl e ↦ absurd (ground (arith, e, h))
  | inr (c, t, e, w) ↦ elim (Bool-cases (c == 0)) [
    | inl z ↦ absurd (ground (arith, e, h, z))
    | inr z ↦ rw e (omega (arith, token-lt c t w z, skip_white_le s, ap length e))
  ]
]

pub gettoken_le : (s : List ℕ) → length (left (gettoken s)) ≤ length s
unfolding gettoken
gettoken_le s = elim (skip_white-cases s) [
  | inl e ↦ rw e (omega arith)
  | inr (c, t, e, w) ↦ elim (Bool-cases (c == 0)) [
    | inl z ↦ rw (e, z) (omega (arith, skip_white_le s, ap length e))
    | inr z ↦ rw e (omega (arith, token-lt c t w z, skip_white_le s, ap length e))
  ]
]

-- One of the characters that peek finds is a token.
pub at-lt :
    (s toks : List ℕ)
    → at toks (skip_white s) ≡ true
    → length (left (gettoken (skip_white s))) < length s
unfolding gettoken at
at-lt s toks h = elim (skip_white-cases s) [
  | inl e ↦ absurd (ground (arith, e, h))
  | inr (c, t, e, w) ↦
      rw (e, at_solid c t w)
        (omega (
          arith,
          token-lt c t w (ground (arith, sym (ap (at toks) e) ∙ h)),
          skip_white_le s,
          ap length e,
        ))
]

pub next_le : (s : List ℕ) → length (left (next s)) ≤ length s
next_le s = omega (arith, gettoken_le (skip_white s), skip_white_le s)

pub next-lt : (s : List ℕ) → (kind (next s) == 0) ≡ false → length (left (next s)) < length s
next-lt s h = omega (arith, gettoken-lt (skip_white s) h, skip_white_le s)
