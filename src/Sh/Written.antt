-- ===== src/Sh/Written.antt =====
-- The tokens of a written command of user/sh.c.
use oslab.Prelude.{
  ℕ, ◌≡◌, refl, ap, ◌∙◌, ◌⊎◌, inl, inr, Bool, true, false, not, ◌&&◌, ◌||◌, List, [], ◌∷◌, ◌++◌,
  ◌==◌, leb, arith,
}
use oslab.Sh.{
  Cmd, redir, strchr, in_word, skip_white, word, behind_word, token, gettoken, at, whitespace,
  single,
}
use oslab.Sh.Steps.{next, arrows}
use oslab.Sh.Lexer.{skip_white-skip_white, at_solid}
use oslab.Sh.Parser.{redirect}
use oslab.Sh.Syntax.{Arrow, input, output, append, arrow_text, mode_of, fd_of, is_word, all_in_word}

-- the end of a word
unfoldable pub apart : List ℕ → Bool
unfolding in_word
apart [] = true
apart (c ∷ s) = not (in_word c)

word-append : (w s : List ℕ) → all_in_word w ≡ true → apart s ≡ true → word (w ++ s) ≡ w
unfolding word apart
word-append [] [] h a = refl
word-append [] (c ∷ s) h a = ground arith
word-append (c ∷ w) s h a = ground (arith, word-append w s)

behind_word-append :
    (w s : List ℕ) → all_in_word w ≡ true → apart s ≡ true → behind_word (w ++ s) ≡ s
unfolding behind_word apart
behind_word-append [] [] h a = refl
behind_word-append [] (c ∷ s) h a = ground arith
behind_word-append (c ∷ w) s h a = ground (arith, behind_word-append w s)

solid : (c : ℕ) → in_word c ≡ true → strchr whitespace c ≡ false
unfolding in_word
solid c h = ground arith

not_single : (c : ℕ) → in_word c ≡ true → strchr single c ≡ false
unfolding in_word strchr
not_single c h = ground arith

not_greater : (c : ℕ) → in_word c ≡ true → (c == 62) ≡ false
unfolding in_word strchr
not_greater c h = ground arith

token_default :
    (c : ℕ) (t : List ℕ)
    → (c == 0) ≡ false
    → strchr single c ≡ false
    → (c == 62) ≡ false
    → token (c ∷ t) ≡ (97, word (c ∷ t), skip_white (behind_word (c ∷ t)))
unfolding token
token_default c t z o g = rw (z, o, g) refl

gettoken_solid : (s t : List ℕ) → skip_white s ≡ t → gettoken s ≡ token t
unfolding gettoken
gettoken_solid s t e = ap token e

-- white space in front changes nothing
pub next_same : (s t : List ℕ) → skip_white s ≡ skip_white t → next s ≡ gettoken t
unfolding gettoken
next_same s t e = ap token (skip_white-skip_white s ∙ e)

pub word_token :
    (w s : List ℕ) → is_word w ≡ true → apart s ≡ true → gettoken (w ++ s) ≡ (97, w, skip_white s)
word_token [] s h a = absurd (ground arith)
word_token (c ∷ w) s h a =
    let inside : in_word c ≡ true = ground arith in
    gettoken_solid (c ∷ w ++ s) (c ∷ w ++ s) (at_solid c (w ++ s) (solid c inside))
    ∙ token_default c (w ++ s) (ground arith) (not_single c inside) (not_greater c inside)
    ∙ rw (word-append (c ∷ w) s h a, behind_word-append (c ∷ w) s h a) refl

-- the token of an arrow
unfoldable pub arrow_kind : Arrow → ℕ
arrow_kind input = 60
arrow_kind output = 62
arrow_kind append = 43

pub arrow_token :
    (a : Arrow) (t : List ℕ)
    → (sym : List ℕ) × (gettoken (32 ∷ arrow_text a (32 ∷ t)) ≡ (arrow_kind a, sym, skip_white t))
unfolding gettoken arrow_kind
arrow_token input t = (60 ∷ [], refl)
arrow_token output t = (62 ∷ [], refl)
arrow_token append t = (62 ∷ 62 ∷ [], refl)

pub at_arrow : (a : Arrow) (t : List ℕ) → at arrows (skip_white (32 ∷ arrow_text a t)) ≡ true
unfolding at skip_white
at_arrow input t = refl
at_arrow output t = refl
at_arrow append t = refl

pub redirect_lem :
    (a : Arrow) (cmd : Cmd) (q : List ℕ)
    → redirect (arrow_kind a) cmd q ≡ redir cmd q (mode_of a) (fd_of a)
unfolding arrow_kind
redirect_lem input cmd q = refl
redirect_lem output cmd q = refl
redirect_lem append cmd q = refl

pub skip_space : (s : List ℕ) → skip_white (32 ∷ s) ≡ skip_white s
unfolding skip_white
skip_space s = refl

-- a symbol behind a space, which `s` starts with
module _ (c : ℕ) (one : (strchr single c && not (strchr whitespace c) && not (c == 0)) ≡ true)
    (t : List ℕ) where
  pub skip_symbol : skip_white (32 ∷ c ∷ t) ≡ c ∷ t
  skip_symbol = skip_space (c ∷ t) ∙ at_solid c t (ground (arith, one))

  symbol_token : gettoken (32 ∷ c ∷ t) ≡ (c, c ∷ [], skip_white t)
  unfolding gettoken token
  symbol_token =
      let z : (c == 0) ≡ false = ground (arith, one) in
      let s : strchr single c ≡ true = ground (arith, one) in rw skip_symbol (rw (z, s) refl)

  module _ (s : List ℕ) (e : skip_white s ≡ skip_white (32 ∷ c ∷ t)) where
    pub next_symbol : next s ≡ (c, c ∷ [], skip_white t)
    next_symbol = next_same s (32 ∷ c ∷ t) e ∙ symbol_token

    pub at_symbol : (toks : List ℕ) → strchr toks c ≡ true → at toks (skip_white s) ≡ true
    unfolding at
    at_symbol toks h = rw (e ∙ skip_symbol) (rw h (ground (arith, one)))

    pub not_at_symbol : (toks : List ℕ) → strchr toks c ≡ false → at toks (skip_white s) ≡ false
    unfolding at
    not_at_symbol toks h = rw (e ∙ skip_symbol) (rw h (ground arith))

-- `toks` has none of the characters of a word
pub at_word :
    (w s toks : List ℕ)
    → is_word w ≡ true
    → ((c : ℕ) → in_word c ≡ true → strchr toks c ≡ false)
    → at toks (skip_white (32 ∷ w ++ s)) ≡ false
unfolding at
at_word [] s toks h other = absurd (ground arith)
at_word (c ∷ w) s toks h other =
    let inside : in_word c ≡ true = ground arith in
    rw (skip_space (c ∷ w ++ s) ∙ at_solid c (w ++ s) (solid c inside))
      (rw (other c inside) (ground arith))

-- the characters that end a command, a pipeline and the & behind it, and a line, each fewer
abbrev pub stop : ℕ → ℕ → Bool
stop k c = (c == 41) || (leb 1 k && c == 59) || (leb 2 k && c == 38) || (leb 3 k && c == 124)

-- Nothing follows but white space, or one of these characters does.
abbrev pub Follow : ℕ → List ℕ → Type 0
Follow k s =
    (skip_white s ≡ []) ⊎ ((c : ℕ) × (t : List ℕ) × (skip_white s ≡ c ∷ t) × (stop k c ≡ true))

pub Follow-more :
    (j k : ℕ) (s : List ℕ) → ((c : ℕ) → stop j c ≡ true → stop k c ≡ true) → Follow j s → Follow k s
Follow-more j k s h (inl e) = inl e
Follow-more j k s h (inr (c, t, e, p)) = inr (c, t, e, h c p)

pub Follow-not_at :
    (k : ℕ) (s toks : List ℕ)
    → ((c : ℕ) → stop k c ≡ true → strchr toks c ≡ false)
    → Follow k s
    → at toks (skip_white s) ≡ false
unfolding at
Follow-not_at k s toks h (inl e) = rw e refl
Follow-not_at k s toks h (inr (c, t, e, p)) = rw e (rw (h c p) (ground arith))
