-- ===== src/Sh/Words.antt =====
-- The parser of user/sh.c reads written redirections and arguments back.
use oslab.Prelude.{
  ℕ, zero, suc, ◌+◌, ◌<◌, ◌≡◌, refl, sym, ap, ◌∙◌, inl, inr, true, false, List, [], ◌∷◌, ◌++◌, ◌==◌,
  arith, length,
}
use oslab.Prelude.Run.{done, ◌>>=◌}
use oslab.Sh.{Cmd, redir, max_args, strchr, in_word, skip_white, gettoken, at}
use oslab.Sh.Steps.{
  kind, chars, left, next, arrows, ends, redirs_end, redirs_more, args_stop, args_end, args_more,
}
use oslab.Sh.Lexer.{skip_white-skip_white, gettoken_le, at-lt, next-lt}
use oslab.Sh.Parser.{redirect, parseredirs, parseargs, add_arg}
use oslab.Sh.Syntax.{
  Redirs, Words, arrow_text, redirs_text, words_text, mode_of, fd_of, with_redirs, are_redirs,
  are_words,
}
use oslab.Sh.Written.{
  apart, next_same, word_token, arrow_token, at_arrow, redirect_lem, skip_space, at_word, Follow,
  Follow-not_at, stop,
}
use oslab.Sh.Args.{Parsed-done, parseredirs-Parsed}

-- one redirection, by its two tokens
redirs_step :
    (fuel : ℕ) (cmd : Cmd) (s : List ℕ) (n g : ℕ × List ℕ × List ℕ)
    → at arrows (skip_white s) ≡ true
    → next s ≡ n
    → gettoken (left n) ≡ g
    → (kind g == 97) ≡ true
    → parseredirs (suc fuel) cmd s ≡ parseredirs fuel (redirect (kind n) cmd (chars g)) (left g)
redirs_step fuel cmd s n g found e f named =
    redirs_more fuel cmd s found (rw (e, f) named) ∙ rw (e, f) refl

pub redirs_text-apart :
    (rs : Redirs) (s : List ℕ) → apart s ≡ true → apart (redirs_text rs s) ≡ true
unfolding redirs_text apart
redirs_text-apart [] s h = h
redirs_text-apart ((a, w) ∷ rs) s h = refl

pub words_text-apart : (ws : Words) (s : List ℕ) → apart s ≡ true → apart (words_text ws s) ≡ true
unfolding words_text apart
words_text-apart [] s h = h
words_text-apart ((w, rs) ∷ ws) s h = refl

pub redirs_lem :
    (rs : Redirs) (rest : List ℕ) (fuel : ℕ) (cmd : Cmd) (s : List ℕ)
    → skip_white s ≡ skip_white (redirs_text rs rest)
    → are_redirs rs ≡ true
    → apart rest ≡ true
    → at arrows (skip_white rest) ≡ false
    → length s < fuel
    → parseredirs fuel cmd s ≡ done (with_redirs rs cmd, skip_white rest)
unfolding redirs_text are_redirs
redirs_lem rs rest zero cmd s e ok sep end lt = absurd (omega arith)
redirs_lem [] rest (suc fuel) cmd s e ok sep end lt =
    redirs_end fuel cmd s (ap (at arrows) e ∙ end) ∙ ap (λ t. done (cmd, t)) e
redirs_lem ((a, w) ∷ rs) rest (suc fuel) cmd s e ok sep end lt =
    let more = redirs_text rs rest in
    let found = ap (at arrows) e ∙ at_arrow a (32 ∷ w ++ more) in
    let (shown, opened) = arrow_token a (w ++ more) in
    let first = next_same s (32 ∷ arrow_text a (32 ∷ w ++ more)) e ∙ opened in
    let file : gettoken (skip_white (w ++ more)) ≡ (97, w, skip_white more) =
      next_same (w ++ more) (w ++ more) refl
      ∙ word_token w more (ground (arith, ok)) (redirs_text-apart rs rest sep) in
    let shorter : length (skip_white more) < length s = omega (
      arith,
      at-lt s arrows found,
      ap (λ r. length (left r)) first,
      gettoken_le (skip_white (w ++ more)),
      ap (λ r. length (left r)) file,
    ) in
    redirs_step fuel cmd s _ _ found first file refl
    ∙ ap (λ c. parseredirs fuel c (skip_white more)) (redirect_lem a cmd w)
    ∙ redirs_lem rs rest fuel (redir cmd w (mode_of a) (fd_of a)) (skip_white more)
        (skip_white-skip_white more) (ground (arith, ok)) sep end (omega (arith, shorter, lt))

pub not_arrow : (c : ℕ) → in_word c ≡ true → strchr arrows c ≡ false
unfolding in_word
not_arrow c h = ground arith

not_end : (c : ℕ) → in_word c ≡ true → strchr ends c ≡ false
unfolding in_word
not_end c h = ground arith

pub words_text-not_arrow :
    (ws : Words) (rest : List ℕ)
    → are_words ws ≡ true
    → at arrows (skip_white rest) ≡ false
    → at arrows (skip_white (words_text ws rest)) ≡ false
unfolding words_text are_words
words_text-not_arrow [] rest ok h = h
words_text-not_arrow ((w, rs) ∷ ws) rest ok h =
    at_word w (redirs_text rs (words_text ws rest)) arrows (ground (arith, ok)) not_arrow

-- what parseexec makes of the words: each argument in turn, and the redirections behind it
abbrev pub add_words : Words → Cmd → Cmd
add_words [] ret = ret
add_words ((w, rs) ∷ ws) ret = add_words ws (with_redirs rs (add_arg ret w))

-- one argument, by its token
args_step :
    (fuel argc : ℕ) (ret more : Cmd) (s u : List ℕ) (n : ℕ × List ℕ × List ℕ)
    → at ends (skip_white s) ≡ false
    → next s ≡ n
    → (kind n == 0) ≡ false
    → (kind n == 97) ≡ true
    → suc argc < max_args
    → parseredirs (suc (length (left n))) (add_arg ret (chars n)) (left n) ≡ done (more, u)
    → parseargs (suc fuel) argc ret s ≡ parseargs fuel (suc argc) more u
args_step fuel argc ret more s u n go e z w room r =
    args_more fuel argc ret s go (rw e z) (rw e w) (ground (arith, room))
    ∙ rw e (rw (r, ◌>>=◌) refl)

pub stop_arrow : (c : ℕ) → stop 3 c ≡ true → strchr arrows c ≡ false
unfolding strchr
stop_arrow c h = ground arith

stop_end : (c : ℕ) (t : List ℕ) → stop 3 c ≡ true → at ends (c ∷ t) ≡ true
unfolding at
stop_end c t h = ground arith

words_end :
    (fuel argc : ℕ) (ret : Cmd) (rest s : List ℕ)
    → skip_white s ≡ skip_white rest
    → Follow 3 rest
    → parseargs (suc fuel) argc ret s ≡ done (ret, skip_white rest)
unfolding at gettoken
words_end fuel argc ret rest s e (inl n) =
    let first : next s ≡ (0, [], []) = next_same s [] (e ∙ n) in
    args_end fuel argc ret s (ap (at ends) (e ∙ n)) (rw first refl)
    ∙ ap (λ r. done (ret, left r)) first
    ∙ ap (λ t. done (ret, t)) (sym n)
words_end fuel argc ret rest s e (inr (c, t, head, p)) =
    args_stop fuel argc ret s (ap (at ends) (e ∙ head) ∙ stop_end c t p) ∙ ap (λ t. done (ret, t)) e

pub words_lem :
    (ws : Words) (rest : List ℕ) (fuel argc : ℕ) (ret : Cmd) (s : List ℕ)
    → skip_white s ≡ skip_white (words_text ws rest)
    → are_words ws ≡ true
    → apart rest ≡ true
    → Follow 3 rest
    → argc + length ws < max_args
    → length s < fuel
    → parseargs fuel argc ret s ≡ done (add_words ws ret, skip_white rest)
unfolding words_text are_words
words_lem ws rest zero argc ret s e ok sep end few lt = absurd (omega arith)
words_lem [] rest (suc fuel) argc ret s e ok sep end few lt = words_end fuel argc ret rest s e end
words_lem ((w, rs) ∷ ws) rest (suc fuel) argc ret s e ok sep end few lt =
    let after = words_text ws rest in
    let more = redirs_text rs after in
    let go = ap (at ends) e ∙ at_word w more ends (ground (arith, ok)) not_end in
    let first : next s ≡ (97, w, skip_white more) =
      next_same s (w ++ more) (e ∙ skip_space (w ++ more))
      ∙ word_token w more (ground (arith, ok))
          (redirs_text-apart rs after (words_text-apart ws rest sep)) in
    let redirected =
      redirs_lem rs after (suc (length (skip_white more))) (add_arg ret w) (skip_white more)
        (skip_white-skip_white more) (ground (arith, ok)) (words_text-apart ws rest sep)
        (words_text-not_arrow ws rest (ground (arith, ok))
          (Follow-not_at 3 rest arrows stop_arrow end))
        (omega arith) in
    args_step fuel argc ret _ s _ _ go first refl refl (omega (arith, few)) redirected
    ∙ words_lem ws rest fuel (suc argc) _ (skip_white after) (skip_white-skip_white after)
        (ground (arith, ok)) sep end (omega (arith, few))
        (omega (
          arith,
          lt,
          next-lt s (rw first refl),
          ap (λ r. length (left r)) first,
          (Parsed-done (λ c. Unit) _ _ _ _
              (parseredirs-Parsed (λ c. Unit) (λ c file mode fd two q. tt)
                (suc (length (skip_white more))) (add_arg ret w) (skip_white more) (omega arith) tt)
              redirected).1,
        ))
