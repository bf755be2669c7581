-- ===== src/Sh/Blocks.antt =====
-- The parser of user/sh.c reads a written command, a line in parentheses and the & behind a pipeline back.
use mathlib.Core.List.{append_assoc, append-nil}
use oslab.Prelude.{
  ℕ, zero, suc, ◌<◌, ◌≤◌, ◌≡◌, refl, ap, ◌∙◌, inr, true, false, not, ◌&&◌, List, [], ◌∷◌, ◌++◌,
  ◌==◌, arith, length,
}
use oslab.Prelude.Run.{Run, done, ◌>>=◌}
use oslab.Sh.{Cmd, exec, redir, back, max_args, whitespace, single, strchr, in_word, skip_white, at}
use oslab.Sh.Steps.{left, next, arrows, block_closed, exec_block, exec_args, backs_end, backs_more}
use oslab.Sh.Lexer.{skip_white-skip_white, skip_white_le, at-lt}
use oslab.Sh.Parser.{parseredirs, parseargs, parseexec, parsebacks, parseline, add_arg}
use oslab.Sh.Syntax.{
  input, output, append, Redirs, Words, Line, redirs_text, words_text, backs_text, line_text,
  with_redirs, arguments, redirs_among, backs, line_cmd, are_redirs, are_words,
}
use oslab.Sh.Written.{
  apart, skip_symbol, next_symbol, at_symbol, at_word, stop, Follow, Follow-not_at, Follow-more,
}
use oslab.Sh.Words.{
  redirs_lem, words_lem, add_words, words_text-apart, words_text-not_arrow, stop_arrow,
}

add_arg-with_redirs :
    (rs : Redirs) (cmd : Cmd) (q : List ℕ)
    → add_arg (with_redirs rs cmd) q ≡ with_redirs rs (add_arg cmd q)
add_arg-with_redirs [] cmd q = refl
add_arg-with_redirs ((a, w) ∷ rs) cmd q = add_arg-with_redirs rs (redir cmd w _ _) q

with_redirs-with_redirs :
    (rs more : Redirs) (cmd : Cmd)
    → with_redirs more (with_redirs rs cmd) ≡ with_redirs (rs ++ more) cmd
with_redirs-with_redirs [] more cmd = refl
with_redirs-with_redirs ((a, w) ∷ rs) more cmd = with_redirs-with_redirs rs more (redir cmd w _ _)

add_words_lem :
    (ws : Words) (rs : Redirs) (argv : List (List ℕ))
    → add_words ws (with_redirs rs (exec argv))
      ≡ with_redirs (rs ++ redirs_among ws) (exec (argv ++ arguments ws))
add_words_lem [] rs argv = rw (append-nil rs, append-nil argv) refl
add_words_lem ((w, more) ∷ ws) rs argv =
    ap (λ c. add_words ws (with_redirs more c)) (add_arg-with_redirs rs (exec argv) w)
    ∙ ap (add_words ws) (with_redirs-with_redirs rs more (exec (argv ++ (w ∷ []))))
    ∙ add_words_lem ws (rs ++ more) (argv ++ (w ∷ []))
    ∙ rw (append_assoc rs more (redirs_among ws), append_assoc argv (w ∷ []) (arguments ws)) refl

not_open_word : (c : ℕ) → in_word c ≡ true → strchr (40 ∷ []) c ≡ false
unfolding in_word
not_open_word c h = ground arith

stop_open : (c : ℕ) → stop 3 c ≡ true → strchr (40 ∷ []) c ≡ false
unfolding strchr
stop_open c h = ground arith

not_open :
    (rs : Redirs) (ws : Words) (rest : List ℕ)
    → are_words ws ≡ true
    → Follow 3 rest
    → at (40 ∷ []) (skip_white (redirs_text rs (words_text ws rest))) ≡ false
unfolding redirs_text words_text are_words at skip_white
not_open [] [] rest ok end = Follow-not_at 3 rest (40 ∷ []) stop_open end
not_open [] ((w, rs) ∷ ws) rest ok end =
    at_word w (redirs_text rs (words_text ws rest)) (40 ∷ []) (ground (arith, ok)) not_open_word
not_open ((input, w) ∷ rs) ws rest ok end = refl
not_open ((output, w) ∷ rs) ws rest ok end = refl
not_open ((append, w) ∷ rs) ws rest ok end = refl

pub command_lem :
    (line : List ℕ → Run (Cmd × List ℕ)) (rs : Redirs) (ws : Words) (rest s : List ℕ)
    → skip_white s ≡ skip_white (redirs_text rs (words_text ws rest))
    → are_redirs rs ≡ true
    → are_words ws ≡ true
    → length ws < max_args
    → apart rest ≡ true
    → Follow 3 rest
    → parseexec line s
      ≡ done (with_redirs (rs ++ redirs_among ws) (exec (arguments ws)), skip_white rest)
command_lem line rs ws rest s e okr okw few sep end =
    let after = words_text ws rest in
    let first =
      redirs_lem rs after (suc (length (skip_white s))) (exec []) (skip_white s)
        (skip_white-skip_white s ∙ e) okr (words_text-apart ws rest sep)
        (words_text-not_arrow ws rest okw (Follow-not_at 3 rest arrows stop_arrow end))
        (omega arith) in
    exec_args line s (ap (at (40 ∷ [])) e ∙ not_open rs ws rest okw end)
    ∙ ap (λ r. r >>= λ (ret, u). parseargs (suc (length u)) 0 ret u) first
    ∙ words_lem ws rest _ 0 (with_redirs rs (exec [])) (skip_white after)
        (skip_white-skip_white after) okw sep end (omega arith) (omega arith)
    ∙ ap (λ c. done (c, skip_white rest)) (add_words_lem ws rs [])

-- a line in parentheses, with what the parser makes of the line
pub block_lem :
    (fuel : ℕ) (l : Line) (rs : Redirs) (rest s : List ℕ)
    → ((u : List ℕ)
        → skip_white u ≡ skip_white (line_text l (32 ∷ 41 ∷ redirs_text rs rest))
        → length u < fuel
        → parseline fuel u ≡ done (line_cmd l, skip_white (32 ∷ 41 ∷ redirs_text rs rest)))
    → skip_white s ≡ skip_white (32 ∷ 40 ∷ line_text l (32 ∷ 41 ∷ redirs_text rs rest))
    → are_redirs rs ≡ true
    → apart rest ≡ true
    → Follow 3 rest
    → length s ≤ fuel
    → parseexec (parseline fuel) s ≡ done (with_redirs rs (line_cmd l), skip_white rest)
unfolding strchr
block_lem fuel l rs rest s inside e ok sep end le =
    let tail = redirs_text rs rest in
    let body = line_text l (32 ∷ 41 ∷ tail) in
    let e2 = skip_white-skip_white s ∙ e in
    let again = skip_white-skip_white (32 ∷ 41 ∷ tail) in
    let opens = at_symbol 40 refl body (skip_white s) e2 (40 ∷ []) refl in
    let first = next_symbol 40 refl body (skip_white s) e2 in
    let read =
      inside (left (next (skip_white s)))
        (ap (λ n. skip_white (left n)) first ∙ skip_white-skip_white body)
        (omega (arith, at-lt (skip_white s) (40 ∷ []) opens, skip_white_le s, le)) in
    exec_block (parseline fuel) s (at_symbol 40 refl body s e (40 ∷ []) refl)
    ∙ block_closed (parseline fuel) (skip_white s) opens (line_cmd l) (skip_white (32 ∷ 41 ∷ tail))
        read (at_symbol 41 refl tail (skip_white (32 ∷ 41 ∷ tail)) again (41 ∷ []) refl)
    ∙ ap (λ n. parseredirs (suc (length (left n))) (line_cmd l) (left n))
        (next_symbol 41 refl tail (skip_white (32 ∷ 41 ∷ tail)) again)
    ∙ redirs_lem rs rest _ (line_cmd l) (skip_white tail) (skip_white-skip_white tail) ok sep
        (Follow-not_at 3 rest arrows stop_arrow end) (omega arith)

stop_back : (c : ℕ) → stop 1 c ≡ true → strchr (38 ∷ []) c ≡ false
unfolding strchr
stop_back c h = ground arith

pub backs_lem :
    (n : ℕ) (rest : List ℕ) (fuel : ℕ) (cmd : Cmd) (s : List ℕ)
    → skip_white s ≡ skip_white (backs_text n rest)
    → Follow 1 rest
    → length s < fuel
    → parsebacks fuel cmd s ≡ done (backs n cmd, skip_white rest)
unfolding strchr backs_text
backs_lem n rest zero cmd s e end lt = absurd (omega arith)
backs_lem zero rest (suc fuel) cmd s e end lt =
    backs_end fuel cmd s (ap (at (38 ∷ [])) e ∙ Follow-not_at 1 rest (38 ∷ []) stop_back end)
    ∙ ap (λ t. done (cmd, t)) e
backs_lem (suc n) rest (suc fuel) cmd s e end lt =
    let more = backs_text n rest in
    let found = at_symbol 38 refl more s e (38 ∷ []) refl in
    let first = next_symbol 38 refl more s e in
    backs_more fuel cmd s found
    ∙ ap (λ u. parsebacks fuel (back cmd) (left u)) first
    ∙ backs_lem n rest fuel (back cmd) (skip_white more) (skip_white-skip_white more) end
        (omega (arith, lt, at-lt s (38 ∷ []) found, ap (λ u. length (left u)) first))

pub stop_pipe : (c : ℕ) → stop 2 c ≡ true → strchr (124 ∷ []) c ≡ false
unfolding strchr
stop_pipe c h = ground arith

pub stop_list : (c : ℕ) → stop 0 c ≡ true → strchr (59 ∷ []) c ≡ false
unfolding strchr
stop_list c h = ground arith

-- what follows the commands and the & of a line
Follow-symbol :
    (k c : ℕ) (t : List ℕ)
    → (strchr single c && not (strchr whitespace c) && not (c == 0)) ≡ true
    → stop k c ≡ true
    → Follow k (32 ∷ c ∷ t)
Follow-symbol k c t one h = inr (c, t, skip_symbol c one t, h)

pub Follow-backs : (n : ℕ) (rest : List ℕ) → Follow 1 rest → Follow 2 (backs_text n rest)
unfolding backs_text strchr
Follow-backs zero rest end = Follow-more 1 2 rest (λ c h. ground arith) end
Follow-backs (suc n) rest end = Follow-symbol 2 38 (backs_text n rest) refl refl

pub backs_text-apart :
    (n : ℕ) (rest : List ℕ) → apart rest ≡ true → apart (backs_text n rest) ≡ true
unfolding backs_text apart
backs_text-apart zero rest h = h
backs_text-apart (suc n) rest h = refl

pub space_apart : (s : List ℕ) → apart (32 ∷ s) ≡ true
unfolding apart
space_apart s = refl

pub Follow-list : (t : List ℕ) → Follow 1 (32 ∷ 59 ∷ t)
unfolding strchr
Follow-list t = Follow-symbol 1 59 t refl refl

pub Follow-pipe : (t : List ℕ) → Follow 3 (32 ∷ 124 ∷ t)
unfolding strchr
Follow-pipe t = Follow-symbol 3 124 t refl refl

pub Follow-block : (t : List ℕ) → Follow 0 (32 ∷ 41 ∷ t)
unfolding strchr
Follow-block t = Follow-symbol 0 41 t refl refl
