-- ===== src/Sh/RoundTrip.antt =====
-- The parser of user/sh.c reads a written line back.
use oslab.Prelude.{
  ℕ, zero, suc, ◌<◌, ◌≤◌, ◌≡◌, refl, ap, ◌∙◌, inl, Bool, true, ◌&&◌, List, [], ◌∷◌, arith, length,
}
use oslab.Prelude.Run.{done, ◌>>=◌}
use oslab.Sh.{Cmd, pipe, list, strchr, skip_white, at, whitespace}
use oslab.Sh.Steps.{left, pipe_last, pipe_more, line_last, line_more}
use oslab.Sh.Lexer.{skip_white-skip_white, at-lt}
use oslab.Sh.Parser.{parseexec, parsepipe, parseline, parsecmd}
use oslab.Sh.Syntax.{
  Line, last, before, Pipeline, only, into, Simple, command, block, redirs_text, backs_text,
  line_text, pipeline_text, simple_text, backs, line_cmd, pipeline_cmd, simple_cmd, is_line,
  is_pipeline, is_simple,
}
use oslab.Sh.Written.{apart, next_symbol, at_symbol, Follow, Follow-not_at, Follow-more}
use oslab.Sh.Args.{Parsed-done, Fits}
use oslab.Sh.Total.{parseexec-Parsed, parsepipe-Parsed, parsebacks-Parsed, parseline-Parsed}
use oslab.Sh.Blocks.{
  command_lem, block_lem, backs_lem, stop_pipe, stop_list, Follow-list, Follow-pipe, Follow-block,
  Follow-backs, backs_text-apart, space_apart,
}

-- a pipeline ends, or goes on behind a |
module _ (fuel n : ℕ) (rest s : List ℕ) (cmd : Cmd) (le : length s ≤ fuel) where
  pipe_ends :
      parseexec (parseline fuel) s ≡ done (cmd, skip_white rest)
      → Follow 2 rest
      → parsepipe (parseline fuel) (suc n) s ≡ done (cmd, skip_white rest)
  pipe_ends r end =
      pipe_last (parseline fuel) s n cmd (skip_white rest) r (
        ap (at (124 ∷ [])) (skip_white-skip_white rest)
        ∙ Follow-not_at 2 rest (124 ∷ []) stop_pipe end)
      ∙ ap (λ t. done (cmd, t)) (skip_white-skip_white rest)

  pipe_goes_on :
      (more : List ℕ) (right : Cmd)
      → parseexec (parseline fuel) s ≡ done (cmd, skip_white (32 ∷ 124 ∷ more))
      → (length (skip_white more) < length s
          → parsepipe (parseline fuel) n (skip_white more) ≡ done (right, skip_white rest))
      → parsepipe (parseline fuel) (suc n) s ≡ done (pipe cmd right, skip_white rest)
  unfolding strchr
  pipe_goes_on more right r behind =
      let t = skip_white (32 ∷ 124 ∷ more) in
      let again = skip_white-skip_white (32 ∷ 124 ∷ more) in
      let found = at_symbol 124 refl more t again (124 ∷ []) refl in
      let first = next_symbol 124 refl more t again in
      let less =
        Parsed-done Fits (length s) _ cmd t
          (parseexec-Parsed (parseline fuel) fuel (parseline-Parsed fuel) s le) r in
      pipe_more (parseline fuel) s n cmd t r found
      ∙ ap (λ u. parsepipe (parseline fuel) n (left u) >>= λ (q, w). done (pipe cmd q, w)) first
      ∙ ap (λ p. p >>= λ (q, w). done (pipe cmd q, w))
          (behind
            (omega (arith, less.1, at-lt t (124 ∷ []) found, ap (λ u. length (left u)) first)))

-- a line ends, or goes on behind a ;
module _ (fuel n : ℕ) (rest s : List ℕ) (cmd : Cmd) (lt : length s < suc fuel) where
  line_ends :
      parsepipe (parseline fuel) (suc (length s)) s ≡ done (cmd, skip_white (backs_text n rest))
      → Follow 0 rest
      → parseline (suc fuel) s ≡ done (backs n cmd, skip_white rest)
  line_ends r end =
      let t = skip_white (backs_text n rest) in
      let b =
        backs_lem n rest (suc (length t)) cmd t (skip_white-skip_white (backs_text n rest))
          (Follow-more 0 1 rest (λ c h. ground arith) end) (omega arith) in
      line_last fuel s cmd (backs n cmd) t (skip_white rest) r b (
        ap (at (59 ∷ [])) (skip_white-skip_white rest)
        ∙ Follow-not_at 0 rest (59 ∷ []) stop_list end)
      ∙ ap (λ t. done (backs n cmd, t)) (skip_white-skip_white rest)

  line_goes_on :
      (more : List ℕ) (right : Cmd)
      → parsepipe (parseline fuel) (suc (length s)) s
        ≡ done (cmd, skip_white (backs_text n (32 ∷ 59 ∷ more)))
      → (length (skip_white more) < length s
          → parseline fuel (skip_white more) ≡ done (right, skip_white rest))
      → parseline (suc fuel) s ≡ done (list (backs n cmd) right, skip_white rest)
  unfolding strchr
  line_goes_on more right r behind =
      let t = skip_white (backs_text n (32 ∷ 59 ∷ more)) in
      let b =
        backs_lem n (32 ∷ 59 ∷ more) (suc (length t)) cmd t
          (skip_white-skip_white (backs_text n (32 ∷ 59 ∷ more))) (Follow-list more)
          (omega arith) in
      let u = skip_white (32 ∷ 59 ∷ more) in
      let again = skip_white-skip_white (32 ∷ 59 ∷ more) in
      let found = at_symbol 59 refl more u again (59 ∷ []) refl in
      let first = next_symbol 59 refl more u again in
      let (fits, le) =
        Parsed-done Fits (length s) _ cmd t
          (parsepipe-Parsed (parseline fuel) fuel (parseline-Parsed fuel) (suc (length s)) s
            (omega arith) (omega arith))
          r in
      let (fits2, le2) =
        Parsed-done Fits (length t) _ (backs n cmd) u
          (parsebacks-Parsed (suc (length t)) cmd t (omega arith) fits) b in
      line_more fuel s cmd (backs n cmd) t u r b found
      ∙ ap (λ v. parseline fuel (left v) >>= λ (q, x). done (list (backs n cmd) q, x)) first
      ∙ ap (λ p. p >>= λ (q, x). done (list (backs n cmd) q, x))
          (behind
            (omega (arith, le, le2, at-lt u (59 ∷ []) found, ap (λ v. length (left v)) first)))

mutual
  unfolding line_text pipeline_text simple_text line_cmd pipeline_cmd simple_cmd is_line is_pipeline
      is_simple

  line_lem :
      (l : Line) (rest : List ℕ) (fuel : ℕ) (s : List ℕ)
      → skip_white s ≡ skip_white (line_text l rest)
      → is_line l ≡ true
      → apart rest ≡ true
      → Follow 0 rest
      → length s < fuel
      → parseline fuel s ≡ done (line_cmd l, skip_white rest)
  line_lem l rest zero s e ok sep end lt = absurd (omega arith)
  line_lem (last p n) rest (suc fuel) s e ok sep end lt =
      line_ends fuel n rest s (pipeline_cmd p) lt
        (pipeline_lem p (backs_text n rest) fuel (suc (length s)) s e ok
          (backs_text-apart n rest sep)
          (Follow-backs n rest (Follow-more 0 1 rest (λ c h. ground arith) end)) (omega arith)
          (omega arith))
        end
  line_lem (before p n l) rest (suc fuel) s e ok sep end lt =
      let more = line_text l rest in
      line_goes_on fuel n rest s (pipeline_cmd p) lt more (line_cmd l)
        (pipeline_lem p (backs_text n (32 ∷ 59 ∷ more)) fuel (suc (length s)) s e
          (ground (arith, ok)) (backs_text-apart n (32 ∷ 59 ∷ more) (space_apart (59 ∷ more)))
          (Follow-backs n (32 ∷ 59 ∷ more) (Follow-list more)) (omega arith) (omega arith))
        (λ less.
          line_lem l rest fuel (skip_white more) (skip_white-skip_white more) (ground (arith, ok))
            sep end (omega (arith, less, lt)))

  pipeline_lem :
      (p : Pipeline) (rest : List ℕ) (fuel n : ℕ) (s : List ℕ)
      → skip_white s ≡ skip_white (pipeline_text p rest)
      → is_pipeline p ≡ true
      → apart rest ≡ true
      → Follow 2 rest
      → length s ≤ fuel
      → length s < n
      → parsepipe (parseline fuel) n s ≡ done (pipeline_cmd p, skip_white rest)
  pipeline_lem p rest fuel zero s e ok sep end le lt = absurd (omega arith)
  pipeline_lem (only c) rest fuel (suc n) s e ok sep end le lt =
      pipe_ends fuel n rest s (simple_cmd c) le
        (simple_lem c rest fuel s e ok sep (Follow-more 2 3 rest (λ d h. ground arith) end) le) end
  pipeline_lem (into c p) rest fuel (suc n) s e ok sep end le lt =
      let more = pipeline_text p rest in
      pipe_goes_on fuel n rest s (simple_cmd c) le more (pipeline_cmd p)
        (simple_lem c (32 ∷ 124 ∷ more) fuel s e (ground (arith, ok)) (space_apart (124 ∷ more))
          (Follow-pipe more) le)
        (λ less.
          pipeline_lem p rest fuel n (skip_white more) (skip_white-skip_white more)
            (ground (arith, ok)) sep end (omega (arith, less, le)) (omega (arith, less, lt)))

  simple_lem :
      (c : Simple) (rest : List ℕ) (fuel : ℕ) (s : List ℕ)
      → skip_white s ≡ skip_white (simple_text c rest)
      → is_simple c ≡ true
      → apart rest ≡ true
      → Follow 3 rest
      → length s ≤ fuel
      → parseexec (parseline fuel) s ≡ done (simple_cmd c, skip_white rest)
  simple_lem (command rs ws) rest fuel s e ok sep end le =
      command_lem (parseline fuel) rs ws rest s e (ground (arith, ok)) (ground (arith, ok))
        (ground (arith, ok)) sep end
  simple_lem (block l rs) rest fuel s e ok sep end le =
      block_lem fuel l rs rest s
        (λ u same lt.
          line_lem l (32 ∷ 41 ∷ redirs_text rs rest) fuel u same (ground (arith, ok))
            (space_apart (41 ∷ redirs_text rs rest)) (Follow-block (redirs_text rs rest)) lt)
        e (ground (arith, ok)) sep end le

-- white space only
abbrev pub all_white : List ℕ → Bool
all_white [] = true
all_white (c ∷ s) = strchr whitespace c && all_white s

skip_white-all_white : (s : List ℕ) → all_white s ≡ true → skip_white s ≡ []
unfolding skip_white
skip_white-all_white [] h = refl
skip_white-all_white (c ∷ s) h = ground (arith, skip_white-all_white s)

white_apart : (s : List ℕ) → all_white s ≡ true → apart s ≡ true
unfolding apart
white_apart [] h = refl
white_apart (c ∷ s) h = ground arith

-- parsecmd, called with the text of a line and white space behind it, returns the command that the line
-- means: a line of pipelines with ; and & between simple commands and lines in parentheses, with
-- redirections. Each word has characters and none that is white, a symbol or zero, and a command has at most
-- nine arguments.
pub parsecmd-line_text :
    (l : Line) (blank : List ℕ)
    → is_line l ≡ true
    → all_white blank ≡ true
    → parsecmd (line_text l blank) ≡ done (line_cmd l)
unfolding parsecmd
parsecmd-line_text l blank ok white =
    let s = line_text l blank in
    let none = skip_white-all_white blank white in
    let r =
      line_lem l blank (suc (length s)) s refl ok (white_apart blank white) (inl none)
        (omega arith) in
    rw r (rw none refl)
