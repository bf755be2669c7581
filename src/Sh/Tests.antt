-- ===== src/Sh/Tests.antt =====
-- Tests of user/sh.c.
use oslab.Prelude.{ℕ, ◌≡◌, refl, Bool, true, List, [], ◌∷◌}
use oslab.Prelude.Run.{done, panic}
use oslab.Sh.{Cmd, exec, redir, pipe, list, back, in_word}
use oslab.Sh.Parser.{parsecmd}
use oslab.Sh.Syntax.{
  append, input, Line, last, before, into, only, command, block, line_text, line_cmd, is_line,
}
use oslab.Sh.Total.{EndsInside, parsecmd-EndsInside}
use oslab.Sh.RoundTrip.{parsecmd-line_text}
use oslab.Sh.Runcmd.{meaning, standard, given}
use oslab.Sh.Main.{main_step, main_step_lem, child, act}

-- "a b>c | (d &; e)\n"
abbrev sample_text : List ℕ
sample_text =
    97 ∷ 32 ∷ 98 ∷ 62 ∷ 99 ∷ 32 ∷ 124 ∷ 32 ∷ 40 ∷ 100 ∷ 32 ∷ 38 ∷ 59 ∷ 32 ∷ 101 ∷ 41 ∷ 10 ∷ []

abbrev sample_cmd : Cmd
sample_cmd =
    pipe (redir (exec ((97 ∷ []) ∷ (98 ∷ []) ∷ [])) (99 ∷ []) 1537 1)
      (list (back (exec ((100 ∷ []) ∷ []))) (exec ((101 ∷ []) ∷ [])))

sample : parsecmd sample_text ≡ done sample_cmd
unfolding parsecmd
sample = refl

-- ")"
stray : parsecmd (41 ∷ []) ≡ panic "syntax"
unfolding parsecmd
stray = refl

-- "(a"
unclosed : parsecmd (40 ∷ 97 ∷ []) ≡ panic "syntax - missing )"
unfolding parsecmd
unclosed = refl

-- "a <"
no_file : parsecmd (97 ∷ 32 ∷ 60 ∷ []) ≡ panic "missing file for redirection"
unfolding parsecmd
no_file = refl

-- "0 1 2 3 4 5 6 7 8 9"
ten_words :
    parsecmd (
      48 ∷ 32 ∷ 49 ∷ 32 ∷ 50 ∷ 32 ∷ 51 ∷ 32 ∷ 52 ∷ 32 ∷ 53 ∷ 32 ∷ 54 ∷ 32 ∷ 55 ∷ 32 ∷ 56 ∷ 32 ∷ 57
      ∷ [])
    ≡ panic "too many args"
unfolding parsecmd
ten_words = refl

parsecmd-EndsInside_example : EndsInside (parsecmd sample_text)
parsecmd-EndsInside_example = parsecmd-EndsInside sample_text

-- " ( a b >> c & ; d ) | e < f &"
abbrev sample_line : Line
sample_line =
    last
      (into
        (block
          (before (only (command [] ((97 ∷ [], []) ∷ (98 ∷ [], (append, 99 ∷ []) ∷ []) ∷ []))) 1
            (last (only (command [] ((100 ∷ [], []) ∷ []))) 0))
          [])
        (only (command [] ((101 ∷ [], (input, 102 ∷ []) ∷ []) ∷ []))))
      1

parsecmd-line_text_example :
    parsecmd (line_text sample_line (10 ∷ [])) ≡ done (line_cmd sample_line)
unfolding line_cmd is_line in_word
parsecmd-line_text_example = parsecmd-line_text sample_line (10 ∷ []) refl refl

abbrev all_open : List ℕ → ℕ → Bool
all_open file mode = true

main_step_lem_example :
    main_step all_open sample_text (standard (given 0) (given 1) (given 2))
    ≡ child
        (act (λ cmd. meaning all_open (given 2) cmd [] (given 0) (given 1)) (parsecmd sample_text))
main_step_lem_example = main_step_lem all_open sample_text (given 0) (given 1) (given 2) refl
