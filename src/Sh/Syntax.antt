-- ===== src/Sh/Syntax.antt =====
-- The commands that user/sh.c can read, as they are written, and what is read from them.
use oslab.Prelude.{
  ℕ, zero, suc, Bool, true, false, not, ◌&&◌, List, [], ◌∷◌, ◌++◌, ◌==◌, ltb, length,
}
use oslab.Sh.{Cmd, exec, redir, pipe, list, back, max_args, in_word}
use oslab.Sh.Parser.{read_mode, write_mode, append_mode}

-- < > >>
pub data Arrow : Type 0 where
  input output append : Arrow

-- redirections, and the arguments of a command with those behind each
abbrev pub Redirs : Type 0
Redirs = List (Arrow × List ℕ)

abbrev pub Words : Type 0
Words = List (List ℕ × Redirs)

-- A pipeline has as many & behind it as the number says.
mutual
  pub data Line : Type 0 where
    last : Pipeline → ℕ → Line
    before : Pipeline → ℕ → Line → Line

  pub data Pipeline : Type 0 where
    only : Simple → Pipeline
    into : Simple → Pipeline → Pipeline

  pub data Simple : Type 0 where
    command : Redirs → Words → Simple
    block : Line → Redirs → Simple

abbrev pub arrow_text : Arrow → List ℕ → List ℕ
arrow_text input rest = 60 ∷ rest
arrow_text output rest = 62 ∷ rest
arrow_text append rest = 62 ∷ 62 ∷ rest

-- Each function writes its text in front of `rest`, with a space in front of every token.
unfoldable pub redirs_text : Redirs → List ℕ → List ℕ
redirs_text [] rest = rest
redirs_text ((a, w) ∷ rs) rest = 32 ∷ arrow_text a (32 ∷ w ++ redirs_text rs rest)

unfoldable pub words_text : Words → List ℕ → List ℕ
unfolding redirs_text
words_text [] rest = rest
words_text ((w, rs) ∷ ws) rest = 32 ∷ w ++ redirs_text rs (words_text ws rest)

unfoldable pub backs_text : ℕ → List ℕ → List ℕ
backs_text zero rest = rest
backs_text (suc n) rest = 32 ∷ 38 ∷ backs_text n rest

unfoldable mutual
  unfolding redirs_text words_text backs_text

  pub line_text : Line → List ℕ → List ℕ
  line_text (last p n) rest = pipeline_text p (backs_text n rest)
  line_text (before p n l) rest = pipeline_text p (backs_text n (32 ∷ 59 ∷ line_text l rest))

  pub pipeline_text : Pipeline → List ℕ → List ℕ
  pipeline_text (only c) rest = simple_text c rest
  pipeline_text (into c p) rest = simple_text c (32 ∷ 124 ∷ pipeline_text p rest)

  pub simple_text : Simple → List ℕ → List ℕ
  simple_text (command rs ws) rest = redirs_text rs (words_text ws rest)
  simple_text (block l rs) rest = 32 ∷ 40 ∷ line_text l (32 ∷ 41 ∷ redirs_text rs rest)

-- what a redirection opens: the mode, and the file descriptor
abbrev pub mode_of : Arrow → ℕ
mode_of input = read_mode
mode_of output = write_mode
mode_of append = append_mode

abbrev pub fd_of : Arrow → ℕ
fd_of input = 0
fd_of output = 1
fd_of append = 1

-- the redirections around a command, the last one outside
abbrev pub with_redirs : Redirs → Cmd → Cmd
with_redirs [] cmd = cmd
with_redirs ((a, w) ∷ rs) cmd = with_redirs rs (redir cmd w (mode_of a) (fd_of a))

abbrev pub arguments : Words → List (List ℕ)
arguments [] = []
arguments ((w, rs) ∷ ws) = w ∷ arguments ws

abbrev pub redirs_among : Words → Redirs
redirs_among [] = []
redirs_among ((w, rs) ∷ ws) = rs ++ redirs_among ws

abbrev pub backs : ℕ → Cmd → Cmd
backs zero cmd = cmd
backs (suc n) cmd = backs n (back cmd)

unfoldable mutual
  pub line_cmd : Line → Cmd
  line_cmd (last p n) = backs n (pipeline_cmd p)
  line_cmd (before p n l) = list (backs n (pipeline_cmd p)) (line_cmd l)

  pub pipeline_cmd : Pipeline → Cmd
  pipeline_cmd (only c) = simple_cmd c
  pipeline_cmd (into c p) = pipe (simple_cmd c) (pipeline_cmd p)

  pub simple_cmd : Simple → Cmd
  simple_cmd (command rs ws) = with_redirs (rs ++ redirs_among ws) (exec (arguments ws))
  simple_cmd (block l rs) = with_redirs rs (line_cmd l)

-- words are not empty and have no white space, no symbol and no zero byte
abbrev pub all_in_word : List ℕ → Bool
all_in_word [] = true
all_in_word (c ∷ w) = not (c == 0) && in_word c && all_in_word w

abbrev pub is_word : List ℕ → Bool
is_word [] = false
is_word (c ∷ w) = all_in_word (c ∷ w)

unfoldable pub are_redirs : Redirs → Bool
are_redirs [] = true
are_redirs ((a, w) ∷ rs) = is_word w && are_redirs rs

unfoldable pub are_words : Words → Bool
unfolding are_redirs
are_words [] = true
are_words ((w, rs) ∷ ws) = is_word w && are_redirs rs && are_words ws

-- such words, and at most nine of them in each command
unfoldable mutual
  unfolding are_redirs are_words

  pub is_line : Line → Bool
  is_line (last p n) = is_pipeline p
  is_line (before p n l) = is_pipeline p && is_line l

  pub is_pipeline : Pipeline → Bool
  is_pipeline (only c) = is_simple c
  is_pipeline (into c p) = is_simple c && is_pipeline p

  pub is_simple : Simple → Bool
  is_simple (command rs ws) = are_redirs rs && are_words ws && ltb (length ws) max_args
  is_simple (block l rs) = is_line l && are_redirs rs
