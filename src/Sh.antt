-- ===== src/Sh.antt =====
-- user/sh.c: the commands of the shell, and its lexer. The parser is in Parser. A line is the list of its
-- bytes before the zero byte. Where the code keeps a pointer into the line, the model keeps the bytes that
-- are left, and a token is the list of its bytes.
pub mod Parser
mod Lexer
mod Steps
mod Written
mod Words
mod Blocks
pub mod Syntax
pub mod RoundTrip
pub mod Args
pub mod Total
pub mod Runcmd
pub mod Main
mod Tests
use oslab.Prelude.{
  ℕ, zero, suc, ◌+◌, Bool, true, false, not, ◌&&◌, ◌||◌, List, [], ◌∷◌, ◌++◌, ◌==◌, if◌then◌else◌,
}

-- struct cmd: the type of a command and the structures behind it
pub data Cmd : Type 0 where
  exec : List (List ℕ) → Cmd
  redir : Cmd → List ℕ → ℕ → ℕ → Cmd
  pipe : Cmd → Cmd → Cmd
  list : Cmd → Cmd → Cmd
  back : Cmd → Cmd

abbrev pub max_args : ℕ
max_args = 10

-- " \t\r\n\v"
abbrev pub whitespace : List ℕ
whitespace = 32 ∷ 9 ∷ 13 ∷ 10 ∷ 11 ∷ []

-- "<|>&;()"
abbrev pub symbols : List ℕ
symbols = 60 ∷ 124 ∷ 62 ∷ 38 ∷ 59 ∷ 40 ∷ 41 ∷ []

-- the symbols of which each is a token: | ( ) ; & <
abbrev pub single : List ℕ
single = 124 ∷ 40 ∷ 41 ∷ 59 ∷ 38 ∷ 60 ∷ []

-- whether strchr finds a character in a string
unfoldable pub strchr : List ℕ → ℕ → Bool
strchr [] c = false
strchr (d ∷ s) c = d == c || strchr s c

-- `while(s < es && strchr(whitespace, *s)) s++;`
unfoldable pub skip_white : List ℕ → List ℕ
unfolding strchr
skip_white [] = []
skip_white (c ∷ s) = let rest = skip_white s in if strchr whitespace c then rest else c ∷ s

unfoldable pub in_word : ℕ → Bool
unfolding strchr
in_word c = not (strchr whitespace c) && not (strchr symbols c)

-- the loop of gettoken over a word: its characters, and what is behind it
unfoldable pub word : List ℕ → List ℕ
unfolding in_word
word [] = []
word (c ∷ s) = let rest = word s in if in_word c then c ∷ rest else []

unfoldable pub behind_word : List ℕ → List ℕ
unfolding in_word
behind_word [] = []
behind_word (c ∷ s) = let rest = behind_word s in if in_word c then rest else c ∷ s

-- the case of '>'
unfoldable pub greater : List ℕ → ℕ × List ℕ × List ℕ
unfolding skip_white
greater [] = (62, 62 ∷ [], [])
greater (d ∷ s) =
    if d == 62 then (43, 62 ∷ 62 ∷ [], skip_white s) else (62, 62 ∷ [], skip_white (d ∷ s))

-- gettoken behind its first loop
unfoldable pub token : List ℕ → ℕ × List ℕ × List ℕ
unfolding strchr skip_white word behind_word greater
token [] = (0, [], [])
token (c ∷ s) =
    if c == 0
    then (0, [], c ∷ s)
    else if strchr single c
    then (c, c ∷ [], skip_white s)
    else if c == 62
    then greater s
    else (97, word (c ∷ s), skip_white (behind_word (c ∷ s)))

-- the kind of the next token, its characters, and what is left
unfoldable pub gettoken : List ℕ → ℕ × List ℕ × List ℕ
unfolding skip_white token
gettoken s = token (skip_white s)

unfoldable pub at : List ℕ → List ℕ → Bool
unfolding strchr
at toks [] = false
at toks (c ∷ s) = not (c == 0) && strchr toks c

-- whether the next character is one of `toks`, and what is left without the white space
unfoldable pub peek : List ℕ → List ℕ → Bool × List ℕ
unfolding skip_white at
peek s toks = (at toks (skip_white s), skip_white s)
