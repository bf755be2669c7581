-- ===== src/Grep.antt =====
-- user/grep.c, the matcher. A C string is the list of its bytes before the zero byte.
pub mod Matching
mod Tests
use oslab.Prelude.{ℕ, zero, suc, Bool, true, false, ◌&&◌, ◌||◌, List, [], ◌∷◌, ◌==◌, if◌then◌else◌}

-- the characters ^ . * $
abbrev pub caret : ℕ
caret = 94

abbrev pub dot : ℕ
dot = 46

abbrev pub star : ℕ
star = 42

abbrev pub dollar : ℕ
dollar = 36

abbrev pub is_end : List ℕ → Bool
is_end [] = true
is_end (x ∷ text) = false

-- matchstar, where `here` is its call of matchhere
pub matchstar : (List ℕ → Bool) → ℕ → List ℕ → Bool
matchstar here c [] = here []
matchstar here c (x ∷ text) =
    let rest = matchstar here c text in here (x ∷ text) || ((x == c || c == dot) && rest)

-- one character that is not before a star; `here` is matchhere of the rest of the expression
pub matchone : (List ℕ → Bool) → ℕ → List ℕ → Bool
matchone here c [] = false
matchone here c (x ∷ text) = (c == dot || c == x) && here text

pub matchhere : List ℕ → List ℕ → Bool
matchhere [] text = true
matchhere (c ∷ []) text = if c == dollar then is_end text else matchone (matchhere []) c text
matchhere (c ∷ d ∷ re) text =
    let starred = matchstar (matchhere re) c text in
    let single = matchone (matchhere (d ∷ re)) c text in if d == star then starred else single

-- the loop of match
pub match_loop : List ℕ → List ℕ → Bool
match_loop re [] = matchhere re []
match_loop re (x ∷ text) = let rest = match_loop re text in matchhere re (x ∷ text) || rest

pub match : List ℕ → List ℕ → Bool
match [] text = match_loop [] text
match (c ∷ re) text = if c == caret then matchhere re text else match_loop (c ∷ re) text
