-- ===== src/Grep/Tests.antt =====
-- Runs of the matcher of user/grep.c.
use oslab.Prelude.{◌≡◌, ◌↔◌, refl, true, false, [], ◌∷◌}
use oslab.Grep.{matchstar, matchone, matchhere, match_loop, match}
use oslab.Grep.Matching.{Means, match_iff}

-- "^b.*a" in "bca"
match_iff_example :
    (match (94 ∷ 98 ∷ 46 ∷ 42 ∷ 97 ∷ []) (98 ∷ 99 ∷ 97 ∷ []) ≡ true)
    ↔ Means (94 ∷ 98 ∷ 46 ∷ 42 ∷ 97 ∷ []) (98 ∷ 99 ∷ 97 ∷ [])
match_iff_example = match_iff (94 ∷ 98 ∷ 46 ∷ 42 ∷ 97 ∷ []) (98 ∷ 99 ∷ 97 ∷ [])

match_run : match (98 ∷ 42 ∷ 99 ∷ 36 ∷ []) (97 ∷ 98 ∷ 98 ∷ 99 ∷ []) ≡ true
unfolding match match_loop matchhere matchstar matchone
match_run = refl

-- "b$" in "ba"
match_no : match (98 ∷ 36 ∷ []) (98 ∷ 97 ∷ []) ≡ false
unfolding match match_loop matchhere matchstar matchone
match_no = refl
