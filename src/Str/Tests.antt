-- ===== src/Str/Tests.antt =====
-- The theorems on kernel/string.c at a small memory, and runs of its functions.
use oslab.Prelude.{◌+◌, ◌-◌, if◌then◌else◌, ◌≡◌, refl, [], ◌∷◌, get_or}
use oslab.Prelude.Int.{pos, negsuc}
use oslab.Str.{Memory, memcmp, memmove, strncmp}
use oslab.Str.Copy.{in_range, memmove_lem}
use oslab.Str.Compare.{bytes}

-- "init" with its NUL at 0, "in" at 8
abbrev text : Memory
text a = get_or (105 ∷ 110 ∷ 105 ∷ 116 ∷ 0 ∷ 1 ∷ 1 ∷ 1 ∷ 105 ∷ 110 ∷ 0 ∷ []) a 7

memmove_overlap : bytes (memmove text 2 0 4) 0 6 ≡ 105 ∷ 110 ∷ 105 ∷ 110 ∷ 105 ∷ 116 ∷ []
unfolding memmove
memmove_overlap = refl

strncmp_longer : strncmp text 0 8 9 ≡ pos 105
unfolding strncmp
strncmp_longer = refl

memcmp_order : memcmp text 8 0 3 ≡ negsuc 104
unfolding memcmp
memcmp_order = refl

-- the copy overlaps its source
memmove_lem_example : memmove text 2 0 4 5 ≡ (if in_range 2 4 5 then text (0 + (5 - 2)) else text 5)
memmove_lem_example = memmove_lem text 2 0 4 5
