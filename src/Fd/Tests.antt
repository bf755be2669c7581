-- ===== src/Fd/Tests.antt =====
-- Tests of the open files.
use oslab.Prelude.{ℕ, ◌+◌, ◌≡◌, refl, none, some, List, [], ◌∷◌, replicate, length, get_or}
use oslab.Prelude.Run.{done}
use oslab.Fd.{Table}
use oslab.Fd.Files.{Ftable, fd_inode, Release, exit_files}
use oslab.Fd.Refs.{IsCounted, Closes, count, sys_close-IsCounted, exit_files-IsCounted}

-- File 0 is at descriptors 0 and 1, and file 2 is open elsewhere.
abbrev ofile : Table ℕ
ofile = some 0 ∷ some 0 ∷ none ∷ none ∷ []

abbrev others : ℕ → ℕ
others f = get_or (0 ∷ 0 ∷ 1 ∷ []) f 0

abbrev table : Ftable
table = record { ref = λ f. others f + count f ofile; kind = λ f. fd_inode }

table-IsCounted : IsCounted table others ofile
table-IsCounted f = refl

sys_close-IsCounted_example : Closes table others ofile 1
sys_close-IsCounted_example = sys_close-IsCounted table others ofile 1 table-IsCounted

exit_files-IsCounted_example :
    (t2 : Ftable) × (out : List Release) × (exit_files table ofile
      ≡ done (t2, replicate (length ofile) none, out))
    × ((f : ℕ) → t2.ref f ≡ others f)
exit_files-IsCounted_example = exit_files-IsCounted table others ofile table-IsCounted
