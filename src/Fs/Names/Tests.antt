-- ===== src/Fs/Names/Tests.antt =====
-- Tests of names and paths.
use oslab.Prelude.{
  ℕ, ◌+◌, ◌≡◌, refl, true, false, List, [], ◌∷◌, none, some, ◌==◌, if◌then◌else◌, arith,
}
use oslab.Prelude.Run.{done}
use oslab.Fs.Names.{Node, Dirent, skipelem, dirlookup_loop, same_name, dirlink, namex}
use oslab.Fs.Names.Link.{dirlink_lem}
use oslab.Fs.Names.Elements.{names_of, names_from}
use oslab.Fs.Names.Resolve.Target
use oslab.Fs.Names.Resolve.{namex_lem}
use oslab.Fs.Names.Resolve.Target.{target, found_ref}

-- "///a//bb"
skips_slashes : skipelem (47 ∷ 47 ∷ 47 ∷ 97 ∷ 47 ∷ 47 ∷ 98 ∷ 98 ∷ []) ≡ some (97 ∷ [], 98 ∷ 98 ∷ [])
unfolding skipelem
skips_slashes = refl

-- "////"
no_element : skipelem (47 ∷ 47 ∷ 47 ∷ 47 ∷ []) ≡ none
unfolding skipelem
no_element = refl

-- The root is inode 1 with a directory "a", inode 2, in which there is a file "b", inode 3.
abbrev nodes : ℕ → Node
nodes ip =
    if ip == 1
    then record { is_dir = true; entries = record { inum = 2; name = 97 ∷ [] } ∷ [] }
    else if ip == 2
    then record {
      is_dir = true;
      entries = record { inum = 0; name = 98 ∷ [] } ∷ record { inum = 3; name = 98 ∷ [] } ∷ [];
    }
    else record { is_dir = false; entries = [] }

-- "/a//b"
abbrev sample_path : List ℕ
sample_path = 47 ∷ 97 ∷ 47 ∷ 47 ∷ 98 ∷ []

abbrev no_refs : ℕ → ℕ
no_refs ip = 0

found_3 : target nodes false 1 (names_of sample_path) ≡ some (3, [])
unfolding names_from Target.follow
found_3 = refl

namex_example :
    (more : ℕ → ℕ) × (namex nodes 6 true 2 sample_path no_refs
      ≡ done (target nodes true 1 (names_of sample_path), more))
    × ((g : ℕ) → more g ≡ no_refs g + found_ref (target nodes true 1 (names_of sample_path)) g)
namex_example = namex_lem nodes 6 true 2 sample_path no_refs (omega arith)

-- "c" is linked to inode 9 in the place of the empty entry.
dirlink_example :
    (more : List Dirent) × (dirlink true ((nodes 2).entries) (99 ∷ []) 9 ≡ some more)
    × ((key : List ℕ)
        → dirlookup_loop more key
          ≡ (if same_name key (99 ∷ []) then some 9 else dirlookup_loop ((nodes 2).entries) key))
unfolding dirlookup_loop
dirlink_example =
    dirlink_lem ((nodes 2).entries) (99 ∷ []) 9 (λ e. omega (arith, e)) (omega arith) refl refl
