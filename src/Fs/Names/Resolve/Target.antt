-- ===== src/Fs/Names/Resolve/Target.antt =====
-- What the names of a path lead to, and the references that kernel/fs.c holds on the way.
use oslab.Prelude.{
  ℕ, ◌+◌, ◌≡◌, ◌≢◌, Bool, true, false, List, [], ◌∷◌, Option, none, some, ◌==◌, if◌then◌else◌,
  arith,
}
use oslab.Fs.Names.{Node, dirlookup_loop, hold, let_go}

-- the inode of a name in a directory
abbrev pub child : (ℕ → Node) → ℕ → List ℕ → Option ℕ
child nodes ip name = if (nodes ip).is_dir then dirlookup_loop (nodes ip).entries name else none

-- the inode that names lead to, and the directory of the last of them
unfoldable pub follow : (ℕ → Node) → ℕ → List (List ℕ) → Option (ℕ × List ℕ)
unfolding dirlookup_loop
follow nodes ip [] = some (ip, [])
follow nodes ip (name ∷ names) = elim (child nodes ip name) [
  | none ↦ none
  | some next ↦ follow nodes next names
]

unfoldable pub follow_parent : (ℕ → Node) → ℕ → List (List ℕ) → Option (ℕ × List ℕ)
unfolding dirlookup_loop
follow_parent nodes ip [] = none
follow_parent nodes ip (name ∷ []) = if (nodes ip).is_dir then some (ip, name) else none
follow_parent nodes ip (name ∷ more ∷ names) = elim (child nodes ip name) [
  | none ↦ none
  | some next ↦ follow_parent nodes next (more ∷ names)
]

abbrev pub target : (ℕ → Node) → Bool → ℕ → List (List ℕ) → Option (ℕ × List ℕ)
target nodes true = follow_parent nodes
target nodes false = follow nodes

-- one reference to an inode, and to the one that was found
abbrev pub one : ℕ → ℕ → ℕ
one ip g = if ip == g then 1 else 0

abbrev pub found_ref : Option (ℕ × List ℕ) → ℕ → ℕ
found_ref none g = 0
found_ref (some (ip, name)) g = one ip g

pub move_ref :
    (refs : ℕ → ℕ) (ip next g : ℕ)
    → refs ip ≢ 0
    → let_go (hold refs next) ip g + one ip g ≡ refs g + one next g
move_ref refs ip next g held = ground arith

pub moved_held : (refs : ℕ → ℕ) (ip next : ℕ) → refs ip ≢ 0 → let_go (hold refs next) ip next ≢ 0
moved_held refs ip next held = ground arith

pub drop_ref : (refs : ℕ → ℕ) (ip g : ℕ) → refs ip ≢ 0 → let_go refs ip g + one ip g ≡ refs g + 0
drop_ref refs ip g held = ground arith
