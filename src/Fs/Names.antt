-- ===== src/Fs/Names.antt =====
-- Names of kernel/fs.c: skipelem, dirlookup, dirlink and namex. A path is the list of its bytes before the zero byte,
-- and a name the list of its bytes before a zero byte, 14 at most, as namecmp compares them. A directory is
-- the list of its entries, which readi reads one after the other. `refs` is the reference count of each inode
-- in the table of inodes, in which iget finds a place. What iput frees with the last link is not modelled.
pub mod Elements
pub mod Link
pub mod Resolve
mod Tests
use oslab.Prelude.{
  ℕ, zero, suc, ◌+◌, ◌-◌, ◌%◌, ◌^◌, Bool, true, false, not, ◌&&◌, List, [], ◌∷◌, Option, none, some,
  ◌==◌, if◌then◌else◌, take, put,
}
use oslab.Prelude.Run.{Run, done, out_of_fuel}

abbrev pub dirsiz : ℕ
dirsiz = 14

abbrev pub slash : ℕ
slash = 47

abbrev pub root_ino : ℕ
root_ino = 1

-- the values of an inum in an entry, a ushort
abbrev pub ushort_mod : ℕ
ushort_mod = 2 ^ 16

-- struct dirent; the inum is a ushort, below 2 ^ 16
pub record Dirent : Type 0 where
  pub inum : ℕ
  pub name : List ℕ

-- what names need of an inode: whether its type is T_DIR, and its entries
pub record Node : Type 0 where
  pub is_dir : Bool
  pub entries : List Dirent

-- `while(*path == '/') path++;`
unfoldable pub skip_slashes : List ℕ → List ℕ
skip_slashes [] = []
skip_slashes (c ∷ path) = let rest = skip_slashes path in if c == slash then rest else c ∷ path

-- `while(*path != '/' && *path != 0) path++;`: the bytes up to there, and those that are left
unfoldable pub element : List ℕ → List ℕ
element [] = []
element (c ∷ path) = let rest = element path in if c == slash then [] else c ∷ rest

unfoldable pub behind_element : List ℕ → List ℕ
behind_element [] = []
behind_element (c ∷ path) = let rest = behind_element path in if c == slash then c ∷ path else rest

abbrev take_element : List ℕ → Option (List ℕ × List ℕ)
take_element [] = none
take_element (c ∷ path) =
    some (take dirsiz (element (c ∷ path)), skip_slashes (behind_element (c ∷ path)))

-- the name and the path behind it
unfoldable pub skipelem : List ℕ → Option (List ℕ × List ℕ)
unfolding skip_slashes element behind_element
skipelem path = take_element (skip_slashes path)

-- whether namecmp returns 0
abbrev pub same_name : List ℕ → List ℕ → Bool
same_name [] [] = true
same_name (c ∷ s) (d ∷ t) = c == d && same_name s t
same_name _ _ = false

-- the loop of dirlookup
unfoldable pub dirlookup_loop : List Dirent → List ℕ → Option ℕ
dirlookup_loop [] name = none
dirlookup_loop (de ∷ entries) name =
    let rest = dirlookup_loop entries name in
    if de.inum == 0 then rest else if same_name name (de.name) then some (de.inum) else rest

-- the reference that iget or idup makes, and the one that iput drops
abbrev pub hold : (ℕ → ℕ) → ℕ → ℕ → ℕ
hold refs ip = put refs ip (refs ip + 1)

abbrev pub let_go : (ℕ → ℕ) → ℕ → ℕ → ℕ
let_go refs ip = put refs ip (refs ip - 1)

abbrev pub is_end : List ℕ → Bool
is_end [] = true
is_end (c ∷ path) = false

-- The loop of namex, with fuel. It results in an inode, with the last name for nameiparent, or none, and in
-- the reference counts.
unfoldable pub namex_loop :
    (ℕ → Node) → ℕ → Bool → ℕ → List ℕ → (ℕ → ℕ) → Run (Option (ℕ × List ℕ) × (ℕ → ℕ))
unfolding skipelem dirlookup_loop
namex_loop nodes zero parent ip path refs = out_of_fuel
namex_loop nodes (suc fuel) parent ip path refs = elim (skipelem path) [
  | none ↦ if parent then done (none, let_go refs ip) else done (some (ip, []), refs)
  | some (name, rest) ↦ elim (not (nodes ip).is_dir) [
    | true ↦ done (none, let_go refs ip)
    | false ↦ elim (parent && is_end rest) [
      | true ↦ done (some (ip, name), refs)
      | false ↦ elim (dirlookup_loop (nodes ip).entries name) [
        | none ↦ done (none, let_go refs ip)
        | some next ↦ namex_loop nodes fuel parent next rest (let_go (hold refs next) ip)
      ]
    ]
  ]
]

abbrev pub starts_at_root : List ℕ → Bool
starts_at_root [] = false
starts_at_root (c ∷ path) = c == slash

unfoldable pub namex :
    (ℕ → Node) → ℕ → Bool → ℕ → List ℕ → (ℕ → ℕ) → Run (Option (ℕ × List ℕ) × (ℕ → ℕ))
unfolding namex_loop
namex nodes fuel parent cwd path refs =
    let ip = if starts_at_root path then root_ino else cwd in
    namex_loop nodes fuel parent ip path (hold refs ip)

-- the loop of dirlink that looks for an empty entry, and the write of the entry there, or behind the last one
unfoldable pub fill_entry : Dirent → List Dirent → List Dirent
fill_entry de [] = de ∷ []
fill_entry de (first ∷ entries) =
    let rest = fill_entry de entries in if first.inum == 0 then de ∷ entries else first ∷ rest

-- The new entries, or none for -1; `written` says whether writei wrote the entry.
unfoldable pub dirlink : Bool → List Dirent → List ℕ → ℕ → Option (List Dirent)
unfolding dirlookup_loop fill_entry
dirlink written entries name inum = elim (dirlookup_loop entries name) [
  | some ip ↦ none
  | none ↦
      if written
      then some (fill_entry (record { inum = inum % ushort_mod; name = take dirsiz name }) entries)
      else none
]
