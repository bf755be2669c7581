-- ===== src/Fs/Names/Link.antt =====
-- dirlink of kernel/fs.c adds a name to a directory.
use oslab.Prelude.{
  ℕ, ◌≡◌, ◌≢◌, ◌<◌, ◌%◌, inl, inr, refl, sym, ap, ◌∙◌, true, false, List, [], ◌∷◌, Option, none,
  some, ◌==◌, if◌then◌else◌, take, arith, Bool-cases,
}
use oslab.Fs.Names.{dirsiz, ushort_mod, Dirent, same_name, dirlookup_loop, fill_entry, dirlink}

same_name-eq : (s t : List ℕ) → same_name s t ≡ true → s ≡ t
same_name-eq [] [] h = refl
same_name-eq [] (d ∷ t) h = absurd (ground (arith, h))
same_name-eq (c ∷ s) [] h = absurd (ground (arith, h))
same_name-eq (c ∷ s) (d ∷ t) h =
    let head : c ≡ d = ground (arith, h) in rw (head, same_name-eq s t (ground (arith, h))) refl

lookup-skip :
    (de : Dirent) (entries : List Dirent) (name : List ℕ)
    → same_name name (de.name) ≡ false
    → dirlookup_loop (de ∷ entries) name ≡ dirlookup_loop entries name
unfolding dirlookup_loop
lookup-skip de entries name h = rw h (ground arith)

lookup-empty :
    (de : Dirent) (entries : List Dirent) (name : List ℕ)
    → (de.inum == 0) ≡ true
    → dirlookup_loop (de ∷ entries) name ≡ dirlookup_loop entries name
unfolding dirlookup_loop
lookup-empty de entries name h = rw h refl

lookup-used :
    (de : Dirent) (entries : List Dirent) (name : List ℕ)
    → (de.inum == 0) ≡ false
    → dirlookup_loop (de ∷ entries) name
      ≡ (if same_name name (de.name) then some (de.inum) else dirlookup_loop entries name)
unfolding dirlookup_loop
lookup-used de entries name h = rw h refl

-- a name that is not found is not that of an entry in use
absent-name :
    (de : Dirent) (entries : List Dirent) (name : List ℕ)
    → (de.inum == 0) ≡ false
    → dirlookup_loop (de ∷ entries) name ≡ none
    → (same_name name (de.name) ≡ false) × (dirlookup_loop entries name ≡ none)
unfolding dirlookup_loop
absent-name de entries name used h = elim (Bool-cases (same_name name (de.name))) [
  | inl same ↦ absurd (ground (arith, h, used, same))
  | inr differ ↦ (differ, sym (lookup-skip de entries name differ) ∙ h)
]

swap_tests :
    (name : List ℕ) (de first : Dirent) (r : Option ℕ)
    → same_name (de.name) (first.name) ≡ false
    → (if same_name name (first.name)
        then some (first.inum)
        else (if same_name name (de.name) then some (de.inum) else r))
      ≡ (if same_name name (de.name)
          then some (de.inum)
          else (if same_name name (first.name) then some (first.inum) else r))
swap_tests name de first r other = elim (Bool-cases (same_name name (de.name))) [
  | inl same ↦
      rw (same, ap (λ n. same_name n (first.name)) (same_name-eq name (de.name) same) ∙ other) refl
  | inr differ ↦ rw differ refl
]

-- a lookup in the directory with the new entry, if its name was not there
lookup-fill_entry :
    (de : Dirent) (entries : List Dirent) (name : List ℕ)
    → (de.inum == 0) ≡ false
    → dirlookup_loop entries (de.name) ≡ none
    → dirlookup_loop (fill_entry de entries) name
      ≡ (if same_name name (de.name) then some (de.inum) else dirlookup_loop entries name)
unfolding fill_entry
lookup-fill_entry de [] name pos h = lookup-used de [] name pos
lookup-fill_entry de (first ∷ entries) name pos h = elim (Bool-cases (first.inum == 0)) [
  | inl free ↦
      rw free (lookup-used de entries name pos ∙ rw (lookup-empty first entries name free) refl)
  | inr used ↦
      let (other, gone) = absent-name first entries (de.name) used h in
      rw used (
        lookup-used first (fill_entry de entries) name used
        ∙ ap (λ r. if same_name name (first.name) then some (first.inum) else r)
            (lookup-fill_entry de entries name pos gone)
        ∙ swap_tests name de first (dirlookup_loop entries name) other
        ∙ rw (lookup-used first entries name used) refl)
]

-- dirlink of a name that is not in the directory, if its entry is written, adds it: a lookup of the name finds
-- the inode, and every other lookup finds what it found before. The name has 14 bytes at most, and the number
-- of the inode fits in a ushort.
pub dirlink_lem :
    (entries : List Dirent) (name : List ℕ) (inum : ℕ)
    → inum ≢ 0
    → inum < ushort_mod
    → take dirsiz name ≡ name
    → dirlookup_loop entries name ≡ none
    → (more : List Dirent) × (dirlink true entries name inum ≡ some more)
      × ((key : List ℕ)
          → dirlookup_loop more key
            ≡ (if same_name key name then some inum else dirlookup_loop entries key))
unfolding dirlink
dirlink_lem entries name inum pos fits short absent =
    let stored : inum % ushort_mod ≡ inum = omega arith in
    let de : Dirent = record { inum = inum; name = name } in
    (
      fill_entry de entries,
      rw (absent, dirlink) (rw (short, stored) refl),
      λ key. lookup-fill_entry de entries key (ground (arith, pos)) absent,
    )
