-- ===== src/Fd/Refs.antt =====
-- The reference counts of kernel/file.c are the numbers of descriptors.
use oslab.Prelude.{
  ℕ, zero, suc, ◌+◌, ◌-◌, ◌≡◌, ◌≢◌, ◌≤◌, ◌⊎◌, refl, ap, true, false, Option, none, some, List, [],
  ◌∷◌, ltb, ◌==◌, if◌then◌else◌, put, arith, get_or, set, replicate, length, Option-cases,
  Bool-cases, ℕ_discrete, inl, inr,
}
use oslab.Prelude.Run.{done, ◌>>=◌}
use oslab.Fd.{Table, nofile, argfd, fdalloc, close, one_higher}
use oslab.Fd.Files.{
  Ftable, Release, nothing, release_of, fd_none, filedup, fileclose, sys_dup, sys_close, fork_files,
  exit_files,
}

-- how many descriptors of a table refer to a file
abbrev pub count : ℕ → Table ℕ → ℕ
count f [] = 0
count f (none ∷ ofile) = count f ofile
count f (some g ∷ ofile) = let rest = count f ofile in if g == f then suc rest else rest

-- The count of each file is the number of descriptors of this process and of references elsewhere.
abbrev pub IsCounted : Ftable → (ℕ → ℕ) → Table ℕ → Type 0
IsCounted t others ofile = (f : ℕ) → t.ref f ≡ others f + count f ofile

filedup_lem :
    (t : Ftable) (f : ℕ)
    → t.ref f ≢ 0
    → (more : Ftable) × (filedup t f ≡ done more)
      × ((g : ℕ) → more.ref g ≡ t.ref g + (if f == g then 1 else 0))
unfolding filedup
filedup_lem t f ne =
    let used : ltb (t.ref f) 1 ≡ false = ground arith in
    (record t { ref = put (t.ref) f (t.ref f + 1) }, rw used refl, λ g. ground arith)

-- The object of the file is released when its last reference goes, and not before.
fileclose_lem :
    (t : Ftable) (f : ℕ)
    → t.ref f ≢ 0
    → (more : Ftable) × (fileclose t f
        ≡ done (more, if ltb 1 (t.ref f) then nothing else release_of (t.kind f) f))
      × ((g : ℕ) → t.ref g ≡ more.ref g + (if f == g then 1 else 0))
unfolding fileclose
fileclose_lem t f ne =
    let used : ltb (t.ref f) 1 ≡ false = ground arith in
    elim (Bool-cases (ltb 1 (t.ref f))) [
      | inl shared ↦
          let left : ltb 0 (t.ref f - 1) ≡ true = ground (arith, shared) in
          (
            record t { ref = put (t.ref) f (t.ref f - 1) },
            rw (used, left, shared) refl,
            λ g. ground (arith, shared),
          )
      | inr last ↦
          let left : ltb 0 (t.ref f - 1) ≡ false = ground (arith, last) in
          (
            record t { ref = put (t.ref) f 0; kind = put (t.kind) f fd_none },
            rw (used, left, last) refl,
            λ g. ground (arith, last),
          )
    ]

-- one more descriptor refers to the file, or none is free
fdalloc_cases :
    (g : ℕ) (ofile : Table ℕ)
    → (fdalloc ofile g ≡ none)
      ⊎ ((more : Table ℕ) × (fd : ℕ) × (fdalloc ofile g ≡ some (more, fd))
          × ((f : ℕ) → count f more ≡ count f ofile + (if g == f then 1 else 0)))
unfolding fdalloc
fdalloc_cases g [] = inl refl
fdalloc_cases g (none ∷ ofile) = inr (some g ∷ ofile, 0, refl, λ f. ground arith)
fdalloc_cases g (some h ∷ ofile) = elim (fdalloc_cases g ofile) [
  | inl e ↦ inl (ap (one_higher h) e)
  | inr (more, fd, e, c) ↦
      inr (some h ∷ more, suc fd, ap (one_higher h) e, λ f. ground (arith, c f))
]

set-count :
    (f g : ℕ) (ofile : Table ℕ) (fd : ℕ)
    → get_or ofile fd none ≡ some g
    → count f ofile ≡ count f (set ofile fd none) + (if g == f then 1 else 0)
set-count f g [] fd e = absurd (ground (arith, e))
set-count f g (none ∷ ofile) zero e = absurd (ground (arith, e))
set-count f g (some h ∷ ofile) zero e = ground (arith, e)
set-count f g (none ∷ ofile) (suc fd) e = set-count f g ofile fd e
set-count f g (some h ∷ ofile) (suc fd) e = ground (arith, set-count f g ofile fd e)

argfd_cases :
    (ofile : Table ℕ) (fd : ℕ)
    → (argfd ofile fd ≡ none)
      ⊎ ((g : ℕ) × (argfd ofile fd ≡ some g)
          × (get_or ofile fd none ≡ some g)
          × (ltb fd nofile ≡ true))
unfolding argfd
argfd_cases ofile fd = elim (Bool-cases (ltb fd nofile)) [
  | inr high ↦ inl (rw high refl)
  | inl low ↦ elim (Option-cases (get_or ofile fd none)) [
    | inl free ↦ inl (rw low free)
    | inr (g, e) ↦ inr (g, rw low e, e, low)
  ]
]

-- a file that a descriptor refers to has references
IsCounted-used :
    (t : Ftable) (others : ℕ → ℕ) (ofile : Table ℕ) (fd g : ℕ)
    → IsCounted t others ofile
    → get_or ofile fd none ≡ some g
    → t.ref g ≢ 0
IsCounted-used t others ofile fd g h e = ground (arith, h g, set-count g g ofile fd e)

-- sys_dup does not panic, and the counts stay the numbers of references.
pub sys_dup-IsCounted :
    (t : Ftable) (others : ℕ → ℕ) (ofile : Table ℕ) (fd : ℕ)
    → IsCounted t others ofile
    → (t2 : Ftable) × (more : Table ℕ) × (r : Option ℕ) × (sys_dup t ofile fd ≡ done (t2, more, r))
      × IsCounted t2 others more
unfolding sys_dup
sys_dup-IsCounted t others ofile fd h = elim (argfd_cases ofile fd) [
  | inl e ↦ (t, ofile, none, rw e refl, h)
  | inr (g, e, at_fd, low) ↦ elim (fdalloc_cases g ofile) [
    | inl full ↦ (t, ofile, none, rw (e, full) refl, h)
    | inr (more, fd2, e2, c) ↦
        let (t2, e3, r) = filedup_lem t g (IsCounted-used t others ofile fd g h at_fd) in
        (t2, more, some fd2, rw (e, e2, e3) refl, λ f. omega (arith, r f, c f, h f))
  ]
]

-- what fileclose releases, by the references that are left
release_left :
    (n left : ℕ) (last : Release)
    → n ≡ left + 1
    → (if ltb 1 n then nothing else last) ≡ (if left == 0 then last else nothing)
release_left n left last e = elim (ℕ_discrete left 0) [
  | yes z ↦
      let few : ltb 1 n ≡ false = ground arith in
      let gone : (left == 0) ≡ true = ground arith in rw (few, gone) refl
  | no ne ↦
      let many : ltb 1 n ≡ true = ground arith in
      let some_left : (left == 0) ≡ false = ground arith in rw (many, some_left) refl
]

abbrev pub Closes : Ftable → (ℕ → ℕ) → Table ℕ → ℕ → Type 0
Closes t others ofile fd =
    ((argfd ofile fd ≡ none) × (sys_close t ofile fd ≡ done (t, ofile, nothing, none)))
    ⊎ ((g : ℕ) × (argfd ofile fd ≡ some g)
        × (t2 : Ftable) × (sys_close t ofile fd
            ≡ done (
              t2,
              set ofile fd none,
              (if others g + count g (set ofile fd none) == 0
                  then release_of (t.kind g) g
                  else nothing),
              some 0,
            ))
        × IsCounted t2 others (set ofile fd none))

-- sys_close does not panic. It returns -1 and changes nothing if the descriptor has no file. Otherwise it
-- returns 0, frees the descriptor, and the counts stay the numbers of references; it releases the object of
-- that file if no other reference to the file is left, and else nothing.
pub sys_close-IsCounted :
    (t : Ftable) (others : ℕ → ℕ) (ofile : Table ℕ) (fd : ℕ)
    → IsCounted t others ofile
    → Closes t others ofile fd
unfolding sys_close close
sys_close-IsCounted t others ofile fd h = elim (argfd_cases ofile fd) [
  | inl e ↦ inl (e, rw e refl)
  | inr (g, e, at_fd, low) ↦
      let (t2, e2, r) = fileclose_lem t g (IsCounted-used t others ofile fd g h at_fd) in
      let counted : IsCounted t2 others (set ofile fd none) =
        λ f. omega (arith, r f, h f, set-count f g ofile fd at_fd) in
      let self : (g == g) ≡ true = ground arith in
      let left : t.ref g ≡ others g + count g (set ofile fd none) + 1 =
        ground (arith, counted g, r g, self) in
      let same =
        release_left (t.ref g) (others g + count g (set ofile fd none)) (release_of (t.kind g) g)
          left in
      inr (
        g,
        e,
        t2,
        rw (e, e2, low) (ap (λ release. done (t2, set ofile fd none, release, some 0)) same),
        counted,
      )
]

fork_loop :
    (t : Ftable) (ofile : Table ℕ)
    → ((f : ℕ) → count f ofile ≤ t.ref f)
    → (t2 : Ftable) × (fork_files t ofile ≡ done (t2, ofile))
      × ((f : ℕ) → t2.ref f ≡ t.ref f + count f ofile)
unfolding fork_files
fork_loop t [] h = (t, refl, λ f. omega arith)
fork_loop t (none ∷ ofile) h = let (t2, e, r) = fork_loop t ofile h in (t2, rw e refl, r)
fork_loop t (some g ∷ ofile) h =
    let (t2, e, r) = filedup_lem t g (ground (arith, h g)) in
    let (t3, e2, r2) = fork_loop t2 ofile (λ f. ground (arith, h f, r f)) in
    (t3, rw e (rw (e2, ◌>>=◌) refl), λ f. ground (arith, r f, r2 f))

-- The loop of fork does not panic. The child has the descriptors of its parent, and the counts are the
-- numbers of references, those of the child among them.
pub fork_files-IsCounted :
    (t : Ftable) (others : ℕ → ℕ) (ofile : Table ℕ)
    → IsCounted t others ofile
    → (t2 : Ftable) × (fork_files t ofile ≡ done (t2, ofile))
      × IsCounted t2 (λ f. others f + count f ofile) ofile
fork_files-IsCounted t others ofile h =
    let (t2, e, r) = fork_loop t ofile (λ f. omega (arith, h f)) in
    (t2, e, λ f. omega (arith, r f, h f))

-- The loop of exit does not panic. It closes every descriptor, and the counts are the numbers of references
-- elsewhere.
pub exit_files-IsCounted :
    (t : Ftable) (others : ℕ → ℕ) (ofile : Table ℕ)
    → IsCounted t others ofile
    → (t2 : Ftable) × (out : List Release) × (exit_files t ofile
        ≡ done (t2, replicate (length ofile) none, out))
      × ((f : ℕ) → t2.ref f ≡ others f)
unfolding exit_files
exit_files-IsCounted t others [] h = (t, [], refl, λ f. omega (arith, h f))
exit_files-IsCounted t others (none ∷ ofile) h =
    let (t2, out, e, r) = exit_files-IsCounted t others ofile h in (t2, out, rw e refl, r)
exit_files-IsCounted t others (some g ∷ ofile) h =
    let (t2, e, r) = fileclose_lem t g (ground (arith, h g)) in
    let (t3, out, e2, r2) = exit_files-IsCounted t2 others ofile (λ f. ground (arith, r f, h f)) in
    let release = if ltb 1 (t.ref g) then nothing else release_of (t.kind g) g in
    (t3, release ∷ out, rw e (rw (e2, ◌>>=◌) refl), r2)
