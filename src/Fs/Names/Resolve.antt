-- ===== src/Fs/Names/Resolve.antt =====
-- namex of kernel/fs.c follows the names of a path.
pub mod Target
use oslab.Prelude.{
  ℕ, zero, suc, ◌+◌, ◌<◌, ◌≡◌, ◌≢◌, inl, inr, refl, sym, ap, ◌∙◌, Bool, true, false, ◌&&◌, List, [],
  ◌∷◌, Option, none, some, ◌==◌, if◌then◌else◌, arith, length, Bool-cases, Option-cases,
}
use oslab.Prelude.Run.{Run, done}
use oslab.Fs.Names.{
  root_ino, Node, skip_slashes, skipelem, dirlookup_loop, hold, let_go, is_end, namex_loop, namex,
  starts_at_root,
}
use oslab.Fs.Names.Elements.{names_of, names_of-nil, left_over, skipelem_cases}
use oslab.Fs.Names.Resolve.Target.{
  child, follow, follow_parent, target, one, found_ref, move_ref, moved_held, drop_ref,
}

-- The loop found what the names lead to, and holds a reference to that in place of the one to `ip`.
abbrev Found :
    (ℕ → Node) → Bool → ℕ → List (List ℕ) → (ℕ → ℕ) → Run (Option (ℕ × List ℕ) × (ℕ → ℕ)) → Type 0
Found nodes parent ip names refs run =
    (more : ℕ → ℕ) × (run ≡ done (target nodes parent ip names, more))
    × ((g : ℕ) → more g + one ip g ≡ refs g + found_ref (target nodes parent ip names) g)

ended :
    (nodes : ℕ → Node) (fuel : ℕ) (parent : Bool) (ip : ℕ) (path : List ℕ) (refs : ℕ → ℕ)
    → skipelem path ≡ none
    → refs ip ≢ 0
    → Found nodes parent ip [] refs (namex_loop nodes (suc fuel) parent ip path refs)
unfolding namex_loop follow follow_parent
ended nodes fuel true ip path refs e held =
    (let_go refs ip, rw (e, namex_loop) refl, λ g. drop_ref refs ip g held)
ended nodes fuel false ip path refs e held = (refs, rw (e, namex_loop) refl, λ g. refl)

-- one round that finds a name
module _ (nodes : ℕ → Node) (fuel : ℕ) (ip : ℕ) (path name behind : List ℕ) (refs : ℕ → ℕ)
    (e : skipelem path ≡ some (name, behind)) where
  not_dir :
      (parent : Bool)
      → (nodes ip).is_dir ≡ false
      → namex_loop nodes (suc fuel) parent ip path refs ≡ done (none, let_go refs ip)
  unfolding namex_loop
  not_dir parent h = rw (e, namex_loop) (rw h refl)

  last_name :
      (parent : Bool)
      → (nodes ip).is_dir ≡ true
      → (parent && is_end behind) ≡ true
      → namex_loop nodes (suc fuel) parent ip path refs ≡ done (some (ip, name), refs)
  unfolding namex_loop
  last_name parent h l = rw (e, namex_loop) (rw (h, l) refl)

  absent :
      (parent : Bool)
      → (nodes ip).is_dir ≡ true
      → (parent && is_end behind) ≡ false
      → dirlookup_loop (nodes ip).entries name ≡ none
      → namex_loop nodes (suc fuel) parent ip path refs ≡ done (none, let_go refs ip)
  unfolding namex_loop
  absent parent h l n = rw (e, namex_loop) (rw (h, l, n) refl)

  goes_on :
      (parent : Bool) (next : ℕ)
      → (nodes ip).is_dir ≡ true
      → (parent && is_end behind) ≡ false
      → dirlookup_loop (nodes ip).entries name ≡ some next
      → namex_loop nodes (suc fuel) parent ip path refs
        ≡ namex_loop nodes fuel parent next behind (let_go (hold refs next) ip)
  unfolding namex_loop
  goes_on parent next h l n = rw (e, namex_loop) (rw (h, l, n) refl)

abbrev no_names : List (List ℕ) → Bool
no_names [] = true
no_names (name ∷ names) = false

ends_together :
    (path : List ℕ) → is_end (skip_slashes path) ≡ no_names (names_of (skip_slashes path))
ends_together path = elim (left_over path) [
  | inl e ↦ rw (e, names_of-nil) refl
  | inr (name, names, e, f) ↦ rw (e, f) refl
]

module _ (nodes : ℕ → Node) (ip : ℕ) (name : List ℕ) where
  target-not_dir :
      (parent : Bool) (names : List (List ℕ))
      → (nodes ip).is_dir ≡ false
      → target nodes parent ip (name ∷ names) ≡ none
  unfolding follow follow_parent
  target-not_dir true [] h = rw h refl
  target-not_dir true (more ∷ names) h = rw (h, follow_parent) refl
  target-not_dir false names h = rw (h, follow) refl

  target-last :
      (parent : Bool) (names : List (List ℕ))
      → (nodes ip).is_dir ≡ true
      → (parent && no_names names) ≡ true
      → target nodes parent ip (name ∷ names) ≡ some (ip, name)
  unfolding follow_parent
  target-last true [] h l = rw h refl
  target-last true (more ∷ names) h l = absurd (ground (arith, l))
  target-last false names h l = absurd (ground (arith, l))

  module _ (h : (nodes ip).is_dir ≡ true) where
    target-absent :
        (parent : Bool) (names : List (List ℕ))
        → (parent && no_names names) ≡ false
        → dirlookup_loop (nodes ip).entries name ≡ none
        → target nodes parent ip (name ∷ names) ≡ none
    unfolding follow follow_parent
    target-absent true [] l n = absurd (ground (arith, l))
    target-absent true (more ∷ names) l n = rw (h, n, follow_parent) refl
    target-absent false names l n = rw (h, n, follow) refl

    target-next :
        (parent : Bool) (names : List (List ℕ)) (next : ℕ)
        → (parent && no_names names) ≡ false
        → dirlookup_loop (nodes ip).entries name ≡ some next
        → target nodes parent ip (name ∷ names) ≡ target nodes parent next names
    unfolding follow follow_parent
    target-next true [] next l n = absurd (ground (arith, l))
    target-next true (more ∷ names) next l n = rw (h, n, follow_parent) refl
    target-next false names next l n = rw (h, n, follow) refl

-- the first name of a path, with what the loop does behind it
one_name :
    (nodes : ℕ → Node) (fuel : ℕ) (parent : Bool) (ip : ℕ) (path : List ℕ) (refs : ℕ → ℕ)
    → refs ip ≢ 0
    → (name rest : List ℕ) → skipelem path ≡ some (name, rest)
    → (names : List (List ℕ)) → is_end rest ≡ no_names names
    → ((next : ℕ)
        → Found nodes parent next names
            (let_go (hold refs next) ip)
            (namex_loop nodes fuel parent next rest (let_go (hold refs next) ip)))
    → Found nodes parent ip (name ∷ names) refs (namex_loop nodes (suc fuel) parent ip path refs)
one_name nodes fuel parent ip path refs held name rest e names end further =
    elim (Bool-cases ((nodes ip).is_dir)) [
      | inr h ↦ rw (target-not_dir nodes ip name parent names h) (
        let_go refs ip,
        not_dir nodes fuel ip path name rest refs e parent h,
        λ g. drop_ref refs ip g held,
      )
      | inl h ↦ elim (Bool-cases (parent && is_end rest)) [
        | inl l ↦
            rw (target-last nodes ip name parent names h (ap (λ b. parent && b) (sym end) ∙ l))
              (refs, last_name nodes fuel ip path name rest refs e parent h l, λ g. refl)
        | inr l ↦
            let l2 : (parent && no_names names) ≡ false = ap (λ b. parent && b) (sym end) ∙ l in
            elim (Option-cases (dirlookup_loop (nodes ip).entries name)) [
              | inl n ↦ rw (target-absent nodes ip name h parent names l2 n) (
                let_go refs ip,
                absent nodes fuel ip path name rest refs e parent h l n,
                λ g. drop_ref refs ip g held,
              )
              | inr (next, n) ↦
                  let (more, run, counts) = further next in
                  rw (target-next nodes ip name h parent names next l2 n) (
                    more,
                    goes_on nodes fuel ip path name rest refs e parent next h l n ∙ run,
                    λ g. omega (arith, counts g, move_ref refs ip next g held),
                  )
            ]
      ]
    ]

namex_loop_lem :
    (nodes : ℕ → Node) (fuel : ℕ) (parent : Bool) (ip : ℕ) (path : List ℕ) (refs : ℕ → ℕ)
    → length path < fuel
    → refs ip ≢ 0
    → Found nodes parent ip (names_of path) refs (namex_loop nodes fuel parent ip path refs)
namex_loop_lem nodes zero parent ip path refs lt held = absurd (omega arith)
namex_loop_lem nodes (suc fuel) parent ip path refs lt held = elim (skipelem_cases path) [
  | inl (e, none_left) ↦ rw none_left (ended nodes fuel parent ip path refs e held)
  | inr (name, behind, e, names, less) ↦ rw names (
      one_name nodes fuel parent ip path refs held name (skip_slashes behind) e
        (names_of (skip_slashes behind)) (ends_together behind)
        (λ next.
          namex_loop_lem nodes fuel parent next (skip_slashes behind) (let_go (hold refs next) ip)
            (omega (arith, less, lt)) (moved_held refs ip next held)))
]

hold_ref : (refs : ℕ → ℕ) (ip g : ℕ) → hold refs ip g ≡ refs g + one ip g
hold_ref refs ip g = ground arith

hold_held : (refs : ℕ → ℕ) (ip : ℕ) → hold refs ip ip ≢ 0
hold_held refs ip = ground arith

namex_from :
    (nodes : ℕ → Node) (fuel : ℕ) (parent : Bool) (ip : ℕ) (path : List ℕ) (refs : ℕ → ℕ)
    → length path < fuel
    → (more : ℕ → ℕ) × (namex_loop nodes fuel parent ip path (hold refs ip)
        ≡ done (target nodes parent ip (names_of path), more))
      × ((g : ℕ) → more g ≡ refs g + found_ref (target nodes parent ip (names_of path)) g)
namex_from nodes fuel parent ip path refs lt =
    let (more, run, counts) =
      namex_loop_lem nodes fuel parent ip path (hold refs ip) lt (hold_held refs ip) in
    (more, run, λ g. omega (arith, counts g, hold_ref refs ip g))

-- namex returns the inode that the names of the path lead to, from the root if the path starts with a slash
-- and from the current directory otherwise, or for nameiparent the directory that the last name is looked up
-- in, with this name. It returns none if a name is missing, if a name is looked up in what is no directory, or
-- for nameiparent if there is no name. Names are cut at 14 bytes. In each case the reference counts are as
-- before, with one more for the inode that is returned. The fuel is for one round more than the path has bytes.
pub namex_lem :
    (nodes : ℕ → Node) (fuel : ℕ) (parent : Bool) (cwd : ℕ) (path : List ℕ) (refs : ℕ → ℕ)
    → length path < fuel
    → let ip = if starts_at_root path then root_ino else cwd in
      (more : ℕ → ℕ) × (namex nodes fuel parent cwd path refs
        ≡ done (target nodes parent ip (names_of path), more))
      × ((g : ℕ) → more g ≡ refs g + found_ref (target nodes parent ip (names_of path)) g)
unfolding namex
namex_lem nodes fuel parent cwd path refs lt =
    namex_from nodes fuel parent (if starts_at_root path then root_ino else cwd) path refs lt
