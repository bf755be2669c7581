-- ===== src/Sh/Runcmd.antt =====
-- runcmd of user/sh.c: which programs it executes, with which open files. fork and pipealloc succeed, and
-- `opens` says which files open succeeds with. A pipe is named by the place of its command.
use oslab.Prelude.{
  ℕ, zero, suc, ◌≡◌, refl, Bool, true, false, List, [], ◌∷◌, Option, none, some, if◌then◌else◌,
  replicate, arith, ap, inl, inr, Bool-cases,
}
use oslab.Fd.{Table, fdalloc, dup, close, pipe_fds}
use oslab.Sh.{Cmd, exec, redir, pipe, list, back}
use oslab.Sh.Args.{Fits}

-- the way to a command in a tree of commands: true is to the right
abbrev pub Place : Type 0
Place = List Bool

-- what a descriptor refers to: a file of the shell, one that open opened, or an end of a pipe
pub data File : Type 0 where
  given : ℕ → File
  opened : List ℕ → ℕ → File
  read_end : Place → File
  write_end : Place → File

-- What a process of the shell does before it ends: it executes a program with its arguments, and it waits
-- for a child and goes on, or starts two and waits for both, or leaves a child behind.
pub data Action : Type 0 where
  nothing : Action
  executes : List (List ℕ) → Table File → Action
  one_by_one : Action → Action → Action
  together : Action → Action → Action
  left_behind : Action → Action

-- `close(1); dup(p[1]);` or `close(0); dup(p[0]);`, then both ends are closed
abbrev unchanged : Table File → Option (Table File × ℕ) → Table File
unchanged ofile none = ofile
unchanged ofile (some (more, fd)) = more

abbrev move_end : Table File → ℕ → ℕ → ℕ → ℕ → Table File
move_end ofile std p p0 p1 =
    close (close (unchanged (close ofile std) (dup (close ofile std) p)) p0) p1

module _ (opens : List ℕ → ℕ → Bool) where
  -- open, with the file's name and the mode
  unfoldable pub open_file : Table File → List ℕ → ℕ → Option (Table File × ℕ)
  unfolding fdalloc
  open_file ofile file mode = if opens file mode then fdalloc ofile (opened file mode) else none

  unfoldable pub runcmd : Cmd → Place → Table File → Action
  unfolding open_file close dup pipe_fds
  runcmd (exec []) place ofile = nothing
  runcmd (exec (name ∷ argv)) place ofile = executes (name ∷ argv) ofile
  runcmd (redir cmd file mode fd) place ofile = elim (open_file (close ofile fd) file mode) [
    | none ↦ nothing
    | some (more, fd2) ↦ runcmd cmd place more
  ]
  runcmd (list l r) place ofile =
      one_by_one (runcmd l (false ∷ place) ofile) (runcmd r (true ∷ place) ofile)
  runcmd (pipe l r) place ofile = elim (pipe_fds ofile (read_end place) (write_end place)) [
    | none ↦ nothing
    | some (more, p0, p1) ↦
        together (runcmd l (false ∷ place) (move_end more 1 p1 p0 p1))
          (runcmd r (true ∷ place) (move_end more 0 p0 p0 p1))
  ]
  runcmd (back cmd) place ofile = left_behind (runcmd cmd (false ∷ place) ofile)

-- descriptors 0, 1 and 2 and no other
abbrev pub standard : File → File → File → Table File
standard i o e = some i ∷ some o ∷ some e ∷ replicate 13 none

module _ (opens : List ℕ → ℕ → Bool) (e : File) where
  -- What a command means with a given input and output. In a pipeline, the output of the left command and
  -- the input of the right one are the ends of a pipe. A redirection replaces the input or the output.
  unfoldable pub meaning : Cmd → Place → File → File → Action
  meaning (exec []) place i o = nothing
  meaning (exec (name ∷ argv)) place i o = executes (name ∷ argv) (standard i o e)
  meaning (redir cmd file mode zero) place i o =
      let rest = meaning cmd place (opened file mode) o in if opens file mode then rest else nothing
  meaning (redir cmd file mode (suc fd)) place i o =
      let rest = meaning cmd place i (opened file mode) in if opens file mode then rest else nothing
  meaning (list l r) place i o =
      one_by_one (meaning l (false ∷ place) i o) (meaning r (true ∷ place) i o)
  meaning (pipe l r) place i o =
      together (meaning l (false ∷ place) i (write_end place))
        (meaning r (true ∷ place) (read_end place) o)
  meaning (back cmd) place i o = left_behind (meaning cmd (false ∷ place) i o)

  -- runcmd, started with the three standard descriptors and no other, does what the command means, for
  -- every command whose redirections are of descriptors 0 and 1, as those of the parser are. So each program
  -- gets three descriptors, and no end of a pipe but the one that is its input or its output.
  pub runcmd_lem :
      (cmd : Cmd) (place : Place) (i o : File)
      → Fits cmd
      → runcmd opens cmd place (standard i o e) ≡ meaning cmd place i o
  unfolding runcmd meaning
  runcmd_lem (exec []) place i o fits = refl
  runcmd_lem (exec (name ∷ argv)) place i o fits = refl
  runcmd_lem (redir cmd file mode zero) place i o fits = elim (Bool-cases (opens file mode)) [
    | inl yes_it ↦ rw (yes_it, runcmd) (runcmd_lem cmd place (opened file mode) o fits.1)
    | inr no_it ↦ rw (no_it, runcmd) refl
  ]
  runcmd_lem (redir cmd file mode (suc zero)) place i o fits = elim (Bool-cases (opens file mode)) [
    | inl yes_it ↦ rw (yes_it, runcmd) (runcmd_lem cmd place i (opened file mode) fits.1)
    | inr no_it ↦ rw (no_it, runcmd) refl
  ]
  runcmd_lem (redir cmd file mode (suc (suc fd))) place i o fits = absurd (omega (arith, fits.0))
  runcmd_lem (list l r) place i o (p, q) =
      rw (runcmd_lem l (false ∷ place) i o p, runcmd_lem r (true ∷ place) i o q) refl
  runcmd_lem (pipe l r) place i o (p, q) =
      rw
        (
          runcmd_lem l (false ∷ place) i (write_end place) p,
          runcmd_lem r (true ∷ place) (read_end place) o q,
        )
        refl
  runcmd_lem (back cmd) place i o fits = ap left_behind (runcmd_lem cmd (false ∷ place) i o fits)
