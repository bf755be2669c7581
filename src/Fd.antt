-- ===== src/Fd.antt =====
-- The file descriptors of a process: `ofile` of kernel/proc.h, and what kernel/sysfile.c does with it. A
-- table lists the open file of each descriptor, or none, and a file is of any type.
pub mod Files
pub mod Refs
mod Tests
use oslab.Prelude.{
  ℕ, zero, suc, ◌+◌, Option, none, some, List, [], ◌∷◌, ltb, if◌then◌else◌, get_or, set,
}

abbrev pub nofile : ℕ
nofile = 16

abbrev pub Table : Type 0 → Type 0
Table A = List (Option A)

module _ {A : Type 0} where
  -- the file of a descriptor; a negative one is at least 2 ^ 31
  unfoldable pub argfd : Table A → ℕ → Option A
  argfd ofile fd = if ltb fd nofile then get_or ofile fd none else none

  abbrev pub one_higher : A → Option (Table A × ℕ) → Option (Table A × ℕ)
  one_higher g none = none
  one_higher g (some (ofile, fd)) = some (some g ∷ ofile, suc fd)

  -- the table with the file at the first descriptor that is free, and this descriptor
  unfoldable pub fdalloc : Table A → A → Option (Table A × ℕ)
  fdalloc [] f = none
  fdalloc (none ∷ ofile) f = some (some f ∷ ofile, 0)
  fdalloc (some g ∷ ofile) f = one_higher g (fdalloc ofile f)

  abbrev alloc_if : Table A → Option A → Option (Table A × ℕ)
  alloc_if ofile none = none
  alloc_if ofile (some f) = fdalloc ofile f

  -- sys_dup
  unfoldable pub dup : Table A → ℕ → Option (Table A × ℕ)
  unfolding argfd fdalloc
  dup ofile fd = alloc_if ofile (argfd ofile fd)

  -- sys_close, which changes nothing if it fails
  unfoldable pub close : Table A → ℕ → Table A
  close ofile fd = if ltb fd nofile then set ofile fd none else ofile

  abbrev second : ℕ → A → Option (Table A × ℕ) → Option (Table A × ℕ × ℕ)
  second fd0 wf none = none
  second fd0 wf (some (ofile, fd1)) = some (ofile, fd0, fd1)

  abbrev first : A → Option (Table A × ℕ) → Option (Table A × ℕ × ℕ)
  first wf none = none
  first wf (some (ofile, fd0)) = second fd0 wf (fdalloc ofile wf)

  -- the descriptors of sys_pipe; if it fails, the table is as before
  unfoldable pub pipe_fds : Table A → A → A → Option (Table A × ℕ × ℕ)
  unfolding fdalloc
  pipe_fds ofile rf wf = first wf (fdalloc ofile rf)
