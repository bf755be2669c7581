-- ===== src/Fd/Files.antt =====
-- The table of open files of kernel/file.c, and the calls that create and drop references to them: sys_dup
-- and sys_close of kernel/sysfile.c, and the loops over `ofile` in fork and exit of kernel/proc.c. A file is
-- its index in ftable.file. The lock ftable.lock makes each function of file.c one step. What pipeclose and
-- iput do with the object of a file is not part of this state: the model says which is called.
use oslab.Prelude.{
  ℕ, zero, suc, ◌+◌, ◌-◌, Option, none, some, List, [], ◌∷◌, ltb, ◌==◌, if◌then◌else◌, put,
}
use oslab.Prelude.Run.{Run, done, panic, ◌>>=◌}
use oslab.Fd.{Table, argfd, fdalloc, close}

abbrev pub nfile : ℕ
nfile = 100

-- `type` of struct file
pub data Kind : Type 0 where
  fd_none fd_pipe fd_inode fd_device : Kind

pub record Ftable : Type 0 where
  pub ref : ℕ → ℕ
  pub kind : ℕ → Kind

-- what is released when the last reference goes
pub data Release : Type 0 where
  nothing : Release
  close_pipe : ℕ → Release
  drop_inode : ℕ → Release

-- the loop of filealloc at file `f`, with `rounds` files to go
filealloc_loop : ℕ → ℕ → Ftable → Option (Ftable × ℕ)
filealloc_loop zero f t = none
filealloc_loop (suc rounds) f t =
    let rest = filealloc_loop rounds (f + 1) t in
    if t.ref f == 0 then some (record t { ref = put (t.ref) f 1 }, f) else rest

unfoldable pub filealloc : Ftable → Option (Ftable × ℕ)
unfolding filealloc_loop
filealloc t = filealloc_loop nfile 0 t

unfoldable pub filedup : Ftable → ℕ → Run Ftable
filedup t f =
    if ltb (t.ref f) 1
    then panic "filedup"
    else done (record t { ref = put (t.ref) f (t.ref f + 1) })

abbrev pub release_of : Kind → ℕ → Release
release_of fd_none f = nothing
release_of fd_pipe f = close_pipe f
release_of fd_inode f = drop_inode f
release_of fd_device f = drop_inode f

unfoldable pub fileclose : Ftable → ℕ → Run (Ftable × Release)
fileclose t f =
    if ltb (t.ref f) 1
    then panic "fileclose"
    else if ltb 0 (t.ref f - 1)
    then done (record t { ref = put (t.ref) f (t.ref f - 1) }, nothing)
    else done
        (record t { ref = put (t.ref) f 0; kind = put (t.kind) f fd_none }, release_of (t.kind f) f)

-- the new table, the open files and the descriptor, or none for -1
abbrev dup_into : Ftable → ℕ → Table ℕ → Option (Table ℕ × ℕ) → Run (Ftable × Table ℕ × Option ℕ)
dup_into t f ofile none = done (t, ofile, none)
dup_into t f ofile (some (more, fd)) = filedup t f >>= λ t2. done (t2, more, some fd)

abbrev dup_file : Ftable → Table ℕ → Option ℕ → Run (Ftable × Table ℕ × Option ℕ)
dup_file t ofile none = done (t, ofile, none)
dup_file t ofile (some f) = dup_into t f ofile (fdalloc ofile f)

unfoldable pub sys_dup : Ftable → Table ℕ → ℕ → Run (Ftable × Table ℕ × Option ℕ)
unfolding argfd fdalloc filedup
sys_dup t ofile fd = dup_file t ofile (argfd ofile fd)

-- the new table, the open files, what is released, and the result 0 or none for -1
abbrev close_file : Ftable → Table ℕ → ℕ → Option ℕ → Run (Ftable × Table ℕ × Release × Option ℕ)
close_file t ofile fd none = done (t, ofile, nothing, none)
close_file t ofile fd (some f) =
    fileclose t f >>= λ (t2, release). done (t2, close ofile fd, release, some 0)

unfoldable pub sys_close : Ftable → Table ℕ → ℕ → Run (Ftable × Table ℕ × Release × Option ℕ)
unfolding argfd close fileclose
sys_close t ofile fd = close_file t ofile fd (argfd ofile fd)

-- the loop of fork, with the child's table
unfoldable pub fork_files : Ftable → Table ℕ → Run (Ftable × Table ℕ)
unfolding filedup
fork_files t [] = done (t, [])
fork_files t (none ∷ ofile) = fork_files t ofile >>= λ (t2, child). done (t2, none ∷ child)
fork_files t (some f ∷ ofile) =
    filedup t f >>= λ t2. fork_files t2 ofile >>= λ (t3, child). done (t3, some f ∷ child)

-- the loop of exit, with what it releases in order
unfoldable pub exit_files : Ftable → Table ℕ → Run (Ftable × Table ℕ × List Release)
unfolding fileclose
exit_files t [] = done (t, [], [])
exit_files t (none ∷ ofile) = exit_files t ofile >>= λ (t2, rest, out). done (t2, none ∷ rest, out)
exit_files t (some f ∷ ofile) = fileclose t f >>= λ (t2, release).
    exit_files t2 ofile >>= λ (t3, rest, out). done (t3, none ∷ rest, release ∷ out)
