-- ===== src/Proc/Tests.antt =====
-- Runs of the process table: init in slot 0 (pid 1), its shell in slot 1 (pid 2), every other slot free.
use mathlib.Core.Bool.{true≢false}
use oslab.Prelude.{ℕ_discrete, ℕ, ◌≡◌, refl, true, false, Option, none, some, arith, put, [], ◌∷◌}
use oslab.Proc.{
  Chan-discrete, Proc, unused, sleeping, running, no_chan, proc_chan, Table, kstack_of, fork, exit,
  found, wait, null_read, sys_procname,
}
use oslab.Proc.Inv.{IsTable, added-IsTable}
use oslab.Proc.Signals.{BornKilled, kill_zero-allocproc}
use oslab.Proc.Family.{Forks, fork_lem, fork-IsTable}
use oslab.Proc.Reap.{Exits, exit_lem}
use oslab.Proc.Children.{Waits, Reaps, wait_lem, exit-wait}

abbrev empty_slot : ℕ → Proc
empty_slot i = record {
  state = unused;
  chan = no_chan;
  killed = false;
  xstate = 0;
  pid = 0;
  parent = none;
  kstack = kstack_of i;
  sz = 0;
  has_trapframe = false;
  has_pagetable = false;
  ofile = [];
  cwd = none;
  name = [];
}

abbrev empty : Table
empty = record { proc = empty_slot; nextpid = 1; initproc = 0 }

empty-IsTable : IsTable empty
empty-IsTable = record {
  free = λ i lt u. record { no_pid = refl; no_parent = refl; not_killed = refl };
  pid_pos = λ i lt u. absurd (true≢false u);
  pid_used = λ i lt u. absurd (true≢false u);
  distinct = λ i j lti ltj u w e. absurd (true≢false u);
  next_pos = omega arith;
}

abbrev init_proc : Proc
init_proc = record (empty_slot 0) {
  state = sleeping;
  chan = proc_chan 0;
  pid = 1;
  sz = 4096;
  has_trapframe = true;
  has_pagetable = true;
  name = 105 ∷ 110 ∷ 105 ∷ 116 ∷ [];
}

abbrev shell_proc : Proc
shell_proc = record (empty_slot 1) {
  state = running;
  pid = 2;
  parent = some 0;
  sz = 8192;
  has_trapframe = true;
  has_pagetable = true;
  name = 115 ∷ 104 ∷ [];
}

abbrev with_init : Table
with_init = record empty { proc = put empty_slot 0 init_proc; nextpid = 2 }

abbrev two_procs : Table
two_procs = record with_init { proc = put (put empty_slot 0 init_proc) 1 shell_proc; nextpid = 3 }

two_procs-IsTable : IsTable two_procs
two_procs-IsTable =
    added-IsTable with_init (added-IsTable empty empty-IsTable 0 init_proc refl refl) 1 shell_proc
      refl refl

fork-IsTable_example : IsTable (fork true true true 1 two_procs).1
fork-IsTable_example = fork-IsTable true true true 1 two_procs two_procs-IsTable (omega arith)

kill_zero-allocproc_example : BornKilled two_procs
kill_zero-allocproc_example = kill_zero-allocproc two_procs 2 two_procs-IsTable (omega arith) refl

-- the shell forks: the child is in slot 2, with pid 3
fork_pid : (fork true true true 1 two_procs).0 ≡ some 3
unfolding fork
fork_pid = refl

fork_lem_example : Forks true true true 1 3 two_procs
fork_lem_example =
    fork_lem true true true 1 3 two_procs two_procs-IsTable (omega arith) refl fork_pid

exit_lem_example : Exits 7 1 two_procs
exit_lem_example = exit_lem 7 1 two_procs (omega arith)

-- the table after the shell has exited with status 7
abbrev get_table : Option Table → Table → Table
get_table none t = t
get_table (some t') t = t'

abbrev shell_exited : Table
shell_exited = get_table (exit 7 1 two_procs) two_procs

shell_exit : exit 7 1 two_procs ≡ some shell_exited
unfolding exit
shell_exit = refl

exit-wait_example : Reaps 0 0 shell_exited
exit-wait_example =
    exit-wait 7 1 0 0 two_procs shell_exited (omega arith) (omega arith) refl shell_exit

wait_lem_example : Waits true 0 0 shell_exited
wait_lem_example = wait_lem true 0 0 shell_exited

-- init's wait returns the pid of the shell and frees its slot
init_waits : (wait true 0 0 shell_exited).0 ≡ found 2
unfolding wait exit Chan-discrete ℕ_discrete
init_waits = refl

-- procname of a pid that no process has
unknown_pid : sys_procname true 9 two_procs ≡ null_read
unfolding sys_procname
unknown_pid = refl
