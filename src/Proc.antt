-- ===== src/Proc.antt =====
-- kernel/proc.c and the process calls of kernel/sysproc.c over the process table. A pointer to a
-- process is its index. The code holds p->lock (and wait_lock) over what is one step here; a function
-- that gives up the CPU is split there. Memory, page tables and files enter by what the calls of them
-- return.
pub mod Scan
pub mod Inv
pub mod Signals
pub mod Family
pub mod Reap
pub mod Children
pub mod Listing
mod Tests
use Prim.Native.String.{String}
use mathlib.Core.Logic.{ite}
use oslab.Prelude.{
  ℕ, zero, suc, ◌+◌, ◌-◌, ◌*◌, ◌^◌, Bool, true, false, not, ◌&&◌, ◌||◌, Option, none, some, List,
  [], ◌∷◌, ◌==◌, leb, ltb, if◌then◌else◌, put, ℕ_discrete, ◌%◌,
}

pub data ProcState : Type 0 where
  unused used sleeping runnable running zombie : ProcState

-- Sleep channels: none, a process (its parent sleeps on it in wait), or any other address.
pub data Chan : Type 0 where
  no_chan : Chan
  proc_chan : ℕ → Chan
  addr_chan : ℕ → Chan

pub Chan-discrete : Discrete Chan
Chan-discrete = hlevel ℕ_discrete

-- `struct proc`. `name` lists the bytes before the NUL; `has_trapframe` and `has_pagetable` say whether
-- these pointers are set.
pub record Proc : Type 0 where
  pub state : ProcState
  pub chan : Chan
  pub killed : Bool
  pub xstate : ℕ
  pub pid : ℕ
  pub parent : Option ℕ
  pub kstack : ℕ
  pub sz : ℕ
  pub has_trapframe : Bool
  pub has_pagetable : Bool
  pub ofile : List (Option ℕ)
  pub cwd : Option ℕ
  pub name : List ℕ

pub record Table : Type 0 where
  pub proc : ℕ → Proc
  pub nextpid : ℕ
  pub initproc : ℕ

abbrev pub nproc : ℕ
nproc = 64

abbrev pub set_proc : Table → ℕ → Proc → Table
set_proc t i p = record t { proc = put t.proc i p }

abbrev pub is_unused : ProcState → Bool
is_unused unused = true
is_unused _ = false

abbrev pub is_sleeping : ProcState → Bool
is_sleeping sleeping = true
is_sleeping _ = false

abbrev pub is_zombie : ProcState → Bool
is_zombie zombie = true
is_zombie _ = false

abbrev pub is_runnable : ProcState → Bool
is_runnable runnable = true
is_runnable _ = false

abbrev pub is_some_of : Option ℕ → ℕ → Bool
is_some_of none i = false
is_some_of (some j) i = j == i

-- `for(p = ...; p < &proc[NPROC]; p++) if(test) ...`: the first index from `i` on that passes
pub scan : ℕ → ℕ → (ℕ → Bool) → Option ℕ
scan zero i test = none
scan (suc rounds) i test = let rest = scan rounds (i + 1) test in if test i then some i else rest

-- `for(p = ...; p < &proc[NPROC]; p++) *p = f(p);`
pub for_each : ℕ → ℕ → (ℕ → Proc → Proc) → Table → Table
for_each zero i f t = t
for_each (suc rounds) i f t = for_each rounds (i + 1) f (set_proc t i (f i (t.proc i)))

-- TRAMPOLINE is MAXVA - PGSIZE, and KSTACK(i) lies 2 (i + 1) pages below it.
abbrev pub kstack_of : ℕ → ℕ
kstack_of i = 2 ^ 38 - 4096 - (i + 1) * 2 * 4096

unfoldable pub procinit : Table → Table
unfolding for_each
procinit = for_each nproc 0 (λ i p. record p { state = unused; kstack = kstack_of i })

-- the values of an int, as 32 bits, and the largest int
abbrev pub int_mod : ℕ
int_mod = 2 ^ 32

abbrev pub int_max : ℕ
int_max = 0x7fff_ffff

-- `nextpid` is an int, written as its 32 bits.
unfoldable pub allocpid : Table → ℕ × Table
allocpid t = (t.nextpid, record t { nextpid = (t.nextpid + 1) % int_mod })

-- Fields that a freed process keeps: kstack, ofile and cwd. kfree and proc_freepagetable take back the
-- memory.
unfoldable pub freeproc : Proc → Proc
freeproc p = record p {
  has_trapframe = false;
  has_pagetable = false;
  sz = 0;
  pid = 0;
  parent = none;
  name = [];
  chan = no_chan;
  killed = false;
  xstate = 0;
  state = unused;
}

-- `got_trapframe` and `got_pagetable` say whether kalloc and proc_pagetable succeed.
unfoldable pub allocproc : Bool → Bool → Table → Option ℕ × Table
unfolding scan allocpid freeproc
allocproc got_trapframe got_pagetable t = elim (scan nproc 0 (λ i. is_unused (t.proc i).state)) [
  | none ↦ (none, t)
  | some i ↦
      let (pid, t') = allocpid t in
      let p = record (t.proc i) { pid = pid; state = used; has_trapframe = got_trapframe } in
      if not got_trapframe
      then (none, set_proc t' i (freeproc p))
      else if not got_pagetable
      then (none, set_proc t' i (freeproc p))
      else (some i, set_proc t' i (record p { has_pagetable = true }))
]

-- `me` is myproc(), if a process runs.
unfoldable pub wakeup : Option ℕ → Chan → Table → Table
unfolding for_each
wakeup me chan = for_each nproc 0 λ i p.
    if not (is_some_of me i) && (is_sleeping p.state && ite (Chan-discrete p.chan chan) true false)
    then record p { state = runnable }
    else p

-- `true` is 0 and `false` is -1.
unfoldable pub kill : ℕ → Table → Bool × Table
unfolding scan
kill pid t = elim (scan nproc 0 (λ i. (t.proc i).pid == pid)) [
  | none ↦ (false, t)
  | some i ↦
      let p = t.proc i in
      (
        true,
        set_proc t i
            (record p { killed = true; state = if is_sleeping p.state then runnable else p.state }),
      )
]

abbrev pub setkilled : ℕ → Table → Table
setkilled i t = set_proc t i (record (t.proc i) { killed = true })

abbrev pub killed : ℕ → Table → Bool
killed i t = (t.proc i).killed

-- sleep up to its call of sched, and after it
unfoldable pub sleep_start : ℕ → Chan → Table → Table
sleep_start me chan t = set_proc t me (record (t.proc me) { chan = chan; state = sleeping })

unfoldable pub sleep_end : ℕ → Table → Table
sleep_end me t = set_proc t me (record (t.proc me) { chan = no_chan })

-- yield up to its call of sched
unfoldable pub yield_start : ℕ → Table → Table
yield_start me t = set_proc t me (record (t.proc me) { state = runnable })

-- What the scheduler does to process `i` when its loop comes to it; the flag says that it switches to
-- it.
unfoldable pub schedule : ℕ → Table → Bool × Table
schedule i t =
    if is_runnable (t.proc i).state
    then (true, set_proc t i (record (t.proc i) { state = running }))
    else (false, t)

-- `if(p->ofile[i]) np->ofile[i] = filedup(p->ofile[i]);` for each place
abbrev pub inherit : List (Option ℕ) → List (Option ℕ) → List (Option ℕ)
inherit [] olds = olds
inherit (some f ∷ fs) [] = some f ∷ fs
inherit (none ∷ fs) [] = none ∷ fs
inherit (some f ∷ fs) (old ∷ olds) = some f ∷ inherit fs olds
inherit (none ∷ fs) (old ∷ olds) = old ∷ inherit fs olds

-- `copied` says whether uvmcopy succeeds. The child is entered into the table at once: the code sets its
-- parent and its state in sections of their own, while no other process knows of it.
unfoldable pub fork : Bool → Bool → Bool → ℕ → Table → Option ℕ × Table
unfolding allocproc
fork got_trapframe got_pagetable copied me t =
    let (found, t1) = allocproc got_trapframe got_pagetable t in
    elim found [
      | none ↦ (none, t1)
      | some i ↦
          let p = t1.proc me in
          let np = t1.proc i in
          if not copied then (none, set_proc t1 i (freeproc np)) else (
            some np.pid,
            set_proc t1 i (record np {
              sz = p.sz;
              ofile = inherit p.ofile np.ofile;
              cwd = p.cwd;
              name = p.name;
              parent = some me;
              state = runnable;
            }),
          )
    ]

-- `pp->parent = initproc; wakeup(initproc);` for each child
pub reparent_loop : ℕ → ℕ → ℕ → Table → Table
reparent_loop zero i me t = t
reparent_loop (suc rounds) i me t = reparent_loop rounds (i + 1) me (
    if is_some_of (t.proc i).parent me
    then wakeup (some me) (proc_chan t.initproc)
        (set_proc t i (record (t.proc i) { parent = some t.initproc }))
    else t)

unfoldable pub reparent : ℕ → Table → Table
unfolding reparent_loop wakeup
reparent me t = reparent_loop nproc 0 me t

abbrev pub chan_of : Option ℕ → Chan
chan_of none = no_chan
chan_of (some i) = proc_chan i

abbrev pub close_all : List (Option ℕ) → List (Option ℕ)
close_all [] = []
close_all (f ∷ fs) = none ∷ close_all fs

-- exit up to its call of sched; `none` is the panic of init. fileclose and iput drop the references.
unfoldable pub exit : ℕ → ℕ → Table → Option Table
unfolding reparent wakeup
exit status me t =
    if me == t.initproc
    then none
    else let p = t.proc me in
      let t1 = set_proc t me (record p { ofile = close_all p.ofile; cwd = none }) in
      let t2 = reparent me t1 in
      let t3 = wakeup (some me) (chan_of (t2.proc me).parent) t2 in
      some (set_proc t3 me (record (t3.proc me) { xstate = status; state = zombie }))

-- One scan of wait: it frees a zombie child and returns its pid, returns -1, or sleeps.
pub data Wait : Type 0 where
  found : ℕ → Wait
  failed : Wait
  sleeps : Wait

-- `copied` says whether copyout of the exit status to `addr` succeeds, if `addr` is not 0.
unfoldable pub wait : Bool → ℕ → ℕ → Table → Wait × Table
unfolding scan freeproc
wait copied addr me t =
    elim (scan nproc 0 (λ i. is_some_of (t.proc i).parent me && is_zombie (t.proc i).state)) [
      | some i ↦
          if not (addr == 0) && not copied
          then (failed, t)
          else (found (t.proc i).pid, set_proc t i (freeproc (t.proc i)))
      | none ↦ elim (scan nproc 0 (λ i. is_some_of (t.proc i).parent me)) [
        | none ↦ (failed, t)
        | some _ ↦ if (t.proc me).killed then (failed, t) else (sleeps, t)
      ]
    ]

-- the process that name(pid) and state(pid) look for
unfoldable pub find_pid : ℕ → Table → Option ℕ
unfolding scan
find_pid pid t = scan nproc 0 (λ i. (t.proc i).pid == pid)

-- `none` is the null pointer
unfoldable pub name : ℕ → Table → Option (List ℕ)
unfolding find_pid
name pid t = elim (find_pid pid t) [ none ↦ none | some i ↦ some (t.proc i).name ]

unfoldable pub procstate2str : ProcState → String
procstate2str unused = "UNUSED"
procstate2str used = "USED"
procstate2str sleeping = "SLEEPING"
procstate2str runnable = "RUNNABLE"
procstate2str running = "RUNNING"
procstate2str zombie = "ZOMBIE"

unfoldable pub state : ℕ → Table → Option String
unfolding find_pid procstate2str
state pid t = elim (find_pid pid t) [ none ↦ none | some i ↦ some (procstate2str (t.proc i).state) ]

-- A system call that copies a string out: it returns 1 with what it copied, returns -1, or reads
-- through the null pointer.
pub data Answer (A : Type 0) : Type 0 where
  copied_out : A → Answer A
  minus_one : Answer A
  null_read : Answer A

-- sys_procname and sys_state for a pid that is not negative; `writable` says whether copyout succeeds.
unfoldable pub sys_procname : Bool → ℕ → Table → Answer (List ℕ)
unfolding name
sys_procname writable pid t = elim (name pid t) [
  | none ↦ null_read
  | some s ↦ if writable then copied_out s else minus_one
]

unfoldable pub sys_state : Bool → ℕ → Table → Answer String
unfolding state
sys_state writable pid t = elim (state pid t) [
  | none ↦ null_read
  | some s ↦ if writable then copied_out s else minus_one
]

-- the loop of sys_year from process `i` on, with `room` places left in the user's buffer and the pids
-- that were copied out; `writable` says for each place whether copyout succeeds
pub year_loop : ℕ → ℕ → (ℕ → Bool) → ℕ → ℕ → Table → Option (List ℕ)
year_loop zero i writable size count t = some []
year_loop (suc rounds) i writable size count t =
    let skip = year_loop rounds (i + 1) writable size count t in
    let next = year_loop rounds (i + 1) writable size (count + 1) t in
    if not (ltb count size)
    then some []
    else if is_unused (t.proc i).state
    then skip
    else if writable count
    then elim next [ none ↦ none | some pids ↦ some ((t.proc i).pid ∷ pids) ]
    else none

-- sys_year for a size that is positive: `none` is -1, and else the number of pids is returned
unfoldable pub sys_year : (ℕ → Bool) → ℕ → Table → Option (List ℕ)
unfolding year_loop
sys_year writable size t = if size == 0 then none else year_loop nproc 0 writable size 0 t
