-- ===== src/Proc/Listing.antt =====
-- The system calls of kernel/sysproc.c that list and name processes.
use oslab.Prelude.{
  ℕ, zero, suc, ◌+◌, ◌<◌, ◌≡◌, ◌≢◌, ◌⊎◌, inl, inr, refl, ap, ◌∙◌, Bool, true, false, none, some,
  arith, if◌then◌else◌, ◌==◌, Option-cases, List, [], ◌∷◌, take,
}
use oslab.Proc.{
  Table, nproc, is_unused, scan, find_pid, name, state, procstate2str, null_read, copied_out,
  minus_one, sys_procname, sys_state, year_loop, sys_year,
}
use oslab.Proc.Scan.{scan-some, scan-none}

find_pid-cases :
    (pid : ℕ) (t : Table)
    → ((find_pid pid t ≡ none) × ((i : ℕ) → i < nproc → (t.proc i).pid ≢ pid))
      ⊎ ((i : ℕ) × (find_pid pid t ≡ some i) × (i < nproc) × ((t.proc i).pid ≡ pid))
unfolding find_pid
find_pid-cases pid t = elim (Option-cases (scan nproc 0 (λ i. (t.proc i).pid == pid))) [
  | inl e ↦ inl (e, λ i lt. ground (arith, scan-none nproc 0 i (λ j. (t.proc j).pid == pid) e))
  | inr (i, e) ↦
      let (_, lt, hit) = scan-some nproc 0 i (λ j. (t.proc j).pid == pid) e in
      inr (i, e, omega arith, ground arith)
]

procname-none :
    (w : Bool) (pid : ℕ) (t : Table) → find_pid pid t ≡ none → sys_procname w pid t ≡ null_read
unfolding sys_procname name
procname-none w pid t e = rw (e, sys_procname, name) refl

procname-some :
    (w : Bool) (pid i : ℕ) (t : Table)
    → find_pid pid t ≡ some i
    → sys_procname w pid t ≡ (if w then copied_out (t.proc i).name else minus_one)
unfolding sys_procname name
procname-some w pid i t e = rw (e, sys_procname, name) refl

abbrev pub Names : Bool → ℕ → Table → Type 0
Names w pid t =
    ((sys_procname w pid t ≡ null_read) × ((i : ℕ) → i < nproc → (t.proc i).pid ≢ pid))
    ⊎ ((i : ℕ) × (i < nproc)
        × ((t.proc i).pid ≡ pid)
        × (sys_procname w pid t ≡ (if w then copied_out (t.proc i).name else minus_one)))

-- For a pid that no process has, procname reads the string at a null pointer; for the pid of a process
-- it copies out the name of a process with that pid, or returns -1 if the buffer cannot be written.
pub sys_procname_lem : (w : Bool) (pid : ℕ) (t : Table) → Names w pid t
sys_procname_lem w pid t = elim (find_pid-cases pid t) [
  | inl (e, absent) ↦ inl (procname-none w pid t e, absent)
  | inr (i, e, lt, hit) ↦ inr (i, lt, hit, procname-some w pid i t e)
]

state-none :
    (w : Bool) (pid : ℕ) (t : Table) → find_pid pid t ≡ none → sys_state w pid t ≡ null_read
unfolding sys_state state
state-none w pid t e = rw (e, sys_state, state) refl

state-some :
    (w : Bool) (pid i : ℕ) (t : Table)
    → find_pid pid t ≡ some i
    → sys_state w pid t ≡ (if w then copied_out (procstate2str (t.proc i).state) else minus_one)
unfolding sys_state state
state-some w pid i t e = rw (e, sys_state, state) refl

abbrev pub States : Bool → ℕ → Table → Type 0
States w pid t =
    ((sys_state w pid t ≡ null_read) × ((i : ℕ) → i < nproc → (t.proc i).pid ≢ pid))
    ⊎ ((i : ℕ) × (i < nproc)
        × ((t.proc i).pid ≡ pid)
        × (sys_state w pid t
            ≡ (if w then copied_out (procstate2str (t.proc i).state) else minus_one)))

-- For a pid that no process has, state reads the string at a null pointer; for the pid of a process it
-- copies out the state of a process with that pid, or returns -1 if the buffer cannot be written.
pub sys_state_lem : (w : Bool) (pid : ℕ) (t : Table) → States w pid t
sys_state_lem w pid t = elim (find_pid-cases pid t) [
  | inl (e, absent) ↦ inl (state-none w pid t e, absent)
  | inr (i, e, lt, hit) ↦ inr (i, lt, hit, state-some w pid i t e)
]

-- the pids of the processes in the slots from `i` on, in the order of the table
abbrev pub live_pids : ℕ → ℕ → Table → List ℕ
live_pids zero i t = []
live_pids (suc rounds) i t =
    let rest = live_pids rounds (i + 1) t in
    if is_unused (t.proc i).state then rest else (t.proc i).pid ∷ rest

year_loop_lem :
    (rounds i size count room : ℕ) (w : ℕ → Bool) (t : Table)
    → ((k : ℕ) → k < size → w k ≡ true)
    → count + room ≡ size
    → year_loop rounds i w size count t ≡ some (take room (live_pids rounds i t))
unfolding year_loop
year_loop_lem zero i size count zero w t h e = refl
year_loop_lem zero i size count (suc room) w t h e = refl
year_loop_lem (suc rounds) i size count zero w t h e = ground arith
year_loop_lem (suc rounds) i size count (suc room) w t h e = ground (
  arith,
  h count (omega arith),
  year_loop_lem rounds (i + 1) size count (suc room) w t h e,
  year_loop_lem rounds (i + 1) size (count + 1) room w t h (omega arith),
)

-- sys_year with a positive size and a buffer that can be written copies out the pids of the
-- processes in the order of the table, as many as fit.
pub sys_year_lem :
    (size : ℕ) (w : ℕ → Bool) (t : Table)
    → size ≢ 0
    → ((k : ℕ) → k < size → w k ≡ true)
    → sys_year w size t ≡ some (take size (live_pids nproc 0 t))
unfolding sys_year
sys_year_lem size w t ne h =
    let positive : (size == 0) ≡ false = ground arith in
    ap (λ b. if b then none else year_loop nproc 0 w size 0 t) positive
    ∙ year_loop_lem nproc 0 size 0 size w t h (omega arith)
