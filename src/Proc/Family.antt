-- ===== src/Proc/Family.antt =====
-- allocproc, fork, exit, reparent and wait of kernel/proc.c.
use oslab.Prelude.{
  ℕ, ◌+◌, ◌%◌, ◌≤◌, ◌<◌, ◌≡◌, ◌≢◌, ◌⊎◌, inl, inr, refl, sym, ap, ◌∙◌, Bool, true, false, ◌&&◌, none,
  some, arith, put, ℕ_discrete, Bool-cases, Option-cases,
}
use mathlib.Core.Bool.{false≢true}
use oslab.Proc.{
  Proc, used, runnable, Table, nproc, int_mod, int_max, is_unused, set_proc, scan, allocproc,
  freeproc, fork, inherit,
}
use oslab.Proc.Scan.{scan-some, scan_first, scan-none}
use oslab.Proc.Inv.{IsTable, IsFree, same, freed, changes-IsTable, added-IsTable}
use oslab.Proc.Signals.{set-IsTable}

-- the process that allocproc makes
abbrev allocated : Table → ℕ → Proc
allocated t i = record (t.proc i) {
  pid = t.nextpid;
  state = used;
  has_trapframe = true;
  has_pagetable = true;
}

freeproc-IsFree : (p : Proc) → (is_unused (freeproc p).state ≡ true) × IsFree (freeproc p)
unfolding freeproc
freeproc-IsFree p = (refl, record { no_pid = refl; no_parent = refl; not_killed = refl })

-- a slot that is freed while a pid was taken
pub freed-IsTable :
    (t : Table) (i n : ℕ) (p : Proc)
    → IsTable t
    → t.nextpid ≤ n
    → IsTable (record t { proc = put t.proc i (freeproc p); nextpid = n })
freed-IsTable t i n p v le =
    changes-IsTable t (record t { proc = put t.proc i (freeproc p); nextpid = n }) v le
      (λ j lt. elim (ℕ_discrete i j) [
        | yes here ↦
            let at : put t.proc i (freeproc p) j ≡ freeproc p = ground arith in
            freed (rw at (freeproc-IsFree p).0) (rw at (freeproc-IsFree p).1)
        | no ne ↦ same (ground arith)
      ])

-- what allocproc does with the free slot that it finds
abbrev Takes : Bool → Bool → Table → ℕ → Type 0
Takes a b t i =
    (((a && b) ≡ true)
      × (allocproc a b t ≡ (
        some i,
        record t { proc = put t.proc i (allocated t i); nextpid = (t.nextpid + 1) % int_mod },
      )))
    ⊎ (((a && b) ≡ false)
        × (p : Proc) × (allocproc a b t ≡ (
          none,
          record t { proc = put t.proc i (freeproc p); nextpid = (t.nextpid + 1) % int_mod },
        )))

allocproc-Takes :
    (a b : Bool) (t : Table) (i : ℕ)
    → scan nproc 0 (λ k. is_unused (t.proc k).state) ≡ some i
    → Takes a b t i
unfolding allocproc
allocproc-Takes true true t i e = inl (refl, rw (e, allocproc))
allocproc-Takes true false t i e = inr (
  refl,
  record (t.proc i) { pid = t.nextpid; state = used; has_trapframe = true },
  rw (e, allocproc),
)
allocproc-Takes false b t i e = inr (
  refl,
  record (t.proc i) { pid = t.nextpid; state = used; has_trapframe = false },
  rw (e, allocproc),
)

-- allocproc finds no free slot, or takes the first one.
allocproc_cases :
    (a b : Bool) (t : Table)
    → ((allocproc a b t ≡ (none, t)) × ((i : ℕ) → i < nproc → is_unused (t.proc i).state ≡ false))
      ⊎ ((i : ℕ) × (i < nproc)
          × (is_unused (t.proc i).state ≡ true)
          × ((k : ℕ) → k < i → is_unused (t.proc k).state ≡ false)
          × Takes a b t i)
unfolding allocproc
allocproc_cases a b t = elim (Option-cases (scan nproc 0 (λ i. is_unused (t.proc i).state))) [
  | inl e ↦ inl (
    rw (e, allocproc),
    λ i lt. scan-none nproc 0 i (λ k. is_unused (t.proc k).state) e (omega arith) (omega arith),
  )
  | inr (i, e) ↦
      let (_, lt, hit) = scan-some nproc 0 i (λ k. is_unused (t.proc k).state) e in
      inr (
        i,
        omega arith,
        hit,
        λ k less. scan_first nproc 0 i k (λ k. is_unused (t.proc k).state) e (omega arith) less,
        allocproc-Takes a b t i e,
      )
]

-- allocproc keeps the invariant of the table, whether it succeeds, finds no slot or runs out of memory, while
-- pids do not overflow.
pub allocproc-IsTable :
    (a b : Bool) (t : Table) → IsTable t → t.nextpid < int_max → IsTable (allocproc a b t).1
allocproc-IsTable a b t v pids =
    let small : (t.nextpid + 1) % int_mod ≡ t.nextpid + 1 = omega arith in
    elim (allocproc_cases a b t) [
      | inl (e, _) ↦ rw e v
      | inr (i, lt, _, _, inl (_, e)) ↦
          rw (e, small) (added-IsTable t v i (allocated t i) refl refl)
      | inr (i, lt, _, _, inr (_, p, e)) ↦
          rw (e, small) (freed-IsTable t i (t.nextpid + 1) p v (omega arith))
    ]

fresh_pid : (t : Table) → IsTable t → (k : ℕ) → k < nproc → (t.proc k).pid ≢ t.nextpid
fresh_pid t v k lt e = elim (Bool-cases (is_unused (t.proc k).state)) [
  | inl u ↦ v.next_pos (sym e ∙ (v.free k lt u).no_pid)
  | inr l ↦ absurd (omega (arith, v.pid_used k lt l))
]

abbrev pub Allocates : Bool → Bool → Table → Type 0
Allocates a b t =
    (((allocproc a b t).0 ≡ none)
      × (((i : ℕ) → i < nproc → is_unused (t.proc i).state ≡ false) ⊎ ((a && b) ≡ false)))
    ⊎ ((i : ℕ) × ((allocproc a b t).0 ≡ some i)
        × (i < nproc)
        × (is_unused (t.proc i).state ≡ true)
        × ((k : ℕ) → k < i → is_unused (t.proc k).state ≡ false)
        × (((allocproc a b t).1.proc i).state ≡ used)
        × (((allocproc a b t).1.proc i).pid ≡ t.nextpid)
        × ((k : ℕ) → k < nproc → (t.proc k).pid ≢ ((allocproc a b t).1.proc i).pid)
        × ((k : ℕ) → k ≢ i → (allocproc a b t).1.proc k ≡ t.proc k))

-- In a valid table, allocproc fails because every slot is taken or because memory runs out, or it
-- returns the first free slot, with a pid that no process of the table has, and every other slot is
-- as before.
pub allocproc_lem : (a b : Bool) (t : Table) → IsTable t → Allocates a b t
allocproc_lem a b t v = elim (allocproc_cases a b t) [
  | inl (e, full) ↦ inl (rw e, inl full)
  | inr (i, lt, free, first, inr (bad, p, e)) ↦ inl (rw e, inr bad)
  | inr (i, lt, free, first, inl (good, e)) ↦
      let at : put t.proc i (allocated t i) i ≡ allocated t i = ground arith in
      inr (
        i,
        rw e,
        lt,
        free,
        first,
        rw e (rw at),
        rw e (rw at),
        rw e (rw at λ k ltk same_pid. fresh_pid t v k ltk same_pid),
        rw e λ k ne. ground arith,
      )
]

-- the child that fork makes of the allocated process
abbrev child : ℕ → Proc → Proc → Proc
child me p np = record np {
  sz = p.sz;
  ofile = inherit p.ofile np.ofile;
  cwd = p.cwd;
  name = p.name;
  parent = some me;
  state = runnable;
}

fork-none :
    (a b c : Bool) (me : ℕ) (t : Table)
    → (allocproc a b t).0 ≡ none
    → fork a b c me t ≡ (none, (allocproc a b t).1)
unfolding fork
fork-none a b c me t e = rw (e, fork)

fork-failed :
    (a b c : Bool) (me i : ℕ) (t : Table)
    → (allocproc a b t).0 ≡ some i
    → c ≡ false
    → let t1 = (allocproc a b t).1 in fork a b c me t ≡ (none, set_proc t1 i (freeproc (t1.proc i)))
unfolding fork
fork-failed a b true me i t e bad = cc
fork-failed a b false me i t e bad = rw (e, fork)

fork-child :
    (a b c : Bool) (me i : ℕ) (t : Table)
    → (allocproc a b t).0 ≡ some i
    → c ≡ true
    → let t1 = (allocproc a b t).1 in
      fork a b c me t ≡ (some (t1.proc i).pid, set_proc t1 i (child me (t1.proc me) (t1.proc i)))
unfolding fork
fork-child a b true me i t e good = rw (e, fork)
fork-child a b false me i t e good = cc

-- fork keeps the invariant of the table on every path: no free slot, no memory, and success. The next pid is
-- below the largest int, so that it does not overflow.
pub fork-IsTable :
    (a b c : Bool) (me : ℕ) (t : Table)
    → IsTable t
    → t.nextpid < int_max
    → IsTable (fork a b c me t).1
fork-IsTable a b c me t v pids = elim (allocproc_lem a b t v) [
  | inl (e, _) ↦ rw (fork-none a b c me t e) (allocproc-IsTable a b t v pids)
  | inr (i, e, _, _, _, is_used, _, _, _) ↦ elim (Bool-cases c) [
    | inl good ↦
        let t1 = (allocproc a b t).1 in
        rw (fork-child a b c me i t e good) (
          set-IsTable t1 i (child me (t1.proc me) (t1.proc i)) (allocproc-IsTable a b t v pids)
            (rw is_used refl) refl refl)
    | inr bad ↦
        let t1 = (allocproc a b t).1 in
        rw (fork-failed a b c me i t e bad)
          (freed-IsTable t1 i t1.nextpid (t1.proc i) (allocproc-IsTable a b t v pids) (omega arith))
  ]
]

put-other : (f : ℕ → Proc) (i k : ℕ) (p : Proc) → k ≢ i → put f i p k ≡ f k
put-other f i k p ne = ground arith

abbrev pub Forks : Bool → Bool → Bool → ℕ → ℕ → Table → Type 0
Forks a b c me pid t =
    let t' = (fork a b c me t).1 in
    (pid ≢ 0)
    × (pid < int_max)
    × (i : ℕ) × (i < nproc)
    × (is_unused (t.proc i).state ≡ true)
    × ((t'.proc i).pid ≡ pid)
    × ((t'.proc i).parent ≡ some me)
    × ((t'.proc i).state ≡ runnable)
    × ((t'.proc i).sz ≡ (t.proc me).sz)
    × ((t'.proc i).cwd ≡ (t.proc me).cwd)
    × ((t'.proc i).name ≡ (t.proc me).name)
    × ((k : ℕ) → k < nproc → (t.proc k).pid ≢ pid)
    × ((k : ℕ) → k ≢ i → t'.proc k ≡ t.proc k)

-- When fork returns a pid to a live process of a valid table, in which the next pid is below the largest
-- int, the pid is a positive int, and a slot that was free holds a runnable child of the caller with that
-- pid, which no process had, and with the caller's size, directory and name; every other slot is as before.
pub fork_lem :
    (a b c : Bool) (me pid : ℕ) (t : Table)
    → IsTable t
    → t.nextpid < int_max
    → is_unused (t.proc me).state ≡ false
    → (fork a b c me t).0 ≡ some pid
    → Forks a b c me pid t
fork_lem a b c me pid t v pids live e = elim (allocproc_lem a b t v) [
  | inl (got_none, _) ↦
      let e' : none ≡ some pid = ap (λ r. r.0) (sym (fork-none a b c me t got_none)) ∙ e in cc
  | inr (i, got, lt, free, _, _, next, fresh, rest) ↦ elim (Bool-cases c) [
    | inr bad ↦
        let e' : none ≡ some pid = ap (λ r. r.0) (sym (fork-failed a b c me i t got bad)) ∙ e in cc
    | inl good ↦
        let t1 = (allocproc a b t).1 in
        let made = fork-child a b c me i t got good in
        let same : some (t1.proc i).pid ≡ some pid = ap (λ r. r.0) (sym made) ∙ e in
        let same_pid : (t1.proc i).pid ≡ pid = cc in
        let ne : me ≢ i =
          λ e1. absurd (false≢true (sym live ∙ ap (λ k. is_unused (t.proc k).state) e1 ∙ free)) in
        let kept : t1.proc me ≡ t.proc me = rest me ne in
        let at : put t1.proc i (child me (t1.proc me) (t1.proc i)) i
            ≡ child me (t1.proc me) (t1.proc i) =
          ground arith in
        rw made (
          rw (← same_pid, next) v.next_pos,
          rw (← same_pid, next) pids,
          i,
          lt,
          free,
          ap (λ p. p.pid) at ∙ same_pid,
          ap (λ p. p.parent) at,
          ap (λ p. p.state) at,
          ap (λ p. p.sz) at ∙ ap (λ p. p.sz) kept,
          ap (λ p. p.cwd) at ∙ ap (λ p. p.cwd) kept,
          ap (λ p. p.name) at ∙ ap (λ p. p.name) kept,
          λ k ltk e1. fresh k ltk (e1 ∙ sym same_pid),
          λ k nek. put-other t1.proc i k (child me (t1.proc me) (t1.proc i)) nek ∙ rest k nek,
        )
  ]
]
