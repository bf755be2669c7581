-- ===== src/Proc/Signals.antt =====
-- kill, wakeup, sleep, yield and the scheduler's choice in kernel/proc.c.
use mathlib.Core.Logic.{ite}
use oslab.Prelude.{
  ℕ, ◌<◌, ◌≡◌, ◌≢◌, ◌⊎◌, inl, inr, refl, ap, ◌∙◌, true, false, not, ◌&&◌, Option, some, arith,
  if◌then◌else◌, ◌==◌, ℕ_discrete, Bool-cases, Option-cases,
}
use oslab.Proc.{
  Proc, runnable, Chan, Chan-discrete, Table, nproc, is_unused, is_sleeping, is_some_of, set_proc,
  scan, wakeup, kill, allocproc,
}
use oslab.Proc.Scan.{scan-some, scan_first, scan-none, scan-eq-some, for_each-proc, for_each-rest}
use oslab.Proc.Inv.{IsTable, Change, same, kept, changes-IsTable}

-- what wakeup makes of a process
abbrev pub woken : Option ℕ → Chan → ℕ → Proc → Proc
woken me chan i p =
    if not (is_some_of me i) && (is_sleeping p.state && ite (Chan-discrete p.chan chan) true false)
    then record p { state = runnable }
    else p

abbrev pub Wakes : Option ℕ → Chan → Table → ℕ → Type 0
Wakes me chan t i =
    ((wakeup me chan t).proc i ≡ woken me chan i (t.proc i))
    × ((wakeup me chan t).nextpid ≡ t.nextpid)
    × ((wakeup me chan t).initproc ≡ t.initproc)

-- wakeup makes exactly the processes runnable that sleep on the channel, other than the caller, and
-- changes nothing else.
pub wakeup_lem : (me : Option ℕ) (chan : Chan) (t : Table) (i : ℕ) → i < nproc → Wakes me chan t i
unfolding wakeup
wakeup_lem me chan t i lt =
    let rest = for_each-rest nproc 0 (woken me chan) t in
    (ground (arith, for_each-proc nproc 0 i (woken me chan) t), rest.0, rest.1)

woken-Change :
    (t t' : Table) (me : Option ℕ) (chan : Chan) (i : ℕ)
    → t'.proc i ≡ woken me chan i (t.proc i)
    → Change t t' i
woken-Change t t' me chan i e =
    elim (Bool-cases (
      not (is_some_of me i)
      && (is_sleeping (t.proc i).state && ite (Chan-discrete (t.proc i).chan chan) true false))) [
        | inl hit ↦
            let e' : t'.proc i ≡ record (t.proc i) { state = runnable } = e ∙ rw hit in
            kept (ground arith) (rw e') (rw e')
        | inr miss ↦ same (e ∙ rw miss)
      ]

pub wakeup-IsTable :
    (me : Option ℕ) (chan : Chan) (t : Table) → IsTable t → IsTable (wakeup me chan t)
wakeup-IsTable me chan t v =
    changes-IsTable t (wakeup me chan t) v (omega (arith, (wakeup_lem me chan t 0 (omega arith)).1))
      (λ i lt. woken-Change t (wakeup me chan t) me chan i (wakeup_lem me chan t i lt).0)

-- the process that kill marks, with `killed` set and awake
abbrev pub marked : Proc → Proc
marked p = record p { killed = true; state = if is_sleeping p.state then runnable else p.state }

abbrev pub Kills : ℕ → Table → Type 0
Kills pid t =
    ((kill pid t ≡ (false, t)) × ((i : ℕ) → i < nproc → (t.proc i).pid ≢ pid))
    ⊎ ((i : ℕ) × (i < nproc)
        × ((t.proc i).pid ≡ pid)
        × ((k : ℕ) → k < i → (t.proc k).pid ≢ pid)
        × (kill pid t ≡ (true, set_proc t i (marked (t.proc i)))))

-- kill returns -1 and changes nothing exactly if no process has the pid; else it returns 0, marks a
-- process with the pid, the first one, wakes it if it sleeps, and changes nothing else.
pub kill_lem : (pid : ℕ) (t : Table) → Kills pid t
unfolding kill
kill_lem pid t = elim (Option-cases (scan nproc 0 (λ i. (t.proc i).pid == pid))) [
  | inl e ↦
      inl (rw (e, kill), λ i lt. ground (arith, scan-none nproc 0 i (λ j. (t.proc j).pid == pid) e))
  | inr (i, e) ↦
      let (_, lt, hit) = scan-some nproc 0 i (λ j. (t.proc j).pid == pid) e in
      inr (
        i,
        omega arith,
        ground arith,
        λ k less. ground (arith, scan_first nproc 0 i k (λ j. (t.proc j).pid == pid) e),
        rw (e, kill),
      )
]

-- a change of one slot that keeps a live process and its pid
pub set-IsTable :
    (t : Table) (i : ℕ) (p : Proc)
    → IsTable t
    → is_unused (t.proc i).state ≡ false
    → is_unused p.state ≡ false
    → p.pid ≡ (t.proc i).pid
    → IsTable (set_proc t i p)
set-IsTable t i p v live live' e = changes-IsTable t (set_proc t i p) v (omega arith) (λ j lt.
    elim (ℕ_discrete i j) [
      | yes here ↦
          let at : (set_proc t i p).proc j ≡ p = ground arith in
          kept (rw (← here) live) (rw at live') (rw (at, ← here) e)
      | no ne ↦ same (ground arith)
    ])

pub live_of_pid :
    (t : Table) (i : ℕ)
    → IsTable t
    → i < nproc
    → (t.proc i).pid ≢ 0
    → is_unused (t.proc i).state ≡ false
live_of_pid t i v lt ne = elim (Bool-cases (is_unused (t.proc i).state)) [
  | inl u ↦ absurd (ne (v.free i lt u).no_pid)
  | inr l ↦ l
]

free_of_pid :
    (t : Table) (i : ℕ)
    → IsTable t
    → i < nproc
    → (t.proc i).pid ≡ 0
    → is_unused (t.proc i).state ≡ true
free_of_pid t i v lt e = elim (Bool-cases (is_unused (t.proc i).state)) [
  | inl u ↦ u
  | inr l ↦ absurd (v.pid_pos i lt l e)
]

marked-free : (p : Proc) → is_unused p.state ≡ true → is_unused (marked p).state ≡ true
marked-free p h = ground arith

marked-live : (p : Proc) → is_unused p.state ≡ false → is_unused (marked p).state ≡ false
marked-live p h = ground arith

-- kill of a pid other than 0 keeps the invariant of the table.
pub kill-IsTable : (pid : ℕ) (t : Table) → pid ≢ 0 → IsTable t → IsTable (kill pid t).1
kill-IsTable pid t ne v = elim (kill_lem pid t) [
  | inl (e, _) ↦ rw e v
  | inr (i, lt, hit, _, e) ↦
      let live = live_of_pid t i v lt (rw hit ne) in
      rw e (set-IsTable t i (marked (t.proc i)) v live (marked-live (t.proc i) live) refl)
]

allocproc_at :
    (t : Table) (i : ℕ)
    → scan nproc 0 (λ k. is_unused (t.proc k).state) ≡ some i
    → ((allocproc true true t).0 ≡ some i)
      × (((allocproc true true t).1.proc i).killed ≡ (t.proc i).killed)
unfolding allocproc
allocproc_at t i e = rw (e, allocproc) (refl, ground arith)

abbrev pub BornKilled : Table → Type 0
BornKilled t =
    ((kill 0 t).0 ≡ true)
    × (j : ℕ) × (j < nproc)
    × (is_unused (t.proc j).state ≡ true)
    × ((kill 0 t).1 ≡ set_proc t j (marked (t.proc j)))
    × ((allocproc true true (kill 0 t).1).0 ≡ some j)
    × (((allocproc true true (kill 0 t).1).1.proc j).killed ≡ true)

-- In a valid table with a free slot, kill(0) returns 0 and marks a free slot as killed and changes nothing else, and the next
-- process that allocproc makes is in that slot and is killed before it has run.
pub kill_zero-allocproc :
    (t : Table) (i : ℕ) → IsTable t → i < nproc → is_unused (t.proc i).state ≡ true → BornKilled t
kill_zero-allocproc t i v lt u = elim (kill_lem 0 t) [
  | inl (_, none_has) ↦ absurd (none_has i lt (v.free i lt u).no_pid)
  | inr (j, ltj, hit, first, e) ↦
      let free : is_unused (t.proc j).state ≡ true = free_of_pid t j v ltj hit in
      let here : (set_proc t j (marked (t.proc j))).proc j ≡ marked (t.proc j) = ground arith in
      let still : is_unused (marked (t.proc j)).state ≡ true = marked-free (t.proc j) free in
      let found =
        scan-eq-some nproc 0 j (λ k. is_unused ((set_proc t j (marked (t.proc j))).proc k).state)
          (omega arith) (omega arith) (rw here still)
          (λ k _ less.
            let there : (set_proc t j (marked (t.proc j))).proc k ≡ t.proc k = ground arith in
            rw there (live_of_pid t k v (omega arith) (first k less))) in
      let (got, killed) = allocproc_at (set_proc t j (marked (t.proc j))) j found in
      rw e (refl, j, ltj, free, refl, got, killed ∙ ap (λ p. p.killed) here)
]
