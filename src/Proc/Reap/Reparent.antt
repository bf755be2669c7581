-- ===== src/Proc/Reap/Reparent.antt =====
-- wakeup and reparent of kernel/proc.c: what they keep, and whom reparent hands to init.
use mathlib.Core.Bool.{false≢true}
use oslab.Prelude.{
  ℕ, zero, suc, ◌+◌, ◌≤◌, ◌<◌, ◌≡◌, inl, inr, refl, sym, ap, ◌∙◌, Bool, true, false, not, ◌&&◌,
  Option, some, arith, if◌then◌else◌, ◌==◌, Bool-cases, leb, ltb,
}
use mathlib.Core.Logic.{ite}
use oslab.Proc.{
  is_sleeping, Chan-discrete, runnable, Proc, Chan, proc_chan, Table, nproc, is_unused, is_some_of,
  set_proc, wakeup, reparent_loop, reparent,
}
use oslab.Proc.Scan.{for_each-proc, for_each-rest}
use oslab.Proc.Inv.{IsTable}
use oslab.Proc.Signals.{wakeup-IsTable, set-IsTable, woken}

pub if_keeps :
    (b : Bool) (p q : Proc)
    → (p.parent ≡ q.parent) × (p.pid ≡ q.pid)
    → ((if b then p else q).parent ≡ q.parent) × ((if b then p else q).pid ≡ q.pid)
if_keeps true p q h = h
if_keeps false p q h = (refl, refl)

pub woken-keeps :
    (me : Option ℕ) (chan : Chan) (i : ℕ) (p : Proc)
    → ((woken me chan i p).parent ≡ p.parent) × ((woken me chan i p).pid ≡ p.pid)
woken-keeps me chan i p =
    if_keeps
      (not (is_some_of me i) && (is_sleeping p.state && ite (Chan-discrete p.chan chan) true false))
      (record p { state = runnable }) p (refl, refl)

-- wakeup changes no parent and no pid
pub wakeup-keeps :
    (me : Option ℕ) (chan : Chan) (t : Table) (i : ℕ)
    → (((wakeup me chan t).proc i).parent ≡ (t.proc i).parent)
      × (((wakeup me chan t).proc i).pid ≡ (t.proc i).pid)
unfolding wakeup
wakeup-keeps me chan t i = rw (for_each-proc nproc 0 i (woken me chan) t) (
    if_keeps (leb 0 i && ltb i (0 + nproc)) (woken me chan i (t.proc i)) (t.proc i)
      (woken-keeps me chan i (t.proc i)))

pub wakeup-initproc :
    (me : Option ℕ) (chan : Chan) (t : Table) → (wakeup me chan t).initproc ≡ t.initproc
unfolding wakeup
wakeup-initproc me chan t = (for_each-rest nproc 0 (woken me chan) t).1

-- one round of reparent
abbrev adopt : ℕ → ℕ → Table → Table
adopt me i t =
    if is_some_of (t.proc i).parent me
    then wakeup (some me) (proc_chan t.initproc)
        (set_proc t i (record (t.proc i) { parent = some t.initproc }))
    else t

abbrev pub adopted : ℕ → ℕ → Option ℕ → Option ℕ
adopted init me parent = if is_some_of parent me then some init else parent

adopt_lem :
    (me i j : ℕ) (t : Table)
    → ((adopt me i t).initproc ≡ t.initproc)
      × (((adopt me i t).proc j).pid ≡ (t.proc j).pid)
      × (((adopt me i t).proc j).parent
          ≡ (if i == j then adopted t.initproc me (t.proc j).parent else (t.proc j).parent))
adopt_lem me i j t = elim (Bool-cases (is_some_of (t.proc i).parent me)) [
  | inl hit ↦
      let t' = set_proc t i (record (t.proc i) { parent = some t.initproc }) in
      ground (
        arith,
        wakeup-keeps (some me) (proc_chan t.initproc) t' j,
        wakeup-initproc (some me) (proc_chan t.initproc) t',
      )
  | inr miss ↦ ground arith
]

reparent_loop_lem :
    (rounds i me j : ℕ) (t : Table)
    → ((reparent_loop rounds i me t).initproc ≡ t.initproc)
      × (((reparent_loop rounds i me t).proc j).pid ≡ (t.proc j).pid)
      × (((reparent_loop rounds i me t).proc j).parent ≡ (
          if leb i j && ltb j (i + rounds)
          then adopted t.initproc me (t.proc j).parent
          else (t.proc j).parent))
unfolding reparent_loop
reparent_loop_lem zero i me j t = ground arith
reparent_loop_lem (suc rounds) i me j t =
    ground (arith, adopt_lem me i j t, reparent_loop_lem rounds (i + 1) me j (adopt me i t))

in_range : (j : ℕ) → j < nproc → (leb 0 j && ltb j (0 + nproc)) ≡ true
in_range j lt = ground arith

-- After reparent, whatever process had the parent `me` has the parent initproc, and every other process
-- keeps its parent.
pub reparent_lem :
    (me j : ℕ) (t : Table)
    → j < nproc
    → (((reparent me t).proc j).parent ≡ adopted t.initproc me (t.proc j).parent)
      × (((reparent me t).proc j).pid ≡ (t.proc j).pid)
unfolding reparent
reparent_lem me j t lt =
    let (_, same_pid, e) = reparent_loop_lem nproc 0 me j t in
    (
      e
          ∙ ap (λ b. if b then adopted t.initproc me (t.proc j).parent else (t.proc j).parent)
              (in_range j lt),
      same_pid,
    )

-- a slot with a parent is live
pub parent_live :
    (t : Table) (i me : ℕ)
    → IsTable t
    → i < nproc
    → is_some_of (t.proc i).parent me ≡ true
    → is_unused (t.proc i).state ≡ false
parent_live t i me v lt h = elim (Bool-cases (is_unused (t.proc i).state)) [
  | inl u ↦ absurd (false≢true (ap (λ o. is_some_of o me) (sym (v.free i lt u).no_parent) ∙ h))
  | inr l ↦ l
]

adopt-IsTable : (me i : ℕ) (t : Table) → i < nproc → IsTable t → IsTable (adopt me i t)
adopt-IsTable me i t lt v = elim (Bool-cases (is_some_of (t.proc i).parent me)) [
  | inl hit ↦
      let live = parent_live t i me v lt hit in
      rw hit (
        wakeup-IsTable (some me) (proc_chan t.initproc)
          (set_proc t i (record (t.proc i) { parent = some t.initproc }))
          (set-IsTable t i (record (t.proc i) { parent = some t.initproc }) v live live refl))
  | inr miss ↦ rw miss v
]

reparent_loop-IsTable :
    (rounds i me : ℕ) (t : Table)
    → i + rounds ≤ nproc
    → IsTable t
    → IsTable (reparent_loop rounds i me t)
unfolding reparent_loop
reparent_loop-IsTable zero i me t le v = v
reparent_loop-IsTable (suc rounds) i me t le v =
    reparent_loop-IsTable rounds (i + 1) me (adopt me i t) (omega arith)
      (adopt-IsTable me i t (omega arith) v)

-- reparent keeps the invariant of the table.
pub reparent-IsTable : (me : ℕ) (t : Table) → IsTable t → IsTable (reparent me t)
unfolding reparent
reparent-IsTable me t v = reparent_loop-IsTable nproc 0 me t (omega arith) v

pub reparent-initproc : (me : ℕ) (t : Table) → (reparent me t).initproc ≡ t.initproc
unfolding reparent
reparent-initproc me t = (reparent_loop_lem nproc 0 me 0 t).0
