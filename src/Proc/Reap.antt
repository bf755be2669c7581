-- ===== src/Proc/Reap.antt =====
-- reparent, exit and wait of kernel/proc.c.
pub mod Reparent
use mathlib.Core.Bool.{false≢true}
use oslab.Prelude.{
  ℕ, zero, suc, ◌+◌, ◌≤◌, ◌<◌, ◌≡◌, ◌≢◌, ◌⊎◌, inl, inr, refl, sym, ap, ◌∙◌, Bool, true, false, not,
  ◌&&◌, Option, none, some, arith, if◌then◌else◌, ◌==◌, put, ℕ_discrete, Bool-cases, leb, ltb,
}
use mathlib.Core.Logic.{ite}
use oslab.Proc.{
  is_sleeping, Chan-discrete, runnable, Proc, zombie, Chan, proc_chan, Table, nproc, is_unused,
  is_some_of, set_proc, wakeup, reparent_loop, reparent, exit, close_all, chan_of,
}
use oslab.Proc.Scan.{for_each-proc, for_each-rest}
use oslab.Proc.Inv.{IsTable}
use oslab.Proc.Signals.{wakeup-IsTable, set-IsTable, live_of_pid, woken}
use oslab.Proc.Reap.Reparent.{
  adopted, if_keeps, woken-keeps, wakeup-keeps, wakeup-initproc, reparent_lem, reparent-IsTable,
  reparent-initproc, parent_live,
}

-- the table when exit marks the process: its files are closed, its children have a new parent, and its
-- parent was woken
abbrev closed : ℕ → Table → Table
closed me t = set_proc t me (record (t.proc me) { ofile = close_all (t.proc me).ofile; cwd = none })

abbrev woken_parent : ℕ → Table → Table
woken_parent me t =
    let t2 = reparent me (closed me t) in wakeup (some me) (chan_of (t2.proc me).parent) t2

abbrev done_proc : ℕ → ℕ → Table → Proc
done_proc status me t = record ((woken_parent me t).proc me) { xstate = status; state = zombie }

abbrev final : ℕ → ℕ → Table → Table
final status me t = set_proc (woken_parent me t) me (done_proc status me t)

put-same : (f : ℕ → Proc) (i : ℕ) (p : Proc) → put f i p i ≡ p
put-same f i p = ground arith

set-keeps :
    (t : Table) (i j : ℕ) (p : Proc)
    → p.parent ≡ (t.proc i).parent
    → p.pid ≡ (t.proc i).pid
    → (((set_proc t i p).proc j).parent ≡ (t.proc j).parent)
      × (((set_proc t i p).proc j).pid ≡ (t.proc j).pid)
set-keeps t i j p e e' = ground arith

exit-init : (status me : ℕ) (t : Table) → me ≡ t.initproc → exit status me t ≡ none
unfolding exit
exit-init status me t e =
    let same : (me == t.initproc) ≡ true = ground arith in
    ap (λ b. if b then none else some (final status me t)) same

exit-eq :
    (status me : ℕ) (t : Table) → me ≢ t.initproc → exit status me t ≡ some (final status me t)
unfolding exit
exit-eq status me t ne =
    let other : (me == t.initproc) ≡ false = ground arith in
    ap (λ b. if b then none else some (final status me t)) other

closed-keeps :
    (me i : ℕ) (t : Table)
    → (((closed me t).proc i).parent ≡ (t.proc i).parent)
      × (((closed me t).proc i).pid ≡ (t.proc i).pid)
closed-keeps me i t = ground arith

woken_parent-parent :
    (me i : ℕ) (t : Table)
    → i < nproc
    → (((woken_parent me t).proc i).parent ≡ adopted t.initproc me (t.proc i).parent)
      × (((woken_parent me t).proc i).pid ≡ (t.proc i).pid)
woken_parent-parent me i t lt =
    let t1 = closed me t in
    let t2 = reparent me t1 in
    let (e1, p1) = wakeup-keeps (some me) (chan_of (t2.proc me).parent) t2 i in
    let (e2, p2) = reparent_lem me i t1 lt in
    let (e3, p3) = closed-keeps me i t in (e1 ∙ e2 ∙ ap (adopted t.initproc me) e3, p1 ∙ p2 ∙ p3)

abbrev pub Exits : ℕ → ℕ → Table → Type 0
Exits status me t =
    ((me ≡ t.initproc) × (exit status me t ≡ none))
    ⊎ ((me ≢ t.initproc)
        × (t' : Table) × (exit status me t ≡ some t')
        × ((t'.proc me).state ≡ zombie)
        × ((t'.proc me).xstate ≡ status)
        × ((i : ℕ)
            → i < nproc
            → ((t'.proc i).pid ≡ (t.proc i).pid)
              × ((t'.proc i).parent ≡ (
                  if is_some_of (t.proc i).parent me then some t.initproc else (t.proc i).parent))))

-- exit panics exactly for init; every other process becomes a zombie with the status, every process
-- whose parent it was gets the parent init, and the others keep their parents; no pid changes.
pub exit_lem : (status me : ℕ) (t : Table) → me < nproc → Exits status me t
exit_lem status me t lt = elim (ℕ_discrete me t.initproc) [
  | yes e ↦ inl (e, exit-init status me t e)
  | no ne ↦ inr (
    ne,
    final status me t,
    exit-eq status me t ne,
    ap (λ p. p.state) (put-same (woken_parent me t).proc me (done_proc status me t)),
    ap (λ p. p.xstate) (put-same (woken_parent me t).proc me (done_proc status me t)),
    λ i lti.
        let (e, same_pid) = set-keeps (woken_parent me t) me i (done_proc status me t) refl refl in
        let (e1, same_pid1) = woken_parent-parent me i t lti in (same_pid ∙ same_pid1, e ∙ e1),
  )
]

-- exit of a live process keeps the invariant of the table.
pub exit-IsTable :
    (status me : ℕ) (t t' : Table)
    → me < nproc
    → IsTable t
    → is_unused (t.proc me).state ≡ false
    → exit status me t ≡ some t'
    → IsTable t'
exit-IsTable status me t t' lt v live e = elim (ℕ_discrete me t.initproc) [
  | yes init ↦ let e' : none ≡ some t' = sym (exit-init status me t init) ∙ e in cc
  | no ne ↦
      let v1 =
        set-IsTable t me (record (t.proc me) { ofile = close_all (t.proc me).ofile; cwd = none }) v
          live live refl in
      let t2 = reparent me (closed me t) in
      let v3 =
        wakeup-IsTable (some me) (chan_of (t2.proc me).parent) t2
          (reparent-IsTable me (closed me t) v1) in
      let same_pid = (woken_parent-parent me me t lt).1 in
      let live3 =
        live_of_pid (woken_parent me t) me v3 lt (λ z. v.pid_pos me lt live (sym same_pid ∙ z)) in
      let same : some (final status me t) ≡ some t' = sym (exit-eq status me t ne) ∙ e in
      let at : final status me t ≡ t' = cc in
      rw (← at) (set-IsTable (woken_parent me t) me (done_proc status me t) v3 live3 refl refl)
]
