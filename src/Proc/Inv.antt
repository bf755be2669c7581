-- ===== src/Proc/Inv.antt =====
-- The invariant of the process table of kernel/proc.c, and the ways in which a step keeps it.
use oslab.Prelude.{
  ℕ, ◌+◌, ◌≤◌, ◌<◌, ◌≡◌, ◌≢◌, ◌⊎◌, inl, inr, sym, ap, ◌∙◌, true, false, none, arith, put,
}
use mathlib.Core.Bool.{false≢true}
use oslab.Proc.{Proc, Table, nproc, is_unused}

-- A free slot has no pid, no parent and no mark of a kill.
pub record IsFree (p : Proc) : Type 0 where
  pub no_pid : p.pid ≡ 0
  pub no_parent : p.parent ≡ none
  pub not_killed : p.killed ≡ false

pub record IsTable (t : Table) : Type 0 where
  pub free : (i : ℕ) → i < nproc → is_unused (t.proc i).state ≡ true → IsFree (t.proc i)
  pub pid_pos : (i : ℕ) → i < nproc → is_unused (t.proc i).state ≡ false → (t.proc i).pid ≢ 0
  pub pid_used :
      (i : ℕ) → i < nproc → is_unused (t.proc i).state ≡ false → (t.proc i).pid < t.nextpid
  pub distinct :
      (i j : ℕ)
      → i < nproc
      → j < nproc
      → is_unused (t.proc i).state ≡ false
      → is_unused (t.proc j).state ≡ false
      → (t.proc i).pid ≡ (t.proc j).pid
      → i ≡ j
  pub next_pos : t.nextpid ≢ 0

-- A slot before and after a step: it keeps its process, is freed, or gets a new process.
pub data Change (t t' : Table) (i : ℕ) : Type 0 where
  same : t'.proc i ≡ t.proc i → Change t t' i
  kept :
      is_unused (t.proc i).state ≡ false
      → is_unused (t'.proc i).state ≡ false
      → (t'.proc i).pid ≡ (t.proc i).pid
      → Change t t' i
  freed : is_unused (t'.proc i).state ≡ true → IsFree (t'.proc i) → Change t t' i

module _ (t t' : Table) (v : IsTable t) (le : t.nextpid ≤ t'.nextpid) where
  -- a slot that is live afterwards was live before, with the same pid
  live_before :
      (i : ℕ)
      → Change t t' i
      → is_unused (t'.proc i).state ≡ false
      → (is_unused (t.proc i).state ≡ false) × ((t'.proc i).pid ≡ (t.proc i).pid)
  live_before i (same e) h = (rw (← e) h, ap (λ p. p.pid) e)
  live_before i (kept l l' e) h = (l, e)
  live_before i (freed u f) h = cc

  IsFree-after :
      (i : ℕ) → i < nproc → Change t t' i → is_unused (t'.proc i).state ≡ true → IsFree (t'.proc i)
  IsFree-after i lt (same e) h = rw e (v.free i lt (rw (← e) h))
  IsFree-after i lt (kept l l' e) h = cc
  IsFree-after i lt (freed u f) h = f

  -- A step that changes each slot in one of the ways of Change keeps the invariant.
  pub changes-IsTable : ((i : ℕ) → i < nproc → Change t t' i) → IsTable t'
  changes-IsTable c = record {
    free = λ i lt u. IsFree-after i lt (c i lt) u;
    pid_pos = λ i lt u. let (l, e) = live_before i (c i lt) u in rw e (v.pid_pos i lt l);
    pid_used =
        λ i lt u. let (l, e) = live_before i (c i lt) u in omega (arith, v.pid_used i lt l, e);
    distinct = λ i j lti ltj ui uj e.
        let (li, ei) = live_before i (c i lti) ui in
        let (lj, ej) = live_before j (c j ltj) uj in v.distinct i j lti ltj li lj (sym ei ∙ e ∙ ej);
    next_pos = omega (arith, v.next_pos, le);
  }

-- A new process with a pid that was never used may go into a free slot.
module _ (t : Table) (v : IsTable t) (i : ℕ) (p : Proc) (live : is_unused p.state ≡ false)
    (fresh : p.pid ≡ t.nextpid) where
  abbrev pub added : Table
  added = record t { proc = put t.proc i p; nextpid = t.nextpid + 1 }

  slot_cases : (j : ℕ) → ((j ≡ i) × (added.proc j ≡ p)) ⊎ ((j ≢ i) × (added.proc j ≡ t.proc j))
  slot_cases j = ground arith

  -- a live slot afterwards has the new pid, at `i` alone, or an old one
  live_after :
      (j : ℕ)
      → j < nproc
      → is_unused (added.proc j).state ≡ false
      → ((j ≡ i) × ((added.proc j).pid ≡ t.nextpid))
        ⊎ ((is_unused (t.proc j).state ≡ false)
            × ((added.proc j).pid ≡ (t.proc j).pid)
            × ((added.proc j).pid < t.nextpid)
            × ((added.proc j).pid ≢ 0))
  live_after j lt u = elim (slot_cases j) [
    | inl (here, e) ↦ inl (here, rw e fresh)
    | inr (_, e) ↦
        let l : is_unused (t.proc j).state ≡ false = rw (← e) u in
        inr (l, rw e, rw e (v.pid_used j lt l), rw e (v.pid_pos j lt l))
  ]

  pub added-IsTable : IsTable added
  added-IsTable = record {
    free = λ j lt u. elim (slot_cases j) [
      | inl (_, e) ↦ absurd (false≢true (sym live ∙ ap (λ q. is_unused (q.state)) (sym e) ∙ u))
      | inr (_, e) ↦ rw e (v.free j lt (rw (← e) u))
    ];
    pid_pos = λ j lt u. elim (live_after j lt u) [
      | inl (_, e) ↦ rw e v.next_pos
      | inr (_, _, _, pos) ↦ pos
    ];
    pid_used = λ j lt u. elim (live_after j lt u) [
      | inl (_, e) ↦ omega arith
      | inr (_, _, less, _) ↦ omega arith
    ];
    distinct = λ j k ltj ltk uj uk e. elim (live_after j ltj uj) [
      | inl (hj, ej) ↦ elim (live_after k ltk uk) [
        | inl (hk, ek) ↦ omega arith
        | inr (_, _, less, _) ↦ absurd (omega arith)
      ]
      | inr (lj, ej, less, _) ↦ elim (live_after k ltk uk) [
        | inl (hk, ek) ↦ absurd (omega arith)
        | inr (lk, ek, _, _) ↦ v.distinct j k ltj ltk lj lk (sym ej ∙ e ∙ ek)
      ]
    ];
    next_pos = omega arith;
  }
