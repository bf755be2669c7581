-- ===== src/Spin/Exclusion.antt =====
-- Mutual exclusion of the lock of kernel/spinlock.c under every interleaving of the CPUs.
use oslab.Prelude.{
  ℕ, ◌-◌, ◌≡◌, ◌≢◌, inl, inr, refl, sym, ◌∙◌, Bool, true, false, ◌&&◌, none, some, arith, put, ◌==◌,
  ltb, Bool-cases, List, [], ◌∷◌,
}
use mathlib.Core.Bool.{true≢false}
use oslab.Prelude.Run.{done}
use oslab.Spin.{
  Cpu, Lock, Pc, outside, spinning, swapped, critical, disowned, unlocked, System, step, run,
  push_off, pop_off, holding, acquire_start, release_start, swap, initlock,
}

-- a CPU that has the lock: the swap gave it to the CPU, and the CPU has not stored 0 yet
abbrev pub has_lock : Pc → Bool
has_lock swapped = true
has_lock critical = true
has_lock disowned = true
has_lock _ = false

abbrev pub is_critical : Pc → Bool
is_critical critical = true
is_critical _ = false

abbrev pub is_outside : Pc → Bool
is_outside outside = true
is_outside _ = false

-- At most one CPU has the lock; `locked` says whether one has; `cpu` names the CPU in the critical
-- section; interrupts are off from acquire to the end of release.
pub record IsExclusive (s : System) : Type 0 where
  pub unique : (i j : ℕ) → has_lock (s.pc i) ≡ true → has_lock (s.pc j) ≡ true → i ≡ j
  pub taken : (i : ℕ) → has_lock (s.pc i) ≡ true → s.lock.locked ≡ true
  pub holder : s.lock.locked ≡ true → (i : ℕ) × (has_lock (s.pc i) ≡ true)
  pub owner : (i : ℕ) → is_critical (s.pc i) ≡ true → s.lock.cpu ≡ some i
  pub owned : (i : ℕ) → s.lock.cpu ≡ some i → is_critical (s.pc i) ≡ true
  pub quiet :
      (i : ℕ) → is_outside (s.pc i) ≡ false → ((s.cpus i).intr ≡ false) × ((s.cpus i).noff ≢ 0)

critical_has : (p : Pc) → is_critical p ≡ true → has_lock p ≡ true
critical_has p h = ground arith

holding-owner : (me : ℕ) (lk : Lock) → holding me lk ≡ true → lk.cpu ≡ some me
unfolding holding
holding-owner me lk h = ground arith

push_off-quiet : (c : Cpu) → ((push_off c).intr ≡ false) × ((push_off c).noff ≢ 0)
unfolding push_off
push_off-quiet c = (refl, omega arith)

not_holding :
    (me : ℕ) (s : System)
    → IsExclusive s
    → is_critical (s.pc me) ≡ false
    → holding me s.lock ≡ false
unfolding holding
not_holding me s v h = elim (Bool-cases (holding me s.lock)) [
  | inr no_hold ↦ no_hold
  | inl hold ↦ absurd (true≢false (sym (v.owned me (holding-owner me s.lock hold)) ∙ h))
]

is_holding :
    (me : ℕ) (s : System) → IsExclusive s → is_critical (s.pc me) ≡ true → holding me s.lock ≡ true
unfolding holding
is_holding me s v h =
    let self : (me == me) ≡ true = ground arith in
    let locked = v.taken me (critical_has (s.pc me) h) in rw (locked, v.owner me h, self) refl

module _ (me : ℕ) (s : System) (v : IsExclusive s) where
  abbrev Moves : Type 0
  Moves = (s' : System) × (step me s ≡ done s') × IsExclusive s'

  from_swapped : s.pc me ≡ swapped → Moves
  unfolding step
  from_swapped e = (
    record s { lock = record s.lock { cpu = some me }; pc = put s.pc me critical },
    rw (e, step) refl,
    record {
      unique = λ i j hi hj. ground (arith, v.unique i j, v.unique i me, v.unique me j);
      taken = λ i hi. v.taken me (rw e refl);
      holder = λ h. (me, ground arith);
      owner = λ i hi. ground (arith, v.unique i me, critical_has (s.pc i));
      owned = λ i hi. ground arith;
      quiet = λ i hi. ground (arith, v.quiet i, v.quiet me);
    },
  )

  from_critical : s.pc me ≡ critical → Moves
  unfolding step release_start
  from_critical e =
      let hold = is_holding me s v (rw e refl) in
      (
        record s { lock = record s.lock { cpu = none }; pc = put s.pc me disowned },
        rw (e, step, release_start, hold) refl,
        record {
          unique = λ i j hi hj. ground (arith, v.unique i j, v.unique i me, v.unique me j);
          taken = λ i hi. v.taken me (rw e refl);
          holder = λ h. (me, ground arith);
          owner = λ i hi. ground (arith, v.unique i me, critical_has (s.pc i));
          owned = λ i hi. ground arith;
          quiet = λ i hi. ground (arith, v.quiet i, v.quiet me);
        },
      )

  from_disowned : s.pc me ≡ disowned → Moves
  unfolding step
  from_disowned e = (
    record s { lock = record s.lock { locked = false }; pc = put s.pc me unlocked },
    rw (e, step) refl,
    record {
      unique = λ i j hi hj. ground (arith, v.unique i j, v.unique i me, v.unique me j);
      taken = λ i hi. ground (arith, v.unique i me);
      holder = λ h. absurd (true≢false (sym h));
      owner = λ i hi. ground (arith, v.unique i me, critical_has (s.pc i));
      owned = λ i hi. ground (arith, v.owned i);
      quiet = λ i hi. ground (arith, v.quiet i, v.quiet me);
    },
  )

  from_outside : s.pc me ≡ outside → Moves
  unfolding step acquire_start
  from_outside e =
      let free = not_holding me s v (rw e refl) in
      (
        record s { cpus = put s.cpus me (push_off (s.cpus me)); pc = put s.pc me spinning },
        rw (e, step, acquire_start, free) refl,
        record {
          unique = λ i j hi hj. ground (arith, v.unique i j);
          taken = λ i hi. ground (arith, v.taken i);
          holder = λ h. let (i, hi) = v.holder h in (i, ground arith);
          owner = λ i hi. ground (arith, v.owner i);
          owned = λ i hi. ground (arith, v.owned i);
          quiet = λ i hi. ground (arith, v.quiet i, push_off-quiet (s.cpus me));
        },
      )

  from_spinning : s.pc me ≡ spinning → Moves
  unfolding step swap
  from_spinning e = elim (Bool-cases s.lock.locked) [
    | inl old ↦ (
      record s { lock = record s.lock { locked = true }; pc = put s.pc me spinning },
      rw (e, step, swap, old) refl,
      record {
        unique = λ i j hi hj. ground (arith, v.unique i j);
        taken = λ i hi. refl;
        holder = λ h. let (i, hi) = v.holder old in (i, ground arith);
        owner = λ i hi. ground (arith, v.owner i);
        owned = λ i hi. ground (arith, v.owned i);
        quiet = λ i hi. ground (arith, v.quiet i, v.quiet me);
      },
    )
    | inr old ↦ (
      record s { lock = record s.lock { locked = true }; pc = put s.pc me swapped },
      rw (e, step, swap, old) refl,
      record {
        unique = λ i j hi hj. ground (arith, v.taken i, v.taken j);
        taken = λ i hi. refl;
        holder = λ h. (me, ground arith);
        owner = λ i hi. ground (arith, v.owner i);
        owned = λ i hi. ground (arith, v.owned i);
        quiet = λ i hi. ground (arith, v.quiet i, v.quiet me);
      },
    )
  ]

  from_unlocked : s.pc me ≡ unlocked → Moves
  unfolding step pop_off
  from_unlocked e =
      let (off, nested) = v.quiet me (rw e refl) in
      let deep : ltb (s.cpus me).noff 1 ≡ false = ground arith in
      let c = s.cpus me in
      (
        record s {
          cpus =
              put s.cpus me (record c { noff = c.noff - 1; intr = (c.noff - 1 == 0) && c.intena });
          pc = put s.pc me outside;
        },
        rw (e, step, pop_off, off, deep) refl,
        record {
          unique = λ i j hi hj. ground (arith, v.unique i j);
          taken = λ i hi. ground (arith, v.taken i);
          holder = λ h. let (i, hi) = v.holder h in (i, ground arith);
          owner = λ i hi. ground (arith, v.owner i);
          owned = λ i hi. ground (arith, v.owned i);
          quiet = λ i hi. ground (arith, v.quiet i);
        },
      )

abbrev Step : System → ℕ → Pc → Type 0
Step s me p = s.pc me ≡ p → (s' : System) × (step me s ≡ done s') × IsExclusive s'

Step-cases : (me : ℕ) (s : System) → IsExclusive s → (p : Pc) → Step s me p
Step-cases me s v outside = from_outside me s v
Step-cases me s v spinning = from_spinning me s v
Step-cases me s v swapped = from_swapped me s v
Step-cases me s v critical = from_critical me s v
Step-cases me s v disowned = from_disowned me s v
Step-cases me s v unlocked = from_unlocked me s v

abbrev pub Excludes : List ℕ → System → Type 0
Excludes schedule s = (s' : System) × (run schedule s ≡ done s') × IsExclusive s'

-- From a state that is exclusive (IsExclusive), whatever the order in which the CPUs take their
-- steps, acquire, release and pop_off never panic, and the state stays exclusive: at most one CPU
-- has the lock, `cpu` is the CPU in the critical section, and interrupts are off on every CPU from
-- its acquire to its release.
pub run-IsExclusive : (schedule : List ℕ) (s : System) → IsExclusive s → Excludes schedule s
unfolding run
run-IsExclusive [] s v = (s, refl, v)
run-IsExclusive (me ∷ rest) s v =
    let (s1, e, v1) = Step-cases me s v (s.pc me) refl in
    let (s2, e2, v2) = run-IsExclusive rest s1 v1 in (s2, rw e e2, v2)

-- the start: the lock is initialized, and no CPU is in its code
pub initlock-IsExclusive :
    (cpus : ℕ → Cpu) → IsExclusive (record { cpus = cpus; lock = initlock; pc = λ i. outside })
unfolding initlock
initlock-IsExclusive cpus = record {
  unique = λ i j hi hj. cc;
  taken = λ i hi. cc;
  holder = λ h. cc;
  owner = λ i hi. cc;
  owned = λ i hi. cc;
  quiet = λ i hi. cc;
}
