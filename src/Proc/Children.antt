-- ===== src/Proc/Children.antt =====
-- wait of kernel/proc.c, and how it meets exit.
use mathlib.Core.Bool.{false≢true}
use oslab.Prelude.{
  ℕ, ◌<◌, ◌≡◌, ◌≢◌, ◌⊎◌, inl, inr, refl, sym, ap, ◌∙◌, Bool, true, false, not, ◌&&◌, Option, none,
  some, arith, if◌then◌else◌, ◌==◌, Bool-cases, Option-cases,
}
use oslab.Proc.{
  zombie, Table, nproc, is_zombie, is_some_of, set_proc, scan, freeproc, exit, found, failed,
  sleeps, wait,
}
use oslab.Proc.Scan.{scan-some, scan_first, scan-none}
use oslab.Proc.Inv.{IsTable}
use oslab.Proc.Reap.{exit_lem}
use oslab.Proc.Family.{freed-IsTable}

abbrev is_child : ℕ → Table → ℕ → Bool
is_child me t i = is_some_of (t.proc i).parent me

abbrev is_dead : ℕ → Table → ℕ → Bool
is_dead me t i = is_child me t i && is_zombie (t.proc i).state

wait-dead :
    (copied : Bool) (addr me i : ℕ) (t : Table)
    → scan nproc 0 (is_dead me t) ≡ some i
    → wait copied addr me t ≡ (
        if not (addr == 0) && not copied
        then (failed, t)
        else (found (t.proc i).pid, set_proc t i (freeproc (t.proc i))))
unfolding wait
wait-dead copied addr me i t e = rw (e, wait)

wait-childless :
    (copied : Bool) (addr me : ℕ) (t : Table)
    → scan nproc 0 (is_dead me t) ≡ none
    → scan nproc 0 (is_child me t) ≡ none
    → wait copied addr me t ≡ (failed, t)
unfolding wait
wait-childless copied addr me t e e' = rw (e, e', wait)

wait-alive :
    (copied : Bool) (addr me i : ℕ) (t : Table)
    → scan nproc 0 (is_dead me t) ≡ none
    → scan nproc 0 (is_child me t) ≡ some i
    → wait copied addr me t ≡ (if (t.proc me).killed then (failed, t) else (sleeps, t))
unfolding wait
wait-alive copied addr me i t e e' = rw (e, e', wait)

abbrev pub Waits : Bool → ℕ → ℕ → Table → Type 0
Waits copied addr me t =
    ((i : ℕ) × (i < nproc)
      × (is_dead me t i ≡ true)
      × (((wait copied addr me t ≡ (found (t.proc i).pid, set_proc t i (freeproc (t.proc i))))
            × ((k : ℕ) → k < i → is_dead me t k ≡ false))
          ⊎ ((wait copied addr me t ≡ (failed, t)) × (addr ≢ 0) × (copied ≡ false))))
    ⊎ (((i : ℕ) → i < nproc → is_dead me t i ≡ false)
        × (((wait copied addr me t ≡ (failed, t))
              × (((i : ℕ) → i < nproc → is_child me t i ≡ false) ⊎ ((t.proc me).killed ≡ true)))
            ⊎ ((wait copied addr me t ≡ (sleeps, t))
                × ((t.proc me).killed ≡ false)
                × (i : ℕ) × (i < nproc)
                × (is_child me t i ≡ true))))

-- wait frees the first zombie child and returns its pid, or changes nothing: then it returns -1 because
-- the status of a zombie child could not be copied, because it has no child, or because it was killed,
-- or it sleeps, having a child, none of them a zombie.
pub wait_lem : (copied : Bool) (addr me : ℕ) (t : Table) → Waits copied addr me t
wait_lem copied addr me t = elim (Option-cases (scan nproc 0 (is_dead me t))) [
  | inr (i, e) ↦
      let (_, lt, hit) = scan-some nproc 0 i (is_dead me t) e in
      inl (
        i,
        omega arith,
        hit,
        elim (Bool-cases (not (addr == 0) && not copied)) [
          | inl bad ↦ inr (wait-dead copied addr me i t e ∙ rw bad refl, ground arith, ground arith)
          | inr good ↦ inl (
            wait-dead copied addr me i t e ∙ rw good refl,
            λ k less. scan_first nproc 0 i k (is_dead me t) e (omega arith) less,
          )
        ],
      )
  | inl e ↦ inr (
    λ i lt. scan-none nproc 0 i (is_dead me t) e (omega arith) (omega arith),
    elim (Option-cases (scan nproc 0 (is_child me t))) [
      | inl e' ↦ inl (
        wait-childless copied addr me t e e',
        inl (λ i lt. scan-none nproc 0 i (is_child me t) e' (omega arith) (omega arith)),
      )
      | inr (i, e') ↦
          let (_, lt, hit) = scan-some nproc 0 i (is_child me t) e' in
          elim (Bool-cases (t.proc me).killed) [
            | inl k ↦ inl (wait-alive copied addr me i t e e' ∙ rw k refl, inr k)
            | inr k ↦ inr (wait-alive copied addr me i t e e' ∙ rw k refl, k, i, omega arith, hit)
          ]
    ],
  )
]

-- wait keeps the invariant of the table.
pub wait-IsTable :
    (copied : Bool) (addr me : ℕ) (t : Table) → IsTable t → IsTable (wait copied addr me t).1
wait-IsTable copied addr me t v = elim (wait_lem copied addr me t) [
  | inl (i, _, _, inl (e, _)) ↦ rw e (freed-IsTable t i t.nextpid (t.proc i) v (omega arith))
  | inl (_, _, _, inr (e, _, _)) ↦ rw e v
  | inr (_, inl (e, _)) ↦ rw e v
  | inr (_, inr (e, _, _, _, _)) ↦ rw e v
]

dead_child :
    (me p : ℕ) (t t' : Table)
    → p ≢ me
    → (t.proc me).parent ≡ some p
    → (t'.proc me).parent
      ≡ (if is_some_of (t.proc me).parent me then some t.initproc else (t.proc me).parent)
    → (t'.proc me).state ≡ zombie
    → is_dead p t' me ≡ true
dead_child me p t t' ne up e z =
    let other : (p == me) ≡ false = ground arith in
    let self : (p == p) ≡ true = ground arith in
    let e' : (t'.proc me).parent ≡ some p = e ∙ rw up (rw other refl) in rw (e', z, self) refl

is_some_of-eq : (o : Option ℕ) (p : ℕ) → is_some_of o p ≡ true → o ≡ some p
is_some_of-eq none p h = cc
is_some_of-eq (some q) p h = ap some (ground arith)

child_parent : (p i : ℕ) (t : Table) → is_dead p t i ≡ true → (t.proc i).parent ≡ some p
child_parent p i t h = is_some_of-eq (t.proc i).parent p (ground arith)

abbrev pub Reaps : ℕ → ℕ → Table → Type 0
Reaps p addr t' =
    (i : ℕ) × (i < nproc)
    × ((t'.proc i).parent ≡ some p)
    × (wait true addr p t' ≡ (found (t'.proc i).pid, set_proc t' i (freeproc (t'.proc i))))

-- After exit of a process whose parent is another process, a wait of that parent, if it can copy the
-- status out, frees a child of the parent and returns its pid: it neither fails nor sleeps.
pub exit-wait :
    (status me p addr : ℕ) (t t' : Table)
    → me < nproc
    → p ≢ me
    → (t.proc me).parent ≡ some p
    → exit status me t ≡ some t'
    → Reaps p addr t'
exit-wait status me p addr t t' lt ne up e = elim (exit_lem status me t lt) [
  | inl (_, e') ↦ let bad : none ≡ some t' = sym e' ∙ e in cc
  | inr (_, t1, e1, z, _, rest) ↦
      let same : some t1 ≡ some t' = sym e1 ∙ e in
      let at : t1 ≡ t' = cc in
      let dead = dead_child me p t t' ne up (rw (← at) ((rest me lt).1)) (rw (← at) z) in
      elim (wait_lem true addr p t') [
        | inl (i, lti, hit, inl (w, _)) ↦ (i, lti, child_parent p i t' hit, w)
        | inl (_, _, _, inr (_, _, no_copy)) ↦ cc
        | inr (nobody, _) ↦ absurd (false≢true (sym (nobody me lt) ∙ dead))
      ]
]
