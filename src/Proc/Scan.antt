-- ===== src/Proc/Scan.antt =====
-- The loops over the process table of kernel/proc.c.
use oslab.Prelude.{
  ℕ, zero, suc, ◌+◌, ◌≤◌, ◌<◌, ◌≡◌, refl, Bool, true, false, ◌&&◌, none, some, arith, leb, ltb,
  if◌then◌else◌, ℕ_discrete,
}
use oslab.Proc.{Proc, Table, set_proc, scan, for_each}

pub scan-some :
    (rounds i j : ℕ) (test : ℕ → Bool)
    → scan rounds i test ≡ some j
    → (i ≤ j) × (j < i + rounds) × (test j ≡ true)
unfolding scan
scan-some zero i j test e = cc
scan-some (suc rounds) i j test e = ground (arith, scan-some rounds (i + 1) j test, e)

pub scan_first :
    (rounds i j k : ℕ) (test : ℕ → Bool)
    → scan rounds i test ≡ some j
    → i ≤ k
    → k < j
    → test k ≡ false
unfolding scan
scan_first zero i j k test e lo hi = cc
scan_first (suc rounds) i j k test e lo hi = elim (ℕ_discrete i k) [
  | yes here ↦ rw (← here) (ground arith)
  | no later ↦ ground (arith, scan_first rounds (i + 1) j k test)
]

pub scan-none :
    (rounds i k : ℕ) (test : ℕ → Bool)
    → scan rounds i test ≡ none
    → i ≤ k
    → k < i + rounds
    → test k ≡ false
unfolding scan
scan-none zero i k test e lo hi = absurd (omega arith)
scan-none (suc rounds) i k test e lo hi = elim (ℕ_discrete i k) [
  | yes here ↦ rw (← here) (ground arith)
  | no later ↦ ground (arith, scan-none rounds (i + 1) k test)
]

-- a scan finds the index that passes, if none passes before it
pub scan-eq-some :
    (rounds i j : ℕ) (test : ℕ → Bool)
    → i ≤ j
    → j < i + rounds
    → test j ≡ true
    → ((k : ℕ) → i ≤ k → k < j → test k ≡ false)
    → scan rounds i test ≡ some j
unfolding scan
scan-eq-some zero i j test lo hi e first = absurd (omega arith)
scan-eq-some (suc rounds) i j test lo hi e first = elim (ℕ_discrete i j) [
  | yes here ↦ rw (here, e)
  | no later ↦ rw (first i (omega arith) (omega arith)) (
      scan-eq-some rounds (i + 1) j test (omega arith) (omega arith) e
        (λ k l h. first k (omega arith) h))
]

pub for_each-proc :
    (rounds i j : ℕ) (f : ℕ → Proc → Proc) (t : Table)
    → (for_each rounds i f t).proc j
      ≡ (if leb i j && ltb j (i + rounds) then f j (t.proc j) else t.proc j)
unfolding for_each
for_each-proc zero i j f t = ground arith
for_each-proc (suc rounds) i j f t = elim (ℕ_discrete i j) [
  | yes e ↦ rw e (ground (arith, for_each-proc rounds (j + 1) j f (set_proc t j (f j (t.proc j)))))
  | no ne ↦ ground (arith, for_each-proc rounds (i + 1) j f (set_proc t i (f i (t.proc i))))
]

pub for_each-rest :
    (rounds i : ℕ) (f : ℕ → Proc → Proc) (t : Table)
    → ((for_each rounds i f t).nextpid ≡ t.nextpid)
      × ((for_each rounds i f t).initproc ≡ t.initproc)
unfolding for_each
for_each-rest zero i f t = (refl, refl)
for_each-rest (suc rounds) i f t = for_each-rest rounds (i + 1) f (set_proc t i (f i (t.proc i)))
