-- ===== src/Log/Reserve.antt =====
-- Space reservation in kernel/log.c: begin_op, log_write, end_op and commit as the steps of file
-- system calls that run concurrently, each a critical section of log.lock.
-- A call starts with one credit less than max_op_blocks (kernel/param.h), and spends one on each block that
-- it adds to the log. The log of mkfs has log_size blocks with its header, so it holds log_size - 1, and
-- three calls with max_op_blocks credits each would not fit.
pub mod Credits
use mathlib.Core.Bool.{false≢true}
use oslab.Prelude.{
  ℕ, zero, suc, ◌+◌, ◌-◌, ◌*◌, ◌≤◌, ◌<◌, ◌≡◌, ◌≢◌, inl, inr, refl, sym, ◌∙◌, Bool, true, false, not,
  arith, List, [], ◌∷◌, none, some, if◌then◌else◌, ◌==◌, Bool-cases, Option-cases, length,
  get_elem?, set, length-set,
}
use oslab.Prelude.Run.{Run, done, panic, out_of_fuel, ◌>>=◌}
use oslab.Log.{
  Dev, Log, log_size, max_op_blocks, begin_op, end_op_start, end_op_finish, log_write, commit,
}
use oslab.Log.Write.{log_write-done}
use oslab.Log.Reserve.Credits.{
  remove, sum, IsCapped, sum_at, sum-set, remove_lem, sum-le, IsCapped-set, IsCapped-remove,
  IsCapped-at, length_at,
}

-- the log, and the credits of each file system call in progress
pub record System : Type 0 where
  pub log : Log
  pub dev : Dev
  pub credits : List ℕ

-- What happens next: a call tries to begin, call `i` writes block `b` or ends, or the commit that
-- the last call has started runs.
pub data Event : Type 0 where
  begin : Event
  write : (i b : ℕ) → Event
  finish : (i : ℕ) → Event
  commit_all : Event

-- the blocks that a call may add to the log
abbrev budget : ℕ
budget = max_op_blocks - 1

-- A call that sleeps and a call that is not there change nothing.
step : System → Event → Run System
step s begin = elim (begin_op s.log) [
  | none ↦ done s
  | some l ↦ done (record s { log = l; credits = budget ∷ s.credits })
]
step s (write i b) = elim (get_elem? s.credits i) [
  | none ↦ done s
  | some c ↦ log_write b s.log s.dev >>= λ (l, d).
      done (record { log = l; dev = d; credits = set s.credits i (c - (l.lh.n - s.log.lh.n)) })
]
step s (finish i) = elim (get_elem? s.credits i) [
  | none ↦ done s
  | some c ↦ end_op_start s.log >>= λ (l, do_commit).
      done (record s { log = l; credits = remove i s.credits })
]
step s commit_all =
    if s.log.committing
    then (let (l, d) = commit s.log s.dev in done (record s { log = end_op_finish l; dev = d }))
    else done s

unfoldable pub run : System → List Event → Run System
unfolding step
run s [] = done s
run s (e ∷ es) = step s e >>= λ s'. run s' es

-- a write is made by a call in progress that has a credit left
allows : System → Event → Bool
allows s (write i b) = elim (get_elem? s.credits i) [ none ↦ false | some c ↦ not (c == 0) ]
allows s begin = true
allows s (finish i) = true
allows s commit_all = true

-- the calls keep to their credits, as long as the run goes on
unfoldable pub keeps : System → List Event → Bool
unfolding step allows
keeps s [] = true
keeps s (e ∷ es) =
    let later : Bool = elim (step s e) [
      | done s' ↦ keeps s' es
      | panic m ↦ true
      | out_of_fuel ↦ true
    ] in
    if allows s e then later else false

-- The credits still out fit into the log, with a block to spare for each call.
pub record IsReserved (s : System) : Type 0 where
  pub room : log_size ≤ s.log.size
  pub outstanding : s.log.outstanding ≡ length s.credits
  pub fits : s.log.lh.n + sum s.credits + length s.credits ≤ log_size
  pub capped : IsCapped s.credits
  pub quiet : s.log.committing ≡ true → s.log.outstanding ≡ 0

-- A step does not panic, and keeps the reservations.
abbrev Goes : System → Event → Type 0
Goes s e = (s' : System) × (step s e ≡ done s') × IsReserved s'

begin_op-some :
    (l l' : Log)
    → begin_op l ≡ some l'
    → (l.committing ≡ false)
      × (l.lh.n + (l.outstanding + 1) * max_op_blocks ≤ log_size)
      × (l' ≡ record l { outstanding = l.outstanding + 1 })
unfolding begin_op
begin_op-some l l' e = ground arith

end_op_start-done :
    (l : Log)
    → l.committing ≡ false
    → end_op_start l
      ≡ done (
        record l { outstanding = l.outstanding - 1; committing = l.outstanding == 1 },
        l.outstanding == 1,
      )
unfolding end_op_start
end_op_start-done l e = ground arith

n-commit : (l : Log) (d : Dev) → (commit l d).0.lh.n ≡ 0
unfolding commit
n-commit l d = ground arith

commit-fields :
    (l : Log) (d : Dev)
    → ((commit l d).0.size ≡ l.size) × ((commit l d).0.outstanding ≡ l.outstanding)
unfolding commit
commit-fields l d = ground arith

module _ (s : System) (r : IsReserved s) where
  begin-Goes : Goes s begin
  unfolding step
  begin-Goes = elim (Option-cases (begin_op s.log)) [
    | inl sleeps ↦ (s, rw (sleeps, step), r)
    | inr (l, begun) ↦
        let (awake, space, new) = begin_op-some s.log l begun in
        (
          record s { log = l; credits = budget ∷ s.credits },
          rw (begun, step),
          rw new (record {
            room = r.room;
            outstanding = omega (arith, r.outstanding);
            fits = omega (arith, r.outstanding, sum-le s.credits r.capped);
            capped = (omega arith, r.capped);
            quiet = λ h. cc;
          }),
        )
  ]

  write-Goes : (i b : ℕ) → allows s (write i b) ≡ true → Goes s (write i b)
  unfolding step allows
  write-Goes i b allowed = elim (Option-cases (get_elem? s.credits i)) [
    | inl missing ↦ absurd (false≢true (ground (arith, missing, allowed)))
    | inr (c, held) ↦
        let ne : c ≢ 0 = ground (arith, held, allowed) in
        let (l', d', _, wrote, n, _, _, _, same) =
          log_write-done b s.log s.dev (omega (arith, r.fits, sum_at s.credits i c held))
            (omega (arith, r.fits, r.room, sum_at s.credits i c held, length_at s.credits i c held))
            (omega (arith, r.outstanding, length_at s.credits i c held)) in
        let k = l'.lh.n - s.log.lh.n in
        let grown : (s.log.lh.n ≤ l'.lh.n) × (l'.lh.n ≤ s.log.lh.n + 1) = ground arith in
        (
          record { log = l'; dev = d'; credits = set s.credits i (c - k) },
          rw (held, step) (ground (arith, wrote)),
          record {
            room = rw same r.room;
            outstanding = rw same (r.outstanding ∙ sym (length-set s.credits i (c - k)));
            fits = omega (
              arith,
              r.fits,
              length-set s.credits i (c - k),
              sum-set s.credits i c k held (omega arith),
            );
            capped =
                IsCapped-set s.credits i (c - k)
                  (omega (arith, IsCapped-at s.credits i c r.capped held)) r.capped;
            quiet = rw same r.quiet;
          },
        )
  ]

  finish-Goes : (i : ℕ) → Goes s (finish i)
  unfolding step
  finish-Goes i = elim (Option-cases (get_elem? s.credits i)) [
    | inl missing ↦ (s, rw (missing, step), r)
    | inr (c, held) ↦
        let busy = length_at s.credits i c held in
        let off : s.log.committing ≡ false = ground (arith, r.quiet, r.outstanding) in
        let left = remove_lem s.credits i c held in
        (
          record s {
            log = record s.log {
              outstanding = s.log.outstanding - 1;
              committing = s.log.outstanding == 1;
            };
            credits = remove i s.credits;
          },
          rw (held, step) (rw (end_op_start-done s.log off)),
          record {
            room = r.room;
            outstanding = omega (arith, r.outstanding, left);
            fits = omega (arith, r.fits, left);
            capped = IsCapped-remove s.credits i r.capped;
            quiet = λ h. ground arith;
          },
        )
  ]

  commit-Goes : Goes s commit_all
  unfolding step
  commit-Goes = elim (Bool-cases s.log.committing) [
    | inl on ↦ (
      record s { log = end_op_finish (commit s.log s.dev).0; dev = (commit s.log s.dev).1 },
      ground (arith, on),
      record {
        room = omega (arith, commit-fields s.log s.dev, r.room);
        outstanding = (commit-fields s.log s.dev).1 ∙ r.outstanding;
        fits = omega (arith, n-commit s.log s.dev, r.fits);
        capped = r.capped;
        quiet = λ h. cc;
      },
    )
    | inr off ↦ (s, ground (arith, off), r)
  ]

  step-Goes : (e : Event) → allows s e ≡ true → Goes s e
  step-Goes begin _ = begin-Goes
  step-Goes (write i b) allowed = write-Goes i b allowed
  step-Goes (finish i) _ = finish-Goes i
  step-Goes commit_all _ = commit-Goes

keeps-later :
    (s : System) (e : Event) (es : List Event)
    → keeps s (e ∷ es) ≡ true
    → (allows s e ≡ true) × ((s' : System) → step s e ≡ done s' → keeps s' es ≡ true)
unfolding keeps
keeps-later s e es kept = elim (Bool-cases (allows s e)) [
  | inr refused ↦ absurd (false≢true (rw refused at kept))
  | inl allowed ↦ (allowed, λ s' stepped. rw (allowed, stepped) at kept)
]

-- From a state in which the credits of the calls in progress fit into a log of log_size blocks or more
-- (IsReserved), no sequence of begins, writes, ends and commits of system calls makes the log panic, if each
-- write, also of a block that is in the log, is made by a call in progress that has a credit left, which is
-- one that has added fewer than max_op_blocks - 1 blocks since its begin; and the credits that are left fit
-- into what is left of the log.
pub run-IsReserved :
    (es : List Event) (s : System)
    → IsReserved s
    → keeps s es ≡ true
    → (s' : System) × (run s es ≡ done s') × IsReserved s'
unfolding run
run-IsReserved [] s r kept = (s, refl, r)
run-IsReserved (e ∷ es) s r kept =
    let (allowed, later) = keeps-later s e es kept in
    let (s1, stepped, r1) = step-Goes s r e allowed in
    let (s2, ran, r2) = run-IsReserved es s1 r1 (later s1 stepped) in (s2, rw stepped ran, r2)
