-- ===== src/Log/Commit.antt =====
-- commit of kernel/log.c is atomic: what the disk recovers to after a crash at any of its writes.
use oslab.Prelude.{
  ℕ, zero, suc, ◌+◌, ◌-◌, ◌≤◌, ◌<◌, ◌≡◌, ◌≢◌, ◌⊎◌, inl, inr, refl, fun_ext, ◌∙◌, Bool, true, false,
  ◌||◌, arith, List, if◌then◌else◌, ◌==◌, ℕ_discrete,
}
use oslab.Log.{Block, Dev, Log, log_size, clear, install_trans, write_head, write_log, commit}
use oslab.Log.Loops.{
  IsHome, write_log_power, write_log_outside, write_log_slot, install_no_power,
  install_no_power-disk, install_power,
}
use oslab.Log.Recover.{
  IsRecoverable, IsRecovered, IsRecovered-IsRecoverable, IsCommitted, write_head_outside,
  write_head_no_power, write_head-power, write_head-header, finish-IsRecoverable,
  finish-IsRecovered,
}
use oslab.Log.Boot.{reboot, reboots, reboot-IsRecovered, reboots-IsRecoverable}

-- one of the first `n` logged blocks is `b`
abbrev pub is_logged : ℕ → (ℕ → ℕ) → ℕ → Bool
is_logged zero block b = false
is_logged (suc n) block b = block n == b || is_logged n block b

pub is_logged_at : (n : ℕ) (block : ℕ → ℕ) (i : ℕ) → i < n → is_logged n block (block i) ≡ true
is_logged_at zero block i h = absurd (omega arith)
is_logged_at (suc n) block i h = elim (ℕ_discrete i n) [
  | yes e ↦ rw e (ground arith)
  | no ne ↦ ground (arith, is_logged_at n block i)
]

pub is_logged_none :
    (n : ℕ) (block : ℕ → ℕ) (b : ℕ) → ((i : ℕ) → i < n → block i ≢ b) → is_logged n block b ≡ false
is_logged_none zero block b h = refl
is_logged_none (suc n) block b h =
    ground (arith, h n, is_logged_none n block b (λ i lt. h i (omega arith)))

-- what a commit makes of the disk: the cached contents of the logged blocks
abbrev pub committed : Log → Dev → ℕ → Block
committed l d b = if is_logged l.lh.n l.lh.block b then d.cache b else d.disk b

-- A transaction that is ready to commit: it fits into the log, logs home blocks only, and the log on
-- disk is empty.
pub record IsReady (l : Log) (d : Dev) : Type 0 where
  pub fits : l.lh.n < l.size
  pub small : l.lh.n ≤ log_size
  pub home : (i : ℕ) → i < l.lh.n → IsHome l.start l.size (l.lh.block i)
  pub empty : d.disk l.start 0 ≡ 0

module _ (l : Log) (d : Dev) (r : IsReady l d) where
  logged : Dev
  logged = write_log l d

  logged_outside :
      (b : ℕ)
      → (b ≤ l.start) ⊎ (l.start + l.lh.n < b)
      → (logged.disk b ≡ d.disk b) × (logged.cache b ≡ d.cache b)
  unfolding logged write_log
  logged_outside b h = write_log_outside l.start l.lh.block l.lh.n 0 b d (ground arith)

  logged_slot :
      (i : ℕ)
      → i < l.lh.n
      → (logged.cache (l.start + i + 1) ≡ committed l d (l.lh.block i))
        × (logged.power ≢ 0 → logged.disk (l.start + i + 1) ≡ committed l d (l.lh.block i))
  unfolding logged write_log
  logged_slot i h = rw (is_logged_at l.lh.n l.lh.block i h) (
      write_log_slot l.start l.lh.block l.lh.n 0 i d (omega arith) (omega arith)
        (ground (arith, r.home i h, r.fits)))

  logged-power : logged.power ≡ d.power - l.lh.n
  unfolding logged write_log
  logged-power = write_log_power l.start l.lh.block l.lh.n 0 d

  -- the disk when the power fails before the header is written
  uncommitted-IsRecoverable : IsRecoverable l.start l.size d.disk logged.disk
  uncommitted-IsRecoverable =
      IsRecovered-IsRecoverable l.start l.size d.disk logged.disk (omega (arith, r.fits)) (record {
        header = rw ((logged_outside l.start (inl (omega arith))).0) r.empty;
        in_place = λ b h. (logged_outside b (ground (arith, r.fits))).0;
      })

  headed : Dev
  headed = write_head l logged

  headed_outside :
      (b : ℕ) → b ≢ l.start → (headed.disk b ≡ logged.disk b) × (headed.cache b ≡ logged.cache b)
  unfolding headed
  headed_outside = write_head_outside l logged

  -- once the header is on disk the transaction is committed
  headed-IsCommitted : logged.power ≢ 0 → IsCommitted (committed l d) l headed
  unfolding headed
  headed-IsCommitted pow =
      let (count, blocks) = write_head-header l logged pow in
      record {
        recoverable = record {
          fits = rw count r.fits;
          small = rw count r.small;
          home = λ i h. rw (blocks i (rw count at h)) (r.home i (rw count at h));
          slots = λ i h.
              let lt : i < l.lh.n = rw count at h in
              rw (blocks i lt)
                ((headed_outside (l.start + i + 1) (omega arith)).0 ∙ (logged_slot i lt).1 pow);
          rest = λ b h out.
              rw
                (is_logged_none l.lh.n l.lh.block b
                  (λ i lt e. out i (rw count lt) (blocks i lt ∙ e)))
                ((headed_outside b (ground (arith, r.fits))).0
                  ∙ (logged_outside b (ground (arith, r.fits))).0);
        };
        count = count;
        blocks = blocks;
        cached = λ i h. (headed_outside (l.start + i + 1) (omega arith)).1 ∙ (logged_slot i h).0;
      }

  -- the disk after all of a commit that has something to do
  final : ℕ → Block
  final = (write_head (clear l) (install_trans false l headed)).disk

  headed-power : headed.power ≡ logged.power - 1
  unfolding headed
  headed-power = write_head-power l logged

  -- with no power left after write_log, the rest of commit leaves the disk as it is
  cut_in_log : logged.power ≡ 0 → final ≡ logged.disk
  unfolding final install_trans headed
  cut_in_log cut = fun_ext λ b.
      write_head_no_power (clear l) (install_trans false l headed) b
        (install_no_power false l.start l.lh.block l.lh.n 0 headed (omega (arith, headed-power)))
      ∙ install_no_power-disk false l.start l.lh.block l.lh.n 0 b headed
          (omega (arith, headed-power))
      ∙ write_head_no_power l logged b cut

  final-IsRecoverable :
      IsRecoverable l.start l.size d.disk final ⊎ IsRecoverable l.start l.size (committed l d) final
  unfolding final
  final-IsRecoverable = elim (ℕ_discrete logged.power 0) [
    | yes cut ↦ inl (rw (cut_in_log cut) uncommitted-IsRecoverable)
    | no left ↦ inr (finish-IsRecoverable (committed l d) false l headed (headed-IsCommitted left))
  ]

  disk-commit : 0 < l.lh.n → (commit l d).1.disk ≡ final
  unfolding commit final headed logged
  disk-commit h = ground arith

  commit_nothing : l.lh.n ≡ 0 → (commit l d).1.disk ≡ d.disk
  unfolding commit
  commit_nothing h = ground arith

  -- A commit that is cut off after any number of disk writes leaves a disk that recovers either to the
  -- contents before the transaction or to those after it.
  pub commit-IsRecoverable :
      IsRecoverable l.start l.size d.disk (commit l d).1.disk
      ⊎ IsRecoverable l.start l.size (committed l d) (commit l d).1.disk
  commit-IsRecoverable = elim (ℕ_discrete l.lh.n 0) [
    | yes e ↦ rw (commit_nothing e) (
        inl (
          IsRecovered-IsRecoverable l.start l.size d.disk d.disk (omega (arith, r.fits))
            (record { header = r.empty; in_place = λ b h. refl })))
    | no ne ↦ rw (disk-commit (omega arith)) final-IsRecoverable
  ]

  n-commit : (commit l d).0.lh.n ≡ 0
  unfolding commit
  n-commit = ground arith

  install-power : (install_trans false l headed).power ≡ headed.power - l.lh.n
  unfolding install_trans
  install-power = install_power false l.start l.lh.block l.lh.n 0 headed

  final-IsRecovered :
      l.lh.n + l.lh.n + 2 ≤ d.power → IsRecovered l.start l.size (committed l d) final
  unfolding final
  final-IsRecovered pow =
      finish-IsRecovered (committed l d) false l headed
        (headed-IsCommitted (omega (arith, logged-power)))
        (omega (arith, install-power, headed-power, logged-power))

  -- Where the log is ready to commit (IsReady), and with power for all of its 2 n + 2 writes, commit
  -- brings every home block up to date on disk and leaves an empty log, on disk and in memory.
  pub commit-IsRecovered :
      l.lh.n + l.lh.n + 2 ≤ d.power
      → IsRecovered l.start l.size (committed l d) (commit l d).1.disk × ((commit l d).0.lh.n ≡ 0)
  commit-IsRecovered pow = elim (ℕ_discrete l.lh.n 0) [
    | yes e ↦ (
      rw (commit_nothing e) (record {
        header = r.empty;
        in_place = λ b h. rw (is_logged_none l.lh.n l.lh.block b (λ i lt. absurd (omega arith)));
      }),
      n-commit,
    )
    | no ne ↦ (rw (disk-commit (omega arith)) (final-IsRecovered pow), n-commit)
  ]

  -- Let a commit that is ready to run (IsReady) be cut off after any number of disk writes, and any
  -- number of boots after it too. The first boot with power for log_size + 1 writes ends with all
  -- home blocks as they were before the transaction, or with all of them as the transaction left
  -- them.
  pub crash_atomic :
      (m : Log) (powers : List ℕ) (power : ℕ)
      → log_size < power
      → let crashed = reboots l.start l.size m (commit l d).1.disk powers in
        let disk = reboot l.start l.size m crashed power in
        ((b : ℕ) → IsHome l.start l.size b → disk b ≡ d.disk b)
        ⊎ ((b : ℕ) → IsHome l.start l.size b → disk b ≡ committed l d b)
  crash_atomic m powers power h = elim commit-IsRecoverable [
    | inl old ↦
        inl
          (reboot-IsRecovered l.start l.size d.disk m _
            (reboots-IsRecoverable l.start l.size d.disk m _ powers old) power h).0.in_place
    | inr new ↦
        inr
          (reboot-IsRecovered l.start l.size (committed l d) m _
            (reboots-IsRecoverable l.start l.size (committed l d) m _ powers new) power
            h).0.in_place
  ]
