-- ===== src/Log/Tests.antt =====
-- The theorems on kernel/log.c at a log of 31 blocks from block 2 on, and runs of the log that mkfs
-- makes, which has 30.
use oslab.Prelude.{
  ℕ, zero, suc, ◌+◌, ◌≡◌, ◌⊎◌, inr, refl, true, false, List, [], ◌∷◌, ◌++◌, arith, if◌then◌else◌,
  ◌==◌,
}
use oslab.Prelude.Run.{done, panic}
use oslab.Log.{Dev, Log, log_write, commit, initlog, begin_op, end_op_start}
use oslab.Log.Loops.{IsHome}
use oslab.Log.Recover.{IsRecoverable, IsRecovered, IsRecovered-IsRecoverable}
use oslab.Log.Boot.{booted, reboot, reboots, reboot-IsRecovered}
use oslab.Log.Commit.{IsReady, committed, commit-IsRecovered, crash_atomic}
use oslab.Log.Write.{IsPinned, log_write-IsPinned}
use oslab.Log.Reserve.{System, Event, begin, write, finish, keeps, IsReserved, run, run-IsReserved}

-- every block on disk is 0, every cached block is its own number
abbrev dev : ℕ → Dev
dev power = record {
  disk = λ b w. 0;
  cache = λ b w. b;
  pins = λ b. if b == 100 then 1 else if b == 101 then 1 else 0;
  power = power;
}

-- blocks 100 and 101 are logged
abbrev log : Log
log = record {
  start = 2;
  size = 31;
  outstanding = 1;
  committing = false;
  lh = record { n = 2; block = λ i. 100 + i };
}

log-IsReady : (power : ℕ) → IsReady log (dev power)
log-IsReady power = record {
  fits = omega arith;
  small = omega arith;
  home = λ i h. inr (omega arith);
  empty = refl;
}

crash_atomic_example :
    let crashed = reboots 2 31 log (commit log (dev 3)).1.disk (1 ∷ 0 ∷ []) in
    let disk = reboot 2 31 log crashed 40 in
    ((b : ℕ) → IsHome 2 31 b → disk b ≡ (dev 3).disk b)
    ⊎ ((b : ℕ) → IsHome 2 31 b → disk b ≡ committed log (dev 3) b)
crash_atomic_example = crash_atomic log (dev 3) (log-IsReady 3) log (1 ∷ 0 ∷ []) 40 (omega arith)

commit-IsRecovered_example :
    IsRecovered 2 31 (committed log (dev 6)) (commit log (dev 6)).1.disk
    × ((commit log (dev 6)).0.lh.n ≡ 0)
commit-IsRecovered_example = commit-IsRecovered log (dev 6) (log-IsReady 6) (omega arith)

-- two writes fill the slots, and a third one commits
crash_before_header : (reboot 2 31 log (commit log (dev 2)).1.disk 40) 100 5 ≡ 0
unfolding commit initlog
crash_before_header = refl

crash_after_header : (reboot 2 31 log (commit log (dev 3)).1.disk 40) 100 5 ≡ 100
unfolding commit initlog
crash_after_header = refl

blank-IsRecoverable : IsRecoverable 2 31 (λ b w. 0) (λ b w. 0)
blank-IsRecoverable =
    IsRecovered-IsRecoverable 2 31 (λ b w. 0) (λ b w. 0) (omega arith)
      (record { header = refl; in_place = λ b h. refl })

reboot-IsRecovered_example :
    IsRecovered 2 31 (λ b w. 0) (reboot 2 31 log (λ b w. 0) 31)
    × ((initlog 2 31 log (booted (λ b w. 0) 31)).0.lh.n ≡ 0)
reboot-IsRecovered_example =
    reboot-IsRecovered 2 31 (λ b w. 0) log (λ b w. 0) blank-IsRecoverable 31 (omega arith)

log-IsPinned : IsPinned log (dev 0)
log-IsPinned = record { distinct = λ i j h k. omega arith; pinned = λ b. ground arith }

-- a third block is added
abbrev log3 : Log
log3 = record log { lh = record { n = 3; block = λ i. if 2 == i then 7 else 100 + i } }

adds :
    log_write 7 log (dev 0)
    ≡ done (log3, record (dev 0) { pins = λ b. if 7 == b then 1 else (dev 0).pins b })
unfolding log_write
adds = refl

log_write-IsPinned_example :
    IsPinned log3 (record (dev 0) { pins = λ b. if 7 == b then 1 else (dev 0).pins b })
log_write-IsPinned_example = log_write-IsPinned 7 log (dev 0) adds log-IsPinned

-- an empty log of `size` blocks
abbrev start : ℕ → System
start size = record {
  log = record {
    start = 2;
    size = size;
    outstanding = 0;
    committing = false;
    lh = record { n = 0; block = λ i. 0 };
  };
  dev = record { disk = λ b w. 0; cache = λ b w. 0; pins = λ b. 0; power = 1000 };
  credits = [];
}

start-IsReserved : IsReserved (start 30)
start-IsReserved = record {
  room = omega arith;
  outstanding = refl;
  fits = omega arith;
  capped = tt;
  quiet = λ h. refl;
}

-- call `i` writes `k` blocks from `b` on
abbrev writes : ℕ → ℕ → ℕ → List Event
writes i b zero = []
writes i b (suc k) = write i b ∷ writes i (b + 1) k

-- three system calls that write nine blocks each, the first one two of them twice
abbrev modest : List Event
modest =
    begin
    ∷ begin
    ∷ begin
    ∷ (writes 0 100 8
        ++ (writes 0 101 2
            ++ (writes 0 108 1
                ++ (writes 1 200 9 ++ (writes 2 300 9 ++ (finish 0 ∷ finish 0 ∷ []))))))

modest_keeps : keeps (start 30) modest ≡ true
unfolding keeps begin_op log_write end_op_start
modest_keeps = refl

run-IsReserved_example : (s' : System) × (run (start 30) modest ≡ done s') × IsReserved s'
run-IsReserved_example = run-IsReserved modest (start 30) start-IsReserved modest_keeps

-- three system calls that write ten blocks each
abbrev busy : List Event
busy = begin ∷ begin ∷ begin ∷ (writes 0 100 10 ++ (writes 1 200 10 ++ writes 2 300 10))

-- mkfs sets nlog to LOGSIZE = 30: the same calls overflow that log.
mkfs_log_overflows : run (start 30) busy ≡ panic "too big a transaction"
unfolding run begin_op log_write
mkfs_log_overflows = refl
