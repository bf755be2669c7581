-- ===== src/Log/Boot.antt =====
-- initlog of kernel/log.c at a boot: recovery from whatever disk a crash left.
use oslab.Prelude.{ℕ, ◌+◌, ◌-◌, ◌<◌, ◌≡◌, refl, sym, true, arith, List, [], ◌∷◌}
use oslab.Log.{
  Block, Dev, Log, log_size, install_trans, read_head, read_blocks, recover_from_log, initlog,
}
use oslab.Log.Loops.{install_power, read_blocks_lem}
use oslab.Log.Recover.{
  IsRecoverable, IsRecovered, IsCommitted, finish-IsRecoverable, finish-IsRecovered,
}

-- after a boot nothing is cached; the next `power` writes reach the disk
abbrev pub booted : (ℕ → Block) → ℕ → Dev
booted disk power = record { disk = disk; cache = disk; pins = λ b. 0; power = power }

-- the disk after a boot that is cut off after `power` writes; `l` is the log in memory before it
abbrev pub reboot : ℕ → ℕ → Log → (ℕ → Block) → ℕ → ℕ → Block
reboot start size l disk power = (initlog start size l (booted disk power)).1.disk

-- boots that are all cut off, one after the other
abbrev pub reboots : ℕ → ℕ → Log → (ℕ → Block) → List ℕ → ℕ → Block
reboots start size l disk [] = disk
reboots start size l disk (power ∷ later) =
    reboots start size l (reboot start size l disk power) later

module _ (start size : ℕ) (content : ℕ → Block) (l : Log) (disk : ℕ → Block)
    (r : IsRecoverable start size content disk) where
  -- the log that read_head leaves in memory
  log_read : ℕ → Log
  log_read power = read_head (record l { start = start; size = size }) (booted disk power)

  log_read-IsCommitted : (power : ℕ) → IsCommitted content (log_read power) (booted disk power)
  unfolding log_read read_head
  log_read-IsCommitted power =
      let block_read : (i : ℕ)
          → i < disk start 0
          → read_blocks (disk start 0) 0 (disk start) l.lh.block i ≡ disk start (i + 1) =
        λ i h. ground (arith, read_blocks_lem (disk start 0) 0 i (disk start) l.lh.block) in
      record {
        recoverable = r;
        count = refl;
        blocks = λ i h. sym (block_read i h);
        cached = λ i h. rw (block_read i h) (r.slots i h);
      }

  power_left :
      (power : ℕ)
      → (install_trans true (log_read power) (booted disk power)).power ≡ power - disk start 0
  unfolding install_trans log_read read_head
  power_left power =
      install_power true start (log_read power).lh.block (disk start 0) 0 (booted disk power)

  -- A boot that is cut off at any point leaves a disk that recovers to the same contents.
  pub reboot-IsRecoverable :
      (power : ℕ) → IsRecoverable start size content (reboot start size l disk power)
  unfolding initlog recover_from_log log_read
  reboot-IsRecoverable power =
      finish-IsRecoverable content true (log_read power) (booted disk power)
        (log_read-IsCommitted power)

  -- From a disk that recovers to `content` (IsRecoverable), and with power for log_size + 1 writes,
  -- initlog puts every home block in place and empties the log, on disk and in memory.
  pub reboot-IsRecovered :
      (power : ℕ)
      → log_size < power
      → IsRecovered start size content (reboot start size l disk power)
        × ((initlog start size l (booted disk power)).0.lh.n ≡ 0)
  unfolding initlog recover_from_log log_read
  reboot-IsRecovered power h = (
    finish-IsRecovered content true (log_read power) (booted disk power)
        (log_read-IsCommitted power) (omega (arith, power_left power, r.small)),
    refl,
  )

-- Any number of boots that are all cut off leave a disk that recovers to the same contents.
pub reboots-IsRecoverable :
    (start size : ℕ) (content : ℕ → Block) (l : Log) (disk : ℕ → Block) (powers : List ℕ)
    → IsRecoverable start size content disk
    → IsRecoverable start size content (reboots start size l disk powers)
reboots-IsRecoverable start size content l disk [] r = r
reboots-IsRecoverable start size content l disk (power ∷ later) r =
    reboots-IsRecoverable start size content l (reboot start size l disk power) later
      (reboot-IsRecoverable start size content l disk r power)
