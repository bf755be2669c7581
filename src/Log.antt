-- ===== src/Log.antt =====
-- kernel/log.c: the redo log of the file system.
-- The buffer cache is seen through what it promises: `cache b` is what a buffer of block `b` holds
-- (the block on disk, or what was stored into the buffer since), `pins b` counts bpin less bunpin.
-- A crash is part of the model: only the next `power` writes reach the disk. Running commit or
-- recovery with power k is running it up to a crash after k disk writes.
-- The lock and the sleeps of begin_op are the steps of Log/Reserve.antt.
pub mod Loops
pub mod Recover
pub mod Boot
pub mod Commit
pub mod Write
pub mod Reserve
mod Tests
use oslab.Prelude.{
  ℕ, zero, suc, ◌+◌, ◌-◌, ◌*◌, Bool, true, false, ◌||◌, Option, none, some, ltb, leb, ◌==◌,
  if◌then◌else◌, put,
}
use oslab.Prelude.Run.{Run, done, panic}

-- A disk block by its 32-bit words.
abbrev pub Block : Type 0
Block = ℕ → ℕ

pub record Dev : Type 0 where
  pub disk : ℕ → Block
  pub cache : ℕ → Block
  pub pins : ℕ → ℕ
  pub power : ℕ

-- `struct logheader`; `block` is meant below `n`
pub record LogHeader : Type 0 where
  pub n : ℕ
  pub block : ℕ → ℕ

-- `struct log` without its lock and its device number
pub record Log : Type 0 where
  pub start : ℕ
  pub size : ℕ
  pub outstanding : ℕ
  pub committing : Bool
  pub lh : LogHeader

-- MAXOPBLOCKS and LOGSIZE of kernel/param.h
abbrev pub max_op_blocks : ℕ
max_op_blocks = 10

abbrev pub log_size : ℕ
log_size = max_op_blocks * 3

-- a store into a buffer's data
abbrev pub set_data : ℕ → Block → Dev → Dev
set_data b v d = record d { cache = put d.cache b v }

abbrev pub bwrite : ℕ → Dev → Dev
bwrite b d =
    if d.power == 0 then d else record d { disk = put d.disk b (d.cache b); power = d.power - 1 }

abbrev pub bpin : ℕ → Dev → Dev
bpin b d = record d { pins = put d.pins b (d.pins b + 1) }

abbrev pub bunpin : ℕ → Dev → Dev
bunpin b d = record d { pins = put d.pins b (d.pins b - 1) }

-- the loop of install_trans, from `tail` on with `rounds` left
pub install_loop : ℕ → ℕ → Bool → ℕ → (ℕ → ℕ) → Dev → Dev
install_loop zero tail recovering start block d = d
install_loop (suc rounds) tail recovering start block d =
    let b = block tail in
    let w = bwrite b (set_data b (d.cache (start + tail + 1)) d) in
    install_loop rounds (tail + 1) recovering start block (if recovering then w else bunpin b w)

unfoldable pub install_trans : Bool → Log → Dev → Dev
unfolding install_loop
install_trans recovering l d = install_loop l.lh.n 0 recovering l.start l.lh.block d

-- `log.lh.block[i] = lh->block[i]` from `i` on
pub read_blocks : ℕ → ℕ → Block → (ℕ → ℕ) → ℕ → ℕ
read_blocks zero i hdr block = block
read_blocks (suc rounds) i hdr block = read_blocks rounds (i + 1) hdr (put block i (hdr (i + 1)))

unfoldable pub read_head : Log → Dev → Log
unfolding read_blocks
read_head l d =
    let hdr = d.cache l.start in
    record l { lh = record { n = hdr 0; block = read_blocks (hdr 0) 0 hdr l.lh.block } }

-- `hb->block[i] = log.lh.block[i]` from `i` on
pub write_blocks : ℕ → ℕ → (ℕ → ℕ) → Block → Block
write_blocks zero i block hdr = hdr
write_blocks (suc rounds) i block hdr =
    write_blocks rounds (i + 1) block (put hdr (i + 1) (block i))

unfoldable pub write_head : Log → Dev → Dev
unfolding write_blocks
write_head l d =
    bwrite l.start
      (set_data l.start (write_blocks l.lh.n 0 l.lh.block (put (d.cache l.start) 0 l.lh.n)) d)

-- `log.lh.n = 0`
abbrev pub clear : Log → Log
clear l = record l { lh = record { n = 0; block = l.lh.block } }

unfoldable pub recover_from_log : Log → Dev → Log × Dev
unfolding read_head install_trans write_head
recover_from_log l d =
    let l1 = read_head l d in (clear l1, write_head (clear l1) (install_trans true l1 d))

-- the fields of the superblock that initlog reads; a log header has 31 words, fewer than a block
unfoldable pub initlog : ℕ → ℕ → Log → Dev → Log × Dev
unfolding recover_from_log
initlog logstart nlog l d = recover_from_log (record l { start = logstart; size = nlog }) d

-- the loop of write_log, from `tail` on with `rounds` left
pub write_log_loop : ℕ → ℕ → ℕ → (ℕ → ℕ) → Dev → Dev
write_log_loop zero tail start block d = d
write_log_loop (suc rounds) tail start block d =
    let to = start + tail + 1 in
    write_log_loop rounds (tail + 1) start block (bwrite to (set_data to (d.cache (block tail)) d))

unfoldable pub write_log : Log → Dev → Dev
unfolding write_log_loop
write_log l d = write_log_loop l.lh.n 0 l.start l.lh.block d

unfoldable pub commit : Log → Dev → Log × Dev
unfolding write_log write_head install_trans
commit l d =
    if ltb 0 l.lh.n
    then (clear l, write_head (clear l) (install_trans false l (write_head l (write_log l d))))
    else (l, d)

-- the index at which log_write records block `b`: its own, or `n`
pub find_block : ℕ → ℕ → (ℕ → ℕ) → ℕ → ℕ
find_block zero i block b = i
find_block (suc rounds) i block b =
    let rest = find_block rounds (i + 1) block b in if block i == b then i else rest

unfoldable pub log_write : ℕ → Log → Dev → Run (Log × Dev)
unfolding find_block
log_write b l d =
    if leb log_size l.lh.n || leb (l.size - 1) l.lh.n
    then panic "too big a transaction"
    else if ltb l.outstanding 1
    then panic "log_write outside of trans"
    else let i = find_block l.lh.n 0 l.lh.block b in
      let block = put l.lh.block i b in
      if i == l.lh.n
      then done (record l { lh = record { n = l.lh.n + 1; block = block } }, bpin b d)
      else done (record l { lh = record { n = l.lh.n; block = block } }, d)

-- one round of the loop of begin_op: `none` if it sleeps
unfoldable pub begin_op : Log → Option Log
begin_op l =
    if l.committing
    then none
    else if ltb log_size (l.lh.n + (l.outstanding + 1) * max_op_blocks)
    then none
    else some (record l { outstanding = l.outstanding + 1 })

-- the first critical section of end_op; the flag is `do_commit`. Every end_op follows its begin_op, so
-- `outstanding` is not 0 here, and is 0 after the decrement if it was 1.
unfoldable pub end_op_start : Log → Run (Log × Bool)
end_op_start l =
    let outstanding = l.outstanding - 1 in
    if l.committing
    then panic "log.committing"
    else if l.outstanding == 1
    then done (record l { outstanding = outstanding; committing = true }, true)
    else done (record l { outstanding = outstanding }, false)

-- the second one, after commit
abbrev pub end_op_finish : Log → Log
end_op_finish l = record l { committing = false }
