-- ===== src/Fs/Inode.antt =====
-- kernel/fs.c, inodes and their content: iupdate, bmap, itrunc, stati, readi and writei. The caller
-- holds ip->lock. User and kernel memory are bytes at addresses; `copyout a m` and `copyin a m` are how
-- many of the `m` bytes at `a` either_copyout and either_copyin copy before they fail, or at least `m`
-- if they succeed.
pub mod Fields
pub mod Slots
pub mod Grow
pub mod Bmap
pub mod Content
pub mod Wrote
pub mod Write
pub mod Read
pub mod RoundTrip
mod Tests
use oslab.Prelude.{
  ℕ, zero, suc, ◌+◌, ◌-◌, ◌*◌, ◌/◌, ◌%◌, Bool, true, false, not, ◌&&◌, ◌||◌, Option, none, some,
  ◌==◌, ltb, leb, if◌then◌else◌, put, min,
}
use oslab.Prelude.Run.{Run, done, panic, out_of_fuel, ◌>>=◌}
use oslab.Fs.{
  Fs, bsize, uint_mod, log_write, set_block, balloc, bfree, get_word, set_word, get_short,
  set_short,
}

abbrev pub ndirect : ℕ
ndirect = 12

abbrev pub nindirect : ℕ
nindirect = 256

abbrev pub maxfile : ℕ
maxfile = 268

-- inodes in a block
abbrev pub ipb : ℕ
ipb = 16

-- `struct inode` less the lock and the device; `addrs` is meant up to ndirect
pub record Inode : Type 0 where
  pub inum : ℕ
  pub ref : ℕ
  pub valid : Bool
  pub type : ℕ
  pub major : ℕ
  pub minor : ℕ
  pub nlink : ℕ
  pub size : ℕ
  pub addrs : ℕ → ℕ

-- IBLOCK
abbrev pub inode_block : ℕ → Fs → ℕ
inode_block inum s = inum / ipb + s.sb.inodestart

-- the byte of the block where the `struct dinode` starts, of 64 bytes
abbrev pub dinode_at : ℕ → ℕ
dinode_at inum = inum % ipb * 64

-- memmove of `addrs` to byte `i`, from word `k` on
pub store_addrs : ℕ → ℕ → ℕ → (ℕ → ℕ) → (ℕ → ℕ) → ℕ → ℕ
store_addrs zero k i addrs bytes = bytes
store_addrs (suc rounds) k i addrs bytes =
    store_addrs rounds (k + 1) (i + 4) addrs (set_word bytes i (addrs k))

unfoldable pub store_dinode : Inode → ℕ → (ℕ → ℕ) → ℕ → ℕ
unfolding store_addrs
store_dinode ip i bytes =
    let shorts =
      set_short
        (set_short (set_short (set_short bytes i ip.type) (i + 2) ip.major) (i + 4) ip.minor)
        (i + 6) ip.nlink in
    store_addrs (ndirect + 1) 0 (i + 12) ip.addrs (set_word shorts (i + 8) ip.size)

unfoldable pub iupdate : Inode → Fs → Fs
unfolding store_dinode log_write
iupdate ip s =
    let bp = inode_block ip.inum s in
    log_write bp (set_block bp (store_dinode ip (dinode_at ip.inum) (s.data_of bp)) s)

-- what ilock reads into an inode that is not valid
unfoldable pub load_dinode : Inode → Fs → Inode
load_dinode ip s =
    let bytes = s.data_of (inode_block ip.inum s) in
    let i = dinode_at ip.inum in
    record ip {
      type = get_short bytes i;
      major = get_short bytes (i + 2);
      minor = get_short bytes (i + 4);
      nlink = get_short bytes (i + 6);
      size = get_word bytes (i + 8);
      addrs = λ k. get_word bytes (i + 12 + 4 * k);
      valid = true;
    }

-- `if((addr = ip->addrs[k]) == 0) ...`: the block at place `k`, taken from balloc if there is none, or 0
unfoldable pub load_addr : ℕ → Inode → Fs → ℕ × Inode × Fs
load_addr k ip s =
    let (a, s') = balloc s in
    if ip.addrs k == 0
    then (if a == 0 then (0, ip, s') else (a, record ip { addrs = put ip.addrs k a }, s'))
    else (ip.addrs k, ip, s)

-- the block at place `bn` of the indirect block `addr`
unfoldable pub load_entry : ℕ → ℕ → Inode → Fs → ℕ × Inode × Fs
unfolding log_write
load_entry addr bn ip s =
    let a = get_word (s.data_of addr) (4 * bn) in
    let (new, s') = balloc s in
    if a == 0
    then (if new == 0 then (0, ip, s') else (
      new,
      ip,
      log_write addr (set_block addr (set_word (s'.data_of addr) (4 * bn) new) s'),
    ))
    else (a, ip, s)

unfoldable pub bmap : Inode → ℕ → Fs → Run (ℕ × Inode × Fs)
unfolding load_addr load_entry
bmap ip bn s =
    let (addr, ip1, s1) = load_addr ndirect ip s in
    if ltb bn ndirect
    then done (load_addr bn ip s)
    else if ltb (bn - ndirect) nindirect
    then done (if addr == 0 then (0, ip1, s1) else load_entry addr (bn - ndirect) ip1 s1)
    else panic "bmap: out of range"

-- the first loop of itrunc, from place `i` on
pub free_direct : ℕ → ℕ → Inode → Fs → Run (Inode × Fs)
free_direct zero i ip s = done (ip, s)
free_direct (suc rounds) i ip s =
    let free = bfree (ip.addrs i) s >>= λ s'.
    free_direct rounds (i + 1) (record ip { addrs = put ip.addrs i 0 }) s' in
    let skip = free_direct rounds (i + 1) ip s in if ip.addrs i == 0 then skip else free

-- the second loop, over the places of the indirect block, whose bytes were read before
pub free_entries : ℕ → ℕ → (ℕ → ℕ) → Fs → Run Fs
free_entries zero j bytes s = done s
free_entries (suc rounds) j bytes s =
    let free = bfree (get_word bytes (4 * j)) s >>= λ s'. free_entries rounds (j + 1) bytes s' in
    let skip = free_entries rounds (j + 1) bytes s in
    if get_word bytes (4 * j) == 0 then skip else free

unfoldable pub itrunc : Inode → Fs → Run (Inode × Fs)
unfolding free_direct free_entries iupdate
itrunc ip s = do
  (ip1, s1) ← free_direct ndirect 0 ip s
  (ip2, s2) ←
      (if ip1.addrs ndirect == 0 then done (ip1, s1) else (do
        s' ← free_entries nindirect 0 (s1.data_of (ip1.addrs ndirect)) s1
        s'' ← bfree (ip1.addrs ndirect) s'
        done (record ip1 { addrs = put ip1.addrs ndirect 0 }, s'')))
  let ip3 = record ip2 { size = 0 }
  done (ip3, iupdate ip3 s2)

-- memmove of `m` bytes
abbrev pub copy : (ℕ → ℕ) → ℕ → (ℕ → ℕ) → ℕ → ℕ → ℕ → ℕ
copy to dst from src m a = if leb dst a && ltb a (dst + m) then from (src + (a - dst)) else to a

-- The loop of readi: the count, or `none` for -1, and the memory that is read into. A round copies at
-- least one byte.
pub readi_loop :
    ℕ → (ℕ → ℕ → ℕ) → ℕ → ℕ → ℕ → ℕ → Inode → Fs → (ℕ → ℕ) → Run (Option ℕ × (ℕ → ℕ) × Inode × Fs)
readi_loop zero copyout dst off n tot ip s mem = out_of_fuel
readi_loop (suc rounds) copyout dst off n tot ip s mem =
    let more = bmap ip (off / bsize) s >>= λ (addr, ip', s').
    let m = min (n - tot) (bsize - off % bsize) in
    let rest =
      readi_loop rounds copyout (dst + m) (off + m) n (tot + m) ip' s'
        (copy mem dst (s'.data_of addr) (off % bsize) m) in
    if addr == 0
    then done (some tot, mem, ip', s')
    else if ltb (copyout dst m) m
    then done (none, copy mem dst (s'.data_of addr) (off % bsize) (copyout dst m), ip', s')
    else rest in
    if ltb tot n then more else done (some tot, mem, ip, s)

unfoldable pub readi :
    (ℕ → ℕ → ℕ) → ℕ → ℕ → ℕ → Inode → Fs → (ℕ → ℕ) → Run (Option ℕ × (ℕ → ℕ) × Inode × Fs)
readi copyout dst off n ip s mem =
    let n' = if ltb ip.size ((off + n) % uint_mod) then ip.size - off else n in
    if ltb ip.size off || ltb ((off + n) % uint_mod) off
    then done (some 0, mem, ip, s)
    else readi_loop (n' + 1) copyout dst off n' 0 ip s mem

-- the loop of writei: the count, the offset behind the bytes written, the inode and the disk
pub writei_loop : ℕ → (ℕ → ℕ → ℕ) → (ℕ → ℕ) → ℕ → ℕ → ℕ → ℕ → Inode → Fs → Run (ℕ × ℕ × Inode × Fs)
writei_loop zero copyin mem src off n tot ip s = out_of_fuel
writei_loop (suc rounds) copyin mem src off n tot ip s =
    let more = bmap ip (off / bsize) s >>= λ (addr, ip', s').
    let m = min (n - tot) (bsize - off % bsize) in
    let rest =
      writei_loop rounds copyin mem (src + m) (off + m) n (tot + m) ip'
        (log_write addr (set_block addr (copy (s'.data_of addr) (off % bsize) mem src m) s')) in
    if addr == 0
    then done (tot, off, ip', s')
    else if ltb (copyin src m) m
    then done (
      tot,
      off,
      ip',
      set_block addr (copy (s'.data_of addr) (off % bsize) mem src (copyin src m)) s',
    )
    else rest in
    if ltb tot n then more else done (tot, off, ip, s)

-- `none` is -1
unfoldable pub writei : (ℕ → ℕ → ℕ) → (ℕ → ℕ) → ℕ → ℕ → ℕ → Inode → Fs → Run (Option ℕ × Inode × Fs)
writei copyin mem src off n ip s =
    if ltb ip.size off
      || (ltb ((off + n) % uint_mod) off || ltb (maxfile * bsize) ((off + n) % uint_mod))
    then done (none, ip, s)
    else writei_loop (n + 1) copyin mem src off n 0 ip s >>= λ (tot, off', ip', s').
        let ip'' = if ltb ip'.size off' then record ip' { size = off' } else ip' in
        done (some tot, ip'', iupdate ip'' s')
