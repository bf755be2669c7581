-- ===== src/Fs.antt =====
-- kernel/fs.c, the blocks of the disk: the bitmap of free blocks, and numbers stored in blocks. A block
-- is seen through the buffer cache: `data_of b i` is byte `i` of the buffer that bread returns for block
-- `b`, and `logged b` says whether log_write was called for it. The device number is left out, as there
-- is one device.
pub mod Names
pub mod Bits
pub mod Words
pub mod Alloc
pub mod Inode
use Prim.Native.Nat.{bit_and, bit_or}
use oslab.Prelude.{
  ℕ, zero, suc, ◌+◌, ◌-◌, ◌*◌, ◌/◌, ◌%◌, ◌^◌, Bool, true, false, not, ◌&&◌, ◌||◌, Option, none,
  some, ◌==◌, ltb, if◌then◌else◌, put,
}
use oslab.Prelude.Run.{Run, done, panic}

abbrev pub bsize : ℕ
bsize = 1024

-- bits in a block of the bitmap
abbrev pub bpb : ℕ
bpb = 8192

abbrev pub uint_mod : ℕ
uint_mod = 2 ^ 32

-- the fields of `struct superblock` that the kernel uses after boot, without those of the log
pub record Superblock : Type 0 where
  pub size : ℕ
  pub ninodes : ℕ
  pub inodestart : ℕ
  pub bmapstart : ℕ

pub record Fs : Type 0 where
  pub sb : Superblock
  pub data_of : ℕ → ℕ → ℕ
  pub logged : ℕ → Bool

unfoldable pub log_write : ℕ → Fs → Fs
log_write b s = record s { logged = put s.logged b true }

abbrev pub set_block : ℕ → (ℕ → ℕ) → Fs → Fs
set_block b bytes s = record s { data_of = put s.data_of b bytes }

-- BBLOCK
abbrev pub bitmap_block : ℕ → Fs → ℕ
bitmap_block b s = b / bpb + s.sb.bmapstart

-- memset of the whole block; only its first bsize bytes mean anything
unfoldable pub bzero : ℕ → Fs → Fs
unfolding log_write
bzero b s = log_write b (set_block b (λ i. 0) s)

-- the test and the stores of balloc and bfree, with m = 1 << (bi % 8)
abbrev pub is_free : (ℕ → ℕ) → ℕ → Bool
is_free bytes bi = bit_and (bytes (bi / 8)) (2 ^ (bi % 8)) == 0

abbrev pub set_bit : (ℕ → ℕ) → ℕ → ℕ → ℕ
set_bit bytes bi = put bytes (bi / 8) (bit_or (bytes (bi / 8)) (2 ^ (bi % 8)))

abbrev pub clear_bit : (ℕ → ℕ) → ℕ → ℕ → ℕ
clear_bit bytes bi = put bytes (bi / 8) (bit_and (bytes (bi / 8)) (255 - 2 ^ (bi % 8)))

-- the inner loop of balloc, from `bi` on: the first free bit
pub balloc_bits : ℕ → ℕ → ℕ → Fs → Option ℕ
balloc_bits zero b bi s = none
balloc_bits (suc rounds) b bi s =
    let rest = balloc_bits rounds b (bi + 1) s in
    if ltb (b + bi) s.sb.size
    then (if is_free (s.data_of (bitmap_block b s)) bi then some bi else rest)
    else none

-- the outer loop, from block `b` on: the block of the bitmap and the bit in it
pub balloc_blocks : ℕ → ℕ → Fs → Option (ℕ × ℕ)
balloc_blocks zero b s = none
balloc_blocks (suc rounds) b s =
    let rest = balloc_blocks rounds (b + bpb) s in
    if ltb b s.sb.size
    then elim (balloc_bits bpb b 0 s) [ none ↦ rest | some bi ↦ some (b, bi) ]
    else none

-- 0 is returned when no block is free. The outer loop makes a round for each block of the bitmap.
unfoldable pub balloc : Fs → ℕ × Fs
unfolding log_write bzero
balloc s = elim (balloc_blocks (s.sb.size / bpb + 1) 0 s) [
  | none ↦ (0, s)
  | some (b, bi) ↦
      let bp = bitmap_block b s in
      (b + bi, bzero (b + bi) (log_write bp (set_block bp (set_bit (s.data_of bp) bi) s)))
]

unfoldable pub bfree : ℕ → Fs → Run Fs
unfolding log_write
bfree b s =
    let bp = bitmap_block b s in
    let bi = b % bpb in
    if is_free (s.data_of bp) bi
    then panic "freeing free block"
    else done (log_write bp (set_block bp (clear_bit (s.data_of bp) bi) s))

-- a little-endian `uint` at byte `i`, as a load through a `uint*` reads it, and as a store writes it
abbrev pub get_word : (ℕ → ℕ) → ℕ → ℕ
get_word bytes i = bytes i + 256 * bytes (i + 1) + 65536 * bytes (i + 2) + 16777216 * bytes (i + 3)

abbrev pub set_word : (ℕ → ℕ) → ℕ → ℕ → ℕ → ℕ
set_word bytes i v =
    put (put (put (put bytes i (v % 256)) (i + 1) (v / 256 % 256)) (i + 2) (v / 65536 % 256))
      (i + 3) (v / 16777216 % 256)

-- a `short`
abbrev pub get_short : (ℕ → ℕ) → ℕ → ℕ
get_short bytes i = bytes i + 256 * bytes (i + 1)

abbrev pub set_short : (ℕ → ℕ) → ℕ → ℕ → ℕ → ℕ
set_short bytes i v = put (put bytes i (v % 256)) (i + 1) (v / 256 % 256)
