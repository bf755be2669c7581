-- ===== src/Fs/Inode/Tests.antt =====
-- A small disk with one file, on which the functions of kernel/fs.c run.
use oslab.Prelude.{
  ℕ, zero, suc, ◌+◌, ◌%◌, ◌≤◌, ◌<◌, ◌≡◌, ◌≢◌, ◌⊎◌, refl, sym, ◌∙◌, true, false, arith,
  if◌then◌else◌, ◌==◌, ℕ_discrete,
}
use oslab.Prelude.Run.{done}
use oslab.Fs.{Fs}
use oslab.Fs.Bits.{IsBytes}
use oslab.Fs.Alloc.{Balloc, balloc_lem}
use oslab.Fs.Alloc.Search.{IsDisk, block_free}
use oslab.Fs.Inode.{Inode, ndirect, bmap, iupdate, load_dinode}
use oslab.Fs.Inode.Slots.{nth, IsFile}
use oslab.Fs.Inode.Bmap.{Mapped, bmap_lem}
use oslab.Fs.Inode.Fields.{load_dinode-iupdate}
use oslab.Prelude.{some}
use oslab.Fs.Inode.{writei}
use oslab.Fs.Inode.RoundTrip.{Rereads, readi-writei}
use oslab.Fs.Inode.Write.Loop.{Stops}
use oslab.Fs.Inode.Write.{Writei, writei_lem}
use oslab.Fs.Inode.Read.{Readi, readi_lem}

-- six blocks: one of inodes, the bitmap in block 2, and the data blocks 3, 4 and 5, of which 3 is in use
abbrev disk : Fs
disk = record {
  sb = record { size = 6; ninodes = 16; inodestart = 1; bmapstart = 2 };
  data_of = λ b i. if b == 2 then (if i == 0 then 15 else 0) else if b == 3 then 65 + i % 26 else 0;
  logged = λ b. false;
}

abbrev file : Inode
file = record {
  inum = 1;
  ref = 1;
  valid = true;
  type = 2;
  major = 0;
  minor = 0;
  nlink = 1;
  size = 5;
  addrs = λ k. if k == 0 then 3 else 0;
}

disk-IsBytes : (b : ℕ) → IsBytes (disk.data_of b)
disk-IsBytes b i = ground arith

disk-meta_used : (x : ℕ) → x < 3 → block_free disk x ≡ false
disk-meta_used zero lt = refl
disk-meta_used (suc zero) lt = refl
disk-meta_used (suc (suc zero)) lt = refl
disk-meta_used (suc (suc (suc x))) lt = absurd (omega arith)

disk-IsDisk : IsDisk 3 disk
disk-IsDisk = record {
  bytes = disk-IsBytes;
  meta_used = disk-meta_used;
  bitmap_meta = λ x lt. omega arith;
  meta_pos = omega arith;
  meta_size = omega arith;
  size_uint = omega arith;
}

nth-file : (k : ℕ) → nth file disk k ≢ 0 → k ≡ 0
nth-file k ne = elim (ℕ_discrete k 0) [ yes e ↦ e | no differ ↦ absurd (ne (ground arith)) ]

file-IsFile : IsFile 3 file disk
file-IsFile = record {
  disk = disk-IsDisk;
  inode_meta = omega arith;
  inode_apart = λ y lt e. omega arith;
  owned = λ k lt ne. rw (nth-file k ne) (omega arith, omega arith, refl);
  table = λ ne. absurd (ne refl);
  distinct = λ j k ltj ltk ne e. nth-file j ne ∙ sym (nth-file k (rw (← e) ne));
  not_table = λ k lt ne e. ne e;
}

abbrev memory : ℕ → ℕ
memory i = 97 + i % 26

memory-IsBytes : IsBytes memory
memory-IsBytes i = omega arith

balloc_example : Balloc 3 disk
balloc_example = balloc_lem 3 disk disk-IsDisk

bmap_example :
    (a : ℕ) × (ip' : Inode) × (s' : Fs) × (bmap file 12 disk ≡ done (a, ip', s'))
    × Mapped 3 12 a file ip' disk s'
bmap_example = bmap_lem 3 file 12 disk file-IsFile (omega arith)

writei_example : Writei 3 (λ a m. m) memory 10 4 1500 file disk
writei_example =
    writei_lem 3 (λ a m. m) memory 10 4 1500 file disk file-IsFile memory-IsBytes (omega arith)
      (omega arith)

readi_example : Readi 3 (λ a m. m) 100 1 20 file disk memory
readi_example =
    readi_lem 3 (λ a m. m) 100 1 20 file disk memory file-IsFile (omega arith) (omega arith)
      (omega arith)

readi-writei_example :
    (got : ℕ) × (ip' : Inode) × (s' : Fs) × (writei (λ a m. m) memory 10 4 1500 file disk
      ≡ done (some got, ip', s'))
    × ((got ≡ 1500) ⊎ Stops (λ a m. m) 10 4 1500 got ip' s')
    × Rereads (λ a m. m) memory 10 100 4 got ip' s' memory
readi-writei_example =
    readi-writei 3 (λ a m. m) (λ a m. m) memory 10 100 4 1500 file disk memory file-IsFile
      memory-IsBytes (λ a m. omega arith) (omega arith) (omega arith) (omega arith)

load_dinode_example :
    let loaded = load_dinode file (iupdate file disk) in
    (loaded.valid ≡ true)
    × (loaded.type ≡ 2)
    × (loaded.major ≡ 0)
    × (loaded.minor ≡ 0)
    × (loaded.nlink ≡ 1)
    × (loaded.size ≡ 5)
    × ((k : ℕ) → k ≤ ndirect → loaded.addrs k ≡ file.addrs k)
load_dinode_example =
    load_dinode-iupdate file file disk refl (omega arith) (omega arith) (omega arith) (omega arith)
      (omega arith) (λ k le. ground arith)
