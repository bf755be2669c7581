-- ===== src/Fs/Inode/Fields.antt =====
-- iupdate of kernel/fs.c and the part of ilock that reads an inode: what the one stores the other loads.
-- No data block changes.
pub mod Bytes
use oslab.Prelude.{
  ℕ, zero, suc, ◌+◌, ◌-◌, ◌*◌, ◌/◌, ◌%◌, ◌≤◌, ◌<◌, ◌≡◌, ◌≢◌, ◌⊎◌, inl, inr, refl, sym, ap, ◌∙◌,
  true, false, arith, if◌then◌else◌, ◌==◌, ℕ_discrete,
}
use oslab.Fs.{
  bpb, bitmap_block, is_free, Fs, bsize, uint_mod, get_word, set_word, get_short, set_short,
  log_write,
}
use oslab.Fs.Bits.{IsBytes}
use oslab.Fs.Words.{set_word-IsBytes, get_word-set_word, set_word_outside}
use oslab.Fs.Alloc.Search.{block_free}
use oslab.Fs.Inode.{
  Inode, ndirect, maxfile, inode_block, dinode_at, store_addrs, store_dinode, iupdate, load_dinode,
}
use oslab.Fs.Inode.Slots.{nth-same, nth, byte_at, IsOwned, IsFile}
use oslab.Fs.Inode.Fields.Bytes.{
  set_short-IsBytes, set_short_outside, get_short-set_short, store_addrs-IsBytes,
  store_addrs_outside, get_word-same, get_word-store_addrs,
}

module _ (ip : Inode) (i : ℕ) (bytes : ℕ → ℕ) where
  abbrev shorts : ℕ → ℕ
  shorts =
      set_short
        (set_short (set_short (set_short bytes i ip.type) (i + 2) ip.major) (i + 4) ip.minor)
        (i + 6) ip.nlink

  pub store_dinode-IsBytes : IsBytes bytes → IsBytes (store_dinode ip i bytes)
  unfolding store_dinode
  store_dinode-IsBytes ok =
      store_addrs-IsBytes (ndirect + 1) 0 (i + 12) ip.addrs (set_word shorts (i + 8) ip.size) (
        set_word-IsBytes shorts (i + 8) ip.size (
          set_short-IsBytes
            (set_short (set_short (set_short bytes i ip.type) (i + 2) ip.major) (i + 4) ip.minor)
            (i + 6) ip.nlink
            (set_short-IsBytes (set_short (set_short bytes i ip.type) (i + 2) ip.major) (i + 4)
              ip.minor
              (set_short-IsBytes (set_short bytes i ip.type) (i + 2) ip.major
                (set_short-IsBytes bytes i ip.type ok)))))

  pub store_dinode_outside : (j : ℕ) → (j < i) ⊎ (i + 64 ≤ j) → store_dinode ip i bytes j ≡ bytes j
  unfolding store_dinode
  store_dinode_outside j far =
      store_addrs_outside (ndirect + 1) 0 (i + 12) j ip.addrs (set_word shorts (i + 8) ip.size)
        (elim far [ inl low ↦ inl (omega arith) | inr high ↦ inr (omega arith) ])
      ∙ set_word_outside shorts (i + 8) j ip.size
          (elim far [ inl low ↦ inl (omega arith) | inr high ↦ inr (omega arith) ])
      ∙ ground arith

  store_dinode-short : (j : ℕ) → j < i + 8 → store_dinode ip i bytes j ≡ shorts j
  unfolding store_dinode
  store_dinode-short j lt =
      store_addrs_outside (ndirect + 1) 0 (i + 12) j ip.addrs (set_word shorts (i + 8) ip.size)
        (inl (omega arith))
      ∙ set_word_outside shorts (i + 8) j ip.size (inl lt)

  store_dinode-get_short :
      (j : ℕ) → j + 1 < i + 8 → get_short (store_dinode ip i bytes) j ≡ get_short shorts j
  store_dinode-get_short j lt =
      omega (arith, store_dinode-short j (omega arith), store_dinode-short (j + 1) lt)

  get_nlink : ip.nlink < 65536 → get_short (store_dinode ip i bytes) (i + 6) ≡ ip.nlink
  get_nlink lt = store_dinode-get_short (i + 6) (omega arith) ∙ ground arith

  get_type : ip.type < 65536 → get_short (store_dinode ip i bytes) i ≡ ip.type
  get_type lt = store_dinode-get_short i (omega arith) ∙ ground arith

  get_size : ip.size < uint_mod → get_word (store_dinode ip i bytes) (i + 8) ≡ ip.size
  unfolding store_dinode
  get_size lt =
      get_word-same (store_dinode ip i bytes) (set_word shorts (i + 8) ip.size) (i + 8) (λ j lo hi.
        store_addrs_outside (ndirect + 1) 0 (i + 12) j ip.addrs (set_word shorts (i + 8) ip.size)
          (inl (omega arith)))
      ∙ get_word-set_word shorts (i + 8) ip.size lt

  get_major : ip.major < 65536 → get_short (store_dinode ip i bytes) (i + 2) ≡ ip.major
  get_major lt = store_dinode-get_short (i + 2) (omega arith) ∙ ground arith

  get_minor : ip.minor < 65536 → get_short (store_dinode ip i bytes) (i + 4) ≡ ip.minor
  get_minor lt = store_dinode-get_short (i + 4) (omega arith) ∙ ground arith

  get_addr :
      (k : ℕ)
      → k ≤ ndirect
      → ip.addrs k < uint_mod
      → get_word (store_dinode ip i bytes) (i + 12 + 4 * k) ≡ ip.addrs k
  unfolding store_dinode
  get_addr k le lt =
      let first : 0 + k ≡ k = omega arith in
      get_word-store_addrs (ndirect + 1) 0 (i + 12) k ip.addrs (set_word shorts (i + 8) ip.size)
        (omega arith) (rw first lt)
      ∙ ap ip.addrs first

-- the disk after iupdate, block by block
module _ (ip : Inode) (s : Fs) where
  iupdate-here :
      (iupdate ip s).data_of (inode_block ip.inum s)
      ≡ store_dinode ip (dinode_at ip.inum) (s.data_of (inode_block ip.inum s))
  unfolding iupdate log_write
  iupdate-here =
      let self : (inode_block ip.inum s == inode_block ip.inum s) ≡ true = ground arith in
      rw self refl

  pub iupdate-other : (b : ℕ) → b ≢ inode_block ip.inum s → (iupdate ip s).data_of b ≡ s.data_of b
  unfolding iupdate log_write
  iupdate-other b ne =
      let differ : (inode_block ip.inum s == b) ≡ false = ground arith in rw differ refl

  pub iupdate-sb : (iupdate ip s).sb ≡ s.sb
  unfolding iupdate log_write
  iupdate-sb = refl

-- What ilock loads after iupdate is the inode that was stored, if its fields fit.
pub load_dinode-iupdate :
    (ip old : Inode) (s : Fs)
    → old.inum ≡ ip.inum
    → ip.type < 65536
    → ip.major < 65536
    → ip.minor < 65536
    → ip.nlink < 65536
    → ip.size < uint_mod
    → ((k : ℕ) → k ≤ ndirect → ip.addrs k < uint_mod)
    → let loaded = load_dinode old (iupdate ip s) in
      (loaded.valid ≡ true)
      × (loaded.type ≡ ip.type)
      × (loaded.major ≡ ip.major)
      × (loaded.minor ≡ ip.minor)
      × (loaded.nlink ≡ ip.nlink)
      × (loaded.size ≡ ip.size)
      × ((k : ℕ) → k ≤ ndirect → loaded.addrs k ≡ ip.addrs k)
unfolding load_dinode
load_dinode-iupdate ip old s same t major minor nlink size addrs =
    let b = inode_block ip.inum s in
    let bytes = s.data_of b in
    let i = dinode_at ip.inum in
    let at : inode_block old.inum (iupdate ip s) ≡ b = rw (same, iupdate-sb ip s) refl in
    let stored : (iupdate ip s).data_of (inode_block old.inum (iupdate ip s))
        ≡ store_dinode ip i bytes =
      ap (iupdate ip s).data_of at ∙ iupdate-here ip s in
    rw (stored, same)
      (
        refl,
        get_type ip i bytes t,
        get_major ip i bytes major,
        get_minor ip i bytes minor,
        get_nlink ip i bytes nlink,
        get_size ip i bytes size,
        λ k le. get_addr ip i bytes k le (addrs k le),
      )

-- the part of the block in which other inodes stand
pub iupdate_outside :
    (ip : Inode) (s : Fs) (j : ℕ)
    → (j < dinode_at ip.inum) ⊎ (dinode_at ip.inum + 64 ≤ j)
    → (iupdate ip s).data_of (inode_block ip.inum s) j ≡ s.data_of (inode_block ip.inum s) j
iupdate_outside ip s j far =
    ap (λ f. f j) (iupdate-here ip s)
    ∙ store_dinode_outside ip (dinode_at ip.inum) (s.data_of (inode_block ip.inum s)) j far

-- iupdate changes no data block, and neither the file.
module _ (meta : ℕ) (ip : Inode) (s : Fs) (v : IsFile meta ip s) where
  pub iupdate-data_of : (b : ℕ) → meta ≤ b → (iupdate ip s).data_of b ≡ s.data_of b
  iupdate-data_of b le = iupdate-other ip s b (λ e. omega (arith, v.inode_meta))

  pub iupdate-free : (y : ℕ) → y < s.sb.size → block_free (iupdate ip s) y ≡ block_free s y
  unfolding iupdate log_write
  iupdate-free y lt =
      ap (λ bytes. is_free bytes (y % bpb))
        (iupdate-other ip s (bitmap_block y s) (v.inode_apart y lt))

  pub iupdate-nth : (j : ℕ) → nth ip (iupdate ip s) j ≡ nth ip s j
  iupdate-nth j =
      nth-same ip s (iupdate ip s) j (λ ne. iupdate-data_of (ip.addrs ndirect) (v.table ne).0)

  owned' : (b : ℕ) → IsOwned meta s b → IsOwned meta (iupdate ip s) b
  owned' b (lo, hi, used) = (lo, rw (iupdate-sb ip s) hi, iupdate-free b hi ∙ used)

  bytes' : (b : ℕ) → IsBytes ((iupdate ip s).data_of b)
  bytes' b = elim (ℕ_discrete b (inode_block ip.inum s)) [
    | yes e ↦
        rw (e, iupdate-here ip s)
          (store_dinode-IsBytes ip (dinode_at ip.inum) (s.data_of (inode_block ip.inum s))
            (v.disk.bytes (inode_block ip.inum s)))
    | no ne ↦ rw (iupdate-other ip s b ne) (v.disk.bytes b)
  ]

  pub iupdate-IsFile : IsFile meta ip (iupdate ip s)
  iupdate-IsFile = record {
    disk = record {
      bytes = bytes';
      meta_used = λ y lt. iupdate-free y (omega (arith, v.disk.meta_size)) ∙ v.disk.meta_used y lt;
      bitmap_meta = rw (iupdate-sb ip s) v.disk.bitmap_meta;
      meta_pos = v.disk.meta_pos;
      meta_size = rw (iupdate-sb ip s) v.disk.meta_size;
      size_uint = rw (iupdate-sb ip s) v.disk.size_uint;
    };
    inode_meta = rw (iupdate-sb ip s) v.inode_meta;
    inode_apart = rw (iupdate-sb ip s) v.inode_apart;
    owned = λ j lt ne.
        rw (iupdate-nth j) (owned' (nth ip s j) (v.owned j lt (rw (← iupdate-nth j) ne)));
    table = λ ne. owned' (ip.addrs ndirect) (v.table ne);
    distinct = λ i j lti ltj ne e.
        v.distinct i j lti ltj (rw (← iupdate-nth i) ne) (sym (iupdate-nth i) ∙ e ∙ iupdate-nth j);
    not_table = λ j lt ne e. v.not_table j lt (rw (← iupdate-nth j) ne) (sym (iupdate-nth j) ∙ e);
  }

  pub iupdate-byte_at : (o : ℕ) → o < maxfile * bsize → byte_at ip (iupdate ip s) o ≡ byte_at ip s o
  iupdate-byte_at o lt = rw (iupdate-nth (o / bsize)) (elim (ℕ_discrete (nth ip s (o / bsize)) 0) [
    | yes z ↦ let empty : (nth ip s (o / bsize) == 0) ≡ true = ground arith in rw empty refl
    | no ne ↦
        ap (λ f. if nth ip s (o / bsize) == 0 then 0 else f (o % bsize))
          (iupdate-data_of (nth ip s (o / bsize)) (v.owned (o / bsize) (omega arith) ne).0)
  ])
