-- ===== src/Fs/Inode/Slots.antt =====
-- The blocks of an inode of kernel/fs.c, and how they change when the inode gets a new block.
use mathlib.Core.Bool.{true≢false}
use oslab.Prelude.{
  ℕ, ◌-◌, ◌*◌, ◌/◌, ◌%◌, ◌≤◌, ◌<◌, ◌≡◌, ◌≢◌, ◌⊎◌, inl, inr, refl, sym, ap, ◌∙◌, true, false, arith,
  if◌then◌else◌, ◌==◌, ltb, ℕ_discrete,
}
use oslab.Fs.{Fs, bitmap_block, bsize, get_word}
use oslab.Fs.Alloc.Search.{block_free, IsDisk}
use oslab.Fs.Inode.{Inode, ndirect, maxfile, inode_block}

-- the block at place `k` of the file, or 0
abbrev pub nth : Inode → Fs → ℕ → ℕ
nth ip s k =
    if ltb k ndirect
    then ip.addrs k
    else if ip.addrs ndirect == 0
    then 0
    else get_word (s.data_of (ip.addrs ndirect)) (4 * (k - ndirect))

pub nth-same :
    (ip : Inode) (s s' : Fs) (j : ℕ)
    → (ip.addrs ndirect ≢ 0 → s'.data_of (ip.addrs ndirect) ≡ s.data_of (ip.addrs ndirect))
    → nth ip s' j ≡ nth ip s j
nth-same ip s s' j h = elim (ℕ_discrete (ip.addrs ndirect) 0) [
  | yes z ↦ let empty : (ip.addrs ndirect == 0) ≡ true = ground arith in rw empty refl
  | no ne ↦
      ap
        (λ (bytes : ℕ → ℕ).
          if ltb j ndirect
          then ip.addrs j
          else if ip.addrs ndirect == 0
          then 0
          else get_word bytes (4 * (j - ndirect)))
        (h ne)
]

-- byte `o` of the file; a place without a block reads as zeros
abbrev pub byte_at : Inode → Fs → ℕ → ℕ
byte_at ip s o = let a = nth ip s (o / bsize) in if a == 0 then 0 else s.data_of a (o % bsize)

-- a data block that is in use
abbrev pub IsOwned : ℕ → Fs → ℕ → Type 0
IsOwned meta s a = (meta ≤ a) × (a < s.sb.size) × (block_free s a ≡ false)

-- The blocks of the file, the indirect block among them, are in use and distinct.
pub record IsFile (meta : ℕ) (ip : Inode) (s : Fs) : Type 0 where
  pub disk : IsDisk meta s
  pub inode_meta : inode_block ip.inum s < meta
  pub inode_apart : (y : ℕ) → y < s.sb.size → bitmap_block y s ≢ inode_block ip.inum s
  pub owned : (k : ℕ) → k < maxfile → nth ip s k ≢ 0 → IsOwned meta s (nth ip s k)
  pub table : ip.addrs ndirect ≢ 0 → IsOwned meta s (ip.addrs ndirect)
  pub distinct :
      (j k : ℕ) → j < maxfile → k < maxfile → nth ip s j ≢ 0 → nth ip s j ≡ nth ip s k → j ≡ k
  pub not_table : (k : ℕ) → k < maxfile → nth ip s k ≢ 0 → nth ip s k ≢ ip.addrs ndirect

-- What a new block `x` does to the inode: it goes to place `k`, or becomes the indirect block.
pub record Adds (meta x k : ℕ) (ip ip' : Inode) (s s' : Fs) : Type 0 where
  pub disk' : IsDisk meta s'
  pub sb' : s'.sb ≡ s.sb
  pub inum' : ip'.inum ≡ ip.inum
  pub above : meta ≤ x
  pub below : x < s.sb.size
  pub fresh : block_free s x ≡ true
  pub used' : (y : ℕ) → y < s.sb.size → block_free s' y ≡ (if x == y then false else block_free s y)
  pub nth' :
      (j : ℕ)
      → j < maxfile
      → (nth ip' s' j ≡ nth ip s j) ⊎ ((j ≡ k) × (nth ip s j ≡ 0) × (nth ip' s' j ≡ x))
  pub table' :
      (ip'.addrs ndirect ≡ ip.addrs ndirect)
      ⊎ ((ip'.addrs ndirect ≡ x) × ((j : ℕ) → j < maxfile → nth ip' s' j ≡ nth ip s j))
  pub data' : (b : ℕ) → meta ≤ b → b ≢ x → b ≢ ip'.addrs ndirect → s'.data_of b ≡ s.data_of b
  pub zeroed : x ≢ ip'.addrs ndirect → (i : ℕ) → s'.data_of x i ≡ 0

module _ (meta x k : ℕ) (ip ip' : Inode) (s s' : Fs) (v : IsFile meta ip s)
    (g : Adds meta x k ip ip' s s') where
  owned-ne : (a : ℕ) → IsOwned meta s a → x ≢ a
  owned-ne a (_, _, used) e = absurd (true≢false (sym g.fresh ∙ ap (block_free s) e ∙ used))

  IsOwned-after : (a : ℕ) → IsOwned meta s a → IsOwned meta s' a
  IsOwned-after a (lo, hi, used) =
      let differ : (x == a) ≡ false = ground (arith, owned-ne a (lo, hi, used)) in
      (lo, rw g.sb' hi, g.used' a hi ∙ rw differ used)

  x-IsOwned : IsOwned meta s' x
  x-IsOwned =
      let self : (x == x) ≡ true = ground arith in
      (g.above, rw g.sb' g.below, g.used' x g.below ∙ rw self refl)

  owned' : (j : ℕ) → j < maxfile → nth ip' s' j ≢ 0 → IsOwned meta s' (nth ip' s' j)
  owned' j lt ne = elim (g.nth' j lt) [
    | inl e ↦ rw e (IsOwned-after (nth ip s j) (v.owned j lt (rw (← e) ne)))
    | inr (_, _, e) ↦ rw e x-IsOwned
  ]

  table-IsOwned : ip'.addrs ndirect ≢ 0 → IsOwned meta s' (ip'.addrs ndirect)
  table-IsOwned ne = elim g.table' [
    | inl e ↦ rw e (IsOwned-after (ip.addrs ndirect) (v.table (rw (← e) ne)))
    | inr (e, _) ↦ rw e x-IsOwned
  ]

  distinct' :
      (i j : ℕ) → i < maxfile → j < maxfile → nth ip' s' i ≢ 0 → nth ip' s' i ≡ nth ip' s' j → i ≡ j
  distinct' i j lti ltj ne e = elim (g.nth' i lti) [
    | inl ei ↦ elim (g.nth' j ltj) [
      | inl ej ↦ v.distinct i j lti ltj (rw (← ei) ne) (sym ei ∙ e ∙ ej)
      | inr (_, _, ej) ↦
          absurd (owned-ne (nth ip s i) (v.owned i lti (rw (← ei) ne)) (sym ej ∙ sym e ∙ ei))
    ]
    | inr (ki, _, ei) ↦ elim (g.nth' j ltj) [
      | inl ej ↦
          absurd (owned-ne (nth ip s j) (v.owned j ltj (rw (← ej) (rw (← e) ne))) (sym ei ∙ e ∙ ej))
      | inr (kj, _, _) ↦ ki ∙ sym kj
    ]
  ]

  not_table' : (j : ℕ) → j < maxfile → nth ip' s' j ≢ 0 → nth ip' s' j ≢ ip'.addrs ndirect
  not_table' j lt ne e = elim (g.nth' j lt) [
    | inl ej ↦ elim g.table' [
      | inl et ↦ v.not_table j lt (rw (← ej) ne) (sym ej ∙ e ∙ et)
      | inr (et, _) ↦ owned-ne (nth ip s j) (v.owned j lt (rw (← ej) ne)) (sym et ∙ sym e ∙ ej)
    ]
    | inr (_, old, ej) ↦ elim g.table' [
      | inl et ↦
          let eq : x ≡ ip.addrs ndirect = sym ej ∙ e ∙ et in
          let ne' : ip.addrs ndirect ≢ 0 = rw (← eq) (λ z. ne (ej ∙ z)) in
          owned-ne (ip.addrs ndirect) (v.table ne') eq
      | inr (_, same) ↦ ne (same j lt ∙ old)
    ]
  ]

  pub Adds-IsFile : IsFile meta ip' s'
  Adds-IsFile = record {
    disk = g.disk';
    inode_meta = rw (g.inum', g.sb') v.inode_meta;
    inode_apart = λ y lt. rw (g.inum', g.sb') (v.inode_apart y (rw (← g.sb') lt));
    owned = owned';
    table = table-IsOwned;
    distinct = distinct';
    not_table = not_table';
  }

  -- No byte of the file changes.
  pub Adds-byte_at : (o : ℕ) → o < maxfile * bsize → byte_at ip' s' o ≡ byte_at ip s o
  Adds-byte_at o lt = elim (g.nth' (o / bsize) (omega arith)) [
    | inl e ↦ elim (ℕ_discrete (nth ip s (o / bsize)) 0) [
      | yes z ↦
          let old_empty : (nth ip s (o / bsize) == 0) ≡ true = ground arith in
          rw (e, old_empty) refl
      | no ne ↦
          let (lo, hi, used) = v.owned (o / bsize) (omega arith) ne in
          let ne_x : nth ip s (o / bsize) ≢ x =
            λ eq. owned-ne (nth ip s (o / bsize)) (lo, hi, used) (sym eq) in
          let ne_table : nth ip s (o / bsize) ≢ ip'.addrs ndirect =
            λ eq. not_table' (o / bsize) (omega arith) (rw e ne) (e ∙ eq) in
          let same_data = g.data' (nth ip s (o / bsize)) lo ne_x ne_table in
          ap (λ a. if a == 0 then 0 else s'.data_of a (o % bsize)) e
          ∙ ap (λ bytes. if nth ip s (o / bsize) == 0 then 0 else bytes (o % bsize)) same_data
    ]
    | inr (_, old, new) ↦
        let pos : x ≢ 0 = omega (arith, v.disk.meta_pos, g.above) in
        let old_empty : (nth ip s (o / bsize) == 0) ≡ true = ground arith in
        let there : (x == 0) ≡ false = ground arith in
        let ne_table : x ≢ ip'.addrs ndirect =
          λ eq. not_table' (o / bsize) (omega arith) (rw new pos) (new ∙ eq) in
        ap (λ a. if a == 0 then 0 else s'.data_of a (o % bsize)) new
        ∙ ap (λ b. if b then 0 else s'.data_of x (o % bsize)) there
        ∙ g.zeroed ne_table (o % bsize)
        ∙ sym (ap (λ b. if b then 0 else s.data_of (nth ip s (o / bsize)) (o % bsize)) old_empty)
  ]
