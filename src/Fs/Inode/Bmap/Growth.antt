-- ===== src/Fs/Inode/Bmap/Growth.antt =====
-- How a file grows in kernel/fs.c: no byte of it changes.
use mathlib.Core.Bool.{true≢false}
use oslab.Prelude.{
  ℕ, ◌*◌, ◌≤◌, ◌<◌, ◌≡◌, ◌≢◌, ◌⊎◌, inl, inr, refl, sym, ap, ◌∙◌, true, false, ◌==◌, Bool-cases,
}
use oslab.Fs.{Fs, bsize}
use oslab.Fs.Alloc.Search.{block_free}
use oslab.Fs.Inode.{Inode, ndirect, maxfile}
use oslab.Fs.Inode.Slots.{nth, byte_at, IsFile, Adds, Adds-IsFile, Adds-byte_at}

abbrev pub Full : Fs → Type 0
Full s = (y : ℕ) → y < s.sb.size → block_free s y ≡ false

-- What bmap may do to a file: no byte of it changes, nor any block of another file.
pub record Grew (meta : ℕ) (ip ip' : Inode) (s s' : Fs) : Type 0 where
  pub file : IsFile meta ip' s'
  pub sb' : s'.sb ≡ s.sb
  pub fields : (f : ℕ → ℕ) → record ip' { addrs = f } ≡ record ip { addrs = f }
  pub content : (o : ℕ) → o < maxfile * bsize → byte_at ip' s' o ≡ byte_at ip s o
  pub still_used : (y : ℕ) → y < s.sb.size → block_free s y ≡ false → block_free s' y ≡ false
  pub table :
      (ip'.addrs ndirect ≡ ip.addrs ndirect)
      ⊎ ((ip'.addrs ndirect < s.sb.size) × (block_free s (ip'.addrs ndirect) ≡ true))
  pub place :
      (j : ℕ)
      → j < maxfile
      → (nth ip' s' j ≡ nth ip s j)
        ⊎ ((nth ip s j ≡ 0) × (nth ip' s' j < s.sb.size) × (block_free s (nth ip' s' j) ≡ true))
  pub others :
      (b : ℕ)
      → meta ≤ b
      → b < s.sb.size
      → block_free s b ≡ false
      → b ≢ ip.addrs ndirect
      → s'.data_of b ≡ s.data_of b

pub Grew-refl : (meta : ℕ) (ip : Inode) (s : Fs) → IsFile meta ip s → Grew meta ip ip s s
Grew-refl meta ip s v = record {
  file = v;
  sb' = refl;
  fields = λ f. refl;
  content = λ o lt. refl;
  still_used = λ y lt u. u;
  table = inl refl;
  place = λ j lt. inl refl;
  others = λ b le lt u ne. refl;
}

-- a block that was free before an earlier growth
free_before :
    {meta : ℕ} {ip ip' : Inode} {s s' : Fs} (b : ℕ)
    → Grew meta ip ip' s s'
    → b < s'.sb.size
    → block_free s' b ≡ true
    → (b < s.sb.size) × (block_free s b ≡ true)
free_before {s} b g lt free =
    let lt' : b < s.sb.size = rw (← g.sb') lt in
    elim (Bool-cases (block_free s b)) [
      | inl free' ↦ (lt', free')
      | inr used ↦ absurd (true≢false (sym free ∙ g.still_used b lt' used))
    ]

-- a used block is not the new indirect block
used-ne-table :
    {meta : ℕ} {ip ip' : Inode} {s s' : Fs} (b : ℕ)
    → Grew meta ip ip' s s'
    → block_free s b ≡ false
    → b ≢ ip.addrs ndirect
    → b ≢ ip'.addrs ndirect
used-ne-table {s} b g used ne e = elim g.table [
  | inl same ↦ ne (e ∙ same)
  | inr (_, free) ↦ true≢false (sym free ∙ ap (block_free s) (sym e) ∙ used)
]

pub Grew-trans :
    {meta : ℕ} {ip ip' ip'' : Inode} {s s' s'' : Fs}
    → Grew meta ip ip' s s'
    → Grew meta ip' ip'' s' s''
    → Grew meta ip ip'' s s''
Grew-trans {ip} {ip''} {s} {s''} g h = record {
  file = h.file;
  sb' = h.sb' ∙ g.sb';
  fields = λ f. h.fields f ∙ g.fields f;
  content = λ o lt. h.content o lt ∙ g.content o lt;
  still_used = λ y lt u. h.still_used y (rw g.sb' lt) (g.still_used y lt u);
  table = elim h.table [
    | inl e ↦ elim g.table [
      | inl e' ↦ inl (e ∙ e')
      | inr (lt, free) ↦ inr (rw e lt, ap (block_free s) e ∙ free)
    ]
    | inr (lt, free) ↦ inr (free_before (ip''.addrs ndirect) g lt free)
  ];
  place = λ j lt_j. elim (h.place j lt_j) [
    | inl e ↦ elim (g.place j lt_j) [
      | inl e' ↦ inl (e ∙ e')
      | inr (z, lt', free) ↦ inr (z, rw e lt', ap (block_free s) e ∙ free)
    ]
    | inr (z', lt', free) ↦
        let (lt, before) = free_before (nth ip'' s'' j) g lt' free in
        elim (g.place j lt_j) [
          | inl e' ↦ inr (sym e' ∙ z', lt, before)
          | inr (z, _, _) ↦ inr (z, lt, before)
        ]
  ];
  others = λ b le lt u ne.
      h.others b le (rw g.sb' lt) (g.still_used b lt u) (used-ne-table b g u ne)
      ∙ g.others b le lt u ne;
}

pub Adds-Grew :
    (meta x k : ℕ) (ip ip' : Inode) (s s' : Fs)
    → IsFile meta ip s
    → ((f : ℕ → ℕ) → record ip' { addrs = f } ≡ record ip { addrs = f })
    → Adds meta x k ip ip' s s'
    → Grew meta ip ip' s s'
Adds-Grew meta x k ip ip' s s' v same g = record {
  file = Adds-IsFile meta x k ip ip' s s' v g;
  sb' = g.sb';
  fields = same;
  content = Adds-byte_at meta x k ip ip' s s' v g;
  still_used =
      λ y lt u. g.used' y lt ∙ elim (Bool-cases (x == y)) [ inl e ↦ rw e refl | inr e ↦ rw e u ];
  table = elim g.table' [
    | inl e ↦ inl e
    | inr (e, _) ↦ inr (rw e g.below, ap (block_free s) e ∙ g.fresh)
  ];
  place = λ j lt. elim (g.nth' j lt) [
    | inl e ↦ inl e
    | inr (_, empty, e) ↦ inr (empty, rw e g.below, ap (block_free s) e ∙ g.fresh)
  ];
  others = λ b le lt u ne.
      g.data' b le (λ e. true≢false (sym g.fresh ∙ ap (block_free s) (sym e) ∙ u))
        (λ e. elim g.table' [
          | inl same ↦ ne (e ∙ same)
          | inr (new, _) ↦ true≢false (sym g.fresh ∙ ap (block_free s) (sym (e ∙ new)) ∙ u)
        ]);
}
