-- ===== src/Fs/Inode/Wrote.antt =====
-- How a file of kernel/fs.c changes when bytes are written to it, piece by piece.
use mathlib.Core.Bool.{true≢false}
use oslab.Prelude.{
  ℕ, ◌+◌, ◌-◌, ◌*◌, ◌/◌, ◌%◌, ◌≤◌, ◌<◌, ◌≡◌, ◌≢◌, ◌⊎◌, inl, inr, refl, sym, ap, ◌∙◌, Bool, true,
  false, ◌&&◌, arith, if◌then◌else◌, put, ◌==◌, ltb, leb, ℕ_discrete, Bool-cases,
}
use oslab.Fs.{Fs, bsize}
use oslab.Fs.Bits.{IsBytes}
use oslab.Fs.Alloc.Search.{block_free}
use oslab.Fs.Inode.{Inode, ndirect, maxfile, copy}
use oslab.Fs.Inode.Slots.{nth, byte_at, IsFile}
use oslab.Fs.Inode.Bmap.Growth.{Grew}
use oslab.Fs.Inode.Content.{
  changed-other, changed-nth, changed-free, changed-IsFile, changed-byte_at,
}

abbrev pub within : ℕ → ℕ → ℕ → Bool
within off n o = leb off o && ltb o (off + n)

-- The file `ip` of `s` after `got` bytes of the memory were written at `off`: its other bytes, and the
-- blocks of other files, are as before, and no block is missing where bytes were written. Of the bytes up to
-- `want` some may be written too.
pub record Wrote (meta : ℕ) (mem : ℕ → ℕ) (src off want got : ℕ) (ip ip' : Inode) (s s' : Fs)
    : Type 0 where
  pub file : IsFile meta ip' s'
  pub sb' : s'.sb ≡ s.sb
  pub fields : (f : ℕ → ℕ) → record ip' { addrs = f } ≡ record ip { addrs = f }
  pub few : got ≤ want
  pub content :
      (o : ℕ)
      → o < maxfile * bsize
      → (byte_at ip' s' o ≡ (if within off got o then mem (src + (o - off)) else byte_at ip s o))
        ⊎ ((within (off + got) (want - got) o ≡ true) × (byte_at ip' s' o ≡ mem (src + (o - off))))
  pub present : (o : ℕ) → o < maxfile * bsize → within off got o ≡ true → nth ip' s' (o / bsize) ≢ 0
  pub still_used : (y : ℕ) → y < s.sb.size → block_free s y ≡ false → block_free s' y ≡ false
  pub table :
      (ip'.addrs ndirect ≡ ip.addrs ndirect)
      ⊎ ((ip'.addrs ndirect < s.sb.size) × (block_free s (ip'.addrs ndirect) ≡ true))
  pub place :
      (j : ℕ)
      → j < maxfile
      → (nth ip' s' j ≡ nth ip s j)
        ⊎ ((nth ip s j ≡ 0) × (nth ip' s' j < s.sb.size) × (block_free s (nth ip' s' j) ≡ true))
  pub others :
      (b : ℕ)
      → meta ≤ b
      → b < s.sb.size
      → block_free s b ≡ false
      → b ≢ ip.addrs ndirect
      → ((j : ℕ) → j < maxfile → b ≢ nth ip s j)
      → s'.data_of b ≡ s.data_of b

pub Grew-Wrote :
    {meta : ℕ} {ip ip' : Inode} {s s' : Fs} (mem : ℕ → ℕ) (src off want : ℕ)
    → Grew meta ip ip' s s'
    → Wrote meta mem src off want 0 ip ip' s s'
Grew-Wrote mem src off want g = record {
  file = g.file;
  sb' = g.sb';
  fields = g.fields;
  few = omega arith;
  content = λ o lt.
      let none_yet : within off 0 o ≡ false = ground arith in inl (rw none_yet (g.content o lt));
  present = λ o lt e. absurd (ground (arith, e));
  still_used = g.still_used;
  table = g.table;
  place = g.place;
  others = λ b lo lt u ne _. g.others b lo lt u ne;
}

copy-IsBytes :
    (to from : ℕ → ℕ) (dst src m : ℕ) → IsBytes to → IsBytes from → IsBytes (copy to dst from src m)
copy-IsBytes to from dst src m u v i = elim (Bool-cases (leb dst i && ltb i (dst + m))) [
  | inl e ↦ rw e (v (src + (i - dst)))
  | inr e ↦ rw e (u i)
]

-- a byte of the block into which `c` bytes are copied, and the same byte of the file
copied_byte :
    (c off o src a : ℕ) (mem : ℕ → ℕ) (ip : Inode) (s : Fs)
    → c ≤ bsize - off % bsize
    → nth ip s (off / bsize) ≡ a
    → a ≢ 0
    → (if o / bsize == off / bsize
        then copy (s.data_of a) (off % bsize) mem src c (o % bsize)
        else byte_at ip s o)
      ≡ (if within off c o then mem (src + (o - off)) else byte_at ip s o)
copied_byte c off o src a mem ip s le at ne = elim (Bool-cases (within off c o)) [
  | inl e ↦
      let low : off ≤ o = ground arith in
      let high : o < off + c = ground arith in
      let same : (o / bsize == off / bsize) ≡ true = ground arith in
      let inside : within (off % bsize) c (o % bsize) ≡ true = ground arith in
      let offset : o % bsize - off % bsize ≡ o - off = omega arith in
      rw (e, same, inside, offset) refl
  | inr e ↦ elim (ℕ_discrete (o / bsize) (off / bsize)) [
    | yes eq ↦
        let same : (o / bsize == off / bsize) ≡ true = ground arith in
        let outside : within (off % bsize) c (o % bsize) ≡ false = ground arith in
        let some_block : (a == 0) ≡ false = ground arith in
        rw (same, e, outside, eq, at, some_block) refl
    | no differ ↦
        let apart : (o / bsize == off / bsize) ≡ false = ground arith in rw (apart, e) refl
  ]
]

-- `c` bytes are copied into the block that bmap returned
pub copy-Wrote :
    (meta c : ℕ) (mem : ℕ → ℕ) (src off : ℕ) (ip ip' : Inode) (s s' s'' : Fs) (a : ℕ)
    → Grew meta ip ip' s s'
    → IsBytes mem
    → off < maxfile * bsize
    → c ≤ bsize - off % bsize
    → nth ip' s' (off / bsize) ≡ a
    → a ≢ 0
    → s''.sb ≡ s'.sb
    → s''.data_of ≡ put s'.data_of a (copy (s'.data_of a) (off % bsize) mem src c)
    → Wrote meta mem src off c c ip ip' s s''
copy-Wrote meta c mem src off ip ip' s s' s'' a g ok lt le at ne same data' =
    let bytes = copy (s'.data_of a) (off % bsize) mem src c in
    let bytes-ok : IsBytes bytes =
      copy-IsBytes (s'.data_of a) mem (off % bsize) src c (g.file.disk.bytes a) ok in
    let k : off / bsize < maxfile = omega arith in
    let free =
      changed-free meta (off / bsize) a bytes ip' s' s'' g.file k at ne bytes-ok same data' in
    let nth' =
      changed-nth meta (off / bsize) a bytes ip' s' s'' g.file k at ne bytes-ok same data' in
    let byte' =
      changed-byte_at meta (off / bsize) a bytes ip' s' s'' g.file k at ne bytes-ok same data' in
    record {
      file =
          changed-IsFile meta (off / bsize) a bytes ip' s' s'' g.file k at ne bytes-ok same data';
      sb' = same ∙ g.sb';
      fields = g.fields;
      few = omega arith;
      content = λ o inside. inl (
          byte' o inside
          ∙ copied_byte c off o src a mem ip' s' le at ne
          ∙ ap (λ b. if within off c o then mem (src + (o - off)) else b) (g.content o inside));
      present = λ o _ e.
          let here : o / bsize ≡ off / bsize = ground (arith, le, e) in
          rw here (rw (nth' (off / bsize), at) ne);
      still_used = λ y lt' u. free y (rw g.sb' lt') ∙ g.still_used y lt' u;
      table = g.table;
      place = λ j lt'. rw (nth' j) (g.place j lt');
      others = λ b lo hi u apart outside.
          changed-other meta (off / bsize) a bytes ip' s' s'' g.file k at ne bytes-ok same data' b
            (λ e. elim (g.place (off / bsize) k) [
              | inl e' ↦ outside (off / bsize) k (e ∙ sym at ∙ e')
              | inr (_, _, free') ↦ true≢false (sym free' ∙ ap (block_free s) (at ∙ sym e) ∙ u)
            ])
          ∙ g.others b lo hi u apart;
    }

-- a block that was free before some bytes were written
free_before :
    {meta src off want got : ℕ} {mem : ℕ → ℕ} {ip ip' : Inode} {s s' : Fs} (b : ℕ)
    → Wrote meta mem src off want got ip ip' s s'
    → b < s'.sb.size
    → block_free s' b ≡ true
    → (b < s.sb.size) × (block_free s b ≡ true)
free_before {s} b g lt free =
    let lt' : b < s.sb.size = rw (← g.sb') lt in
    elim (Bool-cases (block_free s b)) [
      | inl free' ↦ (lt', free')
      | inr used ↦ absurd (true≢false (sym free ∙ g.still_used b lt' used))
    ]

-- two pieces of memory, one behind the other
pub joined :
    (mem : ℕ → ℕ) (src off w got o x y z : ℕ)
    → y ≡ (if within off w o then mem (src + (o - off)) else x)
    → z ≡ (if within (off + w) got o then mem (src + w + (o - (off + w))) else y)
    → z ≡ (if within off (w + got) o then mem (src + (o - off)) else x)
joined mem src off w got o x y z first second = elim (Bool-cases (within (off + w) got o)) [
  | inl e ↦
      let low : off + w ≤ o = ground arith in
      let both : within off (w + got) o ≡ true = ground arith in
      let offset : src + w + (o - (off + w)) ≡ src + (o - off) = omega arith in
      second ∙ rw (e, both, offset) refl
  | inr e ↦
      let same : within off (w + got) o ≡ within off w o = ground arith in
      second ∙ rw (e, same) first
]

pub Wrote-trans :
    {meta src off w want got : ℕ} {mem : ℕ → ℕ} {ip ip' ip'' : Inode} {s s' s'' : Fs}
    → Wrote meta mem src off w w ip ip' s s'
    → Wrote meta mem (src + w) (off + w) want got ip' ip'' s' s''
    → Wrote meta mem src off (w + want) (w + got) ip ip'' s s''
Wrote-trans {src} {off} {w} {want} {got} {mem} {ip} {ip'} {ip''} {s} {s'} {s''} g h = record {
  file = h.file;
  sb' = h.sb' ∙ g.sb';
  fields = λ f. h.fields f ∙ g.fields f;
  few = omega (arith, h.few);
  content = λ o lt. elim (g.content o lt) [
    | inr (late, _) ↦ absurd (ground arith)
    | inl e ↦ elim (h.content o lt) [
      | inl e' ↦
          inl (
            joined mem src off w got o (byte_at ip s o) (byte_at ip' s' o) (byte_at ip'' s'' o) e
              e')
      | inr (late, e') ↦
          let low : off + w + got ≤ o = ground arith in
          let offset : src + w + (o - (off + w)) ≡ src + (o - off) = omega arith in
          let late' : within (off + (w + got)) (w + want - (w + got)) o ≡ true = ground arith in
          inr (late', e' ∙ ap mem offset)
    ]
  ];
  present = λ o lt e. elim (Bool-cases (within (off + w) got o)) [
    | inl late ↦ h.present o lt late
    | inr early ↦
        let first : within off w o ≡ true = ground (arith, e, early) in
        let there = g.present o lt first in
        elim (h.place (o / bsize) (omega arith)) [
          | inl same ↦ rw same there
          | inr (z, _, _) ↦ absurd (there z)
        ]
  ];
  still_used = λ y lt u. h.still_used y (rw g.sb' lt) (g.still_used y lt u);
  table = elim h.table [
    | inl e ↦ elim g.table [
      | inl e' ↦ inl (e ∙ e')
      | inr (lt, free) ↦ inr (rw e lt, ap (block_free s) e ∙ free)
    ]
    | inr (lt, free) ↦ inr (free_before (ip''.addrs ndirect) g lt free)
  ];
  place = λ j lt_j. elim (h.place j lt_j) [
    | inl e ↦ elim (g.place j lt_j) [
      | inl e' ↦ inl (e ∙ e')
      | inr (z, lt', free) ↦ inr (z, rw e lt', ap (block_free s) e ∙ free)
    ]
    | inr (z', lt', free) ↦
        let (lt, before) = free_before (nth ip'' s'' j) g lt' free in
        elim (g.place j lt_j) [
          | inl e' ↦ inr (sym e' ∙ z', lt, before)
          | inr (z, _, _) ↦ inr (z, lt, before)
        ]
  ];
  others = λ b lo hi u ne outside.
      h.others b lo (rw g.sb' hi) (g.still_used b hi u)
        (λ e. elim g.table [
          | inl same ↦ ne (e ∙ same)
          | inr (_, free) ↦ true≢false (sym free ∙ ap (block_free s) (sym e) ∙ u)
        ])
        (λ j lt e. elim (g.place j lt) [
          | inl same ↦ outside j lt (e ∙ same)
          | inr (_, _, free) ↦ true≢false (sym free ∙ ap (block_free s) (sym e) ∙ u)
        ])
      ∙ g.others b lo hi u ne outside;
}

-- bytes that are written but not counted
pub Wrote-uncounted :
    {meta src off w : ℕ} {mem : ℕ → ℕ} {ip ip' : Inode} {s s' : Fs} (want : ℕ)
    → Wrote meta mem src off w w ip ip' s s'
    → w ≤ want
    → Wrote meta mem src off want 0 ip ip' s s'
Wrote-uncounted {src} {off} {w} {mem} {ip} {s} want g le = record {
  file = g.file;
  sb' = g.sb';
  fields = g.fields;
  few = omega arith;
  content = λ o lt.
      let none_counted : within off 0 o ≡ false = ground arith in
      elim (g.content o lt) [
        | inr (late, _) ↦ absurd (ground arith)
        | inl e ↦ elim (Bool-cases (within off w o)) [
          | inl e' ↦
              let late : within (off + 0) (want - 0) o ≡ true = ground arith in
              inr (late, e ∙ rw e' refl)
          | inr e' ↦ inl (e ∙ rw (e', none_counted) refl)
        ]
      ];
  present = λ o lt e. absurd (ground (arith, e));
  still_used = g.still_used;
  table = g.table;
  place = g.place;
  others = g.others;
}
