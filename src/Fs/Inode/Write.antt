-- ===== src/Fs/Inode/Write.antt =====
-- writei of kernel/fs.c: the bytes of the file, before and after.
pub mod Loop
use mathlib.Core.Bool.{true≢false}
use oslab.Prelude.{
  ℕ, zero, suc, ◌+◌, ◌-◌, ◌*◌, ◌/◌, ◌%◌, ◌≤◌, ◌<◌, ◌≡◌, ◌≢◌, ◌⊎◌, inl, inr, refl, sym, ap, ◌∙◌,
  Bool, true, false, ◌&&◌, ◌||◌, arith, if◌then◌else◌, put, ◌==◌, ltb, leb, ℕ_discrete, Bool-cases,
  dec_lt, Option, some, none, min,
}
use oslab.Prelude.Run.{Run, done, ◌>>=◌}
use oslab.Fs.{Fs, bsize, uint_mod, log_write, set_block}
use oslab.Fs.Bits.{IsBytes}
use oslab.Fs.Alloc.Search.{block_free, IsDisk}
use oslab.Fs.Inode.{Inode, ndirect, maxfile, bmap, copy, writei_loop, writei, iupdate}
use oslab.Fs.Inode.Slots.{nth, byte_at, IsFile}
use oslab.Fs.Inode.Bmap.{Mapped, bmap_lem}
use oslab.Fs.Inode.Bmap.Growth.{Full, Grew, Grew-refl}
use oslab.Fs.Inode.Fields.{
  iupdate-IsFile, iupdate-nth, iupdate-byte_at, iupdate-data_of, iupdate-free,
}
use oslab.Fs.Inode.Content.{
  changed-other, changed-nth, changed-free, changed-IsFile, changed-byte_at,
}
use oslab.Fs.Inode.Wrote.{
  within, Wrote, Grew-Wrote, copy-Wrote, joined, Wrote-trans, Wrote-uncounted,
}
use oslab.Fs.Inode.Write.Loop.{Stops, writei_loop_lem}

-- The inode and the disk after writei: the size covers what was written.
pub record Written (meta : ℕ) (copyin : ℕ → ℕ → ℕ) (mem : ℕ → ℕ) (src off n got : ℕ)
    (ip ip' : Inode) (s s' : Fs) : Type 0 where
  pub file : IsFile meta ip' s'
  pub few : got ≤ n
  pub content :
      (o : ℕ)
      → o < maxfile * bsize
      → (byte_at ip' s' o ≡ (if within off got o then mem (src + (o - off)) else byte_at ip s o))
        ⊎ ((within (off + got) (n - got) o ≡ true) × (byte_at ip' s' o ≡ mem (src + (o - off))))
  pub size' : ip'.size ≡ (if ltb ip.size (off + got) then off + got else ip.size)
  pub others :
      (b : ℕ)
      → meta ≤ b
      → b < s.sb.size
      → block_free s b ≡ false
      → b ≢ ip.addrs ndirect
      → ((j : ℕ) → j < maxfile → b ≢ nth ip s j)
      → s'.data_of b ≡ s.data_of b
  pub present : (o : ℕ) → o < maxfile * bsize → within off got o ≡ true → nth ip' s' (o / bsize) ≢ 0
  pub why : (got ≡ n) ⊎ Stops copyin src off n got ip' s'

resized :
    (meta size : ℕ) (ip : Inode) (s : Fs)
    → IsFile meta ip s
    → IsFile meta (record ip { size = size }) s
resized meta size ip s v = record {
  disk = v.disk;
  inode_meta = v.inode_meta;
  inode_apart = v.inode_apart;
  owned = v.owned;
  table = v.table;
  distinct = v.distinct;
  not_table = v.not_table;
}

-- the end of writei
module _ (meta size : ℕ) (copyin : ℕ → ℕ → ℕ) (mem : ℕ → ℕ) (src off n got : ℕ) (ip ip' : Inode)
    (s s' : Fs) (w : Wrote meta mem src off n got ip ip' s s')
    (why : (got ≡ n) ⊎ Stops copyin src off n got ip' s')
    (new_size : size ≡ (if ltb ip.size (off + got) then off + got else ip.size)) where
  abbrev end : Inode
  end = record ip' { size = size }

  finished : Written meta copyin mem src off n got ip end s (iupdate end s')
  unfolding iupdate log_write
  finished =
      let v = resized meta size ip' s' w.file in
      record {
        file = iupdate-IsFile meta end s' v;
        few = w.few;
        content = λ o lt. rw (iupdate-byte_at meta end s' v o lt) (w.content o lt);
        size' = new_size;
        others = λ b lo hi used ne outside.
            iupdate-data_of meta end s' v b lo ∙ w.others b lo hi used ne outside;
        present = λ o lt e. rw (iupdate-nth meta end s' v (o / bsize)) (w.present o lt e);
        why = elim why [
          | inl all ↦ inl all
          | inr (inl (z, full)) ↦ inr (
              inl (
                iupdate-nth meta end s' v ((off + got) / bsize) ∙ z,
                λ y lt. iupdate-free meta end s' v y lt ∙ full y lt,
              ))
          | inr (inr short) ↦ inr (inr short)
        ];
      }

same_want :
    {meta src off got : ℕ} {mem : ℕ → ℕ} {ip ip' : Inode} {s s' : Fs} (want n : ℕ)
    → want ≡ n
    → Wrote meta mem src off want got ip ip' s s'
    → Wrote meta mem src off n got ip ip' s s'
same_want want n e w = rw (← e) w

same_stop :
    (copyin : ℕ → ℕ → ℕ) (src off want n got : ℕ) (ip' : Inode) (s' : Fs)
    → want ≡ n
    → (got ≡ want) ⊎ Stops copyin src off want got ip' s'
    → (got ≡ n) ⊎ Stops copyin src off n got ip' s'
same_stop copyin src off want n got ip' s' e why = rw (← e) why

either_size :
    (grows : Bool) (size : ℕ) (ip : Inode)
    → (if grows then record ip { size = size } else ip)
      ≡ record ip { size = (if grows then size else ip.size) }
either_size true size ip = refl
either_size false size ip = refl

module _ (meta : ℕ) (copyin : ℕ → ℕ → ℕ) (mem : ℕ → ℕ) (src off n : ℕ) (ip : Inode) (s : Fs)
    (start : off ≤ ip.size) (fits : off + n ≤ maxfile * bsize) where
  writei-accepts :
      (tot off' : ℕ) (ip' : Inode) (s' : Fs)
      → writei_loop (n + 1) copyin mem src off n 0 ip s ≡ done (tot, off', ip', s')
      → let ip'' = record ip' { size = (if ltb ip'.size off' then off' else ip'.size) } in
        writei copyin mem src off n ip s ≡ done (some tot, ip'', iupdate ip'' s')
  unfolding writei
  writei-accepts tot off' ip' s' e =
      let inside : ltb ip.size off ≡ false = ground arith in
      let sum : (off + n) % uint_mod ≡ off + n = omega arith in
      let up : ltb (off + n) off ≡ false = ground arith in
      let accepted : ltb (maxfile * bsize) (off + n) ≡ false = ground arith in
      rw (inside, sum, up, accepted, e)
        (ap (λ i. done (some tot, i, iupdate i s')) (either_size (ltb ip'.size off') off' ip'))

  writei-writes :
      IsFile meta ip s
      → IsBytes mem
      → (got : ℕ) × (ip' : Inode) × (s' : Fs) × (writei copyin mem src off n ip s
          ≡ done (some got, ip', s'))
        × Written meta copyin mem src off n got ip ip' s s'
  writei-writes v ok =
      let (got, ip', s', e, w, why) =
        writei_loop_lem (n + 1) meta copyin mem src off n 0 ip s v ok (omega arith) (omega arith)
          (omega arith) in
      let all : n - 0 ≡ n = omega arith in
      let count : 0 + got ≡ got = omega arith in
      let size = (if ltb ip'.size (off + got) then off + got else ip'.size) in
      let old_size : ip'.size ≡ ip.size = ap (λ i. i.size) (w.fields ip.addrs) in
      let ip'' = record ip' { size = size } in
      (
        got,
        ip'',
        iupdate ip'' s',
        writei-accepts got (off + got) ip' s' (e ∙ ap (λ t. done (t, off + got, ip', s')) count),
        finished meta size copyin mem src off n got ip ip' s s' (same_want (n - 0) n all w)
            (same_stop copyin src off (n - 0) n got ip' s' all why) (rw old_size refl),
      )

abbrev pub Writei : ℕ → (ℕ → ℕ → ℕ) → (ℕ → ℕ) → ℕ → ℕ → ℕ → Inode → Fs → Type 0
Writei meta copyin mem src off n ip s =
    (((ip.size < off) ⊎ (maxfile * bsize < off + n))
      × (writei copyin mem src off n ip s ≡ done (none, ip, s)))
    ⊎ ((off ≤ ip.size)
        × (off + n ≤ maxfile * bsize)
        × (got : ℕ) × (ip' : Inode) × (s' : Fs) × (writei copyin mem src off n ip s
            ≡ done (some got, ip', s'))
        × Written meta copyin mem src off n got ip ip' s s')

-- writei of memory at `src` into a file at `off` returns -1 and changes nothing if `off` is behind the
-- end of the file or the file would be too large. Otherwise it ends and returns the number of bytes
-- written: all, or fewer, if behind them a block of the file is missing and no block is free, or copyin of
-- the bytes of the next round has failed. The bytes of the file in that range are
-- those of the memory, those outside of [off, off + n) are as before, as is each block of another file,
-- no block is missing where bytes were written, and the size grows to cover them.
pub writei_lem :
    (meta : ℕ) (copyin : ℕ → ℕ → ℕ) (mem : ℕ → ℕ) (src off n : ℕ) (ip : Inode) (s : Fs)
    → IsFile meta ip s
    → IsBytes mem
    → off < uint_mod
    → n < uint_mod
    → Writei meta copyin mem src off n ip s
unfolding writei
writei_lem meta copyin mem src off n ip s v ok off_uint n_uint = elim (dec_lt ip.size off) [
  | yes behind ↦
      let refused : ltb ip.size off ≡ true = ground arith in inl (inl behind, rw refused refl)
  | no inside ↦
      let start : ltb ip.size off ≡ false = ground arith in
      elim (dec_lt (maxfile * bsize) (off + n)) [
        | yes large ↦
            let refused : (ltb ((off + n) % uint_mod) off
                  || ltb (maxfile * bsize) ((off + n) % uint_mod))
                ≡ true =
              ground arith in
            inl (inr large, rw (start, refused) refl)
        | no fits ↦
            let (got, ip', s', e, w) =
              writei-writes meta copyin mem src off n ip s (omega arith) (omega arith) v ok in
            inr (omega arith, omega arith, got, ip', s', e, w)
      ]
]
