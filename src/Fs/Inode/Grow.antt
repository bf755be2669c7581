-- ===== src/Fs/Inode/Grow.antt =====
-- A block that balloc of kernel/fs.c took goes to a direct place of an inode, becomes its indirect
-- block, or goes to a place of the indirect block.
use mathlib.Core.Bool.{true≢false}
use oslab.Prelude.{
  ℕ, ◌+◌, ◌-◌, ◌*◌, ◌≤◌, ◌<◌, ◌≡◌, ◌≢◌, ◌⊎◌, inl, inr, refl, sym, ap, ◌∙◌, true, false, arith,
  if◌then◌else◌, put, ◌==◌, ltb, ℕ_discrete, dec_lt,
}
use oslab.Fs.{uint_mod, Fs, bitmap_block, get_word, set_word, log_write, set_block}
use oslab.Fs.Bits.{IsBytes}
use oslab.Fs.Words.{get_word-set_word, get_word-set_word_other, set_word-IsBytes}
use oslab.Fs.Alloc.{
  taken, taken-data_of, taken-free, taken-IsDisk, taken-sb, same_bitmap, same_bitmap-IsDisk,
}
use oslab.Fs.Alloc.Search.{block_free, IsDisk}
use oslab.Fs.Inode.{Inode, ndirect, nindirect, maxfile}
use oslab.Fs.Inode.Slots.{nth-same, nth, IsFile, Adds}

module _ (meta x : ℕ) (ip : Inode) (s : Fs) (v : IsFile meta ip s) (lo : meta ≤ x)
    (hi : x < s.sb.size) (free : block_free s x ≡ true) where
  not_bitmap : (b : ℕ) → meta ≤ b → b ≢ bitmap_block x s
  not_bitmap b le e = omega (arith, v.disk.bitmap_meta x hi)

  -- a block of the file is not the new one
  table-ne : ip.addrs ndirect ≢ 0 → x ≢ ip.addrs ndirect
  table-ne ne e =
      let (_, _, used) = v.table ne in absurd (true≢false (sym free ∙ ap (block_free s) e ∙ used))

  taken_kept : (b : ℕ) → meta ≤ b → b ≢ x → (taken x s).data_of b ≡ s.data_of b
  taken_kept b le ne =
      let differ : (x == b) ≡ false = ground arith in
      taken-data_of meta x s v.disk lo hi b (not_bitmap b le) ∙ rw differ refl

  taken_zero : (i : ℕ) → (taken x s).data_of x i ≡ 0
  taken_zero i =
      let self : (x == x) ≡ true = ground arith in
      let zero_block : (taken x s).data_of x ≡ (λ i. 0) =
        taken-data_of meta x s v.disk lo hi x (not_bitmap x lo) ∙ rw self refl in
      ap (λ f. f i) zero_block

  taken_disk : IsDisk meta (taken x s)
  taken_disk = taken-IsDisk meta x s v.disk lo hi

  table_kept :
      ip.addrs ndirect ≢ 0 → (taken x s).data_of (ip.addrs ndirect) ≡ s.data_of (ip.addrs ndirect)
  table_kept ne = taken_kept (ip.addrs ndirect) (v.table ne).0 (λ e. table-ne ne (sym e))

  nth_kept : (j : ℕ) → nth ip (taken x s) j ≡ nth ip s j
  nth_kept j = nth-same ip s (taken x s) j table_kept

  -- the block goes to a direct place
  module _ (k : ℕ) (direct : k < ndirect) (empty : ip.addrs k ≡ 0) where
    unfoldable pub with_direct : Inode
    with_direct = record ip { addrs = put ip.addrs k x }

    direct_table : with_direct.addrs ndirect ≡ ip.addrs ndirect
    unfolding with_direct
    direct_table = ground arith

    direct_nth :
        (j : ℕ) → nth with_direct (taken x s) j ≡ (if k == j then x else nth ip (taken x s) j)
    unfolding with_direct
    direct_nth j =
        let elsewhere : (k == ndirect) ≡ false = ground arith in rw elsewhere (ground arith)

    pub direct-Adds : Adds meta x k ip with_direct s (taken x s)
    unfolding with_direct
    direct-Adds = record {
      disk' = taken-IsDisk meta x s v.disk lo hi;
      sb' = taken-sb meta x s v.disk lo hi;
      inum' = refl;
      above = lo;
      below = hi;
      fresh = free;
      used' = taken-free meta x s v.disk lo hi;
      nth' = λ j lt. elim (ℕ_discrete k j) [
        | yes e ↦
            let here : (k == j) ≡ true = ground arith in
            inr (sym e, rw (← e) (ground arith), direct_nth j ∙ rw here refl)
        | no ne ↦
            let there : (k == j) ≡ false = ground arith in
            inl (direct_nth j ∙ rw there (nth_kept j))
      ];
      table' = inl direct_table;
      data' = λ b le ne _. taken_kept b le ne;
      zeroed = λ _. taken_zero;
    }

  -- the block becomes the indirect block
  module _ (empty : ip.addrs ndirect ≡ 0) where
    unfoldable pub with_table : Inode
    with_table = record ip { addrs = put ip.addrs ndirect x }

    table_nth : (j : ℕ) → j < maxfile → nth with_table (taken x s) j ≡ nth ip s j
    unfolding with_table
    table_nth j lt =
        let none_yet : (ip.addrs ndirect == 0) ≡ true = ground arith in
        let made : (x == 0) ≡ false = ground (arith, v.disk.meta_pos) in
        elim (dec_lt j ndirect) [
          | yes low ↦
              let direct : ltb j ndirect ≡ true = ground arith in
              let other : (ndirect == j) ≡ false = ground arith in rw (direct, other) refl
          | no high ↦
              let indirect : ltb j ndirect ≡ false = ground arith in
              let zeros : get_word ((taken x s).data_of x) (4 * (j - ndirect)) ≡ 0 = omega (
                arith,
                taken_zero (4 * (j - ndirect)),
                taken_zero (4 * (j - ndirect) + 1),
                taken_zero (4 * (j - ndirect) + 2),
                taken_zero (4 * (j - ndirect) + 3),
              ) in
              rw (indirect, none_yet, made) zeros
        ]

    pub table-Adds : Adds meta x 0 ip with_table s (taken x s)
    unfolding with_table
    table-Adds = record {
      disk' = taken-IsDisk meta x s v.disk lo hi;
      sb' = taken-sb meta x s v.disk lo hi;
      inum' = refl;
      above = lo;
      below = hi;
      fresh = free;
      used' = taken-free meta x s v.disk lo hi;
      nth' = λ j lt. inl (table_nth j lt);
      table' = inr (refl, table_nth);
      data' = λ b le ne _. taken_kept b le ne;
      zeroed = λ _. taken_zero;
    }

  -- the block goes to a place of the indirect block
  module _ (bn : ℕ) (inside : bn < nindirect) (some_table : ip.addrs ndirect ≢ 0)
      (empty : get_word (s.data_of (ip.addrs ndirect)) (4 * bn) ≡ 0) where
    unfoldable pub stored : Fs
    unfolding log_write
    stored =
        let a = ip.addrs ndirect in
        log_write a (set_block a (set_word ((taken x s).data_of a) (4 * bn) x) (taken x s))

    stored_other : (b : ℕ) → b ≢ ip.addrs ndirect → stored.data_of b ≡ (taken x s).data_of b
    unfolding stored log_write
    stored_other b ne =
        let differ : (ip.addrs ndirect == b) ≡ false = ground arith in rw differ refl

    stored_table :
        stored.data_of (ip.addrs ndirect)
        ≡ set_word ((taken x s).data_of (ip.addrs ndirect)) (4 * bn) x
    unfolding stored log_write
    stored_table =
        let self : (ip.addrs ndirect == ip.addrs ndirect) ≡ true = ground arith in rw self refl

    stored_sb : stored.sb ≡ s.sb
    unfolding stored log_write
    stored_sb = taken-sb meta x s v.disk lo hi

    stored_low : (b : ℕ) → b < meta → stored.data_of b ≡ (taken x s).data_of b
    stored_low b lt = stored_other b (λ e. omega (arith, (v.table some_table).0, e))

    x_uint : x < uint_mod
    x_uint = omega (arith, v.disk.size_uint)

    stored_bytes : (b : ℕ) → IsBytes (stored.data_of b)
    stored_bytes b = elim (ℕ_discrete b (ip.addrs ndirect)) [
      | yes e ↦
          rw (e, stored_table)
            (set_word-IsBytes ((taken x s).data_of (ip.addrs ndirect)) (4 * bn) x
              (taken_disk.bytes (ip.addrs ndirect)))
      | no ne ↦ rw (stored_other b ne) (taken_disk.bytes b)
    ]

    stored_taken_sb : stored.sb ≡ (taken x s).sb
    unfolding stored log_write
    stored_taken_sb = refl

    stored-IsDisk : IsDisk meta stored
    stored-IsDisk =
        same_bitmap-IsDisk meta (taken x s) stored taken_disk stored_taken_sb stored_low
          stored_bytes

    stored_free : (y : ℕ) → y < s.sb.size → block_free stored y ≡ block_free (taken x s) y
    stored_free y lt =
        same_bitmap meta (taken x s) stored taken_disk stored_taken_sb stored_low y
          (rw (taken-sb meta x s v.disk lo hi) lt)

    stored-nth : (j : ℕ) → nth ip stored j ≡ (if ndirect + bn == j then x else nth ip s j)
    stored-nth j =
        let has_table : (ip.addrs ndirect == 0) ≡ false = ground arith in
        elim (dec_lt j ndirect) [
          | yes low ↦
              let direct : ltb j ndirect ≡ true = ground arith in
              let other : (ndirect + bn == j) ≡ false = ground arith in rw (direct, other) refl
          | no high ↦
              let indirect : ltb j ndirect ≡ false = ground arith in
              rw (indirect, has_table, stored_table)
                (elim (ℕ_discrete (ndirect + bn) j) [
                  | yes e ↦
                      let here : (ndirect + bn == j) ≡ true = ground arith in
                      let at : j - ndirect ≡ bn = omega arith in
                      rw (here, at)
                        (get_word-set_word ((taken x s).data_of (ip.addrs ndirect)) (4 * bn) x
                          x_uint)
                  | no ne ↦
                      let there : (ndirect + bn == j) ≡ false = ground arith in
                      let far : (4 * bn + 4 ≤ 4 * (j - ndirect))
                          ⊎ (4 * (j - ndirect) + 4 ≤ 4 * bn) =
                        elim (dec_lt (ndirect + bn) j) [
                          | yes before ↦ inl (omega arith)
                          | no after ↦ inr (omega arith)
                        ] in
                      rw there (
                        get_word-set_word_other ((taken x s).data_of (ip.addrs ndirect)) (4 * bn)
                          (4 * (j - ndirect)) x far
                        ∙ ap (λ bytes. get_word bytes (4 * (j - ndirect))) (table_kept some_table))
                ])
        ]

    pub stored-at : nth ip stored (ndirect + bn) ≡ x
    stored-at =
        let here : (ndirect + bn == ndirect + bn) ≡ true = ground arith in
        stored-nth (ndirect + bn) ∙ rw here refl

    pub stored-Adds : Adds meta x (ndirect + bn) ip ip s stored
    stored-Adds = record {
      disk' = stored-IsDisk;
      sb' = stored_sb;
      inum' = refl;
      above = lo;
      below = hi;
      fresh = free;
      used' = λ y lt. stored_free y lt ∙ taken-free meta x s v.disk lo hi y lt;
      nth' = λ j lt. elim (ℕ_discrete (ndirect + bn) j) [
        | yes e ↦
            let here : (ndirect + bn == j) ≡ true = ground arith in
            let indirect : ltb j ndirect ≡ false = ground arith in
            let has_table : (ip.addrs ndirect == 0) ≡ false = ground arith in
            let at : j - ndirect ≡ bn = omega arith in
            inr (sym e, rw (indirect, has_table, at) empty, stored-nth j ∙ rw here refl)
        | no ne ↦
            let there : (ndirect + bn == j) ≡ false = ground arith in
            inl (stored-nth j ∙ rw there refl)
      ];
      table' = inl refl;
      data' = λ b le ne nt. stored_other b nt ∙ taken_kept b le ne;
      zeroed = λ ne i. ap (λ f. f i) (stored_other x ne) ∙ taken_zero i;
    }
