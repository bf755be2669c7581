-- ===== src/Fs/Inode/Content.antt =====
-- A data block of a file of kernel/fs.c is changed, which changes the bytes of the file that lie in it,
-- and nothing else.
use oslab.Prelude.{
  ℕ, ◌*◌, ◌/◌, ◌%◌, ◌<◌, ◌≡◌, ◌≢◌, refl, sym, ap, ◌∙◌, true, false, arith, if◌then◌else◌, put, ◌==◌,
  ℕ_discrete,
}
use oslab.Fs.{Fs, bsize}
use oslab.Fs.Bits.{IsBytes}
use oslab.Fs.Alloc.{same_bitmap, same_bitmap-IsDisk}
use oslab.Fs.Alloc.Search.{block_free}
use oslab.Fs.Inode.{Inode, ndirect, maxfile}
use oslab.Fs.Inode.Slots.{nth-same, nth, byte_at, IsOwned, IsFile}

module _ (meta k a : ℕ) (bytes : ℕ → ℕ) (ip : Inode) (s s' : Fs) (v : IsFile meta ip s)
    (lt : k < maxfile) (at : nth ip s k ≡ a) (ne : a ≢ 0) (ok : IsBytes bytes) (sb' : s'.sb ≡ s.sb)
    (data' : s'.data_of ≡ put s.data_of a bytes) where
  pub changed-other : (b : ℕ) → b ≢ a → s'.data_of b ≡ s.data_of b
  changed-other b differ = let no : (a == b) ≡ false = ground arith in rw (data', no) refl

  here : s'.data_of a ≡ bytes
  here = let self : (a == a) ≡ true = ground arith in rw (data', self) refl

  a-IsOwned : IsOwned meta s a
  a-IsOwned = rw (← at) (v.owned k lt (rw at ne))

  low : (b : ℕ) → b < meta → s'.data_of b ≡ s.data_of b
  low b lo = changed-other b (λ e. omega (arith, a-IsOwned.0, e))

  pub changed-nth : (j : ℕ) → nth ip s' j ≡ nth ip s j
  changed-nth j =
      nth-same ip s s' j
        (λ _. changed-other (ip.addrs ndirect) (λ e. v.not_table k lt (rw at ne) (at ∙ sym e)))

  pub changed-free : (y : ℕ) → y < s.sb.size → block_free s' y ≡ block_free s y
  changed-free = same_bitmap meta s s' v.disk sb' low

  owned' : (b : ℕ) → IsOwned meta s b → IsOwned meta s' b
  owned' b (lo, hi, used) = (lo, rw sb' hi, changed-free b hi ∙ used)

  bytes' : (b : ℕ) → IsBytes (s'.data_of b)
  bytes' b = elim (ℕ_discrete b a) [
    | yes e ↦ rw (e, here) ok
    | no differ ↦ rw (changed-other b differ) (v.disk.bytes b)
  ]

  pub changed-IsFile : IsFile meta ip s'
  changed-IsFile = record {
    disk = same_bitmap-IsDisk meta s s' v.disk sb' low bytes';
    inode_meta = rw sb' v.inode_meta;
    inode_apart = λ y lt'. rw sb' (v.inode_apart y (rw (← sb') lt'));
    owned = λ j lt' ne'.
        rw (changed-nth j) (owned' (nth ip s j) (v.owned j lt' (rw (← changed-nth j) ne')));
    table = λ ne'. owned' (ip.addrs ndirect) (v.table ne');
    distinct = λ i j lti ltj ne' e.
        v.distinct i j lti ltj (rw (← changed-nth i) ne') (sym (changed-nth i) ∙ e ∙ changed-nth j);
    not_table =
        λ j lt' ne' e. v.not_table j lt' (rw (← changed-nth j) ne') (sym (changed-nth j) ∙ e);
  }

  pub changed-byte_at :
      (o : ℕ)
      → o < maxfile * bsize
      → byte_at ip s' o ≡ (if o / bsize == k then bytes (o % bsize) else byte_at ip s o)
  changed-byte_at o inside = elim (ℕ_discrete (o / bsize) k) [
    | yes e ↦
        let this : (o / bsize == k) ≡ true = ground arith in
        let there : (a == 0) ≡ false = ground arith in
        rw (this, changed-nth (o / bsize), e, at, there, here) refl
    | no differ ↦
        let not_this : (o / bsize == k) ≡ false = ground arith in
        rw (not_this, changed-nth (o / bsize))
          (elim (ℕ_discrete (nth ip s (o / bsize)) 0) [
            | yes z ↦ let empty : (nth ip s (o / bsize) == 0) ≡ true = ground arith in rw empty refl
            | no used ↦
                let apart =
                  changed-other (nth ip s (o / bsize))
                    (λ e. differ (v.distinct (o / bsize) k (omega arith) lt used (e ∙ sym at))) in
                ap (λ f. if nth ip s (o / bsize) == 0 then 0 else f (o % bsize)) apart
          ])
  ]
