-- ===== src/Fs/Alloc.antt =====
-- balloc and bfree of kernel/fs.c: the first free block is taken, and only its bit and its bytes change.
pub mod Search
use oslab.Prelude.{
  ℕ, zero, suc, ◌+◌, ◌-◌, ◌*◌, ◌/◌, ◌%◌, ◌≤◌, ◌<◌, ◌≡◌, ◌≢◌, ◌⊎◌, inl, inr, refl, sym, ap, ◌∙◌,
  Bool, true, false, none, some, arith, if◌then◌else◌, ◌==◌, ℕ_discrete, Bool-cases, Option-cases,
  dec_lt,
}
use mathlib.Core.Bool.{true≢false}
use oslab.Prelude.Run.{done, panic}
use oslab.Fs.{
  uint_mod, Fs, bpb, bitmap_block, is_free, set_bit, clear_bit, set_block, log_write, bzero,
  balloc_bits, balloc_blocks, balloc, bfree,
}
use oslab.Fs.Bits.{IsBytes, set_bit-IsBytes, is_free-set_bit, clear_bit-IsBytes, is_free-clear_bit}
use oslab.Fs.Alloc.Search.{block_free, IsDisk, balloc_blocks-some, balloc_blocks-none}

-- the disk after block `x` was taken
unfoldable pub taken : ℕ → Fs → Fs
unfolding log_write bzero
taken x s =
    let bp = bitmap_block x s in
    bzero x (log_write bp (set_block bp (set_bit (s.data_of bp) (x % bpb)) s))

abbrev pub Balloc : ℕ → Fs → Type 0
Balloc meta s =
    ((balloc s ≡ (0, s)) × ((x : ℕ) → x < s.sb.size → block_free s x ≡ false))
    ⊎ ((x : ℕ) × (balloc s ≡ (x, taken x s))
        × (meta ≤ x)
        × (x < s.sb.size)
        × (block_free s x ≡ true)
        × ((y : ℕ) → y < x → block_free s y ≡ false))

-- balloc returns 0 and changes nothing if no block is free. Otherwise it takes the first free block: its bit
-- is set, and its bytes are cleared.
pub balloc_lem : (meta : ℕ) (s : Fs) → IsDisk meta s → Balloc meta s
unfolding balloc taken
balloc_lem meta s v = elim (Option-cases (balloc_blocks (s.sb.size / bpb + 1) 0 s)) [
  | inl e ↦ inl (
    rw (e, balloc) refl,
    λ x lt.
        balloc_blocks-none (s.sb.size / bpb + 1) 0 x s (omega arith) e (omega arith) lt
          (omega arith),
  )
  | inr ((b, bi), e) ↦
      let (al, _, lt, inside, free, before) =
        balloc_blocks-some (s.sb.size / bpb + 1) 0 s (b, bi) (omega arith) e in
      let same_block : bitmap_block (b + bi) s ≡ bitmap_block b s = omega arith in
      let same_bit : (b + bi) % bpb ≡ bi = omega arith in
      let is_free_here : block_free s (b + bi) ≡ true = rw (same_block, same_bit) free in
      let above : meta ≤ b + bi = elim (dec_lt (b + bi) meta) [
        | yes low ↦ absurd (true≢false (sym is_free_here ∙ v.meta_used (b + bi) low))
        | no high ↦ omega arith
      ] in
      inr (
        b + bi,
        rw (e, balloc, same_block, same_bit) refl,
        above,
        inside,
        is_free_here,
        λ y lo. before y (omega arith) lo,
      )
]

module _ (meta x : ℕ) (s : Fs) (v : IsDisk meta s) (lo : meta ≤ x) (hi : x < s.sb.size) where
  pub taken-sb : (taken x s).sb ≡ s.sb
  unfolding taken
  taken-sb = refl

  pub taken-data_of :
      (b : ℕ)
      → b ≢ bitmap_block x s
      → (taken x s).data_of b ≡ (if x == b then (λ i. 0) else s.data_of b)
  unfolding taken log_write bzero
  taken-data_of b ne = ground arith

  bitmap_after :
      (taken x s).data_of (bitmap_block x s) ≡ set_bit (s.data_of (bitmap_block x s)) (x % bpb)
  unfolding taken log_write bzero
  bitmap_after =
      let ne : (x == bitmap_block x s) ≡ false = ground (arith, v.bitmap_meta x hi) in
      let self : (bitmap_block x s == bitmap_block x s) ≡ true = ground arith in rw (ne, self) refl

  pub taken-free :
      (y : ℕ)
      → y < s.sb.size
      → block_free (taken x s) y ≡ (if x == y then false else block_free s y)
  unfolding taken log_write bzero
  taken-free y lt = elim (ℕ_discrete (bitmap_block y s) (bitmap_block x s)) [
    | yes e ↦
        let same_bit : (x % bpb == y % bpb) ≡ (x == y) = ground arith in
        ap (λ c. is_free ((taken x s).data_of c) (y % bpb)) e
        ∙ ap (λ bytes. is_free bytes (y % bpb)) bitmap_after
        ∙ is_free-set_bit (s.data_of (bitmap_block x s)) (v.bytes (bitmap_block x s)) (x % bpb)
            (y % bpb)
        ∙ rw (same_bit, ← e) refl
    | no ne ↦
        let low = v.bitmap_meta y lt in
        let other : (x == bitmap_block y s) ≡ false = ground arith in
        let differ : (x == y) ≡ false = ground arith in
        ap (λ bytes. is_free bytes (y % bpb)) (taken-data_of (bitmap_block y s) ne)
        ∙ rw (other, differ) refl
  ]

  bytes_at : (b : ℕ) → IsBytes ((taken x s).data_of b)
  bytes_at b = elim (ℕ_discrete b (bitmap_block x s)) [
    | yes e ↦
        rw (e, bitmap_after)
          (set_bit-IsBytes (s.data_of (bitmap_block x s)) (v.bytes (bitmap_block x s)) (x % bpb))
    | no ne ↦ rw (taken-data_of b ne) (λ i. ground (arith, v.bytes b i))
  ]

  pub taken-IsDisk : IsDisk meta (taken x s)
  unfolding taken log_write bzero
  taken-IsDisk = record {
    bytes = bytes_at;
    meta_used = λ y lt. ground (arith, taken-free y (omega arith), v.meta_used y lt);
    bitmap_meta = v.bitmap_meta;
    meta_pos = v.meta_pos;
    meta_size = v.meta_size;
    size_uint = v.size_uint;
  }

-- the disk after block `x` was freed
unfoldable pub freed : ℕ → Fs → Fs
unfolding log_write
freed x s =
    let bp = bitmap_block x s in log_write bp (set_block bp (clear_bit (s.data_of bp) (x % bpb)) s)

-- bfree panics exactly if the block is free already.
pub bfree_lem :
    (x : ℕ) (s : Fs)
    → ((block_free s x ≡ true) × (bfree x s ≡ panic "freeing free block"))
      ⊎ ((block_free s x ≡ false) × (bfree x s ≡ done (freed x s)))
unfolding bfree freed
bfree_lem x s = elim (Bool-cases (block_free s x)) [
  | inl free ↦ inl (free, rw (free, bfree) refl)
  | inr used ↦ inr (used, rw (used, bfree) refl)
]

module _ (meta x : ℕ) (s : Fs) (v : IsDisk meta s) (lo : meta ≤ x) (hi : x < s.sb.size) where
  pub freed-sb : (freed x s).sb ≡ s.sb
  unfolding freed
  freed-sb = refl

  pub freed-data_of : (b : ℕ) → b ≢ bitmap_block x s → (freed x s).data_of b ≡ s.data_of b
  unfolding freed log_write
  freed-data_of b ne = ground arith

  bitmap_freed :
      (freed x s).data_of (bitmap_block x s) ≡ clear_bit (s.data_of (bitmap_block x s)) (x % bpb)
  unfolding freed log_write
  bitmap_freed =
      let self : (bitmap_block x s == bitmap_block x s) ≡ true = ground arith in rw self refl

  pub freed-free : (y : ℕ) → block_free (freed x s) y ≡ (if x == y then true else block_free s y)
  unfolding freed log_write
  freed-free y = elim (ℕ_discrete (bitmap_block y s) (bitmap_block x s)) [
    | yes e ↦
        let same_bit : (x % bpb == y % bpb) ≡ (x == y) = ground arith in
        ap (λ c. is_free ((freed x s).data_of c) (y % bpb)) e
        ∙ ap (λ bytes. is_free bytes (y % bpb)) bitmap_freed
        ∙ is_free-clear_bit (s.data_of (bitmap_block x s)) (v.bytes (bitmap_block x s)) (x % bpb)
            (y % bpb)
        ∙ rw (same_bit, ← e) refl
    | no ne ↦
        let differ : (x == y) ≡ false = ground arith in
        ap (λ bytes. is_free bytes (y % bpb)) (freed-data_of (bitmap_block y s) ne) ∙ rw differ refl
  ]

  freed_bytes : (b : ℕ) → IsBytes ((freed x s).data_of b)
  freed_bytes b = elim (ℕ_discrete b (bitmap_block x s)) [
    | yes e ↦
        rw (e, bitmap_freed)
          (clear_bit-IsBytes (s.data_of (bitmap_block x s)) (v.bytes (bitmap_block x s)) (x % bpb))
    | no ne ↦ rw (freed-data_of b ne) (v.bytes b)
  ]

  pub freed-IsDisk : IsDisk meta (freed x s)
  unfolding freed log_write
  freed-IsDisk = record {
    bytes = freed_bytes;
    meta_used = λ y lt. ground (arith, freed-free y, v.meta_used y lt);
    bitmap_meta = v.bitmap_meta;
    meta_pos = v.meta_pos;
    meta_size = v.meta_size;
    size_uint = v.size_uint;
  }

-- A change of data blocks alone changes no bit of the bitmap.
module _ (meta : ℕ) (s s' : Fs) (v : IsDisk meta s) (sb' : s'.sb ≡ s.sb)
    (low : (b : ℕ) → b < meta → s'.data_of b ≡ s.data_of b) where
  pub same_bitmap : (y : ℕ) → y < s.sb.size → block_free s' y ≡ block_free s y
  same_bitmap y lt =
      let same_block : bitmap_block y s' ≡ bitmap_block y s =
        ap (λ sb. y / bpb + sb.bmapstart) sb' in
      ap (λ b. is_free (s'.data_of b) (y % bpb)) same_block
      ∙ ap (λ bytes. is_free bytes (y % bpb)) (low (bitmap_block y s) (v.bitmap_meta y lt))

  pub same_bitmap-IsDisk : ((b : ℕ) → IsBytes (s'.data_of b)) → IsDisk meta s'
  same_bitmap-IsDisk bytes = record {
    bytes = bytes;
    meta_used = λ y lt. same_bitmap y (omega (arith, v.meta_size)) ∙ v.meta_used y lt;
    bitmap_meta = λ y lt. rw sb' (v.bitmap_meta y (rw (← sb') lt));
    meta_pos = v.meta_pos;
    meta_size = rw sb' v.meta_size;
    size_uint = rw sb' v.size_uint;
  }
