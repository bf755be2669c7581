-- ===== src/Fs/Alloc/Search.antt =====
-- The search of balloc of kernel/fs.c for a free block.
use oslab.Prelude.{
  ℕ, zero, suc, ◌+◌, ◌-◌, ◌*◌, ◌%◌, ◌≤◌, ◌<◌, ◌≡◌, inl, inr, ap, ◌∙◌, Bool, true, false, none, some,
  arith, ℕ_discrete, Option-cases, dec_lt,
}
use oslab.Fs.{uint_mod, Fs, bpb, bitmap_block, is_free, balloc_bits, balloc_blocks}
use oslab.Fs.Bits.{IsBytes}

-- the bit of block `x` in the bitmap is clear
abbrev pub block_free : Fs → ℕ → Bool
block_free s x = is_free (s.data_of (bitmap_block x s)) (x % bpb)

balloc_bits-some :
    (rounds b bi r : ℕ) (s : Fs)
    → balloc_bits rounds b bi s ≡ some r
    → (bi ≤ r)
      × (r < bi + rounds)
      × (b + r < s.sb.size)
      × (is_free (s.data_of (bitmap_block b s)) r ≡ true)
unfolding balloc_bits
balloc_bits-some zero b bi r s e = cc
balloc_bits-some (suc rounds) b bi r s e = ground (arith, balloc_bits-some rounds b (bi + 1) r s)

balloc_bits_first :
    (rounds b bi r k : ℕ) (s : Fs)
    → balloc_bits rounds b bi s ≡ some r
    → bi ≤ k
    → k < r
    → is_free (s.data_of (bitmap_block b s)) k ≡ false
unfolding balloc_bits
balloc_bits_first zero b bi r k s e lo hi = cc
balloc_bits_first (suc rounds) b bi r k s e lo hi = elim (ℕ_discrete bi k) [
  | yes here ↦ rw (← here) (ground arith)
  | no later ↦ ground (arith, balloc_bits_first rounds b (bi + 1) r k s)
]

balloc_bits-none :
    (rounds b bi k : ℕ) (s : Fs)
    → balloc_bits rounds b bi s ≡ none
    → bi ≤ k
    → k < bi + rounds
    → b + k < s.sb.size
    → is_free (s.data_of (bitmap_block b s)) k ≡ false
unfolding balloc_bits
balloc_bits-none zero b bi k s e lo hi lt = absurd (omega arith)
balloc_bits-none (suc rounds) b bi k s e lo hi lt = elim (ℕ_discrete bi k) [
  | yes here ↦ rw (← here) (ground arith)
  | no later ↦ ground (arith, balloc_bits-none rounds b (bi + 1) k s)
]

-- the bit of block `x` is bit x - b of the block of the bitmap at `b`
block_free_at :
    (s : Fs) (b x : ℕ)
    → b % bpb ≡ 0
    → b ≤ x
    → x < b + bpb
    → block_free s x ≡ is_free (s.data_of (bitmap_block b s)) (x - b)
block_free_at s b x e lo hi =
    let same_block : bitmap_block x s ≡ bitmap_block b s = omega arith in
    let same_bit : x % bpb ≡ x - b = omega arith in
    ap (λ c. is_free (s.data_of c) (x % bpb)) same_block
    ∙ ap (is_free (s.data_of (bitmap_block b s))) same_bit

abbrev Found : ℕ → Fs → ℕ × ℕ → Type 0
Found b s (b', bi) =
    (b' % bpb ≡ 0)
    × (b ≤ b')
    × (bi < bpb)
    × (b' + bi < s.sb.size)
    × (is_free (s.data_of (bitmap_block b' s)) bi ≡ true)
    × ((x : ℕ) → b ≤ x → x < b' + bi → block_free s x ≡ false)

pub balloc_blocks-some :
    (rounds b : ℕ) (s : Fs) (r : ℕ × ℕ)
    → b % bpb ≡ 0
    → balloc_blocks rounds b s ≡ some r
    → Found b s r
unfolding balloc_blocks
balloc_blocks-some zero b s r al e = cc
balloc_blocks-some (suc rounds) b s (b', bi) al e = elim (Option-cases (balloc_bits bpb b 0 s)) [
  | inr (k, found) ↦
      let (_, lt, inside, free) = balloc_bits-some bpb b 0 k s found in
      let eb : b ≡ b' = ground arith in
      let ek : k ≡ bi = ground arith in
      rw (← eb, ← ek)
        (
          al,
          omega arith,
          omega arith,
          inside,
          free,
          λ x lo hi.
              block_free_at s b x al lo (omega arith)
              ∙ balloc_bits_first bpb b 0 k (x - b) s found (omega arith) (omega arith),
        )
  | inl nothing ↦
      let rest : balloc_blocks rounds (b + bpb) s ≡ some (b', bi) = ground arith in
      let (al', le, lt, inside, free, before) =
        balloc_blocks-some rounds (b + bpb) s (b', bi) (omega arith) rest in
      (
        al',
        omega arith,
        lt,
        inside,
        free,
        λ x lo hi. elim (dec_lt x (b + bpb)) [
          | yes early ↦
              block_free_at s b x al lo early
              ∙ balloc_bits-none bpb b 0 (x - b) s nothing (omega arith) (omega arith) (omega arith)
          | no late ↦ before x (omega arith) hi
        ],
      )
]

pub balloc_blocks-none :
    (rounds b x : ℕ) (s : Fs)
    → b % bpb ≡ 0
    → balloc_blocks rounds b s ≡ none
    → b ≤ x
    → x < s.sb.size
    → x < b + rounds * bpb
    → block_free s x ≡ false
unfolding balloc_blocks
balloc_blocks-none zero b x s al e lo inside hi = absurd (omega arith)
balloc_blocks-none (suc rounds) b x s al e lo inside hi =
    elim (Option-cases (balloc_bits bpb b 0 s)) [
      | inr (k, found) ↦ ground (arith, found)
      | inl nothing ↦ elim (dec_lt x (b + bpb)) [
        | yes early ↦
            block_free_at s b x al lo early
            ∙ balloc_bits-none bpb b 0 (x - b) s nothing (omega arith) (omega arith) (omega arith)
        | no late ↦
            let rest : balloc_blocks rounds (b + bpb) s ≡ none = ground (arith, nothing) in
            balloc_blocks-none rounds (b + bpb) x s (omega arith) rest (omega arith) inside
              (omega arith)
      ]
    ]

-- The disk below block `meta` (boot block, superblock, log, inodes and bitmap) is in use.
pub record IsDisk (meta : ℕ) (s : Fs) : Type 0 where
  pub bytes : (b : ℕ) → IsBytes (s.data_of b)
  pub meta_used : (x : ℕ) → x < meta → block_free s x ≡ false
  pub bitmap_meta : (x : ℕ) → x < s.sb.size → bitmap_block x s < meta
  pub meta_pos : 0 < meta
  pub meta_size : meta ≤ s.sb.size
  pub size_uint : s.sb.size ≤ uint_mod
