-- ===== src/Log/Recover.antt =====
-- Recovery in kernel/log.c: what a disk must look like for recovery to bring back given contents,
-- and that it then does, also when recovery itself is cut off.
use oslab.Prelude.{
  put, ℕ, zero, suc, ◌+◌, ◌-◌, ◌≤◌, ◌<◌, ◌≡◌, ◌≢◌, ◌⊎◌, inl, inr, sym, ap, fun_ext, ◌∙◌, Bool,
  arith, ℕ_discrete,
}
use oslab.Log.{Block, Dev, Log, log_size, clear, install_trans, write_head, write_blocks}
use oslab.Log.Loops.{IsHome, install_outside, SlotsHold, install_logged, write_blocks_lem}

module _ (start size : ℕ) (content : ℕ → Block) where
  -- Recovery turns this disk into one whose home blocks have `content`: the header lists home blocks
  -- whose contents stand in the slots, and every other home block has its content in place.
  pub record IsRecoverable (disk : ℕ → Block) : Type 0 where
    pub fits : disk start 0 < size
    pub small : disk start 0 ≤ log_size
    pub home : (i : ℕ) → i < disk start 0 → IsHome start size (disk start (i + 1))
    pub slots : (i : ℕ) → i < disk start 0 → disk (start + i + 1) ≡ content (disk start (i + 1))
    pub rest :
        (b : ℕ)
        → IsHome start size b
        → ((i : ℕ) → i < disk start 0 → disk start (i + 1) ≢ b)
        → disk b ≡ content b

  -- every home block has its content in place, and the log is empty
  pub record IsRecovered (disk : ℕ → Block) : Type 0 where
    pub header : disk start 0 ≡ 0
    pub in_place : (b : ℕ) → IsHome start size b → disk b ≡ content b

  pub IsRecovered-IsRecoverable :
      (disk : ℕ → Block) → 0 < size → IsRecovered disk → IsRecoverable disk
  IsRecovered-IsRecoverable disk pos r = record {
    fits = omega arith;
    small = omega arith;
    home = λ i h. absurd (omega arith);
    slots = λ i h. absurd (omega arith);
    rest = λ b h _. r.in_place b h;
  }

-- a search through the first `n` logged blocks
pub logged? :
    (n : ℕ) (block : ℕ → ℕ) (b : ℕ)
    → ((i : ℕ) × (i < n) × (block i ≡ b)) ⊎ ((i : ℕ) → i < n → block i ≢ b)
logged? zero block b = inr (λ i h. absurd (omega arith))
logged? (suc n) block b = elim (logged? n block b) [
  | inl (i, h, e) ↦ inl (i, omega arith, e)
  | inr none_before ↦ elim (ℕ_discrete (block n) b) [
    | yes e ↦ inl (n, omega arith, e)
    | no ne ↦
        inr (λ i h. elim (ℕ_discrete i n) [ yes e ↦ rw e ne | no lt ↦ none_before i (omega arith) ])
  ]
]

-- the header block that write_head stores
abbrev header_block : Log → Block → Block
header_block l hdr = write_blocks l.lh.n 0 l.lh.block (put hdr 0 l.lh.n)

header_block-n : (l : Log) (hdr : Block) → header_block l hdr 0 ≡ l.lh.n
header_block-n l hdr = ground (arith, write_blocks_lem l.lh.n 0 0 l.lh.block (put hdr 0 l.lh.n))

header_block-block :
    (l : Log) (hdr : Block) (i : ℕ) → i < l.lh.n → header_block l hdr (i + 1) ≡ l.lh.block i
header_block-block l hdr i h = ground (
  arith,
  write_blocks_lem l.lh.n 0 (i + 1) l.lh.block (put hdr 0 l.lh.n),
  (let e : i + 1 - 1 ≡ i = omega arith in ap l.lh.block e),
)

module _ (l : Log) (d : Dev) where
  pub write_head_written :
      d.power ≢ 0 → (write_head l d).disk l.start ≡ header_block l (d.cache l.start)
  unfolding write_head
  write_head_written pow = ground arith

  pub write_head_outside :
      (b : ℕ)
      → b ≢ l.start
      → ((write_head l d).disk b ≡ d.disk b) × ((write_head l d).cache b ≡ d.cache b)
  unfolding write_head
  write_head_outside b ne = (ground arith, ground arith)

  pub write_head_no_power : (b : ℕ) → d.power ≡ 0 → (write_head l d).disk b ≡ d.disk b
  unfolding write_head
  write_head_no_power b pow = ground arith

  pub write_head-power : (write_head l d).power ≡ d.power - 1
  unfolding write_head
  write_head-power = ground arith

  -- what the header block holds after write_head, if the write reaches the disk
  pub write_head-header :
      d.power ≢ 0
      → ((write_head l d).disk l.start 0 ≡ l.lh.n)
        × ((i : ℕ) → i < l.lh.n → (write_head l d).disk l.start (i + 1) ≡ l.lh.block i)
  write_head-header pow =
      rw (write_head_written pow)
        (header_block-n l (d.cache l.start), λ i h. header_block-block l (d.cache l.start) i h)

-- the disk and the cache agree with the log header in memory about a committed transaction
pub record IsCommitted (content : ℕ → Block) (l : Log) (d : Dev) : Type 0 where
  pub recoverable : IsRecoverable l.start l.size content d.disk
  pub count : d.disk l.start 0 ≡ l.lh.n
  pub blocks : (i : ℕ) → i < l.lh.n → d.disk l.start (i + 1) ≡ l.lh.block i
  pub cached : (i : ℕ) → i < l.lh.n → d.cache (l.start + i + 1) ≡ content (l.lh.block i)

module _ (content : ℕ → Block) (recovering : Bool) (l : Log) (d : Dev)
    (c : IsCommitted content l d) where
  fits : l.lh.n < l.size
  fits = omega (arith, c.recoverable.fits, c.count)

  home : (i : ℕ) → i < l.lh.n → IsHome l.start l.size (l.lh.block i)
  home i h = rw (← c.blocks i h) (c.recoverable.home i (omega (arith, c.count)))

  slots_hold : SlotsHold recovering l.start l.lh.block l.size l.lh.n content home fits l.lh.n 0 d
  slots_hold i lo hi = c.cached i (omega arith)

  -- install_trans leaves the header block and the slots alone
  install-log :
      (b : ℕ)
      → l.start ≤ b
      → b < l.start + l.size
      → (install_trans recovering l d).disk b ≡ d.disk b
  unfolding install_trans
  install-log b lo hi =
      (install_outside recovering l.start l.lh.block l.lh.n 0 b d
        (λ i _ h. ground (arith, home i (omega arith)))).0

  install-rest :
      (b : ℕ)
      → ((i : ℕ) → i < l.lh.n → l.lh.block i ≢ b)
      → (install_trans recovering l d).disk b ≡ d.disk b
  unfolding install_trans
  install-rest b h =
      (install_outside recovering l.start l.lh.block l.lh.n 0 b d (λ i _ lt. h i (omega arith))).0

  not_logged :
      (b : ℕ)
      → IsHome l.start l.size b
      → ((i : ℕ) → i < l.lh.n → l.lh.block i ≢ b)
      → (install_trans recovering l d).disk b ≡ content b
  not_logged b hb out =
      install-rest b out
      ∙ c.recoverable.rest b hb
          (λ i h e. out i (omega (arith, c.count)) (sym (c.blocks i (omega (arith, c.count))) ∙ e))

  -- a cut off installation leaves a disk that recovers to the same contents
  pub install-IsRecoverable :
      IsRecoverable l.start l.size content (install_trans recovering l d).disk
  install-IsRecoverable =
      let head = install-log l.start (omega arith) (omega (arith, fits)) in
      record {
        fits = rw head c.recoverable.fits;
        small = rw head c.recoverable.small;
        home = rw head c.recoverable.home;
        slots = λ i h.
            let lt : i < d.disk l.start 0 = rw head at h in
            rw
              (
                head,
                install-log (l.start + i + 1) (omega arith) (omega (arith, c.recoverable.fits)),
              )
              (c.recoverable.slots i lt);
        rest = λ b hb out.
            not_logged b hb
              (λ i h e. out i (rw head (omega (arith, c.count))) (rw head (c.blocks i h ∙ e)));
      }

  -- with power left after it, every home block has its content
  pub install-in_place :
      (b : ℕ)
      → IsHome l.start l.size b
      → (install_trans recovering l d).power ≢ 0
      → (install_trans recovering l d).disk b ≡ content b
  unfolding install_trans
  install-in_place b hb pow = elim (logged? l.lh.n l.lh.block b) [
    | inl (i, h, e) ↦ rw (← e) (
        install_logged recovering l.start l.lh.block l.size l.lh.n content home fits l.lh.n 0 i d
          (omega arith) slots_hold (omega arith) (omega arith) pow)
    | inr out ↦ not_logged b hb out
  ]

  pub finish-IsRecovered :
      (install_trans recovering l d).power ≢ 0
      → IsRecovered l.start l.size content
          (write_head (clear l) (install_trans recovering l d)).disk
  finish-IsRecovered pow =
      let (cleared, _) = write_head-header (clear l) (install_trans recovering l d) pow in
      record {
        header = cleared;
        in_place = λ b hb.
            let (kept, _) =
              write_head_outside (clear l) (install_trans recovering l d) b
                (ground (arith, fits)) in
            kept ∙ install-in_place b hb pow;
      }

  -- so does a cut off erasure of the log after it
  pub finish-IsRecoverable :
      let d' = write_head (clear l) (install_trans recovering l d) in
      IsRecoverable l.start l.size content d'.disk
  finish-IsRecoverable = elim (ℕ_discrete (install_trans recovering l d).power 0) [
    | yes cut ↦
        rw (fun_ext λ b. write_head_no_power (clear l) (install_trans recovering l d) b cut)
          install-IsRecoverable
    | no left ↦
        IsRecovered-IsRecoverable l.start l.size content _ (omega (arith, fits))
          (finish-IsRecovered left)
  ]
