-- ===== src/Log/Loops.antt =====
-- The loops of kernel/log.c, block by block: what each leaves on the disk and in the cache when the
-- power fails after any number of writes.
use oslab.Prelude.{
  put, ℕ, zero, suc, ◌+◌, ◌-◌, ◌≤◌, ◌<◌, ◌≡◌, ◌≢◌, ◌⊎◌, refl, Bool, ◌&&◌, arith, ltb, leb,
  if◌then◌else◌, ℕ_discrete,
}
use oslab.Log.{
  Block, Dev, set_data, bwrite, bunpin, install_loop, write_log_loop, read_blocks, write_blocks,
}

-- `b` lies outside the log, whose blocks are the header and the slots behind it
abbrev pub IsHome : ℕ → ℕ → ℕ → Type 0
IsHome start size b = (b < start) ⊎ (start + size ≤ b)

-- one round of write_log
abbrev wrote : ℕ → ℕ → (ℕ → ℕ) → Dev → Dev
wrote tail start block d =
    bwrite (start + tail + 1) (set_data (start + tail + 1) (d.cache (block tail)) d)

module _ (start : ℕ) (block : ℕ → ℕ) where
  pub write_log_no_power :
      (rounds tail : ℕ) (d : Dev)
      → d.power ≡ 0
      → ((write_log_loop rounds tail start block d).power ≡ 0)
  unfolding write_log_loop
  write_log_no_power zero tail d h = h
  write_log_no_power (suc rounds) tail d h =
      write_log_no_power rounds (tail + 1) (wrote tail start block d) (ground arith)

  -- each round takes one disk write
  pub write_log_power :
      (rounds tail : ℕ) (d : Dev)
      → (write_log_loop rounds tail start block d).power ≡ d.power - rounds
  unfolding write_log_loop
  write_log_power zero tail d = omega arith
  write_log_power (suc rounds) tail d =
      ground (arith, write_log_power rounds (tail + 1) (wrote tail start block d))

  -- blocks other than the slots written stay as they are, on disk and in the cache
  pub write_log_outside :
      (rounds tail b : ℕ) (d : Dev)
      → (b ≤ start + tail) ⊎ (start + tail + rounds < b)
      → ((write_log_loop rounds tail start block d).disk b ≡ d.disk b)
        × ((write_log_loop rounds tail start block d).cache b ≡ d.cache b)
  unfolding write_log_loop
  write_log_outside zero tail b d h = (refl, refl)
  write_log_outside (suc rounds) tail b d h =
      ground (arith, write_log_outside rounds (tail + 1) b (wrote tail start block d))

  -- each slot has the cached contents of its block, in the cache, and also on disk if there is power
  -- left at the end
  pub write_log_slot :
      (rounds tail i : ℕ) (d : Dev)
      → tail ≤ i
      → i < tail + rounds
      → (block i ≤ start + tail) ⊎ (start + tail + rounds < block i)
      → let d' = write_log_loop rounds tail start block d in
        (d'.cache (start + i + 1) ≡ d.cache (block i))
        × (d'.power ≢ 0 → d'.disk (start + i + 1) ≡ d.cache (block i))
  unfolding write_log_loop
  write_log_slot zero tail i d lo hi home = absurd (omega arith)
  write_log_slot (suc rounds) tail i d lo hi home = elim (ℕ_discrete tail i) [
    | yes here ↦ ground (
      arith,
      write_log_outside rounds (tail + 1) (start + i + 1) (wrote tail start block d),
      write_log_no_power rounds (tail + 1) (wrote tail start block d),
    )
    | no later ↦ ground (arith, write_log_slot rounds (tail + 1) i (wrote tail start block d))
  ]

-- one round of install_trans
abbrev installed : Bool → ℕ → ℕ → (ℕ → ℕ) → Dev → Dev
installed recovering tail start block d =
    let w = bwrite (block tail) (set_data (block tail) (d.cache (start + tail + 1)) d) in
    if recovering then w else bunpin (block tail) w

module _ (recovering : Bool) (start : ℕ) (block : ℕ → ℕ) where
  pub install_no_power :
      (rounds tail : ℕ) (d : Dev)
      → d.power ≡ 0
      → (install_loop rounds tail recovering start block d).power ≡ 0
  unfolding install_loop
  install_no_power zero tail d h = h
  install_no_power (suc rounds) tail d h =
      install_no_power rounds (tail + 1) (installed recovering tail start block d) (ground arith)

  pub install_no_power-disk :
      (rounds tail b : ℕ) (d : Dev)
      → d.power ≡ 0
      → (install_loop rounds tail recovering start block d).disk b ≡ d.disk b
  unfolding install_loop
  install_no_power-disk zero tail b d h = refl
  install_no_power-disk (suc rounds) tail b d h =
      ground
        (arith, install_no_power-disk rounds (tail + 1) b (installed recovering tail start block d))

  -- each round takes one disk write
  pub install_power :
      (rounds tail : ℕ) (d : Dev)
      → (install_loop rounds tail recovering start block d).power ≡ d.power - rounds
  unfolding install_loop
  install_power zero tail d = omega arith
  install_power (suc rounds) tail d =
      ground (arith, install_power rounds (tail + 1) (installed recovering tail start block d))

  -- blocks that are not logged stay as they are
  pub install_outside :
      (rounds tail b : ℕ) (d : Dev)
      → ((i : ℕ) → tail ≤ i → i < tail + rounds → block i ≢ b)
      → let d' = install_loop rounds tail recovering start block d in
        (d'.disk b ≡ d.disk b) × (d'.cache b ≡ d.cache b)
  unfolding install_loop
  install_outside zero tail b d h = (refl, refl)
  install_outside (suc rounds) tail b d h = ground (
    arith,
    h tail,
    install_outside rounds (tail + 1) b (installed recovering tail start block d)
        (λ i lo hi. h i (omega arith) (omega arith)),
  )

  module _ (size n : ℕ) (content : ℕ → Block) (home : (i : ℕ) → i < n → IsHome start size (block i))
      (fits : n < size) where
    -- the cached slots from `tail` on hold the contents of their blocks
    abbrev pub SlotsHold : ℕ → ℕ → Dev → Type 0
    SlotsHold rounds tail d =
        (i : ℕ) → tail ≤ i → i < tail + rounds → d.cache (start + i + 1) ≡ content (block i)

    installed-SlotsHold :
        (rounds tail : ℕ) (d : Dev)
        → tail + suc rounds ≤ n
        → SlotsHold (suc rounds) tail d
        → SlotsHold rounds (tail + 1) (installed recovering tail start block d)
    installed-SlotsHold rounds tail d le h i lo hi = ground (arith, home tail, h i)

    -- a block that already has its content keeps it
    pub install_keeps :
        (rounds tail b : ℕ) (d : Dev)
        → tail + rounds ≤ n
        → SlotsHold rounds tail d
        → d.disk b ≡ content b
        → (install_loop rounds tail recovering start block d).disk b ≡ content b
    unfolding install_loop
    install_keeps zero tail b d le h e = e
    install_keeps (suc rounds) tail b d le h e =
        install_keeps rounds (tail + 1) b (installed recovering tail start block d) (omega arith)
          (installed-SlotsHold rounds tail d le h) (ground (arith, h tail))

    -- with power left at the end, every logged block has its content
    pub install_logged :
        (rounds tail i : ℕ) (d : Dev)
        → tail + rounds ≤ n
        → SlotsHold rounds tail d
        → tail ≤ i
        → i < tail + rounds
        → let d' = install_loop rounds tail recovering start block d in
          d'.power ≢ 0 → d'.disk (block i) ≡ content (block i)
    unfolding install_loop
    install_logged zero tail i d le h lo hi pow = absurd (omega arith)
    install_logged (suc rounds) tail i d le h lo hi pow = elim (ℕ_discrete tail i) [
      | yes here ↦
          install_keeps rounds (tail + 1) (block i) (installed recovering tail start block d)
            (omega arith) (installed-SlotsHold rounds tail d le h)
            (ground (
              arith,
              h tail,
              install_no_power rounds (tail + 1) (installed recovering tail start block d),
            ))
      | no later ↦
          install_logged rounds (tail + 1) i (installed recovering tail start block d) (omega arith)
            (installed-SlotsHold rounds tail d le h) (omega arith) (omega arith) pow
    ]

pub read_blocks_lem :
    (rounds i j : ℕ) (hdr : Block) (block : ℕ → ℕ)
    → read_blocks rounds i hdr block j
      ≡ (if leb i j && ltb j (i + rounds) then hdr (j + 1) else block j)
unfolding read_blocks
read_blocks_lem zero i j hdr block = ground arith
read_blocks_lem (suc rounds) i j hdr block =
    ground (arith, read_blocks_lem rounds (i + 1) j hdr (put block i (hdr (i + 1))))

pub write_blocks_lem :
    (rounds i w : ℕ) (block : ℕ → ℕ) (hdr : Block)
    → write_blocks rounds i block hdr w
      ≡ (if ltb i w && leb w (i + rounds) then block (w - 1) else hdr w)
unfolding write_blocks
write_blocks_lem zero i w block hdr = ground arith
write_blocks_lem (suc rounds) i w block hdr =
    ground (arith, write_blocks_lem rounds (i + 1) w block (put hdr (i + 1) (block i)))
