-- ===== src/Bio/Tests.antt =====
-- Runs of the buffer cache of kernel/bio.c.
use oslab.Prelude.{ℕ, ◌+◌, ◌≡◌, ◌≢◌, ◌⊎◌, refl, sym, ◌∙◌, true, false, List, [], ◌∷◌, arith}
use oslab.Prelude.Run.{Run, done, panic}
use oslab.Bio.{
  Bcache, binit, binit_loop, bget, find_block, find_unused, recycle, bread, brelse, unlink, dec_ref,
}
use oslab.Bio.Unique.{brelse_lem, IsCache}

-- buffer 7 is read by the process that calls
abbrev reading : Bcache
reading = recycle 1 33 7 binit

reading-IsCache : IsCache reading
unfolding binit binit_loop
reading-IsCache = record {
  inside = λ i h. ground arith;
  listed = λ i lt. ground arith;
  unique = λ i j lti ltj ne e.
      let first : i ≡ 7 = ground arith in let second : j ≡ 7 = ground arith in first ∙ sym second;
}

brelse_example :
    (((reading.buf 7).held ≡ false) × (brelse 7 reading ≡ panic "brelse"))
    ⊎ (((reading.buf 7).held ≡ true)
        × (c' : Bcache) × (brelse 7 reading ≡ done c')
        × (c'.buf 7
            ≡ record (reading.buf 7) { refcnt = dec_ref (reading.buf 7).refcnt; held = false })
        × ((k : ℕ) → k ≢ 7 → c'.buf k ≡ reading.buf k)
        × (dec_ref (reading.buf 7).refcnt ≡ 0 → c'.order ≡ 7 ∷ unlink 7 reading.order)
        × (dec_ref (reading.buf 7).refcnt ≢ 0 → c'.order ≡ reading.order)
        × IsCache c')
brelse_example = brelse_lem 7 reading reading-IsCache (omega arith)

-- the buffers of a run, and whether it ended
abbrev first : Run Bcache → List ℕ
first (done c) = c.order
first r = []

abbrev after : Run (ℕ × Bcache) → Run Bcache
after (done (i, c)) = brelse i c
after (panic e) = panic e
after r = done binit

abbrev few : Bcache
few = record { order = 2 ∷ 1 ∷ 0 ∷ []; buf = binit.buf }

-- block 33 gets the last buffer, which becomes the first when it is released
few_run : first (after (bread (λ b i. b + i) 1 33 few)) ≡ 0 ∷ 2 ∷ 1 ∷ []
unfolding bread bget find_block find_unused brelse unlink binit binit_loop
few_run = refl
