-- ===== src/Log/Write.antt =====
-- log_write of kernel/log.c: what it records, what it pins, and that a transaction stays ready to
-- commit.
pub mod Search
use oslab.Prelude.{
  put, ℕ, zero, suc, ◌+◌, ◌-◌, ◌≤◌, ◌<◌, ◌≡◌, ◌≢◌, ◌⊎◌, ◌↔◌, inl, inr, refl, sym, ap, ◌∙◌, true,
  false, arith, if◌then◌else◌, ◌==◌, ℕ_discrete,
}
use oslab.Prelude.Run.{done, panic}
use oslab.Log.{
  Dev, Log, log_size, bpin, bunpin, bwrite, set_data, find_block, install_loop, write_log_loop,
  write_log, write_head, install_trans, log_write, commit, clear,
}
use oslab.Log.Loops.{IsHome}
use oslab.Log.Commit.{is_logged, is_logged_at, is_logged_none, IsReady}
use oslab.Log.Write.Search.{
  occurrences, find_block_bounds, find_block_none, occurrences-same, occurrences-last,
}

-- The blocks in the log are distinct, and each is pinned by it once.
pub record IsPinned (l : Log) (d : Dev) : Type 0 where
  pub distinct : (i j : ℕ) → i < j → j < l.lh.n → l.lh.block i ≢ l.lh.block j
  pub pinned : (b : ℕ) → d.pins b ≡ occurrences l.lh.n 0 l.lh.block b

module _ (b : ℕ) (l : Log) (d : Dev) where
  -- log_write panics exactly when the log is full or no system call is in progress.
  pub log_write-panic :
      ((log_write b l d ≡ panic "too big a transaction")
        ⊎ (log_write b l d ≡ panic "log_write outside of trans"))
      ↔ ((log_size ≤ l.lh.n) ⊎ ((l.size ≤ l.lh.n + 1) ⊎ (l.outstanding ≡ 0)))
  unfolding log_write
  log_write-panic = (λ h. ground arith, λ h. ground arith)

  index : ℕ
  index = find_block l.lh.n 0 l.lh.block b

  -- the log after a log_write that absorbs the block, and after one that adds it
  abbrev absorbed : Log
  absorbed = record l { lh = record { n = l.lh.n; block = put l.lh.block index b } }

  abbrev added : Log
  added = record l { lh = record { n = l.lh.n + 1; block = put l.lh.block index b } }

  log_write_cases :
      (l' : Log) (d' : Dev)
      → log_write b l d ≡ done (l', d')
      → ((index ≢ l.lh.n) × (l' ≡ absorbed) × (d' ≡ d))
        ⊎ ((index ≡ l.lh.n)
            × (l.lh.n < log_size)
            × (l.lh.n + 1 < l.size)
            × (l' ≡ added)
            × (d' ≡ bpin b d))
  unfolding log_write index
  log_write_cases l' d' e = ground arith

  index_bounds : (index ≤ l.lh.n) × (index < l.lh.n → l.lh.block index ≡ b)
  unfolding index
  index_bounds =
      let (_, le, at) = find_block_bounds l.lh.n 0 b l.lh.block in
      (omega arith, λ h. at (omega arith))

  absorbed-block : index ≢ l.lh.n → (k : ℕ) → absorbed.lh.block k ≡ l.lh.block k
  absorbed-block ne k = ground (arith, index_bounds)

  added-block : index ≡ l.lh.n → (k : ℕ) → k < l.lh.n → added.lh.block k ≡ l.lh.block k
  added-block e k h = ground arith

  added-new : index ≡ l.lh.n → added.lh.block l.lh.n ≡ b
  added-new e = ground arith

  new_block : index ≡ l.lh.n → (k : ℕ) → k < l.lh.n → l.lh.block k ≢ b
  unfolding index
  new_block e k h =
      find_block_none l.lh.n 0 b k l.lh.block (omega arith) (omega arith) (omega arith)

  absorbed-IsPinned : index ≢ l.lh.n → IsPinned l d → IsPinned absorbed d
  absorbed-IsPinned ne p = record {
    distinct = λ i j h k. rw (absorbed-block ne i, absorbed-block ne j) (p.distinct i j h k);
    pinned = λ x.
        p.pinned x
        ∙ sym (
            occurrences-same l.lh.n 0 x l.lh.block absorbed.lh.block
              (λ k _ _. absorbed-block ne k));
  }

  occurrences-added :
      (e : index ≡ l.lh.n) (x : ℕ)
      → occurrences (l.lh.n + 1) 0 added.lh.block x
        ≡ occurrences l.lh.n 0 l.lh.block x + (if b == x then 1 else 0)
  occurrences-added e x = ground (
    arith,
    ap (λ k. occurrences k 0 added.lh.block x) (let s : l.lh.n + 1 ≡ suc l.lh.n = omega arith in s),
    occurrences-last l.lh.n 0 x added.lh.block,
    occurrences-same l.lh.n 0 x l.lh.block added.lh.block (λ k _ lt. added-block e k (omega arith)),
    added-new e,
  )

  added-IsPinned : index ≡ l.lh.n → IsPinned l d → IsPinned added (bpin b d)
  added-IsPinned e p = record {
    distinct = λ i j h k. elim (ℕ_discrete j l.lh.n) [
      | yes last ↦
          rw (last, added-new e, added-block e i (omega arith)) (new_block e i (omega arith))
      | no ne ↦
          rw (added-block e i (omega arith), added-block e j (omega arith))
            (p.distinct i j h (omega arith))
    ];
    pinned = λ x. ground (arith, p.pinned x, occurrences-added e x);
  }

  -- A log_write that succeeds keeps the logged blocks distinct and each pinned once, whether it
  -- absorbs the block or adds it.
  pub log_write-IsPinned :
      {l' : Log} {d' : Dev} → log_write b l d ≡ done (l', d') → IsPinned l d → IsPinned l' d'
  log_write-IsPinned {l'} {d'} e p = elim (log_write_cases l' d' e) [
    | inl (ne, el, ed) ↦ rw (el, ed) (absorbed-IsPinned ne p)
    | inr (same, _, _, el, ed) ↦ rw (el, ed) (added-IsPinned same p)
  ]

  -- log_write of a home block keeps a transaction ready to commit.
  pub log_write-IsReady :
      {l' : Log} {d' : Dev}
      → log_write b l d ≡ done (l', d')
      → IsHome l.start l.size b
      → IsReady l d
      → IsReady l' d'
  log_write-IsReady {l'} {d'} e hb r = elim (log_write_cases l' d' e) [
    | inl (ne, el, ed) ↦
        rw (el, ed)
          (record {
            fits = r.fits;
            small = r.small;
            home = λ i h. rw (absorbed-block ne i) (r.home i h);
            empty = r.empty;
          })
    | inr (same, small, fits, el, ed) ↦
        rw (el, ed)
          (record {
            fits = fits;
            small = omega arith;
            home = λ i h. elim (ℕ_discrete i l.lh.n) [
              | yes last ↦ rw (last, added-new same) hb
              | no ne ↦ rw (added-block same i (omega arith)) (r.home i (omega arith))
            ];
            empty = r.empty;
          })
  ]

  index-is_logged : is_logged l.lh.n l.lh.block b ≡ (if index == l.lh.n then false else true)
  index-is_logged = elim (ℕ_discrete index l.lh.n) [
    | yes e ↦ rw (is_logged_none l.lh.n l.lh.block b (new_block e)) (ground arith)
    | no ne ↦
        let lt : index < l.lh.n = omega (arith, index_bounds) in
        let hit = is_logged_at l.lh.n l.lh.block index lt in
        let found : is_logged l.lh.n l.lh.block b ≡ true = rw (index_bounds.1 lt) at hit in
        rw found (ground arith)
  ]

  log_write-new :
      l.lh.n < log_size
      → l.lh.n + 1 < l.size
      → l.outstanding ≢ 0
      → index ≡ l.lh.n
      → log_write b l d ≡ done (added, bpin b d)
  unfolding log_write index
  log_write-new small fits busy e = ground arith

  log_write-known :
      l.lh.n < log_size
      → l.lh.n + 1 < l.size
      → l.outstanding ≢ 0
      → index ≢ l.lh.n
      → log_write b l d ≡ done (absorbed, d)
  unfolding log_write index
  log_write-known small fits busy ne = ground arith

  -- Where the log has room and a system call is in progress, log_write succeeds: the log then has the
  -- block, keeps those that it had, and has one more block exactly if the block was not logged before.
  pub log_write-done :
      l.lh.n < log_size
      → l.lh.n + 1 < l.size
      → l.outstanding ≢ 0
      → (l' : Log) × (d' : Dev) × (i : ℕ) × (log_write b l d ≡ done (l', d'))
        × (l'.lh.n ≡ (if is_logged l.lh.n l.lh.block b then l.lh.n else l.lh.n + 1))
        × (l'.lh.block i ≡ b)
        × (i < l'.lh.n)
        × ((k : ℕ) → k < l.lh.n → l'.lh.block k ≡ l.lh.block k)
        × (l' ≡ record l { lh = l'.lh })
  log_write-done small fits busy = elim (ℕ_discrete index l.lh.n) [
    | yes e ↦ (
      added,
      bpin b d,
      index,
      log_write-new small fits busy e,
      ground (arith, index-is_logged),
      ground arith,
      omega arith,
      λ k h. added-block e k h,
      refl,
    )
    | no ne ↦ (
      absorbed,
      d,
      index,
      log_write-known small fits busy ne,
      ground (arith, index-is_logged),
      ground arith,
      omega (arith, index_bounds),
      λ k h. absorbed-block ne k,
      refl,
    )
  ]

-- install_trans(0) takes back one pin for each time that a block is logged
install-pins :
    (rounds tail start x : ℕ) (block : ℕ → ℕ) (d : Dev)
    → (install_loop rounds tail false start block d).pins x
      ≡ d.pins x - occurrences rounds tail block x
unfolding install_loop
install-pins zero tail start x block d = omega arith
install-pins (suc rounds) tail start x block d = ground (
  arith,
  install-pins rounds (tail + 1) start x block (
      bunpin (block tail)
        (bwrite (block tail) (set_data (block tail) (d.cache (start + tail + 1)) d))),
)

write_log-pins :
    (rounds tail start x : ℕ) (block : ℕ → ℕ) (d : Dev)
    → (write_log_loop rounds tail start block d).pins x ≡ d.pins x
unfolding write_log_loop
write_log-pins zero tail start x block d = refl
write_log-pins (suc rounds) tail start x block d = ground (
  arith,
  write_log-pins rounds (tail + 1) start x block
      (bwrite (start + tail + 1) (set_data (start + tail + 1) (d.cache (block tail)) d)),
)

write_head-pins : (l : Log) (d : Dev) (x : ℕ) → (write_head l d).pins x ≡ d.pins x
unfolding write_head
write_head-pins l d x = ground arith

-- Where the logged blocks are distinct and each pinned once, and no other block is pinned, no block
-- is pinned after a commit.
pub commit-pins : (l : Log) (d : Dev) (x : ℕ) → IsPinned l d → (commit l d).1.pins x ≡ 0
unfolding commit install_trans write_log
commit-pins l d x p =
    let d1 = write_log_loop l.lh.n 0 l.start l.lh.block d in
    ground (
      arith,
      p.pinned x,
      write_log-pins l.lh.n 0 l.start x l.lh.block d,
      write_head-pins l d1 x,
      install-pins l.lh.n 0 l.start x l.lh.block (write_head l d1),
      write_head-pins (clear l) (install_loop l.lh.n 0 false l.start l.lh.block (write_head l d1))
          x,
    )
