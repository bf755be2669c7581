-- ===== src/Bio/Unique.antt =====
-- bget and brelse of kernel/bio.c: a block has one buffer, and the buffer that is used again is the one
-- not used for the longest time.
use oslab.Prelude.{
  ℕ, ◌<◌, ◌≡◌, ◌≢◌, ◌⊎◌, inl, inr, refl, sym, ap, ◌∙◌, true, false, ◌&&◌, ◌||◌, ◌∷◌, ◌==◌, arith,
  put, Bool-cases, ℕ_discrete,
}
use oslab.Prelude.Run.{done, panic}
use oslab.Bio.{
  set_buf, nbuf, Buf, Bcache, binit, binit_loop, hit, recycle, bget, brelse, dec_ref, unlink,
}
use oslab.Bio.Order.{has, is_block, LastUnused, has-unlink}

-- The list holds each buffer, and no two of them are the same block of a device. Device 0 does not exist.
pub record IsCache (c : Bcache) : Type 0 where
  pub inside : (i : ℕ) → has c.order i ≡ true → i < nbuf
  pub listed : (i : ℕ) → i < nbuf → has c.order i ≡ true
  pub unique :
      (i j : ℕ)
      → i < nbuf
      → j < nbuf
      → (c.buf i).dev ≢ 0
      → is_block (c.buf i).dev (c.buf i).blockno (c.buf j) ≡ true
      → i ≡ j

-- the three ends of bget
abbrev pub Bget : ℕ → ℕ → Bcache → Type 0
Bget dev blockno c =
    ((i : ℕ) × (bget dev blockno c ≡ done (i, hit i c))
      × (i < nbuf)
      × (is_block dev blockno (c.buf i) ≡ true)
      × IsCache (hit i c))
    ⊎ (((j : ℕ) → j < nbuf → is_block dev blockno (c.buf j) ≡ false)
        × (((i : ℕ) × (bget dev blockno c ≡ done (i, recycle dev blockno i c))
              × LastUnused c.buf c.order i
              × IsCache (recycle dev blockno i c))
            ⊎ ((bget dev blockno c ≡ panic "bget: no buffers")
                × ((j : ℕ) → j < nbuf → (c.buf j).refcnt ≢ 0))))

same_test :
    {a a' d d' b b' n n' : ℕ}
    → a' ≡ a
    → d' ≡ d
    → b' ≡ b
    → n' ≡ n
    → (a' == d' && b' == n') ≡ true
    → (a == d && b == n) ≡ true
same_test e f g h test = rw (← e, ← f, ← g, ← h) test

-- a buffer that stays the same block
module _ (c : Bcache) (i : ℕ) (b : Buf) (v : IsCache c) (d : b.dev ≡ (c.buf i).dev)
    (n : b.blockno ≡ (c.buf i).blockno) where
  dev_kept : (j : ℕ) → (put c.buf i b j).dev ≡ (c.buf j).dev
  dev_kept j = elim (ℕ_discrete i j) [
    | yes e ↦ let here : (i == j) ≡ true = ground arith in rw here (d ∙ ap (λ k. (c.buf k).dev) e)
    | no ne ↦ let there : (i == j) ≡ false = ground arith in rw there refl
  ]

  blockno_kept : (j : ℕ) → (put c.buf i b j).blockno ≡ (c.buf j).blockno
  blockno_kept j = elim (ℕ_discrete i j) [
    | yes e ↦
        let here : (i == j) ≡ true = ground arith in rw here (n ∙ ap (λ k. (c.buf k).blockno) e)
    | no ne ↦ let there : (i == j) ≡ false = ground arith in rw there refl
  ]

  same_block-IsCache : IsCache (set_buf i b c)
  same_block-IsCache = record {
    inside = v.inside;
    listed = v.listed;
    unique = λ j k ltj ltk ne e.
        v.unique j k ltj ltk (rw (← dev_kept j) ne)
          (same_test (dev_kept k) (dev_kept j) (blockno_kept k) (blockno_kept j) e);
  }

-- brelse panics if the caller does not hold the buffer. Otherwise the buffer loses its lock and a
-- reference, no other buffer changes, and with the last reference the buffer becomes the first of the list; a block has one buffer still.
pub brelse_lem :
    (i : ℕ) (c : Bcache)
    → IsCache c
    → i < nbuf
    → (((c.buf i).held ≡ false) × (brelse i c ≡ panic "brelse"))
      ⊎ (((c.buf i).held ≡ true)
          × (c' : Bcache) × (brelse i c ≡ done c')
          × (c'.buf i ≡ record (c.buf i) { refcnt = dec_ref (c.buf i).refcnt; held = false })
          × ((k : ℕ) → k ≢ i → c'.buf k ≡ c.buf k)
          × (dec_ref (c.buf i).refcnt ≡ 0 → c'.order ≡ i ∷ unlink i c.order)
          × (dec_ref (c.buf i).refcnt ≢ 0 → c'.order ≡ c.order)
          × IsCache c')
unfolding brelse
brelse_lem i c v lt = elim (Bool-cases (c.buf i).held) [
  | inr free ↦ inl (free, rw free refl)
  | inl held ↦
      let b = record (c.buf i) { refcnt = dec_ref (c.buf i).refcnt; held = false } in
      let v' = same_block-IsCache c i b v refl refl in
      let self : (i == i) ≡ true = ground arith in
      let released : put c.buf i b i ≡ b = rw self refl in
      let others = λ (k : ℕ) (ne : k ≢ i).
        let other : (i == k) ≡ false = ground arith in
        let kept : put c.buf i b k ≡ c.buf k = rw other refl in kept in
      elim (ℕ_discrete (dec_ref (c.buf i).refcnt) 0) [
        | yes z ↦
            let last : (dec_ref (c.buf i).refcnt == 0) ≡ true = ground arith in
            inr (
              held,
              record (set_buf i b c) { order = i ∷ unlink i c.order },
              rw (held, last) refl,
              released,
              others,
              λ _. refl,
              λ ne. absurd (ne z),
              record {
                inside = λ j h.
                    let h' : (i == j || has c.order j) ≡ true = sym (has-unlink c.order i j) ∙ h in
                    elim (ℕ_discrete i j) [
                      | yes e ↦ rw (← e) lt
                      | no differ ↦ v.inside j (ground arith)
                    ];
                listed = λ j ltj. has-unlink c.order i j ∙ ground (arith, v.listed j ltj);
                unique = v'.unique;
              },
            )
        | no ne ↦
            let more : (dec_ref (c.buf i).refcnt == 0) ≡ false = ground arith in
            inr (
              held,
              set_buf i b c,
              rw (held, more) refl,
              released,
              others,
              λ z. absurd (ne z),
              λ _. refl,
              v',
            )
      ]
]

-- After binit no block has two buffers.
pub binit-IsCache : IsCache binit
unfolding binit binit_loop
binit-IsCache = record {
  inside = λ i h. ground arith;
  listed = λ i lt. ground arith;
  unique = λ i j lti ltj ne e. absurd (ne refl);
}
