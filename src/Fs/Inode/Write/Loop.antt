-- ===== src/Fs/Inode/Write/Loop.antt =====
-- The loop of writei of kernel/fs.c.
use oslab.Prelude.{
  ℕ, zero, suc, ◌+◌, ◌-◌, ◌*◌, ◌/◌, ◌%◌, ◌≤◌, ◌<◌, ◌≡◌, ◌≢◌, ◌⊎◌, inl, inr, refl, ◌∙◌, true, false,
  arith, ◌==◌, ltb, ℕ_discrete, dec_lt, min,
}
use oslab.Prelude.Run.{done}
use oslab.Fs.{Fs, bsize, log_write, set_block}
use oslab.Fs.Bits.{IsBytes}
use oslab.Fs.Inode.{Inode, maxfile, bmap, copy, writei_loop}
use oslab.Fs.Inode.Slots.{nth, IsFile}
use oslab.Fs.Inode.Bmap.{Mapped, bmap_lem}
use oslab.Fs.Inode.Bmap.Growth.{Full, Grew-refl}
use oslab.Fs.Inode.Wrote.{Wrote, Grew-Wrote, copy-Wrote, Wrote-trans, Wrote-uncounted}

-- the bytes of the round after `got` bytes: to the end of the block, or all that are left
abbrev pub next_piece : ℕ → ℕ → ℕ → ℕ
next_piece off want got = min (want - got) (bsize - (off + got) % bsize)

-- why `got` of `want` bytes are written: the next block is missing and no block is free, or copyin of the
-- bytes of the next round has failed
abbrev pub Stops : (ℕ → ℕ → ℕ) → ℕ → ℕ → ℕ → ℕ → Inode → Fs → Type 0
Stops copyin src off want got ip s =
    ((nth ip s ((off + got) / bsize) ≡ 0) × Full s)
    ⊎ (copyin (src + got) (next_piece off want got) < next_piece off want got)

Stops-later :
    (copyin : ℕ → ℕ → ℕ) (src off want rest piece got : ℕ) (ip : Inode) (s : Fs)
    → want ≡ piece + rest
    → Stops copyin (src + piece) (off + piece) rest got ip s
    → Stops copyin src off want (piece + got) ip s
Stops-later copyin src off want rest piece got ip s e stops =
    let at : off + piece + got ≡ off + (piece + got) = omega arith in
    let from : src + piece + got ≡ src + (piece + got) = omega arith in
    let left : rest - got ≡ want - (piece + got) = omega arith in
    elim stops [
      | inl (z, full) ↦ inl (rw (← at) z, full)
      | inr short ↦ inr (rw (← at, ← from, ← left) short)
    ]

Stops-now :
    (copyin : ℕ → ℕ → ℕ) (src off want : ℕ) (ip : Inode) (s : Fs)
    → ((nth ip s (off / bsize) ≡ 0) × Full s)
      ⊎ (copyin src (min want (bsize - off % bsize)) < min want (bsize - off % bsize))
    → Stops copyin src off want 0 ip s
Stops-now copyin src off want ip s stops =
    let at : off + 0 ≡ off = omega arith in
    let from : src + 0 ≡ src = omega arith in
    let left : want - 0 ≡ want = omega arith in rw (at, from, left) stops

-- the size of a round
pub min_facts : (a b : ℕ) → (min a b ≤ a) × (min a b ≤ b) × (0 < a → 0 < b → 0 < min a b)
min_facts a b = (omega arith, omega arith, λ l r. omega (arith, l, r))

abbrev Writes : ℕ → ℕ → (ℕ → ℕ → ℕ) → (ℕ → ℕ) → ℕ → ℕ → ℕ → ℕ → Inode → Fs → Type 0
Writes rounds meta copyin mem src off n tot ip s =
    (got : ℕ) × (ip' : Inode) × (s' : Fs) × (writei_loop rounds copyin mem src off n tot ip s
      ≡ done (tot + got, off + got, ip', s'))
    × Wrote meta mem src off (n - tot) got ip ip' s s'
    × ((got ≡ n - tot) ⊎ Stops copyin src off (n - tot) got ip' s')

found :
    {meta : ℕ} {mem : ℕ → ℕ} {src off : ℕ} {ip : Inode} {s : Fs} (rounds : ℕ) (copyin : ℕ → ℕ → ℕ)
    (n tot got tot' off' want : ℕ) (ip' : Inode) (s' : Fs)
    → tot' ≡ tot + got
    → off' ≡ off + got
    → want ≡ n - tot
    → writei_loop rounds copyin mem src off n tot ip s ≡ done (tot', off', ip', s')
    → Wrote meta mem src off want got ip ip' s s'
    → (got ≡ n - tot) ⊎ Stops copyin src off (n - tot) got ip' s'
    → Writes rounds meta copyin mem src off n tot ip s
found rounds copyin n tot got tot' off' want ip' s' et eo ew e wrote why =
    (got, ip', s', rw (← et, ← eo) e, rw (← ew) wrote, why)

-- one round, once bmap has returned
module _ (rounds : ℕ) (copyin : ℕ → ℕ → ℕ) (mem : ℕ → ℕ) (src off n tot : ℕ) (ip ip' : Inode)
    (s s' : Fs) (a : ℕ) (more : tot < n) (e : bmap ip (off / bsize) s ≡ done (a, ip', s')) where
  abbrev piece : ℕ
  piece = min (n - tot) (bsize - off % bsize)

  abbrev with_piece : ℕ → Fs
  with_piece c = set_block a (copy (s'.data_of a) (off % bsize) mem src c) s'

  round-full :
      a ≡ 0 → writei_loop (suc rounds) copyin mem src off n tot ip s ≡ done (tot, off, ip', s')
  unfolding writei_loop
  round-full z =
      let go : ltb tot n ≡ true = ground arith in
      let none_free : (a == 0) ≡ true = ground arith in rw (go, e, none_free) refl

  round-fails :
      a ≢ 0
      → copyin src piece < piece
      → writei_loop (suc rounds) copyin mem src off n tot ip s
        ≡ done (tot, off, ip', with_piece (copyin src piece))
  unfolding writei_loop
  round-fails ne short =
      let go : ltb tot n ≡ true = ground arith in
      let there : (a == 0) ≡ false = ground arith in
      let fails : ltb (copyin src piece) piece ≡ true = ground arith in
      rw (go, e, there, fails) refl

  round-goes_on :
      a ≢ 0
      → (copyin src piece < piece → ⊥)
      → writei_loop (suc rounds) copyin mem src off n tot ip s
        ≡ writei_loop rounds copyin mem
            (src + piece)
            (off + piece)
            n
            (tot + piece)
            ip'
            (log_write a (with_piece piece))
  unfolding writei_loop
  round-goes_on ne long =
      let go : ltb tot n ≡ true = ground arith in
      let there : (a == 0) ≡ false = ground arith in
      let succeeds : ltb (copyin src piece) piece ≡ false = ground arith in
      rw (go, e, there, succeeds) refl

  module _ (meta : ℕ) (v : IsFile meta ip s) (ok : IsBytes mem)
      (inside : off + (n - tot) ≤ maxfile * bsize)
      (mapped : Mapped meta (off / bsize) a ip ip' s s') where
    Writes-full : a ≡ 0 → Writes (suc rounds) meta copyin mem src off n tot ip s
    Writes-full z =
        found (suc rounds) copyin n tot 0 tot off (n - tot) ip' s' (omega arith) (omega arith) refl
          (round-full z) (Grew-Wrote mem src off (n - tot) mapped.grew)
          (inr (Stops-now copyin src off (n - tot) ip' s' (inl (mapped.at ∙ z, mapped.full z))))

    Writes-fails :
        a ≢ 0 → copyin src piece < piece → Writes (suc rounds) meta copyin mem src off n tot ip s
    Writes-fails ne short =
        let (few, fits, _) = min_facts (n - tot) (bsize - off % bsize) in
        let wrote =
          copy-Wrote meta (copyin src piece) mem src off ip ip' s s' (with_piece (copyin src piece))
            a mapped.grew ok (omega arith) (omega (arith, fits, short)) mapped.at ne refl refl in
        found (suc rounds) copyin n tot 0 tot off (n - tot) ip' (with_piece (copyin src piece))
          (omega arith) (omega arith) refl (round-fails ne short)
          (Wrote-uncounted (n - tot) wrote (omega (arith, few, short)))
          (inr (Stops-now copyin src off (n - tot) ip' (with_piece (copyin src piece)) (inr short)))

    Writes-goes_on :
        a ≢ 0
        → (copyin src piece < piece → ⊥)
        → (IsFile meta ip' (log_write a (with_piece piece))
            → 0 < piece
            → piece ≤ n - tot
            → Writes rounds meta copyin mem
                (src + piece)
                (off + piece)
                n
                (tot + piece)
                ip'
                (log_write a (with_piece piece)))
        → Writes (suc rounds) meta copyin mem src off n tot ip s
    unfolding log_write
    Writes-goes_on ne long rest =
        let (few, fits, some_left) = min_facts (n - tot) (bsize - off % bsize) in
        let first =
          copy-Wrote meta piece mem src off ip ip' s s' (log_write a (with_piece piece)) a
            mapped.grew ok (omega arith) fits mapped.at ne refl refl in
        let (got, ip'', s'', e', others, why) =
          rest first.file (some_left (omega arith) (omega arith)) few in
        found (suc rounds) copyin n tot (piece + got) (tot + piece + got) (off + piece + got)
          (piece + (n - (tot + piece))) ip'' s'' (omega arith) (omega arith) (omega (arith, few))
          (round-goes_on ne long ∙ e') (Wrote-trans first others)
          (elim why [
            | inl all ↦ inl (omega (arith, few))
            | inr stops ↦ inr (
                Stops-later copyin src off (n - tot) (n - (tot + piece)) piece got ip'' s''
                  (omega (arith, few)) stops)
          ])

-- Enough rounds are given if there is more than one for each byte.
pub writei_loop_lem :
    (rounds meta : ℕ) (copyin : ℕ → ℕ → ℕ) (mem : ℕ → ℕ) (src off n tot : ℕ) (ip : Inode) (s : Fs)
    → IsFile meta ip s
    → IsBytes mem
    → tot ≤ n
    → n - tot < rounds
    → off + (n - tot) ≤ maxfile * bsize
    → Writes rounds meta copyin mem src off n tot ip s
unfolding writei_loop
writei_loop_lem zero meta copyin mem src off n tot ip s v ok le fuel inside = absurd (omega arith)
writei_loop_lem (suc rounds) meta copyin mem src off n tot ip s v ok le fuel inside =
    elim (dec_lt tot n) [
      | no all ↦
          let stop : ltb tot n ≡ false = ground arith in
          found (suc rounds) copyin n tot 0 tot off (n - tot) ip s (omega arith) (omega arith) refl
            (rw stop refl) (Grew-Wrote mem src off (n - tot) (Grew-refl meta ip s v))
            (inl (omega arith))
      | yes more ↦
          let (a, ip1, s1, e, mapped) = bmap_lem meta ip (off / bsize) s v (omega arith) in
          let m = min (n - tot) (bsize - off % bsize) in
          elim (ℕ_discrete a 0) [
            | yes z ↦
                Writes-full rounds copyin mem src off n tot ip ip1 s s1 a more e meta v ok inside
                  mapped z
            | no ne ↦ elim (dec_lt (copyin src m) m) [
              | yes short ↦
                  Writes-fails rounds copyin mem src off n tot ip ip1 s s1 a more e meta v ok inside
                    mapped ne short
              | no long ↦
                  Writes-goes_on rounds copyin mem src off n tot ip ip1 s s1 a more e meta v ok
                    inside mapped ne long
                    (λ file some_left few.
                      writei_loop_lem rounds meta copyin mem (src + m) (off + m) n (tot + m) ip1
                        (log_write a (set_block a (copy (s1.data_of a) (off % bsize) mem src m) s1))
                        file ok (omega (arith, few)) (omega (arith, few, some_left))
                        (omega (arith, few)))
            ]
          ]
    ]
