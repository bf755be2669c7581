-- ===== src/Fs/Inode/RoundTrip.antt =====
-- writei and readi of kernel/fs.c, one after the other.
use oslab.Prelude.{
  ℕ, ◌+◌, ◌-◌, ◌*◌, ◌/◌, ◌≤◌, ◌<◌, ◌≡◌, ◌≢◌, ◌⊎◌, inl, inr, refl, sym, ap, ◌∙◌, true, arith, dec_lt,
  some,
}
use oslab.Prelude.Run.{done}
use oslab.Fs.{Fs, bsize}
use oslab.Fs.Bits.{IsBytes}
use oslab.Fs.Inode.{Inode, maxfile, writei, readi}
use oslab.Fs.Inode.Slots.{nth, byte_at, IsFile}
use oslab.Fs.Inode.Bmap.Growth.{Full, Grew}
use oslab.Fs.Inode.Wrote.{within}
use oslab.Fs.Inode.Write.Loop.{next_piece, Stops}
use oslab.Fs.Inode.Write.{Written, writei_lem}
use oslab.Fs.Inode.Read.{available, readi_lem}

-- readi of the bytes that were written
abbrev pub Rereads : (ℕ → ℕ → ℕ) → (ℕ → ℕ) → ℕ → ℕ → ℕ → ℕ → Inode → Fs → (ℕ → ℕ) → Type 0
Rereads copyout mem src dst off got ip s buf =
    (buf' : ℕ → ℕ) × (ip' : Inode) × (s' : Fs) × (readi copyout dst off got ip s buf
      ≡ done (some got, buf', ip', s'))
    × ((i : ℕ) → i < got → buf' (dst + i) ≡ mem (src + i))

module _ (meta : ℕ) (copyin copyout : ℕ → ℕ → ℕ) (mem : ℕ → ℕ) (src dst off n got : ℕ)
    (ip ip' : Inode) (s s' : Fs) (buf : ℕ → ℕ) (reaches : (a m : ℕ) → m ≤ copyout a m)
    (inside : off + n ≤ maxfile * bsize) (size : ip.size ≤ maxfile * bsize)
    (w : Written meta copyin mem src off n got ip ip' s s') where
  in_file : off + got ≤ ip'.size
  in_file = ground (arith, w.size')

  fits : ip'.size ≤ maxfile * bsize
  fits = ground (arith, w.size', w.few)

  written_byte : (i : ℕ) → i < got → byte_at ip' s' (off + i) ≡ mem (src + i)
  written_byte i lt =
      let there : within off got (off + i) ≡ true = ground arith in
      let place : off + i - off ≡ i = omega arith in
      elim (w.content (off + i) (omega (arith, w.few))) [
        | inl e ↦ e ∙ rw (there, place) refl
        | inr (late, _) ↦ absurd (ground arith)
      ]

  all_there : available off got ip' ≡ got
  all_there = ground (arith, in_file)

  -- no block is missing where the bytes are read
  no_gap :
      (count : ℕ) (ip'' : Inode) (s'' : Fs)
      → Grew meta ip' ip'' s' s''
      → count < got
      → nth ip'' s'' ((off + count) / bsize) ≢ 0
  no_gap count ip'' s'' g lt gone =
      let here : within off got (off + count) ≡ true = ground arith in
      let there = w.present (off + count) (omega (arith, w.few)) here in
      elim (g.place ((off + count) / bsize) (omega (arith, w.few))) [
        | inl same ↦ there (sym same ∙ gone)
        | inr (z, _, _) ↦ there z
      ]

  whole :
      (count : ℕ) (ip'' : Inode) (s'' : Fs)
      → Grew meta ip' ip'' s' s''
      → count ≤ available off got ip'
      → (count ≡ available off got ip') ⊎ ((nth ip'' s'' ((off + count) / bsize) ≡ 0) × Full s'')
      → count ≡ got
  whole count ip'' s'' g le why = elim why [
    | inl all ↦ all ∙ all_there
    | inr (gone, _) ↦ elim (dec_lt count got) [
      | yes lt ↦ absurd (no_gap count ip'' s'' g lt gone)
      | no all ↦ omega (arith, le, all_there)
    ]
  ]

  rereads : Rereads copyout mem src dst off got ip' s' buf
  rereads =
      elim (readi_lem meta copyout dst off got ip' s' buf w.file fits (omega arith)
        (omega (arith, w.few))) [
          | inl (inl behind, _) ↦ absurd (omega (arith, in_file))
          | inl (inr large, _) ↦ absurd (omega (arith, w.few))
          | inr (_, count, r, buf', ip'', s'', e, fetched, inr (_, fails)) ↦
              let (k, _, short, _) = fails in
              absurd
                (omega (arith, short, reaches (dst + k) (next_piece off (available off got ip') k)))
          | inr (_, count, r, buf', ip'', s'', e, fetched, inl (answer, why)) ↦
              let every = whole count ip'' s'' fetched.grew fetched.few why in
              let number : 0 + count ≡ got = omega (arith, every) in
              (
                buf',
                ip'',
                s'',
                e ∙ ap (λ c. done (c, buf', ip'', s'')) (answer ∙ ap some number),
                λ i lt.
                    let there : within dst count (dst + i) ≡ true = ground (arith, every) in
                    let place : dst + i - dst ≡ i = omega arith in
                    fetched.memory (dst + i) ∙ rw (there, place) (written_byte i lt),
              )
        ]

-- If writei does not refuse, then readi of the bytes that it wrote, at the same place, into memory that can
-- be written returns their number, and the memory read into holds the bytes of the memory that was written.
-- All bytes are written, unless behind them a block is missing and none is free, or copyin of the bytes of
-- the next round has failed.
pub readi-writei :
    (meta : ℕ) (copyin copyout : ℕ → ℕ → ℕ) (mem : ℕ → ℕ) (src dst off n : ℕ) (ip : Inode) (s : Fs)
    (buf : ℕ → ℕ)
    → IsFile meta ip s
    → IsBytes mem
    → ((a m : ℕ) → m ≤ copyout a m)
    → ip.size ≤ maxfile * bsize
    → off ≤ ip.size
    → off + n ≤ maxfile * bsize
    → (got : ℕ) × (ip' : Inode) × (s' : Fs) × (writei copyin mem src off n ip s
        ≡ done (some got, ip', s'))
      × ((got ≡ n) ⊎ Stops copyin src off n got ip' s')
      × Rereads copyout mem src dst off got ip' s' buf
readi-writei meta copyin copyout mem src dst off n ip s buf v ok reaches size start inside =
    elim (writei_lem meta copyin mem src off n ip s v ok (omega arith) (omega arith)) [
      | inl (inl behind, _) ↦ absurd (omega arith)
      | inl (inr large, _) ↦ absurd (omega arith)
      | inr (_, _, got, ip', s', e, w) ↦ (
        got,
        ip',
        s',
        e,
        w.why,
        rereads meta copyin copyout mem src dst off n got ip ip' s s' buf reaches inside size w,
      )
    ]
