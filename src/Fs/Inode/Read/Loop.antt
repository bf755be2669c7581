-- ===== src/Fs/Inode/Read/Loop.antt =====
-- The loop of readi of kernel/fs.c.
use oslab.Prelude.{
  ℕ, zero, suc, ◌+◌, ◌-◌, ◌*◌, ◌/◌, ◌%◌, ◌≤◌, ◌<◌, ◌≡◌, ◌≢◌, inl, inr, refl, sym, ap, ◌∙◌, true,
  false, arith, if◌then◌else◌, ◌==◌, ltb, ℕ_discrete, Bool-cases, dec_lt, Option, some, none, min,
}
use oslab.Prelude.Run.{done}
use oslab.Fs.{Fs, bsize}
use oslab.Fs.Inode.{Inode, maxfile, bmap, copy, readi_loop}
use oslab.Fs.Inode.Slots.{nth, byte_at, IsFile}
use oslab.Fs.Inode.Bmap.{Mapped, bmap_lem}
use oslab.Fs.Inode.Bmap.Growth.{Grew, Grew-refl, Grew-trans}
use oslab.Fs.Inode.Wrote.{within, joined}
use oslab.Fs.Inode.Write.Loop.{min_facts}
use oslab.Fs.Inode.Read.Ends.{Fails-now, Answers, Answers-Full, Answers-later}

-- Memory after `got` bytes of the file at `off` were copied to `dst`; the file is as before.
pub record Fetched (meta dst off want got : ℕ) (ip ip' : Inode) (s s' : Fs) (mem mem' : ℕ → ℕ)
    : Type 0 where
  pub grew : Grew meta ip ip' s s'
  pub few : got ≤ want
  pub memory :
      (a : ℕ) → mem' a ≡ (if within dst got a then byte_at ip s (off + (a - dst)) else mem a)

Fetched-none :
    {meta : ℕ} {ip ip' : Inode} {s s' : Fs} (dst off want : ℕ) (mem : ℕ → ℕ)
    → Grew meta ip ip' s s'
    → Fetched meta dst off want 0 ip ip' s s' mem mem
Fetched-none dst off want mem g = record {
  grew = g;
  few = omega arith;
  memory = λ a. let outside : within dst 0 a ≡ false = ground arith in rw outside refl;
}

Fetched-piece :
    {meta : ℕ} {ip ip' : Inode} {s s' : Fs} (dst off want c b : ℕ) (mem : ℕ → ℕ)
    → Grew meta ip ip' s s'
    → nth ip' s' (off / bsize) ≡ b
    → b ≢ 0
    → c ≤ bsize - off % bsize
    → c ≤ want
    → off + c ≤ maxfile * bsize
    → Fetched meta dst off want c ip ip' s s' mem (copy mem dst (s'.data_of b) (off % bsize) c)
Fetched-piece {ip} {ip'} {s} {s'} dst off want c b mem g at ne fits few inside = record {
  grew = g;
  few = few;
  memory = λ a. elim (Bool-cases (within dst c a)) [
    | inr e ↦ rw e refl
    | inl e ↦
        let low : dst ≤ a = ground arith in
        let high : a < dst + c = ground arith in
        let block : (off + (a - dst)) / bsize ≡ off / bsize = omega arith in
        let byte : (off + (a - dst)) % bsize ≡ off % bsize + (a - dst) = omega arith in
        let there : (b == 0) ≡ false = ground arith in
        let same : byte_at ip' s' (off + (a - dst)) ≡ s'.data_of b (off % bsize + (a - dst)) =
          rw (block, byte, at, there) refl in
        rw e (sym same ∙ g.content (off + (a - dst)) (omega arith))
  ];
}

Fetched-trans :
    {meta : ℕ} {ip ip' ip'' : Inode} {s s' s'' : Fs} {mem mem' mem'' : ℕ → ℕ}
    (dst off m want got : ℕ)
    → off + (m + want) ≤ maxfile * bsize
    → Fetched meta dst off (m + want) m ip ip' s s' mem mem'
    → Fetched meta (dst + m) (off + m) want got ip' ip'' s' s'' mem' mem''
    → Fetched meta dst off (m + want) (m + got) ip ip'' s s'' mem mem''
Fetched-trans {ip} {ip'} {s} {s'} {mem} {mem'} {mem''} dst off m want got inside g h = record {
  grew = Grew-trans g.grew h.grew;
  few = omega (arith, h.few);
  memory = λ a. joined (byte_at ip s) off dst m got a (mem a) (mem' a) (mem'' a) (g.memory a) (
      h.memory a ∙ elim (Bool-cases (within (dst + m) got a)) [
        | inr e ↦ rw e refl
        | inl e ↦
            let low : dst + m ≤ a = ground arith in
            let high : a < dst + m + got = ground arith in
            rw e (g.grew.content (off + m + (a - (dst + m))) (omega (arith, h.few)))
      ]);
}

joined_fetch :
    {meta : ℕ} {ip ip' ip'' : Inode} {s s' s'' : Fs} {mem mem' mem'' : ℕ → ℕ}
    (dst off m got want rest : ℕ)
    → want ≡ m + rest
    → off + want ≤ maxfile * bsize
    → Fetched meta dst off want m ip ip' s s' mem mem'
    → Fetched meta (dst + m) (off + m) rest got ip' ip'' s' s'' mem' mem''
    → Fetched meta dst off want (m + got) ip ip'' s s'' mem mem''
joined_fetch dst off m got want rest e inside g h =
    rw e (Fetched-trans dst off m rest got (rw (← e) inside) (rw (← e) g) h)

abbrev Reads : ℕ → ℕ → (ℕ → ℕ → ℕ) → ℕ → ℕ → ℕ → ℕ → Inode → Fs → (ℕ → ℕ) → Type 0
Reads rounds meta copyout dst off n tot ip s mem =
    (got : ℕ) × (r : Option ℕ) × (mem' : ℕ → ℕ) × (ip' : Inode) × (s' : Fs) × (readi_loop rounds
        copyout dst off n tot ip s mem
      ≡ done (r, mem', ip', s'))
    × Fetched meta dst off (n - tot) got ip ip' s s' mem mem'
    × Answers copyout dst off tot (n - tot) got ip' s' r

-- one round, once bmap has returned
module _ (rounds : ℕ) (copyout : ℕ → ℕ → ℕ) (dst off n tot : ℕ) (ip ip' : Inode) (s s' : Fs)
    (mem : ℕ → ℕ) (a : ℕ) (more : tot < n) (e : bmap ip (off / bsize) s ≡ done (a, ip', s')) where
  abbrev piece : ℕ
  piece = min (n - tot) (bsize - off % bsize)

  abbrev with_piece : ℕ → ℕ → ℕ
  with_piece c = copy mem dst (s'.data_of a) (off % bsize) c

  round-full :
      a ≡ 0 → readi_loop (suc rounds) copyout dst off n tot ip s mem ≡ done (some tot, mem, ip', s')
  unfolding readi_loop
  round-full z =
      let go : ltb tot n ≡ true = ground arith in
      let none_free : (a == 0) ≡ true = ground arith in rw (go, e, none_free) refl

  round-fails :
      a ≢ 0
      → copyout dst piece < piece
      → readi_loop (suc rounds) copyout dst off n tot ip s mem
        ≡ done (none, with_piece (copyout dst piece), ip', s')
  unfolding readi_loop
  round-fails ne short =
      let go : ltb tot n ≡ true = ground arith in
      let there : (a == 0) ≡ false = ground arith in
      let fails : ltb (copyout dst piece) piece ≡ true = ground arith in
      rw (go, e, there, fails) refl

  round-goes_on :
      a ≢ 0
      → (copyout dst piece < piece → ⊥)
      → readi_loop (suc rounds) copyout dst off n tot ip s mem
        ≡ readi_loop rounds copyout
            (dst + piece)
            (off + piece)
            n
            (tot + piece)
            ip'
            s'
            (with_piece piece)
  unfolding readi_loop
  round-goes_on ne long =
      let go : ltb tot n ≡ true = ground arith in
      let there : (a == 0) ≡ false = ground arith in
      let succeeds : ltb (copyout dst piece) piece ≡ false = ground arith in
      rw (go, e, there, succeeds) refl

  module _ (meta : ℕ) (v : IsFile meta ip s) (inside : off + (n - tot) ≤ maxfile * bsize)
      (mapped : Mapped meta (off / bsize) a ip ip' s s') where
    Reads-full : a ≡ 0 → Reads (suc rounds) meta copyout dst off n tot ip s mem
    Reads-full z = (
      0,
      some tot,
      mem,
      ip',
      s',
      round-full z,
      Fetched-none dst off (n - tot) mem mapped.grew,
      Answers-Full copyout dst off tot (n - tot) ip' s' (mapped.at ∙ z) (mapped.full z),
    )

    Reads-fails :
        a ≢ 0 → copyout dst piece < piece → Reads (suc rounds) meta copyout dst off n tot ip s mem
    Reads-fails ne short =
        let (few, fits, _) = min_facts (n - tot) (bsize - off % bsize) in
        (
          copyout dst piece,
          none,
          with_piece (copyout dst piece),
          ip',
          s',
          round-fails ne short,
          Fetched-piece dst off (n - tot) (copyout dst piece) a mem mapped.grew mapped.at ne
              (omega (arith, fits, short)) (omega (arith, few, short)) (omega (arith, few, short)),
          inr (refl, Fails-now copyout dst off (n - tot) (omega arith) short),
        )

    Reads-goes_on :
        a ≢ 0
        → (copyout dst piece < piece → ⊥)
        → (0 < piece
            → piece ≤ n - tot
            → Reads rounds meta copyout
                (dst + piece)
                (off + piece)
                n
                (tot + piece)
                ip'
                s'
                (with_piece piece))
        → Reads (suc rounds) meta copyout dst off n tot ip s mem
    Reads-goes_on ne long rest =
        let (few, fits, some_left) = min_facts (n - tot) (bsize - off % bsize) in
        let all : n - tot ≡ piece + (n - (tot + piece)) = omega (arith, few) in
        let first =
          Fetched-piece dst off (n - tot) piece a mem mapped.grew mapped.at ne fits few
            (omega (arith, few)) in
        let (got, r, mem', ip'', s'', e', others, why) =
          rest (some_left (omega arith) (omega arith)) few in
        (
          piece + got,
          r,
          mem',
          ip'',
          s'',
          round-goes_on ne long ∙ e',
          joined_fetch dst off piece got (n - tot) (n - (tot + piece)) all (omega (arith, few))
              first others,
          Answers-later copyout dst off tot (n - tot) (n - (tot + piece)) piece got ip'' s'' r all
              why,
        )

-- Enough rounds are given if there is more than one for each byte.
pub readi_loop_lem :
    (rounds meta : ℕ) (copyout : ℕ → ℕ → ℕ) (dst off n tot : ℕ) (ip : Inode) (s : Fs) (mem : ℕ → ℕ)
    → IsFile meta ip s
    → tot ≤ n
    → n - tot < rounds
    → off + (n - tot) ≤ maxfile * bsize
    → Reads rounds meta copyout dst off n tot ip s mem
unfolding readi_loop
readi_loop_lem zero meta copyout dst off n tot ip s mem v le fuel inside = absurd (omega arith)
readi_loop_lem (suc rounds) meta copyout dst off n tot ip s mem v le fuel inside =
    elim (dec_lt tot n) [
      | no all ↦
          let stop : ltb tot n ≡ false = ground arith in
          let same : tot ≡ tot + 0 = omega arith in
          (
            0,
            some tot,
            mem,
            ip,
            s,
            rw stop refl,
            Fetched-none dst off (n - tot) mem (Grew-refl meta ip s v),
            inl (ap some same, inl (omega arith)),
          )
      | yes more ↦
          let (a, ip1, s1, e, mapped) = bmap_lem meta ip (off / bsize) s v (omega arith) in
          let m = min (n - tot) (bsize - off % bsize) in
          elim (ℕ_discrete a 0) [
            | yes z ↦
                Reads-full rounds copyout dst off n tot ip ip1 s s1 mem a more e meta v inside
                  mapped z
            | no ne ↦ elim (dec_lt (copyout dst m) m) [
              | yes short ↦
                  Reads-fails rounds copyout dst off n tot ip ip1 s s1 mem a more e meta v inside
                    mapped ne short
              | no long ↦
                  Reads-goes_on rounds copyout dst off n tot ip ip1 s s1 mem a more e meta v inside
                    mapped ne long
                    (λ some_left few.
                      readi_loop_lem rounds meta copyout (dst + m) (off + m) n (tot + m) ip1 s1
                        (copy mem dst (s1.data_of a) (off % bsize) m) mapped.grew.file
                        (omega (arith, few)) (omega (arith, few, some_left)) (omega (arith, few)))
            ]
          ]
    ]
