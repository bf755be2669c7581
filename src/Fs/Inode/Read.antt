-- ===== src/Fs/Inode/Read.antt =====
-- readi of kernel/fs.c: memory afterwards holds the bytes of the file.
pub mod Ends
pub mod Loop
use oslab.Prelude.{
  ℕ, zero, suc, ◌+◌, ◌-◌, ◌*◌, ◌/◌, ◌%◌, ◌≤◌, ◌<◌, ◌≡◌, ◌≢◌, ◌⊎◌, inl, inr, refl, sym, ap, ◌∙◌,
  true, false, arith, if◌then◌else◌, ◌==◌, ltb, ℕ_discrete, Bool-cases, dec_lt, Option, some, none,
  min,
}
use oslab.Prelude.Run.{done}
use oslab.Fs.{Fs, bsize, uint_mod}
use oslab.Fs.Inode.{Inode, maxfile, bmap, copy, readi_loop, readi}
use oslab.Fs.Inode.Slots.{nth, byte_at, IsFile}
use oslab.Fs.Inode.Bmap.{Mapped, bmap_lem}
use oslab.Fs.Inode.Bmap.Growth.{Full, Grew, Grew-refl, Grew-trans}
use oslab.Fs.Inode.Wrote.{within, joined}
use oslab.Fs.Inode.Write.Loop.{min_facts}
use oslab.Fs.Inode.Read.Ends.{Answers}
use oslab.Fs.Inode.Read.Loop.{Fetched, readi_loop_lem}

-- the number of bytes from `off` on that are asked for and in the file
abbrev pub available : ℕ → ℕ → Inode → ℕ
available off n ip = if ltb ip.size (off + n) then ip.size - off else n

move : {x y : ℕ} (P : ℕ → Type 0) → x ≡ y → P x → P y
move P e p = rw (← e) p

readi_loop-all :
    (meta : ℕ) (copyout : ℕ → ℕ → ℕ) (dst off n : ℕ) (ip : Inode) (s : Fs) (mem : ℕ → ℕ)
    → IsFile meta ip s
    → off + n ≤ maxfile * bsize
    → (got : ℕ) × (r : Option ℕ) × (mem' : ℕ → ℕ) × (ip' : Inode) × (s' : Fs) × (readi_loop
          (n + 1)
          copyout
          dst
          off
          n
          0
          ip
          s
          mem
        ≡ done (r, mem', ip', s'))
      × Fetched meta dst off n got ip ip' s s' mem mem'
      × Answers copyout dst off 0 n got ip' s' r
readi_loop-all meta copyout dst off n ip s mem v inside =
    let (got, r, mem', ip', s', e, fetched, why) =
      readi_loop_lem (n + 1) meta copyout dst off n 0 ip s mem v (omega arith) (omega arith)
        (omega arith) in
    let all : n - 0 ≡ n = omega arith in
    (
      got,
      r,
      mem',
      ip',
      s',
      e,
      move (λ want. Fetched meta dst off want got ip ip' s s' mem mem') all fetched,
      move (λ want. Answers copyout dst off 0 want got ip' s' r) all why,
    )

abbrev pub Readi : ℕ → (ℕ → ℕ → ℕ) → ℕ → ℕ → ℕ → Inode → Fs → (ℕ → ℕ) → Type 0
Readi meta copyout dst off n ip s mem =
    (((ip.size < off) ⊎ (uint_mod ≤ off + n))
      × (readi copyout dst off n ip s mem ≡ done (some 0, mem, ip, s)))
    ⊎ ((off ≤ ip.size)
        × (got : ℕ) × (r : Option ℕ) × (mem' : ℕ → ℕ) × (ip' : Inode) × (s' : Fs) × (readi copyout
              dst off n ip s mem
            ≡ done (r, mem', ip', s'))
        × Fetched meta dst off (available off n ip) got ip ip' s s' mem mem'
        × Answers copyout dst off 0 (available off n ip) got ip' s' r)

-- readi of a file at `off` into memory at `dst` returns 0 and changes nothing if `off` is behind the end
-- of the file or off + n overflows. Otherwise it ends; memory at `dst` then holds the bytes of the file
-- from `off` on, other memory and the bytes of the file are as before. It returns their number, which is
-- that of the bytes asked for and in the file, unless the block of the next byte is missing and none is
-- free; or -1, if copyout of the bytes of the round after some number of them has failed.
pub readi_lem :
    (meta : ℕ) (copyout : ℕ → ℕ → ℕ) (dst off n : ℕ) (ip : Inode) (s : Fs) (mem : ℕ → ℕ)
    → IsFile meta ip s
    → ip.size ≤ maxfile * bsize
    → off < uint_mod
    → n < uint_mod
    → Readi meta copyout dst off n ip s mem
unfolding readi
readi_lem meta copyout dst off n ip s mem v size off_uint n_uint = elim (dec_lt ip.size off) [
  | yes behind ↦
      let refused : ltb ip.size off ≡ true = ground arith in inl (inl behind, rw refused refl)
  | no inside ↦
      let start : ltb ip.size off ≡ false = ground arith in
      elim (dec_lt (off + n) uint_mod) [
        | no large ↦
            let refused : ltb ((off + n) % uint_mod) off ≡ true = ground arith in
            inl (inr (omega arith), rw (start, refused) refl)
        | yes fits ↦
            let sum : (off + n) % uint_mod ≡ off + n = omega arith in
            let up : ltb (off + n) off ≡ false = ground arith in
            let (got, r, mem', ip', s', e, fetched, why) =
              readi_loop-all meta copyout dst off (available off n ip) ip s mem v (ground arith) in
            inr (omega arith, got, r, mem', ip', s', rw (start, sum, up) e, fetched, why)
      ]
]
