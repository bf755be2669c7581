-- ===== src/Fs/Inode/Read/Ends.antt =====
-- The result of readi of kernel/fs.c, against the bytes that were copied.
use oslab.Prelude.{
  ℕ, ◌+◌, ◌-◌, ◌/◌, ◌%◌, ◌<◌, ◌≡◌, ◌⊎◌, inl, inr, ap, ◌∙◌, arith, Option, some, none, min,
}
use oslab.Fs.{Fs, bsize}
use oslab.Fs.Inode.{Inode}
use oslab.Fs.Inode.Slots.{nth}
use oslab.Fs.Inode.Bmap.Growth.{Full}
use oslab.Fs.Inode.Write.Loop.{next_piece}

-- copyout of the bytes of the round after `k` bytes has failed, and what it copied is there
abbrev pub Fails : (ℕ → ℕ → ℕ) → ℕ → ℕ → ℕ → ℕ → Type 0
Fails copyout dst off want got =
    (k : ℕ) × (k < want)
    × (copyout (dst + k) (next_piece off want k) < next_piece off want k)
    × (got ≡ k + copyout (dst + k) (next_piece off want k))

-- The answer: the number of bytes, which are all there, or the next block is missing and no block is free;
-- or -1, if copyout has failed.
abbrev pub Answers : (ℕ → ℕ → ℕ) → ℕ → ℕ → ℕ → ℕ → ℕ → Inode → Fs → Option ℕ → Type 0
Answers copyout dst off tot want got ip s r =
    ((r ≡ some (tot + got)) × ((got ≡ want) ⊎ ((nth ip s ((off + got) / bsize) ≡ 0) × Full s)))
    ⊎ ((r ≡ none) × Fails copyout dst off want got)

Fails-later :
    (copyout : ℕ → ℕ → ℕ) (dst off want rest piece got : ℕ)
    → want ≡ piece + rest
    → Fails copyout (dst + piece) (off + piece) rest got
    → Fails copyout dst off want (piece + got)
Fails-later copyout dst off want rest piece got e (k, lt, short, count) =
    let at : off + piece + k ≡ off + (piece + k) = omega arith in
    let to : dst + piece + k ≡ dst + (piece + k) = omega arith in
    let left : rest - k ≡ want - (piece + k) = omega arith in
    (
      piece + k,
      omega arith,
      rw (← at, ← to, ← left) short,
      rw (← at, ← to, ← left) (omega (arith, count)),
    )

pub Fails-now :
    (copyout : ℕ → ℕ → ℕ) (dst off want : ℕ)
    → 0 < want
    → copyout dst (min want (bsize - off % bsize)) < min want (bsize - off % bsize)
    → Fails copyout dst off want (copyout dst (min want (bsize - off % bsize)))
Fails-now copyout dst off want some_left short =
    let at : off + 0 ≡ off = omega arith in
    let to : dst + 0 ≡ dst = omega arith in
    let left : want - 0 ≡ want = omega arith in
    (0, some_left, rw (at, to, left) short, rw (at, to, left) (omega arith))

pub Answers-Full :
    (copyout : ℕ → ℕ → ℕ) (dst off tot want : ℕ) (ip : Inode) (s : Fs)
    → nth ip s (off / bsize) ≡ 0
    → Full s
    → Answers copyout dst off tot want 0 ip s (some tot)
Answers-Full copyout dst off tot want ip s z full =
    let at : off + 0 ≡ off = omega arith in
    let same : tot ≡ tot + 0 = omega arith in inl (ap some same, inr (rw at z, full))

pub Answers-later :
    (copyout : ℕ → ℕ → ℕ) (dst off tot want rest piece got : ℕ) (ip : Inode) (s : Fs) (r : Option ℕ)
    → want ≡ piece + rest
    → Answers copyout (dst + piece) (off + piece) (tot + piece) rest got ip s r
    → Answers copyout dst off tot want (piece + got) ip s r
Answers-later copyout dst off tot want rest piece got ip s r e why =
    let at : off + piece + got ≡ off + (piece + got) = omega arith in
    let total : tot + piece + got ≡ tot + (piece + got) = omega arith in
    elim why [
      | inl (eq, inl all) ↦ inl (eq ∙ ap some total, inl (omega arith))
      | inl (eq, inr (z, full)) ↦ inl (eq ∙ ap some total, inr (rw (← at) z, full))
      | inr (eq, fails) ↦ inr (eq, Fails-later copyout dst off want rest piece got e fails)
    ]
