-- ===== src/Pipe/History.antt =====
-- Whole calls of kernel/pipe.c among those of other processes: what is read is what was written.
use oslab.Prelude.{
  ℕ, ◌+◌, ◌-◌, ◌≤◌, ◌<◌, ◌≡◌, ◌≢◌, ◌⊎◌, inl, inr, refl, ◌∙◌, Bool, true, false, Option, none, some,
  List, [], ◌∷◌, ◌++◌, arith, ℕ_discrete,
}
use mathlib.Core.List.{append_assoc}
use oslab.Pipe.{
  pipe_size, Pipe, pipeclose, WritePass, left_loop, sleeps, refused, write_pass, Called, returned,
  asleep, Sleep, after_pass, pipewrite_from, pipewrite, ReadPass, read_sleeps, read_refused, copied,
  read_pass, read_copy,
}
use oslab.Pipe.Queue.{held, contents, IsValid}
use oslab.Pipe.Burst.{sent, Spares, Writes, write_pass-Writes, Reads, read_copy-Reads}

-- A pass of some process over the pipe: one of pipewrite from byte `i` on, one of piperead, or a
-- pipeclose.
pub data Act : Type 0 where
  write_act : (ℕ → Option ℕ) → (ℕ → Bool) → (addr left i : ℕ) → Act
  read_act : (ℕ → Bool) → Bool → (addr n : ℕ) → Act
  close_act : Bool → Act

-- the pipe, all bytes that were written to it, and all that were taken from it
pub record History : Type 0 where
  pub pipe : Pipe
  pub written : List ℕ
  pub taken : List ℕ

after_write : History → (ℕ → Option ℕ) → ℕ → ℕ → WritePass → History
after_write h copyin addr i (left_loop j pi) = record h {
  pipe = pi;
  written = h.written ++ sent copyin (addr + i) (j - i);
}
after_write h copyin addr i (sleeps j pi) = record h {
  pipe = pi;
  written = h.written ++ sent copyin (addr + i) (j - i);
}
after_write h copyin addr i (refused j pi) = record h {
  pipe = pi;
  written = h.written ++ sent copyin (addr + i) (j - i);
}

after_read : History → ReadPass → History
after_read h (read_sleeps pi) = record h { pipe = pi }
after_read h (read_refused pi) = record h { pipe = pi }
after_read h (copied (i, got, lost, pi)) = record h { pipe = pi; taken = h.taken ++ (got ++ lost) }

act : History → Act → History
unfolding after_write after_read
act h (write_act copyin killed addr left i) =
    after_write h copyin addr i (write_pass left copyin killed addr i h.pipe)
act h (read_act copyout killed addr n) = after_read h (read_pass n copyout killed addr h.pipe)
act h (close_act writable) = record h { pipe = (pipeclose h.pipe writable).0 }

pub acts : History → List Act → History
unfolding act
acts h [] = h
acts h (a ∷ later) = acts (act h a) later

-- What was written is what was taken, followed by what the pipe holds.
pub record IsFifo (h : History) : Type 0 where
  pub valid : IsValid h.pipe
  pub order : h.written ≡ h.taken ++ contents h.pipe

written_more :
    (h : History) (more : List ℕ) (pi : Pipe)
    → IsFifo h
    → contents pi ≡ contents h.pipe ++ more
    → h.written ++ more ≡ h.taken ++ contents pi
written_more h more pi f e = rw (f.order, e) (append_assoc h.taken (contents h.pipe) more)

after_write-IsFifo :
    (h : History) (copyin : ℕ → Option ℕ) (killed : ℕ → Bool) (addr left i : ℕ) (r : WritePass)
    → IsFifo h
    → Writes copyin killed addr left i h.pipe r
    → IsFifo (after_write h copyin addr i r)
unfolding after_write
after_write-IsFifo h copyin killed addr left i (left_loop j pi) f ((_, _, v, e, _, _), _, _) =
    record { valid = v; order = written_more h (sent copyin (addr + i) (j - i)) pi f e }
after_write-IsFifo h copyin killed addr left i (sleeps j pi) f ((_, _, v, e, _, _), _, _, _, _) =
    record { valid = v; order = written_more h (sent copyin (addr + i) (j - i)) pi f e }
after_write-IsFifo h copyin killed addr left i (refused j pi) f ((_, _, v, e, _, _), _, _) =
    record { valid = v; order = written_more h (sent copyin (addr + i) (j - i)) pi f e }

after_copy-IsFifo :
    (h : History) (left : ℕ) (r : ℕ × List ℕ × List ℕ × Pipe)
    → IsFifo h
    → Reads left 0 h.pipe r
    → IsFifo (after_read h (copied r))
unfolding after_read
after_copy-IsFifo h left (i, got, lost, pi) f (v, e, _, _, _, _, _, _) = record {
  valid = v;
  order = f.order ∙ rw e (simp append_assoc);
}

-- piperead sleeps, or returns -1, only at an empty pipe that still has a writer
read_pass_cases :
    (n addr : ℕ) (copyout : ℕ → Bool) (killed : Bool) (pi : Pipe)
    → ((read_pass n copyout killed addr pi ≡ read_sleeps pi)
        × (pi.nread ≡ pi.nwrite)
        × (pi.writeopen ≡ true)
        × (killed ≡ false))
      ⊎ (((read_pass n copyout killed addr pi ≡ read_refused pi)
            × (pi.nread ≡ pi.nwrite)
            × (pi.writeopen ≡ true)
            × (killed ≡ true))
          ⊎ (read_pass n copyout killed addr pi ≡ copied (read_copy n copyout addr 0 pi)))
unfolding read_pass
read_pass_cases n addr copyout killed pi = ground arith

act-IsFifo : (h : History) (a : Act) → IsFifo h → IsFifo (act h a)
unfolding act pipeclose
act-IsFifo h (write_act copyin killed addr left i) f =
    after_write-IsFifo h copyin killed addr left i _ f
      (write_pass-Writes copyin killed addr left i h.pipe f.valid)
act-IsFifo h (read_act copyout killed addr n) f =
    elim (read_pass_cases n addr copyout killed h.pipe) [
      | inl (e, _, _, _) ↦ rw e f
      | inr (inl (e, _, _, _)) ↦ rw e f
      | inr (inr e) ↦
          rw e (after_copy-IsFifo h n _ f (read_copy-Reads copyout addr n 0 h.pipe f.valid))
    ]
act-IsFifo h (close_act true) f = record {
  valid = record {
    nread_uint = f.valid.nread_uint;
    nwrite_uint = f.valid.nwrite_uint;
    fits = f.valid.fits;
  };
  order = f.order;
}
act-IsFifo h (close_act false) f = record {
  valid = record {
    nread_uint = f.valid.nread_uint;
    nwrite_uint = f.valid.nwrite_uint;
    fits = f.valid.fits;
  };
  order = f.order;
}

-- Any sequence of passes of pipewrite and piperead and of pipecloses keeps the pipe valid and in
-- order: all bytes that were written are those that were taken, followed by those in the pipe.
pub acts-IsFifo : (h : History) (later : List Act) → IsFifo h → IsFifo (acts h later)
unfolding acts
acts-IsFifo h [] f = f
acts-IsFifo h (a ∷ later) f = acts-IsFifo (act h a) later (act-IsFifo h a f)

-- what other processes do during each sleep keeps the pipe valid
abbrev pub KeepValid : List (Sleep (ℕ → Bool)) → Type 0
KeepValid [] = Unit {0}
KeepValid ((others, _) ∷ later) = ((pi : Pipe) → IsValid pi → IsValid (others pi)) × KeepValid later

-- killed(pr) has returned 1 before one of the `n` bytes
abbrev Sees : ℕ → (ℕ → Bool) → Type 0
Sees n killed = (j : ℕ) × (j < n) × (killed j ≡ true)

-- at the start, or after one of the sleeps
abbrev pub IsKilled : ℕ → (ℕ → Bool) → List (Sleep (ℕ → Bool)) → Type 0
IsKilled n killed [] = Sees n killed
IsKilled n killed ((_, killed') ∷ later) = Sees n killed ⊎ IsKilled n killed' later

-- in the first pass, or in one after a sleep
abbrev pub IsSpared : ℕ → (ℕ → Bool) → List (Sleep (ℕ → Bool)) → ℕ → Type 0
IsSpared n killed [] j = Spares killed n j
IsSpared n killed ((_, killed') ∷ later) j = Spares killed n j ⊎ IsSpared n killed' later j

-- A call of pipewrite returns -1, with no reader left or the caller killed; or it stops after `j` of the
-- `n` bytes, early only at a byte where copyin fails, or is asleep at a full pipe with bytes left, and in
-- these two cases the pipe has a reader and the caller was not killed, unless there was nothing to write.
abbrev pub WriteReturns : Type 0 → (ℕ → Type 0) → (ℕ → Option ℕ) → ℕ → ℕ → Called ℕ → Type 0
WriteReturns Killed Spared copyin addr n (returned none pi) =
    IsValid pi × ((pi.readopen ≡ false) ⊎ Killed)
WriteReturns Killed Spared copyin addr n (returned (some j) pi) =
    IsValid pi
    × (j ≤ n)
    × (j ≢ n → copyin (addr + j) ≡ none)
    × (n ≢ 0 → (pi.readopen ≡ true) × Spared j)
WriteReturns Killed Spared copyin addr n (asleep j pi) =
    IsValid pi × (held pi ≡ pipe_size) × (j < n) × (pi.readopen ≡ true) × Spared j

Returns-more :
    {A B : Type 0} {P Q : ℕ → Type 0} (copyin : ℕ → Option ℕ) (addr n : ℕ) (r : Called ℕ)
    → (A → B)
    → ((j : ℕ) → P j → Q j)
    → WriteReturns A P copyin addr n r
    → WriteReturns B Q copyin addr n r
Returns-more copyin addr n (returned none pi) f g (v, inl no_reader) = (v, inl no_reader)
Returns-more copyin addr n (returned none pi) f g (v, inr killed) = (v, inr (f killed))
Returns-more copyin addr n (returned (some j) pi) f g (v, le, stop, live) =
    (v, le, stop, λ ne. ((live ne).0, g j (live ne).1))
Returns-more copyin addr n (asleep j pi) f g (v, full, lt, reader, live) =
    (v, full, lt, reader, g j live)

after_pass-Returns :
    (Killed : Type 0) (Spared : ℕ → Type 0) (copyin : ℕ → Option ℕ) (killed : ℕ → Bool)
    (addr n i : ℕ) (pi : Pipe) (r : WritePass) (wakes : ℕ → Pipe → Called ℕ)
    → (i < n) ⊎ ((i ≡ 0) × (n ≡ 0))
    → Writes copyin killed addr (n - i) i pi r
    → (Sees n killed → Killed)
    → ((j : ℕ) → Spares killed n j → Spared j)
    → ((j : ℕ) (pi' : Pipe)
        → j < n
        → held pi' ≡ pipe_size
        → IsValid pi'
        → pi'.readopen ≡ true
        → Spares killed n j
        → WriteReturns Killed Spared copyin addr n (wakes j pi'))
    → WriteReturns Killed Spared copyin addr n (after_pass r wakes)
after_pass-Returns K S copyin killed addr n i pi (left_loop j pi') wakes le
      ((a, b, v, _, ro, _), stop, live) k l h =
    (
      v,
      omega arith,
      λ ne. stop (omega arith),
      λ ne.
          let (reader, spares) = live (omega arith) in
          let (m, lo, hi, lt, e) = spares in (ro ∙ reader, l j (m, lo, hi, omega arith, e)),
    )
after_pass-Returns K S copyin killed addr n i pi (sleeps j pi') wakes le
      ((_, _, v, _, ro, _), full, lt, reader, e) k l h =
    h j pi' (omega arith) full v (ro ∙ reader) (j, omega arith, omega arith, omega arith, e)
after_pass-Returns K S copyin killed addr n i pi (refused j pi') wakes le
      ((_, _, v, _, ro, _), lt, why) k l h =
    (v, elim why [ inl no_reader ↦ inl (ro ∙ no_reader) | inr e ↦ inr (k (j, omega arith, e)) ])

pipewrite_from-Returns :
    (later : List (Sleep (ℕ → Bool))) (n addr i : ℕ) (copyin : ℕ → Option ℕ) (killed : ℕ → Bool)
    (pi : Pipe)
    → KeepValid later
    → (i < n) ⊎ ((i ≡ 0) × (n ≡ 0))
    → IsValid pi
    → WriteReturns
        (IsKilled n killed later)
        (IsSpared n killed later)
        copyin
        addr
        n
        (pipewrite_from later n copyin killed addr i pi)
unfolding pipewrite_from
pipewrite_from-Returns [] n addr i copyin killed pi keep le v =
    after_pass-Returns (Sees n killed) (Spares killed n) copyin killed addr n i pi _ asleep le
      (write_pass-Writes copyin killed addr (n - i) i pi v) (λ sees. sees) (λ j spares. spares)
      (λ j pi' lt full v' reader spares. (v', full, lt, reader, spares))
pipewrite_from-Returns ((others, killed') ∷ later) n addr i copyin killed pi (keep, rest) le v =
    after_pass-Returns (Sees n killed ⊎ IsKilled n killed' later)
      (λ j. Spares killed n j ⊎ IsSpared n killed' later j) copyin killed addr n i pi _
      (λ j pi'. pipewrite_from later n copyin killed' addr j (others pi')) le
      (write_pass-Writes copyin killed addr (n - i) i pi v) inl (λ j spares. inl spares)
      (λ j pi' lt full v' _ _.
        Returns-more copyin addr n _ inr (λ j spared. inr spared)
          (pipewrite_from-Returns later n addr j copyin killed' (others pi') rest (inl lt)
            (keep pi' v')))

-- Whatever other processes do to a valid pipe during the sleeps of a pipewrite, if they keep it
-- valid the call returns -1, in which case no reader is left or killed(pr) was 1 before some byte; or it
-- stops after j of the n bytes, early only at a byte where copyin fails; or it is asleep at a full pipe
-- with bytes left. If n is not 0, then in the last two cases the pipe has a reader, and killed(pr) was 0
-- before byte j or the one before it.
pub pipewrite-Returns :
    (later : List (Sleep (ℕ → Bool))) (killed : ℕ → Bool) (copyin : ℕ → Option ℕ) (pi : Pipe)
    (addr n : ℕ)
    → KeepValid later
    → IsValid pi
    → WriteReturns
        (IsKilled n killed later)
        (IsSpared n killed later)
        copyin
        addr
        n
        (pipewrite later killed copyin pi addr n)
unfolding pipewrite
pipewrite-Returns later killed copyin pi addr n keep v =
    pipewrite_from-Returns later n addr 0 copyin killed pi keep
      (elim (ℕ_discrete n 0) [ yes z ↦ inr (refl, z) | no ne ↦ inl (omega arith) ]) v
