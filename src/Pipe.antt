-- ===== src/Pipe.antt =====
-- kernel/pipe.c. pi->lock is held from one sleep to the next, so each pass of pipewrite and piperead
-- between two sleeps is one step, and what other processes do to the pipe during a sleep is an
-- argument. User memory is what copyin and copyout make of each address. Counts are not negative: the
-- loops do nothing at a negative n, as at 0.
pub mod Queue
pub mod Burst
pub mod History
mod Tests
use oslab.Prelude.{
  ℕ, zero, suc, ◌+◌, ◌-◌, ◌%◌, ◌^◌, Bool, true, false, not, ◌&&◌, ◌||◌, Option, none, some, List,
  [], ◌∷◌, ◌==◌, if◌then◌else◌, put,
}

abbrev pub pipe_size : ℕ
pipe_size = 512

abbrev pub uint_mod : ℕ
uint_mod = 2 ^ 32

-- `struct pipe` without its lock; `buf` is `data`, meant below pipe_size
pub record Pipe : Type 0 where
  pub buf : ℕ → ℕ
  pub nread : ℕ
  pub nwrite : ℕ
  pub readopen : Bool
  pub writeopen : Bool

-- what pipealloc makes of a new page
abbrev pub new_pipe : (ℕ → ℕ) → Pipe
new_pipe buf = record { buf = buf; nread = 0; nwrite = 0; readopen = true; writeopen = true }

-- the channels that processes sleep on
pub data Chan : Type 0 where
  nread_chan nwrite_chan : Chan

-- The pipe, whom wakeup was called for, and whether the page was given back by kfree.
unfoldable pub pipeclose : Pipe → Bool → Pipe × Chan × Bool
pipeclose pi writable =
    let pi' =
      if writable then record pi { writeopen = false } else record pi { readopen = false } in
    (pi', if writable then nread_chan else nwrite_chan, not pi'.readopen && not pi'.writeopen)

-- A pass of pipewrite, with the bytes copied so far and the pipe: it leaves the loop, it finds the
-- pipe full and sleeps on `nwrite`, or it returns -1. In the first two cases it wakes `nread`.
pub data WritePass : Type 0 where
  left_loop : ℕ → Pipe → WritePass
  sleeps : ℕ → Pipe → WritePass
  refused : ℕ → Pipe → WritePass

-- `pi->data[pi->nwrite++ % PIPESIZE] = ch`
abbrev pub push : Pipe → ℕ → Pipe
push pi ch = record pi {
  buf = put pi.buf (pi.nwrite % pipe_size) ch;
  nwrite = (pi.nwrite + 1) % uint_mod;
}

-- `copyin a` is the byte at the user address `a`, or `none` if copyin fails there, and
-- `killed i` what killed(pr) returns before byte `i`. The first number is n - i.
unfoldable pub write_pass : ℕ → (ℕ → Option ℕ) → (ℕ → Bool) → ℕ → ℕ → Pipe → WritePass
write_pass zero copyin killed addr i pi = left_loop i pi
write_pass (suc left) copyin killed addr i pi =
    let rest = λ (ch : ℕ). write_pass left copyin killed addr (i + 1) (push pi ch) in
    if not pi.readopen || killed i
    then refused i pi
    else if pi.nwrite == (pi.nread + pipe_size) % uint_mod
    then sleeps i pi
    else elim (copyin (addr + i)) [ none ↦ left_loop i pi | some ch ↦ rest ch ]

-- A call: it returned (`none` for -1), or is still asleep when the listed sleeps are over.
pub data Called (A : Type 0) : Type 0 where
  returned : Option A → Pipe → Called A
  asleep : A → Pipe → Called A

-- What happens during a sleep: what others make of the pipe, and `killed(pr)` after it, which pipewrite
-- reads before each byte and piperead once.
abbrev pub Sleep : Type 0 → Type 0
Sleep A = (Pipe → Pipe) × A

-- how a call goes on after a pass; `wakes` is what follows a sleep
abbrev pub after_pass : WritePass → (ℕ → Pipe → Called ℕ) → Called ℕ
after_pass (left_loop j pi) wakes = returned (some j) pi
after_pass (sleeps j pi) wakes = wakes j pi
after_pass (refused j pi) wakes = returned none pi

-- `n` bytes from `addr`; `i` of them are written
pub pipewrite_from :
    List (Sleep (ℕ → Bool)) → ℕ → (ℕ → Option ℕ) → (ℕ → Bool) → ℕ → ℕ → Pipe → Called ℕ
pipewrite_from [] n copyin killed addr i pi =
    after_pass (write_pass (n - i) copyin killed addr i pi) asleep
pipewrite_from ((others, killed') ∷ later) n copyin killed addr i pi =
    after_pass (write_pass (n - i) copyin killed addr i pi)
      (λ j pi'. pipewrite_from later n copyin killed' addr j (others pi'))

unfoldable pub pipewrite :
    List (Sleep (ℕ → Bool)) → (ℕ → Bool) → (ℕ → Option ℕ) → Pipe → ℕ → ℕ → Called ℕ
unfolding pipewrite_from write_pass
pipewrite later killed copyin pi addr n = pipewrite_from later n copyin killed addr 0 pi

-- The copy loop of piperead: the value of `i` at its end, the bytes that reached the user, the bytes
-- that were taken from the pipe and lost as copyout failed, and the pipe. The first number is n - i.
unfoldable pub read_copy : ℕ → (ℕ → Bool) → ℕ → ℕ → Pipe → ℕ × List ℕ × List ℕ × Pipe
read_copy zero copyout addr i pi = (i, [], [], pi)
read_copy (suc left) copyout addr i pi =
    let ch = pi.buf (pi.nread % pipe_size) in
    let pi' = record pi { nread = (pi.nread + 1) % uint_mod } in
    let rest = read_copy left copyout addr (i + 1) pi' in
    if pi.nread == pi.nwrite
    then (i, [], [], pi)
    else if copyout (addr + i)
    then (rest.0, ch ∷ rest.1, rest.2, rest.3)
    else (i, [], ch ∷ [], pi')

-- A pass of piperead: it sleeps on `nread`, returns -1, or copies and wakes `nwrite`.
pub data ReadPass : Type 0 where
  read_sleeps : Pipe → ReadPass
  read_refused : Pipe → ReadPass
  copied : ℕ × List ℕ × List ℕ × Pipe → ReadPass

unfoldable pub read_pass : ℕ → (ℕ → Bool) → Bool → ℕ → Pipe → ReadPass
unfolding read_copy
read_pass n copyout killed addr pi =
    if pi.nread == pi.nwrite && pi.writeopen
    then if killed then read_refused pi else read_sleeps pi
    else copied (read_copy n copyout addr 0 pi)

unfoldable pub piperead :
    List (Sleep Bool) → Bool → (ℕ → Bool) → Pipe → ℕ → ℕ → Called (ℕ × List ℕ × List ℕ)
unfolding read_pass
piperead [] killed copyout pi addr n = elim (read_pass n copyout killed addr pi) [
  | read_sleeps pi' ↦ asleep (0, [], []) pi'
  | read_refused pi' ↦ returned none pi'
  | copied (i, got, lost, pi') ↦ returned (some (i, got, lost)) pi'
]
piperead ((others, killed') ∷ later) killed copyout pi addr n =
    elim (read_pass n copyout killed addr pi) [
      | read_sleeps pi' ↦ piperead later killed' copyout (others pi') addr n
      | read_refused pi' ↦ returned none pi'
      | copied (i, got, lost, pi') ↦ returned (some (i, got, lost)) pi'
    ]
