-- ===== src/Pipe/Queue.antt =====
-- The bytes of a pipe as a queue, with the counters wrapping round at 2^32.
use oslab.Prelude.{
  ℕ, zero, suc, ◌+◌, ◌-◌, ◌%◌, ◌≤◌, ◌<◌, ◌≡◌, ◌≢◌, ◌↔◌, refl, ap, ◌∙◌, List, [], ◌∷◌, ◌++◌, arith,
  put, length,
}
use oslab.Pipe.{pipe_size, uint_mod, Pipe, push}

-- the `n` bytes from counter `r` on
abbrev pub items : (ℕ → ℕ) → ℕ → ℕ → List ℕ
items buf r zero = []
items buf r (suc n) = buf (r % pipe_size) ∷ items buf (r + 1) n

-- how many bytes the pipe holds: nwrite - nread as unsigned numbers
abbrev pub held : Pipe → ℕ
held pi = (pi.nwrite + uint_mod - pi.nread) % uint_mod

abbrev pub contents : Pipe → List ℕ
contents pi = items pi.buf pi.nread (held pi)

pub record IsValid (pi : Pipe) : Type 0 where
  pub nread_uint : pi.nread < uint_mod
  pub nwrite_uint : pi.nwrite < uint_mod
  pub fits : held pi ≤ pipe_size

pub length-items : (buf : ℕ → ℕ) (r n : ℕ) → length (items buf r n) ≡ n
length-items buf r zero = refl
length-items buf r (suc n) = ap suc (length-items buf (r + 1) n)

-- a write behind the bytes that are counted, before the buffer has come round to them
items-put :
    (buf : ℕ → ℕ) (r n w ch : ℕ)
    → n < pipe_size
    → w % pipe_size ≡ (r + n) % pipe_size
    → items (put buf (w % pipe_size) ch) r (suc n) ≡ items buf r n ++ (ch ∷ [])
items-put buf r zero w ch h e = ground (arith, e)
items-put buf r (suc n) w ch h e = ground (arith, items-put buf (r + 1) n w ch)

-- counters that agree modulo the size of the buffer count the same bytes
items-mod :
    (buf : ℕ → ℕ) (r r' n : ℕ) → r % pipe_size ≡ r' % pipe_size → items buf r n ≡ items buf r' n
items-mod buf r r' zero e = refl
items-mod buf r r' (suc n) e = ground (arith, items-mod buf (r + 1) (r' + 1) n, ap buf e)

-- The test of pipewrite, nwrite against nread + PIPESIZE, says of a valid pipe whether its buffer is
-- full, also when the counters have wrapped round.
pub full_iff :
    (pi : Pipe)
    → IsValid pi
    → (pi.nwrite ≡ (pi.nread + pipe_size) % uint_mod) ↔ (held pi ≡ pipe_size)
full_iff pi v = (λ e. omega (arith, v), λ e. omega (arith, v))

pub empty_iff : (pi : Pipe) → IsValid pi → (pi.nread ≡ pi.nwrite) ↔ (held pi ≡ 0)
empty_iff pi v = (λ e. omega (arith, v), λ e. omega (arith, v))

pub held-push :
    (pi : Pipe) (ch : ℕ) → IsValid pi → held pi < pipe_size → held (push pi ch) ≡ suc (held pi)
held-push pi ch v h = omega (arith, v)

pub push-IsValid : (pi : Pipe) (ch : ℕ) → IsValid pi → held pi < pipe_size → IsValid (push pi ch)
push-IsValid pi ch v h = record {
  nread_uint = v.nread_uint;
  nwrite_uint = omega arith;
  fits = omega (arith, v);
}

pub contents-push :
    (pi : Pipe) (ch : ℕ)
    → IsValid pi
    → held pi < pipe_size
    → contents (push pi ch) ≡ contents pi ++ (ch ∷ [])
contents-push pi ch v h =
    ap (items (push pi ch).buf pi.nread) (held-push pi ch v h)
    ∙ items-put pi.buf pi.nread (held pi) pi.nwrite ch h (omega (arith, v))

-- the pipe after `pi->nread++`
abbrev pub pop : Pipe → Pipe
pop pi = record pi { nread = (pi.nread + 1) % uint_mod }

pub pop-IsValid : (pi : Pipe) → IsValid pi → held pi ≢ 0 → IsValid (pop pi)
pop-IsValid pi v h = record {
  nread_uint = omega arith;
  nwrite_uint = v.nwrite_uint;
  fits = omega (arith, v);
}

pub contents-pop :
    (pi : Pipe)
    → IsValid pi
    → held pi ≢ 0
    → contents pi ≡ pi.buf (pi.nread % pipe_size) ∷ contents (pop pi)
contents-pop pi v h =
    let one_less : held pi ≡ suc (held (pop pi)) = omega (arith, v) in
    ap (items pi.buf pi.nread) one_less
    ∙ ap (λ rest. pi.buf (pi.nread % pipe_size) ∷ rest)
        (items-mod pi.buf (pi.nread + 1) ((pi.nread + 1) % uint_mod) (held (pop pi)) (omega arith))

pub contents-empty : (pi : Pipe) → IsValid pi → held pi ≡ 0 → contents pi ≡ []
contents-empty pi v h = ap (items pi.buf pi.nread) h
