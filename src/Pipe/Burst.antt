-- ===== src/Pipe/Burst.antt =====
-- One pass of pipewrite and one of piperead in kernel/pipe.c against the queue of the pipe's bytes.
use oslab.Prelude.{
  ℕ, zero, suc, ◌+◌, ◌-◌, ◌%◌, ◌≤◌, ◌<◌, ◌≡◌, ◌≢◌, ◌⊎◌, inl, inr, refl, sym, ap, ◌∙◌, Bool, true,
  false, not, ◌||◌, Option, none, some, List, [], ◌∷◌, ◌++◌, arith, ◌==◌, length, ℕ_discrete,
  Bool-cases, Option-cases,
}
use mathlib.Core.List.{append_assoc, append-nil}
use oslab.Pipe.{
  pipe_size, uint_mod, Pipe, push, WritePass, left_loop, sleeps, refused, write_pass, read_copy,
}
use oslab.Pipe.Queue.{
  held, contents, IsValid, full_iff, empty_iff, push-IsValid, contents-push, pop, pop-IsValid,
  contents-pop, contents-empty,
}

abbrev pub byte : Option ℕ → ℕ
byte none = 0
byte (some ch) = ch

-- the `k` bytes of user memory from `a` on
abbrev pub sent : (ℕ → Option ℕ) → ℕ → ℕ → List ℕ
sent copyin a zero = []
sent copyin a (suc k) = byte (copyin a) ∷ sent copyin (a + 1) k

-- The pipe has taken the next `k` of at most `left` bytes, from byte `i` on.
abbrev pub Took : (ℕ → Option ℕ) → ℕ → ℕ → ℕ → Pipe → ℕ → Pipe → Type 0
Took copyin addr left i pi j pi' =
    (i ≤ j)
    × (j ≤ i + left)
    × IsValid pi'
    × (contents pi' ≡ contents pi ++ sent copyin (addr + i) (j - i))
    × (pi'.readopen ≡ pi.readopen)
    × (pi'.writeopen ≡ pi.writeopen)

-- killed(pr) was 0 before byte `j` or the one before it
abbrev pub Spares : (ℕ → Bool) → ℕ → ℕ → Type 0
Spares killed n j = (m : ℕ) × (m ≤ j) × (j ≤ m + 1) × (m < n) × (killed m ≡ false)

Spares-push :
    (killed : ℕ → Bool) (left i j : ℕ)
    → killed i ≡ false
    → i + 1 ≤ j
    → j ≤ i + 1 + left
    → (left ≢ 0 → Spares killed (i + 1 + left) j)
    → Spares killed (i + suc left) j
Spares-push killed left i j alive lo hi rest = elim (ℕ_discrete left 0) [
  | yes z ↦ (i, omega arith, omega arith, omega arith, alive)
  | no ne ↦ let (m, a, b, lt, e) = rest ne in (m, a, b, omega arith, e)
]

-- What a pass may come to: it leaves the loop when all is written or copyin fails, sleeps only at a
-- full pipe, and returns -1 only with bytes left, when no reader is left or the caller is killed.
abbrev pub Writes : (ℕ → Option ℕ) → (ℕ → Bool) → ℕ → ℕ → ℕ → Pipe → WritePass → Type 0
Writes copyin killed addr left i pi (left_loop j pi') =
    Took copyin addr left i pi j pi'
    × (j ≢ i + left → copyin (addr + j) ≡ none)
    × (left ≢ 0 → (pi.readopen ≡ true) × Spares killed (i + left) j)
Writes copyin killed addr left i pi (sleeps j pi') =
    Took copyin addr left i pi j pi'
    × (held pi' ≡ pipe_size)
    × (j < i + left)
    × (pi.readopen ≡ true)
    × (killed j ≡ false)
Writes copyin killed addr left i pi (refused j pi') =
    Took copyin addr left i pi j pi' × (j < i + left) × ((pi.readopen ≡ false) ⊎ (killed j ≡ true))

Took-refl :
    (copyin : ℕ → Option ℕ) (addr left i : ℕ) (pi : Pipe)
    → IsValid pi
    → Took copyin addr left i pi i pi
Took-refl copyin addr left i pi v = (omega arith, omega arith, v, same, refl, refl)
  where
    same : contents pi ≡ contents pi ++ sent copyin (addr + i) (i - i)
    same = let e : i - i ≡ 0 = omega arith in rw e (sym (append-nil (contents pi)))

Took-push :
    (copyin : ℕ → Option ℕ) (addr left i ch j : ℕ) (pi pi' : Pipe)
    → IsValid pi
    → held pi < pipe_size
    → copyin (addr + i) ≡ some ch
    → Took copyin addr left (i + 1) (push pi ch) j pi'
    → Took copyin addr (suc left) i pi j pi'
Took-push copyin addr left i ch j pi pi' v room c (lo, hi, v', e, ro, wo) =
    (omega arith, omega arith, v', appended, ro, wo)
  where
    next : sent copyin (addr + i) (j - i) ≡ ch ∷ sent copyin (addr + (i + 1)) (j - (i + 1))
    next =
        let one_more : j - i ≡ suc (j - (i + 1)) = omega arith in
        let after : addr + (i + 1) ≡ addr + i + 1 = omega arith in rw (one_more, after, c)

    appended : contents pi' ≡ contents pi ++ sent copyin (addr + i) (j - i)
    appended =
        e
        ∙ rw (contents-push pi ch v room, next)
            (append_assoc (contents pi) (ch ∷ []) (sent copyin (addr + (i + 1)) (j - (i + 1))))

Writes-push :
    (copyin : ℕ → Option ℕ) (killed : ℕ → Bool) (addr left i ch : ℕ) (pi : Pipe) (r : WritePass)
    → IsValid pi
    → held pi < pipe_size
    → copyin (addr + i) ≡ some ch
    → (not pi.readopen || killed i) ≡ false
    → Writes copyin killed addr left (i + 1) (push pi ch) r
    → Writes copyin killed addr (suc left) i pi r
Writes-push copyin killed addr left i ch pi (left_loop j pi') v room c go (t, stop, live) = (
  Took-push copyin addr left i ch j pi pi' v room c t,
  λ ne. stop (omega arith),
  λ _. (
    ground (arith, go),
    Spares-push killed left i j (ground (arith, go)) t.0 t.1 (λ ne. (live ne).1),
  ),
)
Writes-push copyin killed addr left i ch pi (sleeps j pi') v room c go (t, full, lt, ro, alive) =
    (Took-push copyin addr left i ch j pi pi' v room c t, full, omega arith, ro, alive)
Writes-push copyin killed addr left i ch pi (refused j pi') v room c go (t, lt, why) =
    (Took-push copyin addr left i ch j pi pi' v room c t, omega arith, why)

write_pass_done :
    (copyin : ℕ → Option ℕ) (killed : ℕ → Bool) (addr i : ℕ) (pi : Pipe)
    → write_pass zero copyin killed addr i pi ≡ left_loop i pi
unfolding write_pass
write_pass_done copyin killed addr i pi = refl

module _ (copyin : ℕ → Option ℕ) (killed : ℕ → Bool) (addr left i : ℕ) (pi : Pipe) where
  write_pass_stop :
      (not pi.readopen || killed i) ≡ true
      → write_pass (suc left) copyin killed addr i pi ≡ refused i pi
  unfolding write_pass
  write_pass_stop e = rw e

  module _ (go : (not pi.readopen || killed i) ≡ false) where
    write_pass_full :
        pi.nwrite ≡ (pi.nread + pipe_size) % uint_mod
        → write_pass (suc left) copyin killed addr i pi ≡ sleeps i pi
    unfolding write_pass
    write_pass_full e = rw go (ground arith)

    write_pass_bad :
        pi.nwrite ≢ (pi.nread + pipe_size) % uint_mod
        → copyin (addr + i) ≡ none
        → write_pass (suc left) copyin killed addr i pi ≡ left_loop i pi
    unfolding write_pass
    write_pass_bad ne bad = rw go (ground arith)

    write_pass_good :
        (ch : ℕ)
        → pi.nwrite ≢ (pi.nread + pipe_size) % uint_mod
        → copyin (addr + i) ≡ some ch
        → write_pass (suc left) copyin killed addr i pi
          ≡ write_pass left copyin killed addr (i + 1) (push pi ch)
    unfolding write_pass
    write_pass_good ch ne good = rw go (ground arith)

-- A pass of pipewrite over a valid pipe puts the bytes that it takes at the end of the queue, in
-- order and never beyond the size of the pipe. It leaves the loop when all is written or copyin
-- fails, sleeps only at a full pipe, and returns -1 only when no reader is left or the caller is
-- killed, with bytes left.
pub write_pass-Writes :
    (copyin : ℕ → Option ℕ) (killed : ℕ → Bool) (addr left i : ℕ) (pi : Pipe)
    → IsValid pi
    → Writes copyin killed addr left i pi (write_pass left copyin killed addr i pi)
write_pass-Writes copyin killed addr zero i pi v =
    rw (write_pass_done copyin killed addr i pi)
      (Took-refl copyin addr zero i pi v, λ ne. absurd (ne (omega arith)), λ ne. absurd (ne refl))
write_pass-Writes copyin killed addr (suc left) i pi v =
    elim (Bool-cases (not pi.readopen || killed i)) [
      | inl stop ↦
          rw (write_pass_stop copyin killed addr left i pi stop)
            (Took-refl copyin addr (suc left) i pi v, omega arith, ground (arith, stop))
      | inr go ↦ elim (ℕ_discrete pi.nwrite ((pi.nread + pipe_size) % uint_mod)) [
        | yes full ↦ rw (write_pass_full copyin killed addr left i pi go full) (
          Took-refl copyin addr (suc left) i pi v,
          (full_iff pi v).0 full,
          omega arith,
          ground (arith, go),
          ground (arith, go),
        )
        | no room ↦ elim (Option-cases (copyin (addr + i))) [
          | inl bad ↦ rw (write_pass_bad copyin killed addr left i pi go room bad) (
            Took-refl copyin addr (suc left) i pi v,
            λ ne. bad,
            λ _. (
              ground (arith, go),
              (i, omega arith, omega arith, omega arith, ground (arith, go)),
            ),
          )
          | inr (ch, good) ↦
              let fits : held pi < pipe_size = omega (arith, v.fits, (full_iff pi v).1) in
              rw (write_pass_good copyin killed addr left i pi go ch room good) (
                Writes-push copyin killed addr left i ch pi _ v fits good go (
                  write_pass-Writes copyin killed addr left (i + 1) (push pi ch)
                    (push-IsValid pi ch v fits)))
        ]
      ]
    ]

-- What the copy loop of piperead may come to: the bytes it took stood at the front of the queue, all
-- but a lost one reached the user, and it stops early only at a failing copyout or an empty pipe.
abbrev pub Reads : ℕ → ℕ → Pipe → ℕ × List ℕ × List ℕ × Pipe → Type 0
Reads left i pi (j, got, lost, pi') =
    IsValid pi'
    × (contents pi ≡ got ++ (lost ++ contents pi'))
    × (i + length got ≡ j)
    × (j ≤ i + left)
    × (length lost ≤ 1)
    × (j ≢ i + left → lost ≡ [] → contents pi' ≡ [])
    × (pi'.readopen ≡ pi.readopen)
    × (pi'.writeopen ≡ pi.writeopen)

Reads-pop :
    (left i : ℕ) (pi : Pipe) (r : ℕ × List ℕ × List ℕ × Pipe)
    → IsValid pi
    → held pi ≢ 0
    → Reads left (i + 1) (pop pi) r
    → Reads (suc left) i pi (r.0, pi.buf (pi.nread % pipe_size) ∷ r.1, r.2, r.3)
Reads-pop left i pi r v some_held (v', e, count, le, one, stop, ro, wo) = (
  v',
  contents-pop pi v some_held ∙ ap (λ rest. pi.buf (pi.nread % pipe_size) ∷ rest) e,
  omega arith,
  omega arith,
  one,
  λ ne. stop (omega arith),
  ro,
  wo,
)

-- The copy loop of piperead over a valid pipe takes its bytes from the front of the queue in order;
-- all of them reach the user but the one, if any, at which copyout fails, and the loop stops early
-- only at that byte or at an empty pipe.
pub read_copy-Reads :
    (copyout : ℕ → Bool) (addr left i : ℕ) (pi : Pipe)
    → IsValid pi
    → Reads left i pi (read_copy left copyout addr i pi)
unfolding read_copy
read_copy-Reads copyout addr zero i pi v =
    (v, refl, omega arith, omega arith, omega arith, λ ne. absurd (ne (omega arith)), refl, refl)
read_copy-Reads copyout addr (suc left) i pi v = elim (ℕ_discrete pi.nread pi.nwrite) [
  | yes e ↦
      let none_held : (pi.nread == pi.nwrite) ≡ true = ground arith in
      rw none_held (
        v,
        refl,
        omega arith,
        omega arith,
        omega arith,
        λ _ _. contents-empty pi v ((empty_iff pi v).0 e),
        refl,
        refl,
      )
  | no ne ↦
      let some_held : (pi.nread == pi.nwrite) ≡ false = ground arith in
      let held_some : held pi ≢ 0 = λ h. ne ((empty_iff pi v).1 h) in
      elim (Bool-cases (copyout (addr + i))) [
        | inl out ↦
            rw (some_held, out)
              (Reads-pop left i pi _ v held_some
                (read_copy-Reads copyout addr left (i + 1) (pop pi) (pop-IsValid pi v held_some)))
        | inr fault ↦
            rw (some_held, fault)
              (
                pop-IsValid pi v held_some,
                contents-pop pi v held_some,
                omega arith,
                omega arith,
                omega arith,
                λ _ e. cc,
                refl,
                refl,
              )
      ]
]
