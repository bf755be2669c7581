-- ===== src/Spin/Nesting.antt =====
-- push_off and pop_off of kernel/spinlock.c undo each other.
use oslab.Prelude.{
  ℕ, zero, suc, ◌+◌, ◌≡◌, ◌≢◌, refl, ap, ◌∙◌, Bool, false, ◌&&◌, arith, if◌then◌else◌, ◌==◌,
}
use oslab.Prelude.Run.{Run, done, ◌>>=◌}
use oslab.Spin.{Cpu, push_off, pop_off}

abbrev pub pushes : ℕ → Cpu → Cpu
pushes zero c = c
pushes (suc n) c = push_off (pushes n c)

abbrev pub pops : ℕ → Cpu → Run Cpu
pops zero c = done c
pops (suc n) c = pop_off c >>= pops n

-- While locks are held interrupts are off.
abbrev pub IsCpu : Cpu → Type 0
IsCpu c = c.noff ≢ 0 → c.intr ≡ false

-- the same interrupts and nesting, and the same saved state where one is saved
pub record Same (c c' : Cpu) : Type 0 where
  pub intr : c'.intr ≡ c.intr
  pub noff : c'.noff ≡ c.noff
  pub intena : c.noff ≢ 0 → c'.intena ≡ c.intena

abbrev off : ℕ → Bool → Cpu
off m b = record { intr = false; noff = m; intena = b }

push_off-off : (m : ℕ) (b : Bool) → m ≢ 0 → push_off (off m b) ≡ off (m + 1) b
unfolding push_off
push_off-off m b ne =
    let deep : (m == 0) ≡ false = ground arith in
    ap (λ t. off (m + 1) (if t then false else b)) deep

pop_off-off :
    (m : ℕ) (b : Bool)
    → pop_off (off (suc m) b) ≡ done (record { intr = (m == 0) && b; noff = m; intena = b })
unfolding pop_off
pop_off-off m b = ground arith

pop_off-deep : (m : ℕ) (b : Bool) → m ≢ 0 → pop_off (off (suc m) b) ≡ done (off m b)
pop_off-deep m b ne =
    let deep : (m == 0) ≡ false = ground arith in
    pop_off-off m b ∙ ap (λ t. done (record { intr = t && b; noff = m; intena = b })) deep

-- the CPU after `n + 1` push_offs
pushes-eq :
    (n : ℕ) (c : Cpu)
    → pushes (suc n) c ≡ off (c.noff + suc n) (if c.noff == 0 then c.intr else c.intena)
unfolding push_off
pushes-eq zero c = refl
pushes-eq (suc n) c =
    let saved = if c.noff == 0 then c.intr else c.intena in
    ap push_off (pushes-eq n c)
    ∙ push_off-off (c.noff + suc n) saved (omega arith)
    ∙ ap (λ m. off m saved) (omega arith)

-- the CPU after `n + 1` pop_offs
pops-eq :
    (n k : ℕ) (b : Bool)
    → pops (suc n) (off (k + suc n) b)
      ≡ done (record { intr = (k == 0) && b; noff = k; intena = b })
pops-eq zero k b =
    let at : k + 1 ≡ suc k = omega arith in
    ap (λ m. pop_off (off m b) >>= (λ c. done c)) at
    ∙ ap (λ r. r >>= (λ c. done c)) (pop_off-off k b)
pops-eq (suc n) k b =
    let at : k + suc (suc n) ≡ suc (k + suc n) = omega arith in
    ap (λ m. pop_off (off m b) >>= pops (suc n)) at
    ∙ ap (λ r. r >>= pops (suc n)) (pop_off-deep (k + suc n) b (omega arith))
    ∙ pops-eq n k b

abbrev pub Balances : ℕ → Cpu → Type 0
Balances n c = (c' : Cpu) × (pops n (pushes n c) ≡ done c') × Same c c'

-- On a CPU whose interrupts are off while it holds locks, `n` calls of pop_off after `n` calls of
-- push_off do not panic, and restore whether interrupts are on, the nesting and the saved state.
pub push_off-pop_off : (n : ℕ) (c : Cpu) → IsCpu c → Balances n c
push_off-pop_off zero c v = (c, refl, record { intr = refl; noff = refl; intena = λ _. refl })
push_off-pop_off (suc n) c v =
    let saved = if c.noff == 0 then c.intr else c.intena in
    (
      record { intr = (c.noff == 0) && saved; noff = c.noff; intena = saved },
      ap (pops (suc n)) (pushes-eq n c) ∙ pops-eq n c.noff saved,
      record { intr = ground (arith, v); noff = refl; intena = λ ne. ground arith },
    )
