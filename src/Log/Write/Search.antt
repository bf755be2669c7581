-- ===== src/Log/Write/Search.antt =====
-- The search of log_write of kernel/log.c for a block in the log.
use oslab.Prelude.{
  ℕ, zero, suc, ◌+◌, ◌≤◌, ◌<◌, ◌≡◌, ◌≢◌, refl, ap, arith, if◌then◌else◌, ◌==◌, ℕ_discrete,
}
use oslab.Log.{find_block}

-- how often `b` stands among the `rounds` blocks from `i` on
abbrev pub occurrences : ℕ → ℕ → (ℕ → ℕ) → ℕ → ℕ
occurrences zero i block b = 0
occurrences (suc rounds) i block b =
    (if block i == b then 1 else 0) + occurrences rounds (i + 1) block b

pub find_block_bounds :
    (rounds i b : ℕ) (block : ℕ → ℕ)
    → let j = find_block rounds i block b in
      (i ≤ j) × (j ≤ i + rounds) × (j < i + rounds → block j ≡ b)
unfolding find_block
find_block_bounds zero i b block = (omega arith, omega arith, λ h. absurd (omega arith))
find_block_bounds (suc rounds) i b block = ground (arith, find_block_bounds rounds (i + 1) b block)

pub find_block_none :
    (rounds i b k : ℕ) (block : ℕ → ℕ)
    → find_block rounds i block b ≡ i + rounds
    → i ≤ k
    → k < i + rounds
    → block k ≢ b
unfolding find_block
find_block_none zero i b k block e lo hi = absurd (omega arith)
find_block_none (suc rounds) i b k block e lo hi = elim (ℕ_discrete i k) [
  | yes here ↦ ground (arith, find_block_bounds rounds (i + 1) b block)
  | no later ↦ ground (arith, find_block_none rounds (i + 1) b k block)
]

pub occurrences-same :
    (rounds i b : ℕ) (block block' : ℕ → ℕ)
    → ((k : ℕ) → i ≤ k → k < i + rounds → block' k ≡ block k)
    → occurrences rounds i block' b ≡ occurrences rounds i block b
occurrences-same zero i b block block' h = refl
occurrences-same (suc rounds) i b block block' h = ground (
  arith,
  h i,
  occurrences-same rounds (i + 1) b block block' (λ k lo hi. h k (omega arith) (omega arith)),
)

pub occurrences-last :
    (rounds i b : ℕ) (block : ℕ → ℕ)
    → occurrences (suc rounds) i block b
      ≡ occurrences rounds i block b + (if block (i + rounds) == b then 1 else 0)
occurrences-last zero i b block = ground (arith, (let e : i + 0 ≡ i = omega arith in ap block e))
occurrences-last (suc rounds) i b block = ground (
  arith,
  occurrences-last rounds (i + 1) b block,
  (let e : i + 1 + rounds ≡ i + suc rounds = omega arith in ap block e),
)
