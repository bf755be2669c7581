-- ===== src/Log/Reserve/Credits.antt =====
-- The credits of the file system calls in progress, for the space that begin_op of kernel/log.c reserves.
use oslab.Prelude.{
  ℕ, zero, suc, ◌+◌, ◌-◌, ◌*◌, ◌≤◌, ◌<◌, ◌≡◌, ◌≢◌, arith, List, [], ◌∷◌, some, length, get_elem?,
  set,
}
use oslab.Log.{max_op_blocks}

abbrev pub remove : ℕ → List ℕ → List ℕ
remove i [] = []
remove zero (c ∷ cs) = cs
remove (suc i) (c ∷ cs) = c ∷ remove i cs

abbrev pub sum : List ℕ → ℕ
sum [] = 0
sum (c ∷ cs) = c + sum cs

-- no call holds more than its budget
abbrev pub IsCapped : List ℕ → Type 0
IsCapped [] = Unit {0}
IsCapped (c ∷ cs) = (c < max_op_blocks) × IsCapped cs

-- the system call `i` holds `c` credits
pub sum_at : (cs : List ℕ) (i c : ℕ) → get_elem? cs i ≡ some c → c ≤ sum cs
sum_at [] i c e = cc
sum_at (x ∷ cs) zero c e = ground arith
sum_at (x ∷ cs) (suc i) c e = omega (arith, sum_at cs i c e)

pub sum-set :
    (cs : List ℕ) (i c k : ℕ)
    → get_elem? cs i ≡ some c
    → k ≤ c
    → sum (set cs i (c - k)) + k ≡ sum cs
sum-set [] i c k e h = cc
sum-set (x ∷ cs) zero c k e h = ground arith
sum-set (x ∷ cs) (suc i) c k e h = omega (arith, sum-set cs i c k e h)

pub remove_lem :
    (cs : List ℕ) (i c : ℕ)
    → get_elem? cs i ≡ some c
    → (length (remove i cs) + 1 ≡ length cs) × (sum (remove i cs) + c ≡ sum cs)
remove_lem [] i c e = cc
remove_lem (x ∷ cs) zero c e = ground arith
remove_lem (x ∷ cs) (suc i) c e = ground (arith, remove_lem cs i c)

pub sum-le : (cs : List ℕ) → IsCapped cs → sum cs + length cs ≤ max_op_blocks * length cs
sum-le [] h = omega arith
sum-le (c ∷ cs) (h, hs) = omega (arith, sum-le cs hs)

pub IsCapped-set : (cs : List ℕ) (i c : ℕ) → c < max_op_blocks → IsCapped cs → IsCapped (set cs i c)
IsCapped-set [] i c le h = h
IsCapped-set (x ∷ cs) zero c le (h, hs) = (le, hs)
IsCapped-set (x ∷ cs) (suc i) c le (h, hs) = (h, IsCapped-set cs i c le hs)

pub IsCapped-remove : (cs : List ℕ) (i : ℕ) → IsCapped cs → IsCapped (remove i cs)
IsCapped-remove [] i h = h
IsCapped-remove (x ∷ cs) zero (h, hs) = hs
IsCapped-remove (x ∷ cs) (suc i) (h, hs) = (h, IsCapped-remove cs i hs)

pub IsCapped-at :
    (cs : List ℕ) (i c : ℕ) → IsCapped cs → get_elem? cs i ≡ some c → c < max_op_blocks
IsCapped-at [] i c h e = cc
IsCapped-at (x ∷ cs) zero c h e = ground arith
IsCapped-at (x ∷ cs) (suc i) c (h, hs) e = IsCapped-at cs i c hs e

pub length_at : (cs : List ℕ) (i c : ℕ) → get_elem? cs i ≡ some c → length cs ≢ 0
length_at [] i c e = cc
length_at (x ∷ cs) i c e = omega arith
