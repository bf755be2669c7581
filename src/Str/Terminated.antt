-- ===== src/Str/Terminated.antt =====
-- strncpy, safestrcpy and strlen of kernel/string.c.
use oslab.Prelude.{
  ℕ, zero, suc, ◌+◌, ◌-◌, ◌≤◌, ◌<◌, ◌≡◌, ◌≢◌, ◌⊎◌, refl, Bool, true, false, ◌||◌, some, inl, inr,
  ap, arith, Bool-cases, ◌==◌, if◌then◌else◌,
}
use oslab.Str.{Memory, store, zero_fill, strncpy, safestrcpy_loop, safestrcpy, strlen_loop, strlen}
use oslab.Str.Copy.{in_range}
use oslab.Str.Compare.{cstr}

-- one of the first `i` bytes at `t` is NUL
abbrev pub has_nul : Memory → ℕ → ℕ → Bool
has_nul m t zero = false
has_nul m t (suc i) = m t == 0 || has_nul m (t + 1) i

zero_fill_lem : (n s a : ℕ) (m : Memory) → zero_fill n s m a ≡ (if in_range s n a then 0 else m a)
unfolding zero_fill
zero_fill_lem zero s a m = ground arith
zero_fill_lem (suc n) s a m = ground (arith, zero_fill_lem n (s + 1) a (store m s 0))

has_nul-store :
    (m : Memory) (s c p i : ℕ) → (s < p) ⊎ (p + i ≤ s) → has_nul (store m s c) p i ≡ has_nul m p i
has_nul-store m s c p zero h = refl
has_nul-store m s c p (suc i) h = ground (arith, has_nul-store m s c (p + 1) i)

has_nul_of_ne_zero :
    (m : Memory) (t i : ℕ) → i ≢ 0 → has_nul m t i ≡ (m t == 0 || has_nul m (t + 1) (i - 1))
has_nul_of_ne_zero m t zero h = absurd (h refl)
has_nul_of_ne_zero m t (suc i) h = ap (λ k. m t == 0 || has_nul m (t + 1) k) (omega arith)

-- one round of strncpy that copies a byte other than NUL
strncpy_round :
    (m : Memory) (s t n a x : ℕ)
    → (s + suc n ≤ t) ⊎ (t + suc n ≤ s)
    → m t ≢ 0
    → let m' = store m s (m t) in
      x ≡ (
        if in_range (s + 1) n a
        then (if has_nul m' (t + 1) (a - (s + 1)) then 0 else m' (t + 1 + (a - (s + 1))))
        else m' a)
      → x ≡ (
          if in_range s (suc n) a
          then (if has_nul m t (a - s) then 0 else m (t + (a - s)))
          else m a)
strncpy_round m s t n a x h z e =
    ground (arith, has_nul-store m s (m t) (t + 1) (a - (s + 1)), has_nul_of_ne_zero m t (a - s))

-- When the n bytes at s and at t do not overlap, strncpy leaves at s + i, for i < n, the byte t + i
-- if no NUL stands before it and 0 otherwise, and it changes no other byte.
pub strncpy_lem :
    (m : Memory) (s t n a : ℕ)
    → (s + n ≤ t) ⊎ (t + n ≤ s)
    → strncpy m s t n a
      ≡ (if in_range s n a then (if has_nul m t (a - s) then 0 else m (t + (a - s))) else m a)
unfolding strncpy
strncpy_lem m s t zero a h = ground arith
strncpy_lem m s t (suc n) a h = elim (Bool-cases (m t == 0)) [
  | inl z ↦
      ground (arith, zero_fill_lem n (s + 1) a (store m s (m t)), has_nul_of_ne_zero m t (a - s))
  | inr z ↦ rw z (
      strncpy_round m s t n a _ h (ground arith)
        (strncpy_lem (store m s (m t)) (s + 1) (t + 1) n a (ground arith)))
]

strlen_loop_lem :
    (fuel : ℕ) (m : Memory) (s n k : ℕ)
    → k < fuel
    → has_nul m (s + n) k ≡ false
    → m (s + n + k) ≡ 0
    → strlen_loop fuel m s n ≡ some (n + k)
unfolding strlen_loop
strlen_loop_lem zero m s n k h nz z = absurd (omega arith)
strlen_loop_lem (suc fuel) m s n zero h nz z = ground arith
strlen_loop_lem (suc fuel) m s n (suc k) h nz z = ground (arith, strlen_loop_lem fuel m s (n + 1) k)

-- With fuel for more than k rounds, strlen returns k, the index of the first NUL.
pub strlen_lem :
    (fuel : ℕ) (m : Memory) (s k : ℕ)
    → k < fuel
    → has_nul m s k ≡ false
    → m (s + k) ≡ 0
    → strlen fuel m s ≡ some k
unfolding strlen
strlen_lem fuel m s k h nz z = ground (arith, strlen_loop_lem fuel m s 0 k)

cstr-store :
    (m : Memory) (s c p n : ℕ) → (s < p) ⊎ (p + n ≤ s) → cstr (store m s c) p n ≡ cstr m p n
cstr-store m s c p zero h = refl
cstr-store m s c p (suc n) h = ground (arith, cstr-store m s c (p + 1) n)

safestrcpy_loop_outside :
    (n s t a : ℕ) (m : Memory) → in_range s (suc n) a ≡ false → safestrcpy_loop n s t m a ≡ m a
unfolding safestrcpy_loop
safestrcpy_loop_outside zero s t a m h = ground arith
safestrcpy_loop_outside (suc n) s t a m h =
    ground (arith, safestrcpy_loop_outside n (s + 1) (t + 1) a (store m s (m t)))

cstr-safestrcpy_loop :
    (n s t : ℕ) (m : Memory)
    → (s + suc n ≤ t) ⊎ (t + n ≤ s)
    → cstr (safestrcpy_loop n s t m) s (suc n) ≡ cstr m t n
unfolding safestrcpy_loop
cstr-safestrcpy_loop zero s t m h = ground arith
cstr-safestrcpy_loop (suc n) s t m h = ground (
  arith,
  cstr-safestrcpy_loop n (s + 1) (t + 1) (store m s (m t)),
  safestrcpy_loop_outside n (s + 1) (t + 1) s (store m s (m t)),
  cstr-store m s (m t) (t + 1) n,
)

safestrcpy_loop_nul : (n s t : ℕ) (m : Memory) → has_nul (safestrcpy_loop n s t m) s (suc n) ≡ true
unfolding safestrcpy_loop
safestrcpy_loop_nul zero s t m = ground arith
safestrcpy_loop_nul (suc n) s t m =
    ground (arith, safestrcpy_loop_nul n (s + 1) (t + 1) (store m s (m t)))

-- When the n + 1 bytes at s do not overlap the n bytes at t, safestrcpy with size n + 1 leaves at s
-- the string of t cut at n bytes, terminated by NUL within the n + 1 bytes, and changes no byte
-- outside of them.
pub safestrcpy_lem :
    (m : Memory) (s t n : ℕ)
    → (s + suc n ≤ t) ⊎ (t + n ≤ s)
    → (cstr (safestrcpy m s t (suc n)) s (suc n) ≡ cstr m t n)
      × (has_nul (safestrcpy m s t (suc n)) s (suc n) ≡ true)
      × ((a : ℕ) → in_range s (suc n) a ≡ false → safestrcpy m s t (suc n) a ≡ m a)
unfolding safestrcpy
safestrcpy_lem m s t n h = (
  cstr-safestrcpy_loop n s t m h,
  safestrcpy_loop_nul n s t m,
  λ a. safestrcpy_loop_outside n s t a m,
)
