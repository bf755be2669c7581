-- ===== src/Str/Compare.antt =====
-- memcmp and strncmp of kernel/string.c: when they return 0.
use oslab.Prelude.{ℕ, zero, suc, ◌+◌, ◌≡◌, ◌↔◌, refl, List, [], ◌∷◌, arith, ◌==◌, if◌then◌else◌}
use oslab.Prelude.Int.{pos, sub_ℕ-eq_zero}
use oslab.Str.{Memory, memcmp, strncmp}

-- the `n` bytes from `p`
abbrev pub bytes : Memory → ℕ → ℕ → List ℕ
bytes m p zero = []
bytes m p (suc n) = m p ∷ bytes m (p + 1) n

-- the C string at `p`, at most `n` bytes of it, without its NUL
abbrev pub cstr : Memory → ℕ → ℕ → List ℕ
cstr m p zero = []
cstr m p (suc n) = let rest = cstr m (p + 1) n in if m p == 0 then [] else m p ∷ rest

-- memcmp returns 0 exactly when the n bytes at s1 are the n bytes at s2.
pub memcmp-eq_zero :
    (m : Memory) (s1 s2 n : ℕ) → (memcmp m s1 s2 n ≡ pos 0) ↔ (bytes m s1 n ≡ bytes m s2 n)
unfolding memcmp
memcmp-eq_zero m s1 s2 zero = (λ h. refl, λ h. refl)
memcmp-eq_zero m s1 s2 (suc n) =
    ground (arith, memcmp-eq_zero m (s1 + 1) (s2 + 1) n, sub_ℕ-eq_zero (m s1) (m s2))

-- strncmp returns 0 exactly when the strings at p and q, cut at n bytes, are the same.
pub strncmp-eq_zero :
    (m : Memory) (p q n : ℕ) → (strncmp m p q n ≡ pos 0) ↔ (cstr m p n ≡ cstr m q n)
unfolding strncmp
strncmp-eq_zero m p q zero = (λ h. refl, λ h. refl)
strncmp-eq_zero m p q (suc n) =
    ground (arith, strncmp-eq_zero m (p + 1) (q + 1) n, sub_ℕ-eq_zero (m p) (m q))
