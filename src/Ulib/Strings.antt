-- ===== src/Ulib/Strings.antt =====
-- strcpy, strcmp, strlen and memmove of user/ulib.c.
use oslab.Prelude.{
  ℕ_discrete, ℕ, zero, suc, ◌+◌, ◌≤◌, ◌<◌, ◌≡◌, ◌≢◌, ◌↔◌, ◌⊎◌, refl, sym, ap, ◌∙◌, true, false, not,
  ◌&&◌, List, [], ◌∷◌, some, arith, ◌==◌, length,
}
use oslab.Prelude.Int.{ℤ, pos, sub_ℕ, sub_ℕ-eq_zero}
use oslab.Str.{Memory, store}
use oslab.Str.Copy.{in_range, forward_lem, backward_lem, memmove_lem}
use oslab.Str
use oslab.Ulib.{strcpy, strcmp, memmove}

-- the string at `p`: its bytes, none of them zero, and a zero byte
abbrev pub Holds : Memory → ℕ → List ℕ → Type 0
Holds m p [] = m p ≡ 0
Holds m p (c ∷ s) = (m p ≡ c) × (c ≢ 0) × Holds m (p + 1) s

-- The memories agree on the string and its zero byte.
pub Holds-same :
    (m more : Memory) (p : ℕ) (s : List ℕ)
    → ((a : ℕ) → p ≤ a → a ≤ p + length s → more a ≡ m a)
    → Holds m p s
    → Holds more p s
Holds-same m more p [] same h = same p (omega arith) (omega arith) ∙ h
Holds-same m more p (c ∷ s) same (e, ne, h) = (
  same p (omega arith) (omega arith) ∙ e,
  ne,
  Holds-same m more (p + 1) s (λ a lo hi. same a (omega (arith, lo)) (omega (arith, hi))) h,
)

first_of : List ℕ → ℕ
first_of [] = 0
first_of (c ∷ s) = c

rest_of : List ℕ → List ℕ
rest_of [] = []
rest_of (c ∷ s) = s

-- the last round: one of the bytes is zero, or they differ
strcmp_ends :
    (fuel : ℕ) (m : Memory) (p q : ℕ) (s t : List ℕ)
    → (not (m p == 0) && m p == m q) ≡ false
    → ((m p ≡ m q) ↔ (s ≡ t))
    → (r : ℤ) × (strcmp (suc fuel) m p q ≡ some r) × ((r ≡ pos 0) ↔ (s ≡ t))
unfolding strcmp
strcmp_ends fuel m p q s t last same =
    let zero_iff = sub_ℕ-eq_zero (m p) (m q) in
    (sub_ℕ (m p) (m q), rw last refl, (λ z. same.0 (zero_iff.0 z), λ e. zero_iff.1 (same.1 e)))

-- strcmp of two strings ends with fuel for one of them, and returns 0 exactly when they are the same.
pub strcmp_lem :
    (fuel : ℕ) (m : Memory) (p q : ℕ) (s t : List ℕ)
    → Holds m p s
    → Holds m q t
    → length s < fuel
    → (r : ℤ) × (strcmp fuel m p q ≡ some r) × ((r ≡ pos 0) ↔ (s ≡ t))
unfolding strcmp first_of rest_of
strcmp_lem zero m p q s t hs ht lt = absurd (omega arith)
strcmp_lem (suc fuel) m p q [] [] hs ht lt =
    strcmp_ends fuel m p q [] [] (ground (arith, hs)) (λ e. refl, λ e. hs ∙ sym ht)
strcmp_lem (suc fuel) m p q [] (d ∷ t) hs (e, ne, ht) lt =
    strcmp_ends fuel m p q [] (d ∷ t) (ground (arith, hs))
      (λ same. absurd (ne (sym e ∙ sym same ∙ hs)), λ same. absurd (ne (ap first_of (sym same))))
strcmp_lem (suc fuel) m p q (c ∷ s) [] (e, ne, hs) ht lt =
    strcmp_ends fuel m p q (c ∷ s) [] (ground (arith, e, ne, ht))
      (λ same. absurd (ne (sym e ∙ same ∙ ht)), λ same. absurd (ne (ap first_of same)))
strcmp_lem (suc fuel) m p q (c ∷ s) (d ∷ t) (e, ne, hs) (e2, ne2, ht) lt = elim (ℕ_discrete c d) [
  | yes same ↦
      let (r, ends, iff) = strcmp_lem fuel m (p + 1) (q + 1) s t hs ht (omega (arith, lt)) in
      let more : (not (m p == 0) && m p == m q) ≡ true = ground (arith, e, ne, e2, same) in
      (r, rw more ends, (λ z. rw (same, iff.0 z) refl, λ l. iff.1 (ap rest_of l)))
  | no differ ↦
      strcmp_ends fuel m p q (c ∷ s) (d ∷ t) (ground (arith, e, e2, differ))
        (λ same. absurd (differ (sym e ∙ same ∙ e2)), λ same. absurd (differ (ap first_of same)))
]

-- strcpy ends with fuel for the string at `t`. If its place at `s` is apart from it, the same string is at `s`
-- then, and every other byte is as before.
pub strcpy_lem :
    (fuel : ℕ) (m : Memory) (s t : ℕ) (str : List ℕ)
    → Holds m t str
    → (s + length str < t) ⊎ (t + length str < s)
    → length str < fuel
    → (more : Memory) × (strcpy fuel m s t ≡ some more)
      × Holds more s str
      × ((a : ℕ) → in_range s (suc (length str)) a ≡ false → more a ≡ m a)
unfolding strcpy
strcpy_lem zero m s t str h apart lt = absurd (omega arith)
strcpy_lem (suc fuel) m s t [] h apart lt =
    let z : (m t == 0) ≡ true = ground (arith, h) in
    (store m s (m t), rw z refl, ground (arith, h), λ a out. ground (arith, out))
strcpy_lem (suc fuel) m s t (c ∷ str) (e, ne, h) apart lt =
    let z : (m t == 0) ≡ false = ground (arith, e, ne) in
    let (more, done_it, held, same) =
      strcpy_lem fuel (store m s (m t)) (s + 1) (t + 1) str
        (Holds-same m (store m s (m t)) (t + 1) str (λ a lo hi. ground (arith, lo, hi, apart)) h)
        (ground (arith, apart)) (omega (arith, lt)) in
    (
      more,
      rw z done_it,
      (same s (ground arith) ∙ ground arith ∙ e, ne, held),
      λ a out. same a (ground (arith, out)) ∙ ground (arith, out),
    )

-- memmove of user programs leaves in every memory the same as memmove of the kernel.
pub memmove-memmove :
    (m : Memory) (dst src n a : ℕ) → memmove m dst src n a ≡ Str.memmove m dst src n a
unfolding memmove
memmove-memmove m dst src n a =
    ground (arith, forward_lem n dst src a m, backward_lem n (dst + n) (src + n) a m)
    ∙ sym (memmove_lem m dst src n a)
