-- ===== src/Fs/Inode/Fields/Bytes.antt =====
-- Numbers and addresses in a block of inodes of kernel/fs.c.
use oslab.Prelude.{
  ℕ, zero, suc, ◌+◌, ◌-◌, ◌*◌, ◌≤◌, ◌<◌, ◌≡◌, ◌⊎◌, inl, inr, refl, sym, ap, ◌∙◌, true, false, arith,
  ◌==◌, ℕ_discrete,
}
use oslab.Fs.{uint_mod, get_word, set_word, get_short, set_short}
use oslab.Fs.Bits.{IsBytes}
use oslab.Fs.Words.{set_word-IsBytes, get_word-set_word, set_word_outside}
use oslab.Fs.Inode.{store_addrs}

pub set_short-IsBytes : (bytes : ℕ → ℕ) (i v : ℕ) → IsBytes bytes → IsBytes (set_short bytes i v)
set_short-IsBytes bytes i v ok j = ground (arith, ok j)

pub set_short_outside :
    (bytes : ℕ → ℕ) (i v j : ℕ) → (j < i) ⊎ (i + 2 ≤ j) → set_short bytes i v j ≡ bytes j
set_short_outside bytes i v j far = ground arith

pub get_short-set_short :
    (bytes : ℕ → ℕ) (i v : ℕ) → v < 65536 → get_short (set_short bytes i v) i ≡ v
get_short-set_short bytes i v lt =
    let self : (i == i) ≡ true = ground arith in
    let next : (i + 1 == i + 1) ≡ true = ground arith in
    let apart : (i + 1 == i) ≡ false = ground arith in rw (self, next, apart) (omega arith)

pub store_addrs-IsBytes :
    (rounds k i : ℕ) (addrs bytes : ℕ → ℕ)
    → IsBytes bytes
    → IsBytes (store_addrs rounds k i addrs bytes)
unfolding store_addrs
store_addrs-IsBytes zero k i addrs bytes ok = ok
store_addrs-IsBytes (suc rounds) k i addrs bytes ok =
    store_addrs-IsBytes rounds (k + 1) (i + 4) addrs (set_word bytes i (addrs k))
      (set_word-IsBytes bytes i (addrs k) ok)

pub store_addrs_outside :
    (rounds k i j : ℕ) (addrs bytes : ℕ → ℕ)
    → (j < i) ⊎ (i + 4 * rounds ≤ j)
    → store_addrs rounds k i addrs bytes j ≡ bytes j
unfolding store_addrs
store_addrs_outside zero k i j addrs bytes far = refl
store_addrs_outside (suc rounds) k i j addrs bytes far =
    store_addrs_outside rounds (k + 1) (i + 4) j addrs (set_word bytes i (addrs k))
      (elim far [ inl low ↦ inl (omega arith) | inr high ↦ inr (omega arith) ])
    ∙ set_word_outside bytes i j (addrs k)
        (elim far [ inl low ↦ inl low | inr high ↦ inr (omega arith) ])

pub get_word-same :
    (f g : ℕ → ℕ) (i : ℕ) → ((j : ℕ) → i ≤ j → j < i + 4 → f j ≡ g j) → get_word f i ≡ get_word g i
get_word-same f g i h = omega (
  arith,
  h i (omega arith) (omega arith),
  h (i + 1) (omega arith) (omega arith),
  h (i + 2) (omega arith) (omega arith),
  h (i + 3) (omega arith) (omega arith),
)

pub get_word-store_addrs :
    (rounds k i j : ℕ) (addrs bytes : ℕ → ℕ)
    → j < rounds
    → addrs (k + j) < uint_mod
    → get_word (store_addrs rounds k i addrs bytes) (i + 4 * j) ≡ addrs (k + j)
unfolding store_addrs
get_word-store_addrs zero k i j addrs bytes lt u = absurd (omega arith)
get_word-store_addrs (suc rounds) k i j addrs bytes lt u = elim (ℕ_discrete j 0) [
  | yes z ↦
      let place : i + 4 * j ≡ i = omega arith in
      let which : k + j ≡ k = omega arith in
      ap (get_word (store_addrs rounds (k + 1) (i + 4) addrs (set_word bytes i (addrs k)))) place
      ∙ get_word-same (store_addrs rounds (k + 1) (i + 4) addrs (set_word bytes i (addrs k)))
          (set_word bytes i (addrs k)) i
          (λ l lo hi.
            store_addrs_outside rounds (k + 1) (i + 4) l addrs (set_word bytes i (addrs k))
              (inl hi))
      ∙ get_word-set_word bytes i (addrs k) (rw (← which) u)
      ∙ ap addrs (sym which)
  | no ne ↦
      let place : i + 4 * j ≡ i + 4 + 4 * (j - 1) = omega arith in
      let which : k + j ≡ k + 1 + (j - 1) = omega arith in
      ap (get_word (store_addrs rounds (k + 1) (i + 4) addrs (set_word bytes i (addrs k)))) place
      ∙ get_word-store_addrs rounds (k + 1) (i + 4) (j - 1) addrs (set_word bytes i (addrs k))
          (omega arith) (rw (← which) u)
      ∙ ap addrs (sym which)
]
