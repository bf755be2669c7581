-- ===== src/Fs/Words.antt =====
-- Numbers stored in the bytes of a block: what a load reads after a store.
use oslab.Prelude.{ℕ, ◌+◌, ◌≤◌, ◌<◌, ◌≡◌, ◌⊎◌, arith}
use oslab.Fs.{get_word, set_word, uint_mod}
use oslab.Fs.Bits.{IsBytes}

pub set_word-IsBytes : (bytes : ℕ → ℕ) (i v : ℕ) → IsBytes bytes → IsBytes (set_word bytes i v)
set_word-IsBytes bytes i v h j = ground (arith, h j)

pub get_word-lt : (bytes : ℕ → ℕ) (i : ℕ) → IsBytes bytes → get_word bytes i < uint_mod
get_word-lt bytes i h = omega (arith, h i, h (i + 1), h (i + 2), h (i + 3))

pub get_word-set_word :
    (bytes : ℕ → ℕ) (i v : ℕ) → v < uint_mod → get_word (set_word bytes i v) i ≡ v
get_word-set_word bytes i v h = ground arith

-- a word beside the one that is stored
pub get_word-set_word_other :
    (bytes : ℕ → ℕ) (i j v : ℕ)
    → (i + 4 ≤ j) ⊎ (j + 4 ≤ i)
    → get_word (set_word bytes i v) j ≡ get_word bytes j
get_word-set_word_other bytes i j v h = ground arith

-- a byte outside of the word
pub set_word_outside :
    (bytes : ℕ → ℕ) (i j v : ℕ) → (j < i) ⊎ (i + 4 ≤ j) → set_word bytes i v j ≡ bytes j
set_word_outside bytes i j v h = ground arith
