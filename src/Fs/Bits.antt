-- ===== src/Fs/Bits.antt =====
-- The bits of a byte, as balloc and bfree of kernel/fs.c test and change them.
use Prim.Native.Nat.{bit_and, bit_or}
use oslab.Prelude.{
  ℕ, zero, suc, ◌-◌, ◌/◌, ◌%◌, ◌^◌, ◌<◌, ◌≡◌, refl, Bool, true, false, not, ◌&&◌, ◌==◌, arith,
  if◌then◌else◌, ltb, ltb→lt, put, ℕ_discrete, ◌∙◌,
}
use oslab.Fs.{is_free, set_bit, clear_bit}

conj : (a b : Bool) → (a && b) ≡ true → (a ≡ true) × (b ≡ true)
conj a b h = ground arith

-- a test that each number under a bound passes
every : (ℕ → Bool) → ℕ → Bool
every test zero = true
every test (suc bound) = let below = every test bound in below && test bound

every-passes :
    (test : ℕ → Bool) (bound value : ℕ)
    → every test bound ≡ true
    → value < bound
    → test value ≡ true
unfolding every
every-passes test zero value passed under = absurd (omega arith)
every-passes test (suc bound) value passed under = elim (ℕ_discrete value bound) [
  | yes e ↦ rw e (conj (every test bound) (test bound) passed).1
  | no ne ↦
      every-passes test bound value (conj (every test bound) (test bound) passed).0 (omega arith)
]

-- bit `k` of the byte `v` is clear
abbrev pub is_clear : ℕ → ℕ → Bool
is_clear v k = bit_and v (2 ^ k) == 0

same : Bool → Bool → Bool
same true b = b
same false b = not b

same-eq : (a b : Bool) → same a b ≡ true → a ≡ b
unfolding same
same-eq true b h = ground arith
same-eq false b h = ground arith

or_table :
    every
      (λ k.
        every
          (λ j.
            every
              (λ v.
                same (is_clear (bit_or v (2 ^ k)) j) (if k == j then false else is_clear v j)
                && ltb (bit_or v (2 ^ k)) 256)
              256)
          8)
      8
    ≡ true
unfolding every same
or_table = refl

and_table :
    every
      (λ k.
        every
          (λ j.
            every
              (λ v.
                same (is_clear (bit_and v (255 - 2 ^ k)) j) (if k == j then true else is_clear v j)
                && ltb (bit_and v (255 - 2 ^ k)) 256)
              256)
          8)
      8
    ≡ true
unfolding every same
and_table = refl

-- the bytes of a block, each below 256
abbrev pub IsBytes : (ℕ → ℕ) → Type 0
IsBytes bytes = (i : ℕ) → bytes i < 256

module _ (op : ℕ → ℕ → ℕ) (bit : Bool)
    (table : every
        (λ k.
          every
            (λ j.
              every
                (λ v.
                  same (is_clear (op v k) j) (if k == j then bit else is_clear v j)
                  && ltb (op v k) 256)
                256)
            8)
        8
      ≡ true) where
  table_lem :
      (v k j : ℕ)
      → v < 256
      → k < 8
      → j < 8
      → (is_clear (op v k) j ≡ (if k == j then bit else is_clear v j)) × (op v k < 256)
  table_lem v k j lv lk lj =
      let at_k = every-passes _ 8 k table lk in
      let at_j = every-passes _ 8 j at_k lj in
      let at_v = every-passes _ 256 v at_j lv in
      let (e, small) = conj _ _ at_v in (same-eq _ _ e, ltb→lt (op v k) 256 small)

  module _ (bytes : ℕ → ℕ) (v : IsBytes bytes) (bi : ℕ) where
    changed : ℕ → ℕ
    changed = put bytes (bi / 8) (op (bytes (bi / 8)) (bi % 8))

    changed-IsBytes : IsBytes changed
    unfolding changed
    changed-IsBytes i =
        let small =
          (table_lem (bytes (bi / 8)) (bi % 8) 0 (v (bi / 8)) (omega arith) (omega arith)).1 in
        ground (arith, v i)

    is_free-changed : (j : ℕ) → is_free changed j ≡ (if bi == j then bit else is_free bytes j)
    unfolding changed
    is_free-changed j = elim (ℕ_discrete (bi / 8) (j / 8)) [
      | yes e ↦
          let found =
            (table_lem (bytes (bi / 8)) (bi % 8) (j % 8) (v (bi / 8)) (omega arith)
              (omega arith)).0 in
          let same_bit : (bi % 8 == j % 8) ≡ (bi == j) = ground arith in
          let here : (bi / 8 == j / 8) ≡ true = ground arith in
          rw here (found ∙ rw (same_bit, e) refl)
      | no ne ↦
          let here : (bi / 8 == j / 8) ≡ false = ground arith in
          let other : (bi == j) ≡ false = ground arith in rw (here, other) refl
    ]

module _ (bytes : ℕ → ℕ) (v : IsBytes bytes) (bi : ℕ) where
  pub set_bit-IsBytes : IsBytes (set_bit bytes bi)
  unfolding changed
  set_bit-IsBytes = changed-IsBytes (λ v k. bit_or v (2 ^ k)) false or_table bytes v bi

  pub is_free-set_bit :
      (j : ℕ) → is_free (set_bit bytes bi) j ≡ (if bi == j then false else is_free bytes j)
  unfolding changed
  is_free-set_bit = is_free-changed (λ v k. bit_or v (2 ^ k)) false or_table bytes v bi

  pub clear_bit-IsBytes : IsBytes (clear_bit bytes bi)
  unfolding changed
  clear_bit-IsBytes = changed-IsBytes (λ v k. bit_and v (255 - 2 ^ k)) true and_table bytes v bi

  pub is_free-clear_bit :
      (j : ℕ) → is_free (clear_bit bytes bi) j ≡ (if bi == j then true else is_free bytes j)
  unfolding changed
  is_free-clear_bit = is_free-changed (λ v k. bit_and v (255 - 2 ^ k)) true and_table bytes v bi
