-- ===== src/Bio/Order.antt =====
-- The searches in the list of buffers of kernel/bio.c, and the list after brelse.
use oslab.Prelude.{
  ℕ, ◌≡◌, ◌≢◌, inl, inr, refl, sym, ap, ◌∙◌, Bool, true, false, ◌&&◌, ◌||◌, List, [], ◌∷◌, ◌++◌,
  none, some, ◌==◌, arith, if◌then◌else◌, Option-cases, ℕ_discrete,
}
use oslab.Bio.{Buf, find_block, find_unused, unlink}

abbrev pub has : List ℕ → ℕ → Bool
has [] y = false
has (x ∷ xs) y = x == y || has xs y

abbrev pub is_block : ℕ → ℕ → Buf → Bool
is_block dev blockno b = b.dev == dev && b.blockno == blockno

pub find_block-some :
    (dev blockno : ℕ) (buf : ℕ → Buf) (order : List ℕ) (i : ℕ)
    → find_block dev blockno buf order ≡ some i
    → (has order i ≡ true) × (is_block dev blockno (buf i) ≡ true)
unfolding find_block
find_block-some dev blockno buf [] i e = cc
find_block-some dev blockno buf (j ∷ js) i e = ground (arith, find_block-some dev blockno buf js i)

pub find_block-none :
    (dev blockno : ℕ) (buf : ℕ → Buf) (order : List ℕ) (i : ℕ)
    → find_block dev blockno buf order ≡ none
    → has order i ≡ true
    → is_block dev blockno (buf i) ≡ false
unfolding find_block
find_block-none dev blockno buf [] i e h = cc
find_block-none dev blockno buf (j ∷ js) i e h = elim (ℕ_discrete j i) [
  | yes same ↦
      let first : is_block dev blockno (buf j) ≡ false = ground arith in
      ap (λ x. is_block dev blockno (buf x)) (sym same) ∙ first
  | no ne ↦ find_block-none dev blockno buf js i (ground arith) (ground arith)
]

-- the last buffer of the list that is not used
abbrev pub LastUnused : (ℕ → Buf) → List ℕ → ℕ → Type 0
LastUnused buf order i =
    (before : List ℕ) × (after : List ℕ) × (order ≡ before ++ (i ∷ after))
    × ((buf i).refcnt ≡ 0)
    × ((j : ℕ) → has after j ≡ true → (buf j).refcnt ≢ 0)

pub find_unused-none :
    (buf : ℕ → Buf) (order : List ℕ) (i : ℕ)
    → find_unused buf order ≡ none
    → has order i ≡ true
    → (buf i).refcnt ≢ 0
unfolding find_unused
find_unused-none buf [] i e h = cc
find_unused-none buf (j ∷ js) i e h = elim (Option-cases (find_unused buf js)) [
  | inr (k, found) ↦ let e' = rw found at e in cc
  | inl none_behind ↦
      let e' : (if (buf j).refcnt == 0 then some j else none) ≡ none = rw none_behind at e in
      elim (ℕ_discrete j i) [
        | yes same ↦ rw (← same) (ground arith)
        | no ne ↦ find_unused-none buf js i none_behind (ground arith)
      ]
]

pub find_unused-some :
    (buf : ℕ → Buf) (order : List ℕ) (i : ℕ)
    → find_unused buf order ≡ some i
    → LastUnused buf order i
unfolding find_unused
find_unused-some buf [] i e = cc
find_unused-some buf (j ∷ js) i e = elim (Option-cases (find_unused buf js)) [
  | inl none_behind ↦
      let e' : (if (buf j).refcnt == 0 then some j else none) ≡ some i = rw none_behind at e in
      let unused : (buf j).refcnt ≡ 0 = ground arith in
      let same : j ≡ i = ground arith in
      (
        [],
        js,
        ap (λ x. x ∷ js) same,
        rw (← same) unused,
        λ l behind. find_unused-none buf js l none_behind behind,
      )
  | inr (k, found) ↦
      let (before, after, split, unused, used) = find_unused-some buf js k found in
      let e' : some k ≡ some i = rw found at e in
      let same : k ≡ i = ground arith in
      (
        j ∷ before,
        after,
        ap (λ l. j ∷ l) split ∙ ap (λ x. j ∷ before ++ (x ∷ after)) same,
        rw (← same) unused,
        used,
      )
]

pub has-split : (before after : List ℕ) (i : ℕ) → has (before ++ (i ∷ after)) i ≡ true
has-split [] after i = ground arith
has-split (j ∷ before) after i = ground (arith, has-split before after i)

pub has-unlink :
    (order : List ℕ) (i y : ℕ) → (i == y || has (unlink i order) y) ≡ (i == y || has order y)
unfolding unlink
has-unlink [] i y = refl
has-unlink (j ∷ js) i y = ground (arith, has-unlink js i y)
