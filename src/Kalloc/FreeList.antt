-- ===== src/Kalloc/FreeList.antt =====
-- The free list of kernel/kalloc.c as a list of distinct pages, and what kalloc and kfree do to it.
use oslab.Prelude.{
  ℕ, ◌+◌, ◌%◌, ◌≤◌, ◌<◌, ◌≡◌, ◌≢◌, refl, Bool, false, ◌&&◌, ◌||◌, List, [], ◌∷◌, arith, ltb, leb,
  ◌==◌, if◌then◌else◌, ◌⊎◌, ◌↔◌,
}
use oslab.Prelude.Run.{done, panic}
use oslab.Kalloc.{page_size, phystop, Words, Kmem, fill_page, set_next, kfree, kalloc}

abbrev pub has : ℕ → List ℕ → Bool
has a [] = false
has a (x ∷ xs) = a == x || has a xs

-- `x` is the address of a page that kfree accepts
abbrev pub IsPage : ℕ → ℕ → Type 0
IsPage kend x = (x % page_size ≡ 0) × (kend ≤ x) × (x < phystop)

-- from `p` the words lead through the distinct pages `xs` to 0
abbrev pub Linked : ℕ → Words → ℕ → List ℕ → Type 0
Linked kend m p [] = p ≡ 0
Linked kend m p (x ∷ xs) = (p ≡ x) × IsPage kend x × (has x xs ≡ false) × Linked kend m (m x) xs

abbrev pub FreeList : ℕ → Kmem → List ℕ → Type 0
FreeList kend k xs = (0 < kend) × Linked kend k.words k.freelist xs

-- the words of the page at `pa`
abbrev pub in_page : ℕ → ℕ → Bool
in_page pa a = leb pa a && ltb a (pa + page_size)

-- A list of pages survives any change within a page that is not on it.
Linked-frame :
    (kend pg p : ℕ) (m m' : Words) (xs : List ℕ)
    → pg % page_size ≡ 0
    → has pg xs ≡ false
    → ((a : ℕ) → in_page pg a ≡ false → m' a ≡ m a)
    → Linked kend m p xs
    → Linked kend m' p xs
Linked-frame kend pg p m m' [] al out same l = l
Linked-frame kend pg p m m' (x ∷ xs) al out same (e, pag, new, l) = (
  e,
  pag,
  new,
  rw (same x (ground arith)) (Linked-frame kend pg (m x) m m' xs al (ground arith) same l),
)

module _ (kend : ℕ) (k : Kmem) where
  -- kfree panics exactly on an address that is not page aligned, or lies below `end` or from PHYSTOP
  -- on.
  pub kfree-panic :
      (pa : ℕ)
      → (kfree kend k pa ≡ panic "kfree") ↔ ((pa % page_size ≢ 0) ⊎ ((pa < kend) ⊎ (phystop ≤ pa)))
  unfolding kfree
  kfree-panic pa = (λ h. ground arith, λ h. ground arith)

  freed : ℕ → Kmem
  freed pa = record { words = set_next (fill_page k.words pa 1) pa k.freelist; freelist = pa }

  freed-words : (pa : ℕ) → (freed pa).words pa ≡ k.freelist
  unfolding freed
  freed-words pa = ground arith

  freed-words_outside : (pa a : ℕ) → in_page pa a ≡ false → (freed pa).words a ≡ k.words a
  unfolding freed
  freed-words_outside pa a h = ground arith

  -- With a free list of the pages `xs`, kfree of a page that is not among them puts it in front of
  -- the list, and writes to no other page.
  pub kfree-FreeList :
      (pa : ℕ) (xs : List ℕ)
      → FreeList kend k xs
      → IsPage kend pa
      → has pa xs ≡ false
      → (k' : Kmem) × (kfree kend k pa ≡ done k')
        × FreeList kend k' (pa ∷ xs)
        × ((a : ℕ) → in_page pa a ≡ false → k'.words a ≡ k.words a)
  unfolding kfree freed
  kfree-FreeList pa xs (pos, l) pag new = (
    freed pa,
    ground arith,
    (
      pos,
      (
        refl,
        pag,
        new,
        rw (freed-words pa)
            (Linked-frame kend pa k.freelist k.words _ xs pag.0 new (freed-words_outside pa) l),
      ),
    ),
    freed-words_outside pa,
  )

  -- With no page left, kalloc returns 0 and changes nothing.
  pub kalloc-nil : FreeList kend k [] → kalloc k ≡ (0, k)
  unfolding kalloc
  kalloc-nil h = ground arith

  taken : ℕ → Kmem
  taken p = record { words = fill_page k.words p 5; freelist = k.words p }

  kalloc-taken : (p : ℕ) → k.freelist ≡ p → p ≢ 0 → kalloc k ≡ (p, taken p)
  unfolding kalloc taken
  kalloc-taken p e nz = rw (← e) (ground arith)

  -- With a free list that is not empty, kalloc returns its first page, filled with fives, leaves the
  -- others free, and writes to no other page.
  pub kalloc-cons :
      (p : ℕ) (xs : List ℕ)
      → FreeList kend k (p ∷ xs)
      → let (r, k') = kalloc k in
        (r ≡ p)
        × IsPage kend p
        × (has p xs ≡ false)
        × FreeList kend k' xs
        × ((a : ℕ) → k'.words a ≡ (if in_page p a then 0x0505050505050505 else k.words a))
  unfolding taken
  kalloc-cons p xs (pos, (e, pag, new, l)) = rw (kalloc-taken p e (omega arith)) (
    refl,
    pag,
    new,
    (pos, Linked-frame kend p (k.words p) k.words _ xs pag.0 new (λ a h. ground arith) l),
    λ a. refl,
  )
