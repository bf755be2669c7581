-- ===== src/Kalloc/Init.antt =====
-- kinit and freerange of kernel/kalloc.c: which pages are free after the boot.
use oslab.Prelude.{
  ℕ, suc, zero, ◌+◌, ◌-◌, ◌/◌, ◌%◌, ◌≤◌, ◌<◌, ◌≡◌, refl, Bool, ◌&&◌, List, [], ◌∷◌, arith, ltb, leb,
  ◌==◌, Bool-cases, inl, inr,
}
use oslab.Prelude.Run.{done}
use oslab.Kalloc.{page_size, phystop, page_round_up, Kmem, freerange_loop, kinit}
use oslab.Kalloc.FreeList.{has, FreeList, kfree-FreeList}

-- `a` is a whole page of the memory from `kend` to PHYSTOP
abbrev pub is_page : ℕ → ℕ → Bool
is_page kend a = (a % page_size == 0) && (leb kend a && ltb a phystop)

-- the free list holds exactly the pages below `p`
abbrev FreeBelow : ℕ → ℕ → Kmem → List ℕ → Type 0
FreeBelow kend p k xs = FreeList kend k xs × ((a : ℕ) → has a xs ≡ (is_page kend a && ltb a p))

freerange_loop_lem :
    (fuel kend p : ℕ) (k : Kmem) (xs : List ℕ)
    → (phystop - p) / page_size < fuel
    → p % page_size ≡ 0
    → kend ≤ p
    → p ≤ phystop
    → FreeBelow kend p k xs
    → (k' : Kmem) × (ys : List ℕ) × (freerange_loop kend fuel p phystop k ≡ done k')
      × FreeBelow kend phystop k' ys
unfolding freerange_loop
freerange_loop_lem zero kend p k xs h al lo hi f = absurd (omega arith)
freerange_loop_lem (suc fuel) kend p k xs h al lo hi (f, all) =
    elim (Bool-cases (leb (p + page_size) phystop)) [
      | inl more ↦
          let (k', e, f', _) =
            kfree-FreeList kend k p xs f (al, lo, ground arith) (ground (arith, all p)) in
          rw (more, e)
            (freerange_loop_lem fuel kend (p + page_size) k' (p ∷ xs) (omega arith) (omega arith)
              (omega arith) (ground arith) (f', λ a. ground (arith, all a)))
      | inr stop ↦ rw stop (k, xs, refl, (f, λ a. ground (arith, all a)))
    ]

-- With `end` above 0 and not above PHYSTOP, and an empty free list, kinit does not panic, and leaves
-- a free list of distinct pages that holds exactly the page aligned addresses from `end` to PHYSTOP.
pub kinit-FreeList :
    (kend : ℕ) (k : Kmem)
    → 0 < kend
    → kend ≤ phystop
    → k.freelist ≡ 0
    → (k' : Kmem) × (xs : List ℕ) × (kinit kend k ≡ done k')
      × FreeList kend k' xs
      × ((a : ℕ) → has a xs ≡ is_page kend a)
unfolding kinit
kinit-FreeList kend k pos top none_free =
    let (k', xs, e, (f, all)) =
      freerange_loop_lem (phystop / page_size + 1) kend (page_round_up kend) k [] (omega arith)
        (omega arith) (omega arith) (omega arith) ((pos, none_free), λ a. ground arith) in
    (k', xs, e, f, λ a. ground (arith, all a))
