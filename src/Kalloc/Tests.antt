-- ===== src/Kalloc/Tests.antt =====
-- The theorems on kernel/kalloc.c for a machine with two free pages.
use oslab.Prelude.{ℕ, ◌≡◌, refl, List, [], ◌∷◌, arith}
use oslab.Prelude.Run.{done, ◌>>=◌}
use oslab.Kalloc.{Kmem, kalloc, kinit}
use oslab.Kalloc.FreeList.{has, FreeList}
use oslab.Kalloc.Init.{is_page, kinit-FreeList}

abbrev kend : ℕ
kend = 0x87ffd123

abbrev first_page : ℕ
first_page = 0x87ffe000

abbrev second_page : ℕ
second_page = 0x87fff000

abbrev empty : Kmem
empty = record { words = λ a. 7; freelist = 0 }

-- only the first page is free
abbrev one_free : Kmem
one_free = record { words = λ a. 0; freelist = first_page }

one_free-FreeList : FreeList kend one_free (first_page ∷ [])
one_free-FreeList = ground arith

-- kinit frees the pages upwards, so kalloc hands out the last one
kinit_then_kalloc : (kinit kend empty >>= λ k. done (kalloc k).0) ≡ done second_page
unfolding kinit kalloc
kinit_then_kalloc = refl

kinit-FreeList_example :
    (k' : Kmem) × (xs : List ℕ) × (kinit kend empty ≡ done k')
    × FreeList kend k' xs
    × ((a : ℕ) → has a xs ≡ is_page kend a)
kinit-FreeList_example = kinit-FreeList kend empty (omega arith) (omega arith) refl
