-- ===== src/Kalloc.antt =====
-- kernel/kalloc.c: the physical page allocator. The free list runs through the first word of each
-- free page, so the state is the word memory beside `kmem.freelist`; the pointer 0 ends the list.
-- Each function is one critical section of kmem.lock.
pub mod FreeList
pub mod Init
mod Tests
use oslab.Prelude.{
  ℕ, zero, suc, ◌+◌, ◌-◌, ◌*◌, ◌/◌, ◌%◌, ◌≡◌, not, ◌||◌, ◌&&◌, ltb, leb, ◌==◌, if◌then◌else◌,
}
use oslab.Prelude.Run.{Run, done, panic, out_of_fuel, ◌>>=◌}

abbrev pub page_size : ℕ
page_size = 4096

-- KERNBASE + 128 MB
abbrev pub phystop : ℕ
phystop = 0x88000000

-- `(sz + PGSIZE-1) & ~(PGSIZE-1)`
abbrev pub page_round_up : ℕ → ℕ
page_round_up n = (n + page_size - 1) / page_size * page_size

-- the 64-bit word at each address
abbrev pub Words : Type 0
Words = ℕ → ℕ

pub record Kmem : Type 0 where
  pub words : Words
  pub freelist : ℕ

-- `memset(pa, c, PGSIZE)`, seen by the words of the page
abbrev pub fill_page : Words → ℕ → ℕ → Words
fill_page m pa c a = if leb pa a && ltb a (pa + page_size) then c * 0x0101010101010101 else m a

-- `r->next = p`
abbrev pub set_next : Words → ℕ → ℕ → Words
set_next m r p a = if r == a then p else m a

-- `kend` is the symbol `end` that kernel.ld defines
unfoldable pub kfree : ℕ → Kmem → ℕ → Run Kmem
kfree kend k pa =
    if not (pa % page_size == 0) || ltb pa kend || leb phystop pa
    then panic "kfree"
    else done (record { words = set_next (fill_page k.words pa 1) pa k.freelist; freelist = pa })

unfoldable pub kalloc : Kmem → ℕ × Kmem
kalloc k = if k.freelist == 0 then (0, k) else (
  k.freelist,
  record { words = fill_page k.words k.freelist 5; freelist = k.words k.freelist },
)

-- `for(; p + PGSIZE <= pa_end; p += PGSIZE) kfree(p);`
freerange_loop : ℕ → ℕ → ℕ → ℕ → Kmem → Run Kmem
freerange_loop kend zero p pa_end k = out_of_fuel
freerange_loop kend (suc fuel) p pa_end k =
    let rest = λ (k' : Kmem). freerange_loop kend fuel (p + page_size) pa_end k' in
    if leb (p + page_size) pa_end then (kfree kend k p >>= rest) else done k

-- the fuel is one round more than the pages below `pa_end`
unfoldable pub freerange : ℕ → Kmem → ℕ → ℕ → Run Kmem
unfolding freerange_loop kfree
freerange kend k pa_start pa_end =
    freerange_loop kend (pa_end / page_size + 1) (page_round_up pa_start) pa_end k

unfoldable pub kinit : ℕ → Kmem → Run Kmem
unfolding freerange
kinit kend k = freerange kend k kend phystop
