-- ===== src/Vm/Walk.antt =====
-- walk and walkaddr of kernel/vm.c when nothing is allocated: the translation of a user address.
use oslab.Prelude.{
  ℕ, zero, suc, ◌+◌, ◌*◌, ◌%◌, ◌<◌, ◌≡◌, inl, inr, refl, ap, false, ◌&&◌, arith, if◌then◌else◌,
  ◌==◌, leb, Bool-cases, Option-cases, Option, some, none,
}
use oslab.Prelude.Run.{done}
use oslab.Kalloc.{Kmem, page_size}
use oslab.Vm.{max_va, px, pte2pa, pte_v, pte_u, walk_loop, walk, walkaddr, round_down, byte_of}

-- the entry of address `va` in the tree of page tables
unfoldable pub entry : ℕ → ℕ → ℕ → Kmem → Option ℕ
entry zero pagetable va k = some (pagetable + 8 * px 0 va)
entry (suc level) pagetable va k =
    let rest = entry level (pte2pa (k.words (pagetable + 8 * px (suc level) va))) va k in
    if pte_v (k.words (pagetable + 8 * px (suc level) va)) then rest else none

pub walk_loop-entry :
    (level pagetable va : ℕ) (k : Kmem)
    → walk_loop level pagetable va false k ≡ (entry level pagetable va k, k)
unfolding walk_loop entry
walk_loop-entry zero pagetable va k = refl
walk_loop-entry (suc level) pagetable va k =
    let pte = k.words (pagetable + 8 * px (suc level) va) in
    elim (Bool-cases (pte_v pte)) [
      | inl valid ↦ rw valid (walk_loop-entry level (pte2pa pte) va k)
      | inr invalid ↦ rw invalid refl
    ]

pub walk-entry :
    (pagetable va : ℕ) (k : Kmem)
    → va < max_va
    → walk pagetable va false k ≡ done (entry 2 pagetable va k, k)
unfolding walk
walk-entry pagetable va k lt =
    let small : leb max_va va ≡ false = ground arith in
    rw small (ap done (walk_loop-entry 2 pagetable va k))

-- the physical page of a user address, or 0
unfoldable pub user_page : ℕ → ℕ → Kmem → ℕ
user_page pagetable va k = if leb max_va va then 0 else elim (entry 2 pagetable va k) [
  | none ↦ 0
  | some pte ↦ if pte_v (k.words pte) && pte_u (k.words pte) then pte2pa (k.words pte) else 0
]

-- walkaddr never panics, and returns the physical page of a user address, or 0 if the address is too large
-- or not mapped for the user.
pub walkaddr_lem :
    (pagetable va : ℕ) (k : Kmem) → walkaddr pagetable va k ≡ done (user_page pagetable va k)
unfolding walkaddr user_page
walkaddr_lem pagetable va k = elim (Bool-cases (leb max_va va)) [
  | inl large ↦ rw large refl
  | inr small ↦
      rw (small, walk-entry pagetable va k (ground arith))
        (elim (Option-cases (entry 2 pagetable va k)) [
          | inl e ↦ rw e refl
          | inr (pte, e) ↦ rw e (elim (Bool-cases (pte_v (k.words pte))) [
            | inr invalid ↦ rw invalid refl
            | inl valid ↦ elim (Bool-cases (pte_u (k.words pte))) [
              | inl user ↦ rw (valid, user) refl
              | inr kernel ↦ rw (valid, kernel) refl
            ]
          ])
        ])
]

-- the byte at a user address
abbrev pub user_byte : ℕ → ℕ → Kmem → Option ℕ
user_byte pagetable va k =
    let page = user_page pagetable (round_down va) k in
    if page == 0 then none else some (byte_of k (page + va % page_size))
