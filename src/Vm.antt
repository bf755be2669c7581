-- ===== src/Vm.antt =====
-- kernel/vm.c: Sv39 page tables, and the copies between the kernel and user memory. A page table is a page
-- of 512 words of the memory of the page allocator. A kernel buffer is bytes at addresses, apart from that
-- memory. A pointer that is null only if a page is missing is an Option.
pub mod Walk
pub mod Copyin
pub mod Copyinstr
mod Tests
use Prim.Native.Nat.{bit_or}
use oslab.Prelude.{
  ℕ, zero, suc, ◌+◌, ◌-◌, ◌*◌, ◌/◌, ◌%◌, ◌^◌, Bool, true, false, not, ◌&&◌, Option, none, some,
  ◌==◌, ltb, leb, if◌then◌else◌, put, min,
}
use oslab.Prelude.Run.{Run, done, panic, out_of_fuel, ◌>>=◌}
use oslab.Kalloc.{Kmem, kalloc, kfree, fill_page, page_size}
use oslab.Fs.Inode.{copy}

-- MAXVA
abbrev pub max_va : ℕ
max_va = 2 ^ 38

abbrev pub word_mod : ℕ
word_mod = 2 ^ 64

-- PGROUNDUP and PGROUNDDOWN
abbrev pub round_up : ℕ → ℕ
round_up a = (a + page_size - 1) % word_mod / page_size * page_size

abbrev pub round_down : ℕ → ℕ
round_down a = a / page_size * page_size

-- PA2PTE, PTE2PA, PTE_FLAGS and PX
abbrev pub pa2pte : ℕ → ℕ
pa2pte pa = pa / 2 ^ 12 * 2 ^ 10

abbrev pub pte2pa : ℕ → ℕ
pte2pa pte = pte / 2 ^ 10 * 2 ^ 12 % word_mod

abbrev pub pte_flags : ℕ → ℕ
pte_flags pte = pte % 1024

abbrev pub px : ℕ → ℕ → ℕ
px level va = va / 2 ^ (12 + 9 * level) % 512

-- `pte & PTE_V`, `pte & PTE_U`, and `pte & (PTE_R|PTE_W|PTE_X)` being zero
abbrev pub pte_v : ℕ → Bool
pte_v pte = pte % 2 == 1

abbrev pub pte_u : ℕ → Bool
pte_u pte = pte / 16 % 2 == 1

abbrev pub no_rwx : ℕ → Bool
no_rwx pte = pte / 2 % 8 == 0

abbrev pub store : ℕ → ℕ → Kmem → Kmem
store a v k = record k { words = put k.words a v }

abbrev pub clear_page : ℕ → Kmem → Kmem
clear_page pa k = record k { words = fill_page k.words pa 0 }

-- the loop of walk, with the address of the entry of level 0
pub walk_loop : ℕ → ℕ → ℕ → Bool → Kmem → Option ℕ × Kmem
walk_loop zero pagetable va alloc k = (some (pagetable + 8 * px 0 va), k)
walk_loop (suc level) pagetable va alloc k =
    let pte = pagetable + 8 * px (suc level) va in
    let down = walk_loop level (pte2pa (k.words pte)) va alloc k in
    let (new, k') = kalloc k in
    let grown =
      walk_loop level new va alloc (store pte (bit_or (pa2pte new) 1) (clear_page new k')) in
    if pte_v (k.words pte)
    then down
    else if not alloc
    then (none, k)
    else if new == 0
    then (none, k')
    else grown

unfoldable pub walk : ℕ → ℕ → Bool → Kmem → Run (Option ℕ × Kmem)
unfolding walk_loop
walk pagetable va alloc k =
    if leb max_va va then panic "walk" else done (walk_loop 2 pagetable va alloc k)

unfoldable pub walkaddr : ℕ → ℕ → Kmem → Run ℕ
walkaddr pagetable va k =
    if leb max_va va
    then done 0
    else walk pagetable va false k >>= λ (found, _). elim found [
      | none ↦ done 0
      | some pte ↦
          if not (pte_v (k.words pte))
          then done 0
          else if not (pte_u (k.words pte))
          then done 0
          else done (pte2pa (k.words pte))
    ]

-- `false` is -1
pub mappages_loop : ℕ → ℕ → ℕ → ℕ → ℕ → ℕ → Kmem → Run (Bool × Kmem)
mappages_loop zero pagetable a last pa perm k = out_of_fuel
mappages_loop (suc rounds) pagetable a last pa perm k = walk pagetable a true k >>= λ (found, k').
    elim found [
      | none ↦ done (false, k')
      | some pte ↦
          let k'' = store pte (bit_or (bit_or (pa2pte pa) perm) 1) k' in
          let rest =
            mappages_loop rounds pagetable ((a + page_size) % word_mod) last
              ((pa + page_size) % word_mod) perm k'' in
          if pte_v (k'.words pte)
          then panic "mappages: remap"
          else if a == last
          then done (true, k'')
          else rest
    ]

-- A round maps a page.
unfoldable pub mappages : ℕ → ℕ → ℕ → ℕ → ℕ → Kmem → Run (Bool × Kmem)
unfolding mappages_loop
mappages pagetable va size pa perm k =
    if size == 0
    then panic "mappages: size"
    else mappages_loop (size / page_size + 2) pagetable (round_down va)
        (round_down ((va + size - 1) % word_mod)) pa perm k

unfoldable pub kvmmap : ℕ → ℕ → ℕ → ℕ → ℕ → Kmem → Run Kmem
unfolding mappages
kvmmap kpgtbl va pa sz perm k =
    mappages kpgtbl va sz pa perm k >>= λ (ok, k'). if ok then done k' else panic "kvmmap"

-- the loop of uvmunmap, up to `last`
pub uvmunmap_loop : ℕ → ℕ → ℕ → ℕ → ℕ → Bool → Kmem → Run Kmem
uvmunmap_loop kend zero pagetable a last do_free k = out_of_fuel
uvmunmap_loop kend (suc rounds) pagetable a last do_free k =
    let unmap = λ (pte : ℕ) (k' : Kmem).
      uvmunmap_loop kend rounds pagetable (a + page_size) last do_free (store pte 0 k') in
    let round = walk pagetable a false k >>= λ (found, k'). elim found [
      | none ↦ panic "uvmunmap: walk"
      | some pte ↦
          if not (pte_v (k'.words pte))
          then panic "uvmunmap: not mapped"
          else if pte_flags (k'.words pte) == 1
          then panic "uvmunmap: not a leaf"
          else if do_free
          then kfree kend k' (pte2pa (k'.words pte)) >>= unmap pte
          else unmap pte k'
    ] in
    if ltb a last then round else done k

unfoldable pub uvmunmap : ℕ → ℕ → ℕ → ℕ → Bool → Kmem → Run Kmem
unfolding uvmunmap_loop
uvmunmap kend pagetable va npages do_free k =
    if not (va % page_size == 0)
    then panic "uvmunmap: not aligned"
    else uvmunmap_loop kend (npages + 1) pagetable va (va + npages * page_size) do_free k

unfoldable pub uvmcreate : Kmem → ℕ × Kmem
uvmcreate k = let (new, k') = kalloc k in if new == 0 then (0, k') else (new, clear_page new k')

-- The sizes of a process are below MAXVA, so that the number of pages fits an int.
unfoldable pub uvmdealloc : ℕ → ℕ → ℕ → ℕ → Kmem → Run (ℕ × Kmem)
unfolding uvmunmap
uvmdealloc kend pagetable oldsz newsz k =
    let npages = (round_up oldsz - round_up newsz) / page_size in
    if leb oldsz newsz
    then done (oldsz, k)
    else if ltb (round_up newsz) (round_up oldsz)
    then (uvmunmap kend pagetable (round_up newsz) npages true k >>= λ k'. done (newsz, k'))
    else done (newsz, k)

-- the loop of uvmalloc, from address `a` on
pub uvmalloc_loop : ℕ → ℕ → ℕ → ℕ → ℕ → ℕ → ℕ → Kmem → Run (ℕ × Kmem)
uvmalloc_loop kend zero pagetable a oldsz newsz xperm k = out_of_fuel
uvmalloc_loop kend (suc rounds) pagetable a oldsz newsz xperm k =
    let (mem, k1) = kalloc k in
    let undo = λ (k' : Kmem). uvmdealloc kend pagetable a oldsz k' >>= λ (_, k''). done (0, k'') in
    let round =
      mappages pagetable a page_size mem (bit_or 18 xperm) (clear_page mem k1) >>= λ (ok, k2).
      let rest = uvmalloc_loop kend rounds pagetable (a + page_size) oldsz newsz xperm k2 in
      if ok then rest else (kfree kend k2 mem >>= undo) in
    if ltb a newsz then (if mem == 0 then undo k1 else round) else done (newsz, k)

unfoldable pub uvmalloc : ℕ → ℕ → ℕ → ℕ → ℕ → Kmem → Run (ℕ × Kmem)
unfolding uvmalloc_loop
uvmalloc kend pagetable oldsz newsz xperm k =
    if ltb newsz oldsz
    then done (oldsz, k)
    else uvmalloc_loop kend ((newsz - oldsz) / page_size + 2) pagetable (round_up oldsz)
        (round_up oldsz) newsz xperm k

-- the loop of freewalk, where `free_child` is its call of itself
pub freewalk_entries : (ℕ → Kmem → Run Kmem) → ℕ → ℕ → ℕ → Kmem → Run Kmem
freewalk_entries free_child zero i pagetable k = done k
freewalk_entries free_child (suc rounds) i pagetable k =
    let pte = k.words (pagetable + 8 * i) in
    let skip = freewalk_entries free_child rounds (i + 1) pagetable k in
    let child = free_child (pte2pa pte) k >>= λ k'.
    freewalk_entries free_child rounds (i + 1) pagetable (store (pagetable + 8 * i) 0 k') in
    if pte_v pte && no_rwx pte then child else if pte_v pte then panic "freewalk: leaf" else skip

-- `levels` bounds the depth of the tree, of which a page table has 3.
pub freewalk : ℕ → ℕ → ℕ → Kmem → Run Kmem
freewalk kend zero pagetable k = out_of_fuel
freewalk kend (suc levels) pagetable k =
    freewalk_entries (freewalk kend levels) 512 0 pagetable k >>= λ k'. kfree kend k' pagetable

unfoldable pub uvmfree : ℕ → ℕ → ℕ → Kmem → Run Kmem
unfolding uvmunmap freewalk
uvmfree kend pagetable sz k =
    (if ltb 0 sz then uvmunmap kend pagetable 0 (round_up sz / page_size) true k else done k)
    >>= freewalk kend 3 pagetable

-- memmove of a page
abbrev pub copy_page : ℕ → ℕ → Kmem → Kmem
copy_page to from k = record k {
  words = λ a. if leb to a && ltb a (to + page_size) then k.words (from + (a - to)) else k.words a;
}

-- the loop of uvmcopy from address `i` on; `false` is -1
pub uvmcopy_loop : ℕ → ℕ → ℕ → ℕ → ℕ → ℕ → Kmem → Run (Bool × Kmem)
uvmcopy_loop kend zero old new i sz k = out_of_fuel
uvmcopy_loop kend (suc rounds) old new i sz k =
    let err =
      λ (k' : Kmem). uvmunmap kend new 0 (i / page_size) true k' >>= λ k''. done (false, k'') in
    let page = λ (pte : ℕ).
      let (mem, k1) = kalloc k in
      let copied =
        mappages new i page_size mem (pte_flags pte) (copy_page mem (pte2pa pte) k1) >>= λ (ok, k2).
        let rest = uvmcopy_loop kend rounds old new (i + page_size) sz k2 in
        if ok then rest else (kfree kend k2 mem >>= err) in
      if mem == 0 then err k1 else copied in
    let round = walk old i false k >>= λ (found, _). elim found [
      | none ↦ panic "uvmcopy: pte should exist"
      | some pte ↦
          if not (pte_v (k.words pte))
          then panic "uvmcopy: page not present"
          else page (k.words pte)
    ] in
    if ltb i sz then round else done (true, k)

unfoldable pub uvmcopy : ℕ → ℕ → ℕ → ℕ → Kmem → Run (Bool × Kmem)
unfolding uvmcopy_loop
uvmcopy kend old new sz k = uvmcopy_loop kend (sz / page_size + 2) old new 0 sz k

unfoldable pub uvmclear : ℕ → ℕ → Kmem → Run Kmem
unfolding walk
uvmclear pagetable va k = walk pagetable va false k >>= λ (found, k'). elim found [
  | none ↦ panic "uvmclear"
  | some pte ↦ let w = k'.words pte in done (if pte_u w then store pte (w - 16) k' else k')
]

-- the byte of memory at a physical address
abbrev pub byte_of : Kmem → ℕ → ℕ
byte_of k a = k.words (a / 8 * 8) / 256 ^ (a % 8) % 256

abbrev pub store_byte : ℕ → ℕ → Kmem → Kmem
store_byte a v k =
    store (a / 8 * 8) (k.words (a / 8 * 8) - byte_of k a * 256 ^ (a % 8) + v * 256 ^ (a % 8)) k

-- memmove of `n` bytes of a kernel buffer to memory
pub store_bytes : ℕ → ℕ → (ℕ → ℕ) → ℕ → Kmem → Kmem
store_bytes zero a buf src k = k
store_bytes (suc n) a buf src k = store_bytes n (a + 1) buf (src + 1) (store_byte a (buf src) k)

-- `true` is 0, and `false` is -1. A round copies at least one byte.
pub copyout_loop : ℕ → ℕ → ℕ → (ℕ → ℕ) → ℕ → ℕ → Kmem → Run (Bool × Kmem)
copyout_loop zero pagetable dstva buf src len k = out_of_fuel
copyout_loop (suc rounds) pagetable dstva buf src len k =
    let va0 = round_down dstva in
    let n = min (page_size - (dstva - va0)) len in
    let round = walkaddr pagetable va0 k >>= λ pa0.
    let rest =
      copyout_loop rounds pagetable (va0 + page_size) buf (src + n) (len - n)
        (store_bytes n (pa0 + (dstva - va0)) buf src k) in
    if pa0 == 0 then done (false, k) else rest in
    if ltb 0 len then round else done (true, k)

unfoldable pub copyout : ℕ → ℕ → (ℕ → ℕ) → ℕ → ℕ → Kmem → Run (Bool × Kmem)
unfolding copyout_loop
copyout pagetable dstva buf src len k = copyout_loop (len + 1) pagetable dstva buf src len k

pub copyin_loop : ℕ → ℕ → (ℕ → ℕ) → ℕ → ℕ → ℕ → Kmem → Run (Bool × (ℕ → ℕ))
copyin_loop zero pagetable buf dst srcva len k = out_of_fuel
copyin_loop (suc rounds) pagetable buf dst srcva len k =
    let va0 = round_down srcva in
    let n = min (page_size - (srcva - va0)) len in
    let round = walkaddr pagetable va0 k >>= λ pa0.
    let rest =
      copyin_loop rounds pagetable (copy buf dst (byte_of k) (pa0 + (srcva - va0)) n) (dst + n)
        (va0 + page_size) (len - n) k in
    if pa0 == 0 then done (false, buf) else rest in
    if ltb 0 len then round else done (true, buf)

unfoldable pub copyin : ℕ → (ℕ → ℕ) → ℕ → ℕ → ℕ → Kmem → Run (Bool × (ℕ → ℕ))
unfolding copyin_loop
copyin pagetable buf dst srcva len k = copyin_loop (len + 1) pagetable buf dst srcva len k

-- the inner loop of copyinstr: the buffer, `got_null`, `dst` and `max`
pub copyinstr_page : ℕ → (ℕ → ℕ) → ℕ → ℕ → ℕ → Kmem → (ℕ → ℕ) × Bool × ℕ × ℕ
copyinstr_page zero buf dst p max k = (buf, false, dst, max)
copyinstr_page (suc n) buf dst p max k =
    let c = byte_of k p in
    let rest = copyinstr_page n (put buf dst c) (dst + 1) (p + 1) (max - 1) k in
    if c == 0 then (put buf dst 0, true, dst, max) else rest

pub copyinstr_loop : ℕ → ℕ → (ℕ → ℕ) → ℕ → ℕ → ℕ → Kmem → Run (Bool × (ℕ → ℕ))
copyinstr_loop zero pagetable buf dst srcva max k = out_of_fuel
copyinstr_loop (suc rounds) pagetable buf dst srcva max k =
    let va0 = round_down srcva in
    let n = min (page_size - (srcva - va0)) max in
    let round = walkaddr pagetable va0 k >>= λ pa0.
    let (buf', got_null, dst', max') = copyinstr_page n buf dst (pa0 + (srcva - va0)) max k in
    let rest = copyinstr_loop rounds pagetable buf' dst' (va0 + page_size) max' k in
    if pa0 == 0 then done (false, buf) else if got_null then done (true, buf') else rest in
    if ltb 0 max then round else done (false, buf)

unfoldable pub copyinstr : ℕ → (ℕ → ℕ) → ℕ → ℕ → ℕ → Kmem → Run (Bool × (ℕ → ℕ))
unfolding copyinstr_loop copyinstr_page
copyinstr pagetable buf dst srcva max k = copyinstr_loop (max + 1) pagetable buf dst srcva max k
