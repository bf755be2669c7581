-- ===== src/Vm/Copyin.antt =====
-- copyin and copyinstr of kernel/vm.c: the buffer holds the bytes of the user addresses.
use oslab.Prelude.{
  ℕ, zero, suc, ◌+◌, ◌-◌, ◌%◌, ◌≤◌, ◌<◌, ◌≡◌, ◌≢◌, ◌⊎◌, inl, inr, refl, sym, ap, ◌∙◌, Bool, true,
  false, ◌&&◌, arith, ◌==◌, ltb, leb, ℕ_discrete, dec_lt, some, none, min,
}
use oslab.Prelude.Run.{Run, done}
use oslab.Kalloc.{Kmem, page_size}
use oslab.Fs.Inode.{copy}
use oslab.Vm.{round_down, byte_of, copyin_loop, copyin}
use oslab.Vm.Walk.{user_page, user_byte, walkaddr_lem}

abbrev pub Fetches : ℕ → (ℕ → ℕ) → ℕ → ℕ → ℕ → Kmem → Run (Bool × (ℕ → ℕ)) → Type 0
Fetches pagetable buf dst srcva len k run =
    (buf' : ℕ → ℕ) × (((run ≡ done (true, buf'))
        × ((i : ℕ) → i < len → user_byte pagetable (srcva + i) k ≡ some (buf' (dst + i))))
      ⊎ ((run ≡ done (false, buf'))
          × (i : ℕ) × (i < len)
          × (user_byte pagetable (srcva + i) k ≡ none)))
    × ((a : ℕ) → (a < dst) ⊎ (dst + len ≤ a) → buf' a ≡ buf a)

-- the part of the range in the first page
abbrev pub piece : ℕ → ℕ → ℕ
piece srcva len = min (page_size - (srcva - round_down srcva)) len

pub same_page :
    (pagetable srcva len i : ℕ) (k : Kmem)
    → i < piece srcva len
    → user_page pagetable (round_down srcva) k ≢ 0
    → user_byte pagetable (srcva + i) k
      ≡ some (byte_of k (user_page pagetable (round_down srcva) k + (srcva - round_down srcva) + i))
same_page pagetable srcva len i k lt ne =
    let page : round_down (srcva + i) ≡ round_down srcva = omega arith in
    let mapped : (user_page pagetable (round_down srcva) k == 0) ≡ false = ground arith in
    let place : user_page pagetable (round_down srcva) k + (srcva + i) % page_size
        ≡ user_page pagetable (round_down srcva) k + (srcva - round_down srcva) + i =
      omega arith in
    rw (page, mapped, place) refl

-- one round on a page that is mapped
module _ (rounds pagetable : ℕ) (buf : ℕ → ℕ) (dst srcva len : ℕ) (k : Kmem) (some_left : len ≢ 0)
    (mapped : user_page pagetable (round_down srcva) k ≢ 0) where
  abbrev from : ℕ
  from = user_page pagetable (round_down srcva) k + (srcva - round_down srcva)

  abbrev n : ℕ
  n = piece srcva len

  abbrev with_piece : ℕ → ℕ
  with_piece = copy buf dst (byte_of k) from n

  round :
      copyin_loop (suc rounds) pagetable buf dst srcva len k
      ≡ copyin_loop rounds pagetable with_piece (dst + n) (round_down srcva + page_size) (len - n) k
  unfolding copyin_loop
  round =
      let go : ltb 0 len ≡ true = ground arith in
      let there : (user_page pagetable (round_down srcva) k == 0) ≡ false = ground arith in
      rw (go, walkaddr_lem pagetable (round_down srcva) k, there) refl

  in_piece : (i : ℕ) → i < n → user_byte pagetable (srcva + i) k ≡ some (with_piece (dst + i))
  in_piece i lt =
      let inside : (leb dst (dst + i) && ltb (dst + i) (dst + n)) ≡ true = ground arith in
      let place : dst + i - dst ≡ i = omega arith in
      same_page pagetable srcva len i k lt mapped ∙ rw (inside, place) refl

  behind : (i : ℕ) → n ≤ i → i < len → srcva + i ≡ round_down srcva + page_size + (i - n)
  behind i le lt = omega arith

  more :
      Fetches pagetable with_piece (dst + n) (round_down srcva + page_size) (len - n) k (
        copyin_loop rounds pagetable with_piece
          (dst + n)
          (round_down srcva + page_size)
          (len - n)
          k)
      → Fetches pagetable buf dst srcva len k
          (copyin_loop (suc rounds) pagetable buf dst srcva len k)
  more (buf', which, others) =
      let few : n ≤ len = omega arith in
      (
        buf',
        elim which [
          | inl (e, fetched) ↦ inl (
            round ∙ e,
            λ i lt. elim (dec_lt i n) [
              | yes first ↦ in_piece i first ∙ ap some (sym (others (dst + i) (inl (omega arith))))
              | no later ↦
                  let place : dst + n + (i - n) ≡ dst + i = omega arith in
                  ap (λ a. user_byte pagetable a k) (behind i (omega arith) lt)
                  ∙ fetched (i - n) (omega arith)
                  ∙ ap (λ a. some (buf' a)) place
            ],
          )
          | inr (e, i, lt, unmapped) ↦
              let place : srcva + (n + i) ≡ round_down srcva + page_size + i = omega arith in
              inr
                (round ∙ e, n + i, omega arith, ap (λ a. user_byte pagetable a k) place ∙ unmapped)
        ],
        λ a far.
            let outside : (leb dst a && ltb a (dst + n)) ≡ false = ground arith in
            others a (elim far [ inl low ↦ inl (omega arith) | inr high ↦ inr (omega arith) ])
            ∙ rw outside refl,
      )

-- Enough rounds are given if there is more than one for each byte.
copyin_loop_lem :
    (rounds pagetable : ℕ) (buf : ℕ → ℕ) (dst srcva len : ℕ) (k : Kmem)
    → len < rounds
    → Fetches pagetable buf dst srcva len k (copyin_loop rounds pagetable buf dst srcva len k)
unfolding copyin_loop
copyin_loop_lem zero pagetable buf dst srcva len k lt = absurd (omega arith)
copyin_loop_lem (suc rounds) pagetable buf dst srcva len k lt = elim (ℕ_discrete len 0) [
  | yes z ↦
      let stop : ltb 0 len ≡ false = ground arith in
      (buf, inl (rw stop refl, λ i lt'. absurd (omega arith)), λ a far. refl)
  | no ne ↦
      let go : ltb 0 len ≡ true = ground arith in
      elim (ℕ_discrete (user_page pagetable (round_down srcva) k) 0) [
        | yes unmapped ↦
            let fails : (user_page pagetable (round_down srcva) k == 0) ≡ true = ground arith in
            let first : srcva + 0 ≡ srcva = omega arith in
            (
              buf,
              inr (
                rw (go, walkaddr_lem pagetable (round_down srcva) k, fails) refl,
                0,
                omega arith,
                rw (first, fails) refl,
              ),
              λ a far. refl,
            )
        | no mapped ↦
            let there : (user_page pagetable (round_down srcva) k == 0) ≡ false = ground arith in
            more rounds pagetable buf dst srcva len k ne mapped (
              copyin_loop_lem rounds pagetable
                (copy buf dst (byte_of k)
                  (user_page pagetable (round_down srcva) k + (srcva - round_down srcva))
                  (piece srcva len))
                (dst + piece srcva len) (round_down srcva + page_size) (len - piece srcva len) k
                (omega arith))
      ]
]

-- copyin ends and returns 0 if every address of the range is mapped for the user, and -1 otherwise. On 0
-- the buffer holds the bytes at those addresses. Beside the range it is as before.
pub copyin_lem :
    (pagetable : ℕ) (buf : ℕ → ℕ) (dst srcva len : ℕ) (k : Kmem)
    → Fetches pagetable buf dst srcva len k (copyin pagetable buf dst srcva len k)
unfolding copyin
copyin_lem pagetable buf dst srcva len k =
    copyin_loop_lem (len + 1) pagetable buf dst srcva len k (omega arith)
