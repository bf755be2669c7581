-- ===== src/Vm/Copyinstr.antt =====
-- copyinstr of kernel/vm.c: the buffer holds the string at a user address, its zero byte included.
pub mod OnePage
use oslab.Prelude.{
  ℕ, zero, suc, ◌+◌, ◌-◌, ◌*◌, ◌/◌, ◌%◌, ◌≤◌, ◌<◌, ◌≡◌, ◌≢◌, ◌⊎◌, inl, inr, refl, sym, ap, ◌∙◌,
  Bool, true, false, ◌&&◌, arith, if◌then◌else◌, ◌==◌, ltb, leb, put, ℕ_discrete, Bool-cases,
  dec_lt, Option, some, none, min,
}
use oslab.Prelude.Run.{Run, done, ◌>>=◌}
use oslab.Kalloc.{Kmem, page_size}
use oslab.Vm.{round_down, byte_of, walkaddr, copyinstr_page, copyinstr_loop, copyinstr}
use oslab.Vm.Walk.{user_page, user_byte, walkaddr_lem}
use oslab.Vm.Copyin.{piece, same_page}
use oslab.Vm.Copyinstr.OnePage.{Held, page_outside, page_lem}

-- the first `m` bytes of the string, none of them zero
abbrev pub Text : ℕ → (ℕ → ℕ) → ℕ → ℕ → ℕ → Kmem → Type 0
Text pagetable buf dst srcva m k =
    (i : ℕ)
    → i < m
    → (user_byte pagetable (srcva + i) k ≡ some (buf (dst + i))) × (buf (dst + i) ≢ 0)

abbrev pub Strings : ℕ → (ℕ → ℕ) → ℕ → ℕ → ℕ → Kmem → Run (Bool × (ℕ → ℕ)) → Type 0
Strings pagetable buf dst srcva max k run =
    (buf' : ℕ → ℕ) × (m : ℕ) × Text pagetable buf' dst srcva m k
    × (((run ≡ done (true, buf'))
          × (m < max)
          × (user_byte pagetable (srcva + m) k ≡ some 0)
          × (buf' (dst + m) ≡ 0))
        ⊎ ((run ≡ done (false, buf'))
            × (m ≤ max)
            × ((m ≡ max) ⊎ (user_byte pagetable (srcva + m) k ≡ none))))
    × ((a : ℕ) → (a < dst) ⊎ (dst + max ≤ a) → buf' a ≡ buf a)

-- one round on a page that is mapped
module _ (rounds pagetable : ℕ) (buf : ℕ → ℕ) (dst srcva max : ℕ) (k : Kmem) (some_left : max ≢ 0)
    (mapped : user_page pagetable (round_down srcva) k ≢ 0) where
  abbrev from : ℕ
  from = user_page pagetable (round_down srcva) k + (srcva - round_down srcva)

  abbrev n : ℕ
  n = piece srcva max

  abbrev r : (ℕ → ℕ) × Bool × ℕ × ℕ
  r = copyinstr_page n buf dst from max k

  round_found :
      r.1 ≡ true → copyinstr_loop (suc rounds) pagetable buf dst srcva max k ≡ done (true, r.0)
  unfolding copyinstr_loop
  round_found found =
      let go : ltb 0 max ≡ true = ground arith in
      let there : (user_page pagetable (round_down srcva) k == 0) ≡ false = ground arith in
      rw (go, walkaddr_lem pagetable (round_down srcva) k, there, found) refl

  round_more :
      r.1 ≡ false
      → copyinstr_loop (suc rounds) pagetable buf dst srcva max k
        ≡ copyinstr_loop rounds pagetable r.0 r.2 (round_down srcva + page_size) r.3 k
  unfolding copyinstr_loop
  round_more late =
      let go : ltb 0 max ≡ true = ground arith in
      let there : (user_page pagetable (round_down srcva) k == 0) ≡ false = ground arith in
      rw (go, walkaddr_lem pagetable (round_down srcva) k, there, late) refl

  Held-Text :
      (m : ℕ)
      → m ≤ n
      → Held (λ i. byte_of k (from + i)) m r.0 dst
      → Text pagetable r.0 dst srcva m k
  Held-Text m le h i lt =
      let (ne, e) = h i lt in
      (
        same_page pagetable srcva max i k (omega arith) mapped ∙ ap some (sym e),
        λ z. ne (sym e ∙ z),
      )

  one_page :
      (m : ℕ)
      → m < n
      → r.1 ≡ true
      → byte_of k (from + m) ≡ 0
      → r.0 (dst + m) ≡ 0
      → Held (λ i. byte_of k (from + i)) m r.0 dst
      → Strings pagetable buf dst srcva max k
          (copyinstr_loop (suc rounds) pagetable buf dst srcva max k)
  one_page m lt found zero_byte stored h = (
    r.0,
    m,
    Held-Text m (omega arith) h,
    inl (
      round_found found,
      omega arith,
      same_page pagetable srcva max m k lt mapped ∙ ap some zero_byte,
      stored,
    ),
    λ a far.
        page_outside k n buf dst from max a
          (elim far [ inl low ↦ inl low | inr high ↦ inr (omega arith) ]),
  )

  both_texts :
      (buf' : ℕ → ℕ) (m : ℕ)
      → Text pagetable r.0 dst srcva n k
      → Text pagetable buf' (dst + n) (round_down srcva + page_size) m k
      → m ≤ max - n
      → ((a : ℕ) → (a < dst + n) ⊎ (dst + n + (max - n) ≤ a) → buf' a ≡ r.0 a)
      → Text pagetable buf' dst srcva (n + m) k
  both_texts buf' m first text bound others i lt = elim (dec_lt i n) [
    | yes early ↦ rw (others (dst + i) (inl (omega arith))) (first i early)
    | no late ↦
        let from' : srcva + i ≡ round_down srcva + page_size + (i - n) = omega arith in
        let to' : dst + i ≡ dst + n + (i - n) = omega arith in
        let (e, ne) = text (i - n) (omega arith) in
        (
          ap (λ a. user_byte pagetable a k) from' ∙ e ∙ ap (λ a. some (buf' a)) (sym to'),
          λ z. ne (ap buf' (sym to') ∙ z),
        )
  ]

  more_pages :
      r.1 ≡ false
      → Held (λ i. byte_of k (from + i)) n r.0 dst
      → Strings pagetable r.0
          (dst + n)
          (round_down srcva + page_size)
          (max - n)
          k
          (copyinstr_loop rounds pagetable r.0 r.2 (round_down srcva + page_size) r.3 k)
      → Strings pagetable buf dst srcva max k
          (copyinstr_loop (suc rounds) pagetable buf dst srcva max k)
  more_pages late h (buf', m, text, which, others) =
      let few : n ≤ max = omega arith in
      let first = Held-Text n (omega arith) h in
      let bound : m ≤ max - n = elim which [
        | inl (_, lt, _, _) ↦ omega arith
        | inr (_, le, _) ↦ le
      ] in
      (
        buf',
        n + m,
        both_texts buf' m first text bound others,
        elim which [
          | inl (e, lt, zero_byte, stored) ↦
              let from' : srcva + (n + m) ≡ round_down srcva + page_size + m = omega arith in
              let to' : dst + (n + m) ≡ dst + n + m = omega arith in
              inl (round_more late ∙ e, omega arith, rw from' zero_byte, rw to' stored)
          | inr (e, le, inl all) ↦ inr (round_more late ∙ e, omega arith, inl (omega arith))
          | inr (e, le, inr unmapped) ↦ elim (ℕ_discrete (n + m) max) [
            | yes all ↦ inr (round_more late ∙ e, omega arith, inl all)
            | no some_more ↦
                let from' : srcva + (n + m) ≡ round_down srcva + page_size + m = omega arith in
                inr (
                  round_more late ∙ e,
                  omega arith,
                  inr (ap (λ a. user_byte pagetable a k) from' ∙ unmapped),
                )
          ]
        ],
        λ a far.
            others a (elim far [ inl low ↦ inl (omega arith) | inr high ↦ inr (omega arith) ])
            ∙ page_outside k n buf dst from max a
                (elim far [ inl low ↦ inl low | inr high ↦ inr (omega arith) ]),
      )

  page_cases :
      ((buf' : ℕ → ℕ) (dst' max' : ℕ)
        → max' < max
        → Strings pagetable buf' dst'
            (round_down srcva + page_size)
            max'
            k
            (copyinstr_loop rounds pagetable buf' dst' (round_down srcva + page_size) max' k))
      → Strings pagetable buf dst srcva max k
          (copyinstr_loop (suc rounds) pagetable buf dst srcva max k)
  page_cases rest = elim (page_lem k n buf dst from max) [
    | inl (m, lt, found, zero_byte, stored, h) ↦ one_page m lt found zero_byte stored h
    | inr (late, dst', max', h) ↦
        more_pages late h (rw (dst', max') (rest r.0 (dst + n) (max - n) (omega arith)))
  ]

-- Enough rounds are given if there is more than one for each byte.
copyinstr_loop_lem :
    (rounds pagetable : ℕ) (buf : ℕ → ℕ) (dst srcva max : ℕ) (k : Kmem)
    → max < rounds
    → Strings pagetable buf dst srcva max k (copyinstr_loop rounds pagetable buf dst srcva max k)
unfolding copyinstr_loop
copyinstr_loop_lem zero pagetable buf dst srcva max k lt = absurd (omega arith)
copyinstr_loop_lem (suc rounds) pagetable buf dst srcva max k lt = elim (ℕ_discrete max 0) [
  | yes z ↦
      let stop : ltb 0 max ≡ false = ground arith in
      (
        buf,
        0,
        λ i lt'. absurd (omega arith),
        inr (rw stop refl, omega arith, inl (omega arith)),
        λ a far. refl,
      )
  | no ne ↦
      let go : ltb 0 max ≡ true = ground arith in
      elim (ℕ_discrete (user_page pagetable (round_down srcva) k) 0) [
        | yes unmapped ↦
            let fails : (user_page pagetable (round_down srcva) k == 0) ≡ true = ground arith in
            let first : srcva + 0 ≡ srcva = omega arith in
            (
              buf,
              0,
              λ i lt'. absurd (omega arith),
              inr (
                rw (go, walkaddr_lem pagetable (round_down srcva) k, fails) refl,
                omega arith,
                inr (rw (first, fails) refl),
              ),
              λ a far. refl,
            )
        | no mapped ↦
            page_cases rounds pagetable buf dst srcva max k ne mapped (λ buf' dst' max' less.
              copyinstr_loop_lem rounds pagetable buf' dst' (round_down srcva + page_size) max' k
                (omega (arith, less)))
      ]
]

-- copyinstr ends. It returns 0 if the string at the user address ends before `max` bytes and all its
-- bytes are mapped for the user; then the buffer holds the string with its zero byte. It returns -1 if no
-- zero byte is found before an address that is not mapped or within `max` bytes. The buffer beside
-- those `max` bytes is as before.
pub copyinstr_lem :
    (pagetable : ℕ) (buf : ℕ → ℕ) (dst srcva max : ℕ) (k : Kmem)
    → Strings pagetable buf dst srcva max k (copyinstr pagetable buf dst srcva max k)
unfolding copyinstr
copyinstr_lem pagetable buf dst srcva max k =
    copyinstr_loop_lem (max + 1) pagetable buf dst srcva max k (omega arith)
