-- ===== src/Vm/Copyinstr/OnePage.antt =====
-- The inner loop of copyinstr of kernel/vm.c, over one page.
use oslab.Prelude.{
  ℕ, zero, suc, ◌+◌, ◌-◌, ◌≤◌, ◌<◌, ◌≡◌, ◌≢◌, ◌⊎◌, inl, inr, refl, ◌∙◌, true, false, arith, ◌==◌,
  put, ℕ_discrete,
}
use oslab.Kalloc.{Kmem}
use oslab.Vm.{byte_of, copyinstr_page}

-- bytes of `at` other than 0 that the buffer holds
abbrev pub Held : (ℕ → ℕ) → ℕ → (ℕ → ℕ) → ℕ → Type 0
Held at m buf dst = (i : ℕ) → i < m → (at i ≢ 0) × (buf (dst + i) ≡ at i)

module _ (k : Kmem) where
  pub page_outside :
      (n : ℕ) (buf : ℕ → ℕ) (dst p max a : ℕ)
      → (a < dst) ⊎ (dst + n ≤ a)
      → (copyinstr_page n buf dst p max k).0 a ≡ buf a
  unfolding copyinstr_page
  page_outside zero buf dst p max a far = refl
  page_outside (suc n) buf dst p max a far = elim (ℕ_discrete (byte_of k p) 0) [
    | yes z ↦
        let ends : (byte_of k p == 0) ≡ true = ground arith in
        let other : (dst == a) ≡ false = ground arith in rw (ends, other) refl
    | no ne ↦
        let goes_on : (byte_of k p == 0) ≡ false = ground arith in
        let other : (dst == a) ≡ false = ground arith in
        rw goes_on (
          page_outside n (put buf dst (byte_of k p)) (dst + 1) (p + 1) (max - 1) a
            (elim far [ inl low ↦ inl (omega arith) | inr high ↦ inr (omega arith) ])
          ∙ rw other refl)
  ]

  Held-more :
      (n : ℕ) (buf : ℕ → ℕ) (dst p max m : ℕ)
      → byte_of k p ≢ 0
      → let final =
          (copyinstr_page n (put buf dst (byte_of k p)) (dst + 1) (p + 1) (max - 1) k).0 in
        Held (λ i. byte_of k (p + 1 + i)) m final (dst + 1)
        → Held (λ i. byte_of k (p + i)) (suc m) final dst
  Held-more n buf dst p max m ne h i lt = elim (ℕ_discrete i 0) [
    | yes z ↦
        let self : (dst == dst) ≡ true = ground arith in
        let from : p + i ≡ p = omega arith in
        let to : dst + i ≡ dst = omega arith in
        rw (from, to)
          (
            ne,
            page_outside n (put buf dst (byte_of k p)) (dst + 1) (p + 1) (max - 1) dst
                  (inl (omega arith))
                ∙ rw self refl,
          )
    | no later ↦
        let from : p + i ≡ p + 1 + (i - 1) = omega arith in
        let to : dst + i ≡ dst + 1 + (i - 1) = omega arith in
        rw (from, to) (h (i - 1) (omega arith))
  ]

  -- the zero byte is found, or all bytes are copied
  abbrev Page : ℕ → (ℕ → ℕ) → ℕ → ℕ → ℕ → Type 0
  Page n buf dst p max =
      let r = copyinstr_page n buf dst p max k in
      ((m : ℕ) × (m < n)
        × (r.1 ≡ true)
        × (byte_of k (p + m) ≡ 0)
        × (r.0 (dst + m) ≡ 0)
        × Held (λ i. byte_of k (p + i)) m r.0 dst)
      ⊎ ((r.1 ≡ false)
          × (r.2 ≡ dst + n)
          × (r.3 ≡ max - n)
          × Held (λ i. byte_of k (p + i)) n r.0 dst)

  pub page_lem : (n : ℕ) (buf : ℕ → ℕ) (dst p max : ℕ) → Page n buf dst p max
  unfolding copyinstr_page
  page_lem zero buf dst p max = inr (refl, omega arith, omega arith, λ i lt. absurd (omega arith))
  page_lem (suc n) buf dst p max = elim (ℕ_discrete (byte_of k p) 0) [
    | yes z ↦
        let ends : (byte_of k p == 0) ≡ true = ground arith in
        let here : (dst == dst + 0) ≡ true = ground arith in
        let first : p + 0 ≡ p = omega arith in
        inl (
          0,
          omega arith,
          rw ends refl,
          rw first z,
          rw (ends, here) refl,
          λ i lt. absurd (omega arith),
        )
    | no ne ↦
        let goes_on : (byte_of k p == 0) ≡ false = ground arith in
        let buf' = put buf dst (byte_of k p) in
        elim (page_lem n buf' (dst + 1) (p + 1) (max - 1)) [
          | inl (m, lt, found, zero_byte, stored, h) ↦
              let place : dst + suc m ≡ dst + 1 + m = omega arith in
              let from : p + suc m ≡ p + 1 + m = omega arith in
              inl (
                suc m,
                omega arith,
                rw goes_on found,
                rw from zero_byte,
                rw (goes_on, place) stored,
                rw goes_on (Held-more n buf dst p max m ne h),
              )
          | inr (none_found, dst', max', h) ↦ inr (
            rw goes_on none_found,
            rw goes_on (omega (arith, dst')),
            rw goes_on (omega (arith, max')),
            rw goes_on (Held-more n buf dst p max n ne h),
          )
        ]
  ]
