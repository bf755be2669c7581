-- ===== src/Console/Erasing.antt =====
-- The erasing keys of kernel/console.c: backspace and the loop for control-U.
use oslab.Prelude.{
  ℕ, zero, suc, ◌+◌, ◌-◌, ◌%◌, ◌<◌, ◌≡◌, ◌≢◌, inl, inr, refl, sym, ap, ◌∙◌, [], arith, true, false,
  ◌==◌, Bool-cases,
}
use oslab.Prelude.Run.{Run, done}
use oslab.Console.{Console, input_buf_size, uint_mod, consputc, erase, kill_line}
use oslab.Console.View.{
  Terminal, drop_last, items, num_ready, num_edited, view, IsConsole, drop_last-items,
}

pub erase_lem :
    (s : Console)
    → IsConsole s
    → num_edited s ≢ 0
    → (num_edited s ≡ suc (num_edited (erase s)))
      × IsConsole (erase s)
      × (view (erase s) ≡ record (view s) { line = drop_last (view s).line })
unfolding erase consputc
erase_lem s v ne =
    let one_less : num_edited s
        ≡ suc ((((s.e + uint_mod - 1) % uint_mod) + uint_mod - s.w) % uint_mod) =
      omega (arith, v.e_uint, v.w_uint) in
    (
      one_less,
      record {
        r_uint = v.r_uint;
        w_uint = v.w_uint;
        e_uint = omega arith;
        fits = omega (arith, v.fits, one_less);
        no_newline = λ k lt. v.no_newline k (omega arith);
      },
      ap (λ l. record { ready = items s.buf s.r (num_ready s); line = l })
          (sym (
            ap (λ m. drop_last (items s.buf s.w m)) one_less
            ∙ drop_last-items s.buf s.w
                ((((s.e + uint_mod - 1) % uint_mod) + uint_mod - s.w) % uint_mod))),
    )

pub nothing_edited : (s : Console) → IsConsole s → (s.e == s.w) ≡ true → num_edited s ≡ 0
nothing_edited s v h =
    let same : s.e ≡ s.w = ground arith in omega (arith, v.e_uint, v.w_uint, same)

pub something_edited : (s : Console) → IsConsole s → (s.e == s.w) ≡ false → num_edited s ≢ 0
something_edited s v h =
    let differ : s.e ≢ s.w = ground arith in omega (arith, v.e_uint, v.w_uint, differ)

abbrev pub IsDone : Run Console → Terminal → Type 0
IsDone m t = (s' : Console) × (m ≡ done s') × IsConsole s' × (view s' ≡ t)

no_line : (s : Console) → num_edited s ≡ 0 → view s ≡ record (view s) { line = [] }
no_line s e = ap (λ n. record { ready = items s.buf s.r (num_ready s); line = items s.buf s.w n }) e

last_char :
    (s : Console)
    → IsConsole s
    → num_edited s ≢ 0
    → (s.buf ((s.e + uint_mod - 1) % uint_mod % input_buf_size) == 10) ≡ false
last_char s v ne =
    let last : (s.w + (num_edited s - 1)) % input_buf_size
        ≡ (s.e + uint_mod - 1) % uint_mod % input_buf_size =
      omega (arith, v.e_uint, v.w_uint) in
    let other : s.buf ((s.e + uint_mod - 1) % uint_mod % input_buf_size) ≢ 10 =
      rw (← last) (v.no_newline (num_edited s - 1) (omega arith)) in
    ground arith

-- the loop for control-U ends within its fuel and leaves an empty line
pub kill_line_lem :
    (fuel : ℕ) (s : Console)
    → IsConsole s
    → num_edited s < fuel
    → IsDone (kill_line fuel s) (record (view s) { line = [] })
unfolding kill_line
kill_line_lem zero s v lt = absurd (omega arith)
kill_line_lem (suc fuel) s v lt = elim (Bool-cases (s.e == s.w)) [
  | inl same ↦ (s, rw (same, kill_line) refl, v, no_line s (nothing_edited s v same))
  | inr differ ↦
      let ne = something_edited s v differ in
      let (one_less, v', e) = erase_lem s v ne in
      let (s', ran, v2, shown) = kill_line_lem fuel (erase s) v' (omega arith) in
      (
        s',
        rw (differ, last_char s v ne, kill_line) ran,
        v2,
        shown ∙ ap {A = Terminal} (λ t. record t { line = [] }) e,
      )
]
