-- ===== src/Ulib/Lines.antt =====
-- gets of user/ulib.c.
use mathlib.Core.Path.{subst}
use oslab.Prelude.{
  ℕ, zero, suc, ◌+◌, ◌-◌, ◌≤◌, ◌≡◌, ◌≢◌, refl, ap, ◌∙◌, inl, inr, Bool, true, false, not, ◌&&◌,
  ◌||◌, List, [], ◌∷◌, arith, ◌==◌, if◌then◌else◌, Bool-cases,
}
use oslab.Str.{Memory, store}
use oslab.Str.Copy.{in_range}
use oslab.Ulib.{gets_loop, gets}
use oslab.Ulib.Strings.{Holds}

abbrev pub ends_line : ℕ → Bool
ends_line c = c == 10 || c == 13

-- the first line of the input with its end, or as much of it as there is and as `n` bytes hold
unfoldable pub line_of : ℕ → List ℕ → List ℕ
line_of zero input = []
line_of (suc n) [] = []
line_of (suc n) (c ∷ input) = let rest = line_of n input in if ends_line c then c ∷ [] else c ∷ rest

-- what is behind it
unfoldable pub behind : ℕ → List ℕ → List ℕ
behind zero input = input
behind (suc n) [] = []
behind (suc n) (c ∷ input) = let rest = behind n input in if ends_line c then input else rest

abbrev pub no_zero : List ℕ → Bool
no_zero [] = true
no_zero (c ∷ s) = not (c == 0) && no_zero s

-- The memory is `m`, but for the line and a zero byte behind it, which lie in the `n` bytes from `p`.
pub record IsRead (m more : Memory) (p n : ℕ) (line : List ℕ) : Type 0 where
  pub held : Holds more p line
  pub same : (a : ℕ) → in_range p n a ≡ false → more a ≡ m a

IsRead-cons :
    (m more : Memory) (p n c : ℕ) (line : List ℕ)
    → c ≢ 0
    → IsRead (store m p c) more (p + 1) n line
    → IsRead m more p (suc n) (c ∷ line)
IsRead-cons m more p n c line ne r = record {
  held = (r.same p (ground arith) ∙ ground arith, ne, r.held);
  same = λ a out. r.same a (ground (arith, out)) ∙ ground (arith, out);
}

IsRead-nil : (m : Memory) (p n : ℕ) → IsRead m (store m p 0) p (suc n) []
IsRead-nil m p n = record { held = ground arith; same = λ a out. ground (arith, out) }

gets_loop_lem :
    (rounds : ℕ) (m : Memory) (p : ℕ) (input : List ℕ)
    → no_zero (line_of rounds input) ≡ true
    → (more : Memory) × (q : ℕ) × (gets_loop rounds m p input ≡ (more, q, behind rounds input))
      × IsRead m (store more q 0) p (suc rounds) (line_of rounds input)
unfolding gets_loop line_of behind
gets_loop_lem zero m p input h = (m, p, refl, IsRead-nil m p 0)
gets_loop_lem (suc rounds) m p [] h = (m, p, refl, IsRead-nil m p (suc rounds))
gets_loop_lem (suc rounds) m p (c ∷ input) h = elim (Bool-cases (ends_line c)) [
  | inl end ↦ (
    store m p c,
    p + 1,
    rw end refl,
    rw end (
        IsRead-cons m _ p (suc rounds) c [] (ground arith)
          (IsRead-nil (store m p c) (p + 1) rounds)),
  )
  | inr go ↦
      let (more, q, e, r) =
        gets_loop_lem rounds (store m p c) (p + 1) input (ground (arith, h, go)) in
      (
        more,
        q,
        rw go e,
        rw go (IsRead-cons m _ p (suc rounds) c (line_of rounds input) (ground (arith, h, go)) r),
      )
]

-- gets, called with a buffer of `max` bytes, one at least, leaves in it the next line of the input as a
-- string, with the byte that ends it, or the first max - 1 bytes of the line, or what there is before the
-- end of the input. It writes no byte outside of the buffer, and the input behind the line is left. The line
-- has no zero byte.
pub gets_lem :
    (m : Memory) (buf max : ℕ) (input : List ℕ)
    → 1 ≤ max
    → no_zero (line_of (max - 1) input) ≡ true
    → (more : Memory) × (gets m buf max input ≡ (more, behind (max - 1) input))
      × IsRead m more buf max (line_of (max - 1) input)
unfolding gets
gets_lem m buf max input one h =
    let (more, q, e, r) = gets_loop_lem (max - 1) m buf input h in
    (
      store more q 0,
      ap (λ (a, b, c). (store a b 0, c)) e,
      subst (λ n. IsRead m (store more q 0) buf n (line_of (max - 1) input)) (omega arith) r,
    )
