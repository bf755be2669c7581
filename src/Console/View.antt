-- ===== src/Console/View.antt =====
-- What the indices and the buffer of kernel/console.c stand for: the input that is ready to be read and
-- the line that is being edited.
use oslab.Prelude.{
  ℕ, zero, suc, ◌+◌, ◌-◌, ◌%◌, ◌≤◌, ◌<◌, ◌≡◌, ◌≢◌, refl, ap, ◌∙◌, List, [], ◌∷◌, ◌++◌, arith, put,
  not, ◌||◌, ◌==◌, ltb, if◌then◌else◌, length,
}
use oslab.Console.{Console, input_buf_size, uint_mod}

pub record Terminal : Type 0 where
  pub ready : List ℕ
  pub line : List ℕ

abbrev pub drop_last : List ℕ → List ℕ
drop_last [] = []
drop_last (x ∷ []) = []
drop_last (x ∷ (y ∷ ys)) = x ∷ drop_last (y ∷ ys)

-- an ordinary character at the end of the line, which is handed over when it is complete
abbrev pub add_char : ℕ → Terminal → Terminal
add_char c t =
    let line = t.line ++ (c ∷ []) in
    if c == 10 || (c == 4 || length t.ready + length line == input_buf_size)
    then record { ready = t.ready ++ line; line = [] }
    else record { ready = t.ready; line = line }

-- the line editor that a user sees
abbrev pub type_char : ℕ → Terminal → Terminal
type_char c t =
    if c == 16
    then t
    else if c == 21
    then record t { line = [] }
    else if c == 8 || c == 127
    then record t { line = drop_last t.line }
    else if c == 0 || not (ltb (length t.ready + length t.line) input_buf_size)
    then t
    else add_char (if c == 13 then 10 else c) t

abbrev pub items : (ℕ → ℕ) → ℕ → ℕ → List ℕ
items buf i zero = []
items buf i (suc n) = buf (i % input_buf_size) ∷ items buf (i + 1) n

abbrev pub num_ready : Console → ℕ
num_ready s = (s.w + uint_mod - s.r) % uint_mod

abbrev pub num_edited : Console → ℕ
num_edited s = (s.e + uint_mod - s.w) % uint_mod

abbrev pub view : Console → Terminal
view s = record { ready = items s.buf s.r (num_ready s); line = items s.buf s.w (num_edited s) }

-- The indices fit the buffer, and no line end is in the part that is edited.
pub record IsConsole (s : Console) : Type 0 where
  pub r_uint : s.r < uint_mod
  pub w_uint : s.w < uint_mod
  pub e_uint : s.e < uint_mod
  pub fits : num_ready s + num_edited s ≤ input_buf_size
  pub no_newline : (k : ℕ) → k < num_edited s → s.buf ((s.w + k) % input_buf_size) ≢ 10

pub length-items : (buf : ℕ → ℕ) (i n : ℕ) → length (items buf i n) ≡ n
length-items buf i zero = refl
length-items buf i (suc n) = ap suc (length-items buf (i + 1) n)

pub items-mod :
    (buf : ℕ → ℕ) (i j n : ℕ)
    → i % input_buf_size ≡ j % input_buf_size
    → items buf i n ≡ items buf j n
items-mod buf i j zero e = refl
items-mod buf i j (suc n) e = ground (arith, items-mod buf (i + 1) (j + 1) n, ap buf e)

pub items-append :
    (buf : ℕ → ℕ) (i m n : ℕ) → items buf i (m + n) ≡ items buf i m ++ items buf (i + m) n
items-append buf i zero n = ground arith
items-append buf i (suc m) n =
    let left : suc m + n ≡ suc (m + n) = omega arith in
    let right : i + 1 + m ≡ i + suc m = omega arith in
    ap (items buf i) left
    ∙ ap (λ rest. buf (i % input_buf_size) ∷ rest) (items-append buf (i + 1) m n)
    ∙ ap (λ j. items buf i (suc m) ++ items buf j n) right

-- a write outside of the part
pub items-outside :
    (buf : ℕ → ℕ) (i n d j c : ℕ)
    → n + d < input_buf_size
    → j ≡ (i + n + d) % input_buf_size
    → items (put buf j c) i n ≡ items buf i n
items-outside buf i zero d j c lt e = refl
items-outside buf i (suc n) d j c lt e = ground (arith, items-outside buf (i + 1) n d j c)

-- a write at the end of the part
pub items-put :
    (buf : ℕ → ℕ) (i n j c : ℕ)
    → n < input_buf_size
    → j ≡ (i + n) % input_buf_size
    → items (put buf j c) i (suc n) ≡ items buf i n ++ (c ∷ [])
items-put buf i zero j c lt e = ground (arith, e)
items-put buf i (suc n) j c lt e = ground (arith, items-put buf (i + 1) n j c)

pub drop_last-items : (buf : ℕ → ℕ) (i n : ℕ) → drop_last (items buf i (suc n)) ≡ items buf i n
drop_last-items buf i zero = refl
drop_last-items buf i (suc n) =
    ap (λ rest. buf (i % input_buf_size) ∷ rest) (drop_last-items buf (i + 1) n)
