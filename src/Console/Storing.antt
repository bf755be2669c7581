-- ===== src/Console/Storing.antt =====
-- The default case of consoleintr in kernel/console.c: a byte is stored, and a complete line is handed
-- over.
use oslab.Prelude.{
  ℕ, suc, ◌+◌, ◌-◌, ◌%◌, ◌<◌, ◌≡◌, ◌≢◌, refl, sym, ap, ◌∙◌, List, [], ◌∷◌, ◌++◌, arith, put, Bool,
  true, false, not, ◌&&◌, ◌||◌, ◌==◌, ltb, if◌then◌else◌, length, length-append, ℕ_discrete,
}
use mathlib.Core.Path.{subst}
use oslab.Console.{
  Console, input_buf_size, uint_mod, consputc, put_char, end_line, store_char, backspace,
}
use oslab.Console.View.{
  Terminal, add_char, items, num_ready, num_edited, view, IsConsole, length-items, items-mod,
  items-append, items-outside, items-put,
}

-- the console after a byte was stored
abbrev stored : ℕ → Console → Console
stored c s = record s {
  buf = put s.buf (s.e % input_buf_size) c;
  e = (s.e + 1) % uint_mod;
  sent = s.sent ++ (c ∷ []);
}

put_char-eq : (c : ℕ) (s : Console) → c < 256 → put_char c s ≡ stored c s
unfolding put_char consputc
put_char-eq c s byte =
    let same : c % 256 ≡ c = omega arith in
    let plain : (c == backspace) ≡ false = ground arith in rw (put_char, consputc, plain, same) refl

abbrev pub terminal : List ℕ → List ℕ → Terminal
terminal ready line = record { ready = ready; line = line }

pub terminal-eq : {r r' l l' : List ℕ} → r ≡ r' → l ≡ l' → terminal r l ≡ terminal r' l'
terminal-eq {r} {r'} {l} {l'} e e' = ap (λ x. terminal x l) e ∙ ap (terminal r') e'

module _ (c : ℕ) (s : Console) (v : IsConsole s)
    (room : num_ready s + num_edited s < input_buf_size) where
  edited_after : num_edited (stored c s) ≡ suc (num_edited s)
  edited_after = omega (arith, v.e_uint, v.w_uint)

  total_after : ((stored c s).e + uint_mod - s.r) % uint_mod ≡ num_ready s + suc (num_edited s)
  total_after = omega (arith, v.e_uint, v.w_uint, v.r_uint)

  ready_after : items (stored c s).buf s.r (num_ready s) ≡ items s.buf s.r (num_ready s)
  ready_after =
      items-outside s.buf s.r (num_ready s) (num_edited s) (s.e % input_buf_size) c room
        (omega (arith, v.e_uint, v.w_uint, v.r_uint))

  line_after :
      items (stored c s).buf s.w (suc (num_edited s)) ≡ items s.buf s.w (num_edited s) ++ (c ∷ [])
  line_after =
      items-put s.buf s.w (num_edited s) (s.e % input_buf_size) c (omega arith)
        (omega (arith, v.e_uint, v.w_uint))

  -- the line is not complete
  stored-IsConsole : c ≢ 10 → IsConsole (stored c s)
  stored-IsConsole ne = record {
    r_uint = v.r_uint;
    w_uint = v.w_uint;
    e_uint = omega arith;
    fits = omega (arith, edited_after);
    no_newline = λ k lt. elim (ℕ_discrete k (num_edited s)) [
      | yes last ↦
          let here : (s.w + k) % input_buf_size ≡ s.e % input_buf_size =
            omega (arith, v.e_uint, v.w_uint) in
          ground (arith, here)
      | no other ↦
          let there : (s.w + k) % input_buf_size ≢ s.e % input_buf_size =
            omega (arith, v.e_uint, v.w_uint, edited_after) in
          let old = v.no_newline k (omega (arith, edited_after)) in ground (arith, there, old)
    ];
  }

  stored-view :
      view (stored c s) ≡ record { ready = (view s).ready; line = (view s).line ++ (c ∷ []) }
  stored-view = terminal-eq ready_after (ap (items (stored c s).buf s.w) edited_after ∙ line_after)

  -- the line is complete
  abbrev handed : Console
  handed = record (stored c s) { w = (stored c s).e }

  none_edited : num_edited handed ≡ 0
  none_edited = omega arith

  handed-IsConsole : IsConsole handed
  handed-IsConsole = record {
    r_uint = v.r_uint;
    w_uint = omega arith;
    e_uint = omega arith;
    fits = omega (arith, total_after, none_edited);
    no_newline = λ k lt. absurd (omega (arith, none_edited));
  }

  handed-view :
      view handed ≡ record { ready = (view s).ready ++ ((view s).line ++ (c ∷ [])); line = [] }
  handed-view =
      let b = (stored c s).buf in
      let n = suc (num_edited s) in
      terminal-eq
        (ap (items b s.r) total_after
          ∙ items-append b s.r (num_ready s) n
          ∙ ap (λ xs. xs ++ items b (s.r + num_ready s) n) ready_after
          ∙ ap (λ ys. items s.buf s.r (num_ready s) ++ ys)
              (items-mod b (s.r + num_ready s) s.w n (omega (arith, v.r_uint, v.w_uint))
                ∙ line_after))
        (ap (items b handed.w) none_edited)

  -- the test for a complete line, in the code and in the editor
  abbrev is_whole : Bool
  is_whole = c == 10 || (c == 4 || num_ready s + suc (num_edited s) == input_buf_size)

  end_line-eq : end_line c (stored c s) ≡ (if is_whole then (true, handed) else (false, stored c s))
  unfolding end_line
  end_line-eq =
      ap
        (λ n.
          if c == 10 || (c == 4 || n == input_buf_size)
          then (true, handed)
          else (false, stored c s))
        total_after

  sizes :
      length (view s).ready + length ((view s).line ++ (c ∷ [])) ≡ num_ready s + suc (num_edited s)
  sizes =
      let line_size = length-append (view s).line (c ∷ []) in
      let line_items = length-items s.buf s.w (num_edited s) in
      let ready_items = length-items s.buf s.r (num_ready s) in
      omega (arith, line_size, line_items, ready_items)

  add_char-eq : add_char c (view s) ≡ (
      if is_whole
      then terminal ((view s).ready ++ ((view s).line ++ (c ∷ []))) []
      else terminal (view s).ready ((view s).line ++ (c ∷ [])))
  add_char-eq =
      ap {A = ℕ} {B = Terminal}
        (λ n.
          if c == 10 || (c == 4 || n == input_buf_size)
          then terminal ((view s).ready ++ ((view s).line ++ (c ∷ []))) []
          else terminal (view s).ready ((view s).line ++ (c ∷ [])))
        sizes

abbrev pub Stores : Bool × Console → Terminal → Type 0
Stores r t = IsConsole r.1 × (view r.1 ≡ t)

choose :
    (b : Bool) (r r' : Bool × Console) (t t' : Terminal)
    → (b ≡ true → Stores r t)
    → (b ≡ false → Stores r' t')
    → Stores (if b then r else r') (if b then t else t')
choose true r r' t t' h h' = h refl
choose false r r' t t' h h' = h' refl

not_newline : (c : ℕ) (b : Bool) → (c == 10 || b) ≡ false → c ≢ 10
not_newline c b h = ground arith

end_line-Stores :
    (c : ℕ) (s : Console)
    → IsConsole s
    → num_ready s + num_edited s < input_buf_size
    → Stores (end_line c (stored c s)) (add_char c (view s))
end_line-Stores c s v room =
    rw (end_line-eq c s v room, add_char-eq c s v room)
      (choose (is_whole c s v room) (true, handed c s v room) (false, stored c s)
        (terminal ((view s).ready ++ ((view s).line ++ (c ∷ []))) [])
        (terminal (view s).ready ((view s).line ++ (c ∷ [])))
        (λ h. (handed-IsConsole c s v room, handed-view c s v room))
        (λ h. (
          stored-IsConsole c s v room
              (not_newline c (c == 4 || num_ready s + suc (num_edited s) == input_buf_size) h),
          stored-view c s v room,
        )))

swap_if :
    (a b : Bool) (t t' : Terminal) → (if a || not b then t else t') ≡ (if not a && b then t' else t)
swap_if true b t t' = refl
swap_if false true t t' = refl
swap_if false false t t' = refl

-- how much is in the buffer, in the code and in the editor
total : (s : Console) → IsConsole s → (s.e + uint_mod - s.r) % uint_mod ≡ num_ready s + num_edited s
total s v = omega (arith, v.r_uint, v.w_uint, v.e_uint)

total_view :
    (s : Console) → length (view s).ready + length (view s).line ≡ num_ready s + num_edited s
total_view s =
    let line_items = length-items s.buf s.w (num_edited s) in
    let ready_items = length-items s.buf s.r (num_ready s) in omega (arith, line_items, ready_items)

abbrev pub with_cr : ℕ → ℕ
with_cr c = if c == 13 then 10 else c

with_cr-byte : (c : ℕ) → c < 256 → with_cr c < 256
with_cr-byte c byte = ground arith

has_room : (a : Bool) (n : ℕ) → (a && ltb n input_buf_size) ≡ true → n < input_buf_size
has_room true n h = ground arith
has_room false n h = cc

pub store_char-Stores :
    (c : ℕ) (s : Console)
    → IsConsole s
    → c < 256
    → Stores (store_char c s) (
        if c == 0 || not (ltb (length (view s).ready + length (view s).line) input_buf_size)
        then view s
        else add_char (with_cr c) (view s))
unfolding store_char
store_char-Stores c s v byte =
    let code =
      ap
        (λ n.
          if not (c == 0) && ltb n input_buf_size
          then end_line (with_cr c) (put_char (with_cr c) s)
          else (false, s))
        (total s v) in
    let spec =
      ap {A = ℕ} {B = Terminal}
        (λ n.
          if c == 0 || not (ltb n input_buf_size) then view s else add_char (with_cr c) (view s))
        (total_view s)
      ∙ swap_if (c == 0) (ltb (num_ready s + num_edited s) input_buf_size) (view s)
          (add_char (with_cr c) (view s)) in
    subst
      (λ r. Stores r (
        if c == 0 || not (ltb (length (view s).ready + length (view s).line) input_buf_size)
        then view s
        else add_char (with_cr c) (view s)))
      (sym code)
      (subst
        (Stores (
          if not (c == 0) && ltb (num_ready s + num_edited s) input_buf_size
          then end_line (with_cr c) (put_char (with_cr c) s)
          else (false, s)))
        (sym spec)
        (choose (not (c == 0) && ltb (num_ready s + num_edited s) input_buf_size)
          (end_line (with_cr c) (put_char (with_cr c) s)) (false, s) (add_char (with_cr c) (view s))
          (view s)
          (λ h.
            subst (λ s2. Stores (end_line (with_cr c) s2) (add_char (with_cr c) (view s)))
              (sym (put_char-eq (with_cr c) s (with_cr-byte c byte)))
              (end_line-Stores (with_cr c) s v
                (has_room (not (c == 0)) (num_ready s + num_edited s) h)))
          (λ h. (v, refl))))
