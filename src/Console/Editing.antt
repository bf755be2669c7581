-- ===== src/Console/Editing.antt =====
-- consoleintr of kernel/console.c edits the line as type_char says.
use oslab.Prelude.{
  ℕ, ◌+◌, ◌<◌, ◌≡◌, inl, inr, refl, sym, ap, ◌∙◌, [], arith, Bool, true, false, not, ◌||◌, ◌==◌,
  ltb, if◌then◌else◌, length, Bool-cases,
}
use oslab.Prelude.Run.{Run, done, ◌>>=◌}
use oslab.Console.{Console, input_buf_size, erase, kill_line, store_char, consoleintr}
use oslab.Console.View.{
  Terminal, drop_last, add_char, type_char, items, num_edited, view, IsConsole,
}
use oslab.Console.Erasing.{erase_lem, something_edited, nothing_edited, kill_line_lem}
use oslab.Console.Storing.{terminal-eq, with_cr, store_char-Stores}

-- a handler that ends, with its effect on the editor
abbrev pub Gives : Run (Bool × Console) → Terminal → Type 0
Gives m t = (r : Bool × Console) × (m ≡ done r) × IsConsole r.1 × (view r.1 ≡ t)

either :
    (b : Bool) (m m' : Run (Bool × Console)) (t t' : Terminal)
    → Gives m t
    → Gives m' t'
    → Gives (if b then m else m') (if b then t else t')
either true m m' t t' h h' = h
either false m m' t t' h h' = h'

kill-Gives :
    (s : Console)
    → IsConsole s
    → Gives
        (kill_line (input_buf_size + 1) s >>= (λ s'. done (false, s')))
        (record (view s) { line = [] })
kill-Gives s v =
    let (s', ran, v', shown) = kill_line_lem (input_buf_size + 1) s v (omega (arith, v.fits)) in
    ((false, s'), ap (λ m. m >>= (λ s2. done (false, s2))) ran, v', shown)

erase-Gives :
    (s : Console)
    → IsConsole s
    → Gives
        (done (false, if not (s.e == s.w) then erase s else s))
        (record (view s) { line = drop_last (view s).line })
erase-Gives s v = elim (Bool-cases (s.e == s.w)) [
  | inl same ↦
      let empty : items s.buf s.w (num_edited s) ≡ [] =
        ap (items s.buf s.w) (nothing_edited s v same) in
      (
        (false, s),
        ap (λ b. done (false, if not b then erase s else s)) same,
        v,
        terminal-eq {r = (view s).ready} refl (empty ∙ sym (ap drop_last empty)),
      )
  | inr differ ↦
      let (_, v', shown) = erase_lem s v (something_edited s v differ) in
      ((false, erase s), ap (λ b. done (false, if not b then erase s else s)) differ, v', shown)
]

-- In a valid console, consoleintr ends for every byte, edits the line as type_char says, also when
-- the indices have wrapped round at 2^32, and keeps the console valid.
pub consoleintr-Gives :
    (c : ℕ) (s : Console) → IsConsole s → c < 256 → Gives (consoleintr c s) (type_char c (view s))
unfolding consoleintr
consoleintr-Gives c s v byte =
    let erased = done (false, if not (s.e == s.w) then erase s else s) in
    let killed = kill_line (input_buf_size + 1) s >>= (λ s'. done (false, s')) in
    let kept = done (store_char c s) in
    let t = view s in
    let t_erased = record t { line = drop_last t.line } in
    let t_killed = record t { line = [] } in
    let t_kept =
      if c == 0 || not (ltb (length t.ready + length t.line) input_buf_size)
      then t
      else add_char (with_cr c) t in
    either (c == 16) (done (false, s))
      (if c == 21 then killed else (if c == 8 || c == 127 then erased else kept)) t
      (if c == 21 then t_killed else (if c == 8 || c == 127 then t_erased else t_kept))
      ((false, s), refl, v, refl)
      (either (c == 21) killed (if c == 8 || c == 127 then erased else kept) t_killed
        (if c == 8 || c == 127 then t_erased else t_kept) (kill-Gives s v)
        (either (c == 8 || c == 127) erased kept t_erased t_kept (erase-Gives s v)
          (let (v', shown) = store_char-Stores c s v byte in (store_char c s, refl, v', shown))))
