-- ===== src/Sh/Total.antt =====
-- The parser of user/sh.c ends, and writes no argument behind an array.
use oslab.Prelude.{
  ℕ, zero, suc, ◌≤◌, ◌<◌, ◌≡◌, refl, inl, inr, true, List, [], ◌∷◌, arith, length, Bool-cases,
}
use oslab.Prelude.Run.{Run, done, panic, out_of_fuel}
use oslab.Sh.{Cmd, exec, back, at, skip_white}
use oslab.Sh.Parser.{
  parseredirs, parseblock, parseexec, parsepipe, parsebacks, parseline, finish, parsecmd,
}
use oslab.Sh.Steps.{
  left, next, block_fails, block_unclosed, block_closed, exec_block, exec_args, pipe_fails,
  pipe_last, pipe_more, backs_end, backs_more, line_fails, backs_fails, line_last, line_more,
}
use oslab.Sh.Lexer.{skip_white_le, at-lt, skip_white-skip_white, next_le}
use oslab.Sh.Args.{
  Fits, HasArgs, Parsed, Parsed-bind, Parsed-le, Parsed-cases, parseredirs-Parsed, parseargs-Parsed,
}

-- with a parser that ends on what is left behind one more token
module _ (line : List ℕ → Run (Cmd × List ℕ)) (k : ℕ)
    (line-Parsed : (u : List ℕ) → length u < k → Parsed Fits (length u) (line u)) where
  parseblock-Parsed :
      (s : List ℕ)
      → length s ≤ k
      → at (40 ∷ []) (skip_white s) ≡ true
      → Parsed Fits (length s) (parseblock line s)
  parseblock-Parsed s le opens =
      let lt = at-lt s (40 ∷ []) opens in
      elim (Parsed-cases Fits _ (line (left (next s)))
        (line-Parsed (left (next s)) (omega (arith, lt, le)))) [
          | inr (e, r) ↦ rw (block_fails line s opens e r) tt
          | inl (cmd, v, r, q, short) ↦ elim (Bool-cases (at (41 ∷ []) (skip_white v))) [
            | inr unclosed ↦ rw (block_unclosed line s opens cmd v r unclosed) tt
            | inl closed ↦ rw (block_closed line s opens cmd v r closed) (
                Parsed-le Fits (length (left (next v))) (length s) _
                  (omega (arith, next_le v, short, lt))
                  (parseredirs-Parsed Fits (λ cmd file mode fd two q. (two, q)) _ cmd
                    (left (next v)) (omega arith) q))
          ]
        ]

  pub parseexec-Parsed : (s : List ℕ) → length s ≤ k → Parsed Fits (length s) (parseexec line s)
  parseexec-Parsed s le = elim (Bool-cases (at (40 ∷ []) (skip_white s))) [
    | inl block ↦ rw (exec_block line s block) (
        Parsed-le Fits (length (skip_white s)) (length s) _ (skip_white_le s) (
          parseblock-Parsed (skip_white s) (omega (arith, le, skip_white_le s))
            (rw (skip_white-skip_white s) block)))
    | inr args ↦ rw (exec_args line s args) (
        Parsed-bind (HasArgs 0) Fits (length (skip_white s)) (length s)
          (parseredirs (suc (length (skip_white s))) (exec []) (skip_white s)) _
          (parseredirs-Parsed (HasArgs 0) (λ cmd file mode fd two q. (two, q)) _ (exec [])
            (skip_white s) (omega arith) refl)
          (λ ret u q short.
            Parsed-le Fits (length u) (length s) _ (omega (arith, short, skip_white_le s))
              (parseargs-Parsed (suc (length u)) 0 ret u (omega arith) (omega arith) q)))
  ]

  pub parsepipe-Parsed :
      (fuel : ℕ) (s : List ℕ)
      → length s ≤ k
      → length s < fuel
      → Parsed Fits (length s) (parsepipe line fuel s)
  parsepipe-Parsed zero s le lt = absurd (omega arith)
  parsepipe-Parsed (suc fuel) s le lt =
      elim (Parsed-cases Fits _ (parseexec line s) (parseexec-Parsed s le)) [
        | inr (e, r) ↦ rw (pipe_fails line s fuel e r) tt
        | inl (cmd, t, r, q, short) ↦ elim (Bool-cases (at (124 ∷ []) (skip_white t))) [
          | inr last ↦
              rw (pipe_last line s fuel cmd t r last) (q, omega (arith, short, skip_white_le t))
          | inl more ↦
              let less = at-lt t (124 ∷ []) more in
              rw (pipe_more line s fuel cmd t r more) (
                Parsed-bind Fits Fits (length (left (next t))) (length s)
                  (parsepipe line fuel (left (next t))) _
                  (parsepipe-Parsed fuel (left (next t)) (omega (arith, less, short, le))
                    (omega (arith, less, short, lt)))
                  (λ right w p few. ((q, p), omega (arith, few, less, short))))
        ]
      ]

pub parsebacks-Parsed :
    (fuel : ℕ) (cmd : Cmd) (s : List ℕ)
    → length s < fuel
    → Fits cmd
    → Parsed Fits (length s) (parsebacks fuel cmd s)
parsebacks-Parsed zero cmd s lt q = absurd (omega arith)
parsebacks-Parsed (suc fuel) cmd s lt q = elim (Bool-cases (at (38 ∷ []) (skip_white s))) [
  | inr end ↦ rw (backs_end fuel cmd s end) (q, skip_white_le s)
  | inl more ↦
      let less = at-lt s (38 ∷ []) more in
      rw (backs_more fuel cmd s more) (
        Parsed-le Fits (length (left (next s))) (length s) _ (omega (arith, less))
          (parsebacks-Parsed fuel (back cmd) (left (next s)) (omega (arith, less, lt)) q))
]

pub parseline-Parsed :
    (fuel : ℕ) (s : List ℕ) → length s < fuel → Parsed Fits (length s) (parseline fuel s)
parseline-Parsed zero s lt = absurd (omega arith)
parseline-Parsed (suc fuel) s lt =
    elim (Parsed-cases Fits _ (parsepipe (parseline fuel) (suc (length s)) s) (
      parsepipe-Parsed (parseline fuel) fuel (parseline-Parsed fuel) _ s (omega arith)
        (omega arith))) [
          | inr (e, r) ↦ rw (line_fails fuel s e r) tt
          | inl (first, t, r, q, short) ↦
              elim (Parsed-cases Fits _ (parsebacks (suc (length t)) first t)
                (parsebacks-Parsed _ first t (omega arith) q)) [
                  | inr (e, b) ↦ rw (backs_fails fuel s e first t r b) tt
                  | inl (cmd, u, b, p, few) ↦ elim (Bool-cases (at (59 ∷ []) (skip_white u))) [
                    | inr last ↦
                        rw (line_last fuel s first cmd t u r b last)
                          (p, omega (arith, short, few, skip_white_le u))
                    | inl more ↦
                        let less = at-lt u (59 ∷ []) more in
                        rw (line_more fuel s first cmd t u r b more) (
                          Parsed-bind Fits Fits (length (left (next u))) (length s)
                            (parseline fuel (left (next u))) _
                            (parseline-Parsed fuel (left (next u))
                              (omega (arith, less, few, short, lt)))
                            (λ right x p2 le. ((p, p2), omega (arith, le, less, few, short))))
                  ]
                ]
        ]

-- a run that ended, with a panic or with such a command
abbrev pub EndsInside : Run Cmd → Type 0
EndsInside (done cmd) = Fits cmd
EndsInside (panic e) = Unit
EndsInside out_of_fuel = ⊥

finish-EndsInside : (cmd : Cmd) (s : List ℕ) → Fits cmd → EndsInside (finish cmd s)
finish-EndsInside cmd [] q = q
finish-EndsInside cmd (c ∷ s) q = tt

-- parsecmd ends on every line, with a panic or with a command. The arguments of each simple command in it,
-- and the null pointer behind them, fit in the ten places of argv, and each redirection is of descriptor 0
-- or 1.
pub parsecmd-EndsInside : (s : List ℕ) → EndsInside (parsecmd s)
unfolding parsecmd
parsecmd-EndsInside s =
    elim (Parsed-cases Fits (length s) (parseline (suc (length s)) s)
      (parseline-Parsed (suc (length s)) s (omega arith))) [
        | inr (e, r) ↦ rw r tt
        | inl (cmd, t, r, q, le) ↦ rw r (finish-EndsInside cmd (skip_white t) q)
      ]
