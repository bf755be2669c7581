-- ===== src/Sh/Args.antt =====
-- Redirections and arguments in the parser of user/sh.c: they end, and stay inside of argv.
use Prim.Native.String.{String}
use oslab.Prelude.{
  ℕ, zero, suc, ◌≤◌, ◌<◌, ◌≡◌, refl, ◌⊎◌, inl, inr, Bool, true, false, List, [], ◌∷◌, ◌==◌, leb,
  if◌then◌else◌, arith, length, length-append, Bool-cases,
}
use oslab.Prelude.Run.{Run, done, panic, out_of_fuel, ◌>>=◌}
use mathlib.Core.Path.{subst}
use oslab.Sh.{Cmd, exec, redir, pipe, list, back, max_args, gettoken, at, skip_white}
use oslab.Sh.Parser.{redirect, parseredirs, add_arg, parseargs}
use oslab.Sh.Steps.{
  kind, chars, left, next, arrows, ends, redirs_end, redirs_more, redirs_missing, args_stop,
  args_end, args_syntax, args_many, args_more,
}
use oslab.Sh.Lexer.{skip_white_le, gettoken_le, at-lt, next_le, next-lt}

-- The arguments of each command and the null pointer behind them fit in argv, and redirections are of the
-- standard input and output.
abbrev pub Fits : Cmd → Type 0
Fits (exec argv) = length argv < max_args
Fits (redir cmd file mode fd) = (fd < 2) × Fits cmd
Fits (pipe l r) = Fits l × Fits r
Fits (list l r) = Fits l × Fits r
Fits (back cmd) = Fits cmd

-- a simple command with that many arguments
abbrev pub HasArgs : ℕ → Cmd → Type 0
HasArgs argc (exec argv) = length argv ≡ argc
HasArgs argc (redir cmd file mode fd) = (fd < 2) × HasArgs argc cmd
HasArgs argc _ = ⊥

HasArgs-Fits : (argc : ℕ) (cmd : Cmd) → argc < max_args → HasArgs argc cmd → Fits cmd
HasArgs-Fits argc (exec argv) lt h = omega arith
HasArgs-Fits argc (redir cmd file mode fd) lt (two, h) = (two, HasArgs-Fits argc cmd lt h)
HasArgs-Fits argc (pipe l r) lt h = elim h [ ]
HasArgs-Fits argc (list l r) lt h = elim h [ ]
HasArgs-Fits argc (back cmd) lt h = elim h [ ]

add_arg-HasArgs :
    (argc : ℕ) (cmd : Cmd) (q : List ℕ) → HasArgs argc cmd → HasArgs (suc argc) (add_arg cmd q)
add_arg-HasArgs argc (exec argv) q h = omega (arith, length-append argv (q ∷ []))
add_arg-HasArgs argc (redir cmd file mode fd) q (two, h) = (two, add_arg-HasArgs argc cmd q h)
add_arg-HasArgs argc (pipe l r) q h = elim h [ ]
add_arg-HasArgs argc (list l r) q h = elim h [ ]
add_arg-HasArgs argc (back cmd) q h = elim h [ ]

-- a parser that ended, with a panic or with such a command and at most `k` characters left
abbrev pub Parsed : (Cmd → Type 0) → ℕ → Run (Cmd × List ℕ) → Type 0
Parsed Q k (done (cmd, s)) = Q cmd × (length s ≤ k)
Parsed Q k (panic e) = Unit
Parsed Q k out_of_fuel = ⊥

pub Parsed-bind :
    (P Q : Cmd → Type 0) (j k : ℕ) (r : Run (Cmd × List ℕ)) (f : Cmd × List ℕ → Run (Cmd × List ℕ))
    → Parsed P j r
    → ((cmd : Cmd) (s : List ℕ) → P cmd → length s ≤ j → Parsed Q k (f (cmd, s)))
    → Parsed Q k (r >>= f)
Parsed-bind P Q j k (done (cmd, s)) f (p, le) h = h cmd s p le
Parsed-bind P Q j k (panic e) f p h = tt
Parsed-bind P Q j k out_of_fuel f p h = elim p [ ]

-- what is left of a parser that is known to succeed
pub Parsed-done :
    (Q : Cmd → Type 0) (k : ℕ) (r : Run (Cmd × List ℕ)) (cmd : Cmd) (s : List ℕ)
    → Parsed Q k r
    → r ≡ done (cmd, s)
    → Q cmd × (length s ≤ k)
Parsed-done Q k r cmd s p e = subst (Parsed Q k) e p

pub Parsed-le :
    (Q : Cmd → Type 0) (j k : ℕ) (r : Run (Cmd × List ℕ)) → j ≤ k → Parsed Q j r → Parsed Q k r
Parsed-le Q j k (done (cmd, s)) le (q, h) = (q, omega (arith, le, h))
Parsed-le Q j k (panic e) le h = tt
Parsed-le Q j k out_of_fuel le h = h

pub Parsed-cases :
    (Q : Cmd → Type 0) (k : ℕ) (r : Run (Cmd × List ℕ))
    → Parsed Q k r
    → ((cmd : Cmd) × (s : List ℕ) × (r ≡ done (cmd, s)) × Q cmd × (length s ≤ k))
      ⊎ ((e : String) × (r ≡ panic e))
Parsed-cases Q k (done (cmd, s)) (q, le) = inl (cmd, s, refl, q, le)
Parsed-cases Q k (panic e) p = inr (e, refl)
Parsed-cases Q k out_of_fuel p = elim p [ ]

-- a property of commands that redirections keep
module _ (Q : Cmd → Type 0)
    (kept : (cmd : Cmd) (file : List ℕ) (mode fd : ℕ)
      → fd < 2
      → Q cmd
      → Q (redir cmd file mode fd)) where
  either_kept : (b : Bool) (x y : Cmd) → Q x → Q y → Q (if b then x else y)
  either_kept true x y p q = p
  either_kept false x y p q = q

  redirect_kept : (tok : ℕ) (cmd : Cmd) (q : List ℕ) → Q cmd → Q (redirect tok cmd q)
  redirect_kept tok cmd q h = either_kept (tok == 60) _ _ (kept cmd q _ _ (omega arith) h) (
      either_kept (tok == 62) _ _ (kept cmd q _ _ (omega arith) h)
        (either_kept (tok == 43) _ _ (kept cmd q _ _ (omega arith) h) h))

  pub parseredirs-Parsed :
      (fuel : ℕ) (cmd : Cmd) (s : List ℕ)
      → length s < fuel
      → Q cmd
      → Parsed Q (length s) (parseredirs fuel cmd s)
  parseredirs-Parsed zero cmd s lt h = absurd (omega arith)
  parseredirs-Parsed (suc fuel) cmd s lt h = elim (Bool-cases (at arrows (skip_white s))) [
    | inr end ↦ rw (redirs_end fuel cmd s end) (h, skip_white_le s)
    | inl found ↦
        let shorter : length (left (gettoken (left (next s)))) < length s =
          omega (arith, gettoken_le (left (next s)), at-lt s arrows found) in
        elim (Bool-cases (kind (gettoken (left (next s))) == 97)) [
          | inr missing ↦ rw (redirs_missing fuel cmd s found missing) tt
          | inl named ↦ rw (redirs_more fuel cmd s found named) (
              Parsed-le Q (length (left (gettoken (left (next s))))) (length s) _
                (omega (arith, shorter))
                (parseredirs-Parsed fuel _ (left (gettoken (left (next s))))
                  (omega (arith, shorter)) (redirect_kept (kind (next s)) cmd _ h)))
        ]
  ]

pub parseargs-Parsed :
    (fuel argc : ℕ) (ret : Cmd) (s : List ℕ)
    → length s < fuel
    → argc < max_args
    → HasArgs argc ret
    → Parsed Fits (length s) (parseargs fuel argc ret s)
parseargs-Parsed zero argc ret s lt few h = absurd (omega arith)
parseargs-Parsed (suc fuel) argc ret s lt few h = elim (Bool-cases (at ends (skip_white s))) [
  | inl stop ↦ rw (args_stop fuel argc ret s stop) (HasArgs-Fits argc ret few h, skip_white_le s)
  | inr go ↦ elim (Bool-cases (kind (next s) == 0)) [
    | inl z ↦ rw (args_end fuel argc ret s go z) (HasArgs-Fits argc ret few h, next_le s)
    | inr z ↦ elim (Bool-cases (kind (next s) == 97)) [
      | inr w ↦ rw (args_syntax fuel argc ret s go z w) tt
      | inl w ↦ elim (Bool-cases (leb max_args (suc argc))) [
        | inl many ↦ rw (args_many fuel argc ret s go z w many) tt
        | inr room ↦ rw (args_more fuel argc ret s go z w room) (
            Parsed-bind (HasArgs (suc argc)) Fits (length (left (next s))) (length s)
              (parseredirs (suc (length (left (next s)))) (add_arg ret (chars (next s)))
                (left (next s)))
              _
              (parseredirs-Parsed (HasArgs (suc argc)) (λ cmd file mode fd two q. (two, q)) _ _
                (left (next s)) (omega arith) (add_arg-HasArgs argc ret _ h))
              (λ more v q le.
                Parsed-le Fits (length v) (length s) _ (omega (arith, le, next_le s)) (
                  parseargs-Parsed fuel (suc argc) more v (omega (arith, le, next-lt s z))
                    (ground (arith, room)) q)))
      ]
    ]
  ]
]
