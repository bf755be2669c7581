-- ===== src/Sh/Steps.antt =====
-- The steps of the parser of user/sh.c, by what it finds.
use Prim.Native.String.{String}
use oslab.Prelude.{ℕ, suc, ◌≡◌, refl, true, false, List, [], ◌∷◌, ◌==◌, leb, length}
use oslab.Prelude.Run.{Run, done, panic, ◌>>=◌}
use oslab.Sh.{Cmd, exec, pipe, list, back, max_args, gettoken, at, skip_white}
use oslab.Sh.Parser.{
  redirect, parseredirs, add_arg, parseargs, parseblock, parseexec, parsepipe, parsebacks,
  parseline,
}

-- the kind of a token, its characters, and what is left behind it
abbrev pub kind : ℕ × List ℕ × List ℕ → ℕ
kind (k, q, s) = k

abbrev pub chars : ℕ × List ℕ × List ℕ → List ℕ
chars (k, q, s) = q

abbrev pub left : ℕ × List ℕ × List ℕ → List ℕ
left (k, q, s) = s

-- the token behind the white space
abbrev pub next : List ℕ → ℕ × List ℕ × List ℕ
next s = gettoken (skip_white s)

abbrev pub arrows : List ℕ
arrows = 60 ∷ 62 ∷ []

abbrev pub ends : List ℕ
ends = 124 ∷ 41 ∷ 38 ∷ 59 ∷ []

module _ (fuel : ℕ) (cmd : Cmd) (s : List ℕ) where
  pub redirs_end :
      at arrows (skip_white s) ≡ false → parseredirs (suc fuel) cmd s ≡ done (cmd, skip_white s)
  unfolding parseredirs
  redirs_end h = rw (h, parseredirs) refl

  pub redirs_more :
      at arrows (skip_white s) ≡ true
      → (kind (gettoken (left (next s))) == 97) ≡ true
      → parseredirs (suc fuel) cmd s
        ≡ parseredirs fuel
            (redirect (kind (next s)) cmd (chars (gettoken (left (next s)))))
            (left (gettoken (left (next s))))
  unfolding parseredirs
  redirs_more h named = rw (h, named, parseredirs) refl

  pub redirs_missing :
      at arrows (skip_white s) ≡ true
      → (kind (gettoken (left (next s))) == 97) ≡ false
      → parseredirs (suc fuel) cmd s ≡ panic "missing file for redirection"
  unfolding parseredirs
  redirs_missing h named = rw (h, named, parseredirs) refl

module _ (fuel argc : ℕ) (ret : Cmd) (s : List ℕ) where
  pub args_stop :
      at ends (skip_white s) ≡ true → parseargs (suc fuel) argc ret s ≡ done (ret, skip_white s)
  unfolding parseargs
  args_stop h = rw (h, parseargs) refl

  pub args_end :
      at ends (skip_white s) ≡ false
      → (kind (next s) == 0) ≡ true
      → parseargs (suc fuel) argc ret s ≡ done (ret, left (next s))
  unfolding parseargs
  args_end h z = rw (h, z, parseargs) refl

  pub args_syntax :
      at ends (skip_white s) ≡ false
      → (kind (next s) == 0) ≡ false
      → (kind (next s) == 97) ≡ false
      → parseargs (suc fuel) argc ret s ≡ panic "syntax"
  unfolding parseargs
  args_syntax h z w = rw (h, z, w, parseargs) refl

  pub args_many :
      at ends (skip_white s) ≡ false
      → (kind (next s) == 0) ≡ false
      → (kind (next s) == 97) ≡ true
      → leb max_args (suc argc) ≡ true
      → parseargs (suc fuel) argc ret s ≡ panic "too many args"
  unfolding parseargs
  args_many h z w m = rw (h, z, w, m, parseargs) refl

  pub args_more :
      at ends (skip_white s) ≡ false
      → (kind (next s) == 0) ≡ false
      → (kind (next s) == 97) ≡ true
      → leb max_args (suc argc) ≡ false
      → parseargs (suc fuel) argc ret s ≡ (
          parseredirs (suc (length (left (next s)))) (add_arg ret (chars (next s))) (left (next s))
          >>= λ (more, v). parseargs fuel (suc argc) more v)
  unfolding parseargs
  args_more h z w m = rw (h, z, w, m, parseargs) refl

module _ (line : List ℕ → Run (Cmd × List ℕ)) (s : List ℕ)
    (opens : at (40 ∷ []) (skip_white s) ≡ true) where
  pub block_fails : (e : String) → line (left (next s)) ≡ panic e → parseblock line s ≡ panic e
  unfolding parseblock
  block_fails e r = rw (opens, r, parseblock) refl

  module _ (cmd : Cmd) (v : List ℕ) (r : line (left (next s)) ≡ done (cmd, v)) where
    pub block_unclosed :
        at (41 ∷ []) (skip_white v) ≡ false → parseblock line s ≡ panic "syntax - missing )"
    unfolding parseblock
    block_unclosed h = rw (opens, r, parseblock) (rw (h, ◌>>=◌) refl)

    pub block_closed :
        at (41 ∷ []) (skip_white v) ≡ true
        → parseblock line s ≡ parseredirs (suc (length (left (next v)))) cmd (left (next v))
    unfolding parseblock
    block_closed h = rw (opens, r, parseblock) (rw (h, ◌>>=◌) refl)

module _ (line : List ℕ → Run (Cmd × List ℕ)) (s : List ℕ) where
  pub exec_block :
      at (40 ∷ []) (skip_white s) ≡ true → parseexec line s ≡ parseblock line (skip_white s)
  unfolding parseexec
  exec_block h = rw (h, parseexec) refl

  pub exec_args :
      at (40 ∷ []) (skip_white s) ≡ false
      → parseexec line s ≡ (
          parseredirs (suc (length (skip_white s))) (exec []) (skip_white s) >>= λ (ret, u).
          parseargs (suc (length u)) 0 ret u)
  unfolding parseexec
  exec_args h = rw (h, parseexec) refl

  pub pipe_fails :
      (fuel : ℕ) (e : String) → parseexec line s ≡ panic e → parsepipe line (suc fuel) s ≡ panic e
  unfolding parsepipe
  pipe_fails fuel e r = rw (r, parsepipe) refl

  module _ (fuel : ℕ) (cmd : Cmd) (t : List ℕ) (r : parseexec line s ≡ done (cmd, t)) where
    pub pipe_last :
        at (124 ∷ []) (skip_white t) ≡ false
        → parsepipe line (suc fuel) s ≡ done (cmd, skip_white t)
    unfolding parsepipe
    pipe_last h = rw (r, parsepipe) (rw (h, ◌>>=◌) refl)

    pub pipe_more :
        at (124 ∷ []) (skip_white t) ≡ true
        → parsepipe line (suc fuel) s
          ≡ (parsepipe line fuel (left (next t)) >>= λ (right, w). done (pipe cmd right, w))
    unfolding parsepipe
    pipe_more h = rw (r, parsepipe) (rw (h, ◌>>=◌) refl)

module _ (fuel : ℕ) (cmd : Cmd) (s : List ℕ) where
  pub backs_end :
      at (38 ∷ []) (skip_white s) ≡ false → parsebacks (suc fuel) cmd s ≡ done (cmd, skip_white s)
  unfolding parsebacks
  backs_end h = rw (h, parsebacks) refl

  pub backs_more :
      at (38 ∷ []) (skip_white s) ≡ true
      → parsebacks (suc fuel) cmd s ≡ parsebacks fuel (back cmd) (left (next s))
  unfolding parsebacks
  backs_more h = rw (h, parsebacks) refl

module _ (fuel : ℕ) (s : List ℕ) where
  pub line_fails :
      (e : String)
      → parsepipe (parseline fuel) (suc (length s)) s ≡ panic e
      → parseline (suc fuel) s ≡ panic e
  unfolding parseline
  line_fails e r = rw (r, parseline) refl

  pub backs_fails :
      (e : String) (first : Cmd) (t : List ℕ)
      → parsepipe (parseline fuel) (suc (length s)) s ≡ done (first, t)
      → parsebacks (suc (length t)) first t ≡ panic e
      → parseline (suc fuel) s ≡ panic e
  unfolding parseline
  backs_fails e first t r b = rw (r, parseline) (rw (b, ◌>>=◌) refl)

  module _ (first cmd : Cmd) (t u : List ℕ)
      (r : parsepipe (parseline fuel) (suc (length s)) s ≡ done (first, t))
      (b : parsebacks (suc (length t)) first t ≡ done (cmd, u)) where
    pub line_last :
        at (59 ∷ []) (skip_white u) ≡ false → parseline (suc fuel) s ≡ done (cmd, skip_white u)
    unfolding parseline
    line_last h = rw (r, parseline) (rw (b, ◌>>=◌) (rw (h, ◌>>=◌) refl))

    pub line_more :
        at (59 ∷ []) (skip_white u) ≡ true
        → parseline (suc fuel) s
          ≡ (parseline fuel (left (next u)) >>= λ (right, x). done (list cmd right, x))
    unfolding parseline
    line_more h = rw (r, parseline) (rw (b, ◌>>=◌) (rw (h, ◌>>=◌) refl))
