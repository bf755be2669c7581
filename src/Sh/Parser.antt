-- ===== src/Sh/Parser.antt =====
-- The parser of user/sh.c. Each loop has fuel, of which one round uses one, and so has the recursion of
-- parseline, where a parenthesis or a semicolon uses one.
use oslab.Prelude.{ℕ, zero, suc, true, false, List, [], ◌∷◌, ◌++◌, ◌==◌, leb, if◌then◌else◌, length}
use oslab.Prelude.Run.{Run, done, panic, out_of_fuel, ◌>>=◌}
use oslab.Sh.{Cmd, exec, redir, pipe, list, back, max_args, gettoken, peek}

-- O_RDONLY, O_WRONLY|O_CREATE|O_TRUNC and O_WRONLY|O_CREATE
abbrev pub read_mode : ℕ
read_mode = 0

abbrev pub write_mode : ℕ
write_mode = 1537

abbrev pub append_mode : ℕ
append_mode = 513

-- the `switch` of parseredirs
abbrev pub redirect : ℕ → Cmd → List ℕ → Cmd
redirect tok cmd q =
    if tok == 60
    then redir cmd q read_mode 0
    else if tok == 62
    then redir cmd q write_mode 1
    else if tok == 43
    then redir cmd q append_mode 1
    else cmd

unfoldable pub parseredirs : ℕ → Cmd → List ℕ → Run (Cmd × List ℕ)
unfolding gettoken peek
parseredirs zero cmd s = out_of_fuel
parseredirs (suc fuel) cmd s =
    let (found, t) = peek s (60 ∷ 62 ∷ []) in
    elim found [
      | false ↦ done (cmd, t)
      | true ↦
          let (tok, sym, u) = gettoken t in
          let (kind, q, v) = gettoken u in
          elim (kind == 97) [
            | false ↦ panic "missing file for redirection"
            | true ↦ parseredirs fuel (redirect tok cmd q) v
          ]
    ]

-- `cmd->argv[argc] = q`, where `ret` is the command `cmd` inside its redirections
abbrev pub add_arg : Cmd → List ℕ → Cmd
add_arg (exec argv) q = exec (argv ++ (q ∷ []))
add_arg (redir cmd file mode fd) q = redir (add_arg cmd q) file mode fd
add_arg cmd q = cmd

-- the loop of parseexec
unfoldable pub parseargs : ℕ → ℕ → Cmd → List ℕ → Run (Cmd × List ℕ)
unfolding gettoken peek parseredirs
parseargs zero argc ret s = out_of_fuel
parseargs (suc fuel) argc ret s =
    let (stop, t) = peek s (124 ∷ 41 ∷ 38 ∷ 59 ∷ []) in
    let (tok, q, u) = gettoken t in
    elim stop [
      | true ↦ done (ret, t)
      | false ↦ elim (tok == 0) [
        | true ↦ done (ret, u)
        | false ↦ elim (tok == 97) [
          | false ↦ panic "syntax"
          | true ↦ elim (leb max_args (suc argc)) [
            | true ↦ panic "too many args"
            | false ↦ parseredirs (suc (length u)) (add_arg ret q) u >>= λ (more, v).
                parseargs fuel (suc argc) more v
          ]
        ]
      ]
    ]

-- with the parser of the line in the parentheses
unfoldable pub parseblock : (List ℕ → Run (Cmd × List ℕ)) → List ℕ → Run (Cmd × List ℕ)
unfolding gettoken peek parseredirs
parseblock line s =
    let (found, t) = peek s (40 ∷ []) in
    let (tok, sym, u) = gettoken t in
    elim found [
      | false ↦ panic "parseblock"
      | true ↦ line u >>= λ (cmd, v).
          let (closed, w) = peek v (41 ∷ []) in
          let (tok2, sym2, x) = gettoken w in
          elim closed [
            | false ↦ panic "syntax - missing )"
            | true ↦ parseredirs (suc (length x)) cmd x
          ]
    ]

unfoldable pub parseexec : (List ℕ → Run (Cmd × List ℕ)) → List ℕ → Run (Cmd × List ℕ)
unfolding peek parseblock parseargs
parseexec line s =
    let (block, t) = peek s (40 ∷ []) in
    elim block [
      | true ↦ parseblock line t
      | false ↦ parseredirs (suc (length t)) (exec []) t >>= λ (ret, u).
          parseargs (suc (length u)) 0 ret u
    ]

unfoldable pub parsepipe : (List ℕ → Run (Cmd × List ℕ)) → ℕ → List ℕ → Run (Cmd × List ℕ)
unfolding gettoken peek parseexec
parsepipe line zero s = out_of_fuel
parsepipe line (suc fuel) s = parseexec line s >>= λ (cmd, t).
    let (found, u) = peek t (124 ∷ []) in
    let (tok, sym, v) = gettoken u in
    elim found [
      | false ↦ done (cmd, u)
      | true ↦ parsepipe line fuel v >>= λ (right, w). done (pipe cmd right, w)
    ]

-- the loop of parseline
unfoldable pub parsebacks : ℕ → Cmd → List ℕ → Run (Cmd × List ℕ)
unfolding gettoken peek
parsebacks zero cmd s = out_of_fuel
parsebacks (suc fuel) cmd s =
    let (found, t) = peek s (38 ∷ []) in
    let (tok, sym, u) = gettoken t in
    elim found [ false ↦ done (cmd, t) | true ↦ parsebacks fuel (back cmd) u ]

unfoldable pub parseline : ℕ → List ℕ → Run (Cmd × List ℕ)
unfolding gettoken peek parsepipe parsebacks
parseline zero s = out_of_fuel
parseline (suc fuel) s = parsepipe (parseline fuel) (suc (length s)) s >>= λ (first, t).
    parsebacks (suc (length t)) first t >>= λ (cmd, u).
    let (found, v) = peek u (59 ∷ []) in
    let (tok, sym, w) = gettoken v in
    elim found [
      | false ↦ done (cmd, v)
      | true ↦ parseline fuel w >>= λ (right, x). done (list cmd right, x)
    ]

abbrev pub finish : Cmd → List ℕ → Run Cmd
finish cmd [] = done cmd
finish cmd (c ∷ s) = panic "syntax"

unfoldable pub parsecmd : List ℕ → Run Cmd
unfolding peek parseline
parsecmd s = parseline (suc (length s)) s >>= λ (cmd, t). let (found, u) = peek t [] in finish cmd u
