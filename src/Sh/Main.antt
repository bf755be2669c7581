-- ===== src/Sh/Main.antt =====
-- main of user/sh.c: what the shell does with one line.
use oslab.Prelude.{
  ℕ, ◌-◌, ◌≡◌, refl, ap, Bool, false, ◌&&◌, List, [], ◌∷◌, ◌==◌, if◌then◌else◌, length, take, drop,
}
use oslab.Prelude.Run.{Run, done, panic, out_of_fuel, ◌>>=◌}
use oslab.Fd.{Table}
use oslab.Sh.{Cmd}
use oslab.Sh.Parser.{parsecmd}
use oslab.Sh.Total.{parsecmd-EndsInside, EndsInside}
use oslab.Sh.Runcmd.{File, Action, runcmd, standard, meaning, runcmd_lem}

-- A line changes the directory of the shell, or a child of the shell parses it and acts, or panics.
pub data Step : Type 0 where
  chdir : List ℕ → Step
  child : Run Action → Step

abbrev starts_with_cd : List ℕ → Bool
starts_with_cd (c ∷ d ∷ s ∷ rest) = (c == 99) && (d == 100) && (s == 32)
starts_with_cd _ = false

unfoldable pub main_step : (List ℕ → ℕ → Bool) → List ℕ → Table File → Step
unfolding parsecmd runcmd
main_step opens buf ofile =
    if starts_with_cd buf
    then chdir (drop 3 (take (length buf - 1) buf))
    else child (parsecmd buf >>= λ cmd. done (runcmd opens cmd [] ofile))

abbrev pub act : (Cmd → Action) → Run Cmd → Run Action
act f r = r >>= λ cmd. done (f cmd)

act_same :
    (f g : Cmd → Action) (r : Run Cmd)
    → EndsInside r
    → ((cmd : Cmd) → EndsInside (done cmd) → f cmd ≡ g cmd)
    → act f r ≡ act g r
act_same f g (done cmd) fits same = ap done (same cmd fits)
act_same f g (panic e) fits same = refl
act_same f g out_of_fuel fits same = refl

-- A line that does not change the directory is parsed by a child of the shell, and what the child does is what
-- the parsed command means with the three standard descriptors of the shell, whatever the line is.
pub main_step_lem :
    (opens : List ℕ → ℕ → Bool) (buf : List ℕ) (i o e : File)
    → starts_with_cd buf ≡ false
    → main_step opens buf (standard i o e)
      ≡ child (act (λ cmd. meaning opens e cmd [] i o) (parsecmd buf))
unfolding main_step
main_step_lem opens buf i o e h = rw h (
    ap child (
      act_same (λ cmd. runcmd opens cmd [] (standard i o e)) (λ cmd. meaning opens e cmd [] i o)
        (parsecmd buf) (parsecmd-EndsInside buf) (λ cmd fits. runcmd_lem opens e cmd [] i o fits)))
