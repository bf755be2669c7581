-- ===== src/Console/Tests.antt =====
-- Runs of the console of kernel/console.c.
use oslab.Prelude.{[], arith, put}
use oslab.Console.{Console, consoleintr}
use oslab.Console.View.{view, IsConsole, type_char}
use oslab.Console.Editing.{Gives, consoleintr-Gives}

-- the console with `ls` on its line, the indices about to wrap round
abbrev two_typed : Console
two_typed = record {
  buf = put (put (λ i. 0) 126 108) 127 115;
  r = 4294967294;
  w = 4294967294;
  e = 0;
  sent = [];
}

two_typed-IsConsole : IsConsole two_typed
two_typed-IsConsole = record {
  r_uint = omega arith;
  w_uint = omega arith;
  e_uint = omega arith;
  fits = omega arith;
  no_newline = λ k lt. ground arith;
}

consoleintr-Gives_example : Gives (consoleintr 10 two_typed) (type_char 10 (view two_typed))
consoleintr-Gives_example = consoleintr-Gives 10 two_typed two_typed-IsConsole (omega arith)
