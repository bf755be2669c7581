-- ===== src/Pipe/Tests.antt =====
-- The theorems on kernel/pipe.c at pipes whose counters are about to wrap round.
use oslab.Prelude.{
  ℕ, ◌≡◌, refl, Bool, true, false, Option, none, some, List, [], ◌∷◌, arith, ltb, if◌then◌else◌,
}
use oslab.Pipe.{Pipe, new_pipe, push, write_pass, left_loop, Sleep, pipewrite}
use oslab.Pipe.Queue.{contents, IsValid}
use oslab.Pipe.History.{
  write_act, read_act, close_act, acts, IsFifo, acts-IsFifo, KeepValid, IsKilled, IsSpared,
  WriteReturns, pipewrite-Returns,
}

-- empty, with both counters at the last unsigned number
abbrev empty : Pipe
empty = record (new_pipe (λ i. 0)) { nread = 0xffff_ffff; nwrite = 0xffff_ffff }

-- holds 7, at both sides of the wrap
abbrev sevens : Pipe
sevens = record (new_pipe (λ i. 7)) { nread = 0xffff_ffff; nwrite = 1 }

-- the bytes of a user: the address itself, up to address 600
abbrev user : ℕ → Option ℕ
user a = if ltb a 600 then some a else none

-- a process that is not killed
abbrev alive : ℕ → Bool
alive i = false

empty-IsValid : IsValid empty
empty-IsValid = omega arith

sevens-IsValid : IsValid sevens
sevens-IsValid = omega arith

contents-sevens : contents sevens ≡ 7 ∷ 7 ∷ []
contents-sevens = refl

write_pass_runs :
    write_pass 3 user alive 10 0 empty ≡ left_loop 3 (push (push (push empty 10) 11) 12)
unfolding write_pass
write_pass_runs = refl

acts-IsFifo_example : IsFifo (
    acts
      (record { pipe = empty; written = []; taken = [] })
      (write_act user alive 0 3 0 ∷ read_act (λ a. true) false 0 2 ∷ close_act true ∷ []))
acts-IsFifo_example =
    acts-IsFifo (record { pipe = empty; written = []; taken = [] })
      (write_act user alive 0 3 0 ∷ read_act (λ a. true) false 0 2 ∷ close_act true ∷ [])
      (record { valid = empty-IsValid; order = refl })

-- a reader empties the pipe during the one sleep
abbrev emptied : List (Sleep (ℕ → Bool))
emptied = ((λ pi. record pi { nread = pi.nwrite }), alive) ∷ []

emptied-KeepValid : KeepValid emptied
emptied-KeepValid = (
  (λ pi v. record { nread_uint = v.nwrite_uint; nwrite_uint = v.nwrite_uint; fits = omega arith }),
  tt,
)

pipewrite-Returns_example :
    WriteReturns
      (IsKilled 700 alive emptied)
      (IsSpared 700 alive emptied)
      user
      0
      700
      (pipewrite emptied alive user empty 0 700)
pipewrite-Returns_example =
    pipewrite-Returns emptied alive user empty 0 700 emptied-KeepValid empty-IsValid
