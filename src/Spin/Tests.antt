-- ===== src/Spin/Tests.antt =====
-- Runs of the spinlock of kernel/spinlock.c.
use oslab.Prelude.{◌≡◌, refl, true, false, some, [], ◌∷◌}
use oslab.Prelude.Run.{panic}
use oslab.Spin.{Cpu, outside, System, initlock, acquire_start}
use oslab.Spin.Nesting.{IsCpu}
use oslab.Spin.Exclusion.{Excludes, run-IsExclusive, initlock-IsExclusive}

-- a CPU with interrupts on that holds no lock
abbrev idle : Cpu
idle = record { intr = true; noff = 0; intena = false }

abbrev start : System
start = record { cpus = λ i. idle; lock = initlock; pc = λ i. outside }

-- CPU 0 takes the lock; CPU 1 comes and spins
run-IsExclusive_example : Excludes (0 ∷ 1 ∷ 0 ∷ 1 ∷ 0 ∷ 1 ∷ []) start
run-IsExclusive_example =
    run-IsExclusive (0 ∷ 1 ∷ 0 ∷ 1 ∷ 0 ∷ 1 ∷ []) start (initlock-IsExclusive (λ i. idle))

idle-IsCpu : IsCpu idle
idle-IsCpu ne = absurd (ne refl)

-- a CPU that takes a lock that it holds
acquire_again : acquire_start 0 idle (record { locked = true; cpu = some 0 }) ≡ panic "acquire"
unfolding acquire_start
acquire_again = refl
