-- ===== src/Spin.antt =====
-- kernel/spinlock.c: spinlocks between CPUs, and the nesting of disabled interrupts. A CPU is its number.
-- acquire and release are split at each access to the lock that another CPU can see, so that steps of
-- several CPUs interleave.
pub mod Nesting
pub mod Exclusion
mod Tests
use Prim.Native.String.{String}
use oslab.Prelude.{
  ℕ, zero, suc, ◌+◌, ◌-◌, Bool, true, false, not, ◌&&◌, Option, none, some, List, [], ◌∷◌, ◌==◌,
  ltb, if◌then◌else◌, put,
}
use oslab.Prelude.Run.{Run, done, panic, out_of_fuel, ◌>>=◌}

-- The fields of `struct cpu` that the locks use, and whether interrupts are enabled (intr_get).
pub record Cpu : Type 0 where
  pub intr : Bool
  pub noff : ℕ
  pub intena : Bool

-- `struct spinlock`, less its name
pub record Lock : Type 0 where
  pub locked : Bool
  pub cpu : Option ℕ

unfoldable pub initlock : Lock
initlock = record { locked = false; cpu = none }

unfoldable pub push_off : Cpu → Cpu
push_off c = record {
  intr = false;
  noff = c.noff + 1;
  intena = if c.noff == 0 then c.intr else c.intena;
}

unfoldable pub pop_off : Cpu → Run Cpu
pop_off c =
    if c.intr
    then panic "pop_off - interruptible"
    else if ltb c.noff 1
    then panic "pop_off"
    else done (record c { noff = c.noff - 1; intr = (c.noff - 1 == 0) && c.intena })

unfoldable pub holding : ℕ → Lock → Bool
holding me lk = lk.locked && (elim lk.cpu [ none ↦ false | some i ↦ i == me ])

-- acquire up to its loop
unfoldable pub acquire_start : ℕ → Cpu → Lock → Run Cpu
unfolding push_off holding
acquire_start me c lk = let c' = push_off c in if holding me lk then panic "acquire" else done c'

-- __sync_lock_test_and_set(&lk->locked, 1): what was there, and the lock afterwards
unfoldable pub swap : Lock → Bool × Lock
swap lk = (lk.locked, record lk { locked = true })

-- release up to its store to lk->cpu
unfoldable pub release_start : ℕ → Lock → Run Lock
unfolding holding
release_start me lk =
    if not (holding me lk) then panic "release" else done (record lk { cpu = none })

-- Where a CPU is in the code of one lock: outside of it, in the loop of acquire, past the loop,
-- between acquire and release, past the store of release to lk->cpu, past its store to lk->locked.
pub data Pc : Type 0 where
  outside spinning swapped critical disowned unlocked : Pc

pub record System : Type 0 where
  pub cpus : ℕ → Cpu
  pub lock : Lock
  pub pc : ℕ → Pc

-- CPU `me` does its next step.
unfoldable pub step : ℕ → System → Run System
unfolding acquire_start swap release_start pop_off
step me s = elim (s.pc me) [
  | outside ↦ do
    c ← acquire_start me (s.cpus me) s.lock
    done (record s { cpus = put s.cpus me c; pc = put s.pc me spinning })
  | spinning ↦
      let (old, lk) = swap s.lock in
      done (record s { lock = lk; pc = put s.pc me (if old then spinning else swapped) })
  | swapped ↦ done (record s { lock = record s.lock { cpu = some me }; pc = put s.pc me critical })
  | critical ↦ do
    lk ← release_start me s.lock
    done (record s { lock = lk; pc = put s.pc me disowned })
  | disowned ↦
      done (record s { lock = record s.lock { locked = false }; pc = put s.pc me unlocked })
  | unlocked ↦ do
    c ← pop_off (s.cpus me)
    done (record s { cpus = put s.cpus me c; pc = put s.pc me outside })
]

-- the steps of the CPUs in a schedule
pub run : List ℕ → System → Run System
unfolding step
run [] s = done s
run (me ∷ rest) s = do s' ← step me s; run rest s'
