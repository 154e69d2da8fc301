-- ===== src/Spinlock.antt =====
-- xv6-riscv/kernel/spinlock.c: a spin lock and the processors that take and release it, one access to
-- shared memory at a time.
pub mod Protocol
pub mod Exclusion
mod Tests
use xv6_extended.Base.{
  ℕ, zero, suc, ◌+◌, ◌-◌, Bool, true, false, ◌&&◌, not, Option, some, none, List, [], ◌∷◌, ◌==◌,
  ltb, if◌then◌else◌, Outcome, done, panic,
}
use xv6_extended.Base.Family.{update}

-- `noff` and `intena` of `struct cpu`, and whether device interrupts are on.
pub record Cpu : Type 0 where
  pub noff : ℕ
  pub intena : Bool
  pub intr : Bool

unfoldable pub push_off : Cpu → Cpu
push_off c = record {
  noff = c.noff + 1;
  intena = if c.noff == 0 then c.intr else c.intena;
  intr = false;
}

unfoldable pub pop_off : Cpu → Outcome Cpu
pop_off c =
    if c.intr
    then panic
    else if ltb c.noff 1
    then panic
    else done (record c {
      noff = c.noff - 1;
      intr = if c.noff - 1 == 0 && c.intena then true else c.intr;
    })

-- Where a processor is: outside; in `acquire`, before it reads `lk->locked` and then `lk->cpu` in
-- `holding`, in the loop, and before it sets `lk->cpu`; in the critical section; in `release`, before
-- the two reads of `holding`, before it clears `lk->cpu`, before it clears `lk->locked`, and before
-- `pop_off`; or in `panic`.
pub data Pc : Type 0 where
  outside check_locked check_cpu spin note inside recheck_locked recheck_cpu clear unlock pop
        panicked :
      Pc

-- `struct spinlock`, less its name, and the processors.
pub record Spin : Type 0 where
  pub locked : Bool
  pub owner : Option ℕ
  pub cpu : ℕ → Cpu
  pub pc : ℕ → Pc

abbrev pub goto : ℕ → Pc → Spin → Spin
goto c q s = record s { pc = update s.pc c q }

-- `lk->cpu == mycpu()`
abbrev pub is_owner : Option ℕ → ℕ → Bool
is_owner none c = false
is_owner (some d) c = d == c

-- `pop_off` as the last step of `release`.
abbrev pub popped : ℕ → Outcome Cpu → Spin → Spin
popped c panic s = goto c panicked s
popped c (done k) s = record s { cpu = update s.cpu c k; pc = update s.pc c outside }

-- What the processor `c` does next. One that is outside calls `acquire`, and one in the critical section
-- calls `release`.
abbrev pub act : Pc → ℕ → Spin → Spin
act outside c s = record s {
  cpu = update s.cpu c (push_off (s.cpu c));
  pc = update s.pc c check_locked;
}
act check_locked c s = goto c (if s.locked then check_cpu else spin) s
act check_cpu c s = goto c (if is_owner s.owner c then panicked else spin) s
act spin c s = record s { locked = true; pc = update s.pc c (if s.locked then spin else note) }
act note c s = record s { owner = some c; pc = update s.pc c inside }
act inside c s = goto c recheck_locked s
act recheck_locked c s = goto c (if s.locked then recheck_cpu else panicked) s
act recheck_cpu c s = goto c (if is_owner s.owner c then clear else panicked) s
act clear c s = record s { owner = none; pc = update s.pc c unlock }
act unlock c s = record s { locked = false; pc = update s.pc c pop }
act pop c s = popped c (pop_off (s.cpu c)) s
act panicked c s = s

unfoldable pub step : ℕ → Spin → Spin
step c s = act (s.pc c) c s

-- The processors take steps in the given order.
unfoldable pub run : List ℕ → Spin → Spin
run [] s = s
run (c ∷ cs) s = run cs (step c s)

-- `initlock`, with every processor outside.
abbrev pub initlock : (ℕ → Cpu) → Spin
initlock cpus = record { locked = false; owner = none; cpu = cpus; pc = λ _. outside }
