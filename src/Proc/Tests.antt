-- ===== src/Proc/Tests.antt =====
-- The process table at concrete states.
use xv6_extended.Base.{
  ℕ, ◌+◌, ◌-◌, ◌<◌, ◌≡◌, refl, true, false, Option, some, none, List, [], ◌∷◌, All, arith,
  get_elem?, min,
}
use xv6_extended.Proc.{Proc, State, is_sleeping}
use xv6_extended.Proc.Schedule.{
  choose, scheduler, mlfq_tick, boost_one, mlfq_boost, setpriority, nmlfq, mlfq_slice,
}
use xv6_extended.Proc.Schedule.Choice.{Scheduled, scheduler-Scheduled}
use xv6_extended.Proc.Schedule.Slices.{
  InSlice, ticks, ticks_slice, queue-InSlice, RunsFirst, mlfq_boost-RunsFirst,
}
use xv6_extended.Proc.Channel.{wakeup, kkill, kill_one}
use xv6_extended.Proc.Channel.Wakeup.{Woken, wakeup-Woken}
use xv6_extended.Proc.Channel.Handshake.{
  Shared, Reach, here, next, arrive, set_cond, take_p', pass, leave, gone, off, going, start, Step,
  no_lost_wakeup, Reach-Moves,
}

abbrev proc : State → ℕ → ℕ → Proc
proc st pid priority = record {
  state = st;
  chan = 7;
  killed = false;
  xstate = 0;
  pid = pid;
  tgid = pid;
  thread_count = 1;
  parent = none;
  sz = 4096;
  pagetable = 0;
  trapframe = 0;
  ofile = [];
  cwd = none;
  vmas = [];
  priority = priority;
  ticks_used = 0;
  name = [];
}

abbrev table : List Proc
table =
    proc State.sleeping 1 0
    ∷ proc State.runnable 2 3
    ∷ proc State.runnable 3 1
    ∷ proc State.runnable 4 1
    ∷ []

table-InSlice : All InSlice table
table-InSlice = omega arith

picks_third : (scheduler table).0 ≡ some 2
unfolding scheduler choose
picks_third = refl

picks_second : (scheduler (mlfq_boost table)).0 ≡ some 1
unfolding scheduler choose mlfq_boost boost_one
picks_second = refl

scheduler-Scheduled_example : Scheduled table (scheduler table)
scheduler-Scheduled_example = scheduler-Scheduled table (omega arith)

ticks_slice_example :
    (0 + 2 < mlfq_slice 1
      → ticks 2 (proc State.running 3 1) ≡ record (proc State.running 3 1) { ticks_used = 0 + 2 })
    × (0 + 2 ≡ mlfq_slice 1
        → ticks 2 (proc State.running 3 1)
          ≡ record (proc State.running 3 1) { priority = min (1 + 1) (nmlfq - 1); ticks_used = 0 })
ticks_slice_example = ticks_slice 2 (proc State.running 3 1) (omega arith)

queue-InSlice_example :
    ((running : Option ℕ) → All InSlice (mlfq_tick running table))
    × All InSlice (mlfq_boost table)
    × ((pid priority : ℕ) → All InSlice (setpriority pid priority table).1)
queue-InSlice_example = queue-InSlice table table-InSlice

mlfq_boost-RunsFirst_example : RunsFirst (mlfq_boost table) (scheduler (mlfq_boost table))
mlfq_boost-RunsFirst_example = mlfq_boost-RunsFirst table table-InSlice

wakeup-Woken_example :
    (q : Proc) × (get_elem? (wakeup (some 2) 7 table) 0 ≡ some q)
    × Woken false 7 (proc State.sleeping 1 0) q
wakeup-Woken_example = wakeup-Woken (some 2) 7 0 table (proc State.sleeping 1 0) refl

-- `kkill 0` finds a free entry, whose pid is 0, and marks it.
kill_zero :
    kkill 0 (proc State.running 5 0 ∷ proc State.unused 0 0 ∷ [])
    ≡ some (proc State.running 5 0 ∷ record (proc State.unused 0 0) { killed = true } ∷ [])
unfolding kkill kill_one
kill_zero = refl

-- The waker runs alone.
abbrev waker_done : Shared
waker_done = record start { cond = true; waker = gone }

waker_alone : Reach waker_done
waker_alone =
    next
      (next
        (next (next (next here (arrive refl refl refl)) (set_cond refl refl))
          (take_p' refl refl refl))
        (pass refl refl refl))
      (leave refl refl)

no_lost_wakeup_example :
    (true ≡ true)
    × (is_sleeping State.running ≡ false)
    × (going start.sleeper ≡ false)
    × (start.sleeper ≡ off → State.running ≡ State.runnable)
no_lost_wakeup_example = no_lost_wakeup waker_alone refl

Reach-Moves_example : (t : Shared) × Step waker_done t
Reach-Moves_example = Reach-Moves waker_alone (λ e. cc)
