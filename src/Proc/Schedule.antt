-- ===== src/Proc/Schedule.antt =====
-- proc.c: the multi-level feedback queue. `scheduler` picks a process, the timer charges it, and the
-- boost lifts all processes.
pub mod Choice
pub mod Slices
use xv6_extended.Base.{
  ℕ, zero, suc, ◌+◌, ◌-◌, ◌%◌, Bool, true, false, ◌&&◌, ◌||◌, Option, some, none, List, [], ◌∷◌,
  map, leb, ltb, ◌==◌, not, if◌then◌else◌, lt_int, is_negative, add_int, get_elem?, set,
}
use xv6_extended.Proc.{Proc, State, is_runnable, is_unused}

abbrev pub nmlfq : ℕ
nmlfq = 4

-- `mlfq_slice`
abbrev pub mlfq_slice : ℕ → ℕ
mlfq_slice zero = 1
mlfq_slice (suc zero) = 2
mlfq_slice (suc (suc zero)) = 4
mlfq_slice _ = 8

-- The loop of `scheduler` over the table from slot `i` on, with `chosen` and `chosen_pri`.
unfoldable pub choose : List Proc → ℕ → Option ℕ → ℕ → Option ℕ
choose [] i chosen pri = chosen
choose (p ∷ ps) i chosen pri =
    let better = is_runnable p.state && lt_int p.priority pri in
    choose ps (suc i) (if better then some i else chosen) (if better then p.priority else pri)

-- Change the process in a slot.
abbrev pub modify : List Proc → ℕ → (Proc → Proc) → List Proc
modify [] i f = []
modify (p ∷ ps) zero f = f p ∷ ps
modify (p ∷ ps) (suc i) f = p ∷ modify ps i f

-- One pass of `scheduler`, up to `swtch`: what it stores in `c->proc`, and the table. With no
-- runnable process it waits for an interrupt.
unfoldable pub scheduler : List Proc → Option ℕ × List Proc
scheduler ps = elim (choose ps 0 none nmlfq) [
  | none ↦ (none, ps)
  | some i ↦ (some i, modify ps i (λ p. record p { state = State.running }))
]

-- `yield`, up to the switch to the scheduler.
pub yield : Proc → Proc
yield p = record p { state = State.runnable }

-- `mlfq_tick` on the running process.
pub tick : Proc → Proc
tick p =
    let used = add_int p.ticks_used 1 in
    let pri0 = if is_negative p.priority then 0 else p.priority in
    let pri = if lt_int pri0 nmlfq then pri0 else nmlfq - 1 in
    if lt_int used (mlfq_slice pri) then record p { ticks_used = used } else record p {
      priority = if lt_int p.priority (nmlfq - 1) then add_int p.priority 1 else p.priority;
      ticks_used = 0;
    }

pub mlfq_tick : Option ℕ → List Proc → List Proc
mlfq_tick none ps = ps
mlfq_tick (some i) ps = modify ps i tick

unfoldable pub boost_one : Proc → Proc
boost_one p = if is_unused p.state then p else record p { priority = 0; ticks_used = 0 }

unfoldable pub mlfq_boost : List Proc → List Proc
mlfq_boost ps = map boost_one ps

-- The loop of `setpriority`: none if no process has the pid.
pub setpriority_from : ℕ → ℕ → List Proc → Option (List Proc)
setpriority_from pid priority [] = none
setpriority_from pid priority (p ∷ ps) =
    let rest = setpriority_from pid priority ps in
    if p.pid == pid
    then some (record p { priority = priority; ticks_used = 0 } ∷ ps)
    else elim rest [ none ↦ none | some ps' ↦ some (p ∷ ps') ]

-- The Bool says whether the call returns 0; else it returns -1.
pub setpriority : ℕ → ℕ → List Proc → Bool × List Proc
setpriority pid priority ps =
    if is_negative priority || not (lt_int priority nmlfq)
    then (false, ps)
    else elim (setpriority_from pid priority ps) [ none ↦ (false, ps) | some ps' ↦ (true, ps') ]
