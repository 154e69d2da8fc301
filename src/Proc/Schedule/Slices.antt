-- ===== src/Proc/Schedule/Slices.antt =====
-- Time slices, demotion and the boost.
use xv6_extended.Base.{
  ℕ, zero, suc, ◌+◌, ◌-◌, ◌≤◌, ◌<◌, ◌≡◌, ◌∙◌, ap, Bool, true, false, ◌||◌, Option, some, none, List,
  [], ◌∷◌, ◌++◌, length, map, All, All-split, lt_int, lt_int-eq-ltb, is_negative, add_int, ltb, not,
  ltb→lt, lt→ltb, if◌then◌else◌, Bool-cases, inl, inr, arith, subst, min, ◌==◌,
}
use xv6_extended.Proc.{Proc, State, is_runnable, is_unused}
use xv6_extended.Proc.Schedule.{
  nmlfq, mlfq_slice, modify, scheduler, tick, mlfq_tick, boost_one, mlfq_boost, setpriority_from,
  setpriority,
}
use xv6_extended.Proc.Schedule.Choice.{IsQueued, Above, Scheduled, scheduler-Scheduled}

-- A process stands at a level of the queue and has not used up its slice there.
pub record InSlice (p : Proc) : Type 0 where
  pub level : p.priority < nmlfq
  pub slice_left : p.ticks_used < mlfq_slice p.priority

slice-le : (n : ℕ) → mlfq_slice n ≤ 8
slice-le zero = omega arith
slice-le (suc zero) = omega arith
slice-le (suc (suc zero)) = omega arith
slice-le (suc (suc (suc n))) = omega arith

slice_pos : (n : ℕ) → 0 < mlfq_slice n
slice_pos zero = omega arith
slice_pos (suc zero) = omega arith
slice_pos (suc (suc zero)) = omega arith
slice_pos (suc (suc (suc n))) = omega arith

-- What a tick does to a process in its slice: the tick is counted, or the process moves down a level.
abbrev pub charged : Proc → Proc
charged p =
    if ltb (p.ticks_used + 1) (mlfq_slice p.priority)
    then record p { ticks_used = p.ticks_used + 1 }
    else record p { priority = min (p.priority + 1) (nmlfq - 1); ticks_used = 0 }

tick-charged : (p : Proc) → InSlice p → tick p ≡ charged p
unfolding tick
tick-charged p h =
    let small = slice-le p.priority in
    let used : add_int p.ticks_used 1 ≡ p.ticks_used + 1 = omega (arith, h.slice_left) in
    let pri : is_negative p.priority ≡ false = ground (arith, h.level) in
    let inside : lt_int p.priority nmlfq ≡ true = ground (arith, h.level) in
    let order : lt_int (p.ticks_used + 1) (mlfq_slice p.priority)
        ≡ ltb (p.ticks_used + 1) (mlfq_slice p.priority) =
      lt_int-eq-ltb _ _ (omega (arith, h.slice_left)) (omega arith) in
    let next : (if lt_int p.priority (nmlfq - 1) then add_int p.priority 1 else p.priority)
        ≡ min (p.priority + 1) (nmlfq - 1) =
      ground (arith, h.level) in
    rw (used, pri, inside, order, next)

pub tick-InSlice : (p : Proc) → InSlice p → InSlice (tick p)
tick-InSlice p h =
    rw (tick-charged p h) (elim (Bool-cases (ltb (p.ticks_used + 1) (mlfq_slice p.priority))) [
      | inl more ↦ rw more (record { level = h.level; slice_left = ltb→lt _ _ more })
      | inr over ↦ rw over (record {
        level = omega arith;
        slice_left = slice_pos (min (p.priority + 1) (nmlfq - 1));
      })
    ])

-- `n` ticks of the timer, all while the process runs.
abbrev pub ticks : ℕ → Proc → Proc
ticks zero p = p
ticks (suc n) p = ticks n (tick p)

-- A process that keeps the processor stays at its level for exactly the slice of that level; with the
-- last tick of the slice it moves down one level, or stays at the lowest, with no ticks used.
pub ticks_slice :
    (n : ℕ) (p : Proc)
    → InSlice p
    → (p.ticks_used + n < mlfq_slice p.priority
        → ticks n p ≡ record p { ticks_used = p.ticks_used + n })
      × (p.ticks_used + n ≡ mlfq_slice p.priority
          → ticks n p ≡ record p { priority = min (p.priority + 1) (nmlfq - 1); ticks_used = 0 })
ticks_slice zero p h =
    ((λ less. λ i. record p { ticks_used = same i }), (λ end. absurd (omega (arith, h.slice_left))))
  where
    same : p.ticks_used ≡ p.ticks_used + 0
    same = omega arith
ticks_slice (suc n) p h = (
  (λ less.
      let more : ltb (p.ticks_used + 1) (mlfq_slice p.priority) ≡ true = lt→ltb _ _ (omega arith) in
      let step : tick p ≡ record p { ticks_used = p.ticks_used + 1 } = tick-charged p h ∙ rw more in
      let next : InSlice (record p { ticks_used = p.ticks_used + 1 }) = record {
        level = h.level;
        slice_left = omega arith;
      } in
      ap (ticks n) step
      ∙ (ticks_slice n (record p { ticks_used = p.ticks_used + 1 }) next).0 (omega arith)
      ∙ ap (λ (k : ℕ). record p { ticks_used = k }) (omega arith)),
  (λ end. elim (Bool-cases (ltb (p.ticks_used + 1) (mlfq_slice p.priority))) [
    | inl more ↦
        let step : tick p ≡ record p { ticks_used = p.ticks_used + 1 } =
          tick-charged p h ∙ rw more in
        let next : InSlice (record p { ticks_used = p.ticks_used + 1 }) = record {
          level = h.level;
          slice_left = ltb→lt _ _ more;
        } in
        ap (ticks n) step
        ∙ (ticks_slice n (record p { ticks_used = p.ticks_used + 1 }) next).1 (omega arith)
    | inr over ↦
        let last : n ≡ 0 = ground (arith, over, end) in
        ap (λ k. ticks k (tick p)) last ∙ tick-charged p h ∙ rw over
  ]),
)

boost_one-InSlice : (p : Proc) → InSlice p → InSlice (boost_one p)
unfolding boost_one
boost_one-InSlice p h = elim (Bool-cases (is_unused p.state)) [
  | inl free ↦ rw free h
  | inr live ↦ rw live (record { level = omega arith; slice_left = omega arith })
]

All-modify :
    (P : Proc → Type 0) (f : Proc → Proc)
    → ((p : Proc) → P p → P (f p))
    → (ps : List Proc) (i : ℕ) → All P ps
    → All P (modify ps i f)
All-modify P f keep [] i all = tt
All-modify P f keep (p ∷ ps) zero all = (keep p all.0, all.1)
All-modify P f keep (p ∷ ps) (suc i) all = (all.0, All-modify P f keep ps i all.1)

All-map :
    (P : Proc → Type 0) (f : Proc → Proc)
    → ((p : Proc) → P p → P (f p))
    → (ps : List Proc) → All P ps
    → All P (map f ps)
All-map P f keep [] all = tt
All-map P f keep (p ∷ ps) all = (keep p all.0, All-map P f keep ps all.1)

abbrev IfSome : (List Proc → Type 0) → Option (List Proc) → Type 0
IfSome P none = Unit
IfSome P (some ps) = P ps

abbrev prepend : Proc → Option (List Proc) → Option (List Proc)
prepend p none = none
prepend p (some ps) = some (p ∷ ps)

setpriority_from-cons :
    (pid priority : ℕ) (p : Proc) (ps : List Proc)
    → setpriority_from pid priority (p ∷ ps) ≡ (
        if p.pid == pid
        then some (record p { priority = priority; ticks_used = 0 } ∷ ps)
        else prepend p (setpriority_from pid priority ps))
unfolding setpriority_from
setpriority_from-cons pid priority p ps = ground arith

IfSome-prepend :
    (p : Proc) (r : Option (List Proc))
    → InSlice p
    → IfSome (All InSlice) r
    → IfSome (All InSlice) (prepend p r)
IfSome-prepend p none h all = tt
IfSome-prepend p (some ps) h all = (h, all)

setpriority_from-InSlice :
    (pid priority : ℕ) (ps : List Proc)
    → priority < nmlfq
    → All InSlice ps
    → IfSome (All InSlice) (setpriority_from pid priority ps)
unfolding setpriority_from
setpriority_from-InSlice pid priority [] lt all = tt
setpriority_from-InSlice pid priority (p ∷ ps) lt all =
    rw (setpriority_from-cons pid priority p ps) (elim (Bool-cases (p.pid == pid)) [
      | inl here ↦ rw here (record { level = lt; slice_left = slice_pos priority }, all.1)
      | inr other ↦
          rw other (IfSome-prepend p _ all.0 (setpriority_from-InSlice pid priority ps lt all.1))
    ])

answer-InSlice :
    (ps : List Proc) (r : Option (List Proc))
    → All InSlice ps
    → IfSome (All InSlice) r
    → All InSlice
        (let a : Bool × List Proc = elim r [ none ↦ (false, ps) | some ps' ↦ (true, ps') ] in a.1)
answer-InSlice ps none all h = all
answer-InSlice ps (some ps') all h = h

mlfq_tick-InSlice :
    (running : Option ℕ) (ps : List Proc) → All InSlice ps → All InSlice (mlfq_tick running ps)
unfolding mlfq_tick
mlfq_tick-InSlice none ps all = all
mlfq_tick-InSlice (some i) ps all = All-modify InSlice tick tick-InSlice ps i all

setpriority-InSlice :
    (pid priority : ℕ) (ps : List Proc)
    → All InSlice ps
    → All InSlice (setpriority pid priority ps).1
unfolding setpriority
setpriority-InSlice pid priority ps all =
    elim (Bool-cases (is_negative priority || not (lt_int priority nmlfq))) [
      | inl bad ↦ rw bad all
      | inr good ↦ rw good (
          answer-InSlice ps (setpriority_from pid priority ps) all
            (setpriority_from-InSlice pid priority ps (ground (arith, good)) all))
    ]

-- The queue stays well formed: after a timer tick, a boost and a change of priority, every process
-- stands at a level and within its slice there, if it did before.
pub queue-InSlice :
    (ps : List Proc)
    → All InSlice ps
    → ((running : Option ℕ) → All InSlice (mlfq_tick running ps))
      × All InSlice (mlfq_boost ps)
      × ((pid priority : ℕ) → All InSlice (setpriority pid priority ps).1)
unfolding mlfq_boost
queue-InSlice ps all = (
  (λ running. mlfq_tick-InSlice running ps all),
  All-map InSlice boost_one boost_one-InSlice ps all,
  (λ pid priority. setpriority-InSlice pid priority ps all),
)

-- Entries that the boost has reached stand at the highest level.
abbrev IsBoosted : Proc → Type 0
IsBoosted p = is_unused p.state ≡ false → p.priority ≡ 0

boost_one-IsBoosted : (p : Proc) → IsBoosted (boost_one p)
unfolding boost_one
boost_one-IsBoosted p = λ live. ground (arith, live)

map-IsBoosted : (ps : List Proc) → All IsBoosted (map boost_one ps)
map-IsBoosted [] = tt
map-IsBoosted (p ∷ ps) = (boost_one-IsBoosted p, map-IsBoosted ps)

none_before :
    (n : ℕ) (qs : List Proc)
    → n ≡ 0
    → All IsBoosted qs
    → All (Above n) qs
    → All (λ q. is_runnable q.state ≡ false) qs
none_before n [] e b a = tt
none_before n (q ∷ qs) e b a = (first, none_before n qs e b.1 a.1)
  where
    first : is_runnable q.state ≡ false
    first = elim (Bool-cases (is_runnable q.state)) [
      | inl run ↦ absurd (omega (arith, a.0 run, b.0 (ground (arith, run))))
      | inr stop ↦ stop
    ]

InSlice-IsQueued : (ps : List Proc) → All InSlice ps → IsQueued ps
InSlice-IsQueued [] h = tt
InSlice-IsQueued (p ∷ ps) h = (h.0.level, InSlice-IsQueued ps h.1)

-- A pass that runs the first runnable process of the table, or idles if there is none.
pub data RunsFirst (ps : List Proc) (r : Option ℕ × List Proc) : Type 0 where
  idle : r ≡ (none, ps) → All (λ q. is_runnable q.state ≡ false) ps → RunsFirst ps r
  runs :
      (before after : List Proc) (p : Proc)
      → ps ≡ before ++ (p ∷ after)
      → r ≡ (some (length before), before ++ (record p { state = State.running } ∷ after))
      → is_runnable p.state ≡ true
      → All (λ q. is_runnable q.state ≡ false) before
      → RunsFirst ps r

-- No process starves behind better priorities for longer than a boost: right after one, the scheduler
-- runs the first runnable process of the table, whatever its level was.
pub mlfq_boost-RunsFirst :
    (ps : List Proc) → All InSlice ps → RunsFirst (mlfq_boost ps) (scheduler (mlfq_boost ps))
unfolding mlfq_boost
mlfq_boost-RunsFirst ps all = go (
    scheduler-Scheduled (map boost_one ps)
      (InSlice-IsQueued (map boost_one ps) (All-map InSlice boost_one boost_one-InSlice ps all)))
  where
    go :
        Scheduled (map boost_one ps) (scheduler (map boost_one ps))
        → RunsFirst (map boost_one ps) (scheduler (map boost_one ps))
    go (Scheduled.idle e none_ready) = RunsFirst.idle e none_ready
    go (Scheduled.runs before after p split e ready above rest) =
        let parts =
          All-split IsBoosted before p after (subst (All IsBoosted) split (map-IsBoosted ps)) in
        RunsFirst.runs before after p split e ready
          (none_before p.priority before (parts.1 (ground (arith, ready))) parts.0 above)
