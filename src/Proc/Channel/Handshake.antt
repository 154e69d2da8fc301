-- ===== src/Proc/Channel/Handshake.antt =====
-- proc.c: `sleep` against `wakeup`, one access to shared memory at a time. One process waits for a
-- condition under a lock `lk`, as pipes, the console, the log and sleep locks do:
--   acquire(lk); while(!cond) sleep(chan, lk); … release(lk)
-- Another makes the condition true under the same lock and wakes the channel:
--   acquire(lk); cond = 1; wakeup(chan); release(lk)
use xv6_extended.Base.{
  ◌≡◌, ◌≢◌, refl, Bool, true, false, ◌&&◌, ◌||◌, arith, ◌⊎◌, inl, inr, Bool-cases,
}
use xv6_extended.Proc.{State, is_sleeping}

-- Where the process that waits stands.
pub data Sleeper : Type 0 where
  outside : Sleeper  -- before acquire(lk)
  testing : Sleeper  -- holds lk, at the loop test
  calling : Sleeper  -- holds lk, at acquire(&p->lock) of sleep
  both_held : Sleeper  -- holds lk and p->lock, at release(lk)
  marking : Sleeper  -- holds p->lock, before p->chan = chan; p->state = SLEEPING
  switching : Sleeper  -- holds p->lock, in sched
  off : Sleeper  -- switched away; the scheduler has released p->lock
  resumed : Sleeper  -- holds p->lock again, before p->chan = 0
  relocking : Sleeper  -- at acquire(lk), the last line of sleep
  proceeding : Sleeper  -- has seen the condition, holds lk
  finished : Sleeper

-- Where the process that wakes stands.
pub data Waker : Type 0 where
  away : Waker  -- before acquire(lk)
  setting : Waker  -- holds lk, before the condition is made true
  waking : Waker  -- holds lk, at acquire(&p->lock) of wakeup
  looking : Waker  -- holds lk and p->lock, at the test of p->state and p->chan
  leaving : Waker  -- holds lk, at release(lk)
  gone : Waker

pub record Shared : Type 0 where
  pub lk : Bool  -- lk is held
  pub p_lock : Bool  -- p->lock is held
  pub cond : Bool
  pub state : State  -- p->state
  pub on_chan : Bool  -- p->chan == chan
  pub sleeper : Sleeper
  pub waker : Waker

pub data Step (s t : Shared) : Type 0 where
  enter :
      s.sleeper ≡ outside → s.lk ≡ false → t ≡ record s { lk = true; sleeper = testing } → Step s t
  test_true : s.sleeper ≡ testing → s.cond ≡ true → t ≡ record s { sleeper = proceeding } → Step s t
  test_false : s.sleeper ≡ testing → s.cond ≡ false → t ≡ record s { sleeper = calling } → Step s t
  take_p :
      s.sleeper ≡ calling
      → s.p_lock ≡ false
      → t ≡ record s { p_lock = true; sleeper = both_held }
      → Step s t
  drop_lk : s.sleeper ≡ both_held → t ≡ record s { lk = false; sleeper = marking } → Step s t
  mark :
      s.sleeper ≡ marking
      → t ≡ record s { on_chan = true; state = State.sleeping; sleeper = switching }
      → Step s t
  switch : s.sleeper ≡ switching → t ≡ record s { p_lock = false; sleeper = off } → Step s t
  -- The scheduler of some CPU finds the process runnable, under p->lock.
  resume :
      s.sleeper ≡ off
      → s.p_lock ≡ false
      → s.state ≡ State.runnable
      → t ≡ record s { p_lock = true; state = State.running; sleeper = resumed }
      → Step s t
  tidy :
      s.sleeper ≡ resumed
      → t ≡ record s { p_lock = false; on_chan = false; sleeper = relocking }
      → Step s t
  relock :
      s.sleeper ≡ relocking
      → s.lk ≡ false
      → t ≡ record s { lk = true; sleeper = testing }
      → Step s t
  finish : s.sleeper ≡ proceeding → t ≡ record s { lk = false; sleeper = finished } → Step s t
  arrive : s.waker ≡ away → s.lk ≡ false → t ≡ record s { lk = true; waker = setting } → Step s t
  set_cond : s.waker ≡ setting → t ≡ record s { cond = true; waker = waking } → Step s t
  take_p' :
      s.waker ≡ waking
      → s.p_lock ≡ false
      → t ≡ record s { p_lock = true; waker = looking }
      → Step s t
  wake :
      s.waker ≡ looking
      → is_sleeping s.state && s.on_chan ≡ true
      → t ≡ record s { state = State.runnable; p_lock = false; waker = leaving }
      → Step s t
  pass :
      s.waker ≡ looking
      → is_sleeping s.state && s.on_chan ≡ false
      → t ≡ record s { p_lock = false; waker = leaving }
      → Step s t
  leave : s.waker ≡ leaving → t ≡ record s { lk = false; waker = gone } → Step s t

abbrev pub start : Shared
start = record {
  lk = false;
  p_lock = false;
  cond = false;
  state = State.running;
  on_chan = false;
  sleeper = outside;
  waker = away;
}

pub data Reach : Shared → Type 0 where
  here : Reach start
  next : {s t : Shared} → Reach s → Step s t → Reach t

abbrev sleeper_lk : Sleeper → Bool
sleeper_lk testing = true
sleeper_lk calling = true
sleeper_lk both_held = true
sleeper_lk proceeding = true
sleeper_lk _ = false

abbrev sleeper_p : Sleeper → Bool
sleeper_p both_held = true
sleeper_p marking = true
sleeper_p switching = true
sleeper_p resumed = true
sleeper_p _ = false

abbrev waker_lk : Waker → Bool
waker_lk away = false
waker_lk gone = false
waker_lk _ = true

abbrev waker_p : Waker → Bool
waker_p looking = true
waker_p _ = false

-- The waker has done its `wakeup`.
abbrev woke : Waker → Bool
woke leaving = true
woke gone = true
woke _ = false

abbrev has_set : Waker → Bool
has_set away = false
has_set setting = false
has_set _ = true

-- In the call of `sleep`, before the switch.
abbrev pub going : Sleeper → Bool
going calling = true
going both_held = true
going marking = true
going switching = true
going _ = false

abbrev asleep : Sleeper → Bool
asleep switching = true
asleep off = true
asleep _ = false

record Inv (s : Shared) : Type 0 where
  lk_held : s.lk ≡ (sleeper_lk s.sleeper || waker_lk s.waker)
  lk_once : (sleeper_lk s.sleeper && waker_lk s.waker) ≡ false
  p_held : s.p_lock ≡ (sleeper_p s.sleeper || waker_p s.waker)
  p_once : (sleeper_p s.sleeper && waker_p s.waker) ≡ false
  set : s.cond ≡ has_set s.waker
  only_off : is_sleeping s.state ≡ true → (asleep s.sleeper ≡ true) × (s.on_chan ≡ true)
  off_state : asleep s.sleeper ≡ true → (s.state ≡ State.sleeping) ⊎ (s.state ≡ State.runnable)
  seen : woke s.waker ≡ true → (going s.sleeper ≡ false) × (is_sleeping s.state ≡ false)

Inv-start : Inv start
Inv-start = ground arith

Step-Inv : {s t : Shared} → Step s t → Inv s → Inv t
Step-Inv (enter a b e) i = ground arith
Step-Inv (test_true a b e) i = ground arith
Step-Inv (test_false a b e) i = ground arith
Step-Inv (take_p a b e) i = ground arith
Step-Inv (drop_lk a e) i = ground arith
Step-Inv (mark a e) i = ground arith
Step-Inv (switch a e) i = ground arith
Step-Inv (resume a b c e) i = ground arith
Step-Inv (tidy a e) i = ground arith
Step-Inv (relock a b e) i = ground arith
Step-Inv (finish a e) i = ground arith
Step-Inv (arrive a b e) i = ground arith
Step-Inv (set_cond a e) i = ground arith
Step-Inv (take_p' a b e) i = ground arith
Step-Inv (wake a b e) i = ground arith
Step-Inv (pass a b e) i = ground arith
Step-Inv (leave a e) i = ground arith

Reach-Inv : {s : Shared} → Reach s → Inv s
Reach-Inv here = Inv-start
Reach-Inv (next r st) = Step-Inv st (Reach-Inv r)

-- No wakeup is lost: once the waker is done, in whatever order the two have run, the other process is
-- not asleep and is on no way to sleep; if it is switched away it is runnable.
pub no_lost_wakeup :
    {s : Shared}
    → Reach s
    → s.waker ≡ gone
    → (s.cond ≡ true)
      × (is_sleeping s.state ≡ false)
      × (going s.sleeper ≡ false)
      × (s.sleeper ≡ off → s.state ≡ State.runnable)
no_lost_wakeup {s} r e =
    let i = Reach-Inv r in
    let seen = i.seen (ground (arith, e)) in
    (
      ground (arith, i.set, e),
      seen.1,
      seen.0,
      (λ away. ground (arith, i.off_state (ground (arith, away)), seen)),
    )

abbrev Moves : Shared → Type 0
Moves s = (t : Shared) × Step s t

module _ (s : Shared) (i : Inv s) where
  gone-Moves : s.waker ≡ gone → (x : Sleeper) → s.sleeper ≡ x → x ≢ finished → Moves s
  gone-Moves e outside a ne = (_, enter a (ground (arith, i.lk_held)) refl)
  gone-Moves e testing a ne = (_, test_true a (ground (arith, i.set)) refl)
  gone-Moves e calling a ne = absurd (ground (arith, i.seen))
  gone-Moves e both_held a ne = absurd (ground (arith, i.seen))
  gone-Moves e marking a ne = absurd (ground (arith, i.seen))
  gone-Moves e switching a ne = absurd (ground (arith, i.seen))
  gone-Moves e off a ne =
      (_, resume a (ground (arith, i.p_held)) (ground (arith, i.off_state, i.seen)) refl)
  gone-Moves e resumed a ne = (_, tidy a refl)
  gone-Moves e relocking a ne = (_, relock a (ground (arith, i.lk_held)) refl)
  gone-Moves e proceeding a ne = (_, finish a refl)
  gone-Moves e finished a ne = absurd (ne refl)

  -- The waker is at acquire(&p->lock).
  waking-Moves : s.waker ≡ waking → (x : Sleeper) → s.sleeper ≡ x → Moves s
  waking-Moves e marking a = (_, mark a refl)
  waking-Moves e switching a = (_, switch a refl)
  waking-Moves e resumed a = (_, tidy a refl)
  waking-Moves e both_held a = absurd (ground (arith, i.lk_once))
  waking-Moves e x a = (_, take_p' e (ground (arith, i.p_held)) refl)

  -- The waker is at acquire(lk).
  away-Moves : s.waker ≡ away → (x : Sleeper) → s.sleeper ≡ x → Moves s
  away-Moves e testing a = elim (Bool-cases s.cond) [
    | inl on ↦ (_, test_true a on refl)
    | inr off' ↦ (_, test_false a off' refl)
  ]
  away-Moves e calling a = (_, take_p a (ground (arith, i.p_held)) refl)
  away-Moves e both_held a = (_, drop_lk a refl)
  away-Moves e proceeding a = (_, finish a refl)
  away-Moves e x a = (_, arrive e (ground (arith, i.lk_held)) refl)

  moves : (w : Waker) → s.waker ≡ w → (s.sleeper ≡ finished → w ≢ gone) → Moves s
  moves away e busy = away-Moves e s.sleeper refl
  moves setting e busy = (_, set_cond e refl)
  moves waking e busy = waking-Moves e s.sleeper refl
  moves looking e busy = elim (Bool-cases (is_sleeping s.state && s.on_chan)) [
    | inl on ↦ (_, wake e on refl)
    | inr off' ↦ (_, pass e off' refl)
  ]
  moves leaving e busy = (_, leave e refl)
  moves gone e busy = gone-Moves e s.sleeper refl (λ f. busy f refl)

-- The two never deadlock: unless both have ended, some step is possible.
pub Reach-Moves :
    {s : Shared} → Reach s → (s.sleeper ≡ finished → s.waker ≢ gone) → (t : Shared) × Step s t
Reach-Moves {s} r busy = moves s (Reach-Inv r) s.waker refl busy
