-- ===== src/Proc/Channel.antt =====
-- proc.c: `sleep`, `wakeup` and `kkill`.
pub mod Wakeup
pub mod Handshake
use xv6_extended.Base.{
  ℕ, zero, suc, ◌+◌, Bool, true, false, ◌&&◌, ◌||◌, Option, some, none, List, [], ◌∷◌, ◌==◌,
  if◌then◌else◌,
}
use xv6_extended.Proc.{Proc, State, is_sleeping}

-- `sleep` from the acquire of `p->lock` to the switch to the scheduler.
pub go_to_sleep : ℕ → Proc → Proc
go_to_sleep chan p = record p { chan = chan; state = State.sleeping }

-- What `sleep` does when the process runs again.
pub tidy_up : Proc → Proc
tidy_up p = record p { chan = 0 }

-- The body of the loop of `wakeup`.
pub wake_one : ℕ → Proc → Proc
wake_one chan p =
    if is_sleeping p.state && p.chan == chan
    then record p { state = State.runnable; priority = 0; ticks_used = 0 }
    else p

-- `p == myproc()` for the process in slot `i`.
abbrev pub is_slot : Option ℕ → ℕ → Bool
is_slot none i = false
is_slot (some j) i = i == j

-- The loop from slot `i` on, run by the process in slot `me`, or by none.
pub wakeup_from : Option ℕ → ℕ → ℕ → List Proc → List Proc
wakeup_from me chan i [] = []
wakeup_from me chan i (p ∷ ps) =
    (if is_slot me i then p else wake_one chan p) ∷ wakeup_from me chan (suc i) ps

pub wakeup : Option ℕ → ℕ → List Proc → List Proc
wakeup me chan ps = wakeup_from me chan 0 ps

unfoldable pub kill_one : Proc → Proc
kill_one p =
    let killed = record p { killed = true } in
    if is_sleeping p.state then record killed { state = State.runnable } else killed

-- `none` if no process has the pid: the call returns -1, else 0.
unfoldable pub kkill : ℕ → List Proc → Option (List Proc)
kkill pid [] = none
kkill pid (p ∷ ps) =
    let rest = kkill pid ps in
    if p.pid == pid
    then some (kill_one p ∷ ps)
    else elim rest [ none ↦ none | some ps' ↦ some (p ∷ ps') ]

pub setkilled : Proc → Proc
setkilled p = record p { killed = true }
