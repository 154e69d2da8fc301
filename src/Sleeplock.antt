-- ===== src/Sleeplock.antt =====
-- xv6-riscv/kernel/sleeplock.c: a lock that a process may hold while it sleeps. Each function runs under the spin
-- lock of the sleep lock; the name is left out. How sleep and wakeup work together is in Proc.Channel.
use xv6_extended.Base.{ℕ, Bool, true, false, ◌&&◌, Option, some, none, ◌==◌, if◌then◌else◌}

pub record Sleeplock : Type 0 where
  pub locked : Bool
  pub pid : ℕ

abbrev pub initsleeplock : Sleeplock
initsleeplock = record { locked = false; pid = 0 }

-- The process `pid` takes the lock; none if it goes to sleep, to test again when it has been woken.
abbrev pub acquiresleep : ℕ → Sleeplock → Option Sleeplock
acquiresleep pid lk = if lk.locked then none else some (record { locked = true; pid = pid })

-- The state behind it, before the wakeup of those that sleep on the lock.
abbrev pub releasesleep : Sleeplock → Sleeplock
releasesleep lk = record { locked = false; pid = 0 }

abbrev pub holdingsleep : ℕ → Sleeplock → Bool
holdingsleep pid lk = lk.locked && lk.pid == pid
