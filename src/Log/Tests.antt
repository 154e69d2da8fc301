-- ===== src/Log/Tests.antt =====
-- The log at concrete states.
use xv6_extended.Base.{ℕ, ◌≡◌, refl, inr, arith, false, [], ◌∷◌, done, ◌==◌, if◌then◌else◌}
use xv6_extended.Base.Family.{update}
use xv6_extended.Log.{
  Block, Log, System, for_tail, bwrite, install_one, install_trans, read_head, write_head,
  recover_from_log, log_one, write_log, commit, begin_op, absorb, log_write,
}
use xv6_extended.Log.Redo.{IsHeader}
use xv6_extended.Log.Recovery.{HeaderOk, reboot, Recovered, recover_from_log-Recovered}
use xv6_extended.Log.Commit.Atomic.{AllOrNone, commit-crash}
use xv6_extended.Log.Append.{Appended, log_write-Appended}
use xv6_extended.Log.Admission.{begin, HasRoom, Step-HasRoom, log_write-HasRoom}

-- The log starts at block 2; one operation is in progress and has written block 40.
abbrev busy_log : Log
busy_log = record { start = 2; outstanding = 1; committing = false; n = 1; block = λ _. 40 }

abbrev zeros : ℕ → Block
zeros _ _ = 0

-- Each buffer `b` is filled with `b`. Power fails after `power` block writes.
abbrev busy : ℕ → System
busy power = record { log = busy_log; disk = zeros; cache = λ b _. b; pins = λ _. 0; power = power }

busy-IsHeader : IsHeader 2 1 busy_log.block
busy-IsHeader = record { few = omega arith; homes = λ i lt. inr (omega arith) }

-- With all its power, the commit brings block 40 home and clears the header.
commit_runs :
    ((commit (busy 9)).disk 40 5 ≡ 40)
    × ((commit (busy 9)).disk 2 0 ≡ 0)
    × ((commit (busy 9)).power ≡ 5)
unfolding commit write_log write_head install_trans install_one log_one for_tail bwrite
commit_runs = (refl, refl, refl)

-- With power for two writes, the header is on the disk and block 40 is not.
commit_cut : ((commit (busy 2)).disk 40 5 ≡ 0) × ((commit (busy 2)).disk 2 0 ≡ 1)
unfolding commit write_log write_head install_trans install_one log_one for_tail bwrite
commit_cut = (refl, refl)

-- Recovery then brings it home.
recovery_runs : (recover_from_log (reboot 9 busy_log (commit (busy 2)).disk)).disk 40 5 ≡ 40
unfolding recover_from_log read_head commit write_log write_head install_trans install_one log_one
    for_tail bwrite
recovery_runs = refl

commit-crash_example :
    AllOrNone 1 (busy 2) (recover_from_log (reboot 31 busy_log (commit (busy 2)).disk))
commit-crash_example =
    commit-crash (busy 2) 1 31 busy_log refl busy-IsHeader refl refl (omega arith)

-- A disk whose header names block 40.
abbrev committed_disk : ℕ → Block
committed_disk b w =
    if b == 2 then (if w == 0 then 1 else (if w == 1 then 40 else 0)) else (if b == 3 then 7 else 0)

committed-HeaderOk : HeaderOk 2 committed_disk
committed-HeaderOk = record { few = omega arith; homes = λ i lt. ground arith }

recover_from_log-Recovered_example :
    Recovered 1 2 committed_disk (recover_from_log (reboot 1 busy_log committed_disk))
recover_from_log-Recovered_example =
    recover_from_log-Recovered 1 busy_log committed_disk committed-HeaderOk

log_write-Appended_example :
    (t : System) × (log_write 41 (busy 0) ≡ done t) × Appended 41 (busy 0) t
log_write-Appended_example =
    log_write-Appended 41 (busy 0) (omega arith) (omega arith) (omega arith)

-- Absorption: a second write of block 40 takes no slot.
absorbs :
    log_write 40 (busy 0)
    ≡ done (record (busy 0) { log = record busy_log { block = update (λ _. 40) 0 40 } })
unfolding log_write absorb
absorbs = refl

one-HasRoom : HasRoom (busy 0) (1 ∷ [])
one-HasRoom = record { counted = refl; few = omega arith; room = omega arith; quiet = λ c. cc }

abbrev two_ops : Log
two_ops = record busy_log { outstanding = 2 }

Step-HasRoom_example : HasRoom (record (busy 0) { log = two_ops }) (0 ∷ 1 ∷ [])
unfolding begin_op
Step-HasRoom_example =
    Step-HasRoom {s = busy 0} {ws = 1 ∷ []} (begin two_ops refl refl refl) one-HasRoom

log_write-HasRoom_example :
    (t : System) × (log_write 41 (busy 0) ≡ done t) × Appended 41 (busy 0) t × HasRoom t (2 ∷ [])
log_write-HasRoom_example =
    log_write-HasRoom (busy 0) (1 ∷ []) [] [] 1 refl one-HasRoom 41 (omega arith)
