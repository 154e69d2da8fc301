-- ===== src/Log/Commit/Atomic.antt =====
-- A commit is atomic: if the power fails before the header has been written the disk stands for the
-- old contents, and from then on for the new ones.
use xv6_extended.Base.{
  ℕ, zero, suc, ◌<◌, ◌≡◌, ◌⊎◌, refl, sym, ◌∙◌, true, arith, ltb, inl, inr, dec_lt, subst,
}
use xv6_extended.Log.{Log, System, logblocks, rounds, commit, recover_from_log}
use xv6_extended.Log.Redo.{IsHome, IsHeader, redo-empty}
use xv6_extended.Log.Recovery.{HeaderOk, reboot, Recovered, recover_from_log-Recovered}
use xv6_extended.Log.Commit.Latest.{latest, Committed, empty-HeaderOk}
use xv6_extended.Log.Commit.Cuts.{written, all, headed, all-Committed}

pub commit-Committed :
    (s : System) (n : ℕ)
    → rounds s.log.n ≡ n
    → IsHeader s.log.start n s.log.block
    → s.disk s.log.start 0 ≡ 0
    → Committed n s (commit s)
unfolding commit all headed written
commit-Committed s zero count ok empty = rw count (record {
  old = λ off b home. redo-empty s.log.start s.disk b empty;
  new = λ on b home. redo-empty s.log.start s.disk b empty;
  header_ok = empty-HeaderOk s.log.start s.disk empty;
  complete = λ enough. (empty, λ b home. refl);
  in_cache = λ on b home. refl;
})
commit-Committed s (suc n) count ok empty =
    let busy : ltb 0 (rounds s.log.n) ≡ true = ground (arith, count) in
    rw busy (all-Committed s (suc n) count ok empty (omega arith))

-- The state `t` holds, on the disk and in the cache, all of the transaction of `s` or none of it.
abbrev pub AllOrNone : ℕ → System → System → Type 0
AllOrNone n s t =
    ((b : ℕ) → IsHome s.log.start b → (t.disk b ≡ s.disk b) × (t.cache b ≡ s.disk b))
    ⊎ ((b : ℕ)
        → IsHome s.log.start b
        → (t.disk b ≡ latest s.log.block n s.cache s.disk b)
          × (t.cache b ≡ latest s.log.block n s.cache s.disk b))

-- A crash at any write of a commit of at most LOGBLOCKS blocks, none of them the log's own, over an
-- empty header, and a restart with power for recovery, leave all of the transaction or none of it.
pub commit-crash :
    (s : System) (n power : ℕ) (l : Log)
    → rounds s.log.n ≡ n
    → IsHeader s.log.start n s.log.block
    → s.disk s.log.start 0 ≡ 0
    → l.start ≡ s.log.start
    → logblocks < power
    → AllOrNone n s (recover_from_log (reboot power l (commit s).disk))
commit-crash s n power l count ok empty same enough =
    let c = commit-Committed s n count ok empty in
    let r : Recovered power s.log.start (commit s).disk
        (recover_from_log (reboot power l (commit s).disk)) =
      subst
        (λ a. Recovered power a (commit s).disk (recover_from_log (reboot power l (commit s).disk)))
        same
        (recover_from_log-Recovered power l (commit s).disk
          (subst (λ a. HeaderOk a (commit s).disk) (sym same) c.header_ok)) in
    let whole = r.complete (omega (arith, c.header_ok.few)) in
    elim (dec_lt n s.power) [
      | yes on ↦
          inr (λ b home. (whole.1 b home ∙ c.new on b home, r.in_cache b home ∙ c.new on b home))
      | no off ↦ inl (λ b home. (
        whole.1 b home ∙ c.old (omega arith) b home,
        r.in_cache b home ∙ c.old (omega arith) b home,
      ))
    ]
