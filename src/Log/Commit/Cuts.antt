-- ===== src/Log/Commit/Cuts.antt =====
-- What `commit` leaves when the power fails before, at or after the write of the header.
use xv6_extended.Base.{ℕ, ◌+◌, ◌-◌, ◌≤◌, ◌<◌, ◌≡◌, sym, ◌∙◌, ap, false, arith, dec_lt, subst}
use xv6_extended.Base.Family.{update, update_self, update_ne}
use xv6_extended.Log.{
  Block, Log, System, rounds, install_trans, write_log, header, write_head, clear,
}
use xv6_extended.Log.Redo.{IsHome, IsHeader, replay, replay-cong_homes, redo, redo-empty}
use xv6_extended.Log.Recovery.{HeaderOk, Finished, finish-Finished}
use xv6_extended.Log.Commit.Write.{Logged, write_log-Logged}
use xv6_extended.Log.Commit.Latest.{
  latest, replay-latest, latest_self, frozen_install, frozen_head, head_written, Committed,
  empty-HeaderOk,
}

module _ (s : System) (n : ℕ) (count : rounds s.log.n ≡ n) (ok : IsHeader s.log.start n s.log.block)
    (empty : s.disk s.log.start 0 ≡ 0) (some_blocks : 0 < n) where
  open s use {log, disk, cache, power}

  unfoldable pub written : System
  written = write_log s

  phase : Logged log disk cache power n written
  unfolding written
  phase = write_log-Logged s n count ok

  unfoldable pub all : System
  all = write_head (clear (install_trans false (write_head written)))

  -- The header has not been written.
  all-disk_before : power ≤ n → all.disk ≡ written.disk
  unfolding all
  all-disk_before off =
      let no_power : written.power ≡ 0 = omega (arith, phase.power_left) in
      let h = frozen_head written no_power in
      let i = frozen_install false (write_head written) h.1 in
      (frozen_head (install_trans false (write_head written)) i.1).2 ∙ i.0 ∙ h.0

  all-header_before : power ≤ n → all.disk log.start 0 ≡ 0
  all-header_before off =
      ap (λ (f : ℕ → Block). f log.start 0) (all-disk_before off)
      ∙ ap (λ (f : Block). f 0) (phase.other_disk log.start (omega arith))
      ∙ empty

  before : power ≤ n → (b : ℕ) → IsHome log.start b → redo log.start all.disk b ≡ disk b
  before off b home =
      redo-empty log.start all.disk b (all-header_before off)
      ∙ ap (λ (f : ℕ → Block). f b) (all-disk_before off)
      ∙ phase.other_disk b (ground (arith, ok.few))

  unfoldable pub headed : System
  headed = write_head written

  module _ (on : n < power) where
    head_facts :
        (headed.log ≡ log)
        × (headed.power ≡ power - n - 1)
        × (headed.disk ≡ update written.disk log.start (header log (written.cache log.start)))
        × (headed.cache ≡ update written.cache log.start (header log (written.cache log.start)))
    unfolding headed
    head_facts =
        let h = head_written written (omega (arith, phase.power_left)) in
        (
          h.0 ∙ phase.same_log,
          omega (arith, h.1, phase.power_left),
          h.2
              ∙ ap (λ (m : Log). update written.disk m.start (header m (written.cache m.start)))
                  phase.same_log,
          h.3
              ∙ ap (λ (m : Log). update written.cache m.start (header m (written.cache m.start)))
                  phase.same_log,
        )

    headed-disk_log : (i : ℕ) → i < n → headed.disk (log.start + i + 1) ≡ cache (log.block i)
    headed-disk_log i lt =
        ap (λ (f : ℕ → Block). f (log.start + i + 1)) head_facts.2
        ∙ update_ne written.disk log.start (log.start + i + 1) _ (omega arith)
        ∙ phase.logged_disk (omega arith) i lt

    headed-cache_log : (i : ℕ) → i < n → headed.cache (log.start + i + 1) ≡ cache (log.block i)
    headed-cache_log i lt =
        ap (λ (f : ℕ → Block). f (log.start + i + 1)) head_facts.3
        ∙ update_ne written.cache log.start (log.start + i + 1) _ (omega arith)
        ∙ phase.logged_cache i lt

    headed-disk_head : headed.disk log.start ≡ header log (written.cache log.start)
    headed-disk_head =
        ap (λ (f : ℕ → Block). f log.start) head_facts.2 ∙ update_self written.disk log.start _

    headed-disk_home : (b : ℕ) → IsHome log.start b → headed.disk b ≡ disk b
    headed-disk_home b home =
        ap (λ (f : ℕ → Block). f b) head_facts.2
        ∙ update_ne written.disk log.start b _ (λ e. ground (arith, e))
        ∙ phase.other_disk b (ground (arith, ok.few))

    headed-cache_home : (b : ℕ) → IsHome log.start b → headed.cache b ≡ cache b
    headed-cache_home b home =
        ap (λ (f : ℕ → Block). f b) head_facts.3
        ∙ update_ne written.cache log.start b _ (λ e. ground (arith, e))
        ∙ phase.other_cache b (ground (arith, ok.few))

    headed-head : headed.disk log.start 0 ≡ n
    headed-head = ap (λ (f : Block). f 0) headed-disk_head ∙ ground arith

    headed-homes : (i : ℕ) → i < n → headed.disk log.start (i + 1) ≡ log.block i
    headed-homes i lt = ap (λ (f : Block). f (i + 1)) headed-disk_head ∙ ground arith

    finished : Finished n headed all
    unfolding all headed
    finished =
        let back = sym head_facts.0 in
        finish-Finished false headed n (subst (λ (m : Log). rounds m.n ≡ n) back count)
          (subst (λ (m : Log). IsHeader m.start n m.block) back ok)
          (subst
            (λ (m : Log).
              (i : ℕ) → i < n → headed.cache (m.start + i + 1) ≡ headed.disk (m.start + i + 1))
            back (λ i lt. headed-cache_log i lt ∙ sym (headed-disk_log i lt)))
          (subst (λ (m : Log). headed.disk m.start 0 ≡ n) back headed-head)
          (subst (λ (m : Log). (i : ℕ) → i < n → headed.disk m.start (i + 1) ≡ m.block i) back
            headed-homes)

    -- What the disk stands for once the header names the transaction.
    headed-redo :
        (b : ℕ)
        → IsHome log.start b
        → redo log.start headed.disk b ≡ latest log.block n cache disk b
    headed-redo b home = rw headed-head (
        replay-cong_homes log.start (λ i. headed.disk log.start (i + 1)) log.block n headed.disk b
          headed-homes
        ∙ replay-latest log.start log.block n cache disk headed.disk b headed-disk_log
            (headed-disk_home b home))

    after :
        (b : ℕ) → IsHome log.start b → redo log.start all.disk b ≡ latest log.block n cache disk b
    after b home =
        subst (λ (m : Log). IsHome m.start b → redo m.start all.disk b ≡ redo m.start headed.disk b)
          head_facts.0 (finished.safe b) home
        ∙ headed-redo b home

    after-HeaderOk : HeaderOk log.start all.disk
    after-HeaderOk = subst (λ (m : Log). HeaderOk m.start all.disk) head_facts.0 finished.header_ok

    after_complete :
        n + n + 1 < power
        → (all.disk log.start 0 ≡ 0)
          × ((b : ℕ) → IsHome log.start b → all.disk b ≡ latest log.block n cache disk b)
    after_complete enough =
        let done_all =
          subst
            (λ (m : Log).
              (all.disk m.start 0 ≡ 0)
              × ((b : ℕ) → IsHome m.start b → all.disk b ≡ redo m.start headed.disk b))
            head_facts.0 (finished.complete (omega (arith, head_facts.1))) in
        (done_all.0, λ b home. done_all.1 b home ∙ headed-redo b home)

    after-cache : (b : ℕ) → IsHome log.start b → all.cache b ≡ cache b
    after-cache b home =
        subst
          (λ (m : Log). IsHome m.start b → all.cache b ≡ replay m.start m.block n headed.cache b)
          head_facts.0 (finished.in_cache b) home
        ∙ replay-latest log.start log.block n cache cache headed.cache b headed-cache_log
            (headed-cache_home b home)
        ∙ latest_self log.block n cache b

  pub all-Committed : Committed n s all
  all-Committed = record {
    old = before;
    new = λ on b home. after on b home;
    header_ok = elim (dec_lt n power) [
      | yes on ↦ after-HeaderOk on
      | no off ↦ empty-HeaderOk log.start all.disk (all-header_before (omega arith))
    ];
    complete = λ enough. after_complete (omega arith) enough;
    in_cache = λ on b home. after-cache on b home;
  }
