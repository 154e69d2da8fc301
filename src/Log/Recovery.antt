-- ===== src/Log/Recovery.antt =====
-- The end of a commit, which recovery runs again: install the logged blocks, then clear the header.
-- At whatever write the power fails, the disk stands for the same contents.
use xv6_extended.Base.{
  ℕ, ◌+◌, ◌≤◌, ◌<◌, ◌≡◌, ◌≢◌, refl, sym, ◌∙◌, ap, Bool, true, arith, dec_lt, subst, min, fun_ext,
}
use xv6_extended.Log.{
  Block, Log, System, rounds, bwrite, install_trans, read_head, write_head, clear, recover_from_log,
}
use xv6_extended.Log.Redo.{
  IsHome, IsHeader, replay, replay-cong_homes, replay-log, redo, redo-replay, redo-empty,
}
use xv6_extended.Log.Install.{Installed, install_trans-Installed}

-- The header block on the disk names `logblocks` blocks at most, and none of the log's.
abbrev pub HeaderOk : ℕ → (ℕ → Block) → Type 0
HeaderOk start d = IsHeader start (d start 0) (λ i. d start (i + 1))

abbrev finish : Bool → System → System
finish recovering s = write_head (clear (install_trans recovering s))

-- A home block, the header block and the cache after the header has been cleared.
write_head-clear :
    (s : System)
    → let s' = write_head (clear s) in
      ((b : ℕ) → b ≢ s.log.start → s'.disk b ≡ s.disk b)
      × (0 < s.power → s'.disk s.log.start 0 ≡ 0)
      × (s.power ≡ 0 → s'.disk ≡ s.disk)
      × ((b : ℕ) → b ≢ s.log.start → s'.cache b ≡ s.cache b)
unfolding write_head bwrite
write_head-clear s =
    (λ b ne. ground arith, λ on. ground arith, λ off. ground arith, λ b ne. ground arith)

-- What the tail of a commit leaves of the state `s`, whose log holds `n` blocks.
pub record Finished (n : ℕ) (s t : System) : Type 0 where
  pub safe : (b : ℕ) → IsHome s.log.start b → redo s.log.start t.disk b ≡ redo s.log.start s.disk b
  pub header_ok : HeaderOk s.log.start t.disk
  pub complete :
      n < s.power
      → (t.disk s.log.start 0 ≡ 0)
        × ((b : ℕ) → IsHome s.log.start b → t.disk b ≡ redo s.log.start s.disk b)
  pub in_cache :
      (b : ℕ) → IsHome s.log.start b → t.cache b ≡ replay s.log.start s.log.block n s.cache b

module _ (recovering : Bool) (s : System) (n : ℕ) (count : rounds s.log.n ≡ n)
    (ok : IsHeader s.log.start n s.log.block)
    (logged : (i : ℕ) → i < n → s.cache (s.log.start + i + 1) ≡ s.disk (s.log.start + i + 1))
    (head : s.disk s.log.start 0 ≡ n)
    (homes : (i : ℕ) → i < n → s.disk s.log.start (i + 1) ≡ s.log.block i) where
  open s use {log, disk, power}

  mid : System
  mid = install_trans recovering s

  installed : Installed log disk s.cache power n mid
  unfolding mid
  installed = install_trans-Installed recovering s n count ok logged

  on_header : ℕ → ℕ
  on_header i = disk log.start (i + 1)

  IsHeader-homes : IsHeader log.start n on_header
  unfolding on_header
  IsHeader-homes = record { few = ok.few; homes = λ i lt. rw (homes i lt) (ok.homes i lt) }

  mid-disk : mid.disk ≡ replay log.start on_header (min n power) disk
  unfolding on_header
  mid-disk = fun_ext λ b.
      installed.on_disk b
      ∙ replay-cong_homes log.start log.block on_header (min n power) disk b
          (λ i lt. sym (homes i (omega arith)))

  mid-redo : (b : ℕ) → redo log.start mid.disk b ≡ redo log.start disk b
  unfolding on_header
  mid-redo b = rw mid-disk (
      redo-replay log.start n (min n power) on_header disk (sym head) refl IsHeader-homes
        (omega arith) b)

  disk-HeaderOk : HeaderOk log.start disk
  unfolding on_header
  disk-HeaderOk = rw head IsHeader-homes

  mid_start : mid.log.start ≡ log.start
  mid_start = ap (λ (l : Log). l.start) installed.same_log

  last : System
  last = finish recovering s

  last-disk : (b : ℕ) → IsHome log.start b → last.disk b ≡ mid.disk b
  unfolding last mid
  last-disk b home = (write_head-clear mid).0 b (λ e. ground (arith, e, mid_start))

  last-cache : (b : ℕ) → IsHome log.start b → last.cache b ≡ mid.cache b
  unfolding last mid
  last-cache b home = (write_head-clear mid).3 b (λ e. ground (arith, e, mid_start))

  last-header : n < power → last.disk log.start 0 ≡ 0
  unfolding last mid
  last-header on =
      subst (λ a. last.disk a 0 ≡ 0) mid_start
        ((write_head-clear mid).1 (omega (arith, installed.power_left)))

  last-off : power ≤ n → last.disk ≡ mid.disk
  unfolding last mid
  last-off off = (write_head-clear mid).2 (omega (arith, installed.power_left))

  last-done : n < power → (b : ℕ) → IsHome log.start b → last.disk b ≡ redo log.start disk b
  unfolding on_header
  last-done on b home =
      let whole : min n power ≡ n = omega arith in
      last-disk b home ∙ ap (λ (f : ℕ → Block). f b) mid-disk ∙ rw (whole, head)

  -- Whenever the power fails, the end of a commit keeps what the disk stands for; with power for all
  -- its writes it leaves the header empty and the blocks at home.
  pub finish-Finished : Finished n s (finish recovering s)
  unfolding last
  finish-Finished = elim (dec_lt n power) [
    | yes on ↦
        let empty = last-header on in
        record {
          safe = λ b home. redo-empty log.start last.disk b empty ∙ last-done on b home;
          header_ok = rw empty (record { few = omega arith; homes = λ i lt. absurd (omega arith) });
          complete = λ _. (empty, last-done on);
          in_cache = λ b home. last-cache b home ∙ installed.in_cache b;
        }
    | no off ↦
        let stays = last-off (omega arith) in
        record {
          safe = λ b home. rw stays (mid-redo b);
          header_ok =
              rw
                (
                  stays,
                  mid-disk,
                  replay-log log.start on_header n IsHeader-homes disk (min n power) log.start
                      (omega arith) (omega arith) (omega arith),
                )
                disk-HeaderOk;
          complete = λ on. absurd (off on);
          in_cache = λ b home. last-cache b home ∙ installed.in_cache b;
        }
  ]

-- The machine starts again with the disk `d`: the buffer cache is empty, and `power` block writes are
-- left until the power fails once more. What memory held of the log is left open.
abbrev pub reboot : ℕ → Log → (ℕ → Block) → System
reboot power l d = record { log = l; disk = d; cache = d; pins = λ _. 0; power = power }

-- What recovery makes of the disk `d` with that power.
pub record Recovered (power start : ℕ) (d : ℕ → Block) (t : System) : Type 0 where
  pub safe : (b : ℕ) → IsHome start b → redo start t.disk b ≡ redo start d b
  pub header_ok : HeaderOk start t.disk
  pub complete :
      d start 0 < power
      → (t.disk start 0 ≡ 0) × ((b : ℕ) → IsHome start b → t.disk b ≡ redo start d b)
  pub in_cache : (b : ℕ) → IsHome start b → t.cache b ≡ redo start d b

-- Recovery keeps what the disk stands for, wherever the power fails in it, and the header it leaves can
-- be recovered from again. With power for all its writes it ends with an empty header, and each block
-- that is no part of the log holds, on the disk and in the cache, what the disk stood for.
pub recover_from_log-Recovered :
    (power : ℕ) (l : Log) (d : ℕ → Block)
    → HeaderOk l.start d
    → Recovered power l.start d (recover_from_log (reboot power l d))
unfolding recover_from_log read_head
recover_from_log-Recovered power l d ok =
    let s = read_head (reboot power l d) in
    let n : ℕ = d l.start 0 in
    let small : rounds n ≡ n = ground (arith, ok.few) in
    let f : Finished n s (finish true s) =
      finish-Finished true s n small
        (record { few = ok.few; homes = λ i lt. ground (arith, ok.homes i lt, ok.few) })
        (λ i lt. refl) refl (λ i lt. ground (arith, ok.few)) in
    record {
      safe = f.safe;
      header_ok = f.header_ok;
      complete = f.complete;
      in_cache = λ b home.
          f.in_cache b home
          ∙ replay-cong_homes l.start s.log.block (λ i. d l.start (i + 1)) n d b
              (λ i lt. ground (arith, ok.few));
    }
