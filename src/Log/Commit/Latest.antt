-- ===== src/Log/Commit/Latest.antt =====
-- The contents that a committed transaction gives the disk, and what `commit` is to leave.
use xv6_extended.Base.{
  ℕ, zero, suc, ◌+◌, ◌-◌, ◌≤◌, ◌<◌, ◌≡◌, refl, ◌∙◌, ap, Bool, false, arith, ◌==◌, if◌then◌else◌,
  Bool-cases, inl, inr, fun_ext, ==_iff, ==_refl,
}
use xv6_extended.Base.Family.{update}
use xv6_extended.Log.{
  Block, System, rounds, bwrite, install_one, install_trans, header, write_head, clear,
}
use xv6_extended.Log.Redo.{IsHome, replay, redo}
use xv6_extended.Log.Install.{for_tail_inv, power-install_one, disk-install_one}
use xv6_extended.Log.Recovery.{HeaderOk}

-- The new contents: the cached ones for the blocks of the transaction, else those of the disk.
abbrev pub latest : (ℕ → ℕ) → ℕ → (ℕ → Block) → (ℕ → Block) → ℕ → Block
latest blk zero c d b = d b
latest blk (suc n) c d b = if blk n == b then c b else latest blk n c d b

pub replay-latest :
    (start : ℕ) (blk : ℕ → ℕ) (n : ℕ) (c d e : ℕ → Block) (b : ℕ)
    → ((i : ℕ) → i < n → e (start + i + 1) ≡ c (blk i))
    → e b ≡ d b
    → replay start blk n e b ≡ latest blk n c d b
replay-latest start blk zero c d e b logged h = h
replay-latest start blk (suc n) c d e b logged h = elim (Bool-cases (blk n == b)) [
  | inl here ↦ rw here (logged n (omega arith) ∙ ap c ((==_iff (blk n) b).0 here))
  | inr other ↦ rw other (replay-latest start blk n c d e b (λ i lt. logged i (omega arith)) h)
]

pub latest_self : (blk : ℕ → ℕ) (n : ℕ) (c : ℕ → Block) (b : ℕ) → latest blk n c c b ≡ c b
latest_self blk zero c b = refl
latest_self blk (suc n) c b = ground (arith, latest_self blk n c b)

-- Without power nothing more reaches the disk.
pub frozen_install :
    (recovering : Bool) (s : System)
    → s.power ≡ 0
    → ((install_trans recovering s).disk ≡ s.disk) × ((install_trans recovering s).power ≡ 0)
unfolding install_trans
frozen_install r s off =
    for_tail_inv (λ _ t. (t.disk ≡ s.disk) × (t.power ≡ 0)) (install_one r) (rounds s.log.n)
      (λ i t lt h. (
        fun_ext (λ b. disk-install_one r i t b ∙ rw h.1 (ap (λ (f : ℕ → Block). f b) h.0)),
        omega (arith, power-install_one r i t, h.1),
      ))
      (rounds s.log.n) 0 s (omega arith) (refl, off)

pub frozen_head :
    (s : System)
    → s.power ≡ 0
    → ((write_head s).disk ≡ s.disk)
      × ((write_head s).power ≡ 0)
      × ((write_head (clear s)).disk ≡ s.disk)
unfolding write_head bwrite
frozen_head s off = (rw off, rw off, rw off)

-- What `write_head` does while there is power.
pub head_written :
    (s : System)
    → 0 < s.power
    → ((write_head s).log ≡ s.log)
      × ((write_head s).power ≡ s.power - 1)
      × ((write_head s).disk ≡ update s.disk s.log.start (header s.log (s.cache s.log.start)))
      × ((write_head s).cache ≡ update s.cache s.log.start (header s.log (s.cache s.log.start)))
unfolding write_head bwrite
head_written s on =
    let powered : (s.power == 0) ≡ false = ground arith in
    (rw powered, rw powered, rw (powered, ==_refl s.log.start), rw powered)

-- What `commit` makes of the state `s` with `n` blocks in its transaction: which contents the disk
-- stands for, as the power fails before or after the write of the header.
pub record Committed (n : ℕ) (s t : System) : Type 0 where
  pub old : s.power ≤ n → (b : ℕ) → IsHome s.log.start b → redo s.log.start t.disk b ≡ s.disk b
  pub new :
      n < s.power
      → (b : ℕ) → IsHome s.log.start b
      → redo s.log.start t.disk b ≡ latest s.log.block n s.cache s.disk b
  pub header_ok : HeaderOk s.log.start t.disk
  pub complete :
      n + n + 1 < s.power
      → (t.disk s.log.start 0 ≡ 0)
        × ((b : ℕ) → IsHome s.log.start b → t.disk b ≡ latest s.log.block n s.cache s.disk b)
  pub in_cache : n < s.power → (b : ℕ) → IsHome s.log.start b → t.cache b ≡ s.cache b

pub empty-HeaderOk : (start : ℕ) (d : ℕ → Block) → d start 0 ≡ 0 → HeaderOk start d
empty-HeaderOk start d e = rw e (record { few = omega arith; homes = λ i lt. absurd (omega arith) })
