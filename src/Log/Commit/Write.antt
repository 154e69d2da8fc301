-- ===== src/Log/Commit/Write.antt =====
-- `write_log`: each round copies one modified buffer to its place in the log.
use xv6_extended.Base.{
  ℕ, suc, ◌+◌, ◌-◌, ◌≤◌, ◌<◌, ◌≡◌, ◌⊎◌, refl, ◌∙◌, ap, arith, ◌==◌, if◌then◌else◌,
}
use xv6_extended.Log.{Block, Log, System, rounds, bwrite, log_one, write_log}
use xv6_extended.Log.Redo.{IsHeader}
use xv6_extended.Log.Install.{for_tail_inv}

module _ (tail : ℕ) (s : System) where
  pub log-log_one : (log_one tail s).log ≡ s.log
  unfolding log_one bwrite
  log-log_one = ground arith

  cache-log_one :
      (b : ℕ)
      → (log_one tail s).cache b
        ≡ (if s.log.start + tail + 1 == b then s.cache (s.log.block tail) else s.cache b)
  unfolding log_one bwrite
  cache-log_one b = ground arith

  disk-log_one :
      (b : ℕ)
      → (log_one tail s).disk b ≡ (
          if s.power == 0
          then s.disk b
          else if s.log.start + tail + 1 == b
          then s.cache (s.log.block tail)
          else s.disk b)
  unfolding log_one bwrite
  disk-log_one b = ground arith

  power-log_one : (log_one tail s).power ≡ s.power - 1
  unfolding log_one bwrite
  power-log_one = ground arith

-- A block that is not one of the first `k` of the log.
abbrev pub Outside : ℕ → ℕ → ℕ → Type 0
Outside start k b = (b < start + 1) ⊎ (start + k < b)

-- After `k` rounds, begun with the log `l`, disk `d`, cache `c` and power `p`.
pub record Logged (l : Log) (d c : ℕ → Block) (p k : ℕ) (s : System) : Type 0 where
  pub same_log : s.log ≡ l
  pub logged_cache : (i : ℕ) → i < k → s.cache (l.start + i + 1) ≡ c (l.block i)
  pub other_cache : (b : ℕ) → Outside l.start k b → s.cache b ≡ c b
  pub logged_disk : k ≤ p → (i : ℕ) → i < k → s.disk (l.start + i + 1) ≡ c (l.block i)
  pub other_disk : (b : ℕ) → Outside l.start k b → s.disk b ≡ d b
  pub power_left : s.power ≡ p - k

module _ (l : Log) (d c : ℕ → Block) (p n : ℕ) (ok : IsHeader l.start n l.block) (k : ℕ)
    (s : System) (lt : k < n) (h : Logged l d c p k s) where
  source : s.cache (l.block k) ≡ c (l.block k)
  source = h.other_cache (l.block k) (ground (arith, ok.homes k lt, ok.few))

  cache_next :
      (b : ℕ) → (log_one k s).cache b ≡ (if l.start + k + 1 == b then c (l.block k) else s.cache b)
  cache_next b =
      cache-log_one k s b
      ∙ ap (λ (m : Log). if m.start + k + 1 == b then s.cache (m.block k) else s.cache b) h.same_log
      ∙ rw source

  disk_next :
      (b : ℕ)
      → (log_one k s).disk b ≡ (
          if s.power == 0
          then s.disk b
          else if l.start + k + 1 == b
          then c (l.block k)
          else s.disk b)
  disk_next b =
      disk-log_one k s b
      ∙ ap
          (λ (m : Log).
            if s.power == 0
            then s.disk b
            else if m.start + k + 1 == b
            then s.cache (m.block k)
            else s.disk b)
          h.same_log
      ∙ rw source

  log_one-Logged : Logged l d c p (suc k) (log_one k s)
  log_one-Logged = record {
    same_log = log-log_one k s ∙ h.same_log;
    logged_cache = λ i le. cache_next (l.start + i + 1) ∙ ground (arith, h.logged_cache i);
    other_cache = λ b out. cache_next b ∙ ground (arith, h.other_cache b);
    logged_disk = λ on i le.
        disk_next (l.start + i + 1) ∙ ground (arith, h.logged_disk (omega arith) i, h.power_left);
    other_disk = λ b out. disk_next b ∙ ground (arith, h.other_disk b);
    power_left = omega (arith, power-log_one k s, h.power_left);
  }

pub write_log-Logged :
    (s : System) (n : ℕ)
    → rounds s.log.n ≡ n
    → IsHeader s.log.start n s.log.block
    → Logged s.log s.disk s.cache s.power n (write_log s)
unfolding write_log
write_log-Logged s n e ok =
    for_tail_inv (Logged s.log s.disk s.cache s.power) log_one n
      (λ i t lt h. log_one-Logged s.log s.disk s.cache s.power n ok i t lt h) (rounds s.log.n) 0 s
      (omega (arith, e))
      (record {
        same_log = refl;
        logged_cache = λ i lt. absurd (omega arith);
        other_cache = λ b out. refl;
        logged_disk = λ on i lt. absurd (omega arith);
        other_disk = λ b out. refl;
        power_left = omega arith;
      })
