-- ===== src/Log/Install.antt =====
-- `install_trans`: each round copies one logged block home. The disk holds, after any number of
-- rounds and whenever the power fails, a replay of the blocks written so far.
use xv6_extended.Base.{
  ℕ, zero, suc, ◌+◌, ◌-◌, ◌<◌, ◌≡◌, refl, ◌∙◌, ap, Bool, arith, ◌==◌, if◌then◌else◌, dec_lt, subst,
  min,
}
use xv6_extended.Log.{Block, Log, System, rounds, for_tail, bwrite, install_one, install_trans}
use xv6_extended.Log.Redo.{IsHeader, replay, replay-log}

-- The invariant rule of `for_tail`.
pub for_tail_inv {κ} :
    (P : ℕ → System → Type κ) (body : ℕ → System → System) (end : ℕ)
    → ((i : ℕ) (s : System) → i < end → P i s → P (suc i) (body i s))
    → (r i : ℕ) (s : System) → i + r ≡ end
    → P i s
    → P end (for_tail r i body s)
unfolding for_tail
for_tail_inv P body end keep zero i s e h =
    let e' : i ≡ end = omega arith in subst (λ j. P j s) e' h
for_tail_inv P body end keep (suc r) i s e h =
    for_tail_inv P body end keep r (i + 1) (body i s) (omega arith) (
      let e' : suc i ≡ i + 1 = omega arith in
      subst (λ j. P j (body i s)) e' (keep i s (omega arith) h))

-- What one round of the loop does to each part of the state.
module _ (recovering : Bool) (tail : ℕ) (s : System) where
  pub log-install_one : (install_one recovering tail s).log ≡ s.log
  unfolding install_one bwrite
  log-install_one = ground arith

  pub cache-install_one :
      (b : ℕ)
      → (install_one recovering tail s).cache b
        ≡ (if s.log.block tail == b then s.cache (s.log.start + tail + 1) else s.cache b)
  unfolding install_one bwrite
  cache-install_one b = ground arith

  pub disk-install_one :
      (b : ℕ)
      → (install_one recovering tail s).disk b ≡ (
          if s.power == 0
          then s.disk b
          else if s.log.block tail == b
          then s.cache (s.log.start + tail + 1)
          else s.disk b)
  unfolding install_one bwrite
  disk-install_one b = ground arith

  pub power-install_one : (install_one recovering tail s).power ≡ s.power - 1
  unfolding install_one bwrite
  power-install_one = ground arith

-- After `k` rounds, begun with the log `l`, disk `d`, cache `c` and power `p`: every round has changed
-- its buffer, and those for which there was power have changed the disk.
pub record Installed (l : Log) (d c : ℕ → Block) (p k : ℕ) (s : System) : Type 0 where
  pub same_log : s.log ≡ l
  pub in_cache : (b : ℕ) → s.cache b ≡ replay l.start l.block k c b
  pub on_disk : (b : ℕ) → s.disk b ≡ replay l.start l.block (min k p) d b
  pub power_left : s.power ≡ p - k

module _ (l : Log) (d c : ℕ → Block) (p n : ℕ) (ok : IsHeader l.start n l.block)
    (logged : (i : ℕ) → i < n → c (l.start + i + 1) ≡ d (l.start + i + 1)) where
  module _ (recovering : Bool) (k : ℕ) (s : System) (lt : k < n) (h : Installed l d c p k s) where
    log_block : s.cache (l.start + k + 1) ≡ c (l.start + k + 1)
    log_block =
        h.in_cache (l.start + k + 1)
        ∙ replay-log l.start l.block n ok c k (l.start + k + 1) (omega arith) (omega arith)
            (omega (arith, ok.few))

    cache_next : (b : ℕ) → (install_one recovering k s).cache b ≡ replay l.start l.block (suc k) c b
    cache_next b =
        cache-install_one recovering k s b
        ∙ ap (λ (m : Log). if m.block k == b then s.cache (m.start + k + 1) else s.cache b)
            h.same_log
        ∙ rw (log_block, h.in_cache b)

    disk_next :
        (b : ℕ)
        → (install_one recovering k s).disk b ≡ (
            if s.power == 0
            then s.disk b
            else if l.block k == b
            then d (l.start + k + 1)
            else s.disk b)
    disk_next b =
        disk-install_one recovering k s b
        ∙ ap
            (λ (m : Log).
              if s.power == 0
              then s.disk b
              else if m.block k == b
              then s.cache (m.start + k + 1)
              else s.disk b)
            h.same_log
        ∙ rw (log_block, logged k lt)

    install_one-Installed : Installed l d c p (suc k) (install_one recovering k s)
    install_one-Installed = record {
      same_log = log-install_one recovering k s ∙ h.same_log;
      in_cache = cache_next;
      on_disk = λ b. disk_next b ∙ on_disk_next b;
      power_left = omega (arith, power-install_one recovering k s, h.power_left);
    }
      where
        on_disk_next :
            (b : ℕ)
            → (if s.power == 0
                then s.disk b
                else if l.block k == b
                then d (l.start + k + 1)
                else s.disk b)
              ≡ replay l.start l.block (min (suc k) p) d b
        on_disk_next b = elim (dec_lt k p) [
          | yes on ↦
              let e1 : min (suc k) p ≡ suc k = omega arith in
              let e2 : min k p ≡ k = omega arith in
              rw (e1, h.on_disk b, e2) (ground (arith, h.power_left))
          | no off ↦
              let e1 : min (suc k) p ≡ p = omega arith in
              let e2 : min k p ≡ p = omega arith in
              rw (e1, h.on_disk b, e2) (ground (arith, h.power_left))
        ]

-- `install_trans` from a state whose cached log blocks are those of the disk.
pub install_trans-Installed :
    (recovering : Bool) (s : System) (n : ℕ)
    → rounds s.log.n ≡ n
    → IsHeader s.log.start n s.log.block
    → ((i : ℕ) → i < n → s.cache (s.log.start + i + 1) ≡ s.disk (s.log.start + i + 1))
    → Installed s.log s.disk s.cache s.power n (install_trans recovering s)
unfolding install_trans
install_trans-Installed recovering s n e ok logged =
    for_tail_inv (Installed s.log s.disk s.cache s.power) (install_one recovering) n
      (λ i t lt h.
        install_one-Installed s.log s.disk s.cache s.power n ok logged recovering i t lt h)
      (rounds s.log.n) 0 s (omega (arith, e))
      (record {
        same_log = refl;
        in_cache = λ b. refl;
        on_disk = λ b. let none_yet : min 0 s.power ≡ 0 = omega arith in rw none_yet;
        power_left = omega arith;
      })
