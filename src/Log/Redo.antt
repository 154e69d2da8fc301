-- ===== src/Log/Redo.antt =====
-- What a disk stands for: its blocks, with the transaction that the log header names applied.
use xv6_extended.Base.{
  ℕ, zero, suc, ◌+◌, ◌≤◌, ◌<◌, ◌≡◌, ◌≢◌, ◌⊎◌, refl, sym, ◌∙◌, arith, ◌==◌, if◌then◌else◌, subst₂,
  Bool-cases, inl, inr, dec_lt,
}
use xv6_extended.Log.{Block, logblocks}

-- A block that is no part of the log.
abbrev pub IsHome : ℕ → ℕ → Type 0
IsHome start b = (b < start) ⊎ (start + logblocks < b)

-- The first `n` logged blocks copied home, in order; `blk` names their homes.
abbrev pub replay : ℕ → (ℕ → ℕ) → ℕ → (ℕ → Block) → ℕ → Block
replay start blk zero d b = d b
replay start blk (suc n) d b = if blk n == b then d (start + n + 1) else replay start blk n d b

-- The logical contents of the disk `d`, whose log starts at `start`.
abbrev pub redo : ℕ → (ℕ → Block) → ℕ → Block
redo start d = replay start (λ i. d start (i + 1)) (d start 0) d

-- The header names at most `logblocks` blocks, all of them outside the log.
pub record IsHeader (start n : ℕ) (blk : ℕ → ℕ) : Type 0 where
  pub few : n ≤ logblocks
  pub homes : (i : ℕ) → i < n → IsHome start (blk i)

pub replay-cong :
    (start : ℕ) (blk : ℕ → ℕ) (n : ℕ) (d e : ℕ → Block) (b : ℕ)
    → ((i : ℕ) → i < n → d (start + i + 1) ≡ e (start + i + 1))
    → d b ≡ e b
    → replay start blk n d b ≡ replay start blk n e b
replay-cong start blk zero d e b logged h = h
replay-cong start blk (suc n) d e b logged h = elim (Bool-cases (blk n == b)) [
  | inl here ↦ rw here (logged n (omega arith))
  | inr other ↦ rw other (replay-cong start blk n d e b (λ i lt. logged i (omega arith)) h)
]

pub replay-cong_homes :
    (start : ℕ) (blk blk' : ℕ → ℕ) (n : ℕ) (d : ℕ → Block) (b : ℕ)
    → ((i : ℕ) → i < n → blk i ≡ blk' i)
    → replay start blk n d b ≡ replay start blk' n d b
replay-cong_homes start blk blk' zero d b h = refl
replay-cong_homes start blk blk' (suc n) d b h =
    rw (h n (omega arith), replay-cong_homes start blk blk' n d b (λ i lt. h i (omega arith)))

-- A replay changes no block that is not a home.
pub replay-other :
    (start : ℕ) (blk : ℕ → ℕ) (n : ℕ) (d : ℕ → Block) (b : ℕ)
    → ((i : ℕ) → i < n → blk i ≢ b)
    → replay start blk n d b ≡ d b
replay-other start blk zero d b h = refl
replay-other start blk (suc n) d b h =
    ground (arith, h n, replay-other start blk n d b (λ i lt. h i (omega arith)))

module _ (start : ℕ) (blk : ℕ → ℕ) (m : ℕ) (ok : IsHeader start m blk) (d : ℕ → Block) where
  -- The log itself is not changed by a replay.
  pub replay-log :
      (n b : ℕ) → n ≤ m → start ≤ b → b ≤ start + logblocks → replay start blk n d b ≡ d b
  replay-log n b le lo hi =
      replay-other start blk n d b (λ i lt e. ground (arith, ok.homes i (omega arith)))

  replay-replay_self :
      (n b : ℕ) → n ≤ m → replay start blk n (replay start blk n d) b ≡ replay start blk n d b
  replay-replay_self zero b le = refl
  replay-replay_self (suc n) b le = elim (Bool-cases (blk n == b)) [
    | inl here ↦
        rw here (replay-log (suc n) (start + n + 1) le (omega arith) (omega (arith, ok.few)))
    | inr other ↦ rw other (
        replay-cong start blk n (replay start blk (suc n) d) (replay start blk n d) b
          (λ i lt.
            replay-log (suc n) (start + i + 1) le (omega arith) (omega (arith, ok.few))
            ∙ sym
                (replay-log n (start + i + 1) (omega arith) (omega arith) (omega (arith, ok.few))))
          (rw other)
        ∙ replay-replay_self n b (omega arith))
  ]

  -- A replay after a part of it gives what the replay gives: installing again does no harm.
  pub replay-replay :
      (k n b : ℕ)
      → k ≤ n
      → n ≤ m
      → replay start blk n (replay start blk k d) b ≡ replay start blk n d b
  replay-replay k zero b le lm = let e : k ≡ 0 = omega arith in rw e refl
  replay-replay k (suc n) b le lm = elim (dec_lt n k) [
    | yes whole ↦ let e : k ≡ suc n = omega arith in rw e (replay-replay_self (suc n) b lm)
    | no part ↦ elim (Bool-cases (blk n == b)) [
      | inl here ↦
          rw here (replay-log k (start + n + 1) (omega arith) (omega arith) (omega (arith, ok.few)))
      | inr other ↦ rw other (replay-replay k n b (omega arith) (omega arith))
    ]
  ]

-- A disk on which a part of the logged blocks has been copied home stands for what it stood for.
pub redo-replay :
    (start n k : ℕ) (blk : ℕ → ℕ) (d : ℕ → Block)
    → n ≡ d start 0
    → blk ≡ (λ i. d start (i + 1))
    → IsHeader start n blk
    → k ≤ n
    → (b : ℕ) → redo start (replay start blk k d) b ≡ redo start d b
redo-replay start n k blk d en eb ok le b =
    let same : replay start blk k d start ≡ d start =
      replay-log start blk n ok d k start le (omega arith) (omega arith) in
    rw same (
      subst₂ (λ m f. replay start f m (replay start blk k d) b ≡ replay start f m d b) en eb
        (replay-replay start blk n ok d k n b le (omega arith)))

-- A disk with an empty header stands for itself.
pub redo-empty : (start : ℕ) (d : ℕ → Block) (b : ℕ) → d start 0 ≡ 0 → redo start d b ≡ d b
redo-empty start d b e = rw e refl
