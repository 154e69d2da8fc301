-- ===== src/Log/Append.antt =====
-- `log_write`: adding a block to the transaction.
use xv6_extended.Base.{
  ℕ, zero, suc, ◌+◌, ◌^◌, ◌≤◌, ◌<◌, ◌≡◌, refl, ◌∙◌, ap, false, arith, leb, ◌||◌, ◌==◌,
  if◌then◌else◌, Bool-cases, inl, inr, dec_lt, subst, done, ==_iff, ==_refl,
}
use xv6_extended.Base.Family.{update, update_self, update_ne}
use xv6_extended.Log.{Block, System, logblocks, rounds, absorb, log_write}
use xv6_extended.Log.Redo.{IsHome, IsHeader}
use xv6_extended.Log.Commit.Latest.{latest}

-- The loop stops at the first slot that names the block, or at the end.
record Absorbed (r i : ℕ) (block : ℕ → ℕ) (b j : ℕ) : Type 0 where
  low : i ≤ j
  high : j ≤ i + r
  named : j < i + r → block j ≡ b

absorb-Absorbed : (r i : ℕ) (block : ℕ → ℕ) (b : ℕ) → Absorbed r i block b (absorb r i block b)
unfolding absorb
absorb-Absorbed zero i block b = record {
  low = omega arith;
  high = omega arith;
  named = λ h. absurd (omega arith);
}
absorb-Absorbed (suc r) i block b = ground (arith, absorb-Absorbed r (i + 1) block b)

latest_member :
    (blk : ℕ → ℕ) (n i : ℕ) (c d : ℕ → Block) (x : ℕ) → i < n → blk i ≡ x → latest blk n c d x ≡ c x
latest_member blk zero i c d x lt e = absurd (omega arith)
latest_member blk (suc n) i c d x lt e = elim (dec_lt i n) [
  | yes below ↦ ground (arith, latest_member blk n i c d x below e)
  | no last ↦
      let here : i ≡ n = omega arith in
      let e' : blk n ≡ x = subst (λ j. blk j ≡ x) here e in rw (e', ==_refl x)
]

latest-cong :
    (blk blk' : ℕ → ℕ) (n : ℕ) (c d : ℕ → Block) (x : ℕ)
    → ((i : ℕ) → i < n → blk i ≡ blk' i)
    → latest blk n c d x ≡ latest blk' n c d x
latest-cong blk blk' zero c d x h = refl
latest-cong blk blk' (suc n) c d x h =
    rw (h n (omega arith), latest-cong blk blk' n c d x (λ i lt. h i (omega arith)))

-- The log after `log_write` of `b`: the transaction has the blocks it had, and `b`.
pub record Appended (b : ℕ) (s t : System) : Type 0 where
  pub same_start : t.log.start ≡ s.log.start
  pub same_outstanding : t.log.outstanding ≡ s.log.outstanding
  pub same_committing : t.log.committing ≡ s.log.committing
  pub same_disk : t.disk ≡ s.disk
  pub same_cache : t.cache ≡ s.cache
  pub grows : s.log.n ≤ t.log.n
  pub by_one : t.log.n ≤ s.log.n + 1
  pub homes :
      IsHome s.log.start b
      → IsHeader s.log.start s.log.n s.log.block
      → IsHeader s.log.start t.log.n t.log.block
  pub contents :
      (x : ℕ)
      → latest t.log.block t.log.n s.cache s.disk x
        ≡ (if b == x then s.cache x else latest s.log.block s.log.n s.cache s.disk x)

module _ (b : ℕ) (s : System) (room : s.log.n < logblocks) where
  slot : ℕ
  slot = absorb s.log.n 0 s.log.block b

  slot-Absorbed : Absorbed s.log.n 0 s.log.block b slot
  unfolding slot
  slot-Absorbed = absorb-Absorbed s.log.n 0 s.log.block b

  contents_old :
      slot < s.log.n
      → (x : ℕ)
      → latest (update s.log.block slot b) s.log.n s.cache s.disk x
        ≡ (if b == x then s.cache x else latest s.log.block s.log.n s.cache s.disk x)
  contents_old lt x =
      latest-cong (update s.log.block slot b) s.log.block s.log.n s.cache s.disk x
        (λ i li. ground (arith, slot-Absorbed.named (omega arith)))
      ∙ elim (Bool-cases (b == x)) [
        | inl here ↦ rw here (
            latest_member s.log.block s.log.n slot s.cache s.disk x lt
              (slot-Absorbed.named (omega arith) ∙ (==_iff b x).0 here))
        | inr other ↦ rw other
      ]

  contents_new :
      (x : ℕ)
      → latest (update s.log.block s.log.n b) (suc s.log.n) s.cache s.disk x
        ≡ (if b == x then s.cache x else latest s.log.block s.log.n s.cache s.disk x)
  contents_new x = rw update_self (
      ap (λ l. if b == x then s.cache x else l)
        (latest-cong (update s.log.block s.log.n b) s.log.block s.log.n s.cache s.disk x
          (λ i li. update_ne s.log.block s.log.n i b (omega arith))))

  noted : System
  noted = record s { log = record (s.log) { block = update s.log.block slot b } }

  grown : System
  grown = record s {
    log = record (s.log) { block = update s.log.block slot b; n = s.log.n + 1 };
    pins = update s.pins b (s.pins b + 1);
  }

  noted-Appended : slot < s.log.n → Appended b s noted
  unfolding noted
  noted-Appended lt = record {
    same_start = refl;
    same_outstanding = refl;
    same_committing = refl;
    same_disk = refl;
    same_cache = refl;
    grows = omega arith;
    by_one = omega arith;
    homes = λ home ok. record { few = ok.few; homes = λ i li. ground (arith, ok.homes i li) };
    contents = contents_old lt;
  }

  grown-Appended : slot ≡ s.log.n → Appended b s grown
  unfolding grown
  grown-Appended e = record {
    same_start = refl;
    same_outstanding = refl;
    same_committing = refl;
    same_disk = refl;
    same_cache = refl;
    grows = omega arith;
    by_one = omega arith;
    homes = λ home ok. record { few = omega arith; homes = λ i li. ground (arith, ok.homes i) };
    contents =
        λ x. let next : s.log.n + 1 ≡ suc s.log.n = omega arith in rw (e, next) (contents_new x);
  }

  -- In an operation, and with a free slot, `log_write` returns. It adds the block to the transaction,
  -- using a slot only if the block had none, so a commit will write its cached contents too.
  pub log_write-Appended :
      0 < s.log.outstanding
      → s.log.outstanding < 2 ^ 31
      → (t : System) × (log_write b s ≡ done t) × Appended b s t
  unfolding log_write slot noted grown
  log_write-Appended some_op small =
      let count : rounds s.log.n ≡ s.log.n = ground arith in
      let slots : leb logblocks s.log.n ≡ false = ground arith in
      let inside : ((s.log.outstanding == 0) || leb (2 ^ 31) s.log.outstanding) ≡ false =
        ground arith in
      elim (Bool-cases (slot == s.log.n)) [
        | inl fresh ↦
            (grown, rw (count, slots, inside, fresh), grown-Appended (ground (arith, fresh)))
        | inr absorbed ↦ (
          noted,
          rw (count, slots, inside, absorbed),
          noted-Appended (ground (arith, absorbed, slot-Absorbed.high)),
        )
      ]
