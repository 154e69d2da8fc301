-- ===== src/Bitmap/Freed.antt =====
-- `bfree`: it clears the bit of the block, and nothing else changes.
use xv6_extended.Base.{
  ℕ, ◌-◌, ◌/◌, ◌%◌, ◌^◌, ◌≡◌, ◌≢◌, ◌⊎◌, ◌∙◌, sym, ap, ap₂, subst, inl, inr, Bool, true, false, not,
  ◌==◌, has_bit, Bool-cases, arith, if◌then◌else◌, Outcome, done, panic,
}
use xv6_extended.Base.Family.{update, update_self, update_ne}
use xv6_extended.Log.{Block, System, fill_buf, log_write}
use xv6_extended.Log.Append.{log_write-Appended}
use xv6_extended.Bitmap.{Superblock, bpb, bblock, in_use, unmark, bfree}
use xv6_extended.Bitmap.Bits.{clear_kept, clear_self}
use xv6_extended.Bitmap.Taken.{Room, used}

unmark-in_use :
    (v : Block) (bi bj : ℕ)
    → in_use v bi ≡ true
    → in_use (unmark v bi) bj ≡ (if bi == bj then false else in_use v bj)
unmark-in_use v bi bj set_bit = elim (Bool-cases (bi == bj)) [
  | inl same ↦
      let e : bi ≡ bj = ground (arith, same) in
      subst (λ x. in_use (unmark v bi) x ≡ (if bi == x then false else in_use v x)) e
        (ap (λ w. has_bit w (2 ^ (bi % 32))) (update_self v (bi / 32) (v (bi / 32) - 2 ^ (bi % 32)))
          ∙ clear_self (v (bi / 32)) (bi % 32) set_bit
          ∙ ground arith)
  | inr other ↦ elim (Bool-cases (bi / 32 == bj / 32)) [
    | inr apart ↦
        ap (λ w. has_bit w (2 ^ (bj % 32)))
          (update_ne v (bi / 32) (bj / 32) (v (bi / 32) - 2 ^ (bi % 32)) (ground (arith, apart)))
        ∙ ap (λ c. if c then false else in_use v bj) (sym other)
    | inl together ↦
        let e : bi / 32 ≡ bj / 32 = ground (arith, together) in
        let ne : bi % 32 ≢ bj % 32 = ground (arith, other, e) in
        ap (λ k. has_bit (unmark v bi k) (2 ^ (bj % 32))) (sym e)
        ∙ ap (λ w. has_bit w (2 ^ (bj % 32)))
            (update_self v (bi / 32) (v (bi / 32) - 2 ^ (bi % 32)))
        ∙ clear_kept (v (bi / 32)) (bi % 32) (bj % 32) set_bit ne
        ∙ ap (λ k. has_bit (v k) (2 ^ (bj % 32))) e
        ∙ ap (λ c. if c then false else in_use v bj) (sym other)
  ]
]

-- The block has been freed: its bit alone is clear, and no other block has changed.
pub record Freed (sb : Superblock) (s : System) (b : ℕ) (s' : System) : Type 0 where
  pub cleared : (c : ℕ) → used sb s' c ≡ (if b == c then false else used sb s c)
  pub others : (d : ℕ) → d ≢ bblock b sb → s'.cache d ≡ s.cache d

bit_at :
    (sb : Superblock) (s s' : System) (b c : ℕ)
    → used sb s b ≡ true
    → s'.cache ≡ update s.cache (bblock b sb) (unmark (s.cache (bblock b sb)) (b % bpb))
    → used sb s' c ≡ (if b == c then false else used sb s c)
bit_at sb s s' b c on e =
    let v = s.cache (bblock b sb) in
    ap (λ f. in_use (f (bblock c sb)) (c % bpb)) e
    ∙ elim (Bool-cases (bblock b sb == bblock c sb)) [
      | inr other ↦
          let ne : (b == c) ≡ false = ground (arith, other) in
          ap (λ w. in_use w (c % bpb))
            (update_ne s.cache (bblock b sb) (bblock c sb) (unmark v (b % bpb))
              (ground (arith, other)))
          ∙ ap (λ q. if q then false else used sb s c) (sym ne)
      | inl same ↦
          let e1 : bblock b sb ≡ bblock c sb = ground (arith, same) in
          let tests : (b % bpb == c % bpb) ≡ (b == c) = ground (arith, e1) in
          ap (λ d. in_use (update s.cache (bblock b sb) (unmark v (b % bpb)) d) (c % bpb)) (sym e1)
          ∙ ap (λ w. in_use w (c % bpb)) (update_self s.cache (bblock b sb) (unmark v (b % bpb)))
          ∙ unmark-in_use v (b % bpb) (c % bpb) on
          ∙ ap₂ (λ q d. if q then false else in_use (s.cache d) (c % bpb)) tests e1
    ]

-- In an operation with a free slot in the log, `bfree` panics exactly if the block is already free; else it
-- returns, clears the bit of that block alone, and changes no other block.
pub bfree-Freed :
    (sb : Superblock) (b : ℕ) (s : System)
    → Room s
    → ((used sb s b ≡ false) × (bfree sb b s ≡ panic))
      ⊎ ((used sb s b ≡ true) × (s' : System) × (bfree sb b s ≡ done s') × Freed sb s b s')
unfolding bfree
bfree-Freed sb b s room = elim (Bool-cases (used sb s b)) [
  | inr free ↦ inl (free, ap after free)
  | inl on ↦
      let r1 = room.slots in
      let a =
        log_write-Appended (bblock b sb)
          (fill_buf (bblock b sb) (unmark (s.cache (bblock b sb)) (b % bpb)) s) (omega (arith, r1))
          room.some_op room.small in
      inr (
        on,
        a.0,
        ap after on ∙ a.1,
        record {
          cleared = λ c. bit_at sb s a.0 b c on a.2.same_cache;
          others = λ d ne.
              ap (λ f. f d) a.2.same_cache
              ∙ update_ne s.cache (bblock b sb) d (unmark (s.cache (bblock b sb)) (b % bpb))
                  (λ q. ne (sym q));
        },
      )
]
  where
    after : Bool → Outcome System
    after c =
        if not c
        then panic
        else log_write (bblock b sb)
            (fill_buf (bblock b sb) (unmark (s.cache (bblock b sb)) (b % bpb)) s)
