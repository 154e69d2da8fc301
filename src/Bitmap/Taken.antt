-- ===== src/Bitmap/Taken.antt =====
-- `balloc`: it takes a free block, and no other block changes.
use xv6_extended.Base.{
  ℕ, zero, suc, ◌+◌, ◌-◌, ◌*◌, ◌/◌, ◌%◌, ◌^◌, ◌≤◌, ◌<◌, ◌≡◌, ◌≢◌, ◌⊎◌, ◌∙◌, refl, sym, ap, ap₂,
  subst, inl, inr, Bool, true, false, some, none, ◌==◌, has_bit, Bool-cases, arith, if◌then◌else◌,
  dec_lt, min, Outcome, done, ◌>>=◌,
}
use xv6_extended.Base.Family.{update, update_self, update_ne}
use xv6_extended.Log.{Block, System, logblocks, fill_buf, log_write}
use xv6_extended.Log.Append.{log_write-Appended}
use xv6_extended.Bitmap.{
  Superblock, bpb, bblock, in_use, mark, bzero, free_bit, take_bit, balloc_at, balloc_from, balloc,
}
use xv6_extended.Bitmap.Bits.{set_kept, set_self}

-- Whether the bitmap says that a block is in use.
abbrev pub used : Superblock → System → ℕ → Bool
used sb s b = in_use (s.cache (bblock b sb)) (b % bpb)

mark-in_use :
    (v : Block) (bi bj : ℕ)
    → in_use v bi ≡ false
    → in_use (mark v bi) bj ≡ (if bi == bj then true else in_use v bj)
mark-in_use v bi bj clear = elim (Bool-cases (bi == bj)) [
  | inl same ↦
      let e : bi ≡ bj = ground (arith, same) in
      subst (λ x. in_use (mark v bi) x ≡ (if bi == x then true else in_use v x)) e
        (ap (λ w. has_bit w (2 ^ (bi % 32))) (update_self v (bi / 32) (v (bi / 32) + 2 ^ (bi % 32)))
          ∙ set_self (v (bi / 32)) (bi % 32) clear
          ∙ ground arith)
  | inr other ↦ elim (Bool-cases (bi / 32 == bj / 32)) [
    | inr apart ↦
        ap (λ w. has_bit w (2 ^ (bj % 32)))
          (update_ne v (bi / 32) (bj / 32) (v (bi / 32) + 2 ^ (bi % 32)) (ground (arith, apart)))
        ∙ ap (λ c. if c then true else in_use v bj) (sym other)
    | inl together ↦
        let e : bi / 32 ≡ bj / 32 = ground (arith, together) in
        let ne : bi % 32 ≢ bj % 32 = ground (arith, other, e) in
        ap (λ k. has_bit (mark v bi k) (2 ^ (bj % 32))) (sym e)
        ∙ ap (λ w. has_bit w (2 ^ (bj % 32)))
            (update_self v (bi / 32) (v (bi / 32) + 2 ^ (bi % 32)))
        ∙ set_kept (v (bi / 32)) (bi % 32) (bj % 32) clear ne
        ∙ ap (λ k. has_bit (v k) (2 ^ (bj % 32))) e
        ∙ ap (λ c. if c then true else in_use v bj) (sym other)
  ]
]

-- What the inner loop finds.
free_bit_cases :
    (n bi : ℕ) (v : Block)
    → ((free_bit n bi v ≡ none) × ((j : ℕ) → bi ≤ j → j < bi + n → in_use v j ≡ true))
      ⊎ ((j : ℕ) × (free_bit n bi v ≡ some j) × (bi ≤ j) × (j < bi + n) × (in_use v j ≡ false))
unfolding free_bit
free_bit_cases zero bi v = inl (refl, λ j lo hi. absurd (omega (arith, lo, hi)))
free_bit_cases (suc n) bi v = elim (Bool-cases (in_use v bi)) [
  | inr free ↦ inr (
    bi,
    ap (λ c. if c then free_bit n (bi + 1) v else some bi) free,
    omega arith,
    omega arith,
    free,
  )
  | inl busy ↦
      let step : free_bit (suc n) bi v ≡ free_bit n (bi + 1) v =
        ap (λ c. if c then free_bit n (bi + 1) v else some bi) busy in
      elim (free_bit_cases n (bi + 1) v) [
        | inr (j, e, lo, hi, free) ↦ inr (j, step ∙ e, omega (arith, lo), omega (arith, hi), free)
        | inl (e, all_busy) ↦ inl (
          step ∙ e,
          λ j lo hi. elim (Bool-cases (bi == j)) [
            | inl same ↦ subst (λ x. in_use v x ≡ true) (ground (arith, same)) busy
            | inr other ↦ all_busy j (ground (arith, lo, other)) (omega (arith, hi))
          ],
        )
      ]
]

-- There is room in the log for the two blocks that `balloc` writes, and an operation is under way.
pub record Room (s : System) : Type 0 where
  pub slots : s.log.n + 2 ≤ logblocks
  pub some_op : 0 < s.log.outstanding
  pub small : s.log.outstanding < 2 ^ 31

-- The block `b` has been taken: it was free, it is in use and zero, and no other block has changed, but for the
-- bit in the bitmap.
pub record Taken (sb : Superblock) (s : System) (b : ℕ) (s' : System) : Type 0 where
  pub inside : b < sb.size
  pub was_free : used sb s b ≡ false
  pub marked : (c : ℕ) → c < sb.size → used sb s' c ≡ (if b == c then true else used sb s c)
  pub zeroed : (i : ℕ) → s'.cache b i ≡ 0
  pub others : (d : ℕ) → d ≢ b → d ≢ bblock b sb → s'.cache d ≡ s.cache d

-- Two writes to the log, of a block `x` and then of a block `y`.
two_writes :
    (x y : ℕ) (v w : Block) (s : System)
    → Room s
    → (s' : System) × ((log_write x (fill_buf x v s) >>= λ t. log_write y (fill_buf y w t))
        ≡ done s')
      × (s'.cache ≡ update (update s.cache x v) y w)
two_writes x y v w s room =
    let r1 = room.slots in
    let a = log_write-Appended x (fill_buf x v s) (omega (arith, r1)) room.some_op room.small in
    let n1 = a.2.by_one in
    let o1 = a.2.same_outstanding in
    let r2 = room.some_op in
    let r3 = room.small in
    let b =
      log_write-Appended y (fill_buf y w a.0) (omega (arith, r1, n1)) (omega (arith, o1, r2))
        (omega (arith, o1, r3)) in
    (
      b.0,
      ap (λ m. m >>= λ t. log_write y (fill_buf y w t)) a.1 ∙ b.1,
      b.2.same_cache ∙ ap (λ c. update c y w) a.2.same_cache,
    )

module _ (sb : Superblock) (b bi : ℕ) (s : System)
    (own : (c : ℕ) → c < sb.size → used sb s (bblock c sb) ≡ true) (start : b % bpb ≡ 0)
    (small : bi < bpb) (inside : b + bi < sb.size)
    (free : in_use (s.cache (bblock b sb)) bi ≡ false) where
  block_free : used sb s (b + bi) ≡ false
  block_free =
      let e1 : bblock (b + bi) sb ≡ bblock b sb = omega (arith, start, small) in
      let e2 : (b + bi) % bpb ≡ bi = omega (arith, start, small) in
      ap₂ (λ d i. in_use (s.cache d) i) e1 e2 ∙ free

  apart : (c : ℕ) → c < sb.size → b + bi ≢ bblock c sb
  apart c lt e = cc (sym (own c lt), ap (used sb s) (sym e), block_free)

  after_marked :
      (s' : System)
      → s'.cache
        ≡ update (update s.cache (bblock b sb) (mark (s.cache (bblock b sb)) bi)) (b + bi) (λ _. 0)
      → (c : ℕ) → c < sb.size
      → used sb s' c ≡ (if b + bi == c then true else used sb s c)
  after_marked s' e c lt =
      let v = s.cache (bblock b sb) in
      let at : s'.cache (bblock c sb) ≡ update s.cache (bblock b sb) (mark v bi) (bblock c sb) =
        ap (λ f. f (bblock c sb)) e
        ∙ update_ne (update s.cache (bblock b sb) (mark v bi)) (b + bi) (bblock c sb) (λ _. 0)
            (apart c lt) in
      ap (λ w. in_use w (c % bpb)) at ∙ elim (Bool-cases (bblock b sb == bblock c sb)) [
        | inr other ↦
            let ne : (b + bi == c) ≡ false = ground (arith, other, start, small) in
            ap (λ w. in_use w (c % bpb))
              (update_ne s.cache (bblock b sb) (bblock c sb) (mark v bi) (ground (arith, other)))
            ∙ ap (λ q. if q then true else used sb s c) (sym ne)
        | inl same ↦
            let e1 : bblock b sb ≡ bblock c sb = ground (arith, same) in
            let tests : (bi == c % bpb) ≡ (b + bi == c) = ground (arith, e1, start, small) in
            ap (λ d. in_use (update s.cache (bblock b sb) (mark v bi) d) (c % bpb)) (sym e1)
            ∙ ap (λ w. in_use w (c % bpb)) (update_self s.cache (bblock b sb) (mark v bi))
            ∙ mark-in_use v bi (c % bpb) free
            ∙ ap₂ (λ q d. if q then true else in_use (s.cache d) (c % bpb)) tests e1
      ]

  take_bit-Taken :
      Room s → (s' : System) × (take_bit sb b bi s ≡ done (b + bi, s')) × Taken sb s (b + bi) s'
  unfolding take_bit bzero
  take_bit-Taken room =
      let v = mark (s.cache (bblock b sb)) bi in
      let (s', ran, cache) = two_writes (bblock b sb) (b + bi) v (λ _. 0) s room in
      let e1 : bblock (b + bi) sb ≡ bblock b sb = omega (arith, start, small) in
      (
        s',
        ap (λ m. m >>= λ t. done (b + bi, t)) ran,
        record {
          inside = inside;
          was_free = block_free;
          marked = after_marked s' cache;
          zeroed = λ i.
              ap (λ f. f (b + bi) i) cache
              ∙ ap (λ f. f i) (update_self (update s.cache (bblock b sb) v) (b + bi) (λ _. 0));
          others = λ d ne nb.
              ap (λ f. f d) cache
              ∙ update_ne (update s.cache (bblock b sb) v) (b + bi) d (λ _. 0) (λ q. ne (sym q))
              ∙ update_ne s.cache (bblock b sb) d v (λ q. nb (sym q ∙ sym e1));
        },
      )

-- `balloc` has found no free block and changed nothing, or has taken one.
abbrev pub Allocation : Superblock → System → Outcome (ℕ × System) → Type 0
Allocation sb s m =
    ((m ≡ done (0, s)) × ((c : ℕ) → c < sb.size → used sb s c ≡ true))
    ⊎ ((b : ℕ) × (s' : System) × (m ≡ done (b, s')) × Taken sb s b s')

module _ (sb : Superblock) (s : System) (room : Room s)
    (own : (c : ℕ) → c < sb.size → used sb s (bblock c sb) ≡ true) where
  balloc_from-Allocation :
      (n b : ℕ)
      → b % bpb ≡ 0
      → sb.size ≤ b + n * bpb
      → ((c : ℕ) → c < b → c < sb.size → used sb s c ≡ true)
      → Allocation sb s (balloc_from sb n b s)
  unfolding balloc_from balloc_at
  balloc_from-Allocation zero b start covers before =
      inl (refl, λ c lt. before c (omega (arith, covers, lt)) lt)
  balloc_from-Allocation (suc n) b start covers before =
      elim (free_bit_cases (min bpb (sb.size - b)) 0 (s.cache (bblock b sb))) [
        | inr (bi, e, _, hi, free) ↦
            let t =
              take_bit-Taken sb b bi s own start (ground (arith, hi)) (ground (arith, hi)) free
                room in
            inr (b + bi, t.0, ap (balloc_at sb b s (balloc_from sb n (b + bpb) s)) e ∙ t.1, t.2)
        | inl (e, busy) ↦
            let rest =
              balloc_from-Allocation n (b + bpb) (omega (arith, start)) (omega (arith, covers))
                (λ c lo lt. elim (dec_lt c b) [
                  | yes early ↦ before c early lt
                  | no here ↦
                      let e1 : bblock b sb ≡ bblock c sb = omega (arith, here, lo, start) in
                      let j : c % bpb < 0 + min bpb (sb.size - b) =
                        ground (arith, here, lo, start, lt) in
                      ap (λ d. in_use (s.cache d) (c % bpb)) (sym e1)
                      ∙ busy (c % bpb) (omega arith) j
                ]) in
            subst (Allocation sb s) (sym (ap (balloc_at sb b s (balloc_from sb n (b + bpb) s)) e))
              rest
      ]

  -- In an operation with two free slots in the log, and with the blocks of the bitmap marked in it, `balloc` ends: it
  -- gives 0 and changes nothing if no block is free; else it gives a block that was free, marks it and no other
  -- in the bitmap, fills it with zeros, and changes no other block.
  pub balloc-Allocation : Allocation sb s (balloc sb s)
  unfolding balloc
  balloc-Allocation =
      balloc_from-Allocation ((sb.size + bpb - 1) / bpb) 0 refl (omega arith)
        (λ c lt. absurd (omega (arith, lt)))
