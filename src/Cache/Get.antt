-- ===== src/Cache/Get.antt =====
-- `bget`: the buffer that holds the block, or the unused one that was released longest ago.
use xv6_extended.Base.{
  ℕ, ◌+◌, ◌%◌, ◌^◌, ◌<◌, ◌≡◌, ◌≢◌, ◌⊎◌, ◌∙◌, refl, sym, ap, subst, inl, inr, Bool, true, false,
  List, [], ◌∷◌, ◌++◌, Option, some, ◌==◌, if◌then◌else◌, Bool-cases, contains, arith, Outcome,
  done, panic,
}
use xv6_extended.Base.Family.{update, update_self, update_ne}
use xv6_extended.Cache.{
  nbuf, head, Buf, Bcache, set_buf, first, holds, unused, add_ref, recycle, take_cached,
  take_unused, bget,
}
use xv6_extended.Cache.Links.{
  Linked-reverse, reverse_onto, contains-reverse_onto, length-reverse_onto, find_or_head,
  first-find, find_cases, find-reverse, contains-append,
}
use xv6_extended.Cache.Valid.{IsValid}

-- The block is in a buffer, in one that had no owner, or in none and every buffer has an owner.
abbrev pub Got : ℕ → ℕ → Bcache → List ℕ → Outcome (Option (ℕ × Bcache)) → Type 0
Got dev blockno s l r =
    ((b : ℕ) × (b < nbuf)
      × (holds dev blockno s b ≡ true)
      × (r ≡ done (some (b, add_ref b s)))
      × IsValid (add_ref b s) l)
    ⊎ (((a : ℕ) → a < nbuf → holds dev blockno s a ≡ false)
        × (xs : List ℕ) × (b : ℕ) × (ys : List ℕ) × (l ≡ xs ++ (b ∷ ys))
        × ((s.buf b).refcnt ≡ 0)
        × ((a : ℕ) → contains ys a ≡ true → (s.buf a).refcnt ≢ 0)
        × (r ≡ done (some (b, recycle dev blockno b s)))
        × IsValid (recycle dev blockno b s) l)
    ⊎ (((a : ℕ) → a < nbuf → holds dev blockno s a ≡ false)
        × ((a : ℕ) → a < nbuf → (s.buf a).refcnt ≢ 0)
        × (r ≡ panic))

module _ {s : Bcache} {l : List ℕ} (inv : IsValid s l) where
  -- A change of a buffer that keeps its block, or takes one that no other has.
  pub set_buf-IsValid :
      (b : ℕ) (v : Buf)
      → v.refcnt < 2 ^ 32
      → ((a : ℕ)
          → a < nbuf
          → a ≢ b
          → (s.buf a).dev ≡ v.dev
          → (s.buf a).blockno ≡ v.blockno
          → v.dev ≡ 0)
      → IsValid (set_buf b v s) l
  set_buf-IsValid b v small alone = record {
    linked = inv.linked;
    once = inv.once;
    all = inv.all;
    count = inv.count;
    unique = λ x y hx hy ne d n. elim (Bool-cases (x == b)) [
      | inl same ↦
          let ex = at x same in
          let ey = off y (ground (arith, same, ne)) in
          ap dev_of ex
          ∙ alone y hy (ground (arith, same, ne)) (sym (ap dev_of ey) ∙ sym d ∙ ap dev_of ex)
              (sym (ap block_of ey) ∙ sym n ∙ ap block_of ex)
      | inr other ↦
          let ex = off x other in
          elim (Bool-cases (y == b)) [
            | inl same ↦
                let ey = at y same in
                d
                ∙ ap dev_of ey
                ∙ alone x hx (ground (arith, other)) (sym (ap dev_of ex) ∙ d ∙ ap dev_of ey)
                    (sym (ap block_of ex) ∙ n ∙ ap block_of ey)
            | inr neither ↦
                let ey = off y neither in
                ap dev_of ex
                ∙ inv.unique x y hx hy ne (sym (ap dev_of ex) ∙ d ∙ ap dev_of ey)
                    (sym (ap block_of ex) ∙ n ∙ ap block_of ey)
          ]
    ];
    range = λ x. elim (Bool-cases (x == b)) [
      | inl same ↦ subst (λ (w : Buf). w.refcnt < 2 ^ 32) (sym (at x same)) small
      | inr other ↦ subst (λ (w : Buf). w.refcnt < 2 ^ 32) (sym (off x other)) (inv.range x)
    ];
  }
    where
      dev_of : Buf → ℕ
      dev_of w = w.dev

      block_of : Buf → ℕ
      block_of w = w.blockno

      at : (x : ℕ) → (x == b) ≡ true → update s.buf b v x ≡ v
      at x same = subst (λ z. update s.buf b v z ≡ v) (ground (arith, same)) (update_self s.buf b v)

      off : (x : ℕ) → (x == b) ≡ false → update s.buf b v x ≡ s.buf x
      off x other = update_ne s.buf b x v (ground (arith, other))

  -- A change that keeps the block.
  pub rewrite-IsValid :
      (b : ℕ) (v : Buf)
      → b < nbuf
      → v.refcnt < 2 ^ 32
      → v.dev ≡ (s.buf b).dev
      → v.blockno ≡ (s.buf b).blockno
      → IsValid (set_buf b v s) l
  rewrite-IsValid b v hb small d n =
      set_buf-IsValid b v small
        (λ a ha ne da na. sym da ∙ inv.unique a b ha hb ne (da ∙ d) (na ∙ n))

  pub in_ring : (b : ℕ) → contains l b ≡ true → b < nbuf
  in_ring b h = let e = inv.all b in ground (arith, h, e)

  pub ring_has : (b : ℕ) → b < nbuf → contains l b ≡ true
  ring_has b h = inv.all b ∙ ground (arith, h)

  pub head_out : contains l head ≡ false
  head_out = inv.all head ∙ ground arith

  find_forward :
      (fuel : ℕ) (test : ℕ → Bool)
      → nbuf < fuel
      → first fuel s.next test (s.next head) ≡ some (find_or_head test l)
  find_forward fuel test enough =
      first-find fuel s.next s.prev test head (s.next head) l (omega (arith, inv.count, enough))
        refl inv.linked head_out

  find_backward :
      (fuel : ℕ) (test : ℕ → Bool)
      → nbuf < fuel
      → first fuel s.prev test (s.prev head) ≡ some (find_or_head test (reverse_onto l []))
  find_backward fuel test enough =
      first-find fuel s.prev s.next test head (s.prev head) (reverse_onto l [])
        (omega (arith, inv.count, enough, length-reverse_onto l [])) refl
        (Linked-reverse s.next s.prev head l inv.linked)
        (contains-reverse_onto l [] head ∙ ground (arith, head_out))

  -- The steps of `bget`, from what the loops find.
  bget-cached :
      (fuel dev blockno b : ℕ)
      → first fuel s.next (holds dev blockno s) (s.next head) ≡ some b
      → b < nbuf
      → bget fuel dev blockno s ≡ done (some (b, add_ref b s))
  unfolding bget take_cached
  bget-cached fuel dev blockno b e h =
      let not_head : (b == head) ≡ false = ground (arith, h) in
      let fresh = take_unused dev blockno s (first fuel s.prev (unused s) (s.prev head)) in
      ap (take_cached s fresh) e
      ∙ ap
          (λ c.
            if◌then◌else◌ {A = Outcome (Option (ℕ × Bcache))} c fresh
              (done (some (b, add_ref b s))))
          not_head

  bget-fresh :
      (fuel dev blockno c : ℕ)
      → first fuel s.next (holds dev blockno s) (s.next head) ≡ some head
      → first fuel s.prev (unused s) (s.prev head) ≡ some c
      → bget fuel dev blockno s
        ≡ (if c == head then panic else done (some (c, recycle dev blockno c s)))
  unfolding bget take_cached take_unused
  bget-fresh fuel dev blockno c e e2 =
      ap (take_cached s (take_unused dev blockno s (first fuel s.prev (unused s) (s.prev head)))) e
      ∙ ap (take_unused dev blockno s) e2

  -- On a valid cache, for a block of a device that is not 0, with fuel for a round at each buffer and the head,
  -- `bget` ends. It gives the buffer that holds the block, with one reference more; if none does, the one of
  -- the unused buffers that was released longest ago, for the block and not yet read; and it panics exactly
  -- if none holds the block and all are in use. The cache stays valid, and the order of use is as it was. The
  -- count of the buffer is taken not to overflow.
  pub bget-Got :
      (fuel dev blockno : ℕ)
      → nbuf < fuel
      → dev ≢ 0
      → ((b : ℕ) → b < nbuf → (s.buf b).refcnt + 1 < 2 ^ 32)
      → Got dev blockno s l (bget fuel dev blockno s)
  bget-Got fuel dev blockno enough real small = elim (find_cases (holds dev blockno s) l) [
    | inl (good, there) ↦
        let b = find_or_head (holds dev blockno s) l in
        let hb = in_ring b there in
        inl (
          b,
          hb,
          good,
          bget-cached fuel dev blockno b (find_forward fuel (holds dev blockno s) enough) hb,
          rewrite-IsValid b (record (s.buf b) { refcnt = ((s.buf b).refcnt + 1) % 2 ^ 32 }) hb
              (omega arith) refl refl,
        )
    | inr (at_head, none_holds) ↦
        let e = find_forward fuel (holds dev blockno s) enough ∙ ap some at_head in
        let c = find_or_head (unused s) (reverse_onto l []) in
        let ran = bget-fresh fuel dev blockno c e (find_backward fuel (unused s) enough) in
        let alone : (a : ℕ) → a < nbuf → holds dev blockno s a ≡ false =
          λ a ha. none_holds a (ring_has a ha) in
        elim (find-reverse (unused s) l []) [
          | inl (xs, ys, split, free, behind) ↦ inr (
              inl (
                alone,
                xs,
                c,
                ys,
                split,
                ground (arith, free),
                λ a ha z. used_not (s.buf a).refcnt (behind a ha) z,
                ran
                    ∙ ap
                        (λ k.
                          if◌then◌else◌ {A = Outcome (Option (ℕ × Bcache))} k panic
                            (done (some (c, recycle dev blockno c s))))
                        (not_head c (here xs ys c split)),
                set_buf-IsValid c
                    (record (s.buf c) { dev = dev; blockno = blockno; valid = false; refcnt = 1 })
                    (omega arith) (λ a ha ne da na. absurd (no_other a da na (alone a ha))),
              ))
          | inr (same, all_used) ↦ inr (
              inr (
                alone,
                λ a ha z. used_not (s.buf a).refcnt (all_used a (ring_has a ha)) z,
                ran
                    ∙ ap
                        (λ k.
                          if◌then◌else◌ {A = Outcome (Option (ℕ × Bcache))} (k == head) panic
                            (done (some (k, recycle dev blockno k s))))
                        same,
              ))
        ]
  ]
    where
      used_not : (n : ℕ) → (n == 0) ≡ false → n ≢ 0
      used_not n h z = ground (arith, h, z)

      here : (xs ys : List ℕ) (c : ℕ) → l ≡ xs ++ (c ∷ ys) → contains l c ≡ true
      here xs ys c e = ap (λ m. contains m c) e ∙ contains-append xs (c ∷ ys) c ∙ ground arith

      not_head : (c : ℕ) → contains l c ≡ true → (c == head) ≡ false
      not_head c h = let b = in_ring c h in ground (arith, b)

      no_other :
          (a : ℕ)
          → (s.buf a).dev ≡ dev
          → (s.buf a).blockno ≡ blockno
          → holds dev blockno s a ≡ false
          → ⊥
      no_other a da na h = ground (arith, da, na, h)
