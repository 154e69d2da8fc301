-- ===== src/Kalloc/Operations.antt =====
-- Each operation of the allocator on a valid state.
use xv6_extended.Base.{
  ℕ, ◌+◌, ◌-◌, ◌^◌, ◌<◌, ◌≡◌, ◌≢◌, refl, subst, inl, inr, Bool-cases, false, List, [], ◌∷◌, arith,
  contains, if◌then◌else◌, ◌==◌, done,
}
use xv6_extended.Base.Family.{update}
use xv6_extended.Kalloc.{Kmem, pa2idx, junk_word, kalloc, kfree, push_free, krefinc, krefcnt}
use xv6_extended.Kalloc.Chain.{Chain-update}
use xv6_extended.Kalloc.Invariant.{IsPage, IsPage-bad_page, pa2idx-injective, IsValid}

pub krefcnt-page :
    (end pa : ℕ) (k : Kmem) → IsPage end pa → krefcnt end pa k ≡ done (k.refcnt (pa2idx pa))
unfolding krefcnt
krefcnt-page end pa k pg = rw (IsPage-bad_page end pa pg) refl

pub kfree-shared :
    (end pa : ℕ) (k : Kmem)
    → IsPage end pa
    → 1 < k.refcnt (pa2idx pa)
    → k.refcnt (pa2idx pa) < 2 ^ 31
    → kfree end pa k
      ≡ done (record k { refcnt = update k.refcnt (pa2idx pa) (k.refcnt (pa2idx pa) - 1) })
unfolding kfree
kfree-shared end pa k pg many small = rw (IsPage-bad_page end pa pg) (ground arith)

-- A page with a positive count is not on the free list.
pub contains_of_counted :
    {end top : ℕ} {k : Kmem} {l : List ℕ} (inv : IsValid end top k l) (pa : ℕ)
    → 0 < k.refcnt (pa2idx pa)
    → contains l pa ≡ false
contains_of_counted {l} inv pa h = ground (arith, inv.zeroed pa)

module _ {end top : ℕ} {k : Kmem} {l : List ℕ} (inv : IsValid end top k l) (pa : ℕ) where
  -- A write of a positive count over a positive count keeps the invariant.
  pub recount-IsValid :
      (n : ℕ)
      → IsPage end pa
      → 0 < n
      → n < 2 ^ 31
      → 0 < k.refcnt (pa2idx pa)
      → IsValid end top (record k { refcnt = update k.refcnt (pa2idx pa) n }) l
  recount-IsValid n pg pos small h = record {
    chain = inv.chain;
    distinct = inv.distinct;
    page = inv.page;
    zeroed = λ q m. ground (arith, inv.zeroed q m, inv.page q m, pa2idx-injective end pa q pg);
    counted = λ q qp qt m. ground (arith, inv.counted q qp qt m);
    int_range = λ i. ground (arith, inv.int_range i);
  }

  push_free-IsValid :
      IsPage end pa
      → pa < top
      → contains l pa ≡ false
      → IsValid end top
          (push_free end pa (record k { refcnt = update k.refcnt (pa2idx pa) 0 }))
          (pa ∷ l)
  push_free-IsValid pg lt h = record {
    chain = (
      refl,
      ground (arith, pg),
      ground (arith, Chain-update k.next k.freelist pa k.freelist l h inv.chain),
    );
    distinct = (h, inv.distinct);
    page = λ q m. ground (arith, inv.page q);
    zeroed = λ q m. ground (arith, inv.zeroed q);
    counted = λ q qp qt m. ground (arith, inv.counted q qp qt, pa2idx-injective end pa q pg qp);
    int_range = λ i. ground (arith, inv.int_range i);
  }

  -- Freeing an allocated page below `top` returns, lowers the count of that page alone by one, and
  -- puts the page at the head of the free list exactly if that was its last reference.
  pub kfree-IsValid :
      IsPage end pa
      → pa < top
      → 0 < k.refcnt (pa2idx pa)
      → (k' : Kmem) × (kfree end pa k ≡ done k')
        × IsValid end top k' (if k.refcnt (pa2idx pa) == 1 then pa ∷ l else l)
        × (k'.refcnt ≡ update k.refcnt (pa2idx pa) (k.refcnt (pa2idx pa) - 1))
  unfolding kfree
  kfree-IsValid pg lt pos = elim (Bool-cases (k.refcnt (pa2idx pa) == 1)) [
    | inl last ↦
        let one : k.refcnt (pa2idx pa) ≡ 1 = ground arith in
        (
          push_free end pa (record k { refcnt = update k.refcnt (pa2idx pa) 0 }),
          rw (IsPage-bad_page end pa pg, one),
          rw last (push_free-IsValid pg lt (contains_of_counted inv pa pos)),
          rw one,
        )
    | inr shared ↦
        let n = k.refcnt (pa2idx pa) in
        (
          record k { refcnt = update k.refcnt (pa2idx pa) (n - 1) },
          kfree-shared end pa k pg (ground arith) (inv.int_range (pa2idx pa)),
          rw shared (
              recount-IsValid (n - 1) pg (ground arith) (ground (arith, inv.int_range (pa2idx pa)))
                pos),
          refl,
        )
  ]

  -- The same for the last reference.
  pub kfree-last :
      IsPage end pa
      → pa < top
      → k.refcnt (pa2idx pa) ≡ 1
      → (k' : Kmem) × (kfree end pa k ≡ done k') × IsValid end top k' (pa ∷ l)
  kfree-last pg lt one =
      let (k', ran, valid, _) = kfree-IsValid pg lt (omega arith) in
      (k', ran, subst (λ (n : ℕ). IsValid end top k' (if n == 1 then pa ∷ l else l)) one valid)

  -- Sharing an allocated page returns, raises its count alone by one, and leaves the free list, as
  -- long as the count stays an int.
  pub krefinc-IsValid :
      IsPage end pa
      → 0 < k.refcnt (pa2idx pa)
      → k.refcnt (pa2idx pa) + 1 < 2 ^ 31
      → (k' : Kmem) × (krefinc end pa k ≡ done k')
        × IsValid end top k' l
        × (k' ≡ record k { refcnt = update k.refcnt (pa2idx pa) (k.refcnt (pa2idx pa) + 1) })
  unfolding krefinc
  krefinc-IsValid pg pos small = (
    record k { refcnt = update k.refcnt (pa2idx pa) (k.refcnt (pa2idx pa) + 1) },
    rw (IsPage-bad_page end pa pg) (ground arith),
    recount-IsValid (k.refcnt (pa2idx pa) + 1) pg (omega arith) small pos,
    refl,
  )

-- What `kalloc` leaves: from an empty list 0 and the same state; else the head of the list, with one
-- reference and every other count as it was.
abbrev pub Allocated : ℕ → ℕ → Kmem → List ℕ → ℕ × Kmem → Type 0
Allocated end top k [] (pa, k') = (pa ≡ 0) × (k' ≡ k)
Allocated end top k (x ∷ l) (pa, k') =
    (pa ≡ x)
    × (k.refcnt (pa2idx x) ≡ 0)
    × IsPage end x
    × (k'.refcnt ≡ update k.refcnt (pa2idx x) 1)
    × (k'.fill ≡ update k.fill x 5)
    × IsValid end top k' l

-- The state after the page `x` has been taken from the head of the free list.
abbrev taken : ℕ → Kmem → Kmem
taken x k = record k {
  freelist = k.next x;
  refcnt = update k.refcnt (pa2idx x) 1;
  fill = update k.fill x 5;
  next = update k.next x junk_word;
}

kalloc-taken : (k : Kmem) (x : ℕ) → k.freelist ≡ x → x ≢ 0 → kalloc k ≡ (x, taken x k)
unfolding kalloc
kalloc-taken k x e ne = subst (λ y. y ≢ 0 → kalloc k ≡ (y, taken y k)) e (λ h. ground arith) ne

module _ {end top : ℕ} {k : Kmem} where
  taken-IsValid : (x : ℕ) (l : List ℕ) → IsValid end top k (x ∷ l) → IsValid end top (taken x k) l
  taken-IsValid x l inv = record {
    chain = Chain-update k.next (k.next x) x junk_word l inv.distinct.0 inv.chain.2;
    distinct = inv.distinct.1;
    page = λ q m. ground (arith, inv.page q);
    zeroed = λ q m.
        ground
          (arith, inv.zeroed q, inv.page q, inv.page x, pa2idx-injective end x q, inv.distinct);
    counted = λ q qp qt m. ground (arith, inv.counted q qp qt);
    int_range = λ i. ground (arith, inv.int_range i);
  }

  -- Allocation hands out the head of the free list as `Allocated` says, and keeps the invariant.
  pub kalloc-Allocated : (l : List ℕ) → IsValid end top k l → Allocated end top k l (kalloc k)
  unfolding kalloc
  kalloc-Allocated [] inv = rw inv.chain (refl, refl)
  kalloc-Allocated (x ∷ l) inv = rw (kalloc-taken k x inv.chain.0 inv.chain.1) (
    refl,
    inv.zeroed x (ground arith),
    (inv.page x (ground arith)).0,
    refl,
    refl,
    taken-IsValid x l inv,
  )
