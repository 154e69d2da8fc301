-- ===== src/Kalloc/Init.antt =====
-- `kinit` and `freerange`: the loop that hands every page above the kernel to the allocator.
use xv6_extended.Base.{
  ℕ, zero, suc, ◌+◌, ◌-◌, ◌/◌, ◌%◌, ◌≤◌, ◌<◌, ◌≡◌, true, List, [], ◌∷◌, some, Option, arith,
  contains, subst, Outcome, done, leb, leb→le, Bool-cases, inl, inr,
}
use xv6_extended.Base.Family.{update, update_self}
use xv6_extended.Memory.{pgsize, kernbase, phystop, pg_round_up}
use xv6_extended.Kalloc.{Kmem, pa2idx, free_one, free_pages, freerange, kinit}
use xv6_extended.Kalloc.Invariant.{IsPage, pa2idx-injective, IsValid}
use xv6_extended.Kalloc.Operations.{kfree-last}

-- Between two rounds of the loop: the pages below `p` are all free.
record Filled (end p : ℕ) (k : Kmem) (l : List ℕ) : Type 0 where
  above : kernbase ≤ end
  aligned : p % pgsize ≡ 0
  low : end ≤ p
  high : p ≤ phystop
  valid : IsValid end p k l
  all_free : (q : ℕ) → IsPage end q → q < p → contains l q ≡ true

module _ {end p : ℕ} {k : Kmem} {l : List ℕ} (f : Filled end p k l)
    (more : p + pgsize ≤ phystop) where
  page_here : IsPage end p
  page_here = record { above = f.above; aligned = f.aligned; low = f.low; high = omega arith }

  -- The page at `p`, with one reference, joins the pages of the allocator.
  claim-IsValid : IsValid end (p + pgsize) (record k { refcnt = update k.refcnt (pa2idx p) 1 }) l
  claim-IsValid = record {
    chain = f.valid.chain;
    distinct = f.valid.distinct;
    page = λ q m. ((f.valid.page q m).0, omega (arith, f.valid.page q m));
    zeroed = λ q m.
        ground (arith, f.valid.zeroed q m, f.valid.page q m, pa2idx-injective end p q page_here);
    counted = λ q qp qt m. ground (arith, f.valid.counted q qp, f.aligned, qp.aligned);
    int_range = λ i. ground (arith, f.valid.int_range i);
  }

  free_one-Filled : (k' : Kmem) × (free_one end p k ≡ done k') × Filled end (p + pgsize) k' (p ∷ l)
  free_one-Filled =
      let (k', ran, valid) =
        kfree-last claim-IsValid p page_here (omega arith) (update_self k.refcnt (pa2idx p) 1) in
      (
        k',
        ran,
        record {
          above = f.above;
          aligned = omega (arith, f.aligned);
          low = omega (arith, f.low);
          high = more;
          valid = valid;
          all_free = λ q qp lt. ground (arith, f.all_free q qp, f.aligned, qp.aligned);
        },
      )

-- What the loop leaves when it stops at PHYSTOP.
abbrev pub AllFree : ℕ → Outcome (Option Kmem) → Type 0
AllFree end r =
    (k : Kmem) × (l : List ℕ) × (r ≡ done (some k))
    × IsValid end phystop k l
    × ((q : ℕ) → IsPage end q → contains l q ≡ true)

free_pages-AllFree :
    (fuel : ℕ) {end p : ℕ} {k : Kmem} {l : List ℕ}
    → Filled end p k l
    → (phystop - p) / pgsize < fuel
    → AllFree end (free_pages end fuel p phystop k)
unfolding free_pages
free_pages-AllFree zero f h = elim h [ ]
free_pages-AllFree (suc fuel) {end} {p} {k} {l} f h = elim (Bool-cases (leb (p + pgsize) phystop)) [
  | inl more ↦
      let fits : p + pgsize ≤ phystop = leb→le (p + pgsize) phystop more in
      let (k', ran, f') = free_one-Filled f fits in
      rw (more, ran) (free_pages-AllFree fuel f' (omega (arith, h, fits)))
  | inr stop ↦
      let top : p ≡ phystop = ground (arith, f.aligned, f.high) in
      (
        k,
        l,
        rw stop,
        subst (λ t. IsValid end t k l) top f.valid,
        λ q qp. f.all_free q qp (omega (arith, qp.high)),
      )
]

-- From an empty free list, with the kernel ending between KERNBASE and PHYSTOP, and fuel for one
-- round a page, `kinit` ends without a panic in a valid state in which every page is free.
pub kinit-AllFree :
    (end fuel : ℕ) (k : Kmem)
    → kernbase ≤ end
    → end ≤ phystop
    → k.freelist ≡ 0
    → (phystop - end) / pgsize < fuel
    → AllFree end (kinit end fuel k)
unfolding kinit freerange
kinit-AllFree end fuel k above below empty h = free_pages-AllFree fuel start (omega arith)
  where
    start : Filled end (pg_round_up end) (record k { refcnt = λ _. 0 }) []
    start = record {
      above = above;
      aligned = omega arith;
      low = omega arith;
      high = omega arith;
      valid = record {
        chain = empty;
        distinct = tt;
        page = λ q m. cc;
        zeroed = λ q m. cc;
        counted = λ q qp qt m. absurd (omega (arith, qp.aligned, qp.low));
        int_range = λ i. omega arith;
      };
      all_free = λ q qp lt. absurd (omega (arith, qp.aligned, qp.low));
    }
