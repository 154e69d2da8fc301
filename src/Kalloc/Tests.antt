-- ===== src/Kalloc/Tests.antt =====
-- The allocator at concrete states.
use xv6_extended.Base.{ℕ, ◌+◌, ◌^◌, ◌<◌, ◌≡◌, refl, [], ◌∷◌, some, arith, done, panic}
use xv6_extended.Base.Family.{update}
use xv6_extended.Memory.{phystop, kernbase}
use xv6_extended.Kalloc.{
  Kmem, pa2idx, count_runs, kalloc, kfree, krefinc, kinit, free_pages, kfreepages,
}
use xv6_extended.Kalloc.Invariant.{IsPage, IsValid}
use xv6_extended.Kalloc.Operations.{Allocated, kfree-IsValid, krefinc-IsValid, kalloc-Allocated}
use xv6_extended.Kalloc.Init.{AllFree, kinit-AllFree}
use xv6_extended.Kalloc.Sharing.{kfree_times, kalloc-kfree, kfree_times_lem}

abbrev page : ℕ
page = kernbase + 0x3000

-- Every page has `n` owners.
abbrev owned : ℕ → Kmem
owned n = record { freelist = 0; next = λ _. 0; fill = λ _. 0; refcnt = λ _. n }

abbrev blank : Kmem
blank = owned 0

page-IsPage : IsPage kernbase page
page-IsPage = omega arith

owned-IsValid : (n : ℕ) → 0 < n → n < 2 ^ 31 → IsValid kernbase phystop (owned n) []
owned-IsValid n pos small = record {
  chain = refl;
  distinct = tt;
  page = λ q m. cc;
  zeroed = λ q m. cc;
  counted = λ q qp qt m. pos;
  int_range = λ i. small;
}

-- One page, alone on the free list.
abbrev one_free : Kmem
one_free = record {
  freelist = page;
  next = λ _. 0;
  fill = λ _. 1;
  refcnt = update (λ _. 1) (pa2idx page) 0;
}

one_free-IsValid : IsValid kernbase phystop one_free (page ∷ [])
one_free-IsValid = record {
  chain = (refl, omega arith, refl);
  distinct = (refl, tt);
  page = λ q m. ground (arith, page-IsPage);
  zeroed = λ q m. ground arith;
  counted = λ q qp qt m. ground (arith, qp.aligned, qp.low, qp.high);
  int_range = λ i. ground arith;
}

-- Three pages: the kernel ends at 0x80000000 and the range at 0x80003000.
three_pages :
    (k : Kmem) × (free_pages kernbase 4 kernbase (kernbase + 0x3000) blank ≡ done (some k))
    × (kfreepages 4 k ≡ some 3)
unfolding free_pages kfree kfreepages count_runs
three_pages = (_, refl, refl)

kfree-IsValid_example :
    (k' : Kmem) × (kfree kernbase page (owned 1) ≡ done k')
    × IsValid kernbase phystop k' (page ∷ [])
    × (k'.refcnt ≡ update (λ _. 1) (pa2idx page) 0)
kfree-IsValid_example =
    kfree-IsValid (owned-IsValid 1 (omega arith) (omega arith)) page page-IsPage (omega arith)
      (omega arith)

krefinc-IsValid_example :
    (k' : Kmem) × (krefinc kernbase page (owned 1) ≡ done k')
    × IsValid kernbase phystop k' []
    × (k' ≡ record (owned 1) { refcnt = update (λ _. 1) (pa2idx page) 2 })
krefinc-IsValid_example =
    krefinc-IsValid (owned-IsValid 1 (omega arith) (omega arith)) page page-IsPage (omega arith)
      (omega arith)

kalloc-Allocated_example : Allocated kernbase phystop one_free (page ∷ []) (kalloc one_free)
kalloc-Allocated_example = kalloc-Allocated (page ∷ []) one_free-IsValid

kinit-AllFree_example : AllFree (kernbase + 0x21000) (kinit (kernbase + 0x21000) 40000 blank)
kinit-AllFree_example =
    kinit-AllFree (kernbase + 0x21000) 40000 blank (omega arith) (omega arith) refl (omega arith)

kalloc-kfree_example :
    (k' : Kmem) × (kfree kernbase page (owned 1) ≡ done k') × ((kalloc k').0 ≡ page)
kalloc-kfree_example =
    kalloc-kfree (owned-IsValid 1 (omega arith) (omega arith)) page page-IsPage (omega arith) refl

kfree_times_lem_example :
    (k1 k2 : Kmem) × (kfree_times 2 kernbase page (owned 3) ≡ done k1)
    × IsValid kernbase phystop k1 []
    × (k1.refcnt (pa2idx page) ≡ 1)
    × (kfree kernbase page k1 ≡ done k2)
    × IsValid kernbase phystop k2 (page ∷ [])
    × (kfree kernbase page k2 ≡ panic)
kfree_times_lem_example =
    kfree_times_lem 2 (owned-IsValid 3 (omega arith) (omega arith)) page page-IsPage (omega arith)
      refl
