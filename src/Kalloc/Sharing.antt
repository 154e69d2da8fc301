-- ===== src/Kalloc/Sharing.antt =====
-- Pages with several owners, as copy-on-write makes them: references come and go in pairs, and a
-- page is handed out again only after its last owner has freed it.
use xv6_extended.Base.{
  ℕ, zero, suc, ◌+◌, ◌-◌, ◌^◌, ◌<◌, ◌≡◌, refl, ap, ◌∙◌, fun_ext, true, List, ◌∷◌, arith, contains,
  Outcome, done, panic, ◌>>=◌,
}
use xv6_extended.Base.Family.{update, update_self}
use xv6_extended.Kalloc.{Kmem, pa2idx, kalloc, kfree, krefinc}
use xv6_extended.Kalloc.Invariant.{IsPage, IsPage-bad_page, IsValid}
use xv6_extended.Kalloc.Operations.{
  recount-IsValid, kfree-shared, kfree-last, krefinc-IsValid, kalloc-Allocated,
}

-- `n` owners free the page, one after the other.
abbrev pub kfree_times : ℕ → ℕ → ℕ → Kmem → Outcome Kmem
kfree_times zero end pa k = done k
kfree_times (suc n) end pa k = kfree end pa k >>= kfree_times n end pa

update-update_back : (f : ℕ → ℕ) (i v w : ℕ) → w ≡ f i → update (update f i v) i w ≡ f
update-update_back f i v w e = fun_ext λ j. ground (arith, e)

module _ {end top : ℕ} {k : Kmem} {l : List ℕ} (inv : IsValid end top k l) (pa : ℕ) where
  -- Freeing a page that is on the free list panics.
  pub kfree-free : contains l pa ≡ true → kfree end pa k ≡ panic
  unfolding kfree
  kfree-free m = ground (arith, inv.zeroed pa m, IsPage-bad_page end pa (inv.page pa m).0)

  -- A new reference that is freed again leaves the allocator as it was.
  pub krefinc-kfree :
      IsPage end pa
      → 0 < k.refcnt (pa2idx pa)
      → k.refcnt (pa2idx pa) + 1 < 2 ^ 31
      → (krefinc end pa k >>= kfree end pa) ≡ done k
  krefinc-kfree pg pos small =
      let (k', ran, valid, e) = krefinc-IsValid inv pa pg pos small in
      let n : ℕ = k.refcnt (pa2idx pa) in
      let here : k'.refcnt (pa2idx pa) ≡ n + 1 = rw e (update_self k.refcnt (pa2idx pa) (n + 1)) in
      rw ran (
        kfree-shared end pa k' pg (omega (arith, here)) (omega (arith, here))
        ∙ rw e (
            ap (λ f. done (record k { refcnt = f }))
              (update-update_back k.refcnt (pa2idx pa) (n + 1) _
                (rw (update_self k.refcnt (pa2idx pa) (n + 1)) (omega arith)))))

  -- The page whose last reference is freed is the one that the next allocation hands out.
  pub kalloc-kfree :
      IsPage end pa
      → pa < top
      → k.refcnt (pa2idx pa) ≡ 1
      → (k' : Kmem) × (kfree end pa k ≡ done k') × ((kalloc k').0 ≡ pa)
  kalloc-kfree pg lt one =
      let (k', ran, valid) = kfree-last inv pa pg lt one in
      (k', ran, (kalloc-Allocated (pa ∷ l) valid).0)

-- Of `n + 1` owners, the first `n` to free a page leave it allocated, with one reference, and the
-- free list as it was; when the last has freed it, it is on the free list, and one more call panics.
pub kfree_times_lem :
    (n : ℕ) {end top : ℕ} {k : Kmem} {l : List ℕ}
    → IsValid end top k l
    → (pa : ℕ) → IsPage end pa
    → pa < top
    → k.refcnt (pa2idx pa) ≡ suc n
    → (k1 k2 : Kmem) × (kfree_times n end pa k ≡ done k1)
      × IsValid end top k1 l
      × (k1.refcnt (pa2idx pa) ≡ 1)
      × (kfree end pa k1 ≡ done k2)
      × IsValid end top k2 (pa ∷ l)
      × (kfree end pa k2 ≡ panic)
kfree_times_lem zero {k} inv pa pg lt e =
    let (k2, ran, valid) = kfree-last inv pa pg lt e in
    (k, k2, refl, inv, e, ran, valid, kfree-free valid pa (ground arith))
kfree_times_lem (suc n) {end} {top} {k} {l} inv pa pg lt e =
    let k' = record k { refcnt = update k.refcnt (pa2idx pa) (k.refcnt (pa2idx pa) - 1) } in
    let ran : kfree end pa k ≡ done k' =
      kfree-shared end pa k pg (omega arith) (inv.int_range (pa2idx pa)) in
    let valid : IsValid end top k' l =
      recount-IsValid inv pa (k.refcnt (pa2idx pa) - 1) pg (omega arith)
        (omega (arith, inv.int_range (pa2idx pa))) (omega arith) in
    rw ran (
      kfree_times_lem n valid pa pg lt
        (rw (update_self k.refcnt (pa2idx pa) (k.refcnt (pa2idx pa) - 1)) (omega arith)))
