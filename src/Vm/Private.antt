-- ===== src/Vm/Private.antt =====
-- A write fault on a page that a fork has shared: `vmfault` makes a private copy, or takes the page over.
use xv6_extended.Base.{
  ℕ, ◌^◌, ◌<◌, ◌≡◌, ◌≢◌, ◌⊎◌, ◌∙◌, refl, sym, ap, ap₂, subst, inl, inr, Bool, true, false, ◌&&◌,
  some, none, List, [], ◌∷◌, ◌==◌, if◌then◌else◌, Bool-cases, arith, has_bit, done,
}
use xv6_extended.Memory.{maxva, pg_round_down}
use xv6_extended.Proc.{Vma}
use xv6_extended.Kalloc.{Kmem, pa2idx, kalloc}
use xv6_extended.Kalloc.Invariant
use xv6_extended.Kalloc.Invariant.{IsPage, IsPage-bad_page, pa2idx-injective}
use xv6_extended.Kalloc.Operations.{Allocated, krefcnt-page, kalloc-Allocated, kfree-shared}
use xv6_extended.Vm.{Mem, pte2pa, pte_cow, is_valid, px, set_word, page_alloc, page_free, walk}
use xv6_extended.Vm.Tables.{Alive, Tables}
use xv6_extended.Vm.Entries.{last_page, reaches, entry, walk_levels-reaches}
use xv6_extended.Vm.Walked.{walk_below}
use xv6_extended.Vm.Map.{Mapped, write-Mapped, entry-reaches}
use xv6_extended.Vm.Fault.{Files, make_private, cow_fault, fault_at, vmfault}
use xv6_extended.Vm.Copied.{private_pte, Copied, finished, finished-Copied, same_count}

-- A valid entry has its tables.
pub reaches_of_valid : (s : Mem) (r va : ℕ) → is_valid (entry s r va) ≡ true → reaches s r va ≡ true
reaches_of_valid s r va h =
    go (is_valid (s.word r (px 2 va))) (is_valid (s.word (pte2pa (s.word r (px 2 va))) (px 1 va))) h
  where
    go :
        (b2 b1 : Bool)
        → is_valid (if b2 then (if b1 then s.word (last_page s r va) (px 0 va) else 0) else 0)
          ≡ true
        → (b2 && b1) ≡ true
    go true true h = refl
    go true false h = ground (arith, h)
    go false b1 h = ground (arith, h)

-- What the fault at the entry `pte` leaves: the page itself if it had one owner; 0 if no page was free; else a copy.
abbrev pub CowResult : ℕ → ℕ → (ℕ → ℕ) → Mem → List ℕ → ℕ → ℕ → ℕ → ℕ → ℕ × Mem → Type 0
CowResult end top place s l r c va pte (pa, s') =
    ((s.kmem.refcnt (pa2idx (pte2pa pte)) ≡ 1)
      × (pa ≡ pte2pa pte)
      × (s'.kmem ≡ s.kmem)
      × Mapped end place s r c va (make_private pte) place s')
    ⊎ ((1 < s.kmem.refcnt (pa2idx (pte2pa pte))) × (l ≡ []) × (pa ≡ 0) × (s' ≡ s))
    ⊎ ((1 < s.kmem.refcnt (pa2idx (pte2pa pte)))
        × (x : ℕ) × (rest : List ℕ) × (l ≡ x ∷ rest)
        × (pa ≡ x)
        × (s.kmem.refcnt (pa2idx x) ≡ 0)
        × Copied end top place s r c va pte x rest s')

module _ (end : ℕ) (s : Mem) (t i : ℕ) (page : IsPage end (pte2pa (s.word t i))) where
  cow_fault-alone :
      s.kmem.refcnt (pa2idx (pte2pa (s.word t i))) ≡ 1
      → cow_fault end t i s ≡ done (pte2pa (s.word t i), set_word t i (make_private (s.word t i)) s)
  unfolding cow_fault
  cow_fault-alone one = rw (krefcnt-page end (pte2pa (s.word t i)) s.kmem page, one) refl

  cow_fault-full :
      1 < s.kmem.refcnt (pa2idx (pte2pa (s.word t i)))
      → kalloc s.kmem ≡ (0, s.kmem)
      → cow_fault end t i s ≡ done (0, s)
  unfolding cow_fault page_alloc
  cow_fault-full many none_left =
      let not_one : (s.kmem.refcnt (pa2idx (pte2pa (s.word t i))) == 1) ≡ false =
        ground (arith, many) in
      rw (krefcnt-page end (pte2pa (s.word t i)) s.kmem page, not_one, none_left) refl

  cow_fault-copy :
      (x : ℕ) (k : Kmem)
      → 1 < s.kmem.refcnt (pa2idx (pte2pa (s.word t i)))
      → kalloc s.kmem ≡ (x, k)
      → x ≢ 0
      → 1 < k.refcnt (pa2idx (pte2pa (s.word t i)))
      → k.refcnt (pa2idx (pte2pa (s.word t i))) < 2 ^ 31
      → cow_fault end t i s
        ≡ done (x, finished x (pte2pa (s.word t i)) k s t i (private_pte x (s.word t i)))
  unfolding cow_fault page_alloc page_free
  cow_fault-copy x k many taken some_left many_k small =
      let pa : ℕ = pte2pa (s.word t i) in
      let not_one : (s.kmem.refcnt (pa2idx pa) == 1) ≡ false = ground (arith, many) in
      let not_one_k : (k.refcnt (pa2idx pa) == 1) ≡ false = ground (arith, many_k) in
      let not_zero : (x == 0) ≡ false = ground (arith, some_left) in
      rw
        (
          krefcnt-page end pa s.kmem page,
          not_one,
          taken,
          not_zero,
          not_zero,
          not_one_k,
          kfree-shared end pa k page many_k small,
        )
        refl

module _ (end top : ℕ) (place : ℕ → ℕ) (s : Mem) (l : List ℕ) (r c va : ℕ) (small : c < 2)
    (low : va < maxva) (t : Tables end place s r c) (inv : Invariant.IsValid end top s.kmem l)
    (h : reaches s r va ≡ true) where
  abbrev leaf_page : ℕ
  leaf_page = last_page s r va

  abbrev leaf_index : ℕ
  leaf_index = px 0 va

  abbrev leaf_pte : ℕ
  leaf_pte = s.word (last_page s r va) (px 0 va)

  -- The copy, from what `kalloc` gives.
  copy-CowResult :
      Alive end s (pte2pa leaf_pte)
      → 1 < s.kmem.refcnt (pa2idx (pte2pa leaf_pte))
      → (x : ℕ) (k : Kmem) → kalloc s.kmem ≡ (x, k)
      → Allocated end top s.kmem l (x, k)
      → (w : ℕ × Mem) × (cow_fault end leaf_page leaf_index s ≡ done w)
        × CowResult end top place s l r c va leaf_pte w
  copy-CowResult old many x k taken a = go l refl a
    where
      go :
          (l0 : List ℕ)
          → l ≡ l0
          → Allocated end top s.kmem l0 (x, k)
          → (w : ℕ × Mem) × (cow_fault end leaf_page leaf_index s ≡ done w)
            × CowResult end top place s l r c va leaf_pte w
      go [] e (zero_page, same) = (
        (0, s),
        cow_fault-full end s leaf_page leaf_index old.is_page many
            (taken ∙ ap₂ (λ p q. (p, q)) zero_page same),
        inr (inl (many, e, refl, refl)),
      )
      go (y ∷ rest) e (at, free, page, count, fill, valid) =
          let pa : ℕ = pte2pa leaf_pte in
          let same = same_count end top place s y rest k pa page free count valid old many pa old in
          let many_k : 1 < k.refcnt (pa2idx pa) = omega (arith, same, many) in
          let not_null : y ≢ 0 = λ z. absurd (omega (arith, z, page.low, page.above)) in
          (
            (y, finished y pa k s leaf_page leaf_index (private_pte y leaf_pte)),
            cow_fault-copy end s leaf_page leaf_index old.is_page y k many
                (taken ∙ ap (λ p. (p, k)) at) not_null many_k (valid.int_range (pa2idx pa)),
            inr (
                inr (
                  many,
                  y,
                  rest,
                  e,
                  refl,
                  free,
                  finished-Copied end top place s y rest k pa page free count valid old many r c va
                      leaf_pte refl small low t h,
                )),
          )

  cow_fault-CowResult :
      Alive end s (pte2pa leaf_pte)
      → (w : ℕ × Mem) × (cow_fault end leaf_page leaf_index s ≡ done w)
        × CowResult end top place s l r c va leaf_pte w
  cow_fault-CowResult old = elim (Bool-cases (s.kmem.refcnt (pa2idx (pte2pa leaf_pte)) == 1)) [
    | inl alone ↦
        let one : s.kmem.refcnt (pa2idx (pte2pa leaf_pte)) ≡ 1 = ground (arith, alone) in
        (
          (pte2pa leaf_pte, set_word leaf_page leaf_index (make_private leaf_pte) s),
          cow_fault-alone end s leaf_page leaf_index old.is_page one,
          inl (
            one,
            refl,
            refl,
            write-Mapped end place s r c va (make_private leaf_pte) small low t h,
          ),
        )
    | inr several ↦
        copy-CowResult old (ground (arith, several, old.counted)) (kalloc s.kmem).0
          (kalloc s.kmem).1 refl (kalloc-Allocated l inv)
  ]

-- A write fault at an address below MAXVA whose page is mapped copy-on-write, to a page in use, on valid page
-- tables and a valid allocator, returns. If the page has one owner, that takes it over: the fault gives the
-- same page, makes its entry writable and no longer copy-on-write, and leaves the allocator alone. If it has
-- more and no page is free, the fault gives 0 and changes nothing. Else it gives a page that was free, whose
-- bytes are those of the shared page; the entry leads to it, no other entry of this or another table has
-- changed, no page in use has other bytes than before, the shared page has one owner fewer, and the
-- allocator is valid.
pub vmfault-CowResult :
    (end top : ℕ) (place : ℕ → ℕ) (s : Mem) (l : List ℕ) (r c addr : ℕ) (files : Files) (sz : ℕ)
    (vmas : List Vma)
    → c < 2
    → addr < maxva
    → Tables end place s r c
    → Invariant.IsValid end top s.kmem l
    → is_valid (entry s r (pg_round_down addr)) ≡ true
    → has_bit (entry s r (pg_round_down addr)) pte_cow ≡ true
    → Alive end s (pte2pa (entry s r (pg_round_down addr)))
    → (w : ℕ × Mem) × (vmfault end files sz vmas r addr false s ≡ done w)
      × CowResult end top place s l r c (pg_round_down addr) (entry s r (pg_round_down addr)) w
unfolding vmfault fault_at
vmfault-CowResult end top place s l r c addr files sz vmas small high t inv valid cow old =
    let va : ℕ = pg_round_down addr in
    let low : va < maxva = omega (arith, high) in
    let h = reaches_of_valid s r va valid in
    let e = entry-reaches s r va h in
    let found_it : walk r va false s ≡ done (some (last_page s r va, px 0 va), s) =
      walk_below r va false s low
      ∙ ap done (walk_levels-reaches r va s)
      ∙ ap (λ b. done ((if b then some (last_page s r va, px 0 va) else none), s)) h in
    let valid0 : is_valid (s.word (last_page s r va) (px 0 va)) ≡ true =
      ap is_valid (sym e) ∙ valid in
    let cow0 : has_bit (s.word (last_page s r va) (px 0 va)) pte_cow ≡ true =
      ap (λ p. has_bit p pte_cow) (sym e) ∙ cow in
    let g =
      cow_fault-CowResult end top place s l r c va small low t inv h
        (subst (λ p. Alive end s (pte2pa p)) e old) in
    (
      g.0,
      rw (found_it, valid0, cow0) g.1,
      subst (λ p. CowResult end top place s l r c va p g.0) (sym e) g.2,
    )
