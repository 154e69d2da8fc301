-- ===== src/Vm/Copied.antt =====
-- The copy of a shared page: what memory is like once a write fault has made it.
use xv6_extended.Base.{
  ℕ, ◌+◌, ◌-◌, ◌%◌, ◌<◌, ◌≡◌, ◌≢◌, ◌∙◌, refl, sym, ap, ap₂, subst, true, false, ◌&&◌, List, ◌==◌,
  if◌then◌else◌, arith, has_bit,
}
use xv6_extended.Base.Family.{update, update_self, update_ne}
use xv6_extended.Memory.{pgsize, maxva}
use xv6_extended.Kalloc.{Kmem, pa2idx}
use xv6_extended.Kalloc.Invariant
use xv6_extended.Kalloc.Invariant.{IsPage, IsPage-bad_page, pa2idx-injective}
use xv6_extended.Kalloc.Operations.{recount-IsValid}
use xv6_extended.Vm.{
  Mem, pte2pa, pa2pte, pte_w, pte_cow, pte_flags, is_valid, px, set_word, fill_page,
}
use xv6_extended.Vm.Tables.{Alive, Tables}
use xv6_extended.Vm.Entries.{middle_page, px-lt, last_page, reaches, entry, same_page}
use xv6_extended.Vm.Map.{Mapped, write-Mapped}
use xv6_extended.Vm.Same.{Same, Same-Tables, Same-entry}
use xv6_extended.Vm.Fault.{make_private, copy_page}

-- The entry of a copy of the page of `pte` in the page `x`.
abbrev pub private_pte : ℕ → ℕ → ℕ
private_pte x pte = pa2pte x + make_private (pte_flags pte)

pub make_private-bits :
    (x : ℕ)
    → is_valid x ≡ true
    → (is_valid (make_private x) ≡ true)
      × (has_bit (make_private x) pte_w ≡ true)
      × (has_bit (make_private x) pte_cow ≡ false)
make_private-bits x h = ground (arith, h)

pub private_pte-pa : (x pte : ℕ) → x % pgsize ≡ 0 → pte2pa (private_pte x pte) ≡ x
private_pte-pa x pte h = ground (arith, h)

-- What the fault leaves when it has copied the page to `x`: the entry `pte` of that page alone, in that table
-- alone, now leads to `x`, which holds the bytes of the old page; the old page has one reference fewer.
pub record Copied (end top : ℕ) (place : ℕ → ℕ) (s : Mem) (r c va pte x : ℕ) (rest : List ℕ)
    (s' : Mem) : Type 0 where
  pub leads : pte2pa (private_pte x pte) ≡ x
  pub entries :
      (r0 c0 va0 : ℕ)
      → c0 < 2
      → va0 < maxva
      → Tables end place s r0 c0
      → (c0 ≡ c → r0 ≡ r)
      → entry s' r0 va0
        ≡ (if c0 == c && same_page va0 va then private_pte x pte else entry s r0 va0)
  pub tables : (r0 c0 : ℕ) → c0 < 2 → Tables end place s r0 c0 → Tables end place s' r0 c0
  pub copy : s'.byte x ≡ s.byte (pte2pa pte)
  pub bytes : (p : ℕ) → Alive end s p → s'.byte p ≡ s.byte p
  pub counts :
      s'.kmem.refcnt
      ≡ update
          (update s.kmem.refcnt (pa2idx x) 1)
          (pa2idx (pte2pa pte))
          (s.kmem.refcnt (pa2idx (pte2pa pte)) - 1)
  pub valid : Invariant.IsValid end top s'.kmem rest

-- The state once the page `pa` has been copied to the page `x` that `kalloc` has taken.
abbrev pub copied_to : ℕ → ℕ → Kmem → Mem → Mem
copied_to x pa k s = copy_page x pa (fill_page x 0x0505050505050505 5 (record s { kmem = k }))

-- From there to the end of the fault.
abbrev pub finished : ℕ → ℕ → Kmem → Mem → ℕ → ℕ → ℕ → Mem
finished x pa k s t i v =
    let s2 = set_word t i v (copied_to x pa k s) in
    record s2 {
      kmem = record k { refcnt = update k.refcnt (pa2idx pa) (k.refcnt (pa2idx pa) - 1) };
    }

module _ (end top : ℕ) (place : ℕ → ℕ) (s : Mem) (x : ℕ) (rest : List ℕ) (k : Kmem) (pa : ℕ)
    (page : IsPage end x) (free : s.kmem.refcnt (pa2idx x) ≡ 0)
    (count : k.refcnt ≡ update s.kmem.refcnt (pa2idx x) 1) (inv : Invariant.IsValid end top k rest)
    (old : Alive end s pa) (shared : 1 < s.kmem.refcnt (pa2idx pa)) where
  idx_ne : (p : ℕ) → Alive end s p → pa2idx x ≢ pa2idx p
  idx_ne p a e =
      let zero_count : s.kmem.refcnt (pa2idx p) ≡ 0 = subst (λ y. s.kmem.refcnt y ≡ 0) e free in
      let pos = a.counted in absurd (omega (arith, zero_count, pos))

  ne : (p : ℕ) → Alive end s p → x ≢ p
  ne p a e = idx_ne p a (ap pa2idx e)

  pub same_count : (p : ℕ) → Alive end s p → k.refcnt (pa2idx p) ≡ s.kmem.refcnt (pa2idx p)
  same_count p a =
      ap (λ f. f (pa2idx p)) count ∙ update_ne s.kmem.refcnt (pa2idx x) (pa2idx p) 1 (idx_ne p a)

  copied_to-Same : Same end s (copied_to x pa k s)
  copied_to-Same = record {
    alive = λ p a. record {
      is_page = a.is_page;
      counted = subst (λ n. 0 < n) (sym (same_count p a)) a.counted;
    };
    words = λ p a.
        update_ne (update s.word x (λ _. 0x0505050505050505)) x p
          (update s.word x (λ _. 0x0505050505050505) pa) (ne p a)
        ∙ update_ne s.word x p (λ _. 0x0505050505050505) (ne p a);
  }

  other_bytes : (p : ℕ) → Alive end s p → (copied_to x pa k s).byte p ≡ s.byte p
  other_bytes p a =
      update_ne (update s.byte x (λ _. 5)) x p (update s.byte x (λ _. 5) pa) (ne p a)
      ∙ update_ne s.byte x p (λ _. 5) (ne p a)

  copy_bytes : (copied_to x pa k s).byte x ≡ s.byte pa
  copy_bytes =
      update_self (update s.byte x (λ _. 5)) x (update s.byte x (λ _. 5) pa)
      ∙ update_ne s.byte x pa (λ _. 5) (ne pa old)

  -- Lowering a count above 1 leaves every page in use in use.
  lowered-Same :
      (s2 : Mem)
      → 1 < s2.kmem.refcnt (pa2idx pa)
      → Same end s2 (record s2 {
        kmem = record (s2.kmem) {
          refcnt = update s2.kmem.refcnt (pa2idx pa) (s2.kmem.refcnt (pa2idx pa) - 1);
        };
      })
  lowered-Same s2 many = record {
    alive = λ p a. record { is_page = a.is_page; counted = ground (arith, a.counted, many) };
    words = λ p a. refl;
  }

  pub finished-Copied :
      (r c va pte : ℕ)
      → pa ≡ pte2pa pte
      → c < 2
      → va < maxva
      → Tables end place s r c
      → reaches s r va ≡ true
      → Copied end top place s r c va pte x rest
          (finished x pa k s (last_page s r va) (px 0 va) (private_pte x pte))
  finished-Copied r c va pte at small low t h =
      let s1 : Mem = copied_to x pa k s in
      let t1 = Same-Tables end place s s1 copied_to-Same r c t in
      let m : ℕ = middle_page s r va in
      let valid2 : is_valid (s.word r (px 2 va)) ≡ true = ground (arith, h) in
      let row : s1.word r ≡ s.word r = copied_to-Same.words r t.root.1 in
      let mid : s1.word m ≡ s.word m =
        copied_to-Same.words m (t.middle (px 2 va) (px-lt 2 va) valid2).1 in
      let leaf : last_page s1 r va ≡ last_page s r va =
        ap (λ f. pte2pa (s1.word (pte2pa (f (px 2 va))) (px 1 va))) row
        ∙ ap (λ f. pte2pa (f (px 1 va))) mid in
      let h1 : reaches s1 r va ≡ true =
        ap (λ f. is_valid (f (px 2 va)) && is_valid (s1.word (pte2pa (f (px 2 va))) (px 1 va))) row
        ∙ ap (λ f. is_valid (s.word r (px 2 va)) && is_valid (f (px 1 va))) mid
        ∙ h in
      let v : ℕ = private_pte x pte in
      let s2 : Mem = set_word (last_page s r va) (px 0 va) v s1 in
      let w : Mapped end place s1 r c va v place s2 =
        subst (λ q. Mapped end place s1 r c va v place (set_word q (px 0 va) v s1)) leaf
          (write-Mapped end place s1 r c va v small low t1 h1) in
      let many : 1 < k.refcnt (pa2idx pa) = subst (λ n. 1 < n) (sym (same_count pa old)) shared in
      let low_s = lowered-Same s2 many in
      record {
        leads = private_pte-pa x pte page.aligned;
        entries = λ r0 c0 va0 h0 l0 t0 one.
            let t01 = Same-Tables end place s s1 copied_to-Same r0 c0 t0 in
            Same-entry end place s2 (finished x pa k s (last_page s r va) (px 0 va) v) low_s r0 c0
              (w.tables r0 c0 h0 t01) va0
            ∙ w.entries r0 c0 va0 h0 l0 t01 one
            ∙ ap (λ e. if c0 == c && same_page va0 va then v else e)
                (Same-entry end place s s1 copied_to-Same r0 c0 t0 va0);
        tables = λ r0 c0 h0 t0.
            Same-Tables end place s2 (finished x pa k s (last_page s r va) (px 0 va) v) low_s r0 c0
              (w.tables r0 c0 h0 (Same-Tables end place s s1 copied_to-Same r0 c0 t0));
        copy = copy_bytes ∙ ap s.byte at;
        bytes = other_bytes;
        counts =
            ap₂ (λ f n. update f (pa2idx pa) (n - 1)) count (same_count pa old)
            ∙ ap
                (λ p.
                  update (update s.kmem.refcnt (pa2idx x) 1) (pa2idx p)
                    (s.kmem.refcnt (pa2idx p) - 1))
                at;
        valid =
            recount-IsValid inv pa (k.refcnt (pa2idx pa) - 1) old.is_page (omega (arith, many))
              (ground (arith, inv.int_range (pa2idx pa))) (omega (arith, many));
      }
