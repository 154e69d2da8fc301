-- ===== src/Vm/Walked.antt =====
-- `walk` as a whole: it finds or makes the tables of an address and changes no entry.
use xv6_extended.Base.{
  ℕ, ◌<◌, ◌≡◌, ◌≢◌, ◌⊎◌, ◌∙◌, refl, sym, ap, ap₂, subst, inl, inr, Bool, true, false, ◌&&◌, Option,
  some, none, List, [], leb, arith, done,
}
use xv6_extended.Memory.{maxva}
use xv6_extended.Kalloc.Invariant
use xv6_extended.Kalloc.Invariant.{IsPage}
use xv6_extended.Vm.{Mem, pte2pa, is_valid, px, next_table, follow, walk_levels, walk}
use xv6_extended.Vm.Tables.{child, Tables}
use xv6_extended.Vm.Entries.{middle_page, last_page, reaches, px-lt}
use xv6_extended.Vm.Walk.{Extends, Extends-trans, Grown, next_table-Grown}

-- What `walk` with `alloc` set has done, and where it found the entry; it fails only if no page is free.
pub record Walked (end top : ℕ) (place : ℕ → ℕ) (s : Mem) (r va : ℕ) (w : Option (ℕ × ℕ) × Mem)
    : Type 0 where
  pub after : ℕ → ℕ
  pub free : List ℕ
  pub valid : Invariant.IsValid end top w.1.kmem free
  pub extends : Extends end place s after w.1
  pub outcome :
      ((w.0 ≡ none) × (free ≡ []))
      ⊎ ((w.0 ≡ some (last_page w.1 r va, px 0 va)) × (reaches w.1 r va ≡ true))

module _ (end top : ℕ) (place : ℕ → ℕ) (s : Mem) (l : List ℕ) (r c va : ℕ) (small : c < 2)
    (t : Tables end place s r c) (inv : Invariant.IsValid end top s.kmem l) where
  -- The second round, behind a first one that has found or made the middle table.
  second-Walked :
      (g : Grown end top place s r (px 2 va) (next_table r (px 2 va) true s))
      → let s1 = (next_table r (px 2 va) true s).1 in
        is_valid (s1.word r (px 2 va)) ≡ true
        → Walked end top place s r va (walk_levels 1 (middle_page s1 r va) va true s1)
  unfolding walk_levels
  second-Walked g valid1 =
      let s1 : Mem = (next_table r (px 2 va) true s).1 in
      let m : ℕ = middle_page s1 r va in
      let t1 = g.extends.tables r c small t in
      let tm = t1.middle (px 2 va) (px-lt 2 va) valid1 in
      let g2 =
        next_table-Grown end top g.after s1 g.free m (px 1 va) g.valid tm.1 (omega (arith, tm.0)) in
      let s2 : Mem = (next_table m (px 1 va) true s1).1 in
      let both = Extends-trans end place g.after g2.after s s1 s2 g.extends g2.extends in
      elim g2.outcome [
        | inl (e, full) ↦
            subst (Walked end top place s r va)
              (sym (ap (λ o. follow (λ n u. walk_levels 0 n va true u) (o, s2)) e))
              (record {
                after = g2.after;
                free = g2.free;
                valid = g2.valid;
                extends = both;
                outcome = inl (refl, full);
              })
        | inr (e, valid2) ↦
            let apart : r ≢ m = λ same.
              let at_m : g.after r ≡ child c (px 2 va) = ap g.after same ∙ tm.0 in
              absurd (omega (arith, t1.root.0, at_m)) in
            let same_row : s2.word r ≡ s1.word r = g2.elsewhere r t1.root.1 apart in
            let same_middle : middle_page s2 r va ≡ m = ap (λ f. pte2pa (f (px 2 va))) same_row in
            subst (Walked end top place s r va)
              (sym (ap (λ o. follow (λ n u. walk_levels 0 n va true u) (o, s2)) e))
              (record {
                after = g2.after;
                free = g2.free;
                valid = g2.valid;
                extends = both;
                outcome = inr (
                  ap (λ x. some (pte2pa (s2.word x (px 1 va)), px 0 va)) (sym same_middle),
                  ap₂ ◌&&◌ (ap (λ f. is_valid (f (px 2 va))) same_row ∙ valid1)
                      (ap (λ x. is_valid (s2.word x (px 1 va))) same_middle ∙ valid2),
                );
              })
      ]

  pub walk_levels-Walked : Walked end top place s r va (walk_levels 2 r va true s)
  unfolding walk_levels
  walk_levels-Walked =
      let g =
        next_table-Grown end top place s l r (px 2 va) inv t.root.1 (omega (arith, t.root.0)) in
      let s1 : Mem = (next_table r (px 2 va) true s).1 in
      elim g.outcome [
        | inl (e, full) ↦
            subst (Walked end top place s r va)
              (sym (ap (λ o. follow (λ n u. walk_levels 1 n va true u) (o, s1)) e))
              (record {
                after = g.after;
                free = g.free;
                valid = g.valid;
                extends = g.extends;
                outcome = inl (refl, full);
              })
        | inr (e, valid1) ↦
            subst (Walked end top place s r va)
              (sym (ap (λ o. follow (λ n u. walk_levels 1 n va true u) (o, s1)) e))
              (second-Walked g valid1)
      ]

pub walk_below :
    (r va : ℕ) (alloc : Bool) (s : Mem)
    → va < maxva
    → walk r va alloc s ≡ done (walk_levels 2 r va alloc s)
unfolding walk
walk_below r va alloc s h = let e : leb maxva va ≡ false = ground (arith, h) in rw e refl
