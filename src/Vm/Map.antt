-- ===== src/Vm/Map.antt =====
-- `mappages` for one page, as page faults and fork use it.
use xv6_extended.Base.{
  ◌||◌, ◌>>=◌, ℕ, ◌/◌, ◌%◌, ◌≤◌, ◌<◌, ◌≡◌, ◌⊎◌, ◌∙◌, refl, sym, ap, ap₂, subst, inl, inr, Bool,
  true, false, not, ◌&&◌, List, [], ◌==◌, if◌then◌else◌, Bool-cases, arith, Outcome, done, panic,
}
use xv6_extended.Memory.{pgsize, maxva}
use xv6_extended.Kalloc.Invariant
use xv6_extended.Kalloc.Invariant.{IsPage}
use xv6_extended.Vm.{Mem, pte2pa, is_valid, px, set_word, walk_levels}
use xv6_extended.Vm.Tables.{Alive, child, Tables, Kept, Changes-Tables}
use xv6_extended.Vm.Entries.{middle_page, last_page, reaches, entry}
use xv6_extended.Vm.{new_pte, map_one, map_pages, mappages}
use xv6_extended.Vm.Entries.{same_page}
use xv6_extended.Vm.Leaf.{last_page-Alive, write-Changes, entry-write}
use xv6_extended.Vm.Walk.{Extends}
use xv6_extended.Vm.Walked.{walk_levels-Walked, walk_below}

-- The entry for an address that has its tables.
pub entry-reaches :
    (s : Mem) (r va : ℕ)
    → reaches s r va ≡ true
    → entry s r va ≡ s.word (last_page s r va) (px 0 va)
entry-reaches s r va h =
    go (is_valid (s.word r (px 2 va))) (is_valid (s.word (middle_page s r va) (px 1 va))) h
  where
    go :
        (b2 b1 : Bool)
        → (b2 && b1) ≡ true
        → (if b2 then (if b1 then s.word (last_page s r va) (px 0 va) else 0) else 0)
          ≡ s.word (last_page s r va) (px 0 va)
    go true true h = refl
    go true false h = cc h
    go false b1 h = cc h

-- The state `s'` with one entry more than `s`: `v` at the page of `va` in the table `r`. All other entries of
-- all tables are as before, and so are the pages in use.
pub record Mapped (end : ℕ) (place : ℕ → ℕ) (s : Mem) (r c va v : ℕ) (place' : ℕ → ℕ) (s' : Mem)
    : Type 0 where
  pub kept : (p : ℕ) → Alive end s p → Kept end s s' p
  pub tables : (r0 c0 : ℕ) → c0 < 2 → Tables end place s r0 c0 → Tables end place' s' r0 c0
  pub entries :
      (r0 c0 va0 : ℕ)
      → c0 < 2
      → va0 < maxva
      → Tables end place s r0 c0
      → (c0 ≡ c → r0 ≡ r)
      → entry s' r0 va0 ≡ (if c0 == c && same_page va0 va then v else entry s r0 va0)

-- The test whether the entry at these indices is the entry `k` of the page `q`.
abbrev hit_at : Mem → ℕ → ℕ → ℕ → ℕ → ℕ → ℕ → Bool
hit_at s q k r i2 i1 i0 =
    (is_valid (s.word r i2) && is_valid (s.word (pte2pa (s.word r i2)) i1))
    && (pte2pa (s.word (pte2pa (s.word r i2)) i1) == q && i0 == k)

-- It is that of an address exactly if the table and the page are the same.
hit-same_page :
    (end : ℕ) (place : ℕ → ℕ) (s : Mem) (r c va r0 c0 va0 : ℕ)
    → c < 2
    → va < maxva
    → c0 < 2
    → va0 < maxva
    → Tables end place s r c
    → reaches s r va ≡ true
    → Tables end place s r0 c0
    → (c0 ≡ c → r0 ≡ r)
    → hit_at s (last_page s r va) (px 0 va) r0 (px 2 va0) (px 1 va0) (px 0 va0)
      ≡ (c0 == c && same_page va0 va)
hit-same_page end place s r c va r0 c0 va0 small low small0 low0 t h t0 one =
    elim (Bool-cases hit) [
      | inl yes_hit ↦
          let deep0 : reaches s r0 va0 ≡ true = ground (arith, yes_hit) in
          let same_last : last_page s r0 va0 ≡ last_page s r va = ground (arith, yes_hit) in
          let same0 : px 0 va0 ≡ px 0 va = ground (arith, yes_hit) in
          let a = last_page-Alive end place s r c va t h in
          let a0 = last_page-Alive end place s r0 c0 va0 t0 deep0 in
          let codes : child (child c0 (px 2 va0)) (px 1 va0) ≡ child (child c (px 2 va)) (px 1 va) =
            sym a0.0 ∙ ap place same_last ∙ a.0 in
          let same_c : (c0 == c) ≡ true = ground (arith, codes) in
          let page : same_page va0 va ≡ true = ground (arith, codes, same0, low, low0) in
          yes_hit ∙ sym (ap₂ ◌&&◌ same_c page)
      | inr miss ↦ elim (Bool-cases (c0 == c && same_page va0 va)) [
        | inr apart ↦ miss ∙ sym apart
        | inl same ↦
            let same_c : c0 ≡ c = ground (arith, same) in
            let page : va0 / pgsize ≡ va / pgsize = ground (arith, same) in
            let e2 : px 2 va ≡ px 2 va0 = omega (arith, page) in
            let e1 : px 1 va ≡ px 1 va0 = omega (arith, page) in
            let e0 : px 0 va ≡ px 0 va0 = omega (arith, page) in
            let there : hit ≡ true =
              subst (λ x. hit_at s q k x (px 2 va0) (px 1 va0) (px 0 va0) ≡ true) (sym (one same_c))
                (subst (λ x. hit_at s q k r x (px 1 va0) (px 0 va0) ≡ true) e2
                  (subst (λ x. hit_at s q k r (px 2 va) x (px 0 va0) ≡ true) e1
                    (subst (λ x. hit_at s q k r (px 2 va) (px 1 va) x ≡ true) e0
                      (ap₂ ◌&&◌ h (ground arith))))) in
            there ∙ sym same
      ]
    ]
  where
    q : ℕ
    q = last_page s r va

    k : ℕ
    k = px 0 va

    hit : Bool
    hit = hit_at s q k r0 (px 2 va0) (px 1 va0) (px 0 va0)

-- A write to the entry of an address that has its tables.
pub write-Mapped :
    (end : ℕ) (place : ℕ → ℕ) (s : Mem) (r c va v : ℕ)
    → c < 2
    → va < maxva
    → Tables end place s r c
    → reaches s r va ≡ true
    → Mapped end place s r c va v place (set_word (last_page s r va) (px 0 va) v s)
write-Mapped end place s r c va v small low t h =
    let q : ℕ = last_page s r va in
    let a = last_page-Alive end place s r c va t h in
    let deep : 1026 ≤ place q = omega (arith, a.0) in
    let ch = write-Changes end place s q (px 0 va) v deep in
    record {
      kept = ch.kept;
      tables = λ r0 c0 h0 t0.
          Changes-Tables end place place s (set_word q (px 0 va) v s) q (px 0 va) ch r0 c0 h0 t0;
      entries = λ r0 c0 va0 h0 l0 t0 one.
          entry-write end place s q (px 0 va) v r0 c0 va0 h0 t0 deep
          ∙ ap (λ b. if b then v else entry s r0 va0)
              (hit-same_page end place s r c va r0 c0 va0 small low h0 l0 t h t0 one);
    }

-- What `mappages` has done for one page: the entry is there, or, if no page was free for a table, no
-- entry has changed.
pub record MapResult (end top : ℕ) (place : ℕ → ℕ) (s : Mem) (r c va v : ℕ) (w : Bool × Mem)
    : Type 0 where
  pub after : ℕ → ℕ
  pub free : List ℕ
  pub valid : Invariant.IsValid end top w.1.kmem free
  pub outcome :
      ((w.0 ≡ false) × (free ≡ []) × Extends end place s after w.1)
      ⊎ ((w.0 ≡ true) × Mapped end place s r c va v after w.1)

Mapped-Extends :
    (end : ℕ) (p1 p2 : ℕ → ℕ) (s1 s2 s3 : Mem) (r c va v : ℕ)
    → Extends end p1 s1 p2 s2
    → Mapped end p2 s2 r c va v p2 s3
    → Mapped end p1 s1 r c va v p2 s3
Mapped-Extends end p1 p2 s1 s2 s3 r c va v x m = record {
  kept = λ p a.
      let k1 = x.kept p a in
      let k2 = m.kept p k1.alive in
      record { alive = k2.alive; bytes = k2.bytes ∙ k1.bytes; count = k2.count ∙ k1.count };
  tables = λ r0 c0 h t. m.tables r0 c0 h (x.tables r0 c0 h t);
  entries = λ r0 c0 va0 h low t one.
      m.entries r0 c0 va0 h low (x.tables r0 c0 h t) one
      ∙ ap (λ e. if c0 == c && same_page va0 va then v else e) (x.entries r0 c0 va0 h t);
}

-- On valid page tables and a valid allocator, `mappages` of one page at a page address below MAXVA that
-- has no valid entry returns; it fails only if no page is free for a table, and then no entry of any
-- address has changed; else the entry of that page alone has changed, in that table alone.
pub mappages-MapResult :
    (end top : ℕ) (place : ℕ → ℕ) (s : Mem) (l : List ℕ) (r c va pa perm : ℕ)
    → c < 2
    → va < maxva
    → va % pgsize ≡ 0
    → Tables end place s r c
    → Invariant.IsValid end top s.kmem l
    → is_valid (entry s r va) ≡ false
    → (w : Bool × Mem) × (mappages r va pgsize pa perm s ≡ done w)
      × MapResult end top place s r c va (new_pte pa perm) w
unfolding mappages map_pages map_one
mappages-MapResult end top place s l r c va pa perm small low aligned t inv unmapped =
    let g = walk_levels-Walked end top place s l r c va small t inv in
    let fine : (not (va % pgsize == 0) || not (pgsize % pgsize == 0) || pgsize == 0) ≡ false =
      ground (arith, aligned) in
    let s1 : Mem = (walk_levels 2 r va true s).1 in
    rw (fine, walk_below r va true s low)
      (elim g.outcome [
        | inl (e, full) ↦ (
          (false, s1),
          ap (λ o. finish (map_one pa perm (o, s1))) e,
          record {
            after = g.after;
            free = g.free;
            valid = g.valid;
            outcome = inl (refl, full, g.extends);
          },
        )
        | inr (e, there) ↦
            let t1 = g.extends.tables r c small t in
            let empty : is_valid (s1.word (last_page s1 r va) (px 0 va)) ≡ false =
              ap is_valid (sym (entry-reaches s1 r va there) ∙ g.extends.entries r c va small t)
              ∙ unmapped in
            let s2 : Mem = set_word (last_page s1 r va) (px 0 va) (new_pte pa perm) s1 in
            (
              (true, s2),
              ap (λ o. finish (map_one pa perm (o, s1))) e
                  ∙ ap
                      (λ b.
                        finish (if◌then◌else◌ {A = Outcome (Bool × Mem)} b panic (done (true, s2))))
                      empty,
              record {
                after = g.after;
                free = g.free;
                valid = g.valid;
                outcome = inr (
                  refl,
                  Mapped-Extends end place g.after s s1 s2 r c va (new_pte pa perm) g.extends
                      (write-Mapped end g.after s1 r c va (new_pte pa perm) small low t1 there),
                );
              },
            )
      ])
  where
    finish : Outcome (Bool × Mem) → Outcome (Bool × Mem)
    finish m = m >>= λ w. if w.0 then done (true, w.1) else done w
