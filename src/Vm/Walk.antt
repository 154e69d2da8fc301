-- ===== src/Vm/Walk.antt =====
-- `walk` with `alloc` set: the tables that it adds change no entry of any address.
use xv6_extended.Base.{
  ℕ, ◌+◌, ◌<◌, ◌≡◌, ◌≢◌, ◌⊎◌, ◌∙◌, refl, sym, ap, subst, inl, inr, true, false, Option, some, none,
  List, [], ◌∷◌, ◌==◌, Bool-cases, arith,
}
use xv6_extended.Base.Family.{update, update_self, update_ne}
use xv6_extended.Kalloc.{Kmem, pa2idx, kalloc}
use xv6_extended.Kalloc.Invariant
use xv6_extended.Kalloc.Invariant.{IsPage}
use xv6_extended.Kalloc.Operations.{Allocated, kalloc-Allocated}
use xv6_extended.Vm.{
  Mem, pte2pa, pa2pte, pte_v, is_valid, set_word, zero_page, fill_page, page_alloc, next_table,
}
use xv6_extended.Vm.Tables.{Alive, child, Tables, Kept, Changes, Changes-Tables}
use xv6_extended.Vm.Entries.{entry, next_table_valid, Changes-entry}

-- From `s` to `s'` page tables may have grown: pages in use and the entries of all addresses are as before.
pub record Extends (end : ℕ) (place : ℕ → ℕ) (s : Mem) (place' : ℕ → ℕ) (s' : Mem) : Type 0 where
  pub kept : (p : ℕ) → Alive end s p → Kept end s s' p
  pub tables : (r c : ℕ) → c < 2 → Tables end place s r c → Tables end place' s' r c
  pub entries : (r c va : ℕ) → c < 2 → Tables end place s r c → entry s' r va ≡ entry s r va

pub Extends-refl : (end : ℕ) (place : ℕ → ℕ) (s : Mem) → Extends end place s place s
Extends-refl end place s = record {
  kept = λ p a. record { alive = a; bytes = refl; count = refl };
  tables = λ r c small t. t;
  entries = λ r c va small t. refl;
}

pub Extends-trans :
    (end : ℕ) (p1 p2 p3 : ℕ → ℕ) (s1 s2 s3 : Mem)
    → Extends end p1 s1 p2 s2
    → Extends end p2 s2 p3 s3
    → Extends end p1 s1 p3 s3
Extends-trans end p1 p2 p3 s1 s2 s3 a b = record {
  kept = λ p alive.
      let ka = a.kept p alive in
      let kb = b.kept p ka.alive in
      record { alive = kb.alive; bytes = kb.bytes ∙ ka.bytes; count = kb.count ∙ ka.count };
  tables = λ r c small t. b.tables r c small (a.tables r c small t);
  entries =
      λ r c va small t. b.entries r c va small (a.tables r c small t) ∙ a.entries r c va small t;
}

-- The state after a new table has been put behind the entry `i` of `q`.
abbrev with_table : ℕ → ℕ → ℕ → Kmem → Mem → Mem
with_table q i p k s =
    set_word q i (pa2pte p + pte_v)
      (zero_page p (fill_page p 0x0505050505050505 5 (record s { kmem = k })))

module _ (end : ℕ) (place : ℕ → ℕ) (s : Mem) (q i p : ℕ) (k : Kmem) (alive : Alive end s q)
    (page : IsPage end p) (free : s.kmem.refcnt (pa2idx p) ≡ 0)
    (count : k.refcnt ≡ update s.kmem.refcnt (pa2idx p) 1) where
  idx_ne : (x : ℕ) → Alive end s x → pa2idx p ≢ pa2idx x
  idx_ne x a e =
      let zero_count : s.kmem.refcnt (pa2idx x) ≡ 0 = subst (λ y. s.kmem.refcnt y ≡ 0) e free in
      let pos = a.counted in absurd (omega (arith, zero_count, pos))

  fresh_ne : (x : ℕ) → Alive end s x → p ≢ x
  fresh_ne x a e = idx_ne x a (ap pa2idx e)

  new_word :
      (x : ℕ)
      → p ≢ x
      → (zero_page p (fill_page p 0x0505050505050505 5 (record s { kmem = k }))).word x ≡ s.word x
  new_word x ne =
      update_ne (update s.word p (λ _. 0x0505050505050505)) p x (λ _. 0) ne
      ∙ update_ne s.word p x (λ _. 0x0505050505050505) ne

  with_table-Changes :
      Changes end place (update place p (child (place q) i)) s (with_table q i p k s) q i
  with_table-Changes = record {
    kept = λ x a.
        let same_count : k.refcnt (pa2idx x) ≡ s.kmem.refcnt (pa2idx x) =
          ap (λ f. f (pa2idx x)) count
          ∙ update_ne s.kmem.refcnt (pa2idx p) (pa2idx x) 1 (idx_ne x a) in
        record {
          alive = record {
            is_page = a.is_page;
            counted = subst (λ n. 0 < n) (sym same_count) a.counted;
          };
          bytes =
              update_ne (update s.byte p (λ _. 5)) p x (λ _. 0) (fresh_ne x a)
              ∙ update_ne s.byte p x (λ _. 5) (fresh_ne x a);
          count = same_count;
        };
    same_place = λ x a. update_ne place p x (child (place q) i) (fresh_ne x a);
    elsewhere = λ x a other. outer x (λ e. other (sym e)) ∙ new_word x (fresh_ne x a);
    others = λ j other.
        ap (λ f. f j) at_q
        ∙ update_ne (base.word q) i j (pa2pte p + pte_v) (λ e. other (sym e))
        ∙ ap (λ f. f j) (new_word q (fresh_ne q alive));
    grown = λ low valid.
        subst
          (λ w.
            (update place p (child (place q) i) (pte2pa w) ≡ child (place q) i)
            × Alive end (with_table q i p k s) (pte2pa w)
            × ((j : ℕ) → (with_table q i p k s).word (pte2pa w) j ≡ 0))
          (sym here)
          (subst
            (λ x.
              (update place p (child (place q) i) x ≡ child (place q) i)
              × Alive end (with_table q i p k s) x
              × ((j : ℕ) → (with_table q i p k s).word x j ≡ 0))
            (sym back)
            (
              update_self place p (child (place q) i),
              record {
                is_page = page;
                counted =
                    subst (λ n. 0 < n)
                      (sym (ap (λ f. f (pa2idx p)) count ∙ update_self s.kmem.refcnt (pa2idx p) 1))
                      (omega arith);
              },
              λ j.
                  ap (λ f. f j)
                    (outer p (λ e. fresh_ne q alive (sym e))
                      ∙ update_self (update s.word p (λ _. 0x0505050505050505)) p (λ _. 0)),
            ));
  }
    where
      base : Mem
      base = zero_page p (fill_page p 0x0505050505050505 5 (record s { kmem = k }))

      outer : (x : ℕ) → q ≢ x → (with_table q i p k s).word x ≡ base.word x
      outer x ne = update_ne base.word q x (update (base.word q) i (pa2pte p + pte_v)) ne

      at_q : (with_table q i p k s).word q ≡ update (base.word q) i (pa2pte p + pte_v)
      at_q = update_self base.word q (update (base.word q) i (pa2pte p + pte_v))

      here : (with_table q i p k s).word q i ≡ pa2pte p + pte_v
      here = ap (λ f. f i) at_q ∙ update_self (base.word q) i (pa2pte p + pte_v)

      back : pte2pa (pa2pte p + pte_v) ≡ p
      back = omega (arith, page.aligned)

  with_table-word : (with_table q i p k s).word q i ≡ pa2pte p + pte_v
  with_table-word =
      let base : Mem = zero_page p (fill_page p 0x0505050505050505 5 (record s { kmem = k })) in
      ap (λ f. f i) (update_self base.word q (update (base.word q) i (pa2pte p + pte_v)))
      ∙ update_self (base.word q) i (pa2pte p + pte_v)

  with_table-elsewhere : (x : ℕ) → Alive end s x → x ≢ q → (with_table q i p k s).word x ≡ s.word x
  with_table-elsewhere x a other = with_table-Changes.elsewhere x a other

-- A round of `walk` that may allocate, in a table that is not a last one: what has happened, the free
-- pages then, and the next table.
pub record Grown (end top : ℕ) (place : ℕ → ℕ) (s : Mem) (q i : ℕ) (r : Option ℕ × Mem)
    : Type 0 where
  pub after : ℕ → ℕ
  pub free : List ℕ
  pub valid : Invariant.IsValid end top r.1.kmem free
  pub extends : Extends end place s after r.1
  pub elsewhere : (x : ℕ) → Alive end s x → x ≢ q → r.1.word x ≡ s.word x
  pub outcome :
      ((r.0 ≡ none) × (free ≡ []))
      ⊎ ((r.0 ≡ some (pte2pa (r.1.word q i))) × (is_valid (r.1.word q i) ≡ true))

next_table_full :
    (q i : ℕ) (s : Mem)
    → is_valid (s.word q i) ≡ false
    → (kalloc s.kmem).0 ≡ 0
    → next_table q i true s ≡ (none, record s { kmem = (kalloc s.kmem).1 })
unfolding next_table page_alloc
next_table_full q i s no_table none_left =
    let z : ((kalloc s.kmem).0 == 0) ≡ true = ground (arith, none_left) in rw (no_table, z) refl

next_table_new :
    (q i : ℕ) (s : Mem)
    → is_valid (s.word q i) ≡ false
    → ((kalloc s.kmem).0 == 0) ≡ false
    → next_table q i true s
      ≡ (some (kalloc s.kmem).0, with_table q i (kalloc s.kmem).0 (kalloc s.kmem).1 s)
unfolding next_table page_alloc
next_table_new q i s no_table some_left = rw (no_table, some_left, some_left) refl

pub next_table-Grown :
    (end top : ℕ) (place : ℕ → ℕ) (s : Mem) (l : List ℕ) (q i : ℕ)
    → Invariant.IsValid end top s.kmem l
    → Alive end s q
    → place q < 1026
    → Grown end top place s q i (next_table q i true s)
next_table-Grown end top place s l q i inv alive low = elim (Bool-cases (is_valid (s.word q i))) [
  | inl valid ↦
      subst (Grown end top place s q i) (sym (next_table_valid q i true s valid)) (record {
        after = place;
        free = l;
        valid = inv;
        extends = Extends-refl end place s;
        elsewhere = λ x a other. refl;
        outcome = inr (refl, valid);
      })
  | inr no_table ↦ go no_table l inv (kalloc-Allocated l inv)
]
  where
    p : ℕ
    p = (kalloc s.kmem).0

    go :
        is_valid (s.word q i) ≡ false
        → (l : List ℕ) → Invariant.IsValid end top s.kmem l
        → Allocated end top s.kmem l (kalloc s.kmem)
        → Grown end top place s q i (next_table q i true s)
    go no_table [] inv (z, same) =
        subst (Grown end top place s q i)
          (sym (next_table_full q i s no_table z ∙ ap (λ k. (none, record s { kmem = k })) same))
          (record {
            after = place;
            free = [];
            valid = inv;
            extends = Extends-refl end place s;
            elsewhere = λ x a other. refl;
            outcome = inl (refl, refl);
          })
    go no_table (x ∷ l) inv (at, zero_count, page, count, filled, inv') =
        let ne : (p == 0) ≡ false = ground (arith, at, page.low, page.above) in
        let page' : IsPage end p = subst (IsPage end) (sym at) page in
        let free' : s.kmem.refcnt (pa2idx p) ≡ 0 =
          subst (λ y. s.kmem.refcnt (pa2idx y) ≡ 0) (sym at) zero_count in
        let count' : (kalloc s.kmem).1.refcnt ≡ update s.kmem.refcnt (pa2idx p) 1 =
          count ∙ ap (λ y. update s.kmem.refcnt (pa2idx y) 1) (sym at) in
        let t : Mem = with_table q i p (kalloc s.kmem).1 s in
        let place' : ℕ → ℕ = update place p (child (place q) i) in
        let ch = with_table-Changes end place s q i p (kalloc s.kmem).1 alive page' free' count' in
        let entry_is : t.word q i ≡ pa2pte p + pte_v =
          with_table-word end place s q i p (kalloc s.kmem).1 alive page' free' count' in
        let back : pte2pa (pa2pte p + pte_v) ≡ p = omega (arith, page'.aligned) in
        let ok : is_valid (pa2pte p + pte_v) ≡ true = ground (arith, page'.aligned) in
        subst (Grown end top place s q i) (sym (next_table_new q i s no_table ne)) (record {
          after = place';
          free = l;
          valid = inv';
          extends = record {
            kept = ch.kept;
            tables =
                λ r c small tables. Changes-Tables end place place' s t q i ch r c small tables;
            entries = λ r c va small tables.
                Changes-entry end place place' s t q i ch r c va small tables low no_table;
          };
          elsewhere = ch.elsewhere;
          outcome = inr (ap some (sym (ap pte2pa entry_is ∙ back)), ap is_valid entry_is ∙ ok);
        })
