-- ===== src/Vm/Tables.antt =====
-- Page tables as trees: where the table pages stand, and what a change of one word does to them.
use xv6_extended.Base.{
  ℕ, ◌+◌, ◌*◌, ◌<◌, ◌≡◌, ◌≢◌, ◌⊎◌, ◌∙◌, sym, ap, subst, inl, inr, true, ◌==◌, Bool-cases, arith,
}
use xv6_extended.Kalloc.{pa2idx}
use xv6_extended.Kalloc.Invariant.{IsPage}
use xv6_extended.Vm.{Mem, pte2pa, is_valid}

-- A page that the allocator has handed out.
pub record Alive (end : ℕ) (s : Mem) (p : ℕ) : Type 0 where
  pub is_page : IsPage end p
  pub counted : 0 < s.kmem.refcnt (pa2idx p)

-- Each table page has a place: 0 and 1 are the roots of two tables, and the table behind entry `i` of
-- the table at place `c` is at place `child c i`.
abbrev pub child : ℕ → ℕ → ℕ
child c i = c * 512 + i + 2

-- The page tables in memory, as `place` says where each page stands: the table at place `c` with the
-- page `r` as its root.
pub record Tables (end : ℕ) (place : ℕ → ℕ) (s : Mem) (r c : ℕ) : Type 0 where
  pub root : (place r ≡ c) × Alive end s r
  pub middle :
      (i : ℕ)
      → i < 512
      → is_valid (s.word r i) ≡ true
      → (place (pte2pa (s.word r i)) ≡ child c i) × Alive end s (pte2pa (s.word r i))
  pub last :
      (i j : ℕ)
      → i < 512
      → j < 512
      → is_valid (s.word r i) ≡ true
      → is_valid (s.word (pte2pa (s.word r i)) j) ≡ true
      → (place (pte2pa (s.word (pte2pa (s.word r i)) j)) ≡ child (child c i) j)
        × Alive end s (pte2pa (s.word (pte2pa (s.word r i)) j))

-- What a page in use keeps while only page tables change.
pub record Kept (end : ℕ) (s s' : Mem) (p : ℕ) : Type 0 where
  pub alive : Alive end s' p
  pub bytes : s'.byte p ≡ s.byte p
  pub count : s'.kmem.refcnt (pa2idx p) ≡ s.kmem.refcnt (pa2idx p)

-- The word `k` of the page `q` changes, and nothing else of the pages that are in use.
pub record Changes (end : ℕ) (place place' : ℕ → ℕ) (s s' : Mem) (q k : ℕ) : Type 0 where
  pub kept : (p : ℕ) → Alive end s p → Kept end s s' p
  pub same_place : (p : ℕ) → Alive end s p → place' p ≡ place p
  pub elsewhere : (p : ℕ) → Alive end s p → p ≢ q → s'.word p ≡ s.word p
  pub others : (i : ℕ) → i ≢ k → s'.word q i ≡ s.word q i
  -- If it then leads to a table, that is a new one at the right place, and empty.
  pub grown :
      place q < 1026
      → is_valid (s'.word q k) ≡ true
      → (place' (pte2pa (s'.word q k)) ≡ child (place q) k)
        × Alive end s' (pte2pa (s'.word q k))
        × ((j : ℕ) → s'.word (pte2pa (s'.word q k)) j ≡ 0)

pub not_valid_zero : (w : ℕ) → is_valid w ≡ true → w ≡ 0 → ⊥
not_valid_zero w valid e = ground (arith, valid, e)

module _ (end : ℕ) (place place' : ℕ → ℕ) (s s' : Mem) (q k : ℕ)
    (ch : Changes end place place' s s' q k) where
  -- An entry of a page in use, other than the word that changes.
  pub entry_same : (p i : ℕ) → Alive end s p → (p ≢ q) ⊎ (i ≢ k) → s'.word p i ≡ s.word p i
  entry_same p i a (inl other) = ap (λ f. f i) (ch.elsewhere p a other)
  entry_same p i a (inr other) = elim (Bool-cases (p == q)) [
    | inl same ↦
        let e : q ≡ p = ground (arith, same) in
        subst (λ x. s'.word x i ≡ s.word x i) e (ch.others i other)
    | inr apart ↦ ap (λ f. f i) (ch.elsewhere p a (ground (arith, apart)))
  ]

  pub at_cases : (p i : ℕ) → ((p ≡ q) × (i ≡ k)) ⊎ ((p ≢ q) ⊎ (i ≢ k))
  at_cases p i = elim (Bool-cases (p == q)) [
    | inr apart ↦ inr (inl (ground (arith, apart)))
    | inl same ↦ elim (Bool-cases (i == k)) [
      | inl e ↦ inl (ground (arith, same), ground (arith, e))
      | inr other ↦ inr (inr (ground (arith, other)))
    ]
  ]

  -- The entry that changed, in a table that is not a last one.
  pub grown_at :
      (p i c : ℕ)
      → p ≡ q
      → i ≡ k
      → place p ≡ c
      → c < 1026
      → is_valid (s'.word p i) ≡ true
      → (place' (pte2pa (s'.word p i)) ≡ child c i)
        × Alive end s' (pte2pa (s'.word p i))
        × ((j : ℕ) → s'.word (pte2pa (s'.word p i)) j ≡ 0)
  grown_at p i c ep ei at small =
      subst
        (λ x.
          is_valid (s'.word p x) ≡ true
          → (place' (pte2pa (s'.word p x)) ≡ child c x)
            × Alive end s' (pte2pa (s'.word p x))
            × ((j : ℕ) → s'.word (pte2pa (s'.word p x)) j ≡ 0))
        (sym ei)
        (subst
          (λ x.
            place x ≡ c
            → is_valid (s'.word x k) ≡ true
            → (place' (pte2pa (s'.word x k)) ≡ child c k)
              × Alive end s' (pte2pa (s'.word x k))
              × ((j : ℕ) → s'.word (pte2pa (s'.word x k)) j ≡ 0))
          (sym ep)
          (λ e valid.
            let g = ch.grown (omega (arith, e, small)) valid in
            (g.0 ∙ ap (λ x. child x k) e, g.1, g.2))
          at)

  -- The page tables stay in order.
  pub Changes-Tables : (r c : ℕ) → c < 2 → Tables end place s r c → Tables end place' s' r c
  Changes-Tables r c small t = record {
    root = (ch.same_place r t.root.1 ∙ t.root.0, (ch.kept r t.root.1).alive);
    middle = λ i hi valid. elim (at_cases r i) [
      | inl here ↦ let g = grown_at r i c here.0 here.1 t.root.0 (omega arith) valid in (g.0, g.1)
      | inr there ↦
          let e = entry_same r i t.root.1 there in
          let m = t.middle i hi (rw e at valid) in
          rw e (
            ch.same_place (pte2pa (s.word r i)) m.1 ∙ m.0,
            (ch.kept (pte2pa (s.word r i)) m.1).alive,
          )
    ];
    last = λ i j hi hj valid deep. elim (at_cases r i) [
      | inl here ↦
          let g = grown_at r i c here.0 here.1 t.root.0 (omega arith) valid in
          absurd (not_valid_zero (s'.word (pte2pa (s'.word r i)) j) deep (g.2 j))
      | inr there ↦
          let e = entry_same r i t.root.1 there in
          let valid0 : is_valid (s.word r i) ≡ true = rw e at valid in
          let m = t.middle i hi valid0 in
          let p : ℕ = pte2pa (s.word r i) in
          let deep0 : is_valid (s'.word p j) ≡ true = rw e at deep in
          rw e (elim (at_cases p j) [
            | inl here ↦
                let g = grown_at p j (child c i) here.0 here.1 m.0 (omega (arith, hi)) deep0 in
                (g.0, g.1)
            | inr apart ↦
                let e2 = entry_same p j m.1 apart in
                let l = t.last i j hi hj valid0 (rw e2 at deep0) in
                rw e2 (
                  ch.same_place (pte2pa (s.word p j)) l.1 ∙ l.0,
                  (ch.kept (pte2pa (s.word p j)) l.1).alive,
                )
          ])
    ];
  }
