-- ===== src/Vm/Leaf.antt =====
-- What a write to an entry that `walk` has found does to the page tables.
use xv6_extended.Base.{
  ℕ, ◌≤◌, ◌<◌, ◌≡◌, ◌≢◌, ◌∙◌, refl, sym, ap, subst, inl, inr, Bool, true, false, ◌&&◌, ◌==◌,
  if◌then◌else◌, Bool-cases, arith,
}
use xv6_extended.Base.Family.{update, update_self, update_ne}
use xv6_extended.Vm.{Mem, is_valid, px, set_word}
use xv6_extended.Vm.Tables.{Alive, child, Tables, Changes}
use xv6_extended.Vm.Entries.{
  middle_page, last_page, reaches, through, through_valid, through_not_valid, entry, entry_from,
  px-lt,
}

word_after :
    (s : Mem) (q k v l i : ℕ)
    → (set_word q k v s).word l i ≡ (if l == q && i == k then v else s.word l i)
word_after s q k v l i = elim (Bool-cases (l == q)) [
  | inr other ↦
      rw other
        (ap (λ f. f i) (update_ne s.word q l (update (s.word q) k v) (ground (arith, other))))
  | inl same ↦
      let e : q ≡ l = ground (arith, same) in
      subst (λ y. (set_word q k v s).word y i ≡ (if y == q && i == k then v else s.word y i)) e
        (ap (λ f. f i) (update_self s.word q (update (s.word q) k v)) ∙ ground arith)
]

module _ (end : ℕ) (place : ℕ → ℕ) (s : Mem) where
  -- The last table of an address that has one.
  pub last_page-Alive :
      (r c va : ℕ)
      → Tables end place s r c
      → reaches s r va ≡ true
      → (place (last_page s r va) ≡ child (child c (px 2 va)) (px 1 va))
        × Alive end s (last_page s r va)
  last_page-Alive r c va t h =
      let up : is_valid (s.word r (px 2 va)) ≡ true = ground (arith, h) in
      let down : is_valid (s.word (middle_page s r va) (px 1 va)) ≡ true = ground (arith, h) in
      t.last (px 2 va) (px 1 va) (px-lt 2 va) (px-lt 1 va) up down

  -- A write to a last table.
  pub write-Changes :
      (q k v : ℕ) → 1026 ≤ place q → Changes end place place s (set_word q k v s) q k
  write-Changes q k v deep = record {
    kept = λ p a. record {
      alive = record { is_page = a.is_page; counted = a.counted };
      bytes = refl;
      count = refl;
    };
    same_place = λ p a. refl;
    elsewhere = λ p a other. update_ne s.word q p (update (s.word q) k v) (λ e. other (sym e));
    others = λ i other.
        ap (λ f. f i) (update_self s.word q (update (s.word q) k v))
        ∙ update_ne (s.word q) k i v (λ e. other (sym e));
    grown = λ low. absurd (omega arith);
  }

  -- The entry of any address after a write to the entry `k` of the last table `q`.
  pub entry-write :
      (q k v r c va : ℕ)
      → c < 2
      → Tables end place s r c
      → 1026 ≤ place q
      → entry (set_word q k v s) r va
        ≡ (if reaches s r va && (last_page s r va == q && px 0 va == k) then v else entry s r va)
  entry-write q k v r c va small t deep =
      ap (λ f. through (f (px 2 va)) (entry_from (set_word q k v s) va))
        (upper r (below r c t.root.0 (omega arith)))
      ∙ elim (Bool-cases (is_valid (s.word r (px 2 va)))) [
        | inr no_middle ↦
            through_not_valid (s.word r (px 2 va)) (entry_from (set_word q k v s) va) no_middle
            ∙ sym (through_not_valid (s.word r (px 2 va)) leaves no_middle)
        | inl valid ↦
            through_valid (s.word r (px 2 va)) (entry_from (set_word q k v s) va) valid
            ∙ ap (λ f. through (f (px 1 va)) (λ l. (set_word q k v s).word l (px 0 va)))
                (upper (middle_page s r va) (
                  below (middle_page s r va) (child c (px 2 va))
                    (t.middle (px 2 va) (px-lt 2 va) valid).0 (omega arith)))
            ∙ sym (through_valid (s.word r (px 2 va)) leaves valid)
      ]
      ∙ go (is_valid (s.word r (px 2 va))) (is_valid (s.word (middle_page s r va) (px 1 va)))
    where
      below : (p d : ℕ) → place p ≡ d → d < 1026 → p ≢ q
      below p d at low e =
          let far : 1026 ≤ place p = subst (λ x. 1026 ≤ place x) (sym e) deep in
          absurd (omega (arith, at, low, far))

      upper : (p : ℕ) → p ≢ q → (set_word q k v s).word p ≡ s.word p
      upper p other = update_ne s.word q p (update (s.word q) k v) (λ e. other (sym e))

      leaves : ℕ → ℕ
      leaves m = through (s.word m (px 1 va)) (λ l. (set_word q k v s).word l (px 0 va))

      x : ℕ
      x = s.word (last_page s r va) (px 0 va)

      hit : Bool
      hit = last_page s r va == q && px 0 va == k

      at_leaf : (set_word q k v s).word (last_page s r va) (px 0 va) ≡ (if hit then v else x)
      at_leaf = word_after s q k v (last_page s r va) (px 0 va)

      go :
          (b2 b1 : Bool)
          → (if b2
              then (if b1 then (set_word q k v s).word (last_page s r va) (px 0 va) else 0)
              else 0)
            ≡ (if (b2 && b1) && hit then v else if b2 then (if b1 then x else 0) else 0)
      go true true = at_leaf
      go true false = refl
      go false b1 = refl
