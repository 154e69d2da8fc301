-- ===== src/Vm/Same.antt =====
-- Page tables when no word of a page in use changes: what is new stands in pages that were free.
use xv6_extended.Base.{ℕ, ◌≡◌, ◌∙◌, sym, ap, inl, inr, true, Bool-cases}
use xv6_extended.Vm.{Mem, pte2pa, is_valid, px}
use xv6_extended.Vm.Tables.{Alive, Tables}
use xv6_extended.Vm.Entries.{
  middle_page, entry, entry_from, through, through_valid, through_not_valid, px-lt,
}

pub record Same (end : ℕ) (s s' : Mem) : Type 0 where
  pub alive : (p : ℕ) → Alive end s p → Alive end s' p
  pub words : (p : ℕ) → Alive end s p → s'.word p ≡ s.word p

module _ (end : ℕ) (place : ℕ → ℕ) (s s' : Mem) (same : Same end s s') (r c : ℕ)
    (t : Tables end place s r c) where
  pub Same-Tables : Tables end place s' r c
  Same-Tables = record {
    root = (t.root.0, same.alive r t.root.1);
    middle = λ i hi valid.
        let e = ap (λ f. f i) (same.words r t.root.1) in
        let m = t.middle i hi (rw e at valid) in rw e (m.0, same.alive (pte2pa (s.word r i)) m.1);
    last = λ i j hi hj valid deep.
        let e = ap (λ f. f i) (same.words r t.root.1) in
        let valid0 : is_valid (s.word r i) ≡ true = rw e at valid in
        let p : ℕ = pte2pa (s.word r i) in
        let deep0 : is_valid (s'.word p j) ≡ true = rw e at deep in
        let e2 = ap (λ f. f j) (same.words p (t.middle i hi valid0).1) in
        let l = t.last i j hi hj valid0 (rw e2 at deep0) in
        rw e (rw e2 (l.0, same.alive (pte2pa (s.word p j)) l.1));
  }

  pub Same-entry : (va : ℕ) → entry s' r va ≡ entry s r va
  Same-entry va =
      ap (λ f. through (f (px 2 va)) (entry_from s' va)) (same.words r t.root.1)
      ∙ elim (Bool-cases (is_valid (s.word r (px 2 va)))) [
        | inr no_middle ↦
            through_not_valid (s.word r (px 2 va)) (entry_from s' va) no_middle
            ∙ sym (through_not_valid (s.word r (px 2 va)) (entry_from s va) no_middle)
        | inl valid ↦
            through_valid (s.word r (px 2 va)) (entry_from s' va) valid
            ∙ middle_same valid
            ∙ sym (through_valid (s.word r (px 2 va)) (entry_from s va) valid)
      ]
    where
      middle_same :
          is_valid (s.word r (px 2 va)) ≡ true
          → entry_from s' va (middle_page s r va) ≡ entry_from s va (middle_page s r va)
      middle_same valid =
          let m : ℕ = middle_page s r va in
          ap (λ f. through (f (px 1 va)) (λ l. s'.word l (px 0 va)))
            (same.words m (t.middle (px 2 va) (px-lt 2 va) valid).1)
          ∙ elim (Bool-cases (is_valid (s.word m (px 1 va)))) [
            | inr no_last ↦
                through_not_valid (s.word m (px 1 va)) (λ l. s'.word l (px 0 va)) no_last
                ∙ sym (through_not_valid (s.word m (px 1 va)) (λ l. s.word l (px 0 va)) no_last)
            | inl deep ↦
                let l : ℕ = pte2pa (s.word m (px 1 va)) in
                let tl = t.last (px 2 va) (px 1 va) (px-lt 2 va) (px-lt 1 va) valid deep in
                through_valid (s.word m (px 1 va)) (λ l. s'.word l (px 0 va)) deep
                ∙ ap (λ f. f (px 0 va)) (same.words l tl.1)
                ∙ sym (through_valid (s.word m (px 1 va)) (λ l. s.word l (px 0 va)) deep)
          ]
