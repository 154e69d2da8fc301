-- ===== src/Vm/Entries.antt =====
-- What a page table says of each address, and the changes of page tables that keep it.
use xv6_extended.Base.{
  ℕ, ◌/◌, ◌<◌, ◌≡◌, ◌∙◌, refl, sym, ap, ap₂, subst, inl, inr, Bool, true, false, ◌&&◌, some, none,
  ◌==◌, if◌then◌else◌, Bool-cases, arith,
}
use xv6_extended.Memory.{pgsize}
use xv6_extended.Vm.{Mem, pte2pa, is_valid, px, next_table, follow, walk_levels}
use xv6_extended.Vm.Tables.{child, Tables, Changes, entry_same, at_cases, grown_at}

abbrev pub middle_page : Mem → ℕ → ℕ → ℕ
middle_page s r va = pte2pa (s.word r (px 2 va))

abbrev pub last_page : Mem → ℕ → ℕ → ℕ
last_page s r va = pte2pa (s.word (middle_page s r va) (px 1 va))

-- Both upper levels have a table for the address.
abbrev pub reaches : Mem → ℕ → ℕ → Bool
reaches s r va = is_valid (s.word r (px 2 va)) && is_valid (s.word (middle_page s r va) (px 1 va))

-- What an entry leads to, or 0, which is not valid, if it is not valid.
abbrev pub through : ℕ → (ℕ → ℕ) → ℕ
through e next = if is_valid e then next (pte2pa e) else 0

-- The entry for an address, from the middle table `m` on.
abbrev pub entry_from : Mem → ℕ → ℕ → ℕ
entry_from s va m = through (s.word m (px 1 va)) (λ l. s.word l (px 0 va))

-- The entry for an address in the table with the root `r`.
abbrev pub entry : Mem → ℕ → ℕ → ℕ
entry s r va = through (s.word r (px 2 va)) (entry_from s va)

pub through_valid : (e : ℕ) (f : ℕ → ℕ) → is_valid e ≡ true → through e f ≡ f (pte2pa e)
through_valid e f h = rw h refl

pub through_not_valid : (e : ℕ) (f : ℕ → ℕ) → is_valid e ≡ false → through e f ≡ 0
through_not_valid e f h = rw h refl

pub next_table_valid :
    (q i : ℕ) (alloc : Bool) (s : Mem)
    → is_valid (s.word q i) ≡ true
    → next_table q i alloc s ≡ (some (pte2pa (s.word q i)), s)
unfolding next_table
next_table_valid q i alloc s h = rw h refl

next_table_stop :
    (q i : ℕ) (s : Mem) → is_valid (s.word q i) ≡ false → next_table q i false s ≡ (none, s)
unfolding next_table
next_table_stop q i s h = rw h refl

-- `walk` with `alloc` 0 finds that entry.
pub walk_levels-reaches :
    (r va : ℕ) (s : Mem)
    → walk_levels 2 r va false s
      ≡ ((if reaches s r va then some (last_page s r va, px 0 va) else none), s)
unfolding walk_levels
walk_levels-reaches r va s = elim (Bool-cases (is_valid (s.word r (px 2 va)))) [
  | inr no_middle ↦
      ap (follow (λ m t. walk_levels 1 m va false t)) (next_table_stop r (px 2 va) s no_middle)
      ∙ ap
          (λ b. (
            (if b && is_valid (s.word (middle_page s r va) (px 1 va))
                then some (last_page s r va, px 0 va)
                else none),
            s,
          ))
          (sym no_middle)
  | inl some_middle ↦
      ap (follow (λ m t. walk_levels 1 m va false t))
        (next_table_valid r (px 2 va) false s some_middle)
      ∙ elim (Bool-cases (is_valid (s.word (middle_page s r va) (px 1 va)))) [
        | inl some_last ↦
            ap (follow (λ l t. walk_levels 0 l va false t))
              (next_table_valid (middle_page s r va) (px 1 va) false s some_last)
            ∙ ap₂ (λ b2 b1. ((if b2 && b1 then some (last_page s r va, px 0 va) else none), s))
                (sym some_middle) (sym some_last)
        | inr no_last ↦
            ap (follow (λ l t. walk_levels 0 l va false t))
              (next_table_stop (middle_page s r va) (px 1 va) s no_last)
            ∙ ap₂ (λ b2 b1. ((if b2 && b1 then some (last_page s r va, px 0 va) else none), s))
                (sym some_middle) (sym no_last)
      ]
]

pub px-lt : (level va : ℕ) → px level va < 512
px-lt level va = omega arith

module _ (end : ℕ) (place place' : ℕ → ℕ) (s s' : Mem) (q k : ℕ)
    (ch : Changes end place place' s s' q k) where
  -- A word that becomes a new empty table changes no entry.
  pub Changes-entry :
      (r c va : ℕ)
      → c < 2
      → Tables end place s r c
      → place q < 1026
      → is_valid (s.word q k) ≡ false
      → entry s' r va ≡ entry s r va
  Changes-entry r c va small t top fresh =
      elim (at_cases end place place' s s' q k ch r (px 2 va)) [
        | inl here ↦
            gone r (px 2 va) c (entry_from s' va)
              (λ n z. ap (λ w. through w (λ l. s'.word l (px 0 va))) (z (px 1 va))) here t.root.0
            ∙ sym (
                through_not_valid (s.word r (px 2 va)) (entry_from s va)
                  (fresh_at r (px 2 va) here))
        | inr there ↦
            ap (λ w. through w (entry_from s' va))
              (entry_same end place place' s s' q k ch r (px 2 va) t.root.1 there)
            ∙ elim (Bool-cases (is_valid (s.word r (px 2 va)))) [
              | inr no_middle ↦
                  through_not_valid (s.word r (px 2 va)) (entry_from s' va) no_middle
                  ∙ sym (through_not_valid (s.word r (px 2 va)) (entry_from s va) no_middle)
              | inl valid ↦
                  through_valid (s.word r (px 2 va)) (entry_from s' va) valid
                  ∙ middle_same valid
                  ∙ sym (through_valid (s.word r (px 2 va)) (entry_from s va) valid)
            ]
      ]
    where
      fresh_at : (p i : ℕ) → (p ≡ q) × (i ≡ k) → is_valid (s.word p i) ≡ false
      fresh_at p i h =
          subst (λ x. is_valid (s.word x i) ≡ false) (sym h.0)
            (subst (λ x. is_valid (s.word q x) ≡ false) (sym h.1) fresh)

      gone :
          (p i d : ℕ) (f : ℕ → ℕ)
          → ((n : ℕ) → ((j : ℕ) → s'.word n j ≡ 0) → f n ≡ 0)
          → (p ≡ q) × (i ≡ k)
          → place p ≡ d
          → through (s'.word p i) f ≡ 0
      gone p i d f zero_there h at = elim (Bool-cases (is_valid (s'.word p i))) [
        | inr no_table ↦ through_not_valid (s'.word p i) f no_table
        | inl valid ↦
            let low : d < 1026 = subst (λ x. x < 1026) (ap place (sym h.0) ∙ at) top in
            let g = grown_at end place place' s s' q k ch p i d h.0 h.1 at low valid in
            through_valid (s'.word p i) f valid ∙ zero_there (pte2pa (s'.word p i)) g.2
      ]

      too_deep : (l : ℕ) → place l ≡ child (child c (px 2 va)) (px 1 va) → l ≡ q → ⊥
      too_deep l at e =
          let low : place l < 1026 = subst (λ x. place x < 1026) (sym e) top in
          omega (arith, at, low)

      middle_same :
          is_valid (s.word r (px 2 va)) ≡ true
          → entry_from s' va (middle_page s r va) ≡ entry_from s va (middle_page s r va)
      middle_same valid =
          let m : ℕ = middle_page s r va in
          let tm = t.middle (px 2 va) (px-lt 2 va) valid in
          elim (at_cases end place place' s s' q k ch m (px 1 va)) [
            | inl here ↦
                gone m (px 1 va) (child c (px 2 va)) (λ l. s'.word l (px 0 va)) (λ n z. z (px 0 va))
                  here tm.0
                ∙ sym (
                    through_not_valid (s.word m (px 1 va)) (λ l. s.word l (px 0 va))
                      (fresh_at m (px 1 va) here))
            | inr there ↦
                ap (λ w. through w (λ l. s'.word l (px 0 va)))
                  (entry_same end place place' s s' q k ch m (px 1 va) tm.1 there)
                ∙ elim (Bool-cases (is_valid (s.word m (px 1 va)))) [
                  | inr no_last ↦
                      through_not_valid (s.word m (px 1 va)) (λ l. s'.word l (px 0 va)) no_last
                      ∙ sym
                          (through_not_valid (s.word m (px 1 va)) (λ l. s.word l (px 0 va)) no_last)
                  | inl deep ↦
                      let l : ℕ = pte2pa (s.word m (px 1 va)) in
                      let tl = t.last (px 2 va) (px 1 va) (px-lt 2 va) (px-lt 1 va) valid deep in
                      through_valid (s.word m (px 1 va)) (λ l. s'.word l (px 0 va)) deep
                      ∙ ap (λ f. f (px 0 va)) (ch.elsewhere l tl.1 (λ e. too_deep l tl.0 e))
                      ∙ sym (through_valid (s.word m (px 1 va)) (λ l. s.word l (px 0 va)) deep)
                ]
          ]

-- Two addresses of the same page.
abbrev pub same_page : ℕ → ℕ → Bool
same_page va va' = va / pgsize == va' / pgsize
