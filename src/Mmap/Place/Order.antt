-- ===== src/Mmap/Place/Order.antt =====
-- The sort in `vma_find_addr`: it puts the regions in use in the order of their addresses.
use xv6_extended.Base.{
  ℕ, zero, suc, ◌≤◌, ◌≡◌, ◌∙◌, refl, ap, inl, inr, Bool, true, false, List, [], ◌∷◌, ltb,
  if◌then◌else◌, Bool-cases, arith, All, length,
}
use xv6_extended.Proc.{Vma}
use xv6_extended.Mmap.{used_vmas, sweep, sort_from}

module _ (P : Vma → Type 0) where
  sweep-All : (x : Vma) (ys : List Vma) → P x × All P ys → P (sweep x ys).0 × All P (sweep x ys).1
  unfolding sweep
  sweep-All x [] h = h
  sweep-All x (y ∷ ys) (px, (py, rest)) = elim (Bool-cases (ltb y.addr x.addr)) [
    | inl below ↦ let r = sweep-All y ys (py, rest) in rw below (r.0, (px, r.1))
    | inr above ↦ let r = sweep-All x ys (px, rest) in rw above (r.0, (py, r.1))
  ]

  All-sweep : (x : Vma) (ys : List Vma) → P (sweep x ys).0 × All P (sweep x ys).1 → P x × All P ys
  unfolding sweep
  All-sweep x [] h = h
  All-sweep x (y ∷ ys) h = elim (Bool-cases (ltb y.addr x.addr)) [
    | inl below ↦
        let (p0, (px, rest)) = rw below at h in
        let r = All-sweep y ys (p0, rest) in (px, (r.0, r.1))
    | inr above ↦
        let (p0, (py, rest)) = rw above at h in
        let r = All-sweep x ys (p0, rest) in (r.0, (py, r.1))
  ]

  pub sort_from-All : (n : ℕ) (vs : List Vma) → All P vs → All P (sort_from n vs)
  unfolding sort_from
  sort_from-All zero vs h = h
  sort_from-All (suc n) [] h = tt
  sort_from-All (suc n) (x ∷ xs) h =
      let r = sweep-All x xs h in (r.0, sort_from-All n (sweep x xs).1 r.1)

  pub All-sort_from : (n : ℕ) (vs : List Vma) → All P (sort_from n vs) → All P vs
  unfolding sort_from
  All-sort_from zero vs h = h
  All-sort_from (suc n) [] h = tt
  All-sort_from (suc n) (x ∷ xs) h = All-sweep x xs (h.0, All-sort_from n (sweep x xs).1 h.1)

  pub used_vmas-All : (vs : List Vma) → All (λ v. v.used ≡ true → P v) vs → All P (used_vmas vs)
  unfolding used_vmas
  used_vmas-All [] h = tt
  used_vmas-All (v ∷ vs) h = go v.used h.0 (used_vmas-All vs h.1)
    where
      go :
          (u : Bool)
          → (u ≡ true → P v)
          → All P (used_vmas vs)
          → All P (if u then v ∷ used_vmas vs else used_vmas vs)
      go true first rest = (first refl, rest)
      go false first rest = rest

  pub All-used_vmas : (vs : List Vma) → All P (used_vmas vs) → All (λ v. v.used ≡ true → P v) vs
  unfolding used_vmas
  All-used_vmas [] h = tt
  All-used_vmas (v ∷ vs) h = go v.used h (All-used_vmas vs)
    where
      go :
          (u : Bool)
          → All P (if u then v ∷ used_vmas vs else used_vmas vs)
          → (All P (used_vmas vs) → All (λ w. w.used ≡ true → P w) vs)
          → (u ≡ true → P v) × All (λ w. w.used ≡ true → P w) vs
      go true h rest = (λ _. h.0, rest h.1)
      go false h rest = ((λ e. cc e), rest h)

-- No region of the list is below the address.
abbrev pub AllFrom : ℕ → List Vma → Type 0
AllFrom a vs = All (λ v. a ≤ v.addr) vs

abbrev pub Sorted : List Vma → Type 0
Sorted [] = Unit
Sorted (v ∷ vs) = AllFrom v.addr vs × Sorted vs

sweep-least :
    (x : Vma) (ys : List Vma)
    → ((sweep x ys).0.addr ≤ x.addr) × AllFrom (sweep x ys).0.addr (sweep x ys).1
unfolding sweep
sweep-least x [] = (omega arith, tt)
sweep-least x (y ∷ ys) = elim (Bool-cases (ltb y.addr x.addr)) [
  | inl below ↦
      let r = sweep-least y ys in
      rw below (ground (arith, r.0, below), (ground (arith, r.0, below), r.1))
  | inr above ↦ let r = sweep-least x ys in rw above (r.0, (ground (arith, r.0, above), r.1))
]

length-sweep : (x : Vma) (ys : List Vma) → length (sweep x ys).1 ≡ length ys
unfolding sweep
length-sweep x [] = refl
length-sweep x (y ∷ ys) = elim (Bool-cases (ltb y.addr x.addr)) [
  | inl below ↦ rw below (ap suc (length-sweep y ys))
  | inr above ↦ rw above (ap suc (length-sweep x ys))
]

pub sort_from-Sorted : (n : ℕ) (vs : List Vma) → length vs ≡ n → Sorted (sort_from n vs)
unfolding sort_from
sort_from-Sorted zero [] e = tt
sort_from-Sorted zero (x ∷ xs) e = absurd (omega (arith, e))
sort_from-Sorted (suc n) [] e = tt
sort_from-Sorted (suc n) (x ∷ xs) e =
    let least = sweep-least x xs in
    (
      sort_from-All (λ v. (sweep x xs).0.addr ≤ v.addr) n (sweep x xs).1 least.1,
      sort_from-Sorted n (sweep x xs).1 (length-sweep x xs ∙ omega (arith, e)),
    )
