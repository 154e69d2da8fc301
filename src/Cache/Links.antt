-- ===== src/Cache/Links.antt =====
-- Doubly linked lists: what the pointers say of the order, and what a change of them does to it.
use xv6_extended.Base.{
  ℕ, zero, suc, ◌+◌, ◌<◌, ◌≡◌, ◌≢◌, ◌⊎◌, ◌∙◌, refl, sym, ap, subst, inl, inr, Bool, true, false,
  ◌||◌, List, [], ◌∷◌, ◌++◌, some, ◌==◌, if◌then◌else◌, Bool-cases, contains, Distinct, length,
  arith,
}
use xv6_extended.Base.Family.{update, update_self, update_ne}
use xv6_extended.Cache.{head, first}

-- From `a` along `next` stand the nodes of the list, and then `z`; and back along `prev`.
abbrev pub Linked : (ℕ → ℕ) → (ℕ → ℕ) → ℕ → List ℕ → ℕ → Type 0
Linked next prev a [] z = (next a ≡ z) × (prev z ≡ a)
Linked next prev a (x ∷ l) z = (next a ≡ x) × (prev x ≡ a) × Linked next prev x l z

abbrev pub reverse_onto : List ℕ → List ℕ → List ℕ
reverse_onto [] r = r
reverse_onto (x ∷ l) r = reverse_onto l (x ∷ r)

-- The first node of the list that passes the test, or the head.
abbrev pub find_or_head : (ℕ → Bool) → List ℕ → ℕ
find_or_head test [] = head
find_or_head test (x ∷ l) = if test x then x else find_or_head test l

Linked-back :
    (next prev : ℕ → ℕ) (a z w : ℕ) (l r : List ℕ)
    → Linked next prev a l z
    → Linked prev next a r w
    → Linked prev next z (reverse_onto l (a ∷ r)) w
Linked-back next prev a z w [] r h back = (h.1, h.0, back)
Linked-back next prev a z w (x ∷ l) r h back =
    Linked-back next prev x z w l (a ∷ r) h.2 (h.1, h.0, back)

-- A ring read backwards.
pub Linked-reverse :
    (next prev : ℕ → ℕ) (a : ℕ) (l : List ℕ)
    → Linked next prev a l a
    → Linked prev next a (reverse_onto l []) a
Linked-reverse next prev a [] h = (h.1, h.0)
Linked-reverse next prev a (x ∷ l) h = Linked-back next prev x a a l [] h.2 (h.1, h.0)

pub contains-reverse_onto :
    (l r : List ℕ) (a : ℕ) → contains (reverse_onto l r) a ≡ (contains l a || contains r a)
contains-reverse_onto [] r a = refl
contains-reverse_onto (x ∷ l) r a = contains-reverse_onto l (x ∷ r) a ∙ ground arith

pub length-reverse_onto : (l r : List ℕ) → length (reverse_onto l r) ≡ length l + length r
length-reverse_onto [] r = omega arith
length-reverse_onto (x ∷ l) r = omega (arith, length-reverse_onto l (x ∷ r))

-- The loop along the pointers, with a round for each node and one for the head.
pub first-find :
    (fuel : ℕ) (next prev : ℕ → ℕ) (test : ℕ → Bool) (a b : ℕ) (l : List ℕ)
    → length l < fuel
    → next a ≡ b
    → Linked next prev a l head
    → contains l head ≡ false
    → first fuel next test b ≡ some (find_or_head test l)
unfolding first
first-find zero next prev test a b l enough at h out = absurd (omega (arith, enough))
first-find (suc fuel) next prev test a b [] enough at h out =
    let e : (b == head) ≡ true = ground (arith, at, h.0) in rw e refl
first-find (suc fuel) next prev test a b (x ∷ l) enough at h out =
    let same : b ≡ x = sym at ∙ h.0 in
    let not_end : (x == head) ≡ false = ground (arith, out) in
    let rest =
      first-find fuel next prev test x (next x) l (omega (arith, enough)) refl h.2
        (ground (arith, out)) in
    subst (λ y. first (suc fuel) next test y ≡ some (find_or_head test (x ∷ l))) (sym same)
      (rw (not_end, rest) (elim (Bool-cases (test x)) [ inl t ↦ rw t refl | inr f ↦ rw f refl ]))

-- Pointers that the list does not use may change.
pub Linked-update :
    (next prev : ℕ → ℕ) (i v j w a : ℕ) (l : List ℕ) (z : ℕ)
    → Linked next prev a l z
    → contains (a ∷ l) i ≡ false
    → contains l j ≡ false
    → z ≢ j
    → Linked (update next i v) (update prev j w) a l z
Linked-update next prev i v j w a [] z h oi oj oz =
    (update_ne next i a v (ground (arith, oi)) ∙ h.0, update_ne prev j z w (λ e. oz (sym e)) ∙ h.1)
Linked-update next prev i v j w a (x ∷ l) z h oi oj oz = (
  update_ne next i a v (ground (arith, oi)) ∙ h.0,
  update_ne prev j x w (ground (arith, oj)) ∙ h.1,
  Linked-update next prev i v j w x l z h.2 (ground (arith, oi)) (ground (arith, oj)) oz,
)

-- A node goes in behind `a`, before what stands there.
push_at :
    (next prev : ℕ → ℕ) (a b n : ℕ) (l : List ℕ) (z : ℕ)
    → next a ≡ n
    → Linked next prev a l z
    → contains (a ∷ l) b ≡ false
    → contains l a ≡ false
    → Distinct l
    → z ≢ b
    → contains l z ≡ false
    → Linked (update (update next b n) a b) (update (update prev b a) n b) a (b ∷ l) z
push_at next prev a b n [] z at h new out once nz oz =
    let e : n ≡ z = sym at ∙ h.0 in
    (
      update_self (update next b n) a b,
      update_ne (update prev b a) n b b (λ q. nz (sym e ∙ q)) ∙ update_self prev b a,
      (
        update_ne (update next b n) a b b (ground (arith, new)) ∙ update_self next b n ∙ e,
        subst (λ y. update (update prev b a) n b y ≡ b) e (update_self (update prev b a) n b),
      ),
    )
push_at next prev a b n (x ∷ l) z at h new out once nz oz =
    let e : n ≡ x = sym at ∙ h.0 in
    (
      update_self (update next b n) a b,
      update_ne (update prev b a) n b b (ground (arith, new, e)) ∙ update_self prev b a,
      (
        update_ne (update next b n) a b b (ground (arith, new)) ∙ update_self next b n ∙ e,
        subst (λ y. update (update prev b a) n b y ≡ b) e (update_self (update prev b a) n b),
        Linked-update (update next b n) (update prev b a) a b n b x l z
            (Linked-update next prev b n b a x l z h.2 (ground (arith, new)) (ground (arith, new))
              nz)
            (ground (arith, out)) (ground (arith, e, once)) (ground (arith, e, oz)),
      ),
    )

pub Linked-push :
    (next prev : ℕ → ℕ) (a b : ℕ) (l : List ℕ) (z : ℕ)
    → Linked next prev a l z
    → contains (a ∷ l) b ≡ false
    → contains l a ≡ false
    → Distinct l
    → z ≢ b
    → contains l z ≡ false
    → Linked (update (update next b (next a)) a b) (update (update prev b a) (next a) b) a (b ∷ l) z
Linked-push next prev a b l z = push_at next prev a b (next a) l z refl

-- The node before `b` in the list.
prev_contains :
    (next prev : ℕ → ℕ) (a b : ℕ) (xs ys : List ℕ) (z : ℕ)
    → Linked next prev a (xs ++ (b ∷ ys)) z
    → contains (a ∷ xs) (prev b) ≡ true
prev_contains next prev a b [] ys z h = ground (arith, h.1)
prev_contains next prev a b (x ∷ xs) ys z h =
    ground (arith, prev_contains next prev x b xs ys z h.2)

-- The node behind it.
pub next_contains :
    (next prev : ℕ → ℕ) (a b : ℕ) (xs ys : List ℕ) (z : ℕ)
    → Linked next prev a (xs ++ (b ∷ ys)) z
    → contains (z ∷ ys) (next b) ≡ true
next_contains next prev a b [] [] z h = ground (arith, h.2.0)
next_contains next prev a b [] (y ∷ ys) z h = ground (arith, h.2.0)
next_contains next prev a b (x ∷ xs) ys z h = next_contains next prev x b xs ys z h.2

pub contains-append :
    (xs ys : List ℕ) (a : ℕ) → contains (xs ++ ys) a ≡ (contains xs a || contains ys a)
contains-append [] ys a = refl
contains-append (x ∷ xs) ys a = ap (λ c. (x == a) || c) (contains-append xs ys a) ∙ ground arith

-- The node `b` goes out.
pub Linked-unlink :
    (next prev : ℕ → ℕ) (a b p n : ℕ) (xs ys : List ℕ) (z : ℕ)
    → prev b ≡ p
    → next b ≡ n
    → Linked next prev a (xs ++ (b ∷ ys)) z
    → Distinct (xs ++ (b ∷ ys))
    → contains (xs ++ (b ∷ ys)) a ≡ false
    → contains (xs ++ (b ∷ ys)) z ≡ false
    → Linked (update next p n) (update prev n p) a (xs ++ ys) z
Linked-unlink next prev a b p n [] [] z ep en h once oa oz =
    let e : p ≡ a = sym ep ∙ h.1 in
    let e2 : n ≡ z = sym en ∙ h.2.0 in
    (
      subst (λ y. update next p n y ≡ z) e (update_self next p n ∙ e2),
      subst (λ y. update prev n p y ≡ a) e2 (update_self prev n p ∙ e),
    )
Linked-unlink next prev a b p n [] (y ∷ ys) z ep en h once oa oz =
    let e : p ≡ a = sym ep ∙ h.1 in
    let e2 : n ≡ y = sym en ∙ h.2.0 in
    (
      subst (λ q. update next p n q ≡ y) e (update_self next p n ∙ e2),
      subst (λ q. update prev n p q ≡ a) e2 (update_self prev n p ∙ e),
      Linked-update next prev p n n p y ys z h.2.2 (ground (arith, e, oa))
          (ground (arith, e2, once)) (ground (arith, e2, oz)),
    )
Linked-unlink next prev a b p n (x ∷ xs) ys z ep en h once oa oz =
    let before = prev_contains next prev x b xs ys z h.2 in
    let behind = next_contains next prev x b xs ys z h.2 in
    (
      update_ne next p a n (ground (arith, before, ep, oa, contains-append xs (b ∷ ys) a)) ∙ h.0,
      update_ne prev n x p (ground (arith, behind, en, once, oz, contains-append xs (b ∷ ys) x))
          ∙ h.1,
      Linked-unlink next prev x b p n xs ys z ep en h.2 once.1 once.0 (ground (arith, oz)),
    )

pub contains_split :
    (l : List ℕ) (b : ℕ)
    → contains l b ≡ true
    → (xs : List ℕ) × (ys : List ℕ) × (l ≡ xs ++ (b ∷ ys))
contains_split [] b h = cc
contains_split (x ∷ l) b h = elim (Bool-cases (x == b)) [
  | inl same ↦ ([], l, ap (λ y. y ∷ l) (ground (arith, same)))
  | inr other ↦
      let (xs, ys, e) = contains_split l b (ground (arith, h, other)) in
      (x ∷ xs, ys, ap (λ m. x ∷ m) e)
]

pub find_cases :
    (test : ℕ → Bool) (l : List ℕ)
    → ((test (find_or_head test l) ≡ true) × (contains l (find_or_head test l) ≡ true))
      ⊎ ((find_or_head test l ≡ head) × ((b : ℕ) → contains l b ≡ true → test b ≡ false))
find_cases test [] = inr (refl, λ b h. cc)
find_cases test (x ∷ l) = elim (Bool-cases (test x)) [
  | inl good ↦ rw good (inl (good, ground arith))
  | inr bad ↦ rw bad (elim (find_cases test l) [
    | inl (good, there) ↦ inl (good, ground (arith, there))
    | inr (none_left, all_bad) ↦ inr (
      none_left,
      λ b h. elim (Bool-cases (x == b)) [
        | inl same ↦ subst (λ y. test y ≡ false) (ground (arith, same)) bad
        | inr other ↦ all_bad b (ground (arith, h, other))
      ],
    )
  ])
]

-- A search backwards finds the last node that passes.
pub find-reverse :
    (test : ℕ → Bool) (l r : List ℕ)
    → ((xs : List ℕ) × (ys : List ℕ) × (l ≡ xs ++ (find_or_head test (reverse_onto l r) ∷ ys))
        × (test (find_or_head test (reverse_onto l r)) ≡ true)
        × ((b : ℕ) → contains ys b ≡ true → test b ≡ false))
      ⊎ ((find_or_head test (reverse_onto l r) ≡ find_or_head test r)
          × ((b : ℕ) → contains l b ≡ true → test b ≡ false))
find-reverse test [] r = inr (refl, λ b h. cc)
find-reverse test (x ∷ l) r = elim (find-reverse test l (x ∷ r)) [
  | inl (xs, ys, e, good, behind) ↦ inl (x ∷ xs, ys, ap (λ m. x ∷ m) e, good, behind)
  | inr (same, all_bad) ↦ elim (Bool-cases (test x)) [
    | inl good ↦
        let at : find_or_head test (reverse_onto l (x ∷ r)) ≡ x =
          same ∙ ap (λ c. if c then x else find_or_head test r) good in
        inl ([], l, ap (λ y. y ∷ l) (sym at), ap test at ∙ good, all_bad)
    | inr bad ↦ inr (
      same ∙ ap (λ c. if c then x else find_or_head test r) bad,
      λ b h. elim (Bool-cases (x == b)) [
        | inl is ↦ subst (λ y. test y ≡ false) (ground (arith, is)) bad
        | inr other ↦ all_bad b (ground (arith, h, other))
      ],
    )
  ]
]

pub Distinct-middle :
    (xs : List ℕ) (b : ℕ) (ys : List ℕ)
    → Distinct (xs ++ (b ∷ ys))
    → Distinct (xs ++ ys) × (contains (xs ++ ys) b ≡ false)
Distinct-middle [] b ys h = (h.1, h.0)
Distinct-middle (x ∷ xs) b ys h =
    let t = Distinct-middle xs b ys h.1 in
    (
      (ground (arith, h.0, contains-append xs (b ∷ ys) x, contains-append xs ys x), t.0),
      ground (arith, t.1, h.0, contains-append xs (b ∷ ys) x),
    )

pub length-middle :
    (xs : List ℕ) (b : ℕ) (ys : List ℕ) → length (xs ++ (b ∷ ys)) ≡ suc (length (xs ++ ys))
length-middle [] b ys = refl
length-middle (x ∷ xs) b ys = ap suc (length-middle xs b ys)
