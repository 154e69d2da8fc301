-- ===== src/Bytes/Text.antt =====
-- Strings: comparison, and copies that pad or terminate.
use xv6_extended.Base.{
  ℕ, zero, suc, ◌+◌, ◌-◌, ◌^◌, ◌≤◌, ◌<◌, ◌≡◌, ◌≢◌, ◌↔◌, ◌⊎◌, ◌∙◌, refl, sym, ap, subst, inl, inr,
  false, ◌&&◌, ◌||◌, not, ◌==◌, Bool-cases, arith, some, is_negative,
}
use xv6_extended.Base.Family.{update}
use xv6_extended.Bytes.{
  Memory, diff, strncmp, zero_fill, strncpy_loop, strncpy, safe_loop, safestrcpy, strlen_loop,
  strlen,
}

-- The strings at `p` and `q` are the same, up to a NUL or for `n` bytes.
abbrev pub Agree : ℕ → ℕ → ℕ → Memory → Type 0
Agree p q zero m = Unit
Agree p q (suc n) m = (m p ≡ m q) × ((m p ≡ 0) ⊎ Agree (p + 1) (q + 1) n m)

Agree-strncmp : (n p q : ℕ) (m : Memory) → Agree p q n m → strncmp p q n m ≡ 0
unfolding strncmp
Agree-strncmp zero p q m h = refl
Agree-strncmp (suc n) p q m (e, inl end) = ground (arith, e, end)
Agree-strncmp (suc n) p q m (e, inr rest) =
    ground (arith, e, Agree-strncmp n (p + 1) (q + 1) m rest)

strncmp-Agree :
    (n p q : ℕ) (m : Memory) → ((a : ℕ) → m a < 256) → strncmp p q n m ≡ 0 → Agree p q n m
unfolding strncmp
strncmp-Agree zero p q m bytes h = tt
strncmp-Agree (suc n) p q m bytes h = elim (Bool-cases (not (m p == 0) && m p == m q)) [
  | inl more ↦ (ground (arith, more), inr (strncmp-Agree n (p + 1) (q + 1) m bytes (rw more at h)))
  | inr stop ↦
      let same : diff (m p) (m q) ≡ 0 = rw stop at h in
      let equal : m p ≡ m q = omega (arith, same, bytes p, bytes q) in
      (equal, inl (ground (arith, stop, equal)))
]

-- On memory of bytes, `strncmp` returns 0 exactly for strings that agree up to a NUL or for `n` bytes.
pub strncmp-eq-zero_iff :
    (n p q : ℕ) (m : Memory) → ((a : ℕ) → m a < 256) → (strncmp p q n m ≡ 0) ↔ Agree p q n m
strncmp-eq-zero_iff n p q m bytes = (strncmp-Agree n p q m bytes, Agree-strncmp n p q m)

-- An address outside the `n` bytes from `s` on.
abbrev pub Apart : ℕ → ℕ → ℕ → Type 0
Apart s n a = (a < s) ⊎ (s + n ≤ a)

zero_fill-Apart : (n s a : ℕ) (m : Memory) → Apart s n a → zero_fill n s m a ≡ m a
unfolding zero_fill
zero_fill-Apart zero s a m h = refl
zero_fill-Apart (suc n) s a m h =
    zero_fill-Apart n (s + 1) a (update m s 0) (ground (arith, h)) ∙ ground (arith, h)

strncpy_loop-Apart : (n s t a : ℕ) (m : Memory) → Apart s n a → strncpy_loop n s t m a ≡ m a
unfolding strncpy_loop
strncpy_loop-Apart zero s t a m h = refl
strncpy_loop-Apart (suc n) s t a m h =
    let here : update m s (m t) a ≡ m a = ground (arith, h) in
    elim (Bool-cases (m t == 0)) [
      | inl end ↦ rw end (zero_fill-Apart n (s + 1) a (update m s (m t)) (ground (arith, h)) ∙ here)
      | inr more ↦
          rw more
            (strncpy_loop-Apart n (s + 1) (t + 1) a (update m s (m t)) (ground (arith, h)) ∙ here)
    ]

strncpy_loop-Agree :
    (n s t : ℕ) (m : Memory) → (s + n ≤ t) ⊎ (t + n ≤ s) → Agree t s n (strncpy_loop n s t m)
unfolding strncpy_loop
strncpy_loop-Agree zero s t m h = tt
strncpy_loop-Agree (suc n) s t m h =
    let m' : Memory = update m s (m t) in
    let source : m' t ≡ m t = ground (arith, h) in
    let target : m' s ≡ m t = ground arith in
    elim (Bool-cases (m t == 0)) [
      | inl end ↦
          let at_t = zero_fill-Apart n (s + 1) t m' (ground (arith, h)) in
          let at_s = zero_fill-Apart n (s + 1) s m' (inl (omega arith)) in
          rw end (at_t ∙ source ∙ sym (at_s ∙ target), inl (at_t ∙ source ∙ ground (arith, end)))
      | inr more ↦
          let at_t = strncpy_loop-Apart n (s + 1) (t + 1) t m' (ground (arith, h)) in
          let at_s = strncpy_loop-Apart n (s + 1) (t + 1) s m' (inl (omega arith)) in
          rw more (
            at_t ∙ source ∙ sym (at_s ∙ target),
            inr (strncpy_loop-Agree n (s + 1) (t + 1) m' (ground (arith, h))),
          )
    ]

-- A name that `strncpy` has stored is found again: the copy of up to `n` bytes to a place apart from
-- the source compares equal to it by `strncmp` at the same length, and no byte outside is changed.
pub strncmp-strncpy :
    (n s t : ℕ) (m : Memory)
    → n < 2 ^ 31
    → (s + n ≤ t) ⊎ (t + n ≤ s)
    → (strncmp t s n (strncpy s t n m) ≡ 0) × ((a : ℕ) → Apart s n a → strncpy s t n m a ≡ m a)
unfolding strncpy
strncmp-strncpy n s t m small h =
    let pos : is_negative n ≡ false = ground (arith, small) in
    rw pos (
      Agree-strncmp n t s (strncpy_loop n s t m) (strncpy_loop-Agree n s t m h),
      λ a out. strncpy_loop-Apart n s t a m out,
    )

-- What `safestrcpy` leaves: a string that ends within `n` bytes, and the rest of memory.
pub record Terminated (n s t : ℕ) (m r : Memory) : Type 0 where
  pub size : ℕ
  pub size_lt : size < n
  pub end : r (s + size) ≡ 0
  pub copied : (i : ℕ) → i < size → r (s + i) ≡ m (t + i)
  pub outside : (a : ℕ) → Apart s n a → r a ≡ m a

safe_loop-Apart : (r s t a : ℕ) (m : Memory) → Apart s (suc r) a → safe_loop r s t m a ≡ m a
unfolding safe_loop
safe_loop-Apart zero s t a m h = ground (arith, h)
safe_loop-Apart (suc r) s t a m h = elim (Bool-cases (m t == 0)) [
  | inl end ↦ rw end (ground (arith, h))
  | inr more ↦ rw more (
      safe_loop-Apart r (s + 1) (t + 1) a (update m s (m t)) (ground (arith, h))
      ∙ ground (arith, h))
]

-- The copied bytes of `Terminated`, one byte further.
copied_next :
    (n s t size : ℕ) (m after : Memory)
    → (s + suc n ≤ t) ⊎ (t + suc n ≤ s)
    → size < n
    → after s ≡ m t
    → ((i : ℕ) → i < size → after (s + 1 + i) ≡ update m s (m t) (t + 1 + i))
    → (i : ℕ) → i < suc size
    → after (s + i) ≡ m (t + i)
copied_next n s t size m after h small first rest zero lt = ground (arith, first)
copied_next n s t size m after h small first rest (suc i) lt =
    let target : s + 1 + i ≡ s + suc i = omega arith in
    let source : t + 1 + i ≡ t + suc i = omega arith in
    ap after (sym target) ∙ rest i (omega (arith, lt)) ∙ ground (arith, h, small, lt) ∙ ap m source

safe_loop-Terminated :
    (r s t : ℕ) (m : Memory)
    → (s + suc r ≤ t) ⊎ (t + suc r ≤ s)
    → Terminated (suc r) s t m (safe_loop r s t m)
unfolding safe_loop
safe_loop-Terminated zero s t m h = record {
  size = 0;
  size_lt = omega arith;
  end = ground arith;
  copied = λ i lt. absurd (omega arith);
  outside = λ a out. ground (arith, out);
}
safe_loop-Terminated (suc r) s t m h = elim (Bool-cases (m t == 0)) [
  | inl end ↦ rw end (record {
    size = 0;
    size_lt = omega arith;
    end = ground (arith, end);
    copied = λ i lt. absurd (omega arith);
    outside = λ a out. ground (arith, out);
  })
  | inr more ↦
      let m' : Memory = update m s (m t) in
      let rest = safe_loop-Terminated r (s + 1) (t + 1) m' (ground (arith, h)) in
      rw more (record {
        size = suc rest.size;
        size_lt = omega (arith, rest.size_lt);
        end = subst (λ a. safe_loop r (s + 1) (t + 1) m' a ≡ 0) (omega arith) rest.end;
        copied =
            copied_next (suc r) s t rest.size m (safe_loop r (s + 1) (t + 1) m') h rest.size_lt
              (safe_loop-Apart r (s + 1) (t + 1) s m' (inl (omega arith)) ∙ ground arith)
              rest.copied;
        outside = λ a out. rest.outside a (ground (arith, out)) ∙ ground (arith, out);
      })
]

-- `safestrcpy` with room for at least one byte leaves a NUL-terminated prefix of the source, shorter
-- than the room, and changes no byte outside of the room, when source and target do not overlap.
pub safestrcpy-Terminated :
    (n s t : ℕ) (m : Memory)
    → 1 ≤ n
    → n < 2 ^ 31
    → (s + n ≤ t) ⊎ (t + n ≤ s)
    → Terminated n s t m (safestrcpy s t n m)
unfolding safestrcpy
safestrcpy-Terminated zero s t m some_room small h = absurd (omega arith)
safestrcpy-Terminated (suc n) s t m some_room small h =
    let pos : (is_negative (suc n) || suc n == 0) ≡ false = ground (arith, small) in
    let rounds : suc n - 1 ≡ n = omega arith in rw (pos, rounds) (safe_loop-Terminated n s t m h)

-- The string at `s` is `size` bytes long.
pub record Measures (s size : ℕ) (m : Memory) : Type 0 where
  pub nul : m (s + size) ≡ 0
  pub no_nul : (i : ℕ) → i < size → m (s + i) ≢ 0

strlen_loop_lem :
    (more n s : ℕ) (m : Memory)
    → Measures s (n + more) m
    → strlen_loop (suc more) s n m ≡ some (n + more)
unfolding strlen_loop
strlen_loop_lem zero n s m h = ground (arith, h.nul)
strlen_loop_lem (suc more) n s m h =
    let here : m (s + n) ≢ 0 = h.no_nul n (omega arith) in
    let next : n + suc more ≡ n + 1 + more = omega arith in
    let rest = strlen_loop_lem more (n + 1) s m (subst (λ size. Measures s size m) next h) in
    let go : (m (s + n) == 0) ≡ false = ground (arith, here) in rw (go, next) rest

-- With fuel for one round a byte and one for the NUL, `strlen` returns the number of bytes before the
-- first NUL.
pub strlen_lem : (s size : ℕ) (m : Memory) → Measures s size m → strlen (size + 1) s m ≡ some size
unfolding strlen
strlen_lem s size m h =
    let fuel : size + 1 ≡ suc size = omega arith in
    let from_zero : 0 + size ≡ size = omega arith in
    rw fuel (
      strlen_loop_lem size 0 s m (subst (λ k. Measures s k m) (sym from_zero) h)
      ∙ ap some from_zero)
