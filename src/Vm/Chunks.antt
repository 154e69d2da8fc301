-- ===== src/Vm/Chunks.antt =====
-- The inner loop of `copyinstr`, over the bytes of one page.
use xv6_extended.Base.{
  ℕ, zero, suc, ◌+◌, ◌-◌, ◌≤◌, ◌<◌, ◌≡◌, ◌≢◌, ◌∙◌, refl, sym, ap, subst, inl, inr, true, false, ltb,
  leb, ◌==◌, if◌then◌else◌, Bool-cases, arith,
}
use xv6_extended.Base.Family.{update}
use xv6_extended.Vm.User.{load_bytes, string_bytes}

-- How much of a string is copied whose first NUL stands at `k`, within `max` bytes.
abbrev pub copied_len : ℕ → ℕ → ℕ
copied_len k max = if ltb k max then suc k else max

-- A byte, and then those behind it.
load_first :
    (m : ℕ) (page : ℕ → ℕ) (off dst : ℕ) (ker : ℕ → ℕ) (a : ℕ)
    → load_bytes (dst + 1) m page (off + 1) (update ker dst (page off)) a
      ≡ load_bytes dst (suc m) page off ker a
load_first m page off dst ker a = elim (Bool-cases (dst == a)) [
  | inl at ↦
      let e : page off ≡ page (off + (a - dst)) = ap page (ground (arith, at)) in
      ground (arith, at, e)
  | inr other ↦
      let e : leb (dst + 1) a ≡ true → page (off + 1 + (a - (dst + 1))) ≡ page (off + (a - dst)) =
        λ h. ap page (ground (arith, h)) in
      ground (arith, other, e)
]

load_nothing :
    (page : ℕ → ℕ) (off dst : ℕ) (ker : ℕ → ℕ) (a : ℕ) → ker a ≡ load_bytes dst 0 page off ker a
load_nothing page off dst ker a = ground arith

pub string_bytes-load :
    (n k : ℕ) (page : ℕ → ℕ) (off dst : ℕ) (ker : ℕ → ℕ)
    → k ≤ n
    → ((j : ℕ) → j < k → page (off + j) ≢ 0)
    → (k < n → page (off + k) ≡ 0)
    → (ker' : ℕ → ℕ) × (string_bytes n page off dst ker ≡ (ltb k n, ker'))
      × ((a : ℕ) → ker' a ≡ load_bytes dst (copied_len k n) page off ker a)
unfolding string_bytes
string_bytes-load zero zero page off dst ker le text end = (ker, refl, λ a. ground arith)
string_bytes-load zero (suc k) page off dst ker le text end = absurd (omega (arith, le))
string_bytes-load (suc n) zero page off dst ker le text end =
    let stop : page off ≡ 0 = ap page (omega arith) ∙ end (omega arith) in
    let e : ltb 0 (suc n) ≡ true = ground arith in
    (
      update ker dst 0,
      rw (stop, e) refl,
      λ a.
          ap (λ b. update ker dst b a) (sym stop)
          ∙ load_nothing page (off + 1) (dst + 1) (update ker dst (page off)) a
          ∙ load_first 0 page off dst ker a
          ∙ ap (λ m. load_bytes dst m page off ker a) (ground arith),
    )
string_bytes-load (suc n) (suc k) page off dst ker le text end =
    let go_on : page off ≢ 0 = subst (λ o. page o ≢ 0) (omega arith) (text 0 (omega arith)) in
    let e : (page off == 0) ≡ false = ground (arith, go_on) in
    let g =
      string_bytes-load n k page (off + 1) (dst + 1) (update ker dst (page off)) (omega (arith, le))
        (λ j h. subst (λ o. page o ≢ 0) (omega arith) (text (j + 1) (omega (arith, h))))
        (λ h. ap page (omega arith) ∙ end (omega (arith, h))) in
    let same : ltb k n ≡ ltb (suc k) (suc n) = ground arith in
    (
      g.0,
      rw e (g.1 ∙ ap (λ b. (b, g.0)) same),
      λ a.
          g.2 a
          ∙ load_first (copied_len k n) page off dst ker a
          ∙ ap (λ m. load_bytes dst m page off ker a) (ground arith),
    )
