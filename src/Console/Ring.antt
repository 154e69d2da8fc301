-- ===== src/Console/Ring.antt =====
-- The bytes between two indices of the input buffer, also where the indices wrap.
use xv6_extended.Base.{
  ℕ, zero, suc, ◌+◌, ◌-◌, ◌%◌, ◌^◌, ◌≤◌, ◌<◌, ◌≡◌, ◌∙◌, refl, ap, ap₂, subst, List, [], ◌∷◌, ◌++◌,
  arith,
}
use xv6_extended.Base.Family.{update, update_ne}
use xv6_extended.Console.{input_buf_size, add_uint}

-- The `n` bytes from index `k` on.
abbrev pub window : (ℕ → ℕ) → ℕ → ℕ → List ℕ
window buf k zero = []
window buf k (suc n) = buf (k % input_buf_size) ∷ window buf (add_uint k 1) n

-- A window in two parts.
pub window-add :
    (buf : ℕ → ℕ) (k a b : ℕ)
    → k < 2 ^ 32
    → window buf k (a + b) ≡ window buf k a ++ window buf (add_uint k a) b
window-add buf k zero b hk =
    let same : add_uint k 0 ≡ k = omega arith in
    let none : 0 + b ≡ b = omega arith in rw (same, none) refl
window-add buf k (suc a) b hk =
    let next : add_uint (add_uint k 1) a ≡ add_uint k (suc a) = omega arith in
    let more : suc a + b ≡ suc (a + b) = omega arith in
    ap (window buf k) more
    ∙ ap (λ l. buf (k % input_buf_size) ∷ l)
        (window-add buf (add_uint k 1) a b (omega arith)
          ∙ ap (λ j. window buf (add_uint k 1) a ++ window buf j b) next)

pub window_snoc :
    (buf : ℕ → ℕ) (k n : ℕ)
    → k < 2 ^ 32
    → window buf k (n + 1) ≡ window buf k n ++ (buf (add_uint k n % input_buf_size) ∷ [])
window_snoc buf k n hk = window-add buf k n 1 hk

-- A byte stored outside of a window does not show in it.
pub window-update :
    (buf : ℕ → ℕ) (ch k n d : ℕ)
    → k < 2 ^ 32
    → n ≤ d
    → d < input_buf_size
    → window (update buf (add_uint k d % input_buf_size) ch) k n ≡ window buf k n
window-update buf ch k zero d hk h1 h2 = refl
window-update buf ch k (suc n) d hk h1 h2 =
    let next : add_uint (add_uint k 1) (d - 1) ≡ add_uint k d = omega arith in
    ap₂ ◌∷◌ (update_ne buf (add_uint k d % input_buf_size) (k % input_buf_size) ch (omega arith)) (
      subst
        (λ j.
          window (update buf (j % input_buf_size) ch) (add_uint k 1) n
          ≡ window buf (add_uint k 1) n)
        next
        (window-update buf ch (add_uint k 1) n (d - 1) (omega arith) (omega arith) (omega arith)))
