-- ===== src/Pipe/Ring.antt =====
-- The bytes that a pipe holds, and how the loops of `pipewrite` and `piperead` change them.
use xv6_extended.Base.{
  ℕ, zero, suc, ◌+◌, ◌-◌, ◌%◌, ◌^◌, ◌≤◌, ◌<◌, ◌≡◌, ◌↔◌, ◌∙◌, refl, sym, ap, ap₂, true, List, [],
  ◌∷◌, ◌++◌, ◌==◌, arith, length, subst,
}
use xv6_extended.Base.Family.{update, update_self, update_ne}
use xv6_extended.Pipe.{pipesize, Pipe, add_uint, put}

-- How many bytes the pipe holds: `nwrite - nread`, as a uint.
abbrev pub count : Pipe → ℕ
count pi = (pi.nwrite + 2 ^ 32 - pi.nread) % 2 ^ 32

pub record IsValid (pi : Pipe) : Type 0 where
  pub nread_uint : pi.nread < 2 ^ 32
  pub nwrite_uint : pi.nwrite < 2 ^ 32
  pub fits : count pi ≤ pipesize

-- The `n` bytes from counter value `k` on.
abbrev pub window : (ℕ → ℕ) → ℕ → ℕ → List ℕ
window buf k zero = []
window buf k (suc n) = buf (k % pipesize) ∷ window buf (add_uint k 1) n

abbrev pub contents : Pipe → List ℕ
contents pi = window pi.buf pi.nread (count pi)

-- A byte written behind a window that is not full extends it, also where the counter wraps.
window-put :
    (buf : ℕ → ℕ) (ch n k : ℕ)
    → k < 2 ^ 32
    → n < pipesize
    → window (update buf ((k + n) % 2 ^ 32 % pipesize) ch) k (suc n) ≡ window buf k n ++ (ch ∷ [])
window-put buf ch zero k hk hn =
    let here : (k + 0) % 2 ^ 32 % pipesize ≡ k % pipesize = omega arith in
    rw (here, update_self buf (k % pipesize) ch)
window-put buf ch (suc n) k hk hn =
    let same : (add_uint k 1 + n) % 2 ^ 32 % pipesize ≡ (k + suc n) % 2 ^ 32 % pipesize =
      omega arith in
    ap₂ ◌∷◌ (update_ne buf ((k + suc n) % 2 ^ 32 % pipesize) (k % pipesize) ch (omega arith)) (
      subst
        (λ j.
          window (update buf j ch) (add_uint k 1) (suc n)
          ≡ window buf (add_uint k 1) n ++ (ch ∷ []))
        same (window-put buf ch n (add_uint k 1) (omega arith) (omega arith)))

window_of_pos :
    (buf : ℕ → ℕ) (k n : ℕ)
    → 0 < n
    → window buf k n ≡ buf (k % pipesize) ∷ window buf (add_uint k 1) (n - 1)
window_of_pos buf k zero h = absurd (omega arith)
window_of_pos buf k (suc n) h = ap (λ m. window buf k (suc m)) (omega arith)

pub length-contents : (pi : Pipe) → length (contents pi) ≡ count pi
length-contents pi = go pi.nread (count pi)
  where
    go : (k n : ℕ) → length (window pi.buf k n) ≡ n
    go k zero = refl
    go k (suc n) = ap suc (go (add_uint k 1) n)

module _ (pi : Pipe) (v : IsValid pi) where
  -- The test for a full pipe, at counters that may have wrapped.
  pub full_iff : ((pi.nwrite == add_uint pi.nread pipesize) ≡ true) ↔ (count pi ≡ pipesize)
  full_iff = (λ h. ground (arith, v), λ h. ground (arith, v))

  pub empty_iff : ((pi.nread == pi.nwrite) ≡ true) ↔ (count pi ≡ 0)
  empty_iff = (λ h. ground (arith, v), λ h. ground (arith, v))

  pub put-IsValid :
      (ch : ℕ)
      → count pi < pipesize
      → IsValid (put ch pi) × (contents (put ch pi) ≡ contents pi ++ (ch ∷ []))
  unfolding put
  put-IsValid ch room =
      let more : count (put ch pi) ≡ suc (count pi) =
        omega (arith, v.nread_uint, v.nwrite_uint, room) in
      let at : pi.nwrite % pipesize ≡ (pi.nread + count pi) % 2 ^ 32 % pipesize =
        omega (arith, v.nread_uint, v.nwrite_uint) in
      (
        record {
          nread_uint = v.nread_uint;
          nwrite_uint = omega arith;
          fits = omega (arith, more, room);
        },
        ap (window (update pi.buf (pi.nwrite % pipesize) ch) pi.nread) more
            ∙ subst
                (λ j.
                  window (update pi.buf j ch) pi.nread (suc (count pi)) ≡ contents pi ++ (ch ∷ []))
                (sym at) (window-put pi.buf ch (count pi) pi.nread v.nread_uint room),
      )

  abbrev pub behind : Pipe
  behind = record pi { nread = add_uint pi.nread 1 }

  pub take-IsValid :
      0 < count pi → IsValid behind × (contents pi ≡ pi.buf (pi.nread % pipesize) ∷ contents behind)
  take-IsValid some_bytes =
      let less : count behind ≡ count pi - 1 =
        omega (arith, v.nread_uint, v.nwrite_uint, some_bytes) in
      (
        record {
          nread_uint = omega arith;
          nwrite_uint = v.nwrite_uint;
          fits = omega (arith, less, v.fits);
        },
        window_of_pos pi.buf pi.nread (count pi) some_bytes
            ∙ ap (λ n. pi.buf (pi.nread % pipesize) ∷ window pi.buf (add_uint pi.nread 1) n)
                (sym less),
      )
