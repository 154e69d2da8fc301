-- ===== src/Cache/Init.antt =====
-- `binit`: every buffer is in the ring.
use xv6_extended.Base.{
  ℕ, zero, suc, ◌+◌, ◌^◌, ◌<◌, ◌≡◌, ◌∙◌, refl, sym, ap, subst, inl, inr, false, List, [], ◌∷◌, ◌==◌,
  ltb, Bool-cases, contains, Distinct, length, arith,
}
use xv6_extended.Base.Family.{update, update_self, update_ne}
use xv6_extended.Sleeplock.{initsleeplock}
use xv6_extended.Cache.{
  nbuf, head, Buf, Bcache, set_buf, set_next, set_prev, push_front, init_from, binit,
}
use xv6_extended.Cache.Links.{Linked}
use xv6_extended.Cache.Valid.{IsValid}
use xv6_extended.Cache.Release.{push_front-Linked}

-- The buffers below `n`, the last one first.
abbrev pub below : ℕ → List ℕ
below zero = []
below (suc n) = n ∷ below n

contains-below : (n b : ℕ) → contains (below n) b ≡ ltb b n
contains-below zero b = ground arith
contains-below (suc n) b = let e = contains-below n b in ground (arith, e)

Distinct-below : (n : ℕ) → Distinct (below n)
Distinct-below zero = tt
Distinct-below (suc n) = (contains-below n n ∙ ground arith, Distinct-below n)

length-below : (n : ℕ) → length (below n) ≡ n
length-below zero = refl
length-below (suc n) = ap suc (length-below n)

-- No buffer has been used.
pub record Blank (s : Bcache) : Type 0 where
  pub no_dev : (b : ℕ) → (s.buf b).dev ≡ 0
  pub no_refs : (b : ℕ) → (s.buf b).refcnt ≡ 0

-- With the lock of `b` set up.
abbrev with_lock : ℕ → Bcache → Bcache
with_lock b s = set_buf b (record (s.buf b) { lock = initsleeplock }) s

with_lock-Blank : (s : Bcache) (b : ℕ) → Blank s → Blank (with_lock b s)
with_lock-Blank s b h = record {
  no_dev = λ x. field (λ w. w.dev) (h.no_dev) x refl;
  no_refs = λ x. field (λ w. w.refcnt) (h.no_refs) x refl;
}
  where
    v : Buf
    v = record (s.buf b) { lock = initsleeplock }

    field :
        (f : Buf → ℕ)
        → ((x : ℕ) → f (s.buf x) ≡ 0)
        → (x : ℕ) → f v ≡ f (s.buf b)
        → f (update s.buf b v x) ≡ 0
    field f zeros x same = elim (Bool-cases (b == x)) [
      | inl at ↦
          subst (λ y. f (update s.buf b v y) ≡ 0) (ground (arith, at))
            (ap f (update_self s.buf b v) ∙ same ∙ zeros b)
      | inr off ↦ ap f (update_ne s.buf b x v (ground (arith, off))) ∙ zeros x
    ]

init_from-below :
    (n b : ℕ) (s : Bcache)
    → b + n ≡ nbuf
    → Blank s
    → Linked s.next s.prev head (below b) head
    → (s' : Bcache) × (init_from n b s ≡ s')
      × Blank s'
      × Linked s'.next s'.prev head (below nbuf) head
unfolding init_from push_front
init_from-below zero b s e blank h =
    let at : b ≡ nbuf = omega (arith, e) in
    (s, refl, blank, subst (λ c. Linked s.next s.prev head (below c) head) at h)
init_from-below (suc n) b s e blank h =
    let s1 = with_lock b s in
    let small : b < nbuf = omega (arith, e) in
    let blank1 = with_lock-Blank s b blank in
    let next_one : suc b ≡ b + 1 = ground arith in
    init_from-below n (b + 1) (push_front b s1) (omega (arith, e))
      (record { no_dev = blank1.no_dev; no_refs = blank1.no_refs })
      (subst (λ c. Linked (push_front b s1).next (push_front b s1).prev head (below c) head)
        next_one
        (push_front-Linked s1 b (below b) h (fresh b small (contains-below b b))
          (contains-below b head ∙ ground (arith, small)) (Distinct-below b)))
  where
    fresh :
        (c : ℕ) → c < nbuf → contains (below c) c ≡ ltb c c → contains (head ∷ below c) c ≡ false
    fresh c small e = ground (arith, small, e)

-- After `binit` on buffers that have not been used, the cache is valid, with the last buffer at the front.
pub binit-IsValid : (s : Bcache) → Blank s → IsValid (binit s) (below nbuf)
unfolding binit
binit-IsValid s blank =
    let (s', ran, still, ring) =
      init_from-below nbuf 0 (set_next head head (set_prev head head s)) refl
        (record { no_dev = blank.no_dev; no_refs = blank.no_refs })
        (update_self s.next head head, update_self s.prev head head) in
    subst (λ t. IsValid t (below nbuf)) (sym ran)
      (record {
        linked = ring;
        once = Distinct-below nbuf;
        all = contains-below nbuf;
        count = length-below nbuf;
        unique = λ a b ha hb ne d n. still.no_dev a;
        range = λ b. subst (λ n. n < 2 ^ 32) (sym (still.no_refs b)) (omega arith);
      })
