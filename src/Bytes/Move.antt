-- ===== src/Bytes/Move.antt =====
-- `memset` and `memmove`: what they leave at each address.
use xv6_extended.Base.{
  ℕ, zero, suc, ◌+◌, ◌-◌, ◌%◌, ◌≤◌, ◌<◌, ◌≡◌, ◌⊎◌, ◌∙◌, inl, inr, Bool, false, ◌&&◌, ◌==◌, ltb, leb,
  if◌then◌else◌, Bool-cases, arith,
}
use xv6_extended.Base.Family.{update}
use xv6_extended.Bytes.{Memory, set_loop, memset, copy_up, copy_down, memmove}

-- The address lies in the `n` bytes from `d` on.
abbrev pub within : ℕ → ℕ → ℕ → Bool
within d n a = leb d a && ltb a (d + n)

set_loop_lem :
    (r i dst c a : ℕ) (m : Memory)
    → set_loop r i dst c m a ≡ (if within (dst + i) r a then c % 256 else m a)
unfolding set_loop
set_loop_lem zero i dst c a m = ground arith
set_loop_lem (suc r) i dst c a m =
    ground (arith, set_loop_lem r (i + 1) dst c a (update m (dst + i) (c % 256)))

-- `memset` writes the low byte of `c` at the `n` addresses from `dst` on, and nowhere else.
pub memset_lem :
    (dst c n a : ℕ) (m : Memory) → memset dst c n m a ≡ (if within dst n a then c % 256 else m a)
unfolding memset
memset_lem dst c n a m = ground (arith, set_loop_lem n 0 dst c a m)

apart_next : (n d s : ℕ) → (d ≤ s) ⊎ (s + suc n ≤ d) → (d + 1 ≤ s + 1) ⊎ (s + 1 + n ≤ d + 1)
apart_next n d s (inl h) = inl (omega arith)
apart_next n d s (inr h) = inr (omega arith)

-- Forward copying is right unless the target starts inside the source, behind its start.
copy_up_lem :
    (n d s a : ℕ) (m : Memory)
    → (d ≤ s) ⊎ (s + n ≤ d)
    → copy_up n d s m a ≡ (if within d n a then m (s + (a - d)) else m a)
unfolding copy_up
copy_up_lem zero d s a m h = ground arith
copy_up_lem (suc n) d s a m h =
    copy_up_lem n (d + 1) (s + 1) a (update m d (m s)) (apart_next n d s h) ∙ step
  where
    step :
        (if within (d + 1) n a
          then update m d (m s) (s + 1 + (a - (d + 1)))
          else update m d (m s) a)
        ≡ (if within d (suc n) a then m (s + (a - d)) else m a)
    step = ground (arith, h)

apart_cases : (n d s : ℕ) → (ltb s d && ltb d (s + n)) ≡ false → (d ≤ s) ⊎ (s + n ≤ d)
apart_cases n d s h = elim (Bool-cases (ltb s d)) [
  | inl behind ↦ inr (ground (arith, h, behind))
  | inr before ↦ inl (ground (arith, before))
]

copy_down_lem :
    (n d s a : ℕ) (m : Memory)
    → s < d
    → copy_down n (d + n) (s + n) m a ≡ (if within d n a then m (s + (a - d)) else m a)
unfolding copy_down
copy_down_lem zero d s a m h = ground arith
copy_down_lem (suc n) d s a m h =
    let top : d + suc n - 1 ≡ d + n = omega arith in
    let from : s + suc n - 1 ≡ s + n = omega arith in
    rw (top, from) (copy_down_lem n d s a (update m (d + n) (m (s + n))) h ∙ step)
  where
    step :
        (if within d n a
          then update m (d + n) (m (s + n)) (s + (a - d))
          else update m (d + n) (m (s + n)) a)
        ≡ (if within d (suc n) a then m (s + (a - d)) else m a)
    step = ground (arith, h)

-- `memmove` leaves at each of the `n` addresses from `dst` on the byte that the source had there before
-- the call, also where the two overlap, and changes no other address.
pub memmove_lem :
    (dst src n a : ℕ) (m : Memory)
    → memmove dst src n m a ≡ (if within dst n a then m (src + (a - dst)) else m a)
unfolding memmove
memmove_lem dst src n a m = elim (Bool-cases (n == 0)) [
  | inl none_asked ↦ rw none_asked (ground arith)
  | inr some_asked ↦ elim (Bool-cases (ltb src dst && ltb dst (src + n))) [
    | inl overlap ↦ rw (some_asked, overlap) (copy_down_lem n dst src a m (ground (arith, overlap)))
    | inr apart ↦ rw (some_asked, apart) (copy_up_lem n dst src a m (apart_cases n dst src apart))
  ]
]
