-- ===== src/Vm/Text.antt =====
-- What `copyinstr` reads of user memory.
use xv6_extended.Base.{
  ℕ, zero, suc, ◌+◌, ◌-◌, ◌%◌, ◌≤◌, ◌<◌, ◌≡◌, ◌≢◌, ◌∙◌, refl, sym, ap, ap₂, subst, inl, inr, Bool,
  true, false, ◌&&◌, List, ltb, leb, ◌==◌, if◌then◌else◌, Bool-cases, arith, done,
}
use xv6_extended.Memory.{pgsize, pg_round_down}
use xv6_extended.Proc.{Vma}
use xv6_extended.Vm.{Mem, walkaddr}
use xv6_extended.Vm.Fault.{Files}
use xv6_extended.Vm.User.{chunk, load_bytes, string_bytes, string_loop, copyinstr}
use xv6_extended.Vm.Flat.{
  page_at, user_byte, with_user, user_page-present, user_byte-chunk, with_user-chunk,
  load-with_user,
}
use xv6_extended.Vm.Chunks.{copied_len, string_bytes-load}

module _ (end : ℕ) (files : Files) (sz : ℕ) (vmas : List Vma) (pt : ℕ) (s : Mem) where
  -- A round of the loop, from what its page holds.
  string_loop-round :
      (fuel max dst srcva : ℕ) (ker : ℕ → ℕ) (got : Bool × (ℕ → ℕ))
      → (max == 0) ≡ false
      → walkaddr pt (pg_round_down srcva) s ≢ 0
      → string_bytes
          (chunk srcva max)
          (s.byte (walkaddr pt (pg_round_down srcva) s))
          (srcva % pgsize)
          dst
          ker
        ≡ got
      → string_loop end files sz vmas pt (suc fuel) dst srcva max ker s ≡ (
          if got.0
          then done (true, got.1, s)
          else string_loop end files sz vmas pt fuel
              (dst + chunk srcva max)
              (pg_round_down srcva + pgsize)
              (max - chunk srcva max)
              got.1
              s)
  unfolding string_loop
  string_loop-round fuel max dst srcva ker got more first read =
      let e : (walkaddr pt (pg_round_down srcva) s == 0) ≡ false = ground (arith, first) in
      rw (more, user_page-present end files sz vmas pt s (pg_round_down srcva) true first, e, read)
        refl

  abbrev StringRead : ℕ → ℕ → ℕ → ℕ → ℕ → (ℕ → ℕ) → Type 0
  StringRead fuel max k dst srcva ker =
      (ker' : ℕ → ℕ) × (string_loop end files sz vmas pt fuel dst srcva max ker s
        ≡ done (ltb k max, ker', s))
      × ((a : ℕ) → ker' a ≡ with_user s pt dst srcva (copied_len k max) ker a)

  -- The NUL stands in this page.
  found-StringRead :
      (fuel max k dst srcva : ℕ) (ker ker1 : ℕ → ℕ)
      → (max == 0) ≡ false
      → walkaddr pt (pg_round_down srcva) s ≢ 0
      → k < chunk srcva max
      → string_bytes
          (chunk srcva max)
          (s.byte (walkaddr pt (pg_round_down srcva) s))
          (srcva % pgsize)
          dst
          ker
        ≡ (true, ker1)
      → ((a : ℕ)
          → ker1 a
            ≡ load_bytes dst
                (suc k)
                (s.byte (walkaddr pt (pg_round_down srcva) s))
                (srcva % pgsize)
                ker
                a)
      → StringRead (suc fuel) max k dst srcva ker
  found-StringRead fuel max k dst srcva ker ker1 more first here read bytes =
      let same : true ≡ ltb k max = ground (arith, here) in
      let len_same : suc k ≡ copied_len k max = ground (arith, here) in
      (
        ker1,
        string_loop-round fuel max dst srcva ker (true, ker1) more first read
            ∙ ap (λ b. done (b, ker1, s)) same,
        λ a.
            bytes a
            ∙ load-with_user end files sz vmas pt s dst srcva max (suc k) a ker
                (omega (arith, here))
            ∙ ap (λ m. with_user s pt dst srcva m ker a) len_same,
      )

  -- It does not.
  later-StringRead :
      (fuel max k dst srcva : ℕ) (ker ker1 : ℕ → ℕ)
      → (max == 0) ≡ false
      → walkaddr pt (pg_round_down srcva) s ≢ 0
      → chunk srcva max ≤ k
      → k ≤ max
      → string_bytes
          (chunk srcva max)
          (s.byte (walkaddr pt (pg_round_down srcva) s))
          (srcva % pgsize)
          dst
          ker
        ≡ (false, ker1)
      → ((a : ℕ)
          → ker1 a
            ≡ load_bytes dst
                (chunk srcva max)
                (s.byte (walkaddr pt (pg_round_down srcva) s))
                (srcva % pgsize)
                ker
                a)
      → StringRead fuel
          (max - chunk srcva max)
          (k - chunk srcva max)
          (dst + chunk srcva max)
          (pg_round_down srcva + pgsize)
          ker1
      → StringRead (suc fuel) max k dst srcva ker
  later-StringRead fuel max k dst srcva ker ker1 more first later le read bytes (ker', ran, is) =
      let l : ℕ = copied_len k max in
      let page : ℕ → ℕ = s.byte (walkaddr pt (pg_round_down srcva) s) in
      let same : ltb (k - chunk srcva max) (max - chunk srcva max) ≡ ltb k max =
        ground (arith, later, more) in
      let rest : copied_len (k - chunk srcva max) (max - chunk srcva max) ≡ l - chunk srcva l =
        ground (arith, later, le, more) in
      let chunks : chunk srcva max ≡ chunk srcva l = ground (arith, later, le, more) in
      (
        ker',
        string_loop-round fuel max dst srcva ker (false, ker1) more first read
            ∙ ran
            ∙ ap (λ f. done (f, ker', s)) same,
        λ a.
            is a
            ∙ ap₂
                (λ m b.
                  if leb (dst + chunk srcva max) a && ltb a (dst + chunk srcva max + m)
                  then user_byte s pt (pg_round_down srcva + pgsize + (a - (dst + chunk srcva max)))
                  else b)
                rest (bytes a)
            ∙ ap
                (λ c.
                  with_user s pt (dst + c) (pg_round_down srcva + pgsize) (l - chunk srcva l)
                    (load_bytes dst c page (srcva % pgsize) ker) a)
                chunks
            ∙ with_user-chunk end files sz vmas pt s dst srcva l a ker
                (ground (arith, later, le, more)),
      )

  -- The address behind a chunk.
  behind_chunk :
      (max srcva i : ℕ)
      → (max == 0) ≡ false
      → i < max - chunk srcva max
      → pg_round_down srcva + pgsize + i ≡ srcva + (chunk srcva max + i)
  behind_chunk max srcva i more h = ground (arith, h, more)

  -- What the inner loop reads of a chunk with the NUL, and of one without it.
  here_bytes :
      (max k dst srcva : ℕ) (ker : ℕ → ℕ)
      → ((i : ℕ) → i < k → user_byte s pt (srcva + i) ≢ 0)
      → (k < max → user_byte s pt (srcva + k) ≡ 0)
      → (max == 0) ≡ false
      → k < chunk srcva max
      → (ker1 : ℕ → ℕ) × (string_bytes
            (chunk srcva max)
            (s.byte (walkaddr pt (pg_round_down srcva) s))
            (srcva % pgsize)
            dst
            ker
          ≡ (true, ker1))
        × ((a : ℕ)
            → ker1 a
              ≡ load_bytes dst
                  (suc k)
                  (s.byte (walkaddr pt (pg_round_down srcva) s))
                  (srcva % pgsize)
                  ker
                  a)
  here_bytes max k dst srcva ker text stop more h =
      let page : ℕ → ℕ = s.byte (walkaddr pt (pg_round_down srcva) s) in
      let found_it : ltb k (chunk srcva max) ≡ true = ground (arith, h) in
      let l : copied_len k (chunk srcva max) ≡ suc k = ground (arith, h) in
      let g =
        string_bytes-load (chunk srcva max) k page (srcva % pgsize) dst ker (omega (arith, h))
          (λ j hj z.
            text j hj
              (user_byte-chunk end files sz vmas pt s srcva max j (omega (arith, h, hj)) ∙ z))
          (λ hk.
            sym (user_byte-chunk end files sz vmas pt s srcva max k h)
            ∙ stop (ground (arith, h, more))) in
      (
        g.0,
        g.1 ∙ ap (λ b. (b, g.0)) found_it,
        λ a. g.2 a ∙ ap (λ m. load_bytes dst m page (srcva % pgsize) ker a) l,
      )

  all_bytes :
      (max k dst srcva : ℕ) (ker : ℕ → ℕ)
      → ((i : ℕ) → i < k → user_byte s pt (srcva + i) ≢ 0)
      → (max == 0) ≡ false
      → chunk srcva max ≤ k
      → (ker1 : ℕ → ℕ) × (string_bytes
            (chunk srcva max)
            (s.byte (walkaddr pt (pg_round_down srcva) s))
            (srcva % pgsize)
            dst
            ker
          ≡ (false, ker1))
        × ((a : ℕ)
            → ker1 a
              ≡ load_bytes dst
                  (chunk srcva max)
                  (s.byte (walkaddr pt (pg_round_down srcva) s))
                  (srcva % pgsize)
                  ker
                  a)
  all_bytes max k dst srcva ker text more h =
      let page : ℕ → ℕ = s.byte (walkaddr pt (pg_round_down srcva) s) in
      let n = chunk srcva max in
      let none_found : ltb n n ≡ false = ground arith in
      let l : copied_len n n ≡ n = ground arith in
      let g =
        string_bytes-load n n page (srcva % pgsize) dst ker (omega arith)
          (λ j hj z.
            text j (ground (arith, h, hj))
              (user_byte-chunk end files sz vmas pt s srcva max j hj ∙ z))
          (λ hk. absurd (omega (arith, hk))) in
      (
        g.0,
        g.1 ∙ ap (λ b. (b, g.0)) none_found,
        λ a. g.2 a ∙ ap (λ m. load_bytes dst m page (srcva % pgsize) ker a) l,
      )

  string_loop-with_user :
      (fuel max k dst srcva : ℕ) (ker : ℕ → ℕ)
      → max ≤ fuel
      → k ≤ max
      → ((i : ℕ) → i < copied_len k max → page_at s pt (srcva + i) ≢ 0)
      → ((i : ℕ) → i < k → user_byte s pt (srcva + i) ≢ 0)
      → (k < max → user_byte s pt (srcva + k) ≡ 0)
      → StringRead fuel max k dst srcva ker
  unfolding string_loop
  string_loop-with_user zero max k dst srcva ker enough le present text stop =
      let e : false ≡ ltb k max = ground (arith, enough) in
      (ker, ap (λ b. done (b, ker, s)) e, λ a. ground (arith, enough))
  string_loop-with_user (suc fuel) max k dst srcva ker enough le present text stop =
      elim (Bool-cases (max == 0)) [
        | inl none_left ↦
            let e : false ≡ ltb k max = ground (arith, none_left) in
            (ker, rw none_left (ap (λ b. done (b, ker, s)) e), λ a. ground (arith, none_left))
        | inr more ↦
            let first : walkaddr pt (pg_round_down srcva) s ≢ 0 =
              subst (λ v. page_at s pt v ≢ 0) (omega arith) (present 0 (ground (arith, more))) in
            elim (Bool-cases (ltb k (chunk srcva max))) [
              | inl here ↦
                  let g = here_bytes max k dst srcva ker text stop more (ground (arith, here)) in
                  found-StringRead fuel max k dst srcva ker g.0 more first (ground (arith, here))
                    g.1 g.2
              | inr not_yet ↦
                  let g = all_bytes max k dst srcva ker text more (ground (arith, not_yet)) in
                  later-StringRead fuel max k dst srcva ker g.0 more first (ground (arith, not_yet))
                    le g.1 g.2
                    (string_loop-with_user fuel (max - chunk srcva max) (k - chunk srcva max)
                      (dst + chunk srcva max) (pg_round_down srcva + pgsize) g.0
                      (ground (arith, enough, more)) (omega (arith, le))
                      (λ i h.
                        subst (λ v. page_at s pt v ≢ 0)
                          (sym (behind_chunk max srcva i more (ground (arith, h, le))))
                          (present (chunk srcva max + i) (ground (arith, h, not_yet, le))))
                      (λ i h.
                        subst (λ v. user_byte s pt v ≢ 0)
                          (sym (behind_chunk max srcva i more (ground (arith, h, le))))
                          (text (chunk srcva max + i) (ground (arith, h, not_yet))))
                      (λ h.
                        ap (user_byte s pt) (
                          behind_chunk max srcva (k - chunk srcva max) more h
                          ∙ ground (arith, not_yet))
                        ∙ stop (ground (arith, h))))
            ]
      ]

  -- `copyinstr` of a string of user memory whose first NUL stands at `k`, or that has none in its first `max`
  -- bytes (`k` is `max` then), in pages that are mapped for the user: it fails exactly if there is none, leaves all
  -- memory and page tables as they were, and puts the string with its NUL, or those bytes, at `dst` and
  -- nothing elsewhere.
  pub copyinstr-with_user :
      (max k dst srcva : ℕ) (ker : ℕ → ℕ)
      → k ≤ max
      → ((i : ℕ) → i < copied_len k max → page_at s pt (srcva + i) ≢ 0)
      → ((i : ℕ) → i < k → user_byte s pt (srcva + i) ≢ 0)
      → (k < max → user_byte s pt (srcva + k) ≡ 0)
      → (ker' : ℕ → ℕ) × (copyinstr end files sz vmas pt dst srcva max ker s
          ≡ done (ltb k max, ker', s))
        × ((a : ℕ) → ker' a ≡ with_user s pt dst srcva (copied_len k max) ker a)
  unfolding copyinstr
  copyinstr-with_user max k dst srcva ker le present text stop =
      string_loop-with_user max max k dst srcva ker (omega arith) le present text stop
