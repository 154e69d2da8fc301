-- ===== src/Vm/Flat.antt =====
-- User memory as a flat function of the address, and what `copyin` reads of it.
use xv6_extended.Base.{
  ℕ, zero, suc, ◌+◌, ◌-◌, ◌%◌, ◌≤◌, ◌<◌, ◌≡◌, ◌≢◌, ◌∙◌, refl, sym, ap, ap₂, subst, inl, inr, Bool,
  true, false, ◌&&◌, List, ltb, leb, ◌==◌, if◌then◌else◌, Bool-cases, arith, done,
}
use xv6_extended.Memory.{pgsize, pg_round_down}
use xv6_extended.Proc.{Vma}
use xv6_extended.Vm.{Mem, walkaddr}
use xv6_extended.Vm.Fault.{Files}
use xv6_extended.Vm.User.{chunk, load_bytes, user_page, in_loop, copyin}

-- The page of an address, by `walkaddr`.
abbrev pub page_at : Mem → ℕ → ℕ → ℕ
page_at s pt va = walkaddr pt (pg_round_down va) s

-- The byte of user memory at an address.
abbrev pub user_byte : Mem → ℕ → ℕ → ℕ
user_byte s pt va = s.byte (page_at s pt va) (va % pgsize)

-- `ker` with `len` bytes of user memory at `dst`.
abbrev pub with_user : Mem → ℕ → ℕ → ℕ → ℕ → (ℕ → ℕ) → ℕ → ℕ
with_user s pt dst srcva len ker a =
    if leb dst a && ltb a (dst + len) then user_byte s pt (srcva + (a - dst)) else ker a

module _ (end : ℕ) (files : Files) (sz : ℕ) (vmas : List Vma) (pt : ℕ) (s : Mem) where
  pub user_page-present :
      (va0 : ℕ) (read : Bool)
      → walkaddr pt va0 s ≢ 0
      → user_page end files sz vmas pt va0 read s ≡ done (walkaddr pt va0 s, s)
  unfolding user_page
  user_page-present va0 read h =
      let e : (walkaddr pt va0 s == 0) ≡ false = ground (arith, h) in rw e refl

  -- A chunk is read from one page.
  pub user_byte-chunk :
      (srcva len j : ℕ)
      → j < chunk srcva len
      → user_byte s pt (srcva + j)
        ≡ s.byte (walkaddr pt (pg_round_down srcva) s) (srcva % pgsize + j)
  user_byte-chunk srcva len j h =
      let e1 : pg_round_down (srcva + j) ≡ pg_round_down srcva = ground (arith, h) in
      let e2 : (srcva + j) % pgsize ≡ srcva % pgsize + j = ground (arith, h) in
      ap₂ (λ v o. s.byte (walkaddr pt v s) o) e1 e2

  -- Bytes of a chunk, and then those behind it.
  pub with_user-chunk :
      (dst srcva len a : ℕ) (ker : ℕ → ℕ)
      → 0 < len
      → let n = chunk srcva len in
        with_user s pt
          (dst + n)
          (pg_round_down srcva + pgsize)
          (len - n)
          (load_bytes dst n (s.byte (walkaddr pt (pg_round_down srcva) s)) (srcva % pgsize) ker)
          a
        ≡ with_user s pt dst srcva len ker a
  with_user-chunk dst srcva len a ker pos =
      let n = chunk srcva len in
      let page : ℕ → ℕ = s.byte (walkaddr pt (pg_round_down srcva) s) in
      let later : ℕ = user_byte s pt (pg_round_down srcva + pgsize + (a - (dst + n))) in
      let here : ℕ = page (srcva % pgsize + (a - dst)) in
      let whole : ℕ = user_byte s pt (srcva + (a - dst)) in
      let behind : Bool = leb (dst + n) a && ltb a (dst + n + (len - n)) in
      let within : Bool = leb dst a && ltb a (dst + n) in
      elim (Bool-cases (leb dst a && ltb a (dst + len))) [
        | inr outside ↦
            let e1 : behind ≡ false = ground (arith, outside, pos) in
            let e2 : within ≡ false = ground (arith, outside, pos) in
            ap₂ (λ b c. if b then later else if c then here else ker a) e1 e2
            ∙ ap (λ b. if b then whole else ker a) (sym outside)
        | inl inside ↦ elim (Bool-cases within) [
          | inl at ↦
              let e1 : behind ≡ false = ground (arith, at, pos) in
              ap₂ (λ b c. if b then later else if c then here else ker a) e1 at
              ∙ sym (user_byte-chunk srcva len (a - dst) (ground (arith, at)))
              ∙ ap (λ b. if b then whole else ker a) (sym inside)
          | inr after ↦
              let e1 : behind ≡ true = ground (arith, inside, after, pos) in
              let same : pg_round_down srcva + pgsize + (a - (dst + n)) ≡ srcva + (a - dst) =
                ground (arith, inside, after, pos) in
              ap (λ b. if b then later else if within then here else ker a) e1
              ∙ ap (user_byte s pt) same
              ∙ ap (λ b. if b then whole else ker a) (sym inside)
        ]
      ]

  pub load-with_user :
      (dst srcva max l a : ℕ) (ker : ℕ → ℕ)
      → l ≤ chunk srcva max
      → load_bytes dst l (s.byte (walkaddr pt (pg_round_down srcva) s)) (srcva % pgsize) ker a
        ≡ with_user s pt dst srcva l ker a
  load-with_user dst srcva max l a ker le =
      let x : ℕ = s.byte (walkaddr pt (pg_round_down srcva) s) (srcva % pgsize + (a - dst)) in
      let y : ℕ = user_byte s pt (srcva + (a - dst)) in
      let inside : Bool = leb dst a && ltb a (dst + l) in
      elim (Bool-cases inside) [
        | inl yes_it ↦
            ap (λ b. if b then x else ker a) yes_it
            ∙ sym (user_byte-chunk srcva max (a - dst) (ground (arith, yes_it, le)))
            ∙ ap (λ b. if b then y else ker a) (sym yes_it)
        | inr no_it ↦
            ap (λ b. if b then x else ker a) no_it ∙ ap (λ b. if b then y else ker a) (sym no_it)
      ]

  in_loop-with_user :
      (fuel len dst srcva : ℕ) (ker : ℕ → ℕ)
      → len ≤ fuel
      → ((i : ℕ) → i < len → page_at s pt (srcva + i) ≢ 0)
      → (ker' : ℕ → ℕ) × (in_loop end files sz vmas pt fuel dst srcva len ker s
          ≡ done (true, ker', s))
        × ((a : ℕ) → ker' a ≡ with_user s pt dst srcva len ker a)
  unfolding in_loop
  in_loop-with_user zero len dst srcva ker enough present = (ker, refl, λ a. ground (arith, enough))
  in_loop-with_user (suc fuel) len dst srcva ker enough present = elim (Bool-cases (len == 0)) [
    | inl none_left ↦ (ker, rw none_left refl, λ a. ground (arith, none_left))
    | inr more ↦
        let pos : 0 < len = ground (arith, more) in
        let n = chunk srcva len in
        let va0 = pg_round_down srcva in
        let first : walkaddr pt va0 s ≢ 0 =
          subst (λ v. page_at s pt v ≢ 0) (omega arith) (present 0 pos) in
        let e : (walkaddr pt va0 s == 0) ≡ false = ground (arith, first) in
        let g =
          in_loop-with_user fuel (len - n) (dst + n) (va0 + pgsize)
            (load_bytes dst n (s.byte (walkaddr pt va0 s)) (srcva % pgsize) ker)
            (ground (arith, enough, pos))
            (λ i h.
              subst (λ v. page_at s pt v ≢ 0) (ground (arith, h, pos))
                (present (n + i) (ground (arith, h, pos)))) in
        (
          g.0,
          rw (more, user_page-present va0 true first, e) g.1,
          λ a. g.2 a ∙ with_user-chunk dst srcva len a ker pos,
        )
  ]

  -- `copyin` of a range of user memory that is mapped for the user succeeds, leaves all memory and page
  -- tables as they were, and puts the bytes of the range, in order, at `dst` and nothing elsewhere.
  pub copyin-with_user :
      (len dst srcva : ℕ) (ker : ℕ → ℕ)
      → ((i : ℕ) → i < len → page_at s pt (srcva + i) ≢ 0)
      → (ker' : ℕ → ℕ) × (copyin end files sz vmas pt dst srcva len ker s ≡ done (true, ker', s))
        × ((a : ℕ) → ker' a ≡ with_user s pt dst srcva len ker a)
  unfolding copyin
  copyin-with_user len dst srcva ker present =
      in_loop-with_user len len dst srcva ker (omega arith) present
