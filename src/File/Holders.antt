-- ===== src/File/Holders.antt =====
-- The count of a file is the number of its holders: what each function on the table does to it.
use xv6_extended.Base.{
  ℕ, zero, suc, ◌+◌, ◌-◌, ◌%◌, ◌^◌, ◌<◌, ◌≡◌, ◌≢◌, ◌⊎◌, ◌∙◌, refl, sym, ap, subst, inl, inr, Bool,
  true, false, Option, some, none, List, [], ◌==◌, ltb, if◌then◌else◌, Bool-cases, arith, Outcome,
  done, panic,
}
use xv6_extended.Base.Family.{update, update_self, update_ne}
use xv6_extended.Kalloc.{below_one}
use xv6_extended.File.{
  nfile, fd_none, File, Ftable, Closing, closing, alloc_file, filealloc, filedup, fileclose,
}

-- Each file has as many references as holders, and one without holders asks for nothing when it is closed.
pub record Refs (t : Ftable) (holders : ℕ → ℕ) : Type 0 where
  pub counted : (f : ℕ) → f < nfile → (t f).ref ≡ holders f
  pub small : (f : ℕ) → holders f < 2 ^ 31
  pub idle : (f : ℕ) → f < nfile → holders f ≡ 0 → (t f).kind ≡ fd_none

pub Refs-ext : (t : Ftable) (h h' : ℕ → ℕ) → ((f : ℕ) → h f ≡ h' f) → Refs t h → Refs t h'
Refs-ext t h h' e r = record {
  counted = λ f lt. r.counted f lt ∙ e f;
  small = λ f. subst (λ n. n < 2 ^ 31) (e f) (r.small f);
  idle = λ f lt z. r.idle f lt (e f ∙ z);
}

-- A new entry for `f`, with `n` references.
pub Refs-update :
    (t : Ftable) (h : ℕ → ℕ) (f : ℕ) (v : File) (n : ℕ)
    → Refs t h
    → v.ref ≡ n
    → n < 2 ^ 31
    → (n ≡ 0 → v.kind ≡ fd_none)
    → Refs (update t f v) (update h f n)
Refs-update t h f v n r ref small idle = record {
  counted = λ g lt. elim (Bool-cases (f == g)) [
    | inl same ↦ ap (λ (w : File). w.ref) (at g same) ∙ ref ∙ sym (at_n g same)
    | inr other ↦ ap (λ (w : File). w.ref) (off g other) ∙ r.counted g lt ∙ sym (off_n g other)
  ];
  small = λ g. elim (Bool-cases (f == g)) [
    | inl same ↦ subst (λ m. m < 2 ^ 31) (sym (at_n g same)) small
    | inr other ↦ subst (λ m. m < 2 ^ 31) (sym (off_n g other)) (r.small g)
  ];
  idle = λ g lt z. elim (Bool-cases (f == g)) [
    | inl same ↦ ap (λ (w : File). w.kind) (at g same) ∙ idle (sym (at_n g same) ∙ z)
    | inr other ↦ ap (λ (w : File). w.kind) (off g other) ∙ r.idle g lt (sym (off_n g other) ∙ z)
  ];
}
  where
    at : (g : ℕ) → (f == g) ≡ true → update t f v g ≡ v
    at g same = subst (λ x. update t f v x ≡ v) (ground (arith, same)) (update_self t f v)

    off : (g : ℕ) → (f == g) ≡ false → update t f v g ≡ t g
    off g other = update_ne t f g v (ground (arith, other))

    at_n : (g : ℕ) → (f == g) ≡ true → update h f n g ≡ n
    at_n g same = subst (λ x. update h f n x ≡ n) (ground (arith, same)) (update_self h f n)

    off_n : (g : ℕ) → (f == g) ≡ false → update h f n g ≡ h g
    off_n g other = update_ne h f g n (ground (arith, other))

module _ (t : Ftable) (h : ℕ → ℕ) (r : Refs t h) where
  pub filedup-Refs :
      (f : ℕ)
      → f < nfile
      → 0 < h f
      → h f + 1 < 2 ^ 31
      → (t' : Ftable) × (filedup f t ≡ done t') × Refs t' (update h f (h f + 1))
  unfolding filedup
  filedup-Refs f lt pos small =
      let e = r.counted f lt in
      let fine : below_one (t f).ref ≡ false = ground (arith, e, pos, small) in
      (
        update t f (record (t f) { ref = ((t f).ref + 1) % 2 ^ 32 }),
        ap
            (λ b.
              if◌then◌else◌ {A = Outcome Ftable} b panic
                (done (update t f (record (t f) { ref = ((t f).ref + 1) % 2 ^ 32 }))))
            fine,
        Refs-update t h f (record (t f) { ref = ((t f).ref + 1) % 2 ^ 32 }) (h f + 1) r
            (omega (arith, e, small)) small (λ z. absurd (omega (arith, z))),
      )

  -- The last holder of a file closes it.
  pub fileclose-Refs :
      (f : ℕ)
      → f < nfile
      → 0 < h f
      → (c : List Closing × Ftable) × (fileclose f t ≡ done c)
        × Refs c.1 (update h f (h f - 1))
        × (c.0 ≡ (if h f == 1 then closing (t f) else []))
  unfolding fileclose
  fileclose-Refs f lt pos =
      let e = r.counted f lt in
      let s = r.small f in
      let fine : below_one (t f).ref ≡ false = ground (arith, e, pos, s) in
      elim (Bool-cases (h f == 1)) [
        | inl last ↦
            let none_left : ltb 0 ((t f).ref - 1) ≡ false = ground (arith, e, last) in
            (
              (closing (t f), update t f (record (t f) { ref = 0; kind = fd_none })),
              after fine none_left,
              Refs-update t h f (record (t f) { ref = 0; kind = fd_none }) (h f - 1) r
                  (ground (arith, last)) (omega (arith, s)) (λ z. refl),
              ap (λ b. if b then closing (t f) else []) (sym last),
            )
        | inr more ↦
            let some_left : ltb 0 ((t f).ref - 1) ≡ true = ground (arith, e, more, pos) in
            (
              ([], update t f (record (t f) { ref = (t f).ref - 1 })),
              after fine some_left,
              Refs-update t h f (record (t f) { ref = (t f).ref - 1 }) (h f - 1) r
                  (omega (arith, e)) (omega (arith, s))
                  (λ z. absurd (ground (arith, z, more, pos))),
              ap (λ b. if b then closing (t f) else []) (sym more),
            )
      ]
    where
      after :
          {c : Bool}
          → below_one (t f).ref ≡ false
          → ltb 0 ((t f).ref - 1) ≡ c
          → fileclose f t ≡ (
              if c
              then done ([], update t f (record (t f) { ref = (t f).ref - 1 }))
              else done (closing (t f), update t f (record (t f) { ref = 0; kind = fd_none })))
      after fine e = rw (fine, e) refl

-- What the loop of `filealloc` gives.
abbrev pub AllocResult : Ftable → (ℕ → ℕ) → Option ℕ × Ftable → Type 0
AllocResult t h r =
    (r ≡ (none, t))
    ⊎ ((f : ℕ) × (f < nfile)
        × (h f ≡ 0)
        × (r.0 ≡ some f)
        × ((t f).kind ≡ fd_none)
        × ((r.1 f).kind ≡ fd_none)
        × Refs r.1 (update h f 1))

module _ (t : Ftable) (h : ℕ → ℕ) (r : Refs t h) where
  alloc_file-Refs : (n f : ℕ) → f + n ≡ nfile → AllocResult t h (alloc_file n f t)
  unfolding alloc_file
  alloc_file-Refs zero f e = inl refl
  alloc_file-Refs (suc n) f e = elim (Bool-cases ((t f).ref == 0)) [
    | inr used ↦
        let rest = alloc_file-Refs n (f + 1) (omega (arith, e)) in
        subst
          (λ b.
            AllocResult t h (
              if b
              then (some f, update t f (record (t f) { ref = 1 }))
              else alloc_file n (f + 1) t))
          (sym used) rest
    | inl free ↦
        let lt : f < nfile = omega (arith, e) in
        let c = r.counted f lt in
        let z : h f ≡ 0 = ground (arith, c, free) in
        let k = r.idle f lt z in
        subst
          (λ b.
            AllocResult t h (
              if b
              then (some f, update t f (record (t f) { ref = 1 }))
              else alloc_file n (f + 1) t))
          (sym free)
          (inr (
            f,
            lt,
            z,
            refl,
            k,
            ap (λ (w : File). w.kind) (update_self t f (record (t f) { ref = 1 })) ∙ k,
            Refs-update t h f (record (t f) { ref = 1 }) 1 r refl (omega arith)
                (λ q. absurd (omega (arith, q))),
          ))
  ]

  pub filealloc-Refs : AllocResult t h (filealloc t)
  unfolding filealloc
  filealloc-Refs = alloc_file-Refs nfile 0 refl

-- A change of the number of holders of one file.
pub update_pointwise :
    (h h' : ℕ → ℕ) (f n : ℕ)
    → n ≡ h' f
    → ((g : ℕ) → f ≢ g → h g ≡ h' g)
    → (g : ℕ) → update h f n g ≡ h' g
update_pointwise h h' f n at off g = elim (Bool-cases (f == g)) [
  | inl same ↦ subst (λ x. update h f n x ≡ h' x) (ground (arith, same)) (update_self h f n ∙ at)
  | inr other ↦ update_ne h f g n (ground (arith, other)) ∙ off g (ground (arith, other))
]
