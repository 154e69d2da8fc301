-- ===== src/File/Counted.antt =====
-- `sys_close` and `sys_dup`: every reference of a file has a holder.
use xv6_extended.Base.{
  ℕ, ◌+◌, ◌-◌, ◌*◌, ◌^◌, ◌<◌, ◌≡◌, ◌∙◌, refl, ap, subst, inl, inr, Option, some, none, ◌++◌, ◌==◌,
  Bool-cases, arith, length, set, Outcome, done, ◌>>=◌,
}
use xv6_extended.Base.Family.{update}
use xv6_extended.File.{
  nfile, nofile, Fds, Sys, argfd, fdalloc, close_of, dup_of, dup_to, sys_dup, sys_close,
}
use xv6_extended.File.Holders.{Refs, Refs-ext, filedup-Refs, fileclose-Refs, update_pointwise}
use xv6_extended.File.Slots.{
  held, count, count-le, fdalloc-Slot, count-set, argfd-open, held_self, held_other,
}

-- The count of each file is the number of descriptors of this process for it and of its other holders: the
-- descriptors of other processes and the regions of mmap.
pub record Counted (s : Sys) (others : ℕ → ℕ) : Type 0 where
  pub refs : Refs s.files (λ f. count f s.fds + others f)
  pub in_table : (f : ℕ) → 0 < count f s.fds → f < nfile
  pub slots : length s.fds ≡ nofile
  pub room : (f : ℕ) → others f + 2 * nofile < 2 ^ 31

-- After a call: if it gives -1, the descriptors are as they were.
abbrev pub Kept : Sys → (ℕ → ℕ) → Outcome (Option ℕ × Sys) → Type 0
Kept s others m =
    (r : Option ℕ × Sys) × (m ≡ done r) × Counted r.1 others × (r.0 ≡ none → r.1.fds ≡ s.fds)

module _ (s : Sys) (others : ℕ → ℕ) (inv : Counted s others) where
  same-Kept : (m : Outcome (Option ℕ × Sys)) → m ≡ done (none, s) → Kept s others m
  same-Kept m e = ((none, s), e, inv, λ z. refl)

  open_file : (n f : ℕ) → argfd n s.fds ≡ some f → (0 < count f s.fds) × (f < nfile)
  open_file n f e =
      let c = (count-set s.fds n f (argfd-open n f s.fds e)).0 f in
      let one = held_self f in
      let pos : 0 < count f s.fds = omega (arith, c, one) in (pos, inv.in_table f pos)

  -- One descriptor for `f` fewer.
  lowered :
      (f : ℕ) (fds' : Fds)
      → ((g : ℕ) → count g s.fds ≡ held g (some f) + count g fds')
      → (g : ℕ)
      → update (λ k. count k s.fds + others k) f (count f s.fds + others f - 1) g
        ≡ count g fds' + others g
  lowered f fds' c =
      let at = c f in
      let one = held_self f in
      update_pointwise (λ k. count k s.fds + others k) (λ k. count k fds' + others k) f
        (count f s.fds + others f - 1) (omega (arith, at, one))
        (λ g ne. let k = c g in let z = held_other f g ne in omega (arith, k, z))

  -- One more.
  raised :
      (f n : ℕ) (fds' : Fds)
      → n ≡ count f s.fds + others f + 1
      → ((g : ℕ) → count g fds' ≡ held g (some f) + count g s.fds)
      → (g : ℕ) → update (λ k. count k s.fds + others k) f n g ≡ count g fds' + others g
  raised f n fds' e c =
      let at = c f in
      let one = held_self f in
      update_pointwise (λ k. count k s.fds + others k) (λ k. count k fds' + others k) f n
        (omega (arith, e, at, one))
        (λ g ne. let k = c g in let z = held_other f g ne in omega (arith, k, z))

  pub sys_close-Kept : (n : ℕ) → Kept s others (sys_close n s)
  unfolding sys_close close_of
  sys_close-Kept n = go (argfd n s.fds) refl
    where
      go : (o : Option ℕ) → argfd n s.fds ≡ o → Kept s others (close_of n s o)
      go none e = same-Kept (done (none, s)) refl
      go (some f) e =
          let open_f = open_file n f e in
          let (r, ran, refs, _) =
            fileclose-Refs s.files (λ g. count g s.fds + others g) inv.refs f open_f.1
              (omega (arith, open_f.0)) in
          let c = count-set s.fds n f (argfd-open n f s.fds e) in
          (
            (some 0, record { files = r.1; fds = set s.fds n none; calls = s.calls ++ r.0 }),
            ap
                (λ m. m >>= λ r.
                  done (
                    some 0,
                    record { files = r.1; fds = set s.fds n none; calls = s.calls ++ r.0 },
                  ))
                ran,
            record {
              refs =
                  Refs-ext r.1
                    (update (λ g. count g s.fds + others g) f (count f s.fds + others f - 1))
                    (λ g. count g (set s.fds n none) + others g) (lowered f (set s.fds n none) c.0)
                    refs;
              in_table = λ g pos. let k = c.0 g in inv.in_table g (omega (arith, k, pos));
              slots = c.1 ∙ inv.slots;
              room = inv.room;
            },
            λ z. cc z,
          )

  pub sys_dup-Kept : (n : ℕ) → Kept s others (sys_dup n s)
  unfolding sys_dup dup_of dup_to
  sys_dup-Kept n = go (argfd n s.fds) refl
    where
      at_slot : (f : ℕ) → argfd n s.fds ≡ some f → Kept s others (dup_to f s (fdalloc f s.fds))
      at_slot f e = elim (fdalloc-Slot f s.fds) [
        | inl full ↦ same-Kept (dup_to f s (fdalloc f s.fds)) (ap (dup_to f s) full)
        | inr (i, fds', got, slot) ↦
            let open_f = open_file n f e in
            let most = count-le f s.fds in
            let len = inv.slots in
            let space = inv.room f in
            let (t', ran, refs) =
              filedup-Refs s.files (λ g. count g s.fds + others g) inv.refs f open_f.1
                (omega (arith, open_f.0)) (omega (arith, most, len, space)) in
            (
              (some i, record s { files = t'; fds = fds' }),
              ap (dup_to f s) got
                  ∙ ap (λ m. m >>= λ t. done (some i, record s { files = t; fds = fds' })) ran,
              record {
                refs =
                    Refs-ext t'
                      (update (λ g. count g s.fds + others g) f (count f s.fds + others f + 1))
                      (λ g. count g fds' + others g)
                      (raised f (count f s.fds + others f + 1) fds' refl slot.counts) refs;
                in_table = λ g pos. elim (Bool-cases (f == g)) [
                  | inl same ↦ subst (λ x. x < nfile) (ground (arith, same)) open_f.1
                  | inr other ↦
                      let c = slot.counts g in
                      let z = held_other f g (ground (arith, other)) in
                      inv.in_table g (omega (arith, c, z, pos))
                ];
                slots = slot.long ∙ inv.slots;
                room = inv.room;
              },
              λ z. cc z,
            )
      ]

      go : (o : Option ℕ) → argfd n s.fds ≡ o → Kept s others (dup_of s o)
      go none e = same-Kept (done (none, s)) refl
      go (some f) e = at_slot f e
