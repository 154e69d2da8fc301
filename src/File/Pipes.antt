-- ===== src/File/Pipes.antt =====
-- References that are taken for the ends of a pipe, and given back where something fails.
use xv6_extended.Base.{
  ℕ, ◌+◌, ◌-◌, ◌<◌, ◌≡◌, ◌⊎◌, ◌∙◌, refl, ap, inl, inr, true, false, Option, some, none, List, [],
  ◌++◌, ◌==◌, Bool-cases, arith, Outcome, done, ◌>>=◌,
}
use xv6_extended.Base.Family.{update}
use xv6_extended.File.{
  nfile, fd_pipe, File, Ftable, Closing, filealloc, fileclose, close_more, pipe_files, pipe_first,
  pipealloc,
}
use xv6_extended.File.Holders.{
  Refs, Refs-ext, Refs-update, fileclose-Refs, filealloc-Refs, update_pointwise,
}
use xv6_extended.File.Slots.{held, held_self, held_other}

-- One holder of `f` besides those of `h`.
abbrev pub plus : ℕ → (ℕ → ℕ) → ℕ → ℕ
plus f h g = held g (some f) + h g

pub close_one :
    (t : Ftable) (h : ℕ → ℕ) (f : ℕ)
    → Refs t (plus f h)
    → f < nfile
    → (r : List Closing × Ftable) × (fileclose f t ≡ done r) × Refs r.1 h
close_one t h f r lt =
    let one = held_self f in
    let c = fileclose-Refs t (plus f h) r f lt (omega (arith, one)) in
    (
      c.0,
      c.1,
      Refs-ext c.0.1 (update (plus f h) f (plus f h f - 1)) h
          (update_pointwise (plus f h) h f (plus f h f - 1) (omega (arith, one))
            (λ g ne. let z = held_other f g ne in omega (arith, z)))
          c.2,
    )

pub close_two :
    (t : Ftable) (h : ℕ → ℕ) (f0 f1 : ℕ)
    → Refs t (plus f0 (plus f1 h))
    → f0 < nfile
    → f1 < nfile
    → (r : List Closing × Ftable) × ((fileclose f0 t >>= close_more f1) ≡ done r) × Refs r.1 h
unfolding close_more
close_two t h f0 f1 r lt0 lt1 =
    let a = close_one t (plus f1 h) f0 r lt0 in
    let b = close_one a.0.1 h f1 a.2 lt1 in
    (
      (a.0.0 ++ b.0.0, b.0.1),
      ap (λ m. m >>= close_more f1) a.1 ∙ ap (λ m. m >>= λ q. done (a.0.0 ++ q.0, q.1)) b.1,
      b.2,
    )

-- What `filealloc` gives, in the same terms.
pub alloc_one :
    (t : Ftable) (h : ℕ → ℕ)
    → Refs t h
    → (filealloc t ≡ (none, t))
      ⊎ ((f : ℕ) × (t' : Ftable) × (filealloc t ≡ (some f, t')) × (f < nfile) × Refs t' (plus f h))
alloc_one t h r = elim (filealloc-Refs t h r) [
  | inl full ↦ inl full
  | inr (f, lt, z, got, _, _, refs) ↦
      let one = held_self f in
      inr (
        f,
        (filealloc t).1,
        ap (λ o. (o, (filealloc t).1)) got,
        lt,
        Refs-ext (filealloc t).1 (update h f 1) (plus f h)
            (update_pointwise h (plus f h) f 1 (omega (arith, one, z))
              (λ g ne. let k = held_other f g ne in omega (arith, k)))
            refs,
      )
]

-- A change of a file in use that keeps its count.
refit :
    (t : Ftable) (h : ℕ → ℕ) (f : ℕ) (v : File)
    → Refs t h
    → f < nfile
    → 0 < h f
    → v.ref ≡ (t f).ref
    → Refs (update t f v) h
refit t h f v r lt pos same =
    Refs-ext (update t f v) (update h f (h f)) h (update_pointwise h h f (h f) refl (λ g ne. refl))
      (Refs-update t h f v (h f) r (same ∙ r.counted f lt) (r.small f)
        (λ z. absurd (omega (arith, z, pos))))

-- `pipealloc` takes a reference to each of two files, or fails and leaves the counts as they were.
abbrev pub PipeResult : Ftable → (ℕ → ℕ) → Outcome (Option (ℕ × ℕ) × List Closing × Ftable) → Type 0
PipeResult t h m =
    (r : Option (ℕ × ℕ) × List Closing × Ftable) × (m ≡ done r)
    × (((r.0 ≡ none) × Refs r.2 h)
        ⊎ ((f0 : ℕ) × (f1 : ℕ) × (r.0 ≡ some (f0, f1))
            × (f0 < nfile)
            × (f1 < nfile)
            × Refs r.2 (plus f0 (plus f1 h))))

pub pipealloc-PipeResult :
    (page : ℕ) (t : Ftable) (h : ℕ → ℕ) → Refs t h → PipeResult t h (pipealloc page t)
unfolding pipealloc pipe_first pipe_files
pipealloc-PipeResult page t h r = elim (alloc_one t h r) [
  | inl full ↦ ((none, [], t), ap (pipe_first page) full, inl (refl, r))
  | inr (f0, t0, got0, lt0, r0) ↦ elim (alloc_one t0 (plus f0 h) r0) [
    | inl full ↦
        let c = close_one t0 h f0 r0 lt0 in
        (
          (none, c.0.0, c.0.1),
          ap (pipe_first page) got0
              ∙ ap (pipe_files page f0) full
              ∙ ap (λ m. m >>= λ q. done (none, q.0, q.1)) c.1,
          inl (refl, c.2),
        )
    | inr (f1, t1, got1, lt1, r1) ↦
        let swap : Refs t1 (plus f0 (plus f1 h)) =
          Refs-ext t1 (plus f1 (plus f0 h)) (plus f0 (plus f1 h)) (λ g. omega arith) r1 in
        elim (Bool-cases (page == 0)) [
          | inl no_page ↦
              let c = close_two t1 h f0 f1 swap lt0 lt1 in
              (
                (none, c.0.0, c.0.1),
                ap (pipe_first page) got0
                    ∙ ap (pipe_files page f0) got1
                    ∙ rw no_page (ap (λ m. m >>= λ q. done (none, q.0, q.1)) c.1),
                inl (refl, c.2),
              )
          | inr some_page ↦
              let v0 : File = record (t1 f0) {
                kind = fd_pipe;
                readable = true;
                writable = false;
                pipe = page;
              } in
              let t2 = update t1 f0 v0 in
              let v1 : File = record (t2 f1) {
                kind = fd_pipe;
                readable = false;
                writable = true;
                pipe = page;
              } in
              let one0 = held_self f0 in
              let one1 = held_self f1 in
              let r2 = refit t1 (plus f0 (plus f1 h)) f0 v0 swap lt0 (omega (arith, one0)) refl in
              (
                (some (f0, f1), [], update t2 f1 v1),
                ap (pipe_first page) got0 ∙ ap (pipe_files page f0) got1 ∙ rw some_page refl,
                inr (
                  f0,
                  f1,
                  refl,
                  lt0,
                  lt1,
                  refit t2 (plus f0 (plus f1 h)) f1 v1 r2 lt1 (omega (arith, one1)) refl,
                ),
              )
        ]
  ]
]
