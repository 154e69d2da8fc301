-- ===== src/File/Fork.antt =====
-- The descriptors at a fork and at an exit.
use xv6_extended.Base.{
  ℕ, ◌+◌, ◌*◌, ◌^◌, ◌≤◌, ◌<◌, ◌≡◌, ◌∙◌, refl, ap, some, none, List, [], ◌∷◌, ◌++◌, arith, length,
  done, ◌>>=◌,
}
use xv6_extended.Base.Family.{update}
use xv6_extended.File.{nfile, nofile, Ftable, Closing, Fds, Sys, close_more, dup_all, close_all}
use xv6_extended.File.Holders.{Refs, Refs-ext, filedup-Refs, update_pointwise}
use xv6_extended.File.Slots.{count, count-le, held_self, held_other}
use xv6_extended.File.Pipes.{plus, close_one}
use xv6_extended.File.Counted.{Counted}

dup_all-Refs :
    (fds : Fds) (t : Ftable) (h : ℕ → ℕ)
    → Refs t h
    → ((g : ℕ) → 0 < count g fds → (g < nfile) × (0 < h g))
    → ((g : ℕ) → h g + length fds < 2 ^ 31)
    → (t' : Ftable) × (dup_all fds t ≡ done t') × Refs t' (λ g. count g fds + h g)
unfolding dup_all
dup_all-Refs [] t h r known room = (t, refl, Refs-ext t h (λ g. 0 + h g) (λ g. omega arith) r)
dup_all-Refs (none ∷ fds) t h r known room =
    let c =
      dup_all-Refs fds t h r (λ g pos. known g (omega (arith, pos)))
        (λ g. let m = room g in omega (arith, m)) in
    (
      c.0,
      c.1,
      Refs-ext c.0 (λ g. count g fds + h g) (λ g. count g (none ∷ fds) + h g) (λ g. omega arith)
          c.2,
    )
dup_all-Refs (some f ∷ fds) t h r known room =
    let one = held_self f in
    let k = known f (omega (arith, one)) in
    let space = room f in
    let d = filedup-Refs t h r f k.0 k.1 (omega (arith, space)) in
    let r1 =
      Refs-ext d.0 (update h f (h f + 1)) (plus f h)
        (update_pointwise h (plus f h) f (h f + 1) (omega (arith, one))
          (λ g ne. let z = held_other f g ne in omega (arith, z)))
        d.2 in
    let c =
      dup_all-Refs fds d.0 (plus f h) r1
        (λ g pos. let q = known g (omega (arith, pos)) in (q.0, omega (arith, q.1)))
        (λ g. let m = room g in ground (arith, m)) in
    (
      c.0,
      ap (λ m. m >>= dup_all fds) d.1 ∙ c.1,
      Refs-ext c.0 (λ g. count g fds + plus f h g) (λ g. count g (some f ∷ fds) + h g)
          (λ g. omega arith) c.2,
    )

close_all-Refs :
    (fds : Fds) (calls : List Closing) (t : Ftable) (h : ℕ → ℕ)
    → Refs t (λ g. count g fds + h g)
    → ((g : ℕ) → 0 < count g fds → g < nfile)
    → (r : List Closing × Ftable) × (close_all fds (calls, t) ≡ done r) × Refs r.1 h
unfolding close_all close_more
close_all-Refs [] calls t h r known =
    ((calls, t), refl, Refs-ext t (λ g. 0 + h g) h (λ g. omega arith) r)
close_all-Refs (none ∷ fds) calls t h r known =
    close_all-Refs fds calls t h
      (Refs-ext t (λ g. count g (none ∷ fds) + h g) (λ g. count g fds + h g) (λ g. omega arith) r)
      (λ g pos. known g (omega (arith, pos)))
close_all-Refs (some f ∷ fds) calls t h r known =
    let one = held_self f in
    let lt = known f (omega (arith, one)) in
    let rest : ℕ → ℕ = λ g. count g fds + h g in
    let c =
      close_one t rest f
        (Refs-ext t (λ g. count g (some f ∷ fds) + h g) (plus f rest) (λ g. omega arith) r) lt in
    let a =
      close_all-Refs fds (calls ++ c.0.0) c.0.1 h c.2 (λ g pos. known g (omega (arith, pos))) in
    (a.0, ap (λ m. (m >>= λ q. done (calls ++ q.0, q.1)) >>= close_all fds) c.1 ∙ a.1, a.2)

-- From a state in which the count of each file is the number of its holders, a fork takes a reference for
-- each descriptor of the child: the counts are then right with the child as a holder. When the child exits
-- with those descriptors, no file is closed too early or left open: the counts are right without it again.
pub fork-exit :
    (s : Sys) (others : ℕ → ℕ) (calls : List Closing)
    → Counted s others
    → ((f : ℕ) → others f + 3 * nofile < 2 ^ 31)
    → (t : Ftable) × (dup_all s.fds s.files ≡ done t)
      × Counted (record s { files = t }) (λ f. count f s.fds + others f)
      × (r : List Closing × Ftable) × (close_all s.fds (calls, t) ≡ done r)
      × Counted (record s { files = r.1 }) others
fork-exit s others calls inv room =
    let most : (g : ℕ) → count g s.fds ≤ nofile =
      λ g. let c = count-le g s.fds in let n = inv.slots in omega (arith, c, n) in
    let d =
      dup_all-Refs s.fds s.files (λ g. count g s.fds + others g) inv.refs
        (λ g pos. (inv.in_table g pos, omega (arith, pos)))
        (λ g. let m = most g in let q = room g in let n = inv.slots in omega (arith, m, q, n)) in
    let e = close_all-Refs s.fds calls d.0 (λ g. count g s.fds + others g) d.2 inv.in_table in
    (
      d.0,
      d.1,
      record {
        refs = d.2;
        in_table = inv.in_table;
        slots = inv.slots;
        room = λ f. let m = most f in let q = room f in omega (arith, m, q);
      },
      e.0,
      e.1,
      record { refs = e.2; in_table = inv.in_table; slots = inv.slots; room = inv.room },
    )
