-- ===== src/Mmap/Unmap.antt =====
-- `proc_munmap`: what is left of the regions, address by address.
use xv6_extended.Base.{
  ℕ, ◌+◌, ◌%◌, ◌^◌, ◌<◌, ◌≡◌, ◌⊎◌, refl, ap, inl, inr, Bool, true, false, not, ◌||◌, none, List, [],
  ◌∷◌, ◌==◌, ltb, if◌then◌else◌, Bool-cases, arith, All,
}
use xv6_extended.Memory.{pgsize}
use xv6_extended.Proc.{Vma}
use xv6_extended.Mmap.Regions.{InRange, Clear, Disjoint}
use xv6_extended.Mmap.{Cut, skip, hole, cut, cut_one, resume, munmap_from, proc_munmap}
use xv6_extended.Mmap.Backing.{backing, inside, backing-cut, skip-says}
use xv6_extended.Mmap.Trim.{CutOne, cut_one-CutOne}

munmap_from-backing :
    (addr end : ℕ) (changed : Bool) (vs : List Vma)
    → All InRange vs
    → (munmap_from addr end changed vs).0 ≡ true
    → (a : ℕ)
    → backing ((munmap_from addr end changed vs).1) a
      ≡ (if inside addr end a then none else backing vs a)
unfolding munmap_from
munmap_from-backing addr end changed [] ok h a = ground arith
munmap_from-backing addr end changed (v ∷ vs) ok h a =
    go (cut_one addr end v) (λ t. munmap_from-backing addr end changed vs ok.1 t a)
      (λ t. munmap_from-backing addr end true vs ok.1 t a) (cut_one-CutOne addr end v ok.0) h
  where
    Rest : Bool → Type 0
    Rest b =
        (munmap_from addr end b vs).0 ≡ true
        → backing ((munmap_from addr end b vs).1) a
          ≡ (if inside addr end a then none else backing vs a)

    go :
        (c : Cut)
        → Rest changed
        → Rest true
        → CutOne addr end v c
        → (resume c v vs (munmap_from addr end changed vs) (munmap_from addr end true vs)).0 ≡ true
        → backing
            ((resume c v vs (munmap_from addr end changed vs) (munmap_from addr end true vs)).1)
            a
          ≡ (if inside addr end a then none else backing (v ∷ vs) a)
    go skip skipped cuts c h =
        backing-cut addr end a v v vs (munmap_from addr end changed vs).1
          (skip-says addr end a v (c a)) (skipped h)
    go hole skipped cuts c h = cc h
    go (cut v' calls) skipped cuts c h =
        backing-cut addr end a v v' vs (munmap_from addr end true vs).1 (c.1.1 a) (cuts h)

-- Once a region has been cut, no region that is disjoint from it can have a hole made in it.
no_hole :
    (addr end : ℕ) (v : Vma) (vs : List Vma)
    → v.addr < end
    → addr < v.addr + v.len
    → All InRange vs
    → All (Clear v.addr v.len) vs
    → (munmap_from addr end true vs).0 ≡ true
unfolding munmap_from
no_hole addr end v [] before after ok clear = refl
no_hole addr end v (w ∷ ws) before after ok clear =
    go (cut_one addr end w) (no_hole addr end v ws before after ok.1 clear.1)
      (cut_one-CutOne addr end w ok.0)
  where
    go :
        (c : Cut)
        → (munmap_from addr end true ws).0 ≡ true
        → CutOne addr end w c
        → (resume c w ws (munmap_from addr end true ws) (munmap_from addr end true ws)).0 ≡ true
    go skip rest c = rest
    go hole rest (used, low, top) = elim (clear.0 used) [
      | inl h ↦ absurd (omega arith)
      | inr h ↦ absurd (omega arith)
    ]
    go (cut w' calls) rest c = rest

munmap_from-fails :
    (addr end : ℕ) (vs : List Vma)
    → All InRange vs
    → Disjoint vs
    → (munmap_from addr end false vs).0 ≡ false
    → ((munmap_from addr end false vs).1 ≡ vs) × ((munmap_from addr end false vs).2 ≡ [])
unfolding munmap_from
munmap_from-fails addr end [] ok apart h = (refl, refl)
munmap_from-fails addr end (v ∷ vs) ok apart h =
    go (cut_one addr end v) (λ t. munmap_from-fails addr end vs ok.1 apart.1 t)
      (λ used before after. no_hole addr end v vs before after ok.1 (apart.0 used))
      (cut_one-CutOne addr end v ok.0) h
  where
    go :
        (c : Cut)
        → ((munmap_from addr end false vs).0 ≡ false
            → ((munmap_from addr end false vs).1 ≡ vs) × ((munmap_from addr end false vs).2 ≡ []))
        → (v.used ≡ true
            → v.addr < end
            → addr < v.addr + v.len
            → (munmap_from addr end true vs).0 ≡ true)
        → CutOne addr end v c
        → (resume c v vs (munmap_from addr end false vs) (munmap_from addr end true vs)).0 ≡ false
        → let r = resume c v vs (munmap_from addr end false vs) (munmap_from addr end true vs) in
          (r.1 ≡ v ∷ vs) × (r.2 ≡ [])
    go skip skipped cuts c h = let rest = skipped h in (ap (λ ws. v ∷ ws) rest.0, rest.1)
    go hole skipped cuts c h = (refl, refl)
    go (cut v' calls) skipped cuts ((used, before, after), c) h =
        let found = cuts used before after in cc (found, h)

-- For whole pages that do not wrap and regions that are in range and disjoint, munmap either succeeds,
-- and then nothing is mapped in the given addresses and every other address has the file, the offset
-- in it, the protection and the flags that it had; or it fails, and then no region is changed and
-- nothing is written back, unmapped or closed.
pub proc_munmap-backing :
    (vs : List Vma) (addr len : ℕ)
    → addr % pgsize ≡ 0
    → 0 < len
    → addr + len < 2 ^ 64
    → All InRange vs
    → Disjoint vs
    → let r = proc_munmap vs addr len in
      (r.0 ≡ true
        × ((a : ℕ) → backing r.1 a ≡ (if inside addr (addr + len) a then none else backing vs a)))
      ⊎ (r.0 ≡ false × r.1 ≡ vs × r.2 ≡ [])
unfolding proc_munmap
proc_munmap-backing vs addr len aligned some_asked fits ok apart =
    let end : (addr + len) % 2 ^ 64 ≡ addr + len = omega arith in
    let fine : (not (addr % pgsize == 0) || len == 0 || ltb (addr + len) addr) ≡ false =
      ground (arith, aligned, some_asked) in
    rw (end, fine)
      (elim (Bool-cases (munmap_from addr (addr + len) false vs).0) [
        | inl h ↦ inl (h, munmap_from-backing addr (addr + len) false vs ok h)
        | inr h ↦
            let same = munmap_from-fails addr (addr + len) vs ok apart h in inr (h, same.0, same.1)
      ])
