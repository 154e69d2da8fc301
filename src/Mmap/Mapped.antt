-- ===== src/Mmap/Mapped.antt =====
-- `sys_mmap`: the new region, and the regions that were there.
use xv6_extended.Base.{
  ℕ, zero, suc, ◌+◌, ◌%◌, ◌≤◌, ◌≡◌, ◌≢◌, ◌⊎◌, ◌∙◌, refl, sym, ap, subst, inl, inr, Bool, true,
  false, not, ◌&&◌, ◌||◌, Option, some, none, List, [], ◌∷◌, ◌==◌, ltb, leb, if◌then◌else◌,
  Bool-cases, arith, All, set,
}
use xv6_extended.Memory.{pgsize, pg_round_up}
use xv6_extended.Proc.{Vma, Proc}
use xv6_extended.Mmap.{
  vma_find_addr, alloc_slot_from, vma_alloc_slot, Opened, MmapArgs, bad_args, bad_file, new_vma,
  sys_mmap,
}
use xv6_extended.Mmap.Regions.{Clear, Disjoint, Placed, IsValid}
use xv6_extended.Mmap.Backing.{backing, backing_of, covers, inside}
use xv6_extended.Mmap.Place.{Found, vma_find_addr-Found}

-- The slot is there and its region is not in use.
abbrev FreeAt : List Vma → ℕ → Type 0
FreeAt [] j = true ≡ false
FreeAt (v ∷ vs) zero = v.used ≡ false
FreeAt (v ∷ vs) (suc j) = FreeAt vs j

alloc_slot_from-FreeAt :
    (vs : List Vma) (i idx : ℕ)
    → alloc_slot_from vs i ≡ some idx
    → (j : ℕ) × (idx ≡ i + j) × FreeAt vs j
unfolding alloc_slot_from
alloc_slot_from-FreeAt [] i idx h = cc h
alloc_slot_from-FreeAt (v ∷ vs) i idx h = go v.used refl h (alloc_slot_from-FreeAt vs (suc i) idx)
  where
    go :
        (u : Bool)
        → v.used ≡ u
        → (if not u then some i else alloc_slot_from vs (suc i)) ≡ some idx
        → (alloc_slot_from vs (suc i) ≡ some idx → (j : ℕ) × (idx ≡ suc i + j) × FreeAt vs j)
        → (j : ℕ) × (idx ≡ i + j) × FreeAt (v ∷ vs) j
    go false e h rest = (0, ground (arith, h), e)
    go true e h rest = let (j, at, free) = rest h in (suc j, omega (arith, at), free)

set-All :
    (P : Vma → Type 0) (vs : List Vma) (j : ℕ) (new : Vma) → P new → All P vs → All P (set vs j new)
set-All P [] j new p h = tt
set-All P (v ∷ vs) zero new p h = (p, h.1)
set-All P (v ∷ vs) (suc j) new p h = (h.0, set-All P vs j new p h.1)

set-Disjoint :
    (vs : List Vma) (j : ℕ) (new : Vma)
    → All (Clear new.addr new.len) vs
    → Disjoint vs
    → Disjoint (set vs j new)
set-Disjoint [] j new clear h = tt
set-Disjoint (v ∷ vs) zero new clear h = ((λ _. clear.1), h.1)
set-Disjoint (v ∷ vs) (suc j) new clear h = (
  (λ used. set-All (Clear v.addr v.len) vs j new (λ _. turn (clear.0 used)) (h.0 used)),
  set-Disjoint vs j new clear.1 h.1,
)
  where
    turn :
        (new.addr + new.len ≤ v.addr) ⊎ (v.addr + v.len ≤ new.addr)
        → (v.addr + v.len ≤ new.addr) ⊎ (new.addr + new.len ≤ v.addr)
    turn (inl h) = inr h
    turn (inr h) = inl h

-- Where the new region is, only it is.
covers-Clear : (a n x : ℕ) (v : Vma) → Clear a n v → inside a (a + n) x ≡ true → covers v x ≡ false
covers-Clear a n x v clear h = go v.used clear
  where
    go :
        (u : Bool)
        → (u ≡ true → (a + n ≤ v.addr) ⊎ (v.addr + v.len ≤ a))
        → (u && (leb v.addr x && ltb x (v.addr + v.len))) ≡ false
    go false apart = refl
    go true apart = elim (apart refl) [
      | inl h1 ↦ ground (arith, h, h1)
      | inr h2 ↦ ground (arith, h, h2)
    ]

set-backing :
    (vs : List Vma) (j x : ℕ) (new : Vma)
    → new.used ≡ true
    → FreeAt vs j
    → All (Clear new.addr new.len) vs
    → backing (set vs j new) x
      ≡ (if inside new.addr (new.addr + new.len) x then some (backing_of new x) else backing vs x)
set-backing [] j x new used free clear = cc free
set-backing (v ∷ vs) zero x new used free clear =
    let i : Bool = inside new.addr (new.addr + new.len) x in
    ap (λ u. if u && i then some (backing_of new x) else backing vs x) used
    ∙ ap
        (λ u.
          if i
          then some (backing_of new x)
          else if u && (leb v.addr x && ltb x (v.addr + v.len))
          then some (backing_of v x)
          else backing vs x)
        (sym free)
set-backing (v ∷ vs) (suc j) x new used free clear =
    go (covers v x) (inside new.addr (new.addr + new.len) x)
      (covers-Clear new.addr new.len x v clear.0) (set-backing vs j x new used free clear.1)
  where
    go :
        (c i : Bool)
        → (i ≡ true → c ≡ false)
        → backing (set vs j new) x ≡ (if i then some (backing_of new x) else backing vs x)
        → (if c then some (backing_of v x) else backing (set vs j new) x) ≡ (
            if i
            then some (backing_of new x)
            else if c
            then some (backing_of v x)
            else backing vs x)
    go false i apart rest = rest
    go true false apart rest = refl
    go true true apart rest = cc (apart refl)

-- The process after a successful mmap at `a`.
pub record Mapped (p : Proc) (args : MmapArgs) (f : Opened) (r : ℕ × List Vma) : Type 0 where
  pub nonzero : r.0 ≢ 0
  pub valid : IsValid p.sz r.1
  pub backed :
      (x : ℕ)
      → backing r.1 x ≡ (
          if inside r.0 (r.0 + pg_round_up args.len) x
          then some (backing_of (new_vma r.0 (pg_round_up args.len) args f) x)
          else backing p.vmas x)

placed-Mapped :
    (p : Proc) (args : MmapArgs) (f : Opened) (idx : ℕ)
    → IsValid p.sz p.vmas
    → FreeAt p.vmas idx
    → (vma_find_addr p.sz p.vmas (pg_round_up args.len) == 0) ≡ false
    → let len = pg_round_up args.len in
      let at = vma_find_addr p.sz p.vmas len in
      Mapped p args f (at, set p.vmas idx (new_vma at len args f))
placed-Mapped p args f idx ok free spot = go (vma_find_addr-Found p.sz len p.vmas whole ok.placed)
  where
    len : ℕ
    len = pg_round_up args.len

    whole : len % pgsize ≡ 0
    whole = omega arith

    at : ℕ
    at = vma_find_addr p.sz p.vmas len

    new : Vma
    new = new_vma at len args f

    go : (at ≡ 0) ⊎ Found p.sz len p.vmas at → Mapped p args f (at, set p.vmas idx new)
    go (inl e) = absurd (ground (arith, spot, e))
    go (inr found) = record {
      nonzero = ground (arith, spot);
      valid = record {
        placed =
            set-All (Placed p.sz) p.vmas idx new
              (λ _. (found.aligned, whole, found.above, found.below)) ok.placed;
        disjoint = set-Disjoint p.vmas idx new found.clear ok.disjoint;
      };
      backed = λ x. set-backing p.vmas idx x new refl free found.clear;
    }

-- mmap on a process whose regions are valid either fails or returns an address that is not 0, after
-- which the regions are valid, the asked pages at the address show the file from the asked offset, and
-- every other address shows what it did.
pub sys_mmap-Mapped :
    (p : Proc) (args : MmapArgs) (f : Opened)
    → IsValid p.sz p.vmas
    → (sys_mmap p args (some f) ≡ none)
      ⊎ ((r : ℕ × List Vma) × (sys_mmap p args (some f) ≡ some r) × Mapped p args f r)
unfolding sys_mmap vma_alloc_slot
sys_mmap-Mapped p args f ok = elim (Bool-cases (bad_args p args || bad_file args f)) [
  | inl bad ↦ inl (rw bad refl)
  | inr fine ↦ rw fine (go (alloc_slot_from p.vmas 0) refl)
]
  where
    len : ℕ
    len = pg_round_up args.len

    at : ℕ
    at = vma_find_addr p.sz p.vmas len

    result : Option ℕ → Option (ℕ × List Vma)
    result none = none
    result (some idx) = if at == 0 then none else some (at, set p.vmas idx (new_vma at len args f))

    go :
        (slot : Option ℕ)
        → alloc_slot_from p.vmas 0 ≡ slot
        → (result slot ≡ none) ⊎ ((r : ℕ × List Vma) × (result slot ≡ some r) × Mapped p args f r)
    go none e = inl refl
    go (some idx) e = elim (Bool-cases (at == 0)) [
      | inl zero_found ↦ inl (rw zero_found refl)
      | inr spot ↦
          let (j, at_j, free) = alloc_slot_from-FreeAt p.vmas 0 idx e in
          let same : j ≡ idx = omega (arith, at_j) in
          rw spot (
            inr (
              (at, set p.vmas idx (new_vma at len args f)),
              refl,
              placed-Mapped p args f idx ok (subst (FreeAt p.vmas) same free) spot,
            ))
    ]
