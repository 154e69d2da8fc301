-- ===== src/Mmap/Trim.antt =====
-- A round of the loop of `proc_munmap`: what is left of one region.
use xv6_extended.Base.{
  ℕ, ◌+◌, ◌-◌, ◌/◌, ◌%◌, ◌^◌, ◌<◌, ◌≡◌, refl, ap, Bool, true, false, not, ◌&&◌, ◌||◌, some, none,
  [], ◌∷◌, ◌==◌, ltb, leb, if◌then◌else◌, arith,
}
use xv6_extended.Memory.{pgsize}
use xv6_extended.Proc.{Vma}
use xv6_extended.Mmap.Regions.{InRange}
use xv6_extended.Mmap.{
  vend, vma_writeback, uvmunmap, close_call, Cut, skip, hole, cut, no_vma, trimmed, unmap_start,
  unmap_end, cut_one,
}
use xv6_extended.Mmap.Backing.{covers, backing_of, inside, says}

-- `v'` is what is left of `v` when the addresses from `addr` to `end` go.
abbrev pub Trims : ℕ → ℕ → Vma → Vma → Type 0
Trims addr end v v' =
    InRange v' × ((a : ℕ) → says v' a ≡ (if inside addr end a then none else says v a))

-- The cases of `cut_one` at a region, by what it does to each address.
abbrev pub CutOne : ℕ → ℕ → Vma → Cut → Type 0
CutOne addr end v skip = (a : ℕ) → inside addr end a ≡ true → covers v a ≡ false
CutOne addr end v hole = (v.used ≡ true) × (v.addr < addr) × (end < v.addr + v.len)
CutOne addr end v (cut v' calls) =
    ((v.used ≡ true) × (v.addr < end) × (addr < v.addr + v.len)) × Trims addr end v v'

-- A region that is moved and shortened says what it said, less the addresses that it no longer covers.
says_trimmed :
    (v : Vma) (addr len off lo hi a : ℕ)
    → (covers (record v { addr = addr; len = len }) a ≡ (covers v a && not (inside lo hi a)))
    → ((covers v a && not (inside lo hi a)) ≡ true → off + (a - addr) ≡ v.off + (a - v.addr))
    → says (record v { addr = addr; len = len; off = off }) a
      ≡ (if inside lo hi a then none else says v a)
says_trimmed v addr len off lo hi a same offset =
    go (covers v a) (inside lo hi a) (covers (record v { addr = addr; len = len }) a) same offset
  where
    go :
        (c i c' : Bool)
        → c' ≡ (c && not i)
        → ((c && not i) ≡ true → off + (a - addr) ≡ v.off + (a - v.addr))
        → (if c'
            then some (backing_of (record v { addr = addr; len = len; off = off }) a)
            else none)
          ≡ (if i then none else if c then some (backing_of v a) else none)
    go true false c' e moved = rw e (
        ap (λ offset. some (record { file = v.f; offset = offset; prot = v.prot; flags = v.flags }))
          (moved refl))
    go true true c' e moved = rw e refl
    go false true c' e moved = rw e refl
    go false false c' e moved = rw e refl

-- A region all of whose addresses go.
says_gone :
    (v : Vma) (lo hi a : ℕ)
    → (covers v a ≡ true → inside lo hi a ≡ true)
    → none ≡ (if inside lo hi a then none else says v a)
says_gone v lo hi a h = go (covers v a) (inside lo hi a) h
  where
    go :
        (c i : Bool)
        → (c ≡ true → i ≡ true)
        → none ≡ (if i then none else if c then some (backing_of v a) else none)
    go c true h = refl
    go false false h = refl
    go true false h = cc (h refl)

-- `trimmed` between two addresses that the last argument may not move, with `vend` written out.
abbrev trimmed_to : Vma → ℕ → ℕ → ℕ → Vma
trimmed_to v last s e =
    if s == v.addr && e == last
    then no_vma
    else if s == v.addr
    then record v { addr = e; off = (v.off + (e - s)) % 2 ^ 64; len = last - e }
    else if e == last
    then record v { len = s - v.addr }
    else v

trimmed_to-Trims :
    (addr end : ℕ) (v : Vma)
    → InRange v
    → v.addr < end
    → addr < v.addr + v.len
    → (later early : Bool) → ltb v.addr addr ≡ later
    → ltb end (v.addr + v.len) ≡ early
    → (later && early) ≡ false
    → Trims addr end v (
        trimmed_to v
          (v.addr + v.len)
          (if later then addr else v.addr)
          (if early then end else v.addr + v.len))
trimmed_to-Trims addr end v range before after false false e1 e2 h =
    let whole : (v.addr == v.addr && v.addr + v.len == v.addr + v.len) ≡ true = ground arith in
    rw whole
      ((omega arith, omega arith), λ a. says_gone v addr end a (λ c. ground (arith, c, e1, e2)))
trimmed_to-Trims addr end v range before after false true e1 e2 h =
    let part : (v.addr == v.addr && end == v.addr + v.len) ≡ false = ground (arith, e2) in
    let front : (v.addr == v.addr) ≡ true = ground arith in
    let moved : (v.off + (end - v.addr)) % 2 ^ 64 ≡ v.off + (end - v.addr) =
      ground (arith, range.1, e2) in
    rw (part, front, moved)
      (
        (ground (arith, range.0, e2, before), ground (arith, range.1, e2, before)),
        λ a.
            says_trimmed v end (v.addr + v.len - end) (v.off + (end - v.addr)) addr end a
              (ground (arith, range.0, e1, e2)) (λ c. ground (arith, c, range.0, e1, e2)),
      )
trimmed_to-Trims addr end v range before after true false e1 e2 h =
    let part : (addr == v.addr && v.addr + v.len == v.addr + v.len) ≡ false = ground (arith, e1) in
    let front : (addr == v.addr) ≡ false = ground (arith, e1) in
    let back : (v.addr + v.len == v.addr + v.len) ≡ true = ground arith in
    rw (part, front, back)
      (
        (ground (arith, range.0, e1, after), ground (arith, range.1, e1, after)),
        λ a.
            says_trimmed v v.addr (addr - v.addr) v.off addr end a (ground (arith, range.0, e1, e2))
              (λ _. refl),
      )
trimmed_to-Trims addr end v range before after true true e1 e2 h = cc h

trimmed-Trims :
    (addr end : ℕ) (v : Vma)
    → InRange v
    → v.addr < end
    → addr < v.addr + v.len
    → (ltb v.addr (unmap_start addr v) && ltb (unmap_end end v) (vend v)) ≡ false
    → Trims addr end v (trimmed v (unmap_start addr v) (unmap_end end v))
trimmed-Trims addr end v range before after no_hole =
    let flat : vend v ≡ v.addr + v.len = omega (arith, range.0) in
    let apart : (ltb v.addr addr && ltb end (v.addr + v.len)) ≡ false =
      ground (arith, no_hole, range.0) in
    rw flat (
      trimmed_to-Trims addr end v range before after (ltb v.addr addr) (ltb end (v.addr + v.len))
        refl refl apart)

pub cut_one-CutOne : (addr end : ℕ) (v : Vma) → InRange v → CutOne addr end v (cut_one addr end v)
unfolding cut_one
cut_one-CutOne addr end v range =
    go v.used (leb end v.addr || leb (vend v) addr)
      (ltb v.addr (unmap_start addr v) && ltb (unmap_end end v) (vend v)) refl refl refl
  where
    go :
        (used apart gap : Bool)
        → v.used ≡ used
        → (leb end v.addr || leb (vend v) addr) ≡ apart
        → (ltb v.addr (unmap_start addr v) && ltb (unmap_end end v) (vend v)) ≡ gap
        → CutOne addr end v (
            if not used
            then skip
            else if apart
            then skip
            else if gap
            then hole
            else cut (trimmed v (unmap_start addr v) (unmap_end end v)) (
                vma_writeback v (unmap_start addr v) (unmap_end end v)
                ∷ uvmunmap (unmap_start addr v) ((unmap_end end v - unmap_start addr v) / pgsize)
                ∷ (if unmap_start addr v == v.addr && unmap_end end v == vend v
                    then close_call v.f
                    else [])))
    go false apart gap e1 e2 e3 = λ a h. ground (arith, e1)
    go true true gap e1 e2 e3 = λ a h. ground (arith, e2, h, range.0)
    go true false true e1 e2 e3 = (e1, ground (arith, e3), ground (arith, e3, range.0))
    go true false false e1 e2 e3 = (
      (e1, ground (arith, e2), ground (arith, e2, range.0)),
      trimmed-Trims addr end v range (ground (arith, e2)) (ground (arith, e2, range.0)) e3,
    )
