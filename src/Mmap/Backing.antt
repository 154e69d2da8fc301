-- ===== src/Mmap/Backing.antt =====
-- What is mapped at each address by the regions of a process.
use xv6_extended.Base.{
  ℕ, ◌+◌, ◌-◌, ◌≡◌, ◌∙◌, refl, sym, ap, ap₂, Bool, true, false, ◌&&◌, Option, some, none, List, [],
  ◌∷◌, ltb, leb, if◌then◌else◌,
}
use xv6_extended.Proc.{Vma}

-- What is mapped at an address: the file, the offset in it, the protection and the flags.
pub record Backing : Type 0 where
  pub file : Option ℕ
  pub offset : ℕ
  pub prot : ℕ
  pub flags : ℕ

abbrev pub covers : Vma → ℕ → Bool
covers v a = v.used && (leb v.addr a && ltb a (v.addr + v.len))

abbrev pub backing_of : Vma → ℕ → Backing
backing_of v a = record {
  file = v.f;
  offset = v.off + (a - v.addr);
  prot = v.prot;
  flags = v.flags;
}

abbrev pub backing : List Vma → ℕ → Option Backing
backing [] a = none
backing (v ∷ vs) a = if covers v a then some (backing_of v a) else backing vs a

abbrev pub inside : ℕ → ℕ → ℕ → Bool
inside addr end a = leb addr a && ltb a end

-- What a region says about an address.
abbrev pub says : Vma → ℕ → Option Backing
says v a = if covers v a then some (backing_of v a) else none

-- What the first of two says, or else the second.
abbrev or_else : Option Backing → Option Backing → Option Backing
or_else none y = y
or_else (some x) y = some x

backing-says :
    (v : Vma) (vs : List Vma) (a : ℕ) → backing (v ∷ vs) a ≡ or_else (says v a) (backing vs a)
backing-says v vs a = go (covers v a)
  where
    go :
        (c : Bool)
        → (if c then some (backing_of v a) else backing vs a)
          ≡ or_else (if c then some (backing_of v a) else none) (backing vs a)
    go true = refl
    go false = refl

or_else-if :
    (gone : Bool) (x y : Option Backing)
    → or_else (if gone then none else x) (if gone then none else y)
      ≡ (if gone then none else or_else x y)
or_else-if true x y = refl
or_else-if false x y = refl

-- One region and the rest of them are each cut.
pub backing-cut :
    (addr end a : ℕ) (v v' : Vma) (vs vs' : List Vma)
    → says v' a ≡ (if inside addr end a then none else says v a)
    → backing vs' a ≡ (if inside addr end a then none else backing vs a)
    → backing (v' ∷ vs') a ≡ (if inside addr end a then none else backing (v ∷ vs) a)
backing-cut addr end a v v' vs vs' first rest =
    backing-says v' vs' a
    ∙ ap₂ or_else first rest
    ∙ or_else-if (inside addr end a) (says v a) (backing vs a)
    ∙ ap (λ b. if inside addr end a then none else b) (sym (backing-says v vs a))

pub skip-says :
    (addr end a : ℕ) (v : Vma)
    → (inside addr end a ≡ true → covers v a ≡ false)
    → says v a ≡ (if inside addr end a then none else says v a)
skip-says addr end a v h = go (covers v a) (inside addr end a) h
  where
    go :
        (c i : Bool)
        → (i ≡ true → c ≡ false)
        → (if c then some (backing_of v a) else none)
          ≡ (if i then none else if c then some (backing_of v a) else none)
    go c false h = refl
    go false true h = refl
    go true true h = cc (h refl)
