-- ===== src/File/Slots.antt =====
-- The descriptors of a process as holders of files.
use xv6_extended.Base.{
  ℕ, zero, suc, ◌+◌, ◌≤◌, ◌≡◌, ◌≢◌, ◌⊎◌, ◌∙◌, refl, sym, ap, inl, inr, Option, some, none, [], ◌∷◌,
  ◌==◌, leb, if◌then◌else◌, Bool-cases, arith, length, set, get_or,
}
use xv6_extended.File.{nofile, Fds, argfd, fd_from, fdalloc}

abbrev pub held : ℕ → Option ℕ → ℕ
held f none = 0
held f (some g) = if g == f then 1 else 0

-- The number of descriptors for a file.
abbrev pub count : ℕ → Fds → ℕ
count f [] = 0
count f (x ∷ fds) = held f x + count f fds

pub count-le : (f : ℕ) (fds : Fds) → count f fds ≤ length fds
count-le f [] = omega arith
count-le f (none ∷ fds) = let e = count-le f fds in omega (arith, e)
count-le f (some g ∷ fds) = let e = count-le f fds in ground (arith, e)

-- A free slot `i` has been given to the file `f`.
pub record Slot (f i : ℕ) (fds fds' : Fds) : Type 0 where
  pub counts : (g : ℕ) → count g fds' ≡ held g (some f) + count g fds
  pub undo : set fds' i none ≡ fds
  pub long : length fds' ≡ length fds

fd_from-Slot :
    (f fd : ℕ) (fds : Fds)
    → (fd_from f fd fds ≡ none)
      ⊎ ((i : ℕ) × (fds' : Fds) × (fd_from f fd fds ≡ some (fd + i, fds')) × Slot f i fds fds')
unfolding fd_from
fd_from-Slot f fd [] = inl refl
fd_from-Slot f fd (none ∷ fds) = inr (
  0,
  some f ∷ fds,
  ap (λ n. some (n, some f ∷ fds)) (omega arith),
  record { counts = λ g. omega arith; undo = refl; long = refl },
)
fd_from-Slot f fd (some g ∷ fds) = elim (fd_from-Slot f (fd + 1) fds) [
  | inl full ↦ inl (ap more full)
  | inr (i, fds', e, slot) ↦ inr (
    suc i,
    some g ∷ fds',
    ap more e ∙ ap (λ n. some (n, some g ∷ fds')) (omega arith),
    record {
      counts = λ k. let c = slot.counts k in omega (arith, c);
      undo = ap (λ m. some g ∷ m) slot.undo;
      long = ap suc slot.long;
    },
  )
]
  where
    more : Option (ℕ × Fds) → Option (ℕ × Fds)
    more none = none
    more (some r) = some (r.0, some g ∷ r.1)

pub fdalloc-Slot :
    (f : ℕ) (fds : Fds)
    → (fdalloc f fds ≡ none)
      ⊎ ((i : ℕ) × (fds' : Fds) × (fdalloc f fds ≡ some (i, fds')) × Slot f i fds fds')
unfolding fdalloc
fdalloc-Slot f fds = elim (fd_from-Slot f 0 fds) [
  | inl full ↦ inl full
  | inr (i, fds', e, slot) ↦ inr (i, fds', e ∙ ap (λ n. some (n, fds')) (omega arith), slot)
]

-- A descriptor that is open, and what is left when its slot has been emptied.
pub count-set :
    (fds : Fds) (n f : ℕ)
    → get_or fds n none ≡ some f
    → ((g : ℕ) → count g fds ≡ held g (some f) + count g (set fds n none))
      × (length (set fds n none) ≡ length fds)
count-set [] n f e = cc e
count-set (x ∷ fds) zero f e = (λ g. ap (λ y. held g y + count g fds) e ∙ omega arith, refl)
count-set (x ∷ fds) (suc n) f e =
    let c = count-set fds n f e in (λ g. let k = c.0 g in omega (arith, k), ap suc c.1)

pub argfd-open : (n f : ℕ) (fds : Fds) → argfd n fds ≡ some f → get_or fds n none ≡ some f
argfd-open n f fds e = elim (Bool-cases (leb nofile n)) [
  | inl out ↦ cc (sym (ap (λ b. if◌then◌else◌ {A = Option ℕ} b none (get_or fds n none)) out) ∙ e)
  | inr fine ↦ sym (ap (λ b. if◌then◌else◌ {A = Option ℕ} b none (get_or fds n none)) fine) ∙ e
]

pub held_self : (f : ℕ) → held f (some f) ≡ 1
held_self f = ground arith

pub held_other : (f g : ℕ) → f ≢ g → held g (some f) ≡ 0
held_other f g ne = ground (arith, ne)
