-- ===== src/Names/Components.antt =====
-- The elements of a path as what stands between its slashes.
use xv6_extended.Base.{
  ℕ, ◌≤◌, ◌<◌, ◌≡◌, ◌∙◌, refl, sym, ap, inl, inr, Bool, true, false, Option, some, none, List, [],
  ◌∷◌, ◌==◌, take, length, if◌then◌else◌, Bool-cases, arith,
}
use xv6_extended.Names.{slash, dirsiz, skip_slashes, take_elem, first_elem, skipelem}

-- The first of the texts with a character before it.
abbrev join_first : ℕ → List (List ℕ) → List (List ℕ)
join_first c [] = (c ∷ []) ∷ []
join_first c (w ∷ l) = (c ∷ w) ∷ l

-- The texts between the slashes, empty ones among them.
abbrev pub split : List ℕ → List (List ℕ)
split [] = [] ∷ []
split (c ∷ path) = let rest = split path in if c == slash then [] ∷ rest else join_first c rest

-- Those that are not empty, cut to the length of a name.
abbrev pub names : List (List ℕ) → List (List ℕ)
names [] = []
names ([] ∷ l) = names l
names ((c ∷ w) ∷ l) = take dirsiz (c ∷ w) ∷ names l

abbrev pub components : List ℕ → List (List ℕ)
components path = names (split path)

abbrev no_slash : List ℕ → Bool
no_slash [] = true
no_slash (c ∷ path) = if c == slash then false else true

skip_slashes-components : (path : List ℕ) → components (skip_slashes path) ≡ components path
unfolding skip_slashes
skip_slashes-components [] = refl
skip_slashes-components (c ∷ path) = elim (Bool-cases (c == slash)) [
  | inl at ↦ rw at (skip_slashes-components path)
  | inr other ↦ ap (λ b. components (if b then skip_slashes path else c ∷ path)) other
]

skip_slashes-no_slash : (path : List ℕ) → no_slash (skip_slashes path) ≡ true
unfolding skip_slashes
skip_slashes-no_slash [] = refl
skip_slashes-no_slash (c ∷ path) = elim (Bool-cases (c == slash)) [
  | inl at ↦ rw at (skip_slashes-no_slash path)
  | inr other ↦ rw other (rw other refl)
]

skip_slashes-length : (path : List ℕ) → length (skip_slashes path) ≤ length path
unfolding skip_slashes
skip_slashes-length [] = omega arith
skip_slashes-length (c ∷ path) = elim (Bool-cases (c == slash)) [
  | inl at ↦ let e = skip_slashes-length path in rw at (omega (arith, e))
  | inr other ↦ rw other (omega arith)
]

take_elem-length : (path : List ℕ) → length (take_elem path).1 ≤ length path
unfolding take_elem
take_elem-length [] = omega arith
take_elem-length (c ∷ path) = elim (Bool-cases (c == slash)) [
  | inl at ↦ rw at (omega arith)
  | inr other ↦ let e = take_elem-length path in rw other (omega (arith, e))
]

-- The texts behind the first one, from what `take_elem` leaves.
abbrev behind : List ℕ → List (List ℕ)
behind [] = []
behind (c ∷ path) = split path

take_elem-split : (path : List ℕ) → split path ≡ (take_elem path).0 ∷ behind (take_elem path).1
unfolding take_elem
take_elem-split [] = refl
take_elem-split (c ∷ path) = elim (Bool-cases (c == slash)) [
  | inl at ↦ rw at refl
  | inr other ↦ rw other (ap (join_first c) (take_elem-split path))
]

-- What is left begins with a slash or is empty, so nothing is lost with it.
behind-components :
    (path : List ℕ) → names (behind (take_elem path).1) ≡ components (take_elem path).1
unfolding take_elem
behind-components [] = refl
behind-components (c ∷ path) = elim (Bool-cases (c == slash)) [
  | inl at ↦ rw at (rw at refl)
  | inr other ↦ rw other (behind-components path)
]

-- A path without a slash at its front and without components is empty.
nothing_left : (path : List ℕ) → no_slash path ≡ true → components path ≡ [] → path ≡ []
nothing_left [] h e = refl
nothing_left (c ∷ path) h e = elim (Bool-cases (c == slash)) [
  | inl at ↦ cc (sym (ap (λ b. if b then false else true) at) ∙ h)
  | inr other ↦ cc (
      sym (
        ap (λ b. names (if b then [] ∷ split path else join_first c (split path))) other
        ∙ ap (λ l. names (join_first c l)) (take_elem-split path))
      ∙ e)
]

-- What `skipelem` has done to a path.
abbrev pub Skipped : List ℕ → Option (List ℕ × List ℕ) → Type 0
Skipped path none = components path ≡ []
Skipped path (some (name, rest)) =
    (components path ≡ name ∷ components rest)
    × (components rest ≡ [] → rest ≡ [])
    × (length rest < length path)

first_elem-Skipped :
    (path p : List ℕ)
    → components p ≡ components path
    → no_slash p ≡ true
    → length p ≤ length path
    → Skipped path (first_elem p)
unfolding first_elem take_elem
first_elem-Skipped path [] same clean short = sym same
first_elem-Skipped path (c ∷ p) same clean short = elim (Bool-cases (c == slash)) [
  | inl at ↦ cc (sym (ap (λ b. if b then false else true) at) ∙ clean)
  | inr other ↦
      let r = take_elem p in
      let whole : components (c ∷ p) ≡ take dirsiz (c ∷ r.0) ∷ components (skip_slashes r.1) =
        ap (λ b. names (if b then [] ∷ split p else join_first c (split p))) other
        ∙ ap (λ l. names (join_first c l)) (take_elem-split p)
        ∙ ap (λ l. take dirsiz (c ∷ r.0) ∷ l)
            (behind-components p ∙ sym (skip_slashes-components r.1)) in
      let l1 = take_elem-length p in
      let l2 = skip_slashes-length r.1 in
      rw other (
        sym same ∙ whole,
        nothing_left (skip_slashes r.1) (skip_slashes-no_slash r.1),
        omega (arith, l1, l2, short),
      )
]

-- `skipelem` gives 0 exactly for a path of slashes alone, which has no components. Else it gives the first of the
-- components, cut to the length of a name, and the path of the others, which is shorter than the path was and
-- is empty if there are none, so that the caller can tell the last one.
pub skipelem-Skipped : (path : List ℕ) → Skipped path (skipelem path)
unfolding skipelem
skipelem-Skipped path =
    first_elem-Skipped path (skip_slashes path) (skip_slashes-components path)
      (skip_slashes-no_slash path) (skip_slashes-length path)
