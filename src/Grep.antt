-- ===== src/Grep.antt =====
-- xv6-riscv/user/grep.c: the matcher. A string is the list of its bytes before the NUL.
pub mod Language
mod Tests
use xv6_extended.Base.{ℕ, Bool, true, false, ◌&&◌, ◌||◌, List, [], ◌∷◌, ◌==◌, if◌then◌else◌}

-- The characters `^`, `.`, `*` and `$`.
abbrev pub caret : ℕ
caret = 94

abbrev pub dot : ℕ
dot = 46

abbrev pub star : ℕ
star = 42

abbrev pub dollar : ℕ
dollar = 36

-- `re[0]=='.' || re[0]==*text`
abbrev pub fits : ℕ → ℕ → Bool
fits c t = (c == dot) || (c == t)

-- `matchstar` for the pattern that `here` matches.
unfoldable pub matchstar : ℕ → (List ℕ → Bool) → List ℕ → Bool
matchstar c here [] = here []
matchstar c here (t ∷ text) =
    let rest = matchstar c here text in
    if here (t ∷ text) then true else if (t == c) || (c == dot) then rest else false

-- The last test of `matchhere`, where `here` matches the rest of the pattern.
unfoldable pub matchone : ℕ → (List ℕ → Bool) → List ℕ → Bool
matchone c here [] = false
matchone c here (t ∷ text) = if fits c t then here text else false

abbrev pub is_empty : List ℕ → Bool
is_empty [] = true
is_empty (t ∷ text) = false

unfoldable pub matchhere : List ℕ → List ℕ → Bool
matchhere [] text = true
matchhere (c ∷ []) text = if c == dollar then is_empty text else matchone c (matchhere []) text
matchhere (c ∷ d ∷ re) text =
    let starred = matchstar c (matchhere re) text in
    let single = matchone c (matchhere (d ∷ re)) text in if d == star then starred else single

-- The loop of `match` over the text.
unfoldable pub search : (List ℕ → Bool) → List ℕ → Bool
search here [] = here []
search here (t ∷ text) = let rest = search here text in if here (t ∷ text) then true else rest

unfoldable pub match_re : List ℕ → List ℕ → Bool
match_re [] text = search (matchhere []) text
match_re (c ∷ re) text = if c == caret then matchhere re text else search (matchhere (c ∷ re)) text
