-- ===== src/Grep/Language.antt =====
-- The language of a pattern, and that the matcher finds exactly its words.
use xv6_extended.Base.{
  ℕ, Bool, true, false, ◌||◌, List, [], ◌∷◌, ◌++◌, ◌==◌, if◌then◌else◌, ◌≡◌, ◌⊎◌, ◌↔◌, inl, inr,
  refl, sym, ap, subst, ◌∙◌, Bool-cases, All, arith,
}
use xv6_extended.Grep.{
  caret, dot, star, dollar, fits, matchstar, matchone, matchhere, is_empty, search, match_re,
}

-- One character, or any number of them.
pub data Item : Type 0 where
  one : ℕ → Item
  many : ℕ → Item

-- The items of a pattern.
abbrev pub items : List ℕ → List Item
items [] = []
items (c ∷ []) = if c == dollar then [] else one c ∷ []
items (c ∷ d ∷ re) =
    let starred = many c ∷ items re in
    let single = one c ∷ items (d ∷ re) in if d == star then starred else single

-- Whether it ends in a `$` that is no item.
abbrev pub at_end : List ℕ → Bool
at_end [] = false
at_end (c ∷ []) = c == dollar
at_end (c ∷ d ∷ re) =
    let starred = at_end re in let single = at_end (d ∷ re) in if d == star then starred else single

-- The words of a list of items.
abbrev pub Word : List Item → List ℕ → Type 0
Word [] w = w ≡ []
Word (one c ∷ l) w = (t : ℕ) × (v : List ℕ) × (w ≡ t ∷ v) × (fits c t ≡ true) × Word l v
Word (many c ∷ l) w =
    (u : List ℕ) × (v : List ℕ) × (w ≡ u ++ v) × All (λ t. fits c t ≡ true) u × Word l v

-- The text begins with a word of the items, which is all of the text if `anchored`.
abbrev pub Start : List Item → Bool → List ℕ → Type 0
Start l anchored text =
    (w : List ℕ) × (post : List ℕ) × (text ≡ w ++ post) × Word l w × (anchored ≡ true → post ≡ [])

-- The text begins with a word of the pattern, which is all of the text if the pattern ends in `$`.
abbrev pub Begins : List ℕ → List ℕ → Type 0
Begins re text = Start (items re) (at_end re) text

-- What it is for `here` to decide this, for the items `l`.
abbrev Decides : (List ℕ → Bool) → List Item → Bool → Type 0
Decides here l anchored =
    (text : List ℕ)
    → (here text ≡ true → Start l anchored text) × (Start l anchored text → here text ≡ true)

empty-Decides : (anchored : Bool) → Decides (λ t. if anchored then is_empty t else true) [] anchored
empty-Decides true [] = (λ h. ([], [], refl, refl, λ e. refl), λ h. refl)
empty-Decides true (t ∷ text) =
    (λ h. cc, λ (w, post, e, is, at). absurd (no_cons t text w post e is (at refl)))
  where
    no_cons : (t : ℕ) (text w post : List ℕ) → t ∷ text ≡ w ++ post → w ≡ [] → post ≡ [] → ⊥
    no_cons t text w post e ew ep = cc (e, ew, ep)
empty-Decides false text = (λ h. ([], text, refl, refl, λ e. cc), λ h. refl)

matchone-Decides :
    (c : ℕ) (here : List ℕ → Bool) (l : List Item) (anchored : Bool)
    → Decides here l anchored
    → Decides (matchone c here) (one c ∷ l) anchored
unfolding matchone
matchone-Decides c here l anchored d [] =
    (λ h. cc, λ (w, post, e, (t, v, is, fit, word), at). cc (e ∙ ap (λ m. m ++ post) is))
matchone-Decides c here l anchored d (t ∷ text) = (there, back)
  where
    there : (if fits c t then here text else false) ≡ true → Start (one c ∷ l) anchored (t ∷ text)
    there h = elim (Bool-cases (fits c t)) [
      | inl fit ↦
          let (w, post, e, word, at) =
            (d text).0 (sym (ap (λ b. if b then here text else false) fit) ∙ h) in
          (t ∷ w, post, ap (λ m. t ∷ m) e, (t, w, refl, fit, word), at)
      | inr other ↦ cc (sym (ap (λ b. if b then here text else false) other) ∙ h)
    ]

    back : Start (one c ∷ l) anchored (t ∷ text) → (if fits c t then here text else false) ≡ true
    back (w, post, e, (x, v, is, fit, word), at) =
        let whole : t ∷ text ≡ x ∷ (v ++ post) = e ∙ ap (λ m. m ++ post) is in
        let head_same : x ≡ t = cc whole in
        let tail_same : text ≡ v ++ post = cc whole in
        ap (λ b. if b then here text else false) (ap (fits c) (sym head_same) ∙ fit)
        ∙ (d text).1 (v, post, tail_same, word, at)

now_or_later :
    (p q r : Bool)
    → (if p then true else if q then r else false) ≡ true
    → (p ≡ true) ⊎ ((q ≡ true) × (r ≡ true))
now_or_later true q r h = inl refl
now_or_later false true r h = inr (refl, h)
now_or_later false false r h = cc h

now : (p q r : Bool) → p ≡ true → (if p then true else if q then r else false) ≡ true
now true q r h = refl
now false q r h = cc h

later : (p q r : Bool) → q ≡ true → r ≡ true → (if p then true else if q then r else false) ≡ true
later true q r hq hr = refl
later false true r hq hr = hr
later false false r hq hr = cc hq

matchstar-Decides :
    (c : ℕ) (here : List ℕ → Bool) (l : List Item) (anchored : Bool)
    → Decides here l anchored
    → Decides (matchstar c here) (many c ∷ l) anchored
unfolding matchstar
matchstar-Decides c here l anchored d [] = (there, back)
  where
    there : here [] ≡ true → Start (many c ∷ l) anchored []
    there h = let (w, post, e, word, at) = (d []).0 h in (w, post, e, ([], w, refl, tt, word), at)

    back : Start (many c ∷ l) anchored [] → here [] ≡ true
    back (w, post, e, ([], v, is, fit, word), at) =
        (d []).1 (v, post, e ∙ ap (λ m. m ++ post) is, word, at)
    back (w, post, e, (x ∷ u, v, is, fit, word), at) = cc (e ∙ ap (λ m. m ++ post) is)
matchstar-Decides c here l anchored d (t ∷ text) = (
  there (matchstar-Decides c here l anchored d text).0,
  back (matchstar-Decides c here l anchored d text).1,
)
  where
    go_on : Bool
    go_on = (t == c) || (c == dot)

    there :
        (matchstar c here text ≡ true → Start (many c ∷ l) anchored text)
        → (if here (t ∷ text) then true else if go_on then matchstar c here text else false) ≡ true
        → Start (many c ∷ l) anchored (t ∷ text)
    there ih h = elim (now_or_later (here (t ∷ text)) go_on (matchstar c here text) h) [
      | inl stop ↦
          let (w, post, e, word, at) = (d (t ∷ text)).0 stop in
          (w, post, e, ([], w, refl, tt, word), at)
      | inr (fit, rest) ↦
          let (w, post, e, (u, v, is, all_fit, word), at) = ih rest in
          let fits_t : fits c t ≡ true = ground (arith, fit) in
          (
            t ∷ w,
            post,
            ap (λ m. t ∷ m) e,
            (t ∷ u, v, ap (λ m. t ∷ m) is, (fits_t, all_fit), word),
            at,
          )
    ]

    back :
        (Start (many c ∷ l) anchored text → matchstar c here text ≡ true)
        → Start (many c ∷ l) anchored (t ∷ text)
        → (if here (t ∷ text) then true else if go_on then matchstar c here text else false) ≡ true
    back ih (w, post, e, ([], v, is, fit, word), at) =
        now (here (t ∷ text)) go_on (matchstar c here text)
          ((d (t ∷ text)).1 (v, post, e ∙ ap (λ m. m ++ post) is, word, at))
    back ih (w, post, e, (x ∷ u, v, is, (fit, all_fit), word), at) =
        let whole : t ∷ text ≡ x ∷ ((u ++ v) ++ post) = e ∙ ap (λ m. m ++ post) is in
        let head_same : x ≡ t = cc whole in
        let tail_same : text ≡ (u ++ v) ++ post = cc whole in
        let goes : go_on ≡ true = ground (arith, fit, head_same) in
        later (here (t ∷ text)) go_on (matchstar c here text) goes
          (ih (u ++ v, post, tail_same, (u, v, refl, all_fit, word), at))

-- `matchhere` finds the words of a pattern at the beginning of a text.
pub matchhere-Decides : (re : List ℕ) → Decides (matchhere re) (items re) (at_end re)
unfolding matchhere
matchhere-Decides [] = empty-Decides false
matchhere-Decides (c ∷ []) = go (c == dollar)
  where
    go :
        (b : Bool)
        → Decides
            (λ text. if b then is_empty text else matchone c (matchhere []) text)
            (if b then [] else one c ∷ [])
            b
    go true = empty-Decides true
    go false = matchone-Decides c (matchhere []) [] false (empty-Decides false)
matchhere-Decides (c ∷ d ∷ re) = go (d == star) (matchhere-Decides re) (matchhere-Decides (d ∷ re))
  where
    go :
        (b : Bool)
        → Decides (matchhere re) (items re) (at_end re)
        → Decides (matchhere (d ∷ re)) (items (d ∷ re)) (at_end (d ∷ re))
        → Decides
            (λ text.
              if b then matchstar c (matchhere re) text else matchone c (matchhere (d ∷ re)) text)
            (if b then many c ∷ items re else one c ∷ items (d ∷ re))
            (if b then at_end re else at_end (d ∷ re))
    go true ih ih1 = matchstar-Decides c (matchhere re) (items re) (at_end re) ih
    go false ih ih1 = matchone-Decides c (matchhere (d ∷ re)) (items (d ∷ re)) (at_end (d ∷ re)) ih1

-- The pattern is found somewhere in the text.
abbrev pub Inside : List ℕ → List ℕ → Type 0
Inside re text = (pre : List ℕ) × (rest : List ℕ) × (text ≡ pre ++ rest) × Begins re rest

-- The same for a pattern that may begin with `^`.
abbrev pub Found : List ℕ → List ℕ → Type 0
Found [] text = Inside [] text
Found (c ∷ re) text = if c == caret then Begins re text else Inside (c ∷ re) text

search-Inside : (re text : List ℕ) → (search (matchhere re) text ≡ true) ↔ Inside re text
unfolding search
search-Inside re [] = (there, back)
  where
    there : matchhere re [] ≡ true → Inside re []
    there h = ([], [], refl, (matchhere-Decides re []).0 h)

    back : Inside re [] → matchhere re [] ≡ true
    back ([], rest, e, at) = (matchhere-Decides re []).1 (subst (Begins re) (sym e) at)
    back (x ∷ pre, rest, e, at) = cc e
search-Inside re (t ∷ text) = (there (search-Inside re text).0, back (search-Inside re text).1)
  where
    there :
        (search (matchhere re) text ≡ true → Inside re text)
        → (if matchhere re (t ∷ text) then true else search (matchhere re) text) ≡ true
        → Inside re (t ∷ text)
    there ih h = elim (now_or_later (matchhere re (t ∷ text)) true (search (matchhere re) text) h) [
      | inl here ↦ ([], t ∷ text, refl, (matchhere-Decides re (t ∷ text)).0 here)
      | inr (_, further) ↦
          let (pre, rest, e, at) = ih further in (t ∷ pre, rest, ap (λ m. t ∷ m) e, at)
    ]

    back :
        (Inside re text → search (matchhere re) text ≡ true)
        → Inside re (t ∷ text)
        → (if matchhere re (t ∷ text) then true else search (matchhere re) text) ≡ true
    back ih ([], rest, e, at) =
        now (matchhere re (t ∷ text)) true (search (matchhere re) text)
          ((matchhere-Decides re (t ∷ text)).1 (subst (Begins re) (sym e) at))
    back ih (x ∷ pre, rest, e, at) =
        let tail_same : text ≡ pre ++ rest = cc e in
        later (matchhere re (t ∷ text)) true (search (matchhere re) text) refl
          (ih (pre, rest, tail_same, at))

-- `match` returns true exactly for the texts in which a word of the pattern stands: at the beginning if the
-- pattern begins with `^`, with nothing behind it if the pattern ends in `$`, and else anywhere. In a pattern,
-- `.` fits any character, a `*` repeats the character before it, and all else stands for itself.
pub match_re_iff : (re text : List ℕ) → (match_re re text ≡ true) ↔ Found re text
unfolding match_re
match_re_iff [] text = search-Inside [] text
match_re_iff (c ∷ re) text = go (c == caret)
  where
    go :
        (b : Bool)
        → ((if b then matchhere re text else search (matchhere (c ∷ re)) text) ≡ true)
          ↔ (if b then Begins re text else Inside (c ∷ re) text)
    go true = matchhere-Decides re text
    go false = search-Inside (c ∷ re) text
