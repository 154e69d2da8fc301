-- ===== src/Grep/Tests.antt =====
-- The matcher on concrete strings.
use xv6_extended.Base.{true, false, ◌≡◌, ◌↔◌, refl, [], ◌∷◌}
use xv6_extended.Grep.{match_re, search, matchhere, matchone, matchstar}
use xv6_extended.Grep.Language.{Found, match_re_iff}

-- `ab*c$` in `xabbc`, and not in `abcd`.
found_at_end : match_re (97 ∷ 98 ∷ 42 ∷ 99 ∷ 36 ∷ []) (120 ∷ 97 ∷ 98 ∷ 98 ∷ 99 ∷ []) ≡ true
unfolding match_re search matchhere matchone matchstar
found_at_end = refl

not_at_end : match_re (97 ∷ 98 ∷ 42 ∷ 99 ∷ 36 ∷ []) (97 ∷ 98 ∷ 99 ∷ 100 ∷ []) ≡ false
unfolding match_re search matchhere matchone matchstar
not_at_end = refl

match_re_iff_example :
    (match_re (97 ∷ 98 ∷ 42 ∷ 99 ∷ 36 ∷ []) (120 ∷ 97 ∷ 98 ∷ 98 ∷ 99 ∷ []) ≡ true)
    ↔ Found (97 ∷ 98 ∷ 42 ∷ 99 ∷ 36 ∷ []) (120 ∷ 97 ∷ 98 ∷ 98 ∷ 99 ∷ [])
match_re_iff_example = match_re_iff (97 ∷ 98 ∷ 42 ∷ 99 ∷ 36 ∷ []) (120 ∷ 97 ∷ 98 ∷ 98 ∷ 99 ∷ [])
