-- ===== src/Names/Tests.antt =====
-- Paths.
use xv6_extended.Base.{◌≡◌, refl, some, [], ◌∷◌}
use xv6_extended.Names.{skipelem, first_elem, skip_slashes, take_elem}
use xv6_extended.Names.Components.{Skipped, skipelem-Skipped}

-- `//a//bb`
slashes : skipelem (47 ∷ 47 ∷ 97 ∷ 47 ∷ 47 ∷ 98 ∷ 98 ∷ []) ≡ some (97 ∷ [], 98 ∷ 98 ∷ [])
unfolding skipelem first_elem skip_slashes take_elem
slashes = refl

skipelem-Skipped_example :
    Skipped (47 ∷ 47 ∷ 97 ∷ 47 ∷ 98 ∷ []) (skipelem (47 ∷ 47 ∷ 97 ∷ 47 ∷ 98 ∷ []))
skipelem-Skipped_example = skipelem-Skipped (47 ∷ 47 ∷ 97 ∷ 47 ∷ 98 ∷ [])
