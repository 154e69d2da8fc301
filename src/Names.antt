-- ===== src/Names.antt =====
-- xv6-riscv/kernel/fs.c: the elements of a path name. A string is the list of its bytes before the NUL.
pub mod Components
mod Tests
use xv6_extended.Base.{ℕ, Bool, Option, some, none, List, [], ◌∷◌, ◌==◌, take, if◌then◌else◌}

abbrev pub slash : ℕ
slash = 47

abbrev pub dirsiz : ℕ
dirsiz = 14

-- `while(*path == '/') path++;`
unfoldable pub skip_slashes : List ℕ → List ℕ
skip_slashes [] = []
skip_slashes (c ∷ path) = let rest = skip_slashes path in if c == slash then rest else c ∷ path

-- `while(*path != '/' && *path != 0) path++;`: what is passed over, and what is left.
unfoldable pub take_elem : List ℕ → List ℕ × List ℕ
take_elem [] = ([], [])
take_elem (c ∷ path) =
    let rest = take_elem path in if c == slash then ([], c ∷ path) else (c ∷ rest.0, rest.1)

-- `skipelem` behind the first slashes.
unfoldable pub first_elem : List ℕ → Option (List ℕ × List ℕ)
first_elem [] = none
first_elem (c ∷ path) = let r = take_elem (c ∷ path) in some (take dirsiz r.0, skip_slashes r.1)

-- The element, as it stands in `name` before a NUL or the end, and the rest of the path; none for 0.
unfoldable pub skipelem : List ℕ → Option (List ℕ × List ℕ)
skipelem path = first_elem (skip_slashes path)
