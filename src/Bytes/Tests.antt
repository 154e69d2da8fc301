-- ===== src/Bytes/Tests.antt =====
-- Strings at concrete memories.
use xv6_extended.Base.{ℕ, ◌+◌, ◌-◌, ◌%◌, ◌≡◌, refl, inr, some, arith, if◌then◌else◌, ◌==◌}
use xv6_extended.Bytes.{
  Memory, memset, memcmp, copy_down, memmove, strncmp, zero_fill, strncpy_loop, strncpy, strlen,
}
use xv6_extended.Bytes.Move.{within, memset_lem, memmove_lem}
use xv6_extended.Bytes.Text.{Apart, strncmp-strncpy, Measures, strlen_lem}

-- The string "ab" at 100, and other bytes everywhere else.
abbrev two_letters : Memory
two_letters a = if a == 100 then 97 else if a == 101 then 98 else if a == 102 then 0 else 7

-- An overlapping move up by one.
overlaps : memmove 101 100 2 two_letters 102 ≡ 98
unfolding memmove copy_down
overlaps = refl

pads : strncpy_loop 5 200 100 two_letters 204 ≡ 0
unfolding strncpy_loop zero_fill
pads = refl

orders : memcmp 101 100 2 two_letters ≡ 1
unfolding memcmp
orders = refl

memset_lem_example :
    memset 10 300 3 two_letters 12 ≡ (if within 10 3 12 then 300 % 256 else two_letters 12)
memset_lem_example = memset_lem 10 300 3 12 two_letters

memmove_lem_example :
    memmove 101 100 2 two_letters 102
    ≡ (if within 101 2 102 then two_letters (100 + (102 - 101)) else two_letters 102)
memmove_lem_example = memmove_lem 101 100 2 102 two_letters

strncmp-strncpy_example :
    (strncmp 100 200 14 (strncpy 200 100 14 two_letters) ≡ 0)
    × ((a : ℕ) → Apart 200 14 a → strncpy 200 100 14 two_letters a ≡ two_letters a)
strncmp-strncpy_example = strncmp-strncpy 14 200 100 two_letters (omega arith) (inr (omega arith))

two_letters-Measures : Measures 100 2 two_letters
two_letters-Measures = record { nul = refl; no_nul = λ i lt. ground (arith, lt) }

strlen_lem_example : strlen 3 100 two_letters ≡ some 2
strlen_lem_example = strlen_lem 100 2 two_letters two_letters-Measures
