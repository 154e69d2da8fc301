-- ===== src/Mmap/Regions.antt =====
-- Which regions of a process are in order.
use xv6_extended.Base.{ℕ, ◌+◌, ◌%◌, ◌^◌, ◌≤◌, ◌<◌, ◌≡◌, ◌⊎◌, true, List, [], ◌∷◌, All}
use xv6_extended.Memory.{pgsize, pg_round_up}
use xv6_extended.Proc.{Vma}
use xv6_extended.Mmap.{high}

-- A region that does not wrap, in memory and in its file.
abbrev pub InRange : Vma → Type 0
InRange v = (v.addr + v.len < 2 ^ 64) × (v.off + v.len < 2 ^ 64)

-- The `n` bytes from `a` on and a region do not meet, if the region is in use.
abbrev pub Clear : ℕ → ℕ → Vma → Type 0
Clear a n v = v.used ≡ true → (a + n ≤ v.addr) ⊎ (v.addr + v.len ≤ a)

abbrev pub Disjoint : List Vma → Type 0
Disjoint [] = Unit
Disjoint (v ∷ vs) = (v.used ≡ true → All (Clear v.addr v.len) vs) × Disjoint vs

-- A region in use lies on whole pages, above the heap and below the trap frames.
abbrev pub Placed : ℕ → Vma → Type 0
Placed sz v =
    v.used ≡ true
    → (v.addr % pgsize ≡ 0)
      × (v.len % pgsize ≡ 0)
      × (pg_round_up sz ≤ v.addr)
      × (v.addr + v.len ≤ high)

-- The regions of a process of size `sz`.
pub record IsValid (sz : ℕ) (vs : List Vma) : Type 0 where
  pub placed : All (Placed sz) vs
  pub disjoint : Disjoint vs
