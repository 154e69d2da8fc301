-- ===== src/Kalloc/Chain.antt =====
-- The free list as a chain of pointers through the pages, and `kfreepages`, which walks it.
use xv6_extended.Base.{
  ℕ, zero, suc, ◌+◌, ◌<◌, ◌≡◌, ◌≢◌, false, List, [], ◌∷◌, some, arith, length, contains,
}
use xv6_extended.Base.Family.{update}
use xv6_extended.Kalloc.{Kmem, count_runs, kfreepages}

abbrev pub Chain : (ℕ → ℕ) → ℕ → List ℕ → Type 0
Chain next p [] = p ≡ 0
Chain next p (x ∷ xs) = (p ≡ x) × (x ≢ 0) × Chain next (next x) xs

-- A write to the first word of a page off the chain leaves the chain as it is.
pub Chain-update :
    (next : ℕ → ℕ) (p q v : ℕ) (l : List ℕ)
    → contains l q ≡ false
    → Chain next p l
    → Chain (update next q v) p l
Chain-update next p q v [] h c = c
Chain-update next p q v (x ∷ xs) h c = (c.0, c.1, ground (arith, Chain-update next (next x) q v xs))

count_runs-Chain :
    (fuel : ℕ) (next : ℕ → ℕ) (p n : ℕ) (l : List ℕ)
    → Chain next p l
    → length l < fuel
    → count_runs fuel next p n ≡ some (n + length l)
unfolding count_runs
count_runs-Chain zero next p n l c h = elim h [ ]
count_runs-Chain (suc fuel) next p n [] c h = ground arith
count_runs-Chain (suc fuel) next p n (x ∷ xs) c h =
    ground (arith, count_runs-Chain fuel next (next x) (n + 1) xs c.2)

-- On a chain, with more fuel than pages, the walk ends with the number of pages.
pub kfreepages-Chain :
    (fuel : ℕ) (k : Kmem) (l : List ℕ)
    → Chain k.next k.freelist l
    → length l < fuel
    → kfreepages fuel k ≡ some (length l)
unfolding kfreepages
kfreepages-Chain fuel k l c h = ground (arith, count_runs-Chain fuel k.next k.freelist 0 l c h)
