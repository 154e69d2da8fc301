-- ===== src/Kalloc/Invariant.antt =====
-- What holds of the allocator between calls: the free list is a chain of distinct pages, and a page
-- is on it exactly when its count is zero.
use xv6_extended.Base.{ℕ, ◌%◌, ◌^◌, ◌≤◌, ◌<◌, ◌≡◌, true, false, List, arith, contains, Distinct}
use xv6_extended.Memory.{pgsize, kernbase, phystop}
use xv6_extended.Kalloc.{Kmem, pa2idx, bad_page}
use xv6_extended.Kalloc.Chain.{Chain}

-- A page that the allocator may hand out.
pub record IsPage (end pa : ℕ) : Type 0 where
  pub above : kernbase ≤ end
  pub aligned : pa % pgsize ≡ 0
  pub low : end ≤ pa
  pub high : pa < phystop

pub IsPage-bad_page : (end pa : ℕ) → IsPage end pa → bad_page end pa ≡ false
IsPage-bad_page end pa h = ground arith

pub pa2idx-injective : (end a b : ℕ) → IsPage end a → IsPage end b → pa2idx a ≡ pa2idx b → a ≡ b
pa2idx-injective end a b ha hb e = omega arith

-- The allocator owns the pages below `top`; after `kinit` these are all.
pub record IsValid (end top : ℕ) (k : Kmem) (l : List ℕ) : Type 0 where
  pub chain : Chain k.next k.freelist l
  pub distinct : Distinct l
  pub page : (pa : ℕ) → contains l pa ≡ true → IsPage end pa × (pa < top)
  pub zeroed : (pa : ℕ) → contains l pa ≡ true → k.refcnt (pa2idx pa) ≡ 0
  pub counted :
      (pa : ℕ) → IsPage end pa → pa < top → contains l pa ≡ false → 0 < k.refcnt (pa2idx pa)
  pub int_range : (i : ℕ) → k.refcnt i < 2 ^ 31
