-- ===== src/Cache/Valid.antt =====
-- What holds of the buffer cache between its steps.
use xv6_extended.Base.{ℕ, ◌^◌, ◌<◌, ◌≡◌, ◌≢◌, List, Distinct, contains, length, ltb}
use xv6_extended.Cache.{nbuf, head, Bcache}
use xv6_extended.Cache.Links.{Linked}

-- The ring has the buffers in the order of `l`, the last one used first, and each once; no two buffers hold one
-- block of a device other than 0, which is that of buffers that have not been used.
pub record IsValid (s : Bcache) (l : List ℕ) : Type 0 where
  pub linked : Linked s.next s.prev head l head
  pub once : Distinct l
  pub all : (b : ℕ) → contains l b ≡ ltb b nbuf
  pub count : length l ≡ nbuf
  pub unique :
      (a b : ℕ)
      → a < nbuf
      → b < nbuf
      → a ≢ b
      → (s.buf a).dev ≡ (s.buf b).dev
      → (s.buf a).blockno ≡ (s.buf b).blockno
      → (s.buf a).dev ≡ 0
  pub range : (b : ℕ) → (s.buf b).refcnt < 2 ^ 32
