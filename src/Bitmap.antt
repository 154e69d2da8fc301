-- ===== src/Bitmap.antt =====
-- xv6-riscv/kernel/fs.c: the allocator of disk blocks, on the bitmap of free blocks, through the log.
pub mod Bits
pub mod Taken
pub mod Freed
mod Tests
use xv6_extended.Base.{
  ℕ, zero, suc, ◌+◌, ◌-◌, ◌*◌, ◌/◌, ◌%◌, ◌^◌, Bool, true, false, not, Option, some, none, ltb, ◌==◌,
  if◌then◌else◌, has_bit, min, Outcome, done, panic, ◌>>=◌,
}
use xv6_extended.Base.Family.{update}
use xv6_extended.Log.{Block, System, fill_buf, log_write}

-- The fields of `struct superblock` that these functions use.
pub record Superblock : Type 0 where
  pub size : ℕ
  pub bmapstart : ℕ

-- Bits in a block of the bitmap.
abbrev pub bpb : ℕ
bpb = 8192

abbrev pub bblock : ℕ → Superblock → ℕ
bblock b sb = b / bpb + sb.bmapstart

-- Bit `bi` of a block, which is that of byte `bi / 8`: the words are little-endian.
abbrev pub in_use : Block → ℕ → Bool
in_use v bi = has_bit (v (bi / 32)) (2 ^ (bi % 32))

-- `data[bi/8] |= m` for a bit that is clear, and `data[bi/8] &= ~m` for one that is set.
abbrev pub mark : Block → ℕ → Block
mark v bi = update v (bi / 32) (v (bi / 32) + 2 ^ (bi % 32))

abbrev pub unmark : Block → ℕ → Block
unmark v bi = update v (bi / 32) (v (bi / 32) - 2 ^ (bi % 32))

unfoldable pub bzero : ℕ → System → Outcome System
bzero bno s = log_write bno (fill_buf bno (λ _. 0) s)

-- The inner loop of `balloc` from bit `bi` on, with that many rounds to go.
unfoldable pub free_bit : ℕ → ℕ → Block → Option ℕ
free_bit zero bi v = none
free_bit (suc n) bi v = let rest = free_bit n (bi + 1) v in if in_use v bi then rest else some bi

-- What `balloc` does with a free bit of the block of the bitmap for `b`.
unfoldable pub take_bit : Superblock → ℕ → ℕ → System → Outcome (ℕ × System)
take_bit sb b bi s =
    log_write (bblock b sb) (fill_buf (bblock b sb) (mark (s.cache (bblock b sb)) bi) s)
    >>= bzero (b + bi)
    >>= λ s'. done (b + bi, s')

-- A round of the outer loop from what the inner one gives; `rest` is the loop behind it.
unfoldable pub balloc_at :
    Superblock → ℕ → System → Outcome (ℕ × System) → Option ℕ → Outcome (ℕ × System)
balloc_at sb b s rest none = rest
balloc_at sb b s rest (some bi) = take_bit sb b bi s

-- The outer loop from `b` on, with that many rounds to go; 0 if there is no free block.
unfoldable pub balloc_from : Superblock → ℕ → ℕ → System → Outcome (ℕ × System)
balloc_from sb zero b s = done (0, s)
balloc_from sb (suc n) b s =
    balloc_at sb b s (balloc_from sb n (b + bpb) s)
      (free_bit (min bpb (sb.size - b)) 0 (s.cache (bblock b sb)))

unfoldable pub balloc : Superblock → System → Outcome (ℕ × System)
balloc sb s = balloc_from sb ((sb.size + bpb - 1) / bpb) 0 s

unfoldable pub bfree : Superblock → ℕ → System → Outcome System
bfree sb b s =
    let v = s.cache (bblock b sb) in
    if not (in_use v (b % bpb))
    then panic
    else log_write (bblock b sb) (fill_buf (bblock b sb) (unmark v (b % bpb)) s)
