-- ===== src/Bitmap/Tests.antt =====
-- The bitmap at a concrete state.
use xv6_extended.Base.{
  done, panic, ◌⊎◌, ℕ, ◌+◌, ◌-◌, ◌^◌, ◌<◌, ◌≡◌, ap, true, false, ◌==◌, if◌then◌else◌, arith,
}
use xv6_extended.Log.{Block, System}
use xv6_extended.Bitmap.{Superblock, bblock, balloc, bfree}
use xv6_extended.Bitmap.Freed.{Freed, bfree-Freed}
use xv6_extended.Bitmap.Taken.{Room, Allocation, used, balloc-Allocation}

-- A disk of 100 blocks, of which the first 60 are in use; the bitmap is block 50.
abbrev sb : Superblock
sb = record { size = 100; bmapstart = 50 }

abbrev bits : Block
bits i = if i == 0 then 2 ^ 32 - 1 else if i == 1 then 2 ^ 28 - 1 else 0

abbrev state : System
state = record {
  log = record { start = 2; outstanding = 1; committing = false; n = 3; block = λ i. 60 + i };
  disk = λ _. bits;
  cache = λ _. bits;
  pins = λ _. 0;
  power = 9;
}

bitmap_used : (c : ℕ) → c < 100 → used sb state (bblock c sb) ≡ true
bitmap_used c h = let e : bblock c sb ≡ 50 = omega (arith, h) in ap (λ d. used sb state d) e

state-Room : Room state
state-Room = record { slots = omega arith; some_op = omega arith; small = omega arith }

balloc-Allocation_example : Allocation sb state (balloc sb state)
balloc-Allocation_example = balloc-Allocation sb state state-Room bitmap_used

bfree-Freed_example :
    ((used sb state 55 ≡ false) × (bfree sb 55 state ≡ panic))
    ⊎ ((used sb state 55 ≡ true)
        × (s' : System) × (bfree sb 55 state ≡ done s')
        × Freed sb state 55 s')
bfree-Freed_example = bfree-Freed sb 55 state state-Room
