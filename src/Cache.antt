-- ===== src/Cache.antt =====
-- xv6-riscv/kernel/bio.c: the buffer cache. The buffers are numbered from 0 on, and `head` is the number behind
-- the last one; `next` and `prev` are the pointers of the list of buffers in order of use. What runs under
-- `bcache.lock` is one atomic step; `bget` and `brelse` are cut where they take or leave the lock of a buffer.
pub mod Links
pub mod Valid
pub mod Get
pub mod Release
pub mod Init
mod Tests
use xv6_extended.Base.{
  ℕ, zero, suc, ◌+◌, ◌-◌, ◌*◌, ◌%◌, ◌^◌, Bool, true, false, not, ◌&&◌, Option, some, none, ◌==◌,
  if◌then◌else◌, Outcome, done, panic, ◌>>=◌,
}
use xv6_extended.Base.Family.{update}
use xv6_extended.Log.{maxopblocks}
use xv6_extended.Sleeplock.{Sleeplock, initsleeplock, acquiresleep, releasesleep, holdingsleep}

abbrev pub nbuf : ℕ
nbuf = maxopblocks * 3

abbrev pub head : ℕ
head = nbuf

pub record Buf : Type 0 where
  pub valid : Bool
  pub dev : ℕ
  pub blockno : ℕ
  pub lock : Sleeplock
  pub refcnt : ℕ
  pub contents : ℕ → ℕ

pub record Bcache : Type 0 where
  pub buf : ℕ → Buf
  pub next : ℕ → ℕ
  pub prev : ℕ → ℕ

abbrev pub set_buf : ℕ → Buf → Bcache → Bcache
set_buf b v s = record s { buf = update s.buf b v }

abbrev pub set_next : ℕ → ℕ → Bcache → Bcache
set_next b to s = record s { next = update s.next b to }

abbrev pub set_prev : ℕ → ℕ → Bcache → Bcache
set_prev b to s = record s { prev = update s.prev b to }

-- The four assignments that put `b` at the front of the list.
unfoldable pub push_front : ℕ → Bcache → Bcache
push_front b s =
    let s1 = set_prev b head (set_next b (s.next head) s) in
    set_next head b (set_prev (s1.next head) b s1)

-- The two that take `b` out.
unfoldable pub unlink : ℕ → Bcache → Bcache
unlink b s = let s1 = set_prev (s.next b) (s.prev b) s in set_next (s1.prev b) (s1.next b) s1

-- The loop of `binit` over the buffers from `b` on, with that many to go.
unfoldable pub init_from : ℕ → ℕ → Bcache → Bcache
init_from zero b s = s
init_from (suc n) b s =
    init_from n (b + 1) (push_front b (set_buf b (record (s.buf b) { lock = initsleeplock }) s))

unfoldable pub binit : Bcache → Bcache
binit s = init_from nbuf 0 (set_next head head (set_prev head head s))

-- A loop along one kind of pointer from `b` to the head, on fuel: the first buffer that passes the test, or the
-- head. None means that the fuel ran out.
unfoldable pub first : ℕ → (ℕ → ℕ) → (ℕ → Bool) → ℕ → Option ℕ
first zero link test b = none
first (suc fuel) link test b =
    let rest = first fuel link test (link b) in
    if b == head then some head else if test b then some b else rest

abbrev pub holds : ℕ → ℕ → Bcache → ℕ → Bool
holds dev blockno s b = (s.buf b).dev == dev && (s.buf b).blockno == blockno

abbrev pub unused : Bcache → ℕ → Bool
unused s b = (s.buf b).refcnt == 0

-- `b->refcnt++`
abbrev pub add_ref : ℕ → Bcache → Bcache
add_ref b s = set_buf b (record (s.buf b) { refcnt = ((s.buf b).refcnt + 1) % 2 ^ 32 }) s

-- `b->refcnt--`
abbrev pub drop_ref : ℕ → Bcache → Bcache
drop_ref b s = set_buf b (record (s.buf b) { refcnt = ((s.buf b).refcnt + 2 ^ 32 - 1) % 2 ^ 32 }) s

abbrev pub recycle : ℕ → ℕ → ℕ → Bcache → Bcache
recycle dev blockno b s =
    set_buf b (record (s.buf b) { dev = dev; blockno = blockno; valid = false; refcnt = 1 }) s

-- The rest of `bget` from the result of the second loop; none if a loop ran out of fuel.
unfoldable pub take_unused : ℕ → ℕ → Bcache → Option ℕ → Outcome (Option (ℕ × Bcache))
take_unused dev blockno s none = done none
take_unused dev blockno s (some b) =
    if b == head then panic else done (some (b, recycle dev blockno b s))

-- The same from the result of the first; `fresh` is what the second gives.
unfoldable pub take_cached :
    Bcache → Outcome (Option (ℕ × Bcache)) → Option ℕ → Outcome (Option (ℕ × Bcache))
take_cached s fresh none = done none
take_cached s fresh (some b) = if b == head then fresh else done (some (b, add_ref b s))

-- The part of `bget` under `bcache.lock`, with the rounds of each loop as fuel.
unfoldable pub bget : ℕ → ℕ → ℕ → Bcache → Outcome (Option (ℕ × Bcache))
bget fuel dev blockno s =
    take_cached s (take_unused dev blockno s (first fuel s.prev (unused s) (s.prev head)))
      (first fuel s.next (holds dev blockno s) (s.next head))

-- The `acquiresleep` behind it; none while another process holds the buffer.
unfoldable pub bget_lock : ℕ → ℕ → Bcache → Option Bcache
bget_lock pid b s = elim (acquiresleep pid (s.buf b).lock) [
  | none ↦ none
  | some lk ↦ some (set_buf b (record (s.buf b) { lock = lk }) s)
]

-- The rest of `bread`, for a buffer that is locked; `disk` is what virtio_disk_rw reads.
unfoldable pub bread : (ℕ → ℕ → ℕ → ℕ) → ℕ → Bcache → Bcache
bread disk b s =
    if (s.buf b).valid
    then s
    else set_buf b
        (record (s.buf b) { valid = true; contents = disk (s.buf b).dev (s.buf b).blockno }) s

-- `brelse` by the process `pid`, up to the release of the buffer, and the rest.
unfoldable pub brelse_unlock : ℕ → ℕ → Bcache → Outcome Bcache
brelse_unlock pid b s =
    if not (holdingsleep pid (s.buf b).lock)
    then panic
    else done (set_buf b (record (s.buf b) { lock = releasesleep (s.buf b).lock }) s)

unfoldable pub brelse_list : ℕ → Bcache → Bcache
brelse_list b s = let s1 = drop_ref b s in if unused s1 b then push_front b (unlink b s1) else s1

unfoldable pub brelse : ℕ → ℕ → Bcache → Outcome Bcache
brelse pid b s = brelse_unlock pid b s >>= λ s'. done (brelse_list b s')
