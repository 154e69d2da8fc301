-- ===== src/Cache/Tests.antt =====
-- The buffer cache at concrete states.
use xv6_extended.Base.{
  ℕ, ◌+◌, ◌^◌, ◌<◌, ◌≡◌, ◌⊎◌, refl, sym, subst, inl, inr, true, false, Bool-cases, ◌==◌, arith,
  done, panic,
}
use xv6_extended.Base.Family.{update_ne}
use xv6_extended.Sleeplock.{initsleeplock, holdingsleep}
use xv6_extended.Cache.{nbuf, Buf, Bcache, set_buf, binit, bget, brelse}
use xv6_extended.Cache.Valid.{IsValid}
use xv6_extended.Cache.Get.{Got, bget-Got, set_buf-IsValid}
use xv6_extended.Cache.Release.{Released, unlocked, brelse-Released}
use xv6_extended.Cache.Init.{Blank, below, binit-IsValid}

abbrev blank_buf : Buf
blank_buf = record {
  valid = false;
  dev = 0;
  blockno = 0;
  lock = initsleeplock;
  refcnt = 0;
  contents = λ _. 0;
}

abbrev blank : Bcache
blank = record { buf = λ _. blank_buf; next = λ _. 0; prev = λ _. 0 }

blank-Blank : Blank blank
blank-Blank = record { no_dev = λ b. refl; no_refs = λ b. refl }

-- Buffer 3 holds block 5 of device 1, read and locked by process 7.
abbrev busy_buf : Buf
busy_buf = record {
  valid = true;
  dev = 1;
  blockno = 5;
  lock = record { locked = true; pid = 7 };
  refcnt = 1;
  contents = λ i. i;
}

-- The buffers in the order in which `binit` puts them, with that one in use.
abbrev start : Bcache
start = record { buf = λ _. blank_buf; next = (binit blank).next; prev = (binit blank).prev }

start-IsValid : IsValid start (below nbuf)
start-IsValid =
    let v = binit-IsValid blank blank-Blank in
    record {
      linked = v.linked;
      once = v.once;
      all = v.all;
      count = v.count;
      unique = λ a b ha hb ne d n. refl;
      range = λ b. omega arith;
    }

abbrev busy : Bcache
busy = set_buf 3 busy_buf start

busy-IsValid : IsValid busy (below nbuf)
busy-IsValid =
    set_buf-IsValid start-IsValid 3 busy_buf (omega arith)
      (λ a ha ne d n. absurd (omega (arith, d)))

small_counts : (b : ℕ) → b < nbuf → (busy.buf b).refcnt + 1 < 2 ^ 32
small_counts b h = elim (Bool-cases (3 == b)) [
  | inl same ↦
      let e : 3 ≡ b = ground (arith, same) in
      subst (λ x. (busy.buf x).refcnt + 1 < 2 ^ 32) e (omega arith)
  | inr other ↦
      subst (λ (w : Buf). w.refcnt + 1 < 2 ^ 32)
        (sym (update_ne start.buf 3 b busy_buf (ground (arith, other)))) (omega arith)
]

bget-Got_example : Got 1 5 busy (below nbuf) (bget 31 1 5 busy)
bget-Got_example =
    bget-Got busy-IsValid 31 1 5 (omega arith) (λ z. absurd (omega (arith, z))) small_counts

brelse-Released_example :
    ((holdingsleep 7 busy_buf.lock ≡ false) × (brelse 7 3 busy ≡ panic))
    ⊎ ((holdingsleep 7 busy_buf.lock ≡ true)
        × (s' : Bcache) × (brelse 7 3 busy ≡ done s')
        × Released (unlocked 3 busy) 3 (below nbuf) s')
brelse-Released_example =
    brelse-Released busy (below nbuf) 7 3 busy-IsValid (omega arith) (omega arith)
