-- ===== src/Kalloc.antt =====
-- xv6-riscv/kernel/kalloc.c: the physical page allocator with a reference count for each page.
-- Each function is one atomic step, since its body runs under `kmem.lock`.
pub mod Chain
pub mod Invariant
pub mod Operations
pub mod Init
pub mod Sharing
mod Tests
use xv6_extended.Base.{
  ℕ, zero, suc, ◌+◌, ◌-◌, ◌*◌, ◌/◌, ◌%◌, ◌^◌, Bool, not, ◌||◌, Option, some, none, ltb, leb, ◌==◌,
  if◌then◌else◌, Outcome, done, panic, ◌>>=◌,
}
use xv6_extended.Base.Family.{update}
use xv6_extended.Memory.{pgsize, kernbase, phystop, pg_round_up}

-- `kmem`, with what it keeps in free pages: `next` is the first word of a page (`struct run`), and
-- `fill` the byte that `memset` last wrote over the page. The null pointer is 0. A count is the bit
-- pattern of an `int`.
pub record Kmem : Type 0 where
  pub freelist : ℕ
  pub next : ℕ → ℕ
  pub fill : ℕ → ℕ
  pub refcnt : ℕ → ℕ

-- `pa2idx`: the subtraction is one of uint64.
abbrev pub pa2idx : ℕ → ℕ
pa2idx pa = (pa + 2 ^ 64 - kernbase) % 2 ^ 64 / pgsize

-- `n < 1` on an int of 32 bits
abbrev pub below_one : ℕ → Bool
below_one n = (n == 0) || leb (2 ^ 31) n

-- the first word of a page of bytes 5
abbrev pub junk_word : ℕ
junk_word = 0x0505050505050505

-- The loop of `kfreepages`, on fuel; `none` means that the fuel ran out.
pub count_runs : ℕ → (ℕ → ℕ) → ℕ → ℕ → Option ℕ
count_runs zero next r count = none
count_runs (suc fuel) next r count =
    let rest = count_runs fuel next (next r) (count + 1) in if r == 0 then some count else rest

pub kfreepages : ℕ → Kmem → Option ℕ
kfreepages fuel k = count_runs fuel k.next k.freelist 0

pub kalloc : Kmem → ℕ × Kmem
kalloc k = if k.freelist == 0 then (0, k) else (
  k.freelist,
  record k {
    freelist = k.next k.freelist;
    refcnt = update k.refcnt (pa2idx k.freelist) 1;
    fill = update k.fill k.freelist 5;
    next = update k.next k.freelist junk_word;
  },
)

-- `end` is the first address after the kernel, which the linker sets.
module _ (end : ℕ) where
  abbrev pub bad_page : ℕ → Bool
  bad_page pa = not (pa % pgsize == 0) || (ltb pa end || leb phystop pa)

  -- The part of `kfree` that runs when the count has reached zero.
  abbrev pub push_free : ℕ → Kmem → Kmem
  push_free pa k = record k {
    fill = update k.fill pa 1;
    next = update k.next pa k.freelist;
    freelist = pa;
  }

  pub kfree : ℕ → Kmem → Outcome Kmem
  kfree pa k =
      if bad_page pa
      then panic
      else (let n = k.refcnt (pa2idx pa) in
          if below_one n
          then panic
          else (let k' = record k { refcnt = update k.refcnt (pa2idx pa) (n - 1) } in
              if ltb 0 (n - 1) then done k' else done (push_free pa k')))

  pub krefinc : ℕ → Kmem → Outcome Kmem
  krefinc pa k =
      if bad_page pa
      then panic
      else (let n = k.refcnt (pa2idx pa) in
          if below_one n
          then panic
          else done (record k { refcnt = update k.refcnt (pa2idx pa) ((n + 1) % 2 ^ 32) }))

  pub krefcnt : ℕ → Kmem → Outcome ℕ
  krefcnt pa k = if bad_page pa then panic else done (k.refcnt (pa2idx pa))

  -- The body of the loop of `freerange`.
  abbrev pub free_one : ℕ → Kmem → Outcome Kmem
  free_one p k = kfree p (record k { refcnt = update k.refcnt (pa2idx p) 1 })

  -- The loop, on fuel; `none` inside `done` means that the fuel ran out.
  pub free_pages : ℕ → ℕ → ℕ → Kmem → Outcome (Option Kmem)
  free_pages zero p pa_end k = done none
  free_pages (suc fuel) p pa_end k =
      let rest = (free_one p k >>= λ k'. free_pages fuel (p + pgsize) pa_end k') in
      if leb (p + pgsize) pa_end then rest else done (some k)

  pub freerange : ℕ → ℕ → ℕ → Kmem → Outcome (Option Kmem)
  freerange fuel pa_start pa_end k = free_pages fuel (pg_round_up pa_start) pa_end k

  pub kinit : ℕ → Kmem → Outcome (Option Kmem)
  kinit fuel k = freerange fuel end phystop (record k { refcnt = λ _. 0 })
