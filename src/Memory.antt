-- ===== src/Memory.antt =====
-- Addresses and pages: xv6-riscv/kernel/memlayout.h, param.h and the page macros of riscv.h.
use xv6_extended.Base.{ℕ, ◌+◌, ◌-◌, ◌*◌, ◌/◌, ◌%◌, ◌^◌}

abbrev pub pgsize : ℕ
pgsize = 4096

abbrev pub kernbase : ℕ
kernbase = 0x80000000

abbrev pub phystop : ℕ
phystop = kernbase + 128 * 1024 * 1024

-- `1L << (9 + 9 + 9 + 12 - 1)`
abbrev pub maxva : ℕ
maxva = 2 ^ 38

abbrev pub trampoline : ℕ
trampoline = maxva - pgsize

-- `TRAPFRAME(p)`: one page for each slot of the process table, below the trampoline.
abbrev pub trapframe : ℕ → ℕ
trapframe p = trampoline - (p + 1) * pgsize

abbrev pub nproc : ℕ
nproc = 64

-- `PGROUNDUP`, with the wrap of the uint64 addition. `& ~(PGSIZE-1)` is `/ 4096 * 4096`.
abbrev pub pg_round_up : ℕ → ℕ
pg_round_up sz = (sz + pgsize - 1) % 2 ^ 64 / pgsize * pgsize

abbrev pub pg_round_down : ℕ → ℕ
pg_round_down a = a / pgsize * pgsize
