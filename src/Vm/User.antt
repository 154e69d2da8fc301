-- ===== src/Vm/User.antt =====
-- vm.c: `copyout`, `copyin` and `copyinstr`, between user memory and kernel memory `ker`, a function of
-- the address. The Bool is false for -1.
use xv6_extended.Base.{
  ℕ, zero, suc, ◌+◌, ◌-◌, ◌%◌, Bool, true, false, ◌&&◌, Option, some, none, List, ltb, leb, ◌==◌,
  if◌then◌else◌, Outcome, done, panic, ◌>>=◌, has_bit,
}
use xv6_extended.Base.Family.{update}
use xv6_extended.Memory.{pgsize, maxva, pg_round_down}
use xv6_extended.Proc.{Vma}
use xv6_extended.Vm.{Mem, pte_w, found, walk, walkaddr}
use xv6_extended.Vm.Fault.{Files, vmfault}

-- `n = PGSIZE - (srcva - va0); if(n > len) n = len;`
abbrev pub chunk : ℕ → ℕ → ℕ
chunk srcva len = let n = pgsize - srcva % pgsize in if ltb len n then len else n

-- `memmove` of `n` bytes out of a page.
abbrev pub load_bytes : ℕ → ℕ → (ℕ → ℕ) → ℕ → (ℕ → ℕ) → ℕ → ℕ
load_bytes dst n page off ker a =
    if leb dst a && ltb a (dst + n) then page (off + (a - dst)) else ker a

-- `memmove` of `n` bytes into the page `pa`.
abbrev pub store_bytes : ℕ → ℕ → ℕ → (ℕ → ℕ) → ℕ → Mem → Mem
store_bytes pa off n ker src s = record s {
  byte = update s.byte pa (load_bytes off n ker src (s.byte pa));
}

-- The loop of `copyinstr` over the bytes of a page: the Bool says that it has met the NUL.
unfoldable pub string_bytes : ℕ → (ℕ → ℕ) → ℕ → ℕ → (ℕ → ℕ) → Bool × (ℕ → ℕ)
string_bytes zero page off dst ker = (false, ker)
string_bytes (suc n) page off dst ker =
    let rest = string_bytes n page (off + 1) (dst + 1) (update ker dst (page off)) in
    if page off == 0 then (true, update ker dst 0) else rest

-- `end` is the first address after the kernel, which the linker sets; `sz` and `vmas` are those of the
-- process, and `pt` is its page table.
module _ (end : ℕ) (files : Files) (sz : ℕ) (vmas : List Vma) (pt : ℕ) where
  -- The page of an address, by `walkaddr` or else `vmfault`; 0 if there is none.
  unfoldable pub user_page : ℕ → Bool → Mem → Outcome (ℕ × Mem)
  user_page va0 read s =
      let pa0 = walkaddr pt va0 s in
      if pa0 == 0 then vmfault end files sz vmas pt va0 read s else done (pa0, s)

  abbrev pub can_write : Option ℕ → Bool
  can_write none = false
  can_write (some pte) = has_bit pte pte_w

  -- The fault of `copyout` at a page that is not writable; 0 if it stays so.
  unfoldable pub refault : ℕ → Mem → Outcome (ℕ × Mem)
  refault va0 s = vmfault end files sz vmas pt va0 false s >>= λ m.
      if m.0 == 0
      then done m
      else (walk pt va0 false m.1 >>= λ w. done (if can_write (found w.0 m.1) then m else (0, m.1)))

  -- The part of a round of `copyout` behind `walkaddr`; a null entry would be read, which is a fault.
  unfoldable pub writable_page : ℕ → ℕ × Mem → Outcome (ℕ × Mem)
  writable_page va0 (pa0, s) = walk pt va0 false s >>= λ w. elim (found w.0 s) [
    | none ↦ panic
    | some pte ↦ if has_bit pte pte_w then done (pa0, s) else refault va0 s
  ]

  -- At most that many rounds; each round copies at least one byte.
  unfoldable pub out_loop : ℕ → ℕ → (ℕ → ℕ) → ℕ → ℕ → Mem → Outcome (Bool × Mem)
  out_loop zero dstva ker src len s = done (true, s)
  out_loop (suc fuel) dstva ker src len s =
      let va0 = pg_round_down dstva in
      let n = chunk dstva len in
      let round =
        user_page va0 false s >>= (λ p. if p.0 == 0 then done p else writable_page va0 p) >>= λ p.
        if p.0 == 0
        then done (false, p.1)
        else out_loop fuel (va0 + pgsize) ker (src + n) (len - n)
            (store_bytes p.0 (dstva % pgsize) n ker src p.1) in
      if len == 0 then done (true, s) else if leb maxva va0 then done (false, s) else round

  unfoldable pub copyout : ℕ → (ℕ → ℕ) → ℕ → ℕ → Mem → Outcome (Bool × Mem)
  copyout dstva ker src len s = out_loop len dstva ker src len s

  -- At most that many rounds.
  unfoldable pub in_loop : ℕ → ℕ → ℕ → ℕ → (ℕ → ℕ) → Mem → Outcome (Bool × (ℕ → ℕ) × Mem)
  in_loop zero dst srcva len ker s = done (true, ker, s)
  in_loop (suc fuel) dst srcva len ker s =
      let va0 = pg_round_down srcva in
      let n = chunk srcva len in
      let round = user_page va0 true s >>= λ p.
      if p.0 == 0
      then done (false, ker, p.1)
      else in_loop fuel (dst + n) (va0 + pgsize) (len - n)
          (load_bytes dst n (p.1.byte p.0) (srcva % pgsize) ker) p.1 in
      if len == 0 then done (true, ker, s) else round

  unfoldable pub copyin : ℕ → ℕ → ℕ → (ℕ → ℕ) → Mem → Outcome (Bool × (ℕ → ℕ) × Mem)
  copyin dst srcva len ker s = in_loop len dst srcva len ker s

  -- At most that many rounds; the Bool is that of `got_null`.
  unfoldable pub string_loop : ℕ → ℕ → ℕ → ℕ → (ℕ → ℕ) → Mem → Outcome (Bool × (ℕ → ℕ) × Mem)
  string_loop zero dst srcva max ker s = done (false, ker, s)
  string_loop (suc fuel) dst srcva max ker s =
      let va0 = pg_round_down srcva in
      let n = chunk srcva max in
      let round = user_page va0 true s >>= λ p.
      let got = string_bytes n (p.1.byte p.0) (srcva % pgsize) dst ker in
      if p.0 == 0
      then done (false, ker, p.1)
      else if got.0
      then done (true, got.1, p.1)
      else string_loop fuel (dst + n) (va0 + pgsize) (max - n) got.1 p.1 in
      if max == 0 then done (false, ker, s) else round

  unfoldable pub copyinstr : ℕ → ℕ → ℕ → (ℕ → ℕ) → Mem → Outcome (Bool × (ℕ → ℕ) × Mem)
  copyinstr dst srcva max ker s = string_loop max dst srcva max ker s
