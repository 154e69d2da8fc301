-- ===== src/Vm/Space.antt =====
-- vm.c and proc.c: whole address spaces. `kvmmake` maps the kernel, `proc_mapstacks` its stacks, and
-- `freewalk` and `uvmfree` free a page table.
use xv6_extended.Base.{
  ℕ, zero, suc, ◌+◌, ◌-◌, ◌*◌, ◌/◌, Bool, true, not, ◌&&◌, ◌||◌, ltb, ◌==◌, if◌then◌else◌, Outcome,
  done, panic, ◌>>=◌, has_bit,
}
use xv6_extended.Memory.{pgsize, kernbase, phystop, trampoline, nproc, pg_round_up}
use xv6_extended.Vm.{
  Mem, pte_r, pte_w, pte_x, pte2pa, is_valid, set_word, zero_page, page_alloc, page_free, kvmmap,
  uvmunmap,
}

-- Device registers.
abbrev pub uart0 : ℕ
uart0 = 0x10000000

abbrev pub virtio0 : ℕ
virtio0 = 0x10001000

abbrev pub plic : ℕ
plic = 0x0c000000

-- `KSTACK(p)`: two pages for each process, of which the lower one is never mapped.
abbrev pub kstack : ℕ → ℕ
kstack p = trampoline - (p + 1) * 2 * pgsize

-- The loop of `proc_mapstacks` with that many rounds to go, from the process `p` on.
unfoldable pub map_stacks : ℕ → ℕ → ℕ → Mem → Outcome Mem
map_stacks zero p kpgtbl s = done s
map_stacks (suc n) p kpgtbl s =
    let m = page_alloc s in
    let mapped =
      kvmmap kpgtbl (kstack p) m.0 pgsize (pte_r + pte_w) m.1 >>= map_stacks n (p + 1) kpgtbl in
    if m.0 == 0 then panic else mapped

unfoldable pub proc_mapstacks : ℕ → Mem → Outcome Mem
proc_mapstacks kpgtbl s = map_stacks nproc 0 kpgtbl s

-- `etext` is the end of the kernel code and `trampoline_code` the page of trampoline.S, which the linker
-- sets. A null page, which the code does not test for, would fault.
unfoldable pub kvmmake : ℕ → ℕ → Mem → Outcome (ℕ × Mem)
kvmmake etext trampoline_code s =
    let m = page_alloc s in
    let t = m.0 in
    if t == 0
    then panic
    else (kvmmap t uart0 uart0 pgsize (pte_r + pte_w) (zero_page t m.1)
        >>= kvmmap t virtio0 virtio0 pgsize (pte_r + pte_w)
        >>= kvmmap t plic plic 0x4000000 (pte_r + pte_w)
        >>= kvmmap t kernbase kernbase (etext - kernbase) (pte_r + pte_x)
        >>= kvmmap t etext etext (phystop - etext) (pte_r + pte_w)
        >>= kvmmap t trampoline trampoline_code pgsize (pte_r + pte_x)
        >>= proc_mapstacks t
        >>= λ s'. done (t, s'))

-- `(pte & (PTE_R|PTE_W|PTE_X)) == 0`
abbrev pub is_table : ℕ → Bool
is_table pte = not (has_bit pte pte_r || has_bit pte pte_w || has_bit pte pte_x)

-- The loop of `freewalk` over the entries from `i` on, with that many to go; `sub` is the call for a table
-- that an entry leads to.
unfoldable pub free_entries : (ℕ → Mem → Outcome Mem) → ℕ → ℕ → ℕ → Mem → Outcome Mem
free_entries sub zero i pt s = done s
free_entries sub (suc n) i pt s =
    let pte = s.word pt i in
    (if is_valid pte && is_table pte
      then (sub (pte2pa pte) s >>= λ s'. done (set_word pt i 0 s'))
      else if is_valid pte
      then panic
      else done s)
    >>= free_entries sub n (i + 1) pt

-- `end` is the first address after the kernel, which the linker sets.
module _ (end : ℕ) where
  -- At most that many levels; the hardware has three. An entry of a last table that is not for a page of
  -- memory, which the code would follow once more, is taken to panic.
  unfoldable pub free_levels : ℕ → ℕ → Mem → Outcome Mem
  free_levels zero pt s = panic
  free_levels (suc level) pt s = free_entries (free_levels level) 512 0 pt s >>= page_free end pt

  unfoldable pub freewalk : ℕ → Mem → Outcome Mem
  freewalk pt s = free_levels 3 pt s

  unfoldable pub uvmfree : ℕ → ℕ → Mem → Outcome Mem
  uvmfree pt sz s =
      (if ltb 0 sz then uvmunmap end pt 0 (pg_round_up sz / pgsize) true s else done s)
      >>= freewalk pt
