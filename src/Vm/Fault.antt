-- ===== src/Vm/Fault.antt =====
-- vm.c: `vmfault`, which copies a shared page, allocates a page of the heap, or fills a page of an mmap
-- region. The file system enters as the size of a file and as `readi` of bytes into memory.
use xv6_extended.Base.{
  ℕ, ◌+◌, ◌-◌, ◌%◌, ◌^◌, Bool, true, false, not, ◌&&◌, ◌||◌, Option, some, none, List, [], ◌∷◌, ltb,
  leb, ◌==◌, if◌then◌else◌, Outcome, done, ◌>>=◌, has_bit,
}
use xv6_extended.Base.Family.{update}
use xv6_extended.Memory.{pgsize, pg_round_down}
use xv6_extended.Proc.{Vma}
use xv6_extended.Mmap.{vend}
use xv6_extended.Kalloc.{krefcnt}
use xv6_extended.Vm.{
  Mem, pte_r, pte_w, pte_x, pte_u, pte_cow, pa2pte, pte2pa, pte_flags, set_bit, clear_bit, is_valid,
  set_word, zero_page, page_alloc, page_free, walk, mappages,
}

-- `(x | PTE_W) & ~PTE_COW`
abbrev pub make_private : ℕ → ℕ
make_private x = clear_bit (set_bit x pte_w) pte_cow

-- `memmove(mem, pa, PGSIZE)`
abbrev pub copy_page : ℕ → ℕ → Mem → Mem
copy_page mem pa s = record s {
  word = update s.word mem (s.word pa);
  byte = update s.byte mem (s.byte pa);
}

-- What a file holds: its size, and what `readi` copies from an offset, with the number of bytes.
pub record Files : Type 0 where
  pub size : ℕ → ℕ
  pub readi : ℕ → ℕ → ℕ → ℕ × (ℕ → ℕ)

-- The first region in use that holds the address.
unfoldable pub find_vma : ℕ → List Vma → Option Vma
find_vma va [] = none
find_vma va (v ∷ vs) =
    if not v.used || (ltb va v.addr || leb (vend v) va) then find_vma va vs else some v

abbrev pub not_allowed : Bool → Vma → Bool
not_allowed read v =
    if read then not (has_bit v.prot 1) && not (has_bit v.prot 4) else not (has_bit v.prot 2)

abbrev pub vma_perm : Vma → ℕ
vma_perm v =
    let p1 = if has_bit v.prot 1 then set_bit pte_u pte_r else pte_u in
    let p2 = if has_bit v.prot 2 then set_bit p1 pte_w else p1 in
    if has_bit v.prot 4 then set_bit p2 pte_x else p2

-- `n` bytes at the start of a page.
abbrev pub put_bytes : ℕ → ℕ → (ℕ → ℕ) → Mem → Mem
put_bytes pa n src s = record s {
  byte = update s.byte pa (λ i. if ltb i n then src i else s.byte pa i);
}

-- The part of the file that belongs to the page: false if it cannot be read whole.
unfoldable pub fill_from_file : Files → ℕ → Vma → ℕ → Mem → Bool × Mem
fill_from_file files va v mem s = elim v.f [
  | none ↦ (true, s)
  | some f ↦
      let off = (v.off + (va - v.addr)) % 2 ^ 64 in
      let n = if ltb (files.size f) (off + pgsize) then files.size f - off else pgsize in
      let got = files.readi f off n in
      if ltb off (files.size f) then (got.0 == n, put_bytes mem got.0 got.1 s) else (true, s)
]

-- `end` is the first address after the kernel, which the linker sets.
module _ (end : ℕ) where
  -- The mapping of a page that has been allocated, or its release.
  abbrev pub map_or_free : ℕ → ℕ → ℕ → ℕ → Mem → Outcome (ℕ × Mem)
  map_or_free pt va mem perm s = mappages pt va pgsize mem perm s >>= λ r.
      if r.0 then done (mem, r.1) else (page_free end mem r.1 >>= λ s'. done (0, s'))

  -- A write to a shared page, whose entry is `i` in the table `t`.
  unfoldable pub cow_fault : ℕ → ℕ → Mem → Outcome (ℕ × Mem)
  cow_fault t i s =
      let pte = s.word t i in
      let pa = pte2pa pte in
      let m = page_alloc s in
      let copied =
        set_word t i (pa2pte m.0 + make_private (pte_flags pte)) (copy_page m.0 pa m.1) in
      krefcnt end pa s.kmem >>= λ n.
      if n == 1
      then done (pa, set_word t i (make_private pte) s)
      else if m.0 == 0
      then done m
      else (page_free end pa copied >>= λ s'. done (m.0, s'))

  -- A page of the heap that has not been allocated yet.
  unfoldable pub heap_fault : ℕ → ℕ → Mem → Outcome (ℕ × Mem)
  heap_fault pt va s =
      let m = page_alloc s in
      if m.0 == 0
      then done m
      else map_or_free pt va m.0 (set_bit (set_bit pte_w pte_u) pte_r) (zero_page m.0 m.1)

  -- A page of the region `v`.
  unfoldable pub vma_fault : Files → ℕ → ℕ → Bool → Vma → Mem → Outcome (ℕ × Mem)
  vma_fault files pt va read v s =
      let m = page_alloc s in
      let filled = fill_from_file files va v m.0 (zero_page m.0 m.1) in
      if not_allowed read v
      then done (0, s)
      else if m.0 == 0
      then done m
      else if filled.0
      then map_or_free pt va m.0 (vma_perm v) filled.1
      else (page_free end m.0 filled.1 >>= λ s'. done (0, s'))

  -- The part behind the test for an entry that is there: `sz` and `vmas` are those of the process.
  unfoldable pub absent_fault : Files → ℕ → List Vma → ℕ → ℕ → Bool → Mem → Outcome (ℕ × Mem)
  absent_fault files sz vmas pt va read s =
      if ltb va sz
      then heap_fault pt va s
      else elim (find_vma va vmas) [ none ↦ done (0, s) | some v ↦ vma_fault files pt va read v s ]

  -- What `vmfault` does at the entry that `walk` finds.
  unfoldable pub fault_at :
      Files → ℕ → List Vma → ℕ → ℕ → Bool → Option (ℕ × ℕ) → Mem → Outcome (ℕ × Mem)
  fault_at files sz vmas pt va read none s = absent_fault files sz vmas pt va read s
  fault_at files sz vmas pt va read (some (t, i)) s =
      if not (is_valid (s.word t i))
      then absent_fault files sz vmas pt va read s
      else if not read && has_bit (s.word t i) pte_cow
      then cow_fault t i s
      else done (0, s)

  -- The physical address, or 0.
  unfoldable pub vmfault : Files → ℕ → List Vma → ℕ → ℕ → Bool → Mem → Outcome (ℕ × Mem)
  vmfault files sz vmas pt addr read s =
      let va = pg_round_down addr in
      walk pt va false s >>= λ w. fault_at files sz vmas pt va read w.0 s
