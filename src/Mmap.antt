-- ===== src/Mmap.antt =====
-- The regions of a process that mmap made: xv6-riscv/kernel/sysfile.c (vma_alloc_slot, vma_find_addr,
-- sys_mmap, sys_munmap) and proc.c (proc_munmap), on `vmas` of `struct proc`.
pub mod Regions
pub mod Place
pub mod Backing
pub mod Trim
pub mod Unmap
pub mod Mapped
mod Tests
use xv6_extended.Base.{
  ℕ, zero, suc, ◌+◌, ◌-◌, ◌/◌, ◌%◌, ◌^◌, Bool, true, false, not, ◌&&◌, ◌||◌, Option, some, none,
  List, [], ◌∷◌, ◌++◌, ◌==◌, ltb, leb, if◌then◌else◌, has_bit, length, set,
}
use xv6_extended.Memory.{pgsize, trapframe, nproc, pg_round_up}
use xv6_extended.Proc.{Vma, Proc}

-- `v->addr + v->len` of a uint64
abbrev pub vend : Vma → ℕ
vend v = (v.addr + v.len) % 2 ^ 64

-- The loop of `vma_alloc_slot` from slot `i` on; `none` for -1.
unfoldable pub alloc_slot_from : List Vma → ℕ → Option ℕ
alloc_slot_from [] i = none
alloc_slot_from (v ∷ vs) i =
    let rest = alloc_slot_from vs (suc i) in if not v.used then some i else rest

unfoldable pub vma_alloc_slot : List Vma → Option ℕ
vma_alloc_slot vs = alloc_slot_from vs 0

-- `ord`, before it is sorted.
unfoldable pub used_vmas : List Vma → List Vma
used_vmas [] = []
used_vmas (v ∷ vs) = if v.used then v ∷ used_vmas vs else used_vmas vs

-- The inner loop at some `i`: `ord[i]` is `x`, and the list is what follows it. The result is the last
-- `ord[i]` and what then follows it.
unfoldable pub sweep : Vma → List Vma → Vma × List Vma
sweep x [] = (x, [])
sweep x (y ∷ ys) =
    if ltb y.addr x.addr
    then (let r = sweep y ys in (r.0, x ∷ r.1))
    else (let r = sweep x ys in (r.0, y ∷ r.1))

-- The outer loop, for as many rounds as the first argument says.
unfoldable pub sort_from : ℕ → List Vma → List Vma
sort_from zero vs = vs
sort_from (suc n) [] = []
sort_from (suc n) (x ∷ xs) = let r = sweep x xs in r.0 ∷ sort_from n r.1

-- The loop over the gaps: `cur` and `best`.
unfoldable pub scan : ℕ → List Vma → ℕ → ℕ → ℕ × ℕ
scan len [] cur best = (cur, best)
scan len (v ∷ vs) cur best =
    let best' = if ltb cur v.addr && leb len (v.addr - cur) then v.addr - len else best in
    let cur' = if ltb cur (vend v) then vend v else cur in scan len vs cur' best'

abbrev pub high : ℕ
high = trapframe nproc

-- `sz` and `vmas` of the process
unfoldable pub vma_find_addr : ℕ → List Vma → ℕ → ℕ
vma_find_addr sz vmas len =
    let ord = used_vmas vmas in
    let r = scan len (sort_from (length ord) ord) (pg_round_up sz) 0 in
    if ltb r.0 high && leb len (high - r.0) then high - len else r.1

-- What `argfd` gives for an open descriptor: the number of the file, and the fields that are read.
pub record Opened : Type 0 where
  pub file : ℕ
  pub readable : Bool
  pub writable : Bool
  pub is_inode : Bool

pub record MmapArgs : Type 0 where
  pub addr : ℕ
  pub len : ℕ
  pub prot : ℕ
  pub flags : ℕ
  pub off : ℕ

-- The tests of `sys_mmap` before it looks at the descriptor: PROT_READ, PROT_WRITE and PROT_EXEC are the
-- low bits of `prot`, MAP_SHARED and MAP_PRIVATE those of `flags`.
abbrev pub bad_args : Proc → MmapArgs → Bool
bad_args p a =
    not (p.pid == p.tgid)
    || not (a.addr == 0)
    || a.len == 0
    || not (a.off % pgsize == 0)
    || a.prot % 8 == 0
    || a.flags % 4 == 0
    || a.flags % 4 == 3

-- The tests on the open file.
abbrev pub bad_file : MmapArgs → Opened → Bool
bad_file a f =
    has_bit a.prot 1 && not f.readable
    || has_bit a.flags 1 && has_bit a.prot 2 && not f.writable
    || not f.is_inode

abbrev pub new_vma : ℕ → ℕ → MmapArgs → Opened → Vma
new_vma mapaddr len a f = record {
  used = true;
  addr = mapaddr;
  len = len;
  prot = a.prot;
  flags = a.flags;
  off = a.off;
  f = some f.file;
}

-- `none` for -1, else the address and the regions; the file then has one reference more (`filedup`).
-- The descriptor is what `argfd` makes of argument 4.
unfoldable pub sys_mmap : Proc → MmapArgs → Option Opened → Option (ℕ × List Vma)
sys_mmap p a none = none
sys_mmap p a (some f) =
    if bad_args p a || bad_file a f
    then none
    else let len = pg_round_up a.len in
      let mapaddr = vma_find_addr p.sz p.vmas len in
      elim (vma_alloc_slot p.vmas) [
        | none ↦ none
        | some idx ↦
            if mapaddr == 0 then none else some (mapaddr, set p.vmas idx (new_vma mapaddr len a f))
      ]

-- What `proc_munmap` asks of other parts: `vma_writeback` of a region between two addresses, `uvmunmap`
-- with `do_free` set, and `fileclose`.
pub data Call : Type 0 where
  vma_writeback : Vma → ℕ → ℕ → Call
  uvmunmap : ℕ → ℕ → Call
  fileclose : ℕ → Call

-- What the loop does at a region: nothing, return -1, or change it.
pub data Cut : Type 0 where
  skip : Cut
  hole : Cut
  cut : Vma → List Call → Cut

abbrev pub no_vma : Vma
no_vma = record { used = false; addr = 0; len = 0; prot = 0; flags = 0; off = 0; f = none }

abbrev pub close_call : Option ℕ → List Call
close_call none = []
close_call (some f) = fileclose f ∷ []

-- The region that is left when the bytes from `s` to `e` go, which touch one end of it.
abbrev pub trimmed : Vma → ℕ → ℕ → Vma
trimmed v s e =
    if s == v.addr && e == vend v
    then no_vma
    else if s == v.addr
    then record v { addr = e; off = (v.off + (e - s)) % 2 ^ 64; len = vend v - e }
    else if e == vend v
    then record v { len = s - v.addr }
    else v

abbrev pub unmap_start : ℕ → Vma → ℕ
unmap_start addr v = if ltb v.addr addr then addr else v.addr

abbrev pub unmap_end : ℕ → Vma → ℕ
unmap_end end v = if ltb end (vend v) then end else vend v

-- A round of the loop of `proc_munmap`.
unfoldable pub cut_one : ℕ → ℕ → Vma → Cut
cut_one addr end v =
    let s = unmap_start addr v in
    let e = unmap_end end v in
    if not v.used
    then skip
    else if leb end v.addr || leb (vend v) addr
    then skip
    else if ltb v.addr s && ltb e (vend v)
    then hole
    else cut (trimmed v s e) (
        vma_writeback v s e
        ∷ uvmunmap s ((e - s) / pgsize)
        ∷ (if s == v.addr && e == vend v then close_call v.f else []))

-- What the call has done from a region on, from what it does behind it if the region is skipped and if
-- it is changed: whether the result is 0, the regions, and the calls in order.
abbrev pub resume :
    Cut
    → Vma
    → List Vma
    → Bool × List Vma × List Call
    → Bool × List Vma × List Call
    → Bool × List Vma × List Call
resume skip v vs skipped changed = (skipped.0, v ∷ skipped.1, skipped.2)
resume hole v vs skipped changed = (false, v ∷ vs, [])
resume (cut v' calls) v vs skipped changed = (changed.0, v' ∷ changed.1, calls ++ changed.2)

-- The loop, with `changed`.
unfoldable pub munmap_from : ℕ → ℕ → Bool → List Vma → Bool × List Vma × List Call
munmap_from addr end changed [] = (changed, [], [])
munmap_from addr end changed (v ∷ vs) =
    resume (cut_one addr end v) v vs (munmap_from addr end changed vs)
      (munmap_from addr end true vs)

unfoldable pub proc_munmap : List Vma → ℕ → ℕ → Bool × List Vma × List Call
proc_munmap vmas addr len =
    let end = (addr + len) % 2 ^ 64 in
    if not (addr % pgsize == 0) || len == 0 || ltb end addr
    then (false, vmas, [])
    else munmap_from addr end false vmas

unfoldable pub sys_munmap : Proc → ℕ → ℕ → Bool × List Vma × List Call
sys_munmap p addr len =
    if not (p.pid == p.tgid) || not (addr % pgsize == 0) || len == 0
    then (false, p.vmas, [])
    else proc_munmap p.vmas addr (pg_round_up len)
