-- ===== src/Vm.antt =====
-- xv6-riscv/kernel/vm.c: Sv39 page tables, user memory, and page faults. The state is the allocator with
-- the contents of the pages. A page is used as 512 words, for a page table, or as 4096 bytes, for user
-- memory; the two views of a page are kept apart, and what clears or frees a page writes both.
pub mod Tables
pub mod Entries
pub mod Leaf
pub mod Walk
pub mod Walked
pub mod Map
pub mod Fault
pub mod Same
pub mod Copied
pub mod Private
pub mod Space
pub mod User
pub mod Flat
pub mod Chunks
pub mod Text
mod Tests
use xv6_extended.Base.{
  ℕ, zero, suc, ◌+◌, ◌-◌, ◌*◌, ◌/◌, ◌%◌, ◌^◌, Bool, true, false, not, ◌&&◌, ◌||◌, Option, some,
  none, ltb, leb, ◌==◌, if◌then◌else◌, Outcome, done, panic, ◌>>=◌, has_bit,
}
use xv6_extended.Base.Family.{update}
use xv6_extended.Memory.{pgsize, maxva, pg_round_up, pg_round_down}
use xv6_extended.Kalloc.{Kmem, pa2idx, kalloc, kfree, krefinc, krefcnt}

-- Bits of an entry.
abbrev pub pte_v : ℕ
pte_v = 1

abbrev pub pte_r : ℕ
pte_r = 2

abbrev pub pte_w : ℕ
pte_w = 4

abbrev pub pte_x : ℕ
pte_x = 8

abbrev pub pte_u : ℕ
pte_u = 16

abbrev pub pte_cow : ℕ
pte_cow = 256

abbrev pub pa2pte : ℕ → ℕ
pa2pte pa = pa / 2 ^ 12 * 2 ^ 10

abbrev pub pte2pa : ℕ → ℕ
pte2pa pte = pte / 2 ^ 10 * 2 ^ 12

abbrev pub pte_flags : ℕ → ℕ
pte_flags pte = pte % 2 ^ 10

-- `x | bit` and `x & ~bit`
abbrev pub set_bit : ℕ → ℕ → ℕ
set_bit x bit = if has_bit x bit then x else x + bit

abbrev pub clear_bit : ℕ → ℕ → ℕ
clear_bit x bit = if has_bit x bit then x - bit else x

-- `PX(level, va)`
abbrev pub px : ℕ → ℕ → ℕ
px level va = va / 2 ^ (12 + 9 * level) % 512

pub record Mem : Type 0 where
  pub kmem : Kmem
  pub word : ℕ → ℕ → ℕ
  pub byte : ℕ → ℕ → ℕ

abbrev pub fill_page : ℕ → ℕ → ℕ → Mem → Mem
fill_page pa w b s = record s { word = update s.word pa (λ _. w); byte = update s.byte pa (λ _. b) }

-- `memset(pa, 0, PGSIZE)`
abbrev pub zero_page : ℕ → Mem → Mem
zero_page pa s = fill_page pa 0 0 s

-- `kalloc`, which fills the page with junk.
unfoldable pub page_alloc : Mem → ℕ × Mem
page_alloc s =
    let r = kalloc s.kmem in
    if r.0 == 0
    then (0, record s { kmem = r.1 })
    else (r.0, fill_page r.0 0x0505050505050505 5 (record s { kmem = r.1 }))

abbrev pub set_word : ℕ → ℕ → ℕ → Mem → Mem
set_word pt i v s = record s { word = update s.word pt (update (s.word pt) i v) }

abbrev pub is_valid : ℕ → Bool
is_valid pte = has_bit pte pte_v

-- One round of the loop of `walk`, at the entry `i` of the table `pt`; none for the return of 0.
unfoldable pub next_table : ℕ → ℕ → Bool → Mem → Option ℕ × Mem
next_table pt i alloc s =
    let r = page_alloc s in
    if is_valid (s.word pt i)
    then (some (pte2pa (s.word pt i)), s)
    else if not alloc
    then (none, s)
    else if r.0 == 0
    then (none, r.1)
    else (some r.0, set_word pt i (pa2pte r.0 + pte_v) (zero_page r.0 r.1))

-- The rest of the loop behind a round.
abbrev pub follow : (ℕ → Mem → Option (ℕ × ℕ) × Mem) → Option ℕ × Mem → Option (ℕ × ℕ) × Mem
follow rest (none, s) = (none, s)
follow rest (some next, s) = rest next s

-- The loop from the given level on, and the address of the entry as its table and index.
unfoldable pub walk_levels : ℕ → ℕ → ℕ → Bool → Mem → Option (ℕ × ℕ) × Mem
walk_levels zero pt va alloc s = (some (pt, px 0 va), s)
walk_levels (suc level) pt va alloc s =
    follow (λ next s'. walk_levels level next va alloc s')
      (next_table pt (px (suc level) va) alloc s)

unfoldable pub walk : ℕ → ℕ → Bool → Mem → Outcome (Option (ℕ × ℕ) × Mem)
walk pt va alloc s = if leb maxva va then panic else done (walk_levels 2 pt va alloc s)

-- `walk` with `alloc` 0, which changes nothing: the entry that it finds.
abbrev pub found : Option (ℕ × ℕ) → Mem → Option ℕ
found none s = none
found (some (pt, i)) s = some (s.word pt i)

unfoldable pub walkaddr : ℕ → ℕ → Mem → ℕ
walkaddr pt va s = if leb maxva va then 0 else elim (found (walk_levels 2 pt va false s).0 s) [
  | none ↦ 0
  | some pte ↦ if not (is_valid pte) || not (has_bit pte pte_u) then 0 else pte2pa pte
]

-- `*pte = PA2PTE(pa) | perm | PTE_V` in `mappages`, for a `perm` of flags.
abbrev pub new_pte : ℕ → ℕ → ℕ
new_pte pa perm = pa2pte pa + set_bit perm pte_v

-- The rest of a round of `mappages` from what `walk` gives. The Bool says that the call goes on.
unfoldable pub map_one : ℕ → ℕ → Option (ℕ × ℕ) × Mem → Outcome (Bool × Mem)
map_one pa perm (none, s) = done (false, s)
map_one pa perm (some (pt, i), s) =
    if is_valid (s.word pt i) then panic else done (true, set_word pt i (new_pte pa perm) s)

-- The loop with that many rounds to go; the Bool is false for -1.
unfoldable pub map_pages : ℕ → ℕ → ℕ → ℕ → ℕ → Mem → Outcome (Bool × Mem)
map_pages zero pt a pa perm s = done (true, s)
map_pages (suc n) pt a pa perm s = walk pt a true s >>= map_one pa perm >>= λ r.
    if r.0 then map_pages n pt (a + pgsize) (pa + pgsize) perm r.1 else done r

unfoldable pub mappages : ℕ → ℕ → ℕ → ℕ → ℕ → Mem → Outcome (Bool × Mem)
mappages pt va size pa perm s =
    if not (va % pgsize == 0) || not (size % pgsize == 0) || size == 0
    then panic
    else map_pages (size / pgsize) pt va pa perm s

-- `kvmmap`
unfoldable pub kvmmap : ℕ → ℕ → ℕ → ℕ → ℕ → Mem → Outcome Mem
kvmmap pt va pa sz perm s = mappages pt va sz pa perm s >>= λ r. if r.0 then done r.1 else panic

-- 0 if there is no page.
unfoldable pub uvmcreate : Mem → ℕ × Mem
uvmcreate s = let r = page_alloc s in if r.0 == 0 then r else (r.0, zero_page r.0 r.1)

-- `end` is the first address after the kernel, which the linker sets.
module _ (end : ℕ) where
  -- `kfree`, which fills a page that becomes free.
  unfoldable pub page_free : ℕ → Mem → Outcome Mem
  page_free pa s = kfree end pa s.kmem >>= λ k. done (
      if s.kmem.refcnt (pa2idx pa) == 1
      then fill_page pa 0x0101010101010101 1 (record s { kmem = k })
      else record s { kmem = k })

  -- A round of `uvmunmap`, from what `walk` gives.
  unfoldable pub unmap_one : Bool → Option (ℕ × ℕ) → Mem → Outcome Mem
  unmap_one do_free none s = done s
  unmap_one do_free (some (pt, i)) s =
      if not (is_valid (s.word pt i))
      then done s
      else if do_free
      then (page_free (pte2pa (s.word pt i)) s >>= λ s'. done (set_word pt i 0 s'))
      else done (set_word pt i 0 s)

  unfoldable pub unmap_pages : ℕ → ℕ → ℕ → Bool → Mem → Outcome Mem
  unmap_pages zero pt a do_free s = done s
  unmap_pages (suc n) pt a do_free s =
      walk pt a false s >>= λ r. unmap_one do_free r.0 s >>= unmap_pages n pt (a + pgsize) do_free

  unfoldable pub uvmunmap : ℕ → ℕ → ℕ → Bool → Mem → Outcome Mem
  uvmunmap pt va npages do_free s =
      if not (va % pgsize == 0) then panic else unmap_pages npages pt va do_free s

  unfoldable pub uvmdealloc : ℕ → ℕ → ℕ → Mem → Outcome (ℕ × Mem)
  uvmdealloc pt oldsz newsz s =
      if leb oldsz newsz
      then done (oldsz, s)
      else if ltb (pg_round_up newsz) (pg_round_up oldsz)
      then (uvmunmap pt (pg_round_up newsz) ((pg_round_up oldsz - pg_round_up newsz) / pgsize) true
            s
          >>= λ s'. done (newsz, s'))
      else done (newsz, s)

  -- A failure of `uvmalloc` at `a`: what has been mapped from `oldsz` on goes.
  abbrev pub alloc_failed : ℕ → ℕ → ℕ → Mem → Outcome (ℕ × Mem)
  alloc_failed pt a oldsz s = uvmdealloc pt a oldsz s >>= λ r. done (0, r.1)

  -- The loop of `uvmalloc` with that many rounds to go.
  unfoldable pub alloc_pages : ℕ → ℕ → ℕ → ℕ → ℕ → ℕ → Mem → Outcome (ℕ × Mem)
  alloc_pages zero pt a oldsz newsz xperm s = done (newsz, s)
  alloc_pages (suc n) pt a oldsz newsz xperm s =
      let m = page_alloc s in
      let mapped =
        mappages pt a pgsize m.0 (set_bit (set_bit xperm pte_r) pte_u) (zero_page m.0 m.1) >>= λ r.
        if r.0
        then alloc_pages n pt (a + pgsize) oldsz newsz xperm r.1
        else page_free m.0 r.1 >>= alloc_failed pt a oldsz in
      if m.0 == 0 then alloc_failed pt a oldsz m.1 else mapped

  unfoldable pub uvmalloc : ℕ → ℕ → ℕ → ℕ → Mem → Outcome (ℕ × Mem)
  uvmalloc pt oldsz newsz xperm s =
      let from = pg_round_up oldsz in
      if ltb newsz oldsz
      then done (oldsz, s)
      else alloc_pages ((newsz - from + pgsize - 1) / pgsize) pt from from newsz xperm s

  -- What a fork makes of an entry: a writable page is shared and copied on the first write.
  abbrev pub share : ℕ → ℕ
  share pte = if has_bit pte pte_w then set_bit (clear_bit pte pte_w) pte_cow else pte

  -- A round of `uvmcopy` at `i`, from the entry of the old table; the Bool is false at `goto err`.
  unfoldable pub copy_one : ℕ → ℕ → Option (ℕ × ℕ) → Mem → Outcome (Bool × Mem)
  copy_one new i none s = done (true, s)
  copy_one new i (some (pt, k)) s =
      let pte = share (s.word pt k) in
      let pa = pte2pa pte in
      if not (is_valid (s.word pt k))
      then done (true, s)
      else mappages new i pgsize pa (pte_flags pte) (set_word pt k pte s) >>= λ r.
          if r.0
          then (krefinc end pa r.1.kmem >>= λ kmem. done (true, record (r.1) { kmem = kmem }))
          else done r

  -- The loop with that many rounds to go.
  unfoldable pub copy_pages : ℕ → ℕ → ℕ → ℕ → Mem → Outcome (Bool × Mem)
  copy_pages zero old new i s = done (true, s)
  copy_pages (suc n) old new i s = walk old i false s >>= λ w. copy_one new i w.0 s >>= λ r.
      if r.0
      then copy_pages n old new (i + pgsize) r.1
      else uvmunmap new 0 (i / pgsize) true r.1 >>= λ s'. done (false, s')

  unfoldable pub uvmcopy : ℕ → ℕ → ℕ → Mem → Outcome (Bool × Mem)
  uvmcopy old new sz s = copy_pages ((sz + pgsize - 1) / pgsize) old new 0 s

unfoldable pub uvmclear : ℕ → ℕ → Mem → Outcome Mem
uvmclear pt va s = walk pt va false s >>= λ r. elim r.0 [
  | none ↦ panic
  | some (t, i) ↦ done (set_word t i (clear_bit (s.word t i) pte_u) s)
]

unfoldable pub ismapped : ℕ → ℕ → Mem → Outcome Bool
ismapped pt va s = walk pt va false s >>= λ r. elim (found r.0 s) [
  | none ↦ done false
  | some pte ↦ done (is_valid pte)
]
