-- ===== src/Mmap/Tests.antt =====
-- Regions at concrete processes.
use xv6_extended.Base.{
  ℕ, ◌+◌, ◌-◌, ◌*◌, ◌^◌, ◌≡◌, ◌⊎◌, refl, true, false, some, none, List, [], ◌∷◌, arith,
  if◌then◌else◌, All,
}
use xv6_extended.Memory.{pgsize}
use xv6_extended.Proc.{State, Proc, Vma}
use xv6_extended.Mmap.{
  alloc_slot_from, vma_alloc_slot, used_vmas, sweep, sort_from, scan, high, vma_find_addr, Opened,
  MmapArgs, sys_mmap, cut_one, munmap_from, proc_munmap, no_vma,
}
use xv6_extended.Mmap.Regions.{Placed, IsValid, InRange}
use xv6_extended.Mmap.Backing.{backing, inside}
use xv6_extended.Mmap.Unmap.{proc_munmap-backing}
use xv6_extended.Mmap.Place.{Found, vma_find_addr-Found}
use xv6_extended.Mmap.Mapped.{Mapped, sys_mmap-Mapped}

-- Four pages of file 5 from offset 8192 on, below the trap frames.
abbrev four_pages : Vma
four_pages = record {
  used = true;
  addr = high - 4 * pgsize;
  len = 4 * pgsize;
  prot = 3;
  flags = 1;
  off = 8192;
  f = some 5;
}

abbrev two_slots : List Vma
two_slots = four_pages ∷ no_vma ∷ []

abbrev leader : Proc
leader = record {
  state = State.running;
  chan = 0;
  killed = false;
  xstate = 0;
  pid = 7;
  tgid = 7;
  thread_count = 1;
  parent = none;
  sz = 5000;
  pagetable = 0;
  trapframe = 0;
  ofile = [];
  cwd = none;
  vmas = two_slots;
  priority = 0;
  ticks_used = 0;
  name = [];
}

abbrev one_page_asked : MmapArgs
one_page_asked = record { addr = 0; len = 100; prot = 1; flags = 2; off = 0 }

abbrev file_six : Opened
file_six = record { file = 6; readable = true; writable = false; is_inode = true }

two_slots-Placed : All (Placed 5000) two_slots
two_slots-Placed = ((λ _. (refl, refl, omega arith, omega arith)), ((λ e. cc e), tt))

two_slots-IsValid : IsValid 5000 two_slots
two_slots-IsValid = record {
  placed = two_slots-Placed;
  disjoint = ((λ _. ((λ e. cc e), tt)), ((λ e. cc e), tt));
}

two_slots-InRange : All InRange two_slots
two_slots-InRange = ((omega arith, omega arith), ((omega arith, omega arith), tt))

-- The page below the region.
finds_below : vma_find_addr 5000 two_slots 4096 ≡ high - 5 * pgsize
unfolding vma_find_addr used_vmas sort_from sweep scan
finds_below = refl

-- A length that rounds up to 0 is mapped as a region of no bytes.
maps_nothing :
    sys_mmap leader (record one_page_asked { len = 2 ^ 64 - 1 }) (some file_six)
    ≡ some (
      high - 4 * pgsize,
      four_pages
          ∷ record {
            used = true;
            addr = high - 4 * pgsize;
            len = 0;
            prot = 1;
            flags = 2;
            off = 0;
            f = some 6;
          }
          ∷ [],
    )
unfolding sys_mmap vma_alloc_slot alloc_slot_from vma_find_addr used_vmas sort_from sweep scan
maps_nothing = refl

-- The first page goes, and then a hole is refused.
trims_front :
    (proc_munmap two_slots (high - 4 * pgsize) 4096).1
    ≡ record four_pages { addr = high - 3 * pgsize; len = 3 * pgsize; off = 12288 } ∷ no_vma ∷ []
unfolding proc_munmap munmap_from cut_one
trims_front = refl

refuses_hole : (proc_munmap two_slots (high - 3 * pgsize) 4096).0 ≡ false
unfolding proc_munmap munmap_from cut_one
refuses_hole = refl

proc_munmap-backing_example :
    let r = proc_munmap two_slots (high - 4 * pgsize) 4096 in
    (r.0 ≡ true
      × ((a : ℕ)
          → backing r.1 a ≡ (
              if inside (high - 4 * pgsize) (high - 4 * pgsize + 4096) a
              then none
              else backing two_slots a)))
    ⊎ (r.0 ≡ false × r.1 ≡ two_slots × r.2 ≡ [])
proc_munmap-backing_example =
    proc_munmap-backing two_slots (high - 4 * pgsize) 4096 refl (omega arith) (omega arith)
      two_slots-InRange ((λ _. ((λ e. cc e), tt)), ((λ e. cc e), tt))

vma_find_addr-Found_example :
    (vma_find_addr 5000 two_slots 4096 ≡ 0)
    ⊎ Found 5000 4096 two_slots (vma_find_addr 5000 two_slots 4096)
vma_find_addr-Found_example = vma_find_addr-Found 5000 4096 two_slots refl two_slots-Placed

sys_mmap-Mapped_example :
    (sys_mmap leader one_page_asked (some file_six) ≡ none)
    ⊎ ((r : ℕ × List Vma) × (sys_mmap leader one_page_asked (some file_six) ≡ some r)
        × Mapped leader one_page_asked file_six r)
sys_mmap-Mapped_example = sys_mmap-Mapped leader one_page_asked file_six two_slots-IsValid
