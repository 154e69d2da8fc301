-- ===== src/Vm/Tests.antt =====
-- Page tables at concrete states: a root, one table behind each of its first entries, and one user page.
use xv6_extended.Base.{
  ℕ, ◌+◌, ◌%◌, ◌<◌, ◌≡◌, ◌≢◌, ◌∙◌, refl, ap, Bool, true, false, not, [], ◌∷◌, ◌==◌, if◌then◌else◌,
  arith, done,
}
use xv6_extended.Base.Family.{update}
use xv6_extended.Memory.{pgsize, phystop, kernbase}
use xv6_extended.Kalloc.{Kmem, pa2idx}
use xv6_extended.Kalloc.Invariant
use xv6_extended.Kalloc.Invariant.{IsPage}
use xv6_extended.Vm.{
  Mem, pa2pte, new_pte, is_valid, mappages, walkaddr, walk_levels, next_table, page_alloc,
}
use xv6_extended.Vm.Tables.{Alive, child, Tables}
use xv6_extended.Vm.Map.{MapResult, mappages-MapResult}
use xv6_extended.Vm.Fault.{Files, vmfault}
use xv6_extended.Vm.User.{copyin, copyinstr}
use xv6_extended.Vm.Flat.{page_at, user_byte, with_user, copyin-with_user}
use xv6_extended.Vm.Text.{copyinstr-with_user}
use xv6_extended.Vm.Private.{CowResult, vmfault-CowResult}

abbrev root_page : ℕ
root_page = kernbase + 0x1000

abbrev middle_table : ℕ
middle_table = kernbase + 0x2000

abbrev last_table : ℕ
last_table = kernbase + 0x3000

abbrev user_page : ℕ
user_page = kernbase + 0x4000

abbrev spare : ℕ
spare = kernbase + 0x5000

-- The page at address 0, shared.
abbrev shared_pte : ℕ
shared_pte = pa2pte user_page + 275

abbrev table_words : ℕ → ℕ → ℕ
table_words pt i =
    if not (i == 0)
    then 0
    else if pt == root_page
    then pa2pte middle_table + 1
    else if pt == middle_table
    then pa2pte last_table + 1
    else if pt == last_table
    then shared_pte
    else 0

-- All pages have two owners, but for one that is free.
abbrev shared_kmem : Kmem
shared_kmem = record {
  freelist = spare;
  next = λ _. 0;
  fill = λ _. 1;
  refcnt = update (λ _. 2) (pa2idx spare) 0;
}

shared_kmem-IsValid : Invariant.IsValid kernbase phystop shared_kmem (spare ∷ [])
shared_kmem-IsValid = record {
  chain = (refl, omega arith, refl);
  distinct = (refl, tt);
  page = λ q m. (
    record {
      above = ground arith;
      aligned = ground (arith, m);
      low = ground (arith, m);
      high = ground (arith, m);
    },
    ground (arith, m),
  );
  zeroed = λ q m. ground (arith, m);
  counted = λ q qp qt m. ground (arith, qp.aligned, qp.low, qp.high);
  int_range = λ i. ground arith;
}

abbrev shared_mem : Mem
shared_mem = record { kmem = shared_kmem; word = table_words; byte = λ p i. (p + i) % 256 }

abbrev places : ℕ → ℕ
places p =
    if p == middle_table then child 0 0 else if p == last_table then child (child 0 0) 0 else 0

abbrev no_files : Files
no_files = record { size = λ _. 0; readi = λ _ _ n. (n, λ _. 0) }

alive : (p : ℕ) → IsPage kernbase p → p ≢ spare → Alive kernbase shared_mem p
alive p page other = record {
  is_page = page;
  counted = ground (arith, page.aligned, page.low, page.high, other);
}

middle_cases : (i : ℕ) → is_valid (table_words root_page i) ≡ true → i ≡ 0
middle_cases i h = ground (arith, h)

shared_mem-Tables : Tables kernbase places shared_mem root_page 0
shared_mem-Tables = record {
  root = (refl, alive root_page (omega arith) (omega arith));
  middle = λ i hi valid.
      let e = middle_cases i valid in rw e (refl, alive middle_table (omega arith) (omega arith));
  last = λ i j hi hj valid deep.
      let e = middle_cases i valid in
      let deep0 : is_valid (table_words middle_table j) ≡ true = rw e at deep in
      let e2 : j ≡ 0 = ground (arith, deep0) in
      rw e (rw e2 (refl, alive last_table (omega arith) (omega arith)));
}

-- The page at 0x1000 is not mapped, and has its tables.
mappages-MapResult_example :
    (w : Bool × Mem) × (mappages root_page 0x1000 pgsize user_page 16 shared_mem ≡ done w)
    × MapResult kernbase phystop places shared_mem root_page 0 0x1000 (new_pte user_page 16) w
mappages-MapResult_example =
    mappages-MapResult kernbase phystop places shared_mem (spare ∷ []) root_page 0 0x1000 user_page
      16 (omega arith) (omega arith) refl shared_mem-Tables shared_kmem-IsValid refl

vmfault-CowResult_example :
    (w : ℕ × Mem) × (vmfault kernbase no_files 0 [] root_page 5 false shared_mem ≡ done w)
    × CowResult kernbase phystop places shared_mem (spare ∷ []) root_page 0 0 shared_pte w
vmfault-CowResult_example =
    vmfault-CowResult kernbase phystop places shared_mem (spare ∷ []) root_page 0 5 no_files 0 []
      (omega arith) (omega arith) shared_mem-Tables shared_kmem-IsValid refl refl
      (alive user_page (omega arith) (omega arith))

page_zero : walkaddr root_page 0 shared_mem ≡ user_page
unfolding walkaddr walk_levels next_table page_alloc
page_zero = refl

-- The first page of user memory is there, and its bytes are 0, 1, 2 and so on.
in_page_zero : (va : ℕ) → va < pgsize → page_at shared_mem root_page va ≡ user_page
in_page_zero va h = ap (λ v. walkaddr root_page v shared_mem) (omega (arith, h)) ∙ page_zero

byte_at : (va : ℕ) → va < pgsize → user_byte shared_mem root_page va ≡ va % 256
byte_at va h = ap (λ p. (p + va % pgsize) % 256) (in_page_zero va h) ∙ omega (arith, h)

present_at : (va : ℕ) → va < pgsize → page_at shared_mem root_page va ≢ 0
present_at va h z = absurd (omega (arith, in_page_zero va h, z))

copyin-with_user_example :
    (ker : ℕ → ℕ) × (copyin kernbase no_files 0 [] root_page 100 5 3 (λ _. 0) shared_mem
      ≡ done (true, ker, shared_mem))
    × ((a : ℕ) → ker a ≡ with_user shared_mem root_page 100 5 3 (λ _. 0) a)
copyin-with_user_example =
    copyin-with_user kernbase no_files 0 [] root_page shared_mem 3 100 5 (λ _. 0)
      (λ i h. present_at (5 + i) (omega (arith, h)))

-- The bytes 254, 255 and NUL.
copyinstr-with_user_example :
    (ker : ℕ → ℕ) × (copyinstr kernbase no_files 0 [] root_page 100 254 10 (λ _. 0) shared_mem
      ≡ done (true, ker, shared_mem))
    × ((a : ℕ) → ker a ≡ with_user shared_mem root_page 100 254 3 (λ _. 0) a)
copyinstr-with_user_example =
    copyinstr-with_user kernbase no_files 0 [] root_page shared_mem 10 2 100 254 (λ _. 0)
      (omega arith) (λ i h. present_at (254 + i) (omega (arith, h)))
      (λ i h z. absurd (omega (arith, h, byte_at (254 + i) (omega (arith, h)), z)))
      (λ h. byte_at 256 (omega arith))
