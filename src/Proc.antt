-- ===== src/Proc.antt =====
-- xv6-riscv/kernel/proc.h and proc.c: the process table.
pub mod Schedule
pub mod Channel
mod Tests
use xv6_extended.Base.{ℕ, ◌+◌, ◌-◌, Bool, true, false, Option, List}

-- `enum procstate`
pub data State : Type 0 where
  unused used sleeping runnable running zombie : State

-- `struct vma`: a region of a process, mapped by mmap. The file is the number of its entry in the file
-- table, or none for the null pointer.
pub record Vma : Type 0 where
  pub used : Bool
  pub addr : ℕ
  pub len : ℕ
  pub prot : ℕ
  pub flags : ℕ
  pub off : ℕ
  pub f : Option ℕ

-- `struct proc`, less its lock, kernel stack and saved registers. Processes are numbered by their slot
-- in the table, files by their slot in the file table, and cwd by a slot of the inode table. An int is
-- a bit pattern of 32 bits; `killed` is only tested for zero, and so is a Bool.
pub record Proc : Type 0 where
  pub state : State
  pub chan : ℕ
  pub killed : Bool
  pub xstate : ℕ
  pub pid : ℕ
  pub tgid : ℕ
  pub thread_count : ℕ
  pub parent : Option ℕ
  pub sz : ℕ
  pub pagetable : ℕ
  pub trapframe : ℕ
  pub ofile : List (Option ℕ)
  pub cwd : Option ℕ
  pub vmas : List Vma
  pub priority : ℕ
  pub ticks_used : ℕ
  pub name : List ℕ

abbrev pub is_runnable : State → Bool
is_runnable State.runnable = true
is_runnable _ = false

abbrev pub is_sleeping : State → Bool
is_sleeping State.sleeping = true
is_sleeping _ = false

abbrev pub is_unused : State → Bool
is_unused State.unused = true
is_unused _ = false

abbrev pub is_zombie : State → Bool
is_zombie State.zombie = true
is_zombie _ = false

abbrev pub is_running : State → Bool
is_running State.running = true
is_running _ = false
