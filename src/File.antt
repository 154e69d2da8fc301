-- ===== src/File.antt =====
-- xv6-riscv/kernel/file.c, with the calls of sysfile.c and pipe.c on descriptors: the table of open files and the
-- descriptors of a process. A count of references is the bit pattern of an int; a function that runs under
-- `ftable.lock` is one atomic step. What fileclose then asks of pipes and inodes is recorded as a list.
pub mod Holders
pub mod Slots
pub mod Pipes
pub mod Counted
pub mod Calls
pub mod Fork
mod Tests
use xv6_extended.Base.{
  ℕ, zero, suc, ◌+◌, ◌-◌, ◌%◌, ◌^◌, Bool, true, false, not, ◌&&◌, ◌||◌, Option, some, none, List,
  [], ◌∷◌, ◌++◌, ltb, leb, ◌==◌, if◌then◌else◌, Outcome, done, panic, ◌>>=◌, set, get_or,
}
use xv6_extended.Base.Family.{update}
use xv6_extended.Kalloc.{below_one}

abbrev pub nfile : ℕ
nfile = 100

abbrev pub nofile : ℕ
nofile = 16

pub data Kind : Type 0 where
  fd_none : Kind
  fd_pipe : Kind
  fd_inode : Kind
  fd_device : Kind

pub record File : Type 0 where
  pub kind : Kind
  pub ref : ℕ
  pub readable : Bool
  pub writable : Bool
  pub pipe : ℕ
  pub ip : ℕ
  pub off : ℕ
  pub major : ℕ

-- What remains to be done for a file that has been closed: `pipeclose`, or `iput` in a transaction.
pub data Closing : Type 0 where
  close_pipe : ℕ → Bool → Closing
  put_inode : ℕ → Closing

abbrev pub Ftable : Type 0
Ftable = ℕ → File

-- The loop of `filealloc` from `f` on with that many files to go.
unfoldable pub alloc_file : ℕ → ℕ → Ftable → Option ℕ × Ftable
alloc_file zero f t = (none, t)
alloc_file (suc n) f t =
    let rest = alloc_file n (f + 1) t in
    if (t f).ref == 0 then (some f, update t f (record (t f) { ref = 1 })) else rest

unfoldable pub filealloc : Ftable → Option ℕ × Ftable
filealloc t = alloc_file nfile 0 t

unfoldable pub filedup : ℕ → Ftable → Outcome Ftable
filedup f t =
    if below_one (t f).ref
    then panic
    else done (update t f (record (t f) { ref = ((t f).ref + 1) % 2 ^ 32 }))

abbrev pub closing : File → List Closing
closing f = closing_kind f.kind f
  where
    closing_kind : Kind → File → List Closing
    closing_kind Kind.fd_none f = []
    closing_kind Kind.fd_pipe f = close_pipe f.pipe f.writable ∷ []
    closing_kind Kind.fd_inode f = put_inode f.ip ∷ []
    closing_kind Kind.fd_device f = put_inode f.ip ∷ []

unfoldable pub fileclose : ℕ → Ftable → Outcome (List Closing × Ftable)
fileclose f t =
    if below_one (t f).ref
    then panic
    else if ltb 0 ((t f).ref - 1)
    then done ([], update t f (record (t f) { ref = (t f).ref - 1 }))
    else done (closing (t f), update t f (record (t f) { ref = 0; kind = fd_none }))

-- `fileclose` behind what has been recorded so far.
unfoldable pub close_more : ℕ → List Closing × Ftable → Outcome (List Closing × Ftable)
close_more f (calls, t) = fileclose f t >>= λ r. done (calls ++ r.0, r.1)

-- Descriptors.
abbrev pub Fds : Type 0
Fds = List (Option ℕ)

-- `argfd`: the file of a descriptor, which is the bit pattern of an int.
abbrev pub argfd : ℕ → Fds → Option ℕ
argfd fd fds = if leb nofile fd then none else get_or fds fd none

-- The loop of `fdalloc` over the slots from `fd` on; none for -1.
unfoldable pub fd_from : ℕ → ℕ → Fds → Option (ℕ × Fds)
fd_from f fd [] = none
fd_from f fd (none ∷ fds) = some (fd, some f ∷ fds)
fd_from f fd (some g ∷ fds) = elim (fd_from f (fd + 1) fds) [
  | none ↦ none
  | some r ↦ some (r.0, some g ∷ r.1)
]

unfoldable pub fdalloc : ℕ → Fds → Option (ℕ × Fds)
fdalloc f fds = fd_from f 0 fds

-- The open files, the descriptors of the process, and the recorded calls.
pub record Sys : Type 0 where
  pub files : Ftable
  pub fds : Fds
  pub calls : List Closing

-- `sys_dup` from what fdalloc gives, and from what argfd does. The result of a call is none for -1.
unfoldable pub dup_to : ℕ → Sys → Option (ℕ × Fds) → Outcome (Option ℕ × Sys)
dup_to f s none = done (none, s)
dup_to f s (some r) = filedup f s.files >>= λ t. done (some r.0, record s { files = t; fds = r.1 })

unfoldable pub dup_of : Sys → Option ℕ → Outcome (Option ℕ × Sys)
dup_of s none = done (none, s)
dup_of s (some f) = dup_to f s (fdalloc f s.fds)

unfoldable pub sys_dup : ℕ → Sys → Outcome (Option ℕ × Sys)
sys_dup n s = dup_of s (argfd n s.fds)

-- `sys_close` from what argfd gives.
unfoldable pub close_of : ℕ → Sys → Option ℕ → Outcome (Option ℕ × Sys)
close_of n s none = done (none, s)
close_of n s (some f) = fileclose f s.files >>= λ r.
    done (some 0, record { files = r.1; fds = set s.fds n none; calls = s.calls ++ r.0 })

unfoldable pub sys_close : ℕ → Sys → Outcome (Option ℕ × Sys)
sys_close n s = close_of n s (argfd n s.fds)

-- `pipealloc` from what the second `filealloc` gives; `page` is what kalloc gives, with 0 for none. The
-- result is none for -1.
unfoldable pub pipe_files :
    ℕ → ℕ → Option ℕ × Ftable → Outcome (Option (ℕ × ℕ) × List Closing × Ftable)
pipe_files page f0 (none, t) = fileclose f0 t >>= λ r. done (none, r.0, r.1)
pipe_files page f0 (some f1, t) =
    let t0 =
      update t f0
        (record (t f0) { kind = fd_pipe; readable = true; writable = false; pipe = page }) in
    let t1 =
      update t0 f1
        (record (t0 f1) { kind = fd_pipe; readable = false; writable = true; pipe = page }) in
    if page == 0
    then (fileclose f0 t >>= close_more f1 >>= λ r. done (none, r.0, r.1))
    else done (some (f0, f1), [], t1)

-- From what the first gives.
unfoldable pub pipe_first : ℕ → Option ℕ × Ftable → Outcome (Option (ℕ × ℕ) × List Closing × Ftable)
pipe_first page (none, t) = done (none, [], t)
pipe_first page (some f0, t) = pipe_files page f0 (filealloc t)

unfoldable pub pipealloc : ℕ → Ftable → Outcome (Option (ℕ × ℕ) × List Closing × Ftable)
pipealloc page t = pipe_first page (filealloc t)

-- A failure of `sys_pipe` with the descriptors `fds` left.
unfoldable pub pipe_failed : ℕ → ℕ → Fds → Sys → Outcome (Option ℕ × Sys)
pipe_failed rf wf fds s = fileclose rf s.files >>= close_more wf >>= λ r.
    done (none, record { files = r.1; fds = fds; calls = s.calls ++ r.0 })

-- `sys_pipe` from what the second `fdalloc` gives, and then from what the first does; `copied` says that
-- both calls of copyout succeed.
unfoldable pub pipe_second :
    Bool → ℕ → ℕ → ℕ → Fds → Option (ℕ × Fds) → Sys → Outcome (Option ℕ × Sys)
pipe_second copied rf wf fd0 fds none s = pipe_failed rf wf (set fds fd0 none) s
pipe_second copied rf wf fd0 fds (some (fd1, fds')) s =
    if copied
    then done (some 0, record s { fds = fds' })
    else pipe_failed rf wf (set (set fds' fd0 none) fd1 none) s

unfoldable pub pipe_fds : Bool → ℕ → ℕ → Option (ℕ × Fds) → Sys → Outcome (Option ℕ × Sys)
pipe_fds copied rf wf none s = pipe_failed rf wf s.fds s
pipe_fds copied rf wf (some (fd0, fds)) s = pipe_second copied rf wf fd0 fds (fdalloc wf fds) s

unfoldable pub piped :
    Bool → Fds → List Closing → Option (ℕ × ℕ) × List Closing × Ftable → Outcome (Option ℕ × Sys)
piped copied fds calls (none, more, t) =
    done (none, record { files = t; fds = fds; calls = calls ++ more })
piped copied fds calls (some (rf, wf), more, t) =
    pipe_fds copied rf wf (fdalloc rf fds) (record { files = t; fds = fds; calls = calls ++ more })

unfoldable pub sys_pipe : ℕ → Bool → Sys → Outcome (Option ℕ × Sys)
sys_pipe page copied s = pipealloc page s.files >>= piped copied s.fds s.calls

-- The loop of `kfork` and `clone` over the descriptors.
unfoldable pub dup_all : Fds → Ftable → Outcome Ftable
dup_all [] t = done t
dup_all (none ∷ fds) t = dup_all fds t
dup_all (some f ∷ fds) t = filedup f t >>= dup_all fds

-- The loop of `kexit` over them.
unfoldable pub close_all : Fds → List Closing × Ftable → Outcome (List Closing × Ftable)
close_all [] r = done r
close_all (none ∷ fds) r = close_all fds r
close_all (some f ∷ fds) r = close_more f r >>= close_all fds
