-- ===== src/Pipe.antt =====
-- xv6-riscv/kernel/pipe.c: a pipe, a ring of PIPESIZE bytes with counters that wrap at 2 ^ 32.
-- A call holds `pi->lock` except while it sleeps; it is cut there, and resumed by the same function.
pub mod Ring
pub mod Stream
pub mod History
mod Tests
use xv6_extended.Base.{
  ℕ, zero, suc, ◌+◌, ◌%◌, ◌^◌, Bool, true, false, ◌&&◌, ◌||◌, not, Option, some, none, List, [],
  ◌∷◌, ◌++◌, ◌==◌, if◌then◌else◌, is_negative,
}
use xv6_extended.Base.Family.{update}

abbrev pub pipesize : ℕ
pipesize = 512

-- `struct pipe`, less its lock
pub record Pipe : Type 0 where
  pub buf : ℕ → ℕ
  pub nread : ℕ
  pub nwrite : ℕ
  pub readopen : Bool
  pub writeopen : Bool

abbrev pub add_uint : ℕ → ℕ → ℕ
add_uint a b = (a + b) % 2 ^ 32

-- `pi->data[pi->nwrite++ % PIPESIZE] = ch`
pub put : ℕ → Pipe → Pipe
put ch pi = record pi {
  buf = update pi.buf (pi.nwrite % pipesize) ch;
  nwrite = add_uint pi.nwrite 1;
}

-- How a run of `pipewrite` ends. `returned` and `asleep` have woken the readers; `asleep i` is a writer
-- that has written `i` bytes and sleeps on `nwrite`.
pub data Written : Type 0 where
  returned : ℕ → Written
  failed : Written
  asleep : ℕ → Written

-- The loop of `pipewrite` with `r` bytes left, from byte `i` on. `user` is the memory of the process as
-- `copyin` reads it, from `addr` on; none is a byte that `copyin` refuses.
pub write_loop : (ℕ → Option ℕ) → Bool → ℕ → ℕ → Pipe → Written × Pipe
write_loop user killed zero i pi = (returned i, pi)
write_loop user killed (suc r) i pi =
    let more = λ (ch : ℕ). write_loop user killed r (i + 1) (put ch pi) in
    if not pi.readopen || killed
    then (failed, pi)
    else if pi.nwrite == add_uint pi.nread pipesize
    then (asleep i, pi)
    else elim (user i) [ none ↦ (returned i, pi) | some ch ↦ more ch ]

-- `while(i < n)` from `i = 0`
pub pipewrite : (ℕ → Option ℕ) → Bool → ℕ → Pipe → Written × Pipe
pipewrite user killed n pi = write_loop user killed (if is_negative n then 0 else n) 0 pi

-- How a run of `piperead` ends: it sleeps on `nread`; or it returns, with -1 or with the number of bytes
-- copied. All but `waiting` and a killed reader have woken the writers.
pub data Got : Type 0 where
  waiting : Got
  refused : Got
  got : ℕ → Got

-- The copy loop with `r` rounds left, from byte `i` on, with the bytes copied out. `accepts j ch` says
-- whether `copyout` of byte `j` succeeds.
pub read_loop : (ℕ → ℕ → Bool) → ℕ → ℕ → List ℕ → Pipe → Got × List ℕ × Pipe
read_loop accepts zero i out pi = (got i, out, pi)
read_loop accepts (suc r) i out pi =
    let ch = pi.buf (pi.nread % pipesize) in
    let rest =
      read_loop accepts r (i + 1) (out ++ (ch ∷ [])) (record pi { nread = add_uint pi.nread 1 }) in
    if pi.nread == pi.nwrite
    then (got i, out, pi)
    else if accepts i ch
    then rest
    else ((if i == 0 then refused else got i), out, pi)

pub piperead : (ℕ → ℕ → Bool) → Bool → ℕ → Pipe → Got × List ℕ × Pipe
piperead accepts killed n pi =
    if (pi.nread == pi.nwrite) && pi.writeopen
    then (if killed then (refused, [], pi) else (waiting, [], pi))
    else read_loop accepts (if is_negative n then 0 else n) 0 [] pi

-- The Bool says that both ends are closed and the page of the pipe is freed.
pub pipeclose : Bool → Pipe → Bool × Pipe
pipeclose writable pi =
    let pi' =
      if writable then record pi { writeopen = false } else record pi { readopen = false } in
    (not pi'.readopen && not pi'.writeopen, pi')

-- The pipe that `pipealloc` sets up in a fresh page.
pub fresh_pipe : (ℕ → ℕ) → Pipe
fresh_pipe buf = record { buf = buf; nread = 0; nwrite = 0; readopen = true; writeopen = true }
