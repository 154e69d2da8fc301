-- ===== src/Log.antt =====
-- xv6-riscv/kernel/log.c: the write-ahead log of the file system, over the buffer cache as bio.c
-- offers it (`bread`, `bwrite`, `bpin`, `bunpin`) and a disk that may lose power between two writes.
pub mod Redo
pub mod Install
pub mod Commit
pub mod Recovery
pub mod Append
pub mod Admission
mod Tests
use xv6_extended.Base.{
  ℕ, zero, suc, ◌+◌, ◌-◌, ◌*◌, ◌%◌, ◌^◌, Bool, true, false, ◌||◌, Option, some, none, ltb, leb,
  ◌==◌, if◌then◌else◌, Outcome, done, panic,
}
use xv6_extended.Base.Family.{update}

abbrev pub logblocks : ℕ
logblocks = 30

abbrev pub maxopblocks : ℕ
maxopblocks = 10

-- A disk block of BSIZE bytes, as its uint words: word `i` is at byte `4 * i`.
abbrev pub Block : Type 0
Block = ℕ → ℕ

-- `struct log`, with its header `lh`. There is one device, so `dev` is left out; `lock` brackets each
-- step below. The ints are bit patterns of 32 bits.
pub record Log : Type 0 where
  pub start : ℕ
  pub outstanding : ℕ
  pub committing : Bool
  pub n : ℕ
  pub block : ℕ → ℕ

-- The log with what it works on: the disk; the contents that `bread` gives for each block (those of
-- its buffer, or of the disk where no buffer holds it); the references that `bpin` has added; and the
-- number of block writes that the disk still makes before the power fails.
pub record System : Type 0 where
  pub log : Log
  pub disk : ℕ → Block
  pub cache : ℕ → Block
  pub pins : ℕ → ℕ
  pub power : ℕ

-- The rounds of `for (i = 0; i < n; i++)` at an int `n`.
abbrev pub rounds : ℕ → ℕ
rounds n = if leb (2 ^ 31) n then 0 else n

-- `for (tail = from; …; tail++)`, for as many rounds as the first argument says.
pub for_tail : ℕ → ℕ → (ℕ → System → System) → System → System
for_tail zero tail body s = s
for_tail (suc r) tail body s = for_tail r (tail + 1) body (body tail s)

-- Memory that is changed in a buffer got by `bread`.
abbrev pub fill_buf : ℕ → Block → System → System
fill_buf b v s = record s { cache = update s.cache b v }

-- `bwrite`: a block is written whole or not at all.
pub bwrite : ℕ → System → System
bwrite b s =
    if s.power == 0 then s else record s { disk = update s.disk b (s.cache b); power = s.power - 1 }

abbrev pub bpin : ℕ → System → System
bpin b s = record s { pins = update s.pins b (s.pins b + 1) }

abbrev pub bunpin : ℕ → System → System
bunpin b s = record s { pins = update s.pins b ((s.pins b + 2 ^ 32 - 1) % 2 ^ 32) }

-- A round of `install_trans`.
pub install_one : Bool → ℕ → System → System
install_one recovering tail s =
    let dst = s.log.block tail in
    let s' = bwrite dst (fill_buf dst (s.cache (s.log.start + tail + 1)) s) in
    if recovering then s' else bunpin dst s'

pub install_trans : Bool → System → System
install_trans recovering s = for_tail (rounds s.log.n) 0 (install_one recovering) s

pub read_head : System → System
read_head s =
    let hdr = s.cache s.log.start in
    let n = hdr 0 in
    record s {
      log = record (s.log) {
        n = n;
        block = λ i. if ltb i (rounds n) then hdr (i + 1) else s.log.block i;
      };
    }

-- The header block that `write_head` makes of the buffer's old contents.
abbrev pub header : Log → Block → Block
header l old w = if w == 0 then l.n else if leb w (rounds l.n) then l.block (w - 1) else old w

pub write_head : System → System
write_head s = bwrite s.log.start (fill_buf s.log.start (header s.log (s.cache s.log.start)) s)

abbrev pub clear : System → System
clear s = record s { log = record (s.log) { n = 0 } }

pub recover_from_log : System → System
recover_from_log s = write_head (clear (install_trans true (read_head s)))

-- `sizeof(struct logheader)` is 124, and BSIZE is 1024.
pub initlog : ℕ → System → Outcome System
initlog logstart s =
    if leb 1024 (4 + 4 * logblocks)
    then panic
    else done (recover_from_log (record s { log = record (s.log) { start = logstart } }))

-- A round of `write_log`.
pub log_one : ℕ → System → System
log_one tail s =
    let to = s.log.start + tail + 1 in bwrite to (fill_buf to (s.cache (s.log.block tail)) s)

pub write_log : System → System
write_log s = for_tail (rounds s.log.n) 0 log_one s

pub commit : System → System
commit s =
    if ltb 0 (rounds s.log.n)
    then write_head (clear (install_trans false (write_head (write_log s))))
    else s

-- One pass through the loop of `begin_op`; `none` means that the caller sleeps on the log and tries
-- again when it is woken.
pub begin_op : Log → Option Log
begin_op l =
    if l.committing
    then none
    else if ltb logblocks (l.n + (l.outstanding + 1) * maxopblocks)
    then none
    else some (record l { outstanding = l.outstanding + 1 })

-- `end_op` up to the first `release`: the log, and `do_commit`. Where it is false, the waiters on the
-- log have been woken.
pub end_op_enter : Log → Outcome (Log × Bool)
end_op_enter l =
    let left = (l.outstanding + 2 ^ 32 - 1) % 2 ^ 32 in
    if l.committing
    then panic
    else if left == 0
    then done (record l { outstanding = left; committing = true }, true)
    else done (record l { outstanding = left }, false)

-- The rest of `end_op` when `do_commit` is set; all waiters on the log have been woken.
pub end_op_commit : System → System
end_op_commit s = let s' = commit s in record s' { log = record (s'.log) { committing = false } }

pub end_op : System → Outcome System
end_op s = elim (end_op_enter s.log) [
  | panic ↦ panic
  | done (l, do_commit) ↦
      if do_commit then done (end_op_commit (record s { log = l })) else done (record s { log = l })
]

-- The index at which `log_write` leaves its loop, from `i` on.
pub absorb : ℕ → ℕ → (ℕ → ℕ) → ℕ → ℕ
absorb zero i block b = i
absorb (suc r) i block b = let rest = absorb r (i + 1) block b in if block i == b then i else rest

pub log_write : ℕ → System → Outcome System
log_write b s =
    if leb logblocks (rounds s.log.n)
    then panic
    else if (s.log.outstanding == 0) || leb (2 ^ 31) s.log.outstanding
    then panic
    else (let i = absorb (rounds s.log.n) 0 s.log.block b in
        let noted = record s { log = record (s.log) { block = update s.log.block i b } } in
        if i == rounds s.log.n
        then done (bpin b (record noted { log = record (noted.log) { n = s.log.n + 1 } }))
        else done noted)
