-- ===== src/Console.antt =====
-- xv6-riscv/kernel/console.c: the input buffer of the console and its line editing. A call runs under
-- `cons.lock`; `consoleread` is cut where it sleeps, and resumed by the same function.
pub mod Ring
pub mod Line
pub mod Editing
pub mod Reading
mod Tests
use xv6_extended.Base.{
  ℕ, zero, suc, ◌+◌, ◌-◌, ◌%◌, ◌^◌, Bool, true, false, ◌&&◌, ◌||◌, not, List, [], ◌∷◌, ◌++◌, ◌==◌,
  ltb, if◌then◌else◌, is_negative,
}
use xv6_extended.Base.Family.{update}

abbrev pub input_buf_size : ℕ
input_buf_size = 128

-- `cons`, less its lock. The indices are uints.
pub record Cons : Type 0 where
  pub buf : ℕ → ℕ
  pub r : ℕ
  pub w : ℕ
  pub e : ℕ

abbrev pub add_uint : ℕ → ℕ → ℕ
add_uint a b = (a + b) % 2 ^ 32

abbrev pub sub_uint : ℕ → ℕ → ℕ
sub_uint a b = (a + 2 ^ 32 - b) % 2 ^ 32

-- `#define C(x) ((x)-'@')`, and the other characters that are treated specially
abbrev pub ctrl : ℕ → ℕ
ctrl x = x - 64

abbrev pub backspace : ℕ
backspace = 0x100

abbrev pub newline : ℕ
newline = 10

-- The state and what `consputc` was called with, in order.
abbrev pub Echoed : Type 0
Echoed = Cons × List ℕ

-- The loop of ^U. It ends where `e` meets `w` at the latest, so `e - w` bounds its rounds.
unfoldable pub kill_line : ℕ → Cons → Echoed
kill_line zero s = (s, [])
kill_line (suc rounds) s =
    let rest = kill_line rounds (record s { e = sub_uint s.e 1 }) in
    if s.e == s.w || s.buf (sub_uint s.e 1 % input_buf_size) == newline
    then (s, [])
    else (rest.0, backspace ∷ rest.1)

abbrev pub erase : Cons → Echoed
erase s = if s.e == s.w then (s, []) else (record s { e = sub_uint s.e 1 }, backspace ∷ [])

-- `cons.buf[cons.e++ % INPUT_BUF_SIZE] = c`
abbrev pub store : ℕ → Cons → Cons
store c s = record s { buf = update s.buf (s.e % input_buf_size) (c % 256); e = add_uint s.e 1 }

-- The default case of `consoleintr`, for the character after the translation of '\r'. The Bool says that
-- `consoleread` is woken.
abbrev pub accept : ℕ → Cons → Cons × List ℕ × Bool
accept c s =
    let s' = store c s in
    if c == newline || c == ctrl 68 || sub_uint s'.e s'.r == input_buf_size
    then (record s' { w = s'.e }, c ∷ [], true)
    else (s', c ∷ [], false)

-- `consoleintr`, less the output of `procdump`.
unfoldable pub consoleintr : ℕ → Cons → Cons × List ℕ × Bool
consoleintr c s =
    let killed = kill_line (sub_uint s.e s.w) s in
    let erased = erase s in
    if c == ctrl 80
    then (s, [], false)
    else if c == ctrl 85
    then (killed.0, killed.1, false)
    else if c == ctrl 72 || c == 127
    then (erased.0, erased.1, false)
    else if not (c == 0) && ltb (sub_uint s.e s.r) input_buf_size
    then accept (if c == 13 then newline else c) s
    else (s, [], false)

-- How a run of `consoleread` ends: it returns the number of bytes copied, or -1 for a killed process; or
-- it sleeps, with that many bytes copied.
pub data Read : Type 0 where
  returned : ℕ → Read
  refused : Read
  asleep : ℕ → Read

-- The loop of `consoleread` with `n` bytes to go and `i` copied, with those copied out so far. `accepts j
-- ch` says whether `either_copyout` of byte `j` succeeds.
unfoldable pub read_loop : (ℕ → ℕ → Bool) → Bool → ℕ → ℕ → List ℕ → Cons → Read × List ℕ × Cons
read_loop accepts killed zero i out s = (returned i, out, s)
read_loop accepts killed (suc n) i out s =
    let c = s.buf (s.r % input_buf_size) in
    let s' = record s { r = add_uint s.r 1 } in
    let rest = read_loop accepts killed n (i + 1) (out ++ (c ∷ [])) s' in
    if s.r == s.w
    then ((if killed then refused else asleep i), out, s)
    else if c == ctrl 68
    then (returned i, out, if ltb 0 i then s else s')
    else if not (accepts i c)
    then (returned i, out, s')
    else if c == newline
    then (returned (i + 1), out ++ (c ∷ []), s')
    else rest

unfoldable pub consoleread : (ℕ → ℕ → Bool) → Bool → ℕ → Cons → Read × List ℕ × Cons
consoleread accepts killed n s = read_loop accepts killed (if is_negative n then 0 else n) 0 [] s
