-- ===== src/Bytes.antt =====
-- xv6-riscv/kernel/string.c: bytes and strings in memory. Memory is a function of the address; each
-- function returns the memory it leaves or the value it computes. A pointer is taken not to wrap.
pub mod Move
pub mod Text
mod Tests
use xv6_extended.Base.{
  ℕ, zero, suc, ◌+◌, ◌-◌, ◌%◌, ◌^◌, Bool, true, false, ◌&&◌, ◌||◌, not, Option, some, none, ◌==◌,
  ltb, if◌then◌else◌, is_negative,
}
use xv6_extended.Base.Family.{update}

abbrev pub Memory : Type 0
Memory = ℕ → ℕ

-- `for(i = 0; i < n; i++) cdst[i] = c;`, from byte `i` on with `r` rounds left.
unfoldable pub set_loop : ℕ → ℕ → ℕ → ℕ → Memory → Memory
set_loop zero i dst c m = m
set_loop (suc r) i dst c m = set_loop r (i + 1) dst c (update m (dst + i) (c % 256))

unfoldable pub memset : ℕ → ℕ → ℕ → Memory → Memory
memset dst c n m = set_loop n 0 dst c m

-- The difference of two uchars, as an int.
abbrev pub diff : ℕ → ℕ → ℕ
diff a b = (a + 2 ^ 32 - b) % 2 ^ 32

unfoldable pub memcmp : ℕ → ℕ → ℕ → Memory → ℕ
memcmp s1 s2 zero m = 0
memcmp s1 s2 (suc n) m =
    let rest = memcmp (s1 + 1) (s2 + 1) n m in if m s1 == m s2 then rest else diff (m s1) (m s2)

-- `while(n-- > 0) *d++ = *s++;`
unfoldable pub copy_up : ℕ → ℕ → ℕ → Memory → Memory
copy_up zero d s m = m
copy_up (suc n) d s m = copy_up n (d + 1) (s + 1) (update m d (m s))

-- `while(n-- > 0) *--d = *--s;`
unfoldable pub copy_down : ℕ → ℕ → ℕ → Memory → Memory
copy_down zero d s m = m
copy_down (suc n) d s m = copy_down n (d - 1) (s - 1) (update m (d - 1) (m (s - 1)))

unfoldable pub memmove : ℕ → ℕ → ℕ → Memory → Memory
memmove dst src n m =
    if n == 0
    then m
    else if ltb src dst && ltb dst (src + n)
    then copy_down n (dst + n) (src + n) m
    else copy_up n dst src m

unfoldable pub memcpy : ℕ → ℕ → ℕ → Memory → Memory
memcpy dst src n m = memmove dst src n m

unfoldable pub strncmp : ℕ → ℕ → ℕ → Memory → ℕ
strncmp p q zero m = 0
strncmp p q (suc n) m =
    let rest = strncmp (p + 1) (q + 1) n m in
    if not (m p == 0) && m p == m q then rest else diff (m p) (m q)

-- `while(n-- > 0) *s++ = 0;`
unfoldable pub zero_fill : ℕ → ℕ → Memory → Memory
zero_fill zero s m = m
zero_fill (suc n) s m = zero_fill n (s + 1) (update m s 0)

-- `strncpy` with `n` bytes to go.
unfoldable pub strncpy_loop : ℕ → ℕ → ℕ → Memory → Memory
strncpy_loop zero s t m = m
strncpy_loop (suc n) s t m =
    let more = strncpy_loop n (s + 1) (t + 1) (update m s (m t)) in
    if m t == 0 then zero_fill n (s + 1) (update m s (m t)) else more

unfoldable pub strncpy : ℕ → ℕ → ℕ → Memory → Memory
strncpy s t n m = strncpy_loop (if is_negative n then 0 else n) s t m

-- `while(--n > 0 && (*s++ = *t++) != 0); *s = 0;` with `n - 1` rounds left.
unfoldable pub safe_loop : ℕ → ℕ → ℕ → Memory → Memory
safe_loop zero s t m = update m s 0
safe_loop (suc r) s t m =
    let more = safe_loop r (s + 1) (t + 1) (update m s (m t)) in
    if m t == 0 then update (update m s (m t)) (s + 1) 0 else more

unfoldable pub safestrcpy : ℕ → ℕ → ℕ → Memory → Memory
safestrcpy s t n m = if is_negative n || n == 0 then m else safe_loop (n - 1) s t m

-- The loop of `strlen` on fuel; none means that the fuel ran out.
unfoldable pub strlen_loop : ℕ → ℕ → ℕ → Memory → Option ℕ
strlen_loop zero s n m = none
strlen_loop (suc fuel) s n m =
    let rest = strlen_loop fuel s (n + 1) m in if m (s + n) == 0 then some n else rest

unfoldable pub strlen : ℕ → ℕ → Memory → Option ℕ
strlen fuel s m = strlen_loop fuel s 0 m
