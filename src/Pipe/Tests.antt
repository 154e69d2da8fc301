-- ===== src/Pipe/Tests.antt =====
-- The pipe at concrete states.
use xv6_extended.Base.{
  ℕ, ◌+◌, ◌-◌, ◌^◌, ◌≡◌, refl, inl, Bool, true, false, Option, some, none, [], ◌∷◌, arith, ltb,
  if◌then◌else◌,
}
use xv6_extended.Pipe.{
  Pipe, put, returned, write_loop, pipewrite, read_loop, piperead, pipeclose, fresh_pipe,
}
use xv6_extended.Pipe.Ring.{IsValid}
use xv6_extended.Pipe.Stream.{Took, piperead-Took}
use xv6_extended.Pipe.History.{write, read, run}

-- User memory that holds the byte `65 + i` at byte `i`, for four bytes.
abbrev letters : ℕ → Option ℕ
letters i = if ltb i 4 then some (65 + i) else none

abbrev accept_all : ℕ → ℕ → Bool
accept_all i ch = true

-- The counters are about to wrap.
abbrev late : Pipe
late = record {
  buf = λ _. 9;
  nread = 2 ^ 32 - 2;
  nwrite = 2 ^ 32 - 1;
  readopen = true;
  writeopen = true;
}

late-IsValid : IsValid late
late-IsValid = omega arith

-- Two bytes go in across the wrap, and three come out.
wraps : (run (write letters false 2 0 ∷ read accept_all false 10 ∷ []) late).1 ≡ 9 ∷ 65 ∷ 66 ∷ []
unfolding run write_loop put piperead read_loop
wraps = refl

-- A fault in user memory ends a write short.
short_write : (pipewrite letters false 10 (fresh_pipe (λ _. 0))).0 ≡ returned 4
unfolding pipewrite write_loop put fresh_pipe
short_write = refl

closes : (pipeclose true (pipeclose false late).1).0 ≡ true
unfolding pipeclose
closes = refl

piperead-Took_example : Took accept_all 0 3 [] late (piperead accept_all false 3 late)
piperead-Took_example = piperead-Took accept_all 3 late late-IsValid refl (inl (omega arith))
