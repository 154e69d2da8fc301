-- ===== src/Pipe/History.antt =====
-- A pipe over any sequence of calls by its writers and readers, interrupted ones included.
use xv6_extended.Base.{ℕ, zero, suc, ◌+◌, ◌-◌, ◌≡◌, Bool, Option, some, none, List, [], ◌∷◌, ◌++◌}
use xv6_extended.Pipe.{Pipe, write_loop, Got, piperead}
use xv6_extended.Pipe.Ring.{count, IsValid, contents}

-- A call: a writer's loop, from byte `i` with `r` to go (first, or resumed after a sleep), or a reader's.
pub data Call : Type 0 where
  write : (user : ℕ → Option ℕ) (killed : Bool) (r i : ℕ) → Call
  read : (accepts : ℕ → ℕ → Bool) (killed : Bool) (n : ℕ) → Call

abbrev byte_at : Option ℕ → ℕ
byte_at none = 0
byte_at (some b) = b

-- The first `k` bytes of user memory from byte `i` on.
abbrev pub gather : (ℕ → Option ℕ) → ℕ → ℕ → List ℕ
gather user i zero = []
gather user i (suc k) = byte_at (user i) ∷ gather user (i + 1) k

-- What the writers have sent, by how far the pipe has filled, what the readers have got, and the pipe.
unfoldable pub run : List Call → Pipe → List ℕ × List ℕ × Pipe
run [] pi = ([], [], pi)
run (write user killed r i ∷ calls) pi =
    let pi' = (write_loop user killed r i pi).1 in
    let (sent, taken, end) = run calls pi' in
    (gather user i (count pi' - count pi) ++ sent, taken, end)
run (read accepts killed n ∷ calls) pi =
    let (_, out, pi') = piperead accepts killed n pi in
    let (sent, taken, end) = run calls pi' in (sent, out ++ taken, end)

-- What any run of `piperead` takes from the pipe.
record Passed (pi : Pipe) (res : Got × List ℕ × Pipe) : Type 0 where
  valid : IsValid res.2
  removed : contents pi ≡ res.1 ++ contents res.2
