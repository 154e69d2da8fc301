-- ===== src/Pipe/Stream.antt =====
-- A pipe is a stream: what is read is what was written, in order, each byte once.
use xv6_extended.Base.{
  ℕ, zero, suc, ◌+◌, ◌%◌, ◌<◌, ◌≡◌, ◌≢◌, ◌⊎◌, ◌∙◌, refl, sym, ap, Bool, true, false, ◌&&◌, ◌||◌,
  not, Option, some, none, List, [], ◌∷◌, ◌++◌, ◌==◌, if◌then◌else◌, Bool-cases, Option-cases, inl,
  inr, arith, length, append-nil, append_assoc, is_negative,
}
use xv6_extended.Pipe.{
  pipesize, Pipe, add_uint, put, Written, returned, failed, asleep, write_loop, Got, waiting,
  refused, got, read_loop, piperead,
}
use xv6_extended.Pipe.Ring.{
  count, IsValid, contents, full_iff, empty_iff, put-IsValid, behind, take-IsValid,
}

-- The bytes of user memory from byte `i` on.
abbrev pub Copied : (ℕ → Option ℕ) → ℕ → List ℕ → Type 0
Copied user i [] = Unit
Copied user i (x ∷ xs) = (user i ≡ some x) × Copied user (i + 1) xs

-- Why the write loop ended, having sent `sent`, with `r` bytes to go from byte `i` on.
abbrev pub WriteEnd : (ℕ → Option ℕ) → Bool → ℕ → ℕ → List ℕ → Pipe → Written → Type 0
WriteEnd user killed i r sent pi (returned j) =
    (j ≡ i + length sent) × ((j ≡ i + r) ⊎ (user j ≡ none))
WriteEnd user killed i r sent pi (asleep j) =
    (j ≡ i + length sent) × (j < i + r) × (count pi ≡ pipesize)
WriteEnd user killed i r sent pi failed = (pi.readopen ≡ false) ⊎ (killed ≡ true)

-- What a run of the write loop does.
pub record Wrote (user : ℕ → Option ℕ) (killed : Bool) (i r : ℕ) (pi : Pipe) (out : Written × Pipe)
    : Type 0 where
  pub sent : List ℕ
  pub copied : Copied user i sent
  pub valid : IsValid out.1
  pub stored : contents out.1 ≡ contents pi ++ sent
  pub ended : WriteEnd user killed i r sent out.1 out.0

nothing-Wrote :
    (user : ℕ → Option ℕ) (killed : Bool) (i r : ℕ) (pi : Pipe) (w : Written)
    → IsValid pi
    → WriteEnd user killed i r [] pi w
    → Wrote user killed i r pi (w, pi)
nothing-Wrote user killed i r pi w v e = record {
  sent = [];
  copied = tt;
  valid = v;
  stored = sym (append-nil (contents pi));
  ended = e;
}

WriteEnd-next :
    (user : ℕ → Option ℕ) (killed : Bool) (i r ch : ℕ) (sent : List ℕ) (pi : Pipe) (w : Written)
    → WriteEnd user killed (i + 1) r sent pi w
    → WriteEnd user killed i (suc r) (ch ∷ sent) pi w
WriteEnd-next user killed i r ch sent pi (returned j) (e, inl all) =
    (omega (arith, e), inl (omega (arith, all)))
WriteEnd-next user killed i r ch sent pi (returned j) (e, inr stop) = (omega (arith, e), inr stop)
WriteEnd-next user killed i r ch sent pi (asleep j) (e, lt, full) =
    (omega (arith, e), omega (arith, lt), full)
WriteEnd-next user killed i r ch sent pi failed e = e

pub write_loop-Wrote :
    (user : ℕ → Option ℕ) (killed : Bool) (r i : ℕ) (pi : Pipe)
    → IsValid pi
    → Wrote user killed i r pi (write_loop user killed r i pi)
unfolding write_loop
write_loop-Wrote user killed zero i pi v =
    nothing-Wrote user killed i 0 pi (returned i) v (omega arith, inl (omega arith))
write_loop-Wrote user killed (suc r) i pi v = elim (Bool-cases (not pi.readopen || killed)) [
  | inl stop ↦ rw stop (nothing-Wrote user killed i (suc r) pi failed v (ground (arith, stop)))
  | inr alive ↦ elim (Bool-cases (pi.nwrite == add_uint pi.nread pipesize)) [
    | inl full ↦
        rw (alive, full)
          (nothing-Wrote user killed i (suc r) pi (asleep i) v
            (omega arith, omega arith, (full_iff pi v).0 full))
    | inr room ↦ elim (Option-cases (user i)) [
      | inl fault ↦
          rw (alive, room, fault)
            (nothing-Wrote user killed i (suc r) pi (returned i) v (omega arith, inr fault))
      | inr (ch, byte) ↦
          let less : count pi < pipesize = ground (arith, (full_iff pi v).1, v.fits, room) in
          let (v', stored) = put-IsValid pi v ch less in
          let rest = write_loop-Wrote user killed r (i + 1) (put ch pi) v' in
          rw (alive, room, byte)
            (record {
              sent = ch ∷ rest.sent;
              copied = (byte, rest.copied);
              valid = rest.valid;
              stored =
                  rest.stored
                  ∙ ap (λ l. l ++ rest.sent) stored
                  ∙ append_assoc (contents pi) (ch ∷ []) rest.sent;
              ended =
                  WriteEnd-next user killed i r ch rest.sent
                    (write_loop user killed r (i + 1) (put ch pi)).1 _ rest.ended;
            })
    ]
  ]
]

-- Why the copy loop of `piperead` ended, having taken `taken`, with `r` rounds left, at byte `i`.
abbrev pub ReadEnd : (ℕ → ℕ → Bool) → ℕ → ℕ → List ℕ → Pipe → Got → Type 0
ReadEnd accepts i r taken pi waiting = ⊥
ReadEnd accepts i r taken pi refused = (i ≡ 0) × (taken ≡ []) × (0 < count pi)
ReadEnd accepts i r taken pi (got j) =
    (j ≡ i + length taken)
    × ((j ≡ i + r) ⊎ ((count pi ≡ 0) ⊎ (accepts j (pi.buf (pi.nread % pipesize)) ≡ false)))

-- What a run of the copy loop does, with `out` copied before.
pub record Took (accepts : ℕ → ℕ → Bool) (i r : ℕ) (out : List ℕ) (pi : Pipe)
    (res : Got × List ℕ × Pipe) : Type 0 where
  pub taken : List ℕ
  pub copied : res.1 ≡ out ++ taken
  pub valid : IsValid res.2
  pub removed : contents pi ≡ taken ++ contents res.2
  pub same_ends : (res.2.readopen ≡ pi.readopen) × (res.2.writeopen ≡ pi.writeopen)
  pub ended : ReadEnd accepts i r taken res.2 res.0

nothing-Took :
    (accepts : ℕ → ℕ → Bool) (i r : ℕ) (out : List ℕ) (pi : Pipe) (g : Got)
    → IsValid pi
    → ReadEnd accepts i r [] pi g
    → Took accepts i r out pi (g, out, pi)
nothing-Took accepts i r out pi g v e = record {
  taken = [];
  copied = sym (append-nil out);
  valid = v;
  removed = refl;
  same_ends = (refl, refl);
  ended = e;
}

ReadEnd-next :
    (accepts : ℕ → ℕ → Bool) (i r ch : ℕ) (taken : List ℕ) (pi : Pipe) (g : Got)
    → ReadEnd accepts (i + 1) r taken pi g
    → ReadEnd accepts i (suc r) (ch ∷ taken) pi g
ReadEnd-next accepts i r ch taken pi waiting e = absurd e
ReadEnd-next accepts i r ch taken pi refused e = absurd (omega (arith, e.0))
ReadEnd-next accepts i r ch taken pi (got j) (e, inl all) =
    (omega (arith, e), inl (omega (arith, all)))
ReadEnd-next accepts i r ch taken pi (got j) (e, inr why) = (omega (arith, e), inr why)

pub read_loop-Took :
    (accepts : ℕ → ℕ → Bool) (r i : ℕ) (out : List ℕ) (pi : Pipe)
    → IsValid pi
    → Took accepts i r out pi (read_loop accepts r i out pi)
unfolding read_loop
read_loop-Took accepts zero i out pi v =
    nothing-Took accepts i 0 out pi (got i) v (omega arith, inl (omega arith))
read_loop-Took accepts (suc r) i out pi v = elim (Bool-cases (pi.nread == pi.nwrite)) [
  | inl empty ↦ rw empty (
      nothing-Took accepts i (suc r) out pi (got i) v
        (omega arith, inr (inl ((empty_iff pi v).0 empty))))
  | inr bytes ↦
      let ch : ℕ = pi.buf (pi.nread % pipesize) in
      let some_bytes : 0 < count pi = ground (arith, (empty_iff pi v).1, bytes) in
      elim (Bool-cases (accepts i ch)) [
        | inl fine ↦
            let (v', removed) = take-IsValid pi v some_bytes in
            let rest = read_loop-Took accepts r (i + 1) (out ++ (ch ∷ [])) (behind pi v) v' in
            rw (bytes, fine)
              (record {
                taken = ch ∷ rest.taken;
                copied = rest.copied ∙ append_assoc out (ch ∷ []) rest.taken;
                valid = rest.valid;
                removed = removed ∙ ap (λ l. ch ∷ l) rest.removed;
                same_ends = rest.same_ends;
                ended =
                    ReadEnd-next accepts i r ch rest.taken
                      (read_loop accepts r (i + 1) (out ++ (ch ∷ [])) (behind pi v)).2 _ rest.ended;
              })
        | inr fault ↦ elim (Bool-cases (i == 0)) [
          | inl first ↦
              rw (bytes, fault, first)
                (nothing-Took accepts i (suc r) out pi refused v
                  (ground (arith, first), refl, some_bytes))
          | inr later ↦
              rw (bytes, fault, later)
                (nothing-Took accepts i (suc r) out pi (got i) v (omega arith, inr (inr fault)))
        ]
      ]
]

-- A run of `piperead`: it sleeps only on an empty pipe that may still be written, it fails on a killed
-- process or a fault at the first byte, and else it takes bytes from the front.
pub piperead-Took :
    (accepts : ℕ → ℕ → Bool) (n : ℕ) (pi : Pipe)
    → IsValid pi
    → is_negative n ≡ false
    → (count pi ≢ 0) ⊎ (pi.writeopen ≡ false)
    → Took accepts 0 n [] pi (piperead accepts false n pi)
unfolding piperead
piperead-Took accepts n pi v pos ready =
    let awake : ((pi.nread == pi.nwrite) && pi.writeopen) ≡ false =
      ground (arith, ready, (empty_iff pi v).0) in
    rw (awake, pos) (read_loop-Took accepts n 0 [] pi v)

pub piperead_sleeps :
    (accepts : ℕ → ℕ → Bool) (killed : Bool) (n : ℕ) (pi : Pipe)
    → IsValid pi
    → count pi ≡ 0
    → pi.writeopen ≡ true
    → piperead accepts killed n pi ≡ ((if killed then refused else waiting), [], pi)
unfolding piperead
piperead_sleeps accepts killed n pi v empty open_end = ground (arith, (empty_iff pi v).1 empty)
