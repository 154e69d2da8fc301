-- ===== src/Console/Reading.antt =====
-- `consoleread` against a description on the list of the bytes that are ready.
use xv6_extended.Base.{
  ℕ, zero, suc, ◌+◌, ◌%◌, ◌^◌, ◌<◌, ◌≡◌, ◌∙◌, refl, sym, ap, subst, Bool, true, false, not, List,
  [], ◌∷◌, ◌++◌, ◌==◌, ltb, if◌then◌else◌, arith, append-nil, append_assoc, is_negative,
}
use xv6_extended.Console.{
  input_buf_size, Cons, add_uint, sub_uint, ctrl, newline, Read, returned, refused, asleep,
  read_loop, consoleread,
}
use xv6_extended.Console.Ring.{window}
use xv6_extended.Console.Line.{ready, line, IsValid}

-- What a read of `n` bytes gives that has copied `i`: how it ends, the bytes that it copies, and those that stay
-- ready. A line is taken up to its newline. ^D ends a read, and stays for the next one if this one has
-- copied something. A byte that cannot be copied out is lost.
abbrev pub deliver : (ℕ → ℕ → Bool) → Bool → ℕ → ℕ → List ℕ → Read × List ℕ × List ℕ
deliver accepts killed zero i xs = (returned i, [], xs)
deliver accepts killed (suc n) i [] = ((if killed then refused else asleep i), [], [])
deliver accepts killed (suc n) i (c ∷ xs) =
    let rest = deliver accepts killed n (i + 1) xs in
    if c == ctrl 68
    then (returned i, [], if ltb 0 i then c ∷ xs else xs)
    else if not (accepts i c)
    then (returned i, [], xs)
    else if c == newline
    then (returned (i + 1), c ∷ [], xs)
    else (rest.0, c ∷ rest.1, rest.2)

-- A run that starts at `s` with `out` copied does what the description `d` says, and keeps the line that
-- is being typed.
pub record Delivers (s : Cons) (out : List ℕ) (d : Read × List ℕ × List ℕ)
    (res : Read × List ℕ × Cons) : Type 0 where
  pub valid : IsValid res.2
  pub same_line : line res.2 ≡ line s
  pub ends : res.0 ≡ d.0
  pub copied : res.1 ≡ out ++ d.1
  pub left : ready res.2 ≡ d.2

abbrev behind : Cons → Cons
behind s = record s { r = add_uint s.r 1 }

module _ (s : Cons) (v : IsValid s) (m : ℕ) (h : sub_uint s.w s.r ≡ suc m) where
  rest_size : m ≡ sub_uint s.w (add_uint s.r 1)
  rest_size = omega (arith, h, v.r_uint, v.w_uint)

  ready_next : ready s ≡ s.buf (s.r % input_buf_size) ∷ ready (behind s)
  ready_next =
      ap (window s.buf s.r) h
      ∙ ap (λ k. s.buf (s.r % input_buf_size) ∷ window s.buf (add_uint s.r 1) k) rest_size

  behind-IsValid : IsValid (behind s)
  behind-IsValid = record {
    r_uint = omega arith;
    w_uint = v.w_uint;
    e_uint = v.e_uint;
    order = omega (arith, h, v.r_uint, v.w_uint, v.e_uint, v.order, v.fits);
    fits = omega (arith, h, v.r_uint, v.w_uint, v.e_uint, v.order, v.fits);
    one_line = v.one_line;
  }

  -- A byte is there.
  byte-Delivers :
      (accepts : ℕ → ℕ → Bool) (killed : Bool) (n i : ℕ) (out : List ℕ)
      → let c = s.buf (s.r % input_buf_size) in
        Delivers
          (behind s)
          (out ++ (c ∷ []))
          (deliver accepts killed n (i + 1) (ready (behind s)))
          (read_loop accepts killed n (i + 1) (out ++ (c ∷ [])) (behind s))
        → Delivers s out
            (deliver accepts killed (suc n) i (c ∷ ready (behind s)))
            (read_loop accepts killed (suc n) i out s)
  unfolding read_loop
  byte-Delivers accepts killed n i out rest =
      let some_ready : (s.r == s.w) ≡ false = ground (arith, h) in
      rw some_ready (go (c == ctrl 68) (accepts i c) (c == newline) (ltb 0 i))
    where
      c : ℕ
      c = s.buf (s.r % input_buf_size)

      d : Read × List ℕ × List ℕ
      d = deliver accepts killed n (i + 1) (ready (behind s))

      more : Read × List ℕ × Cons
      more = read_loop accepts killed n (i + 1) (out ++ (c ∷ [])) (behind s)

      go :
          (eof taken nl copied : Bool)
          → Delivers s out
              (if eof
                then (returned i, [], if copied then c ∷ ready (behind s) else ready (behind s))
                else if not taken
                then (returned i, [], ready (behind s))
                else if nl
                then (returned (i + 1), c ∷ [], ready (behind s))
                else (d.0, c ∷ d.1, d.2))
              (if eof
                then (returned i, out, if copied then s else behind s)
                else if not taken
                then (returned i, out, behind s)
                else if nl
                then (returned (i + 1), out ++ (c ∷ []), behind s)
                else more)
      go true taken nl true = record {
        valid = v;
        same_line = refl;
        ends = refl;
        copied = sym (append-nil out);
        left = ready_next;
      }
      go true taken nl false = record {
        valid = behind-IsValid;
        same_line = refl;
        ends = refl;
        copied = sym (append-nil out);
        left = refl;
      }
      go false false nl copied = record {
        valid = behind-IsValid;
        same_line = refl;
        ends = refl;
        copied = sym (append-nil out);
        left = refl;
      }
      go false true true copied = record {
        valid = behind-IsValid;
        same_line = refl;
        ends = refl;
        copied = refl;
        left = refl;
      }
      go false true false copied = record {
        valid = rest.valid;
        same_line = rest.same_line;
        ends = rest.ends;
        copied = rest.copied ∙ append_assoc out (c ∷ []) d.1;
        left = rest.left;
      }

-- Nothing is ready.
empty-Delivers :
    (accepts : ℕ → ℕ → Bool) (killed : Bool) (n i : ℕ) (out : List ℕ) (s : Cons)
    → IsValid s
    → sub_uint s.w s.r ≡ 0
    → Delivers s out
        (deliver accepts killed (suc n) i [])
        (read_loop accepts killed (suc n) i out s)
unfolding read_loop
empty-Delivers accepts killed n i out s v h =
    let none_ready : (s.r == s.w) ≡ true = ground (arith, h, v.r_uint, v.w_uint) in
    rw none_ready (record {
      valid = v;
      same_line = refl;
      ends = refl;
      copied = sym (append-nil out);
      left = ap (window s.buf s.r) h;
    })

read_loop-Delivers :
    (accepts : ℕ → ℕ → Bool) (killed : Bool) (n i : ℕ) (out : List ℕ) (s : Cons)
    → IsValid s
    → Delivers s out (deliver accepts killed n i (ready s)) (read_loop accepts killed n i out s)
unfolding read_loop
read_loop-Delivers accepts killed zero i out s v = record {
  valid = v;
  same_line = refl;
  ends = refl;
  copied = sym (append-nil out);
  left = refl;
}
read_loop-Delivers accepts killed (suc n) i out s v =
    go (sub_uint s.w s.r) refl (λ t vt out. read_loop-Delivers accepts killed n (i + 1) out t vt)
  where
    go :
        (m : ℕ)
        → sub_uint s.w s.r ≡ m
        → ((t : Cons)
            → IsValid t
            → (out : List ℕ)
            → Delivers t out
                (deliver accepts killed n (i + 1) (ready t))
                (read_loop accepts killed n (i + 1) out t))
        → Delivers s out
            (deliver accepts killed (suc n) i (ready s))
            (read_loop accepts killed (suc n) i out s)
    go zero h rest =
        subst
          (λ xs.
            Delivers s out (deliver accepts killed (suc n) i xs)
              (read_loop accepts killed (suc n) i out s))
          (sym (ap (window s.buf s.r) h)) (empty-Delivers accepts killed n i out s v h)
    go (suc m) h rest =
        subst
          (λ xs.
            Delivers s out (deliver accepts killed (suc n) i xs)
              (read_loop accepts killed (suc n) i out s))
          (sym (ready_next s v m h))
          (byte-Delivers s v m h accepts killed n i out
            (rest (behind s) (behind-IsValid s v m h) (out ++ (s.buf (s.r % input_buf_size) ∷ []))))

-- A read of at most 2 ^ 31 - 1 bytes from a valid buffer copies out and leaves ready what the description
-- on the list of ready bytes says, keeps the line that is being typed, and leaves the buffer valid.
pub consoleread-Delivers :
    (accepts : ℕ → ℕ → Bool) (killed : Bool) (n : ℕ) (s : Cons)
    → IsValid s
    → n < 2 ^ 31
    → Delivers s [] (deliver accepts killed n 0 (ready s)) (consoleread accepts killed n s)
unfolding consoleread
consoleread-Delivers accepts killed n s v small =
    let pos : is_negative n ≡ false = ground (arith, small) in
    rw pos (read_loop-Delivers accepts killed n 0 [] s v)
