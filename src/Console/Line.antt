-- ===== src/Console/Line.antt =====
-- The line that is typed: what it is in the buffer, a description of line editing, and ^U and backspace.
use xv6_extended.Base.{
  ℕ, zero, suc, ◌+◌, ◌%◌, ◌^◌, ◌≤◌, ◌<◌, ◌≡◌, ◌≢◌, ◌∙◌, refl, sym, ap, subst, true, false, ◌&&◌,
  ◌||◌, not, List, [], ◌∷◌, ◌++◌, ◌==◌, ltb, if◌then◌else◌, arith, All, length,
}
use xv6_extended.Console.{input_buf_size, Cons, add_uint, sub_uint, ctrl, newline, kill_line, erase}
use xv6_extended.Console.Ring.{window, window_snoc}

-- The bytes that `consoleread` can take.
abbrev pub ready : Cons → List ℕ
ready s = window s.buf s.r (sub_uint s.w s.r)

-- The line that is being typed.
abbrev pub line : Cons → List ℕ
line s = window s.buf s.w (sub_uint s.e s.w)

pub record IsValid (s : Cons) : Type 0 where
  pub r_uint : s.r < 2 ^ 32
  pub w_uint : s.w < 2 ^ 32
  pub e_uint : s.e < 2 ^ 32
  pub order : sub_uint s.w s.r ≤ sub_uint s.e s.r
  pub fits : sub_uint s.e s.r ≤ input_buf_size
  pub one_line : All (λ ch. ch ≢ newline) (line s)

abbrev drop_last_from : ℕ → List ℕ → List ℕ
drop_last_from x [] = []
drop_last_from x (y ∷ ys) = x ∷ drop_last_from y ys

abbrev pub drop_last : List ℕ → List ℕ
drop_last [] = []
drop_last (x ∷ xs) = drop_last_from x xs

-- A character is typed, with room for it.
abbrev pub typed : ℕ → List ℕ → List ℕ → List ℕ × List ℕ
typed c before now =
    if c == newline || c == ctrl 68 || length before + length now + 1 == input_buf_size
    then (before ++ (now ++ (c ∷ [])), [])
    else (before, now ++ (c ∷ []))

-- What a character does to the bytes that are ready and to the line.
abbrev pub edit : ℕ → List ℕ → List ℕ → List ℕ × List ℕ
edit c before now =
    if c == ctrl 80
    then (before, now)
    else if c == ctrl 85
    then (before, [])
    else if c == ctrl 72 || c == 127
    then (before, drop_last now)
    else if not (c == 0) && ltb (length before + length now) input_buf_size
    then typed (if c == 13 then newline else c) before now
    else (before, now)

-- The state holds these bytes.
pub record Holds (s : Cons) (both : List ℕ × List ℕ) : Type 0 where
  pub valid : IsValid s
  pub is_ready : ready s ≡ both.0
  pub is_line : line s ≡ both.1

pub length-window : (buf : ℕ → ℕ) (k n : ℕ) → length (window buf k n) ≡ n
length-window buf k zero = refl
length-window buf k (suc n) = ap suc (length-window buf (add_uint k 1) n)

All-init : (P : ℕ → Type 0) (xs : List ℕ) (x : ℕ) → All P (xs ++ (x ∷ [])) → All P xs × P x
All-init P [] x h = (tt, h.0)
All-init P (y ∷ ys) x h = let r = All-init P ys x h.1 in ((h.0, r.0), r.1)

pub All-snoc : (P : ℕ → Type 0) (xs : List ℕ) (x : ℕ) → All P xs → P x → All P (xs ++ (x ∷ []))
All-snoc P [] x h p = (p, tt)
All-snoc P (y ∷ ys) x h p = (h.0, All-snoc P ys x h.1 p)

pub drop_last_snoc : (xs : List ℕ) (x : ℕ) → drop_last (xs ++ (x ∷ [])) ≡ xs
drop_last_snoc [] x = refl
drop_last_snoc (y ∷ ys) x = go y ys
  where
    go : (y : ℕ) (ys : List ℕ) → drop_last_from y (ys ++ (x ∷ [])) ≡ y ∷ ys
    go y [] = refl
    go y (z ∷ zs) = ap (λ l. y ∷ l) (go z zs)

-- The last byte of a line that is not empty.
line_last :
    (s : Cons) (n : ℕ)
    → s.w < 2 ^ 32
    → s.e < 2 ^ 32
    → sub_uint s.e s.w ≡ suc n
    → window s.buf s.w (suc n)
      ≡ window s.buf s.w n ++ (s.buf (sub_uint s.e 1 % input_buf_size) ∷ [])
line_last s n hw he h =
    let at : add_uint s.w n ≡ sub_uint s.e 1 = omega (arith, h) in
    let more : suc n ≡ n + 1 = omega arith in
    ap (window s.buf s.w) more
    ∙ window_snoc s.buf s.w n hw
    ∙ ap (λ k. window s.buf s.w n ++ (s.buf (k % input_buf_size) ∷ [])) at

kill_line_lem :
    (n : ℕ) (s : Cons)
    → s.w < 2 ^ 32
    → s.e < 2 ^ 32
    → sub_uint s.e s.w ≡ n
    → All (λ ch. ch ≢ newline) (window s.buf s.w n)
    → (kill_line n s).0 ≡ record s { e = s.w }
unfolding kill_line
kill_line_lem zero s hw he h plain = ap (λ e. record s { e = e }) (omega (arith, h))
kill_line_lem (suc n) s hw he h plain =
    let last =
      All-init (λ ch. ch ≢ newline) (window s.buf s.w n) (s.buf (sub_uint s.e 1 % input_buf_size))
        (subst (All (λ ch. ch ≢ newline)) (line_last s n hw he h) plain) in
    let go_on : (s.e == s.w || s.buf (sub_uint s.e 1 % input_buf_size) == newline) ≡ false =
      ground (arith, h, last.1) in
    rw go_on
      (kill_line_lem n (record s { e = sub_uint s.e 1 }) hw (omega arith) (omega (arith, h)) last.0)

module _ (s : Cons) (v : IsValid s) where
  pub kill-Holds : Holds (kill_line (sub_uint s.e s.w) s).0 (ready s, [])
  kill-Holds =
      let e = kill_line_lem (sub_uint s.e s.w) s v.w_uint v.e_uint refl v.one_line in
      let none : 0 ≡ sub_uint s.w s.w = omega (arith, v.w_uint) in
      subst (λ t. Holds t (ready s, [])) (sym e)
        (record {
          valid = record {
            r_uint = v.r_uint;
            w_uint = v.w_uint;
            e_uint = v.w_uint;
            order = omega arith;
            fits = omega (arith, v.order, v.fits);
            one_line = subst (λ n. All (λ ch. ch ≢ newline) (window s.buf s.w n)) none tt;
          };
          is_ready = refl;
          is_line = ap (window s.buf s.w) (sym none);
        })

  erased-Holds :
      (n : ℕ)
      → sub_uint s.e s.w ≡ suc n
      → Holds (record s { e = sub_uint s.e 1 }) (ready s, drop_last (line s))
  erased-Holds n h =
      let last = line_last s n v.w_uint v.e_uint h in
      let size : n ≡ sub_uint (sub_uint s.e 1) s.w = omega (arith, h, v.e_uint, v.w_uint) in
      let whole : line s ≡ window s.buf s.w n ++ (s.buf (sub_uint s.e 1 % input_buf_size) ∷ []) =
        ap (window s.buf s.w) h ∙ last in
      record {
        valid = record {
          r_uint = v.r_uint;
          w_uint = v.w_uint;
          e_uint = omega arith;
          order = omega (arith, h, v.order, v.fits, v.r_uint, v.w_uint, v.e_uint);
          fits = omega (arith, h, v.order, v.fits, v.r_uint, v.w_uint, v.e_uint);
          one_line =
              subst (λ m. All (λ ch. ch ≢ newline) (window s.buf s.w m)) size
                (All-init (λ ch. ch ≢ newline) (window s.buf s.w n)
                  (s.buf (sub_uint s.e 1 % input_buf_size))
                  (subst (All (λ ch. ch ≢ newline)) whole v.one_line)).0;
        };
        is_ready = refl;
        is_line =
            ap (window s.buf s.w) (sym size)
            ∙ sym (
                ap drop_last whole
                ∙ drop_last_snoc (window s.buf s.w n) (s.buf (sub_uint s.e 1 % input_buf_size)));
      }

  pub total_length : length (ready s) + length (line s) ≡ sub_uint s.e s.r
  total_length =
      let a = length-window s.buf s.r (sub_uint s.w s.r) in
      let b = length-window s.buf s.w (sub_uint s.e s.w) in
      omega (arith, a, b, v.r_uint, v.w_uint, v.e_uint, v.order, v.fits)

  pub erase-Holds : Holds (erase s).0 (ready s, drop_last (line s))
  erase-Holds = go (sub_uint s.e s.w) refl
    where
      go : (n : ℕ) → sub_uint s.e s.w ≡ n → Holds (erase s).0 (ready s, drop_last (line s))
      go zero h =
          let same : (s.e == s.w) ≡ true = ground (arith, h, v.e_uint, v.w_uint) in
          let empty : line s ≡ [] = ap (window s.buf s.w) h in
          rw same
            (record { valid = v; is_ready = refl; is_line = empty ∙ sym (ap drop_last empty) })
      go (suc n) h =
          let differ : (s.e == s.w) ≡ false = ground (arith, h) in rw differ (erased-Holds n h)
