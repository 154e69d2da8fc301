-- ===== src/Console/Editing.antt =====
-- `consoleintr` against the description of line editing.
use xv6_extended.Base.{
  ℕ, ◌+◌, ◌%◌, ◌<◌, ◌≡◌, ◌≢◌, ◌∙◌, refl, sym, ap, ap₂, subst, Bool, true, false, ◌&&◌, ◌||◌, not,
  List, [], ◌∷◌, ◌++◌, ◌==◌, ltb, if◌then◌else◌, arith, All, length,
}
use xv6_extended.Base.Family.{update, update_self}
use xv6_extended.Console.{
  input_buf_size, Cons, add_uint, sub_uint, ctrl, newline, kill_line, erase, store, accept,
  consoleintr,
}
use xv6_extended.Console.Ring.{window, window-add, window_snoc, window-update}
use xv6_extended.Console.Line.{
  ready, line, IsValid, drop_last, typed, edit, Holds, All-snoc, kill-Holds, erase-Holds,
  total_length,
}

module _ (c : ℕ) (s : Cons) (v : IsValid s) (byte : c < 256)
    (room : sub_uint s.e s.r < input_buf_size) where
  stored_ready : window (store c s).buf s.r (sub_uint s.w s.r) ≡ ready s
  stored_ready =
      let at : add_uint s.r (sub_uint s.e s.r) ≡ s.e = omega (arith, v.r_uint, v.e_uint) in
      subst
        (λ e. window (update s.buf (e % input_buf_size) (c % 256)) s.r (sub_uint s.w s.r) ≡ ready s)
        at
        (window-update s.buf (c % 256) s.r (sub_uint s.w s.r) (sub_uint s.e s.r) v.r_uint v.order
          room)

  stored_size : sub_uint (add_uint s.e 1) s.w ≡ sub_uint s.e s.w + 1
  stored_size = omega (arith, v.r_uint, v.w_uint, v.e_uint, v.order, room)

  stored_total : sub_uint (add_uint s.e 1) s.r ≡ sub_uint s.e s.r + 1
  stored_total = omega (arith, v.r_uint, v.w_uint, v.e_uint, room)

  stored_line : window (store c s).buf s.w (sub_uint (store c s).e s.w) ≡ line s ++ (c ∷ [])
  stored_line =
      let n : ℕ = sub_uint s.e s.w in
      let at : add_uint s.w n ≡ s.e = omega (arith, v.w_uint, v.e_uint) in
      let small : n < input_buf_size = omega (arith, v.r_uint, v.w_uint, v.e_uint, v.order, room) in
      let kept : window (store c s).buf s.w n ≡ line s =
        subst (λ e. window (update s.buf (e % input_buf_size) (c % 256)) s.w n ≡ line s) at
          (window-update s.buf (c % 256) s.w n n v.w_uint (omega arith) small) in
      let here : (store c s).buf (add_uint s.w n % input_buf_size) ≡ c =
        ap (λ e. (store c s).buf (e % input_buf_size)) at
        ∙ update_self s.buf (s.e % input_buf_size) (c % 256)
        ∙ omega arith in
      ap (window (store c s).buf s.w) stored_size
      ∙ window_snoc (store c s).buf s.w n v.w_uint
      ∙ ap₂ (λ l ch. l ++ (ch ∷ [])) kept here

  store-Holds : c ≢ newline → Holds (store c s) (ready s, line s ++ (c ∷ []))
  store-Holds other = record {
    valid = record {
      r_uint = v.r_uint;
      w_uint = v.w_uint;
      e_uint = omega arith;
      order = omega (arith, stored_total, v.order);
      fits = omega (arith, stored_total, room);
      one_line =
          subst (All (λ ch. ch ≢ newline)) (sym stored_line)
            (All-snoc (λ ch. ch ≢ newline) (line s) c v.one_line other);
    };
    is_ready = stored_ready;
    is_line = stored_line;
  }

  commit-Holds :
      Holds (record (store c s) { w = add_uint s.e 1 }) (ready s ++ (line s ++ (c ∷ [])), [])
  commit-Holds =
      let a : ℕ = sub_uint s.w s.r in
      let n : ℕ = sub_uint (add_uint s.e 1) s.w in
      let total : sub_uint (add_uint s.e 1) s.r ≡ a + n =
        omega (arith, stored_total, stored_size, v.r_uint, v.w_uint, v.e_uint, v.order, room) in
      let at : add_uint s.r a ≡ s.w = omega (arith, v.r_uint, v.w_uint) in
      let none : 0 ≡ sub_uint (add_uint s.e 1) (add_uint s.e 1) = omega arith in
      record {
        valid = record {
          r_uint = v.r_uint;
          w_uint = omega arith;
          e_uint = omega arith;
          order = omega arith;
          fits = omega (arith, stored_total, room);
          one_line =
              subst (λ k. All (λ ch. ch ≢ newline) (window (store c s).buf (add_uint s.e 1) k)) none
                tt;
        };
        is_ready =
            ap (window (store c s).buf s.r) total
            ∙ window-add (store c s).buf s.r a n v.r_uint
            ∙ ap₂ ◌++◌ stored_ready (ap (λ k. window (store c s).buf k n) at ∙ stored_line);
        is_line = ap (window (store c s).buf (add_uint s.e 1)) (sym none);
      }

  accept-Holds : Holds (accept c s).0 (typed c (ready s) (line s))
  accept-Holds =
      let full : (sub_uint (add_uint s.e 1) s.r == input_buf_size)
          ≡ (length (ready s) + length (line s) + 1 == input_buf_size) =
        ap (λ k. k == input_buf_size) (stored_total ∙ ap (λ k. k + 1) (sym (total_length s v))) in
      go (c == newline) (c == ctrl 68) (sub_uint (add_uint s.e 1) s.r == input_buf_size)
        (length (ready s) + length (line s) + 1 == input_buf_size) full (λ e. ground (arith, e))
    where
      go :
          (nl eof full full' : Bool)
          → full ≡ full'
          → (nl ≡ false → c ≢ newline)
          → Holds
              (if◌then◌else◌ {A = Cons × List ℕ × Bool}
                (nl || eof || full)
                (record (store c s) { w = add_uint s.e 1 }, c ∷ [], true)
                (store c s, c ∷ [], false)).0
              (if nl || eof || full'
                then (ready s ++ (line s ++ (c ∷ [])), [])
                else (ready s, line s ++ (c ∷ [])))
      go true eof full full' e other = commit-Holds
      go false true full full' e other = commit-Holds
      go false false true full' e other = rw⁻¹ e commit-Holds
      go false false false full' e other = rw⁻¹ e (store-Holds (other refl))

-- A character at the console does what the description of line editing says: ^U empties the line that is
-- being typed, backspace takes its last byte, any other character but NUL goes to its end if the buffer
-- has room, and a newline, ^D or a full buffer then makes the line ready; the buffer stays valid.
pub consoleintr-Holds :
    (c : ℕ) (s : Cons) → IsValid s → c < 256 → Holds (consoleintr c s).0 (edit c (ready s) (line s))
unfolding consoleintr
consoleintr-Holds c s v byte =
    go (c == ctrl 80) (c == ctrl 85) (c == ctrl 72 || c == 127) (not (c == 0))
      (ltb (sub_uint s.e s.r) input_buf_size)
      (ltb (length (ready s) + length (line s)) input_buf_size)
      (ap (λ k. ltb k input_buf_size) (sym (total_length s v))) (λ h. ground (arith, h))
  where
    c' : ℕ
    c' = if c == 13 then newline else c

    same : Holds s (ready s, line s)
    same = record { valid = v; is_ready = refl; is_line = refl }

    go :
        (dump kill rub some_char room room' : Bool)
        → room ≡ room'
        → (room ≡ true → sub_uint s.e s.r < input_buf_size)
        → Holds
            (if◌then◌else◌ {A = Cons × List ℕ × Bool} dump
              (s, [], false)
              (if◌then◌else◌ {A = Cons × List ℕ × Bool} kill
                ((kill_line (sub_uint s.e s.w) s).0, (kill_line (sub_uint s.e s.w) s).1, false)
                (if◌then◌else◌ {A = Cons × List ℕ × Bool} rub
                  ((erase s).0, (erase s).1, false)
                  (if◌then◌else◌ {A = Cons × List ℕ × Bool}
                    (some_char && room)
                    (accept c' s)
                    (s, [], false))))).0
            (if dump
              then (ready s, line s)
              else if kill
              then (ready s, [])
              else if rub
              then (ready s, drop_last (line s))
              else if some_char && room'
              then typed c' (ready s) (line s)
              else (ready s, line s))
    go true kill rub some_char room room' e less = same
    go false true rub some_char room room' e less = kill-Holds s v
    go false false true some_char room room' e less = erase-Holds s v
    go false false false false room room' e less = same
    go false false false true true room' e less =
        rw⁻¹ e (accept-Holds c' s v (ground (arith, byte)) (less refl))
    go false false false true false room' e less = rw⁻¹ e same
