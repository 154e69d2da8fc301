-- ===== src/Proc/Channel/Wakeup.antt =====
-- What `wakeup` and `kkill` do to each entry of the table.
use xv6_extended.Base.{
  ℕ, zero, suc, ◌+◌, ◌≡◌, ◌≢◌, refl, Bool, true, false, ◌&&◌, Option, some, none, List, [], ◌∷◌,
  ◌++◌, All, if◌then◌else◌, Bool-cases, inl, inr, arith, subst, ◌==◌, get_elem?,
}
use xv6_extended.Proc.{Proc, State, is_sleeping}
use xv6_extended.Proc.Channel.{is_slot, wake_one, wakeup_from, wakeup}

-- `p` sleeps on the channel.
abbrev pub on_channel : ℕ → Proc → Bool
on_channel chan p = is_sleeping p.state && p.chan == chan

-- The entry `q` that `wakeup` leaves for the entry `p`; `mine` marks the caller's own entry.
pub record Woken (mine : Bool) (chan : ℕ) (p q : Proc) : Type 0 where
  pub caller : mine ≡ true → q ≡ p
  pub others : mine ≡ false → on_channel chan p ≡ false → q ≡ p
  pub sleepers :
      mine ≡ false
      → on_channel chan p ≡ true
      → q ≡ record p { state = State.runnable; priority = 0; ticks_used = 0 }
  pub none_left : mine ≡ false → on_channel chan q ≡ false

wake_one-Woken :
    (mine : Bool) (chan : ℕ) (p : Proc) → Woken mine chan p (if mine then p else wake_one chan p)
unfolding wake_one
wake_one-Woken true chan p = record {
  caller = λ e. refl;
  others = λ e h. cc;
  sleepers = λ e h. cc;
  none_left = λ e. cc;
}
wake_one-Woken false chan p = elim (Bool-cases (is_sleeping p.state && p.chan == chan)) [
  | inl on ↦ rw on (record {
    caller = λ e. cc;
    others = λ e h. cc;
    sleepers = λ e h. refl;
    none_left = λ e. refl;
  })
  | inr off ↦ rw off (record {
    caller = λ e. cc;
    others = λ e h. refl;
    sleepers = λ e h. cc;
    none_left = λ e. off;
  })
]

wakeup_from-Woken :
    (me : Option ℕ) (chan i k : ℕ) (ps : List Proc) (p : Proc)
    → get_elem? ps k ≡ some p
    → (q : Proc) × (get_elem? (wakeup_from me chan i ps) k ≡ some q)
      × Woken (is_slot me (i + k)) chan p q
unfolding wakeup_from
wakeup_from-Woken me chan i k [] p e = absurd (ground (arith, e))
wakeup_from-Woken me chan i zero (p' ∷ ps) p e =
    let here : i ≡ i + 0 = omega arith in
    let same : p' ≡ p = ground (arith, e) in
    (
      _,
      refl,
      subst (λ a. Woken (is_slot me (i + 0)) chan a (if is_slot me i then p' else wake_one chan p'))
          same
          (subst (λ j. Woken (is_slot me j) chan p' (if is_slot me i then p' else wake_one chan p'))
            here (wake_one-Woken (is_slot me i) chan p')),
    )
wakeup_from-Woken me chan i (suc k) (p' ∷ ps) p e =
    let (q, at, w) = wakeup_from-Woken me chan (suc i) k ps p e in
    let slot : suc i + k ≡ i + suc k = omega arith in
    (q, at, subst (λ j. Woken (is_slot me j) chan p q) slot w)

-- `wakeup` makes every process that sleeps on the channel runnable at the highest level, leaves every
-- other entry and the caller's own as it was, and leaves no other process asleep on the channel.
pub wakeup-Woken :
    (me : Option ℕ) (chan k : ℕ) (ps : List Proc) (p : Proc)
    → get_elem? ps k ≡ some p
    → (q : Proc) × (get_elem? (wakeup me chan ps) k ≡ some q) × Woken (is_slot me k) chan p q
unfolding wakeup
wakeup-Woken me chan k ps p e =
    let (q, at, w) = wakeup_from-Woken me chan 0 k ps p e in
    let slot : 0 + k ≡ k = omega arith in (q, at, subst (λ j. Woken (is_slot me j) chan p q) slot w)

-- What `kkill` returns: the first process with the pid is marked and does not sleep on; or there is
-- none with the pid.
pub data Killed (pid : ℕ) (ps : List Proc) (r : Option (List Proc)) : Type 0 where
  missing : r ≡ none → All (λ p. p.pid ≢ pid) ps → Killed pid ps r
  marked :
      (before after : List Proc) (p q : Proc)
      → ps ≡ before ++ (p ∷ after)
      → r ≡ some (before ++ (q ∷ after))
      → All (λ p. p.pid ≢ pid) before
      → p.pid ≡ pid
      → q.pid ≡ pid
      → q.killed ≡ true
      → is_sleeping q.state ≡ false
      → (is_sleeping p.state ≡ false → q ≡ record p { killed = true })
      → Killed pid ps r
