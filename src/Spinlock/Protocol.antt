-- ===== src/Spinlock/Protocol.antt =====
-- What holds of the processors and the lock between two steps.
use xv6_extended.Base.{
  ℕ, ◌+◌, ◌-◌, ◌≡◌, ◌≢◌, ◌∙◌, refl, sym, ap, Bool, true, false, ◌&&◌, Option, some, none, ◌==◌, ltb,
  if◌then◌else◌, arith, done, panic,
}
use xv6_extended.Base.Family.{update}
use xv6_extended.Spinlock.{
  Cpu, pop_off, Pc, outside, check_locked, check_cpu, spin, note, inside, recheck_locked,
  recheck_cpu, clear, unlock, pop, panicked, Spin, is_owner,
}

-- From the swap that took the lock to the store that frees it.
abbrev pub owns : Pc → Bool
owns note = true
owns inside = true
owns recheck_locked = true
owns recheck_cpu = true
owns clear = true
owns unlock = true
owns _ = false

-- While `lk->cpu` is set.
abbrev pub is_named : Pc → Bool
is_named inside = true
is_named recheck_locked = true
is_named recheck_cpu = true
is_named clear = true
is_named _ = false

-- Between `push_off` and `pop_off` of a processor that was `k` before.
abbrev pub Pushed : Cpu → Cpu → Type 0
Pushed k now =
    (now.noff ≡ k.noff + 1)
    × (now.intr ≡ false)
    × ((k.noff ≡ 0 → now.intena ≡ k.intr) × (k.noff ≢ 0 → k.intr ≡ false))

-- The counter and the interrupts of a processor that was `k` at first. No processor is in `panic`.
abbrev pub Counted : Cpu → Pc → Cpu → Type 0
Counted k outside now = (now.noff ≡ k.noff) × (now.intr ≡ k.intr) × (k.noff ≢ 0 → k.intr ≡ false)
Counted k panicked now = ⊥
Counted k _ now = Pushed k now

pub record IsValid (start : ℕ → Cpu) (s : Spin) : Type 0 where
  pub one : (c d : ℕ) → owns (s.pc c) ≡ true → owns (s.pc d) ≡ true → c ≡ d
  pub held : (c : ℕ) → owns (s.pc c) ≡ true → s.locked ≡ true
  pub noted : (c : ℕ) → is_named (s.pc c) ≡ true → s.owner ≡ some c
  pub real : (c : ℕ) → s.owner ≡ some c → is_named (s.pc c) ≡ true
  pub counted : (c : ℕ) → Counted (start c) (s.pc c) (s.cpu c)

-- A property of each processor after one of them has moved.
pub by_cpu :
    (P : ℕ → Pc → Type 0) (pc : ℕ → Pc) (c d : ℕ) (q : Pc)
    → (c ≡ d → P d q)
    → (c ≢ d → P d (pc d))
    → P d (update pc c q d)
by_cpu P pc c d q here there = go (c == d) (λ e. ground (arith, e)) (λ e. ground (arith, e))
  where
    go : (b : Bool) → (b ≡ true → c ≡ d) → (b ≡ false → c ≢ d) → P d (if b then q else pc d)
    go true same other = here (same refl)
    go false same other = there (other refl)

-- A test that does not tell the new place of the processor from the old one.
pub keep :
    (f : Pc → Bool) (pc : ℕ → Pc) (c : ℕ) (q : Pc)
    → f q ≡ f (pc c)
    → (d : ℕ) → f (update pc c q d) ≡ f (pc d)
keep f pc c q h d =
    by_cpu (λ d p. f p ≡ f (pc d)) pc c d q (λ e. h ∙ ap (λ k. f (pc k)) e) (λ _. refl)

pub absurd_bool : true ≡ false → ⊥
absurd_bool h = cc h

value_or : Option ℕ → ℕ
value_or none = 0
value_or (some c) = c

pub some-injective : {c d : ℕ} → some c ≡ some d → c ≡ d
unfolding value_or
some-injective h = ap value_or h

pub is_owner-true : (o : Option ℕ) (c : ℕ) → is_owner o c ≡ true → o ≡ some c
is_owner-true none c h = cc h
is_owner-true (some d) c h = ap some (ground (arith, h))

-- A processor that is named owns the lock.
pub named_owns : (p : Pc) → is_named p ≡ true → owns p ≡ true
named_owns inside h = refl
named_owns recheck_locked h = refl
named_owns recheck_cpu h = refl
named_owns clear h = refl
named_owns outside h = cc h
named_owns check_locked h = cc h
named_owns check_cpu h = cc h
named_owns spin h = cc h
named_owns note h = cc h
named_owns unlock h = cc h
named_owns pop h = cc h
named_owns panicked h = cc h

pub empty_stack :
    (k : Cpu) (b : Bool) → k.noff ≡ 0 → k.intr ≡ b → (if k.noff == 0 then k.intr else k.intena) ≡ b
empty_stack k b z e = ap (λ n. if n == 0 then k.intr else k.intena) z ∙ e

restored :
    (last intena now before : Bool)
    → now ≡ false
    → (last ≡ true → intena ≡ before)
    → (last ≡ false → before ≡ false)
    → (if last && intena then true else now) ≡ before
restored true true now before off base nested = base refl
restored true false now before off base nested = off ∙ base refl
restored false intena now before off base nested = off ∙ sym (nested refl)

-- `pop_off` undoes `push_off`.
pub pop_off-Counted :
    (k now : Cpu)
    → Pushed k now
    → (after : Cpu) × ((pop_off now ≡ done after) × Counted k outside after)
unfolding pop_off
pop_off-Counted k now (n, off, (base, nested)) =
    let some_pushed : ltb now.noff 1 ≡ false = ground (arith, n) in
    (
      record now {
        noff = now.noff - 1;
        intr = if now.noff - 1 == 0 && now.intena then true else now.intr;
      },
      (go now.intr (ltb now.noff 1) off some_pushed, (omega (arith, n), intr_back, nested)),
    )
  where
    intr_back : (if now.noff - 1 == 0 && now.intena then true else now.intr) ≡ k.intr
    intr_back =
        restored (now.noff - 1 == 0) now.intena now.intr k.intr off
          (λ h. base (ground (arith, h, n))) (λ h. nested (ground (arith, h, n)))

    go :
        (b1 b2 : Bool)
        → b1 ≡ false
        → b2 ≡ false
        → (if b1
            then panic
            else if b2
            then panic
            else done (record now {
              noff = now.noff - 1;
              intr = if now.noff - 1 == 0 && now.intena then true else now.intr;
            }))
          ≡ done (record now {
            noff = now.noff - 1;
            intr = if now.noff - 1 == 0 && now.intena then true else now.intr;
          })
    go false false e1 e2 = refl
    go true b2 e1 e2 = cc e1
    go false true e1 e2 = cc e2
