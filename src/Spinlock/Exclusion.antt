-- ===== src/Spinlock/Exclusion.antt =====
-- Mutual exclusion, and no panic, in every order of the steps.
use xv6_extended.Base.{
  ℕ, ◌+◌, ◌≡◌, ◌≢◌, ◌∙◌, refl, sym, ap, subst, Bool, true, false, some, none, List, [], ◌∷◌, ◌==◌,
  if◌then◌else◌, Bool-cases, arith, inl, inr,
}
use xv6_extended.Base.Family.{update}
use xv6_extended.Spinlock.{
  Cpu, push_off, pop_off, Pc, outside, check_locked, check_cpu, spin, note, inside, recheck_locked,
  recheck_cpu, clear, unlock, pop, panicked, Spin, goto, is_owner, popped, act, step, run, initlock,
}
use xv6_extended.Spinlock.Protocol.{
  owns, is_named, Counted, IsValid, by_cpu, keep, named_owns, is_owner-true, absurd_bool,
  some-injective, empty_stack, pop_off-Counted,
}

module _ (start : ℕ → Cpu) (s : Spin) (v : IsValid start s) (c : ℕ) where
  -- A move within the same part of the protocol, which may change what the processor keeps.
  move_cpu-IsValid :
      (q : Pc) (k : Cpu)
      → owns q ≡ owns (s.pc c)
      → is_named q ≡ is_named (s.pc c)
      → Counted (start c) q k
      → IsValid start (record s { cpu = update s.cpu c k; pc = update s.pc c q })
  move_cpu-IsValid q k o n counted = record {
    one = λ a b ha hb.
        v.one a b (sym (keep owns s.pc c q o a) ∙ ha) (sym (keep owns s.pc c q o b) ∙ hb);
    held = λ a h. v.held a (sym (keep owns s.pc c q o a) ∙ h);
    noted = λ a h. v.noted a (sym (keep is_named s.pc c q n a) ∙ h);
    real = λ a h. keep is_named s.pc c q n a ∙ v.real a h;
    counted = λ d. go d (c == d) (λ e. ground (arith, e));
  }
    where
      go :
          (d : ℕ) (b : Bool)
          → (b ≡ true → c ≡ d)
          → Counted (start d) (if b then q else s.pc d) (if b then k else s.cpu d)
      go d true same = subst (λ x. Counted (start x) q k) (same refl) counted
      go d false same = v.counted d

  move-IsValid :
      (q : Pc)
      → owns q ≡ owns (s.pc c)
      → is_named q ≡ is_named (s.pc c)
      → Counted (start c) q (s.cpu c)
      → IsValid start (goto c q s)
  move-IsValid q o n counted = record {
    one = λ a b ha hb.
        v.one a b (sym (keep owns s.pc c q o a) ∙ ha) (sym (keep owns s.pc c q o b) ∙ hb);
    held = λ a h. v.held a (sym (keep owns s.pc c q o a) ∙ h);
    noted = λ a h. v.noted a (sym (keep is_named s.pc c q n a) ∙ h);
    real = λ a h. keep is_named s.pc c q n a ∙ v.real a h;
    counted = λ d.
        by_cpu (λ d p. Counted (start d) p (s.cpu d)) s.pc c d q
          (λ e. subst (λ x. Counted (start x) q (s.cpu x)) e counted) (λ _. v.counted d);
  }

  Counted-update :
      (q : Pc)
      → Counted (start c) q (s.cpu c)
      → (d : ℕ) → Counted (start d) (update s.pc c q d) (s.cpu d)
  Counted-update q h d =
      by_cpu (λ d p. Counted (start d) p (s.cpu d)) s.pc c d q
        (λ e. subst (λ x. Counted (start x) q (s.cpu x)) e h) (λ _. v.counted d)

  -- If this processor owns the lock, no other does.
  alone : (d : ℕ) → owns (s.pc c) ≡ true → c ≢ d → owns (s.pc d) ≡ true → ⊥
  alone d h other hd = other (v.one c d h hd)

  take-IsValid :
      s.pc c ≡ spin
      → s.locked ≡ false
      → IsValid start (record s { locked = true; pc = update s.pc c note })
  take-IsValid at free = record {
    one = λ a b ha hb. sym (only a ha) ∙ only b hb;
    held = λ a h. refl;
    noted = λ a h. v.noted a (sym (keep is_named s.pc c note (sym (ap is_named at)) a) ∙ h);
    real = λ a h. keep is_named s.pc c note (sym (ap is_named at)) a ∙ v.real a h;
    counted = Counted-update note (subst (λ p. Counted (start c) p (s.cpu c)) at (v.counted c));
  }
    where
      only : (d : ℕ) → owns (update s.pc c note d) ≡ true → c ≡ d
      only d =
          by_cpu (λ d p. owns p ≡ true → c ≡ d) s.pc c d note (λ e _. e)
            (λ _ h. absurd (absurd_bool (sym (v.held d h) ∙ free)))

  name-IsValid :
      s.pc c ≡ note → IsValid start (record s { owner = some c; pc = update s.pc c inside })
  name-IsValid at = record {
    one = λ a b ha hb.
        v.one a b (sym (keep owns s.pc c inside (sym (ap owns at)) a) ∙ ha)
          (sym (keep owns s.pc c inside (sym (ap owns at)) b) ∙ hb);
    held = λ a h. v.held a (sym (keep owns s.pc c inside (sym (ap owns at)) a) ∙ h);
    noted = λ d.
        by_cpu (λ d p. is_named p ≡ true → some c ≡ some d) s.pc c d inside (λ e _. ap some e)
          (λ other h. absurd (alone d (ap owns at) other (named_owns (s.pc d) h)));
    real = λ d.
        by_cpu (λ d p. some c ≡ some d → is_named p ≡ true) s.pc c d inside (λ _ _. refl)
          (λ other h. absurd (other (some-injective h)));
    counted = Counted-update inside (subst (λ p. Counted (start c) p (s.cpu c)) at (v.counted c));
  }

  clear-IsValid :
      s.pc c ≡ clear → IsValid start (record s { owner = none; pc = update s.pc c unlock })
  clear-IsValid at = record {
    one = λ a b ha hb.
        v.one a b (sym (keep owns s.pc c unlock (sym (ap owns at)) a) ∙ ha)
          (sym (keep owns s.pc c unlock (sym (ap owns at)) b) ∙ hb);
    held = λ a h. v.held a (sym (keep owns s.pc c unlock (sym (ap owns at)) a) ∙ h);
    noted = λ d.
        by_cpu (λ d p. is_named p ≡ true → none ≡ some d) s.pc c d unlock (λ _ h. cc h)
          (λ other h. absurd (alone d (ap owns at) other (named_owns (s.pc d) h)));
    real = λ d h. cc h;
    counted = Counted-update unlock (subst (λ p. Counted (start c) p (s.cpu c)) at (v.counted c));
  }

  unlock-IsValid :
      s.pc c ≡ unlock → IsValid start (record s { locked = false; pc = update s.pc c pop })
  unlock-IsValid at = record {
    one = λ a b ha hb. absurd (nobody a ha);
    held = λ a h. absurd (nobody a h);
    noted = λ a h. v.noted a (sym (keep is_named s.pc c pop (sym (ap is_named at)) a) ∙ h);
    real = λ a h. keep is_named s.pc c pop (sym (ap is_named at)) a ∙ v.real a h;
    counted = Counted-update pop (subst (λ p. Counted (start c) p (s.cpu c)) at (v.counted c));
  }
    where
      nobody : (d : ℕ) → owns (update s.pc c pop d) ≡ true → ⊥
      nobody d =
          by_cpu (λ d p. owns p ≡ true → ⊥) s.pc c d pop (λ _ h. absurd_bool (sym h))
            (λ other h. alone d (ap owns at) other h)

  push-IsValid :
      s.pc c ≡ outside
      → IsValid start
          (record s { cpu = update s.cpu c (push_off (s.cpu c)); pc = update s.pc c check_locked })
  unfolding push_off
  push-IsValid at =
      let k = subst (λ p. Counted (start c) p (s.cpu c)) at (v.counted c) in
      move_cpu-IsValid check_locked (push_off (s.cpu c)) (sym (ap owns at)) (sym (ap is_named at))
        (ap (λ n. n + 1) k.0, refl, (λ z. empty_stack (s.cpu c) (start c).intr (k.0 ∙ z) k.1, k.2))

  pop-IsValid : s.pc c ≡ pop → IsValid start (popped c (pop_off (s.cpu c)) s)
  pop-IsValid at =
      let k = subst (λ p. Counted (start c) p (s.cpu c)) at (v.counted c) in
      let r = pop_off-Counted (start c) (s.cpu c) k in
      subst (λ o. IsValid start (popped c o s)) (sym r.1.0)
        (move_cpu-IsValid outside r.0 (sym (ap owns at)) (sym (ap is_named at)) r.1.1)

  stay :
      (p q : Pc)
      → s.pc c ≡ p
      → owns q ≡ owns p
      → is_named q ≡ is_named p
      → (Counted (start c) p (s.cpu c) → Counted (start c) q (s.cpu c))
      → IsValid start (goto c q s)
  stay p q at o n f =
      move-IsValid q (o ∙ sym (ap owns at)) (n ∙ sym (ap is_named at))
        (f (subst (λ p. Counted (start c) p (s.cpu c)) at (v.counted c)))

  -- A step to one of two places, by a test whose value is known.
  choose-IsValid :
      (b b' : Bool) (yes_to no_to : Pc)
      → b ≡ b'
      → IsValid start (goto c (if b' then yes_to else no_to) s)
      → IsValid start (goto c (if b then yes_to else no_to) s)
  choose-IsValid b b' yes_to no_to e h =
      subst (λ b. IsValid start (goto c (if b then yes_to else no_to) s)) (sym e) h

  check_locked-IsValid : s.pc c ≡ check_locked → IsValid start (act check_locked c s)
  check_locked-IsValid at = elim (Bool-cases s.locked) [
    | inl e ↦
        choose-IsValid s.locked true check_cpu spin e
          (stay check_locked check_cpu at refl refl (λ h. h))
    | inr e ↦
        choose-IsValid s.locked false check_cpu spin e
          (stay check_locked spin at refl refl (λ h. h))
  ]

  check_cpu-IsValid : s.pc c ≡ check_cpu → IsValid start (act check_cpu c s)
  check_cpu-IsValid at = elim (Bool-cases (is_owner s.owner c)) [
    | inl e ↦ absurd (absurd_bool (sym (v.real c (is_owner-true s.owner c e)) ∙ ap is_named at))
    | inr e ↦
        choose-IsValid (is_owner s.owner c) false panicked spin e
          (stay check_cpu spin at refl refl (λ h. h))
  ]

  spin-IsValid : s.pc c ≡ spin → IsValid start (act spin c s)
  spin-IsValid at = elim (Bool-cases s.locked) [
    | inl e ↦
        subst
          (λ b.
            IsValid start
              (record s { locked = true; pc = update s.pc c (if b then spin else note) }))
          (sym e)
          (subst (λ b. IsValid start (record s { locked = b; pc = update s.pc c spin })) e
            (stay spin spin at refl refl (λ h. h)))
    | inr e ↦
        subst
          (λ b.
            IsValid start
              (record s { locked = true; pc = update s.pc c (if b then spin else note) }))
          (sym e) (take-IsValid at e)
  ]

  recheck_cpu-IsValid : s.pc c ≡ recheck_cpu → IsValid start (act recheck_cpu c s)
  recheck_cpu-IsValid at =
      let mine : is_owner s.owner c ≡ true =
        ap (λ o. is_owner o c) (v.noted c (ap is_named at)) ∙ ground arith in
      choose-IsValid (is_owner s.owner c) true clear panicked mine
        (stay recheck_cpu clear at refl refl (λ h. h))

  step-IsValid : IsValid start (step c s)
  unfolding step
  step-IsValid = go (s.pc c) refl
    where
      go : (p : Pc) → s.pc c ≡ p → IsValid start (act p c s)
      go outside at = push-IsValid at
      go check_locked at = check_locked-IsValid at
      go check_cpu at = check_cpu-IsValid at
      go spin at = spin-IsValid at
      go note at = name-IsValid at
      go inside at = stay inside recheck_locked at refl refl (λ h. h)
      go recheck_locked at =
          choose-IsValid s.locked true recheck_cpu panicked (v.held c (ap owns at))
            (stay recheck_locked recheck_cpu at refl refl (λ h. h))
      go recheck_cpu at = recheck_cpu-IsValid at
      go clear at = clear-IsValid at
      go unlock at = unlock-IsValid at
      go pop at = pop-IsValid at
      go panicked at = v

-- The state with every processor outside of the lock.
initlock-IsValid :
    (start : ℕ → Cpu)
    → ((c : ℕ) → (start c).noff ≢ 0 → (start c).intr ≡ false)
    → IsValid start (initlock start)
initlock-IsValid start base = record {
  one = λ c d hc hd. cc hc;
  held = λ c h. cc h;
  noted = λ c h. cc h;
  real = λ c h. cc h;
  counted = λ c. (refl, refl, base c);
}

run-keeps : (start : ℕ → Cpu) (cs : List ℕ) (s : Spin) → IsValid start s → IsValid start (run cs s)
unfolding run
run-keeps start [] s v = v
run-keeps start (c ∷ cs) s v = run-keeps start cs (step c s) (step-IsValid start s v c)

-- On processors whose interrupts are off wherever their count of push_off is not 0, in every order of
-- steps of acquire and release from a fresh lock: at most one processor is between taking the lock and
-- freeing it, the lock is then marked as locked, lk->cpu is that of the processor in the critical section,
-- no processor panics, and one that is outside has the count and the interrupts that it had at first.
pub run-IsValid :
    (start : ℕ → Cpu) (cs : List ℕ)
    → ((c : ℕ) → (start c).noff ≢ 0 → (start c).intr ≡ false)
    → IsValid start (run cs (initlock start))
run-IsValid start cs base = run-keeps start cs (initlock start) (initlock-IsValid start base)
