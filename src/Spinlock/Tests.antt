-- ===== src/Spinlock/Tests.antt =====
-- Two processors and a lock.
use xv6_extended.Base.{
  ℕ, ◌≡◌, ◌≢◌, refl, Bool, true, false, List, [], ◌∷◌, ◌==◌, if◌then◌else◌, done,
}
use xv6_extended.Spinlock.{Cpu, push_off, pop_off, spin, inside, step, run, initlock}
use xv6_extended.Spinlock.Protocol.{IsValid}
use xv6_extended.Spinlock.Exclusion.{run-IsValid}

-- Processor 1 holds another lock already.
abbrev two_cpus : ℕ → Cpu
two_cpus c =
    if c == 1
    then record { noff = 1; intena = true; intr = false }
    else record { noff = 0; intena = false; intr = true }

two_cpus-IsOff : (c : ℕ) → (two_cpus c).noff ≢ 0 → (two_cpus c).intr ≡ false
two_cpus-IsOff c h = go (c == 1) h
  where
    go :
        (b : Bool)
        → (if◌then◌else◌ {A = Cpu} b
            (record { noff = 1; intena = true; intr = false })
            (record { noff = 0; intena = false; intr = true })).noff
          ≢ 0
        → (if◌then◌else◌ {A = Cpu} b
            (record { noff = 1; intena = true; intr = false })
            (record { noff = 0; intena = false; intr = true })).intr
          ≡ false
    go true h = refl
    go false h = absurd (h refl)

-- Both try, and processor 0 gets it.
abbrev both_try : List ℕ
both_try = 0 ∷ 1 ∷ 0 ∷ 1 ∷ 0 ∷ 1 ∷ 0 ∷ []

first_in : (run both_try (initlock two_cpus)).pc 0 ≡ inside
unfolding run step push_off
first_in = refl

second_spins : (run both_try (initlock two_cpus)).pc 1 ≡ spin
unfolding run step push_off
second_spins = refl

-- The interrupts come back on at the last `pop_off`.
nested :
    pop_off (record { noff = 1; intena = true; intr = false })
    ≡ done (record { noff = 0; intena = true; intr = true })
unfolding pop_off
nested = refl

run-IsValid_example : IsValid two_cpus (run both_try (initlock two_cpus))
run-IsValid_example = run-IsValid two_cpus both_try two_cpus-IsOff
