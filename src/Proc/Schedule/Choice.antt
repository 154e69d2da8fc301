-- ===== src/Proc/Schedule/Choice.antt =====
-- Which process the scheduler picks.
use xv6_extended.Base.{
  ℕ, suc, ◌+◌, ◌≤◌, ◌<◌, ◌≡◌, ◌∙◌, refl, ap, true, false, ◌&&◌, Option, some, none, List, [], ◌∷◌,
  ◌++◌, length, All, lt_int, lt_int-eq-ltb, Bool-cases, inl, inr, arith, ap₂,
}
use xv6_extended.Proc.{Proc, State, is_runnable}
use xv6_extended.Proc.Schedule.{nmlfq, choose, modify, scheduler}

-- The priority of every entry is a level of the queue.
abbrev pub IsQueued : List Proc → Type 0
IsQueued ps = All (λ p. p.priority < nmlfq) ps

abbrev pub Above : ℕ → Proc → Type 0
Above n q = is_runnable q.state ≡ true → n < q.priority

abbrev pub NotBelow : ℕ → Proc → Type 0
NotBelow n q = is_runnable q.state ≡ true → n ≤ q.priority

-- What the loop leaves in `chosen`: what it was given, or the first of the best of the table.
data Chosen (ps : List Proc) (i : ℕ) (chosen : Option ℕ) (pri : ℕ) (r : Option ℕ) : Type 0 where
  kept : r ≡ chosen → All (NotBelow pri) ps → Chosen ps i chosen pri r
  found :
      (before after : List Proc) (p : Proc)
      → ps ≡ before ++ (p ∷ after)
      → r ≡ some (i + length before)
      → is_runnable p.state ≡ true
      → p.priority < pri
      → All (Above p.priority) before
      → All (NotBelow p.priority) after
      → Chosen ps i chosen pri r

module _ (p : Proc) (ps : List Proc) (i : ℕ) (chosen : Option ℕ) (pri : ℕ) (r : Option ℕ) where
  skip-Chosen : NotBelow pri p → Chosen ps (suc i) chosen pri r → Chosen (p ∷ ps) i chosen pri r
  skip-Chosen worse (kept e all) = kept e (worse, all)
  skip-Chosen worse (found before after q split e ready less above rest) =
      found (p ∷ before) after q (ap (λ l. p ∷ l) split) (e ∙ ap {B = Option ℕ} some (omega arith))
        ready less ((λ run. omega (arith, worse run)), above) rest

  take-Chosen :
      is_runnable p.state ≡ true
      → p.priority < pri
      → Chosen ps (suc i) (some i) p.priority r
      → Chosen (p ∷ ps) i chosen pri r
  take-Chosen ready less (kept e all) =
      found [] ps p refl (e ∙ ap {B = Option ℕ} some (omega arith)) ready less tt all
  take-Chosen ready less (found before after q split e ready' less' above rest) =
      found (p ∷ before) after q (ap (λ l. p ∷ l) split) (e ∙ ap {B = Option ℕ} some (omega arith))
        ready' (omega arith) ((λ run. less'), above) rest

choose-Chosen :
    (ps : List Proc) (i : ℕ) (chosen : Option ℕ) (pri : ℕ)
    → IsQueued ps
    → pri ≤ nmlfq
    → Chosen ps i chosen pri (choose ps i chosen pri)
unfolding choose
choose-Chosen [] i chosen pri q le = kept refl tt
choose-Chosen (p ∷ ps) i chosen pri q le =
    let numbers = lt_int-eq-ltb p.priority pri (omega (arith, q.0)) (omega arith) in
    elim (Bool-cases (is_runnable p.state && lt_int p.priority pri)) [
      | inl better ↦
          let lower : p.priority < pri = ground (arith, better, numbers) in
          let ready : is_runnable p.state ≡ true = ground (arith, better) in
          rw better (
            take-Chosen p ps i chosen pri _ ready lower
              (choose-Chosen ps (suc i) (some i) p.priority q.1 (omega arith)))
      | inr worse ↦ rw worse (
          skip-Chosen p ps i chosen pri _ (λ run. ground (arith, worse, numbers, run))
            (choose-Chosen ps (suc i) chosen pri q.1 le))
    ]

modify-append :
    (before after : List Proc) (p : Proc) (f : Proc → Proc)
    → modify (before ++ (p ∷ after)) (length before) f ≡ before ++ (f p ∷ after)
modify-append [] after p f = refl
modify-append (x ∷ before) after p f = ap (λ l. x ∷ l) (modify-append before after p f)

-- What a pass of the scheduler does with the table.
pub data Scheduled (ps : List Proc) (r : Option ℕ × List Proc) : Type 0 where
  idle : r ≡ (none, ps) → All (λ q. is_runnable q.state ≡ false) ps → Scheduled ps r
  runs :
      (before after : List Proc) (p : Proc)
      → ps ≡ before ++ (p ∷ after)
      → r ≡ (some (length before), before ++ (record p { state = State.running } ∷ after))
      → is_runnable p.state ≡ true
      → All (Above p.priority) before
      → All (NotBelow p.priority) after
      → Scheduled ps r

none_runnable :
    (ps : List Proc)
    → IsQueued ps
    → All (NotBelow nmlfq) ps
    → All (λ q. is_runnable q.state ≡ false) ps
none_runnable [] q n = tt
none_runnable (p ∷ ps) q n = (
  (elim (Bool-cases (is_runnable p.state)) [
    | inl run ↦ absurd (omega (arith, n.0 run, q.0))
    | inr stop ↦ stop
  ]),
  none_runnable ps q.1 n.1,
)

-- With every priority a level of the queue, a pass of the scheduler runs the first of the runnable
-- processes of the best priority, and changes no other entry; it idles only if none is runnable.
pub scheduler-Scheduled : (ps : List Proc) → IsQueued ps → Scheduled ps (scheduler ps)
unfolding scheduler
scheduler-Scheduled ps q = go (choose-Chosen ps 0 none nmlfq q (omega arith))
  where
    go : Chosen ps 0 none nmlfq (choose ps 0 none nmlfq) → Scheduled ps (scheduler ps)
    go (kept e all) = idle (rw (e, scheduler)) (none_runnable ps q all)
    go (found before after p split e ready less above rest) =
        runs before after p split
          (rw (e, scheduler)
            (ap₂
                (λ (i : ℕ) (l : List Proc).
                  (some i, modify l i (λ p. record p { state = State.running })))
                (omega arith) split
              ∙ ap (λ l. (some (length before), l))
                  (modify-append before after p (λ p. record p { state = State.running }))))
          ready above rest
