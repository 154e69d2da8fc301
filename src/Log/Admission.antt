-- ===== src/Log/Admission.antt =====
-- File-system operations in progress at once: why the log never runs out of slots.
use xv6_extended.Base.{
  ℕ, suc, ◌+◌, ◌-◌, ◌*◌, ◌%◌, ◌^◌, ◌≤◌, ◌<◌, ◌≡◌, refl, sym, ◌∙◌, ap, Bool, true, false, arith, ltb,
  ◌==◌, Bool-cases, inl, inr, subst₂, done-injective, done, List, [], ◌∷◌, ◌++◌, length,
  length-append, some,
}
use xv6_extended.Log.{
  Log, System, logblocks, maxopblocks, rounds, begin_op, end_op_enter, end_op_commit, commit,
  log_write, write_log, write_head, install_trans, install_one, log_one, bwrite,
}
use xv6_extended.Log.Install.{for_tail_inv, log-install_one}
use xv6_extended.Log.Commit.Write.{log-log_one}
use xv6_extended.Log.Append.{Appended, log_write-Appended}

-- A commit empties the transaction and leaves the rest of `struct log`.
log-install_trans : (recovering : Bool) (s : System) → (install_trans recovering s).log ≡ s.log
unfolding install_trans
log-install_trans r s =
    for_tail_inv (λ _ t. t.log ≡ s.log) (install_one r) (rounds s.log.n)
      (λ i t lt h. log-install_one r i t ∙ h) (rounds s.log.n) 0 s (omega arith) refl

log-write_log : (s : System) → (write_log s).log ≡ s.log
unfolding write_log
log-write_log s =
    for_tail_inv (λ _ t. t.log ≡ s.log) log_one (rounds s.log.n) (λ i t lt h. log-log_one i t ∙ h)
      (rounds s.log.n) 0 s (omega arith) refl

log-write_head : (s : System) → (write_head s).log ≡ s.log
unfolding write_head bwrite
log-write_head s = ground arith

pub log-commit : (s : System) → s.log.n ≤ logblocks → (commit s).log ≡ record (s.log) { n = 0 }
unfolding commit
log-commit s few = elim (Bool-cases (ltb 0 (rounds s.log.n))) [
  | inl busy ↦
      rw (busy, log-write_head)
        (ap (λ (l : Log). record l { n = 0 })
          (log-install_trans false (write_head (write_log s))
            ∙ log-write_head (write_log s)
            ∙ log-write_log s))
  | inr idle ↦
      let none_logged : s.log.n ≡ 0 = ground (arith, few) in
      rw idle (λ i. record (s.log) { n = none_logged i })
]

-- The operations in progress, each with the number of `log_write` calls that it has made.
abbrev pub reserved : List ℕ → ℕ
reserved [] = 0
reserved (w ∷ ws) = (maxopblocks - w) + reserved ws

-- What the processes do to the log: `begin_op`, a `log_write` by an operation that has made fewer than
-- MAXOPBLOCKS of them, and the two parts of `end_op`.
pub data Step (s : System) (ws : List ℕ) (t : System) (ws' : List ℕ) : Type 0 where
  begin :
      (l : Log)
      → begin_op s.log ≡ some l
      → t ≡ record s { log = l }
      → ws' ≡ 0 ∷ ws
      → Step s ws t ws'
  write :
      (before after : List ℕ) (w b : ℕ)
      → ws ≡ before ++ (w ∷ after)
      → w < maxopblocks
      → log_write b s ≡ done t
      → ws' ≡ before ++ (suc w ∷ after)
      → Step s ws t ws'
  leave :
      (before after : List ℕ) (w : ℕ) (l : Log) (do_commit : Bool)
      → ws ≡ before ++ (w ∷ after)
      → end_op_enter s.log ≡ done (l, do_commit)
      → t ≡ record s { log = l }
      → ws' ≡ before ++ after
      → Step s ws t ws'
  commit_all : s.log.committing ≡ true → t ≡ end_op_commit s → ws' ≡ ws → Step s ws t ws'

-- Every operation in progress has room for the calls that it may still make.
pub record HasRoom (s : System) (ws : List ℕ) : Type 0 where
  pub counted : s.log.outstanding ≡ length ws
  pub few : s.log.outstanding ≤ 3
  pub room : s.log.n + reserved ws ≤ logblocks
  pub quiet : s.log.committing ≡ true → s.log.outstanding ≡ 0

reserved-append : (xs ys : List ℕ) → reserved (xs ++ ys) ≡ reserved xs + reserved ys
reserved-append [] ys = omega arith
reserved-append (x ∷ xs) ys = omega (arith, reserved-append xs ys)

reserved-le : (xs : List ℕ) → reserved xs ≤ maxopblocks * length xs
reserved-le [] = omega arith
reserved-le (x ∷ xs) = omega (arith, reserved-le xs)

begin_op-HasRoom :
    (s : System) (ws : List ℕ) (l : Log)
    → begin_op s.log ≡ some l
    → HasRoom s ws
    → HasRoom (record s { log = l }) (0 ∷ ws)
unfolding begin_op
begin_op-HasRoom s ws l e h = ground (arith, reserved-le ws, h.few, h.room)

module _ (s : System) (ws before after : List ℕ) (w : ℕ) (mine : ws ≡ before ++ (w ∷ after))
    (h : HasRoom s ws) where
  sums :
      (length ws ≡ length before + suc (length after))
      × (reserved ws ≡ reserved before + ((maxopblocks - w) + reserved after))
  sums = (
    ap length mine ∙ length-append before (w ∷ after),
    ap reserved mine ∙ reserved-append before (w ∷ after),
  )

  -- An operation that has made fewer than MAXOPBLOCKS calls may make one more: it finds a slot.
  pub log_write-HasRoom :
      (b : ℕ)
      → w < maxopblocks
      → (t : System) × (log_write b s ≡ done t)
        × Appended b s t
        × HasRoom t (before ++ (suc w ∷ after))
  log_write-HasRoom b lt =
      let (t, ran, a) =
        log_write-Appended b s (omega (arith, sums, h.room)) (omega (arith, sums, h.counted))
          (omega (arith, h.few)) in
      (
        t,
        ran,
        a,
        record {
          counted =
              omega
                (arith, a.same_outstanding, h.counted, sums, length-append before (suc w ∷ after));
          few = omega (arith, a.same_outstanding, h.few);
          room = omega (arith, a.by_one, h.room, sums, reserved-append before (suc w ∷ after));
          quiet = λ c. a.same_outstanding ∙ h.quiet (sym a.same_committing ∙ c);
        },
      )

  -- Ending an operation does not panic.
  pub end_op_enter-HasRoom :
      (l : Log) × (do_commit : Bool) × (end_op_enter s.log ≡ done (l, do_commit))
      × HasRoom (record s { log = l }) (before ++ after)
  unfolding end_op_enter
  end_op_enter-HasRoom =
      let idle : s.log.committing ≡ false = ground (arith, h.quiet, h.counted, sums) in
      let left : ℕ = (s.log.outstanding + 2 ^ 32 - 1) % 2 ^ 32 in
      let less : left ≡ s.log.outstanding - 1 = omega (arith, h.few, h.counted, sums) in
      elim (Bool-cases (left == 0)) [
        | inl last ↦ (
          record (s.log) { outstanding = left; committing = true },
          true,
          rw (idle, last),
          record {
            counted = omega (arith, less, h.counted, sums, length-append before after);
            few = omega (arith, less, h.few);
            room = omega (arith, h.room, sums, reserved-append before after);
            quiet = λ _. ground (arith, last);
          },
        )
        | inr others ↦ (
          record (s.log) { outstanding = left },
          false,
          rw (idle, others),
          record {
            counted = omega (arith, less, h.counted, sums, length-append before after);
            few = omega (arith, less, h.few);
            room = omega (arith, h.room, sums, reserved-append before after);
            quiet = λ c. cc;
          },
        )
      ]

end_op_commit-HasRoom :
    (s : System) (ws : List ℕ)
    → s.log.committing ≡ true
    → HasRoom s ws
    → HasRoom (end_op_commit s) ws
unfolding end_op_commit
end_op_commit-HasRoom s ws c h =
    let after = log-commit s (omega (arith, h.room)) in
    record {
      counted = ap (λ (l : Log). l.outstanding) after ∙ h.counted;
      few = omega (arith, ap (λ (l : Log). l.outstanding) after, h.few);
      room = omega (arith, ap (λ (l : Log). l.n) after, h.room);
      quiet = λ d. cc;
    }

-- The log is not full, whatever the operations do: each step keeps the reservation.
pub Step-HasRoom :
    {s : System} {ws : List ℕ} {t : System} {ws' : List ℕ}
    → Step s ws t ws'
    → HasRoom s ws
    → HasRoom t ws'
Step-HasRoom {s} {ws} (begin l e et ew) h =
    subst₂ HasRoom (sym et) (sym ew) (begin_op-HasRoom s ws l e h)
Step-HasRoom {s} {ws} {t} (write before after w b mine lt e ew) h =
    let (t', ran, _, room) = log_write-HasRoom s ws before after w mine h b lt in
    subst₂ HasRoom (done-injective (sym ran ∙ e)) (sym ew) room
Step-HasRoom {s} {ws} (leave before after w l do_commit mine e et ew) h =
    let (l', do', ran, room) = end_op_enter-HasRoom s ws before after w mine h in
    let same : (l', do') ≡ (l, do_commit) = done-injective (sym ran ∙ e) in
    subst₂ HasRoom (ap (λ (p : Log × Bool). record s { log = p.0 }) same ∙ sym et) (sym ew) room
Step-HasRoom {s} {ws} (commit_all c et ew) h =
    subst₂ HasRoom (sym et) (sym ew) (end_op_commit-HasRoom s ws c h)
