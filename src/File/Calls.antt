-- ===== src/File/Calls.antt =====
-- `sys_pipe`, and the system calls on descriptors as one: every reference of a file has a holder, on every path.
use xv6_extended.Base.{
  ℕ, zero, suc, ◌+◌, ◌<◌, ◌≡◌, ◌∙◌, refl, sym, ap, subst, inl, inr, Bool, Option, some, none, List,
  [], ◌∷◌, ◌++◌, ◌==◌, if◌then◌else◌, Bool-cases, arith, set, Outcome, done, ◌>>=◌,
}
use xv6_extended.File.{
  nfile, Ftable, Closing, Fds, Sys, fdalloc, sys_dup, sys_close, pipe_failed, pipe_second, pipe_fds,
  piped, sys_pipe,
}
use xv6_extended.File.Holders.{Refs, Refs-ext}
use xv6_extended.File.Pipes.{plus, close_two, pipealloc-PipeResult}
use xv6_extended.File.Slots.{held, count, Slot, fdalloc-Slot, held_other}
use xv6_extended.File.Counted.{Counted, Kept, sys_close-Kept, sys_dup-Kept}

set_comm : (l : Fds) (i j : ℕ) → set (set l i none) j none ≡ set (set l j none) i none
set_comm [] i j = refl
set_comm (x ∷ l) zero zero = refl
set_comm (x ∷ l) zero (suc j) = refl
set_comm (x ∷ l) (suc i) zero = refl
set_comm (x ∷ l) (suc i) (suc j) = ap (λ m. x ∷ m) (set_comm l i j)

module _ (s : Sys) (others : ℕ → ℕ) (inv : Counted s others) where
  abbrev holders : ℕ → ℕ
  holders g = count g s.fds + others g

  -- Files with the references of `holders`, and the descriptors of `s`.
  back-Counted :
      (t : Ftable) (fds' : Fds) (calls : List Closing)
      → fds' ≡ s.fds
      → Refs t holders
      → Counted (record { files = t; fds = fds'; calls = calls }) others
  back-Counted t fds' calls e refs =
      subst (λ l. Counted (record { files = t; fds = l; calls = calls }) others) (sym e)
        (record { refs = refs; in_table = inv.in_table; slots = inv.slots; room = inv.room })

  failed-Kept :
      (rf wf : ℕ) (fds' : Fds) (s1 : Sys)
      → fds' ≡ s.fds
      → rf < nfile
      → wf < nfile
      → Refs s1.files (plus rf (plus wf holders))
      → Kept s others (pipe_failed rf wf fds' s1)
  unfolding pipe_failed
  failed-Kept rf wf fds' s1 e lt0 lt1 refs =
      let c = close_two s1.files holders rf wf refs lt0 lt1 in
      (
        (none, record { files = c.0.1; fds = fds'; calls = s1.calls ++ c.0.0 }),
        ap
            (λ m.
              m >>= λ r. done (none, record { files = r.1; fds = fds'; calls = s1.calls ++ r.0 }))
            c.1,
        back-Counted c.0.1 fds' (s1.calls ++ c.0.0) e c.2,
        λ z. e,
      )

  second-Kept :
      (copied : Bool) (rf wf i : ℕ) (fds1 : Fds) (s1 : Sys)
      → rf < nfile
      → wf < nfile
      → Refs s1.files (plus rf (plus wf holders))
      → Slot rf i s.fds fds1
      → Kept s others (pipe_second copied rf wf i fds1 (fdalloc wf fds1) s1)
  unfolding pipe_second
  second-Kept copied rf wf i fds1 s1 lt0 lt1 refs slot = elim (fdalloc-Slot wf fds1) [
    | inl full ↦
        subst (Kept s others) (sym (ap (λ o. pipe_second copied rf wf i fds1 o s1) full))
          (failed-Kept rf wf (set fds1 i none) s1 slot.undo lt0 lt1 refs)
    | inr (j, fds2, got, slot2) ↦
        subst (Kept s others) (sym (ap (λ o. pipe_second copied rf wf i fds1 o s1) got))
          (elim (Bool-cases copied) [
            | inr fault ↦ subst (Kept s others) (sym (ap (chosen j fds2) fault)) (
                failed-Kept rf wf (set (set fds2 i none) j none) s1
                  (set_comm fds2 i j ∙ ap (λ l. set l i none) slot2.undo ∙ slot.undo) lt0 lt1 refs)
            | inl fine ↦ subst (Kept s others) (sym (ap (chosen j fds2) fine)) (
              (some 0, record s1 { fds = fds2 }),
              refl,
              record {
                refs =
                    Refs-ext s1.files (plus rf (plus wf holders)) (λ g. count g fds2 + others g)
                      (λ g. let a = slot.counts g in let b = slot2.counts g in omega (arith, a, b))
                      refs;
                in_table = λ g pos. held_in fds2 g (slot.counts g) (slot2.counts g) pos;
                slots = slot2.long ∙ slot.long ∙ inv.slots;
                room = inv.room;
              },
              λ z. cc z,
            )
          ])
  ]
    where
      chosen : ℕ → Fds → Bool → Outcome (Option ℕ × Sys)
      chosen j fds2 b =
          if b
          then done (some 0, record s1 { fds = fds2 })
          else pipe_failed rf wf (set (set fds2 i none) j none) s1

      held_in :
          (fds2 : Fds) (g : ℕ)
          → count g fds1 ≡ held g (some rf) + count g s.fds
          → count g fds2 ≡ held g (some wf) + count g fds1
          → 0 < count g fds2
          → g < nfile
      held_in fds2 g a b pos = elim (Bool-cases (rf == g)) [
        | inl same ↦ subst (λ x. x < nfile) (ground (arith, same)) lt0
        | inr other ↦ elim (Bool-cases (wf == g)) [
          | inl same ↦ subst (λ x. x < nfile) (ground (arith, same)) lt1
          | inr neither ↦
              let z = held_other rf g (ground (arith, other)) in
              let z2 = held_other wf g (ground (arith, neither)) in
              inv.in_table g (omega (arith, a, b, z, z2, pos))
        ]
      ]

  piped-Kept :
      (copied : Bool) (rf wf : ℕ) (s1 : Sys)
      → rf < nfile
      → wf < nfile
      → Refs s1.files (plus rf (plus wf holders))
      → s1.fds ≡ s.fds
      → Kept s others (pipe_fds copied rf wf (fdalloc rf s.fds) s1)
  unfolding pipe_fds
  piped-Kept copied rf wf s1 lt0 lt1 refs e = elim (fdalloc-Slot rf s.fds) [
    | inl full ↦
        subst (Kept s others) (sym (ap (λ o. pipe_fds copied rf wf o s1) full))
          (failed-Kept rf wf s1.fds s1 e lt0 lt1 refs)
    | inr (i, fds1, got, slot) ↦
        subst (Kept s others) (sym (ap (λ o. pipe_fds copied rf wf o s1) got))
          (second-Kept copied rf wf i fds1 s1 lt0 lt1 refs slot)
  ]

  sys_pipe-Kept : (page : ℕ) (copied : Bool) → Kept s others (sys_pipe page copied s)
  unfolding sys_pipe piped
  sys_pipe-Kept page copied =
      let p = pipealloc-PipeResult page s.files holders inv.refs in
      subst (Kept s others) (sym (ap (λ m. m >>= piped copied s.fds s.calls) p.1)) (elim p.2 [
        | inl (failed, refs) ↦
            subst (λ o. Kept s others (piped copied s.fds s.calls (o, p.0.1, p.0.2))) (sym failed)
              (
                (none, record { files = p.0.2; fds = s.fds; calls = s.calls ++ p.0.1 }),
                refl,
                back-Counted p.0.2 s.fds (s.calls ++ p.0.1) refl refs,
                λ z. refl,
              )
        | inr (rf, wf, got, lt0, lt1, refs) ↦
            subst (λ o. Kept s others (piped copied s.fds s.calls (o, p.0.1, p.0.2))) (sym got)
              (piped-Kept copied rf wf
                (record { files = p.0.2; fds = s.fds; calls = s.calls ++ p.0.1 }) lt0 lt1 refs refl)
      ])

-- A system call on descriptors: `pipe` with the page that kalloc gives and whether copyout succeeds.
pub data Call : Type 0 where
  dup : ℕ → Call
  close : ℕ → Call
  pipe : ℕ → Bool → Call

abbrev pub call : Call → Sys → Outcome (Option ℕ × Sys)
call (dup n) s = sys_dup n s
call (close n) s = sys_close n s
call (pipe page copied) s = sys_pipe page copied s

-- From a state in which the count of each file is the number of its holders, any of dup, close and pipe
-- returns, whatever its arguments are and wherever it fails; the count of each file is then again the number
-- of its holders, and if the call gives -1 the descriptors are as they were.
pub call-Kept : (c : Call) (s : Sys) (others : ℕ → ℕ) → Counted s others → Kept s others (call c s)
call-Kept (dup n) s others inv = sys_dup-Kept s others inv n
call-Kept (close n) s others inv = sys_close-Kept s others inv n
call-Kept (pipe page copied) s others inv = sys_pipe-Kept s others inv page copied
