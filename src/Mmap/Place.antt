-- ===== src/Mmap/Place.antt =====
-- `vma_find_addr` and `sys_mmap`: where a new region goes.
mod Order
use xv6_extended.Base.{
  ℕ, zero, suc, ◌+◌, ◌-◌, ◌*◌, ◌/◌, ◌%◌, ◌^◌, ◌≤◌, ◌<◌, ◌≡◌, ◌≢◌, ◌⊎◌, ◌∙◌, refl, sym, ap, ap₂, inl,
  inr, Bool, true, false, not, ◌&&◌, ◌||◌, Option, some, none, List, [], ◌∷◌, ◌++◌, ◌==◌, ltb, leb,
  if◌then◌else◌, Bool-cases, arith, All, length, set,
}
use xv6_extended.Memory.{pgsize, pg_round_up}
use xv6_extended.Proc.{Vma, Proc}
use xv6_extended.Mmap.{vend, used_vmas, sort_from, scan, high, vma_find_addr}
use xv6_extended.Mmap.Regions.{Clear, Placed}
use xv6_extended.Mmap.Place.Order.{
  AllFrom, Sorted, sort_from-All, All-sort_from, used_vmas-All, All-used_vmas, sort_from-Sorted,
}

All-map : (P Q : Vma → Type 0) (vs : List Vma) → ((v : Vma) → P v → Q v) → All P vs → All Q vs
All-map P Q [] f h = tt
All-map P Q (v ∷ vs) f h = (f v h.0, All-map P Q vs f h.1)

abbrev Fits : Vma → Type 0
Fits v = (v.addr % pgsize ≡ 0) × (v.addr + v.len ≤ high)

abbrev Gap : ℕ → ℕ → Vma → Type 0
Gap a n v = (a + n ≤ v.addr) ⊎ (v.addr + v.len ≤ a)

-- There is room for `n` bytes at `b`, not below `low`.
record Spot (low n : ℕ) (vs : List Vma) (b : ℕ) : Type 0 where
  above : low ≤ b
  below : b + n ≤ high
  aligned : b % pgsize ≡ 0
  gaps : All (Gap b n) vs

-- What the scan of the gaps has found.
record Scanned (n : ℕ) (vs : List Vma) (cur best : ℕ) (r : ℕ × ℕ) : Type 0 where
  cur_le : cur ≤ r.0
  ends : All (λ v. v.addr + v.len ≤ r.0) vs
  found : (r.1 ≡ best) ⊎ Spot cur n vs r.1

abbrev next_cur : ℕ → Vma → ℕ
next_cur cur v = if ltb cur (vend v) then vend v else cur

abbrev next_best : ℕ → ℕ → ℕ → Vma → ℕ
next_best n cur best v = if ltb cur v.addr && leb n (v.addr - cur) then v.addr - n else best

scan-step :
    (n : ℕ) (v : Vma) (vs : List Vma) (cur best : ℕ) (r : ℕ × ℕ)
    → n % pgsize ≡ 0
    → Fits v
    → AllFrom v.addr vs
    → Scanned n vs (next_cur cur v) (next_best n cur best v) r
    → (r.1 ≡ best) ⊎ Spot cur n (v ∷ vs) r.1
scan-step n v vs cur best r whole fits sorted h = elim h.found [
  | inr spot ↦ inr (record {
    above = ground (arith, spot.above);
    below = spot.below;
    aligned = spot.aligned;
    gaps = (inr (ground (arith, spot.above, fits.1)), spot.gaps);
  })
  | inl e ↦ elim (Bool-cases (ltb cur v.addr && leb n (v.addr - cur))) [
    | inr no_room ↦ inl (rw no_room at e)
    | inl room ↦
        let e' : r.1 ≡ v.addr - n = rw room at e in
        let low : cur + n ≤ v.addr = ground (arith, room) in
        inr (record {
          above = omega (arith, e', low);
          below = omega (arith, e', low, fits.1);
          aligned = omega (arith, e', low, fits.0, whole);
          gaps = (
            inl (omega (arith, e', low)),
            All-map (λ w. v.addr ≤ w.addr) (Gap r.1 n) vs (λ w h. inl (omega (arith, e', low, h)))
                sorted,
          );
        })
  ]
]

scan-Scanned :
    (n : ℕ) (vs : List Vma) (cur best : ℕ)
    → n % pgsize ≡ 0
    → All Fits vs
    → Sorted vs
    → Scanned n vs cur best (scan n vs cur best)
unfolding scan
scan-Scanned n [] cur best whole fits sorted = record {
  cur_le = omega arith;
  ends = tt;
  found = inl refl;
}
scan-Scanned n (v ∷ vs) cur best whole fits sorted =
    let rest = scan-Scanned n vs (next_cur cur v) (next_best n cur best v) whole fits.1 sorted.1 in
    record {
      cur_le = ground (arith, rest.cur_le);
      ends = (ground (arith, rest.cur_le, fits.0.1), rest.ends);
      found =
          scan-step n v vs cur best (scan n vs (next_cur cur v) (next_best n cur best v)) whole
            fits.0 sorted.0 rest;
    }

-- The room that `vma_find_addr` finds.
pub record Found (sz n : ℕ) (vs : List Vma) (b : ℕ) : Type 0 where
  pub aligned : b % pgsize ≡ 0
  pub above : pg_round_up sz ≤ b
  pub below : b + n ≤ high
  pub clear : All (Clear b n) vs

Spot-Found :
    (sz n b : ℕ) (vs : List Vma)
    → Spot (pg_round_up sz) n (sort_from (length (used_vmas vs)) (used_vmas vs)) b
    → Found sz n vs b
Spot-Found sz n b vs h = record {
  aligned = h.aligned;
  above = h.above;
  below = h.below;
  clear =
      All-used_vmas (Gap b n) vs
        (All-sort_from (Gap b n) (length (used_vmas vs)) (used_vmas vs) h.gaps);
}

-- For whole pages and regions that are placed as they should be, the address that vma_find_addr returns
-- is 0 or a page address at which the new region fits: not below the heap, not in the trap frames, and
-- clear of every region in use.
pub vma_find_addr-Found :
    (sz n : ℕ) (vs : List Vma)
    → n % pgsize ≡ 0
    → All (Placed sz) vs
    → (vma_find_addr sz vs n ≡ 0) ⊎ Found sz n vs (vma_find_addr sz vs n)
unfolding vma_find_addr
vma_find_addr-Found sz n vs whole placed =
    let ord : List Vma = sort_from (length (used_vmas vs)) (used_vmas vs) in
    let fits : All Fits ord = sort_from-All Fits (length (used_vmas vs)) (used_vmas vs) (
      used_vmas-All Fits vs (
        All-map (Placed sz) (λ v. v.used ≡ true → Fits v) vs
          (λ v h used. let p = h used in (p.0, p.3)) placed)) in
    let sorted : Sorted ord = sort_from-Sorted (length (used_vmas vs)) (used_vmas vs) refl in
    let s = scan-Scanned n ord (pg_round_up sz) 0 whole fits sorted in
    let r : ℕ × ℕ = scan n ord (pg_round_up sz) 0 in
    elim (Bool-cases (ltb r.0 high && leb n (high - r.0))) [
      | inl top ↦
          let room : r.0 + n ≤ high = ground (arith, top) in
          rw top (
            inr (
              Spot-Found sz n (high - n) vs (record {
                above = omega (arith, s.cur_le, room);
                below = omega (arith, room);
                aligned = omega (arith, whole, room);
                gaps =
                    All-map (λ v. v.addr + v.len ≤ r.0) (Gap (high - n) n) ord
                      (λ v h. inr (omega (arith, h, room))) s.ends;
              })))
      | inr full ↦
          rw full (elim s.found [ inl e ↦ inl e | inr spot ↦ inr (Spot-Found sz n r.1 vs spot) ])
    ]
