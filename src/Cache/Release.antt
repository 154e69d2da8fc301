-- ===== src/Cache/Release.antt =====
-- `brelse`: a buffer that loses its last reference becomes the one that was used last.
use xv6_extended.Base.{
  ℕ, ◌+◌, ◌-◌, ◌%◌, ◌^◌, ◌<◌, ◌≡◌, ◌≢◌, ◌⊎◌, ◌∙◌, refl, sym, ap, subst, inl, inr, Bool, true, false,
  ◌||◌, not, List, ◌∷◌, ◌++◌, ◌==◌, if◌then◌else◌, Bool-cases, contains, Distinct, length, arith,
  Outcome, done, panic, ◌>>=◌,
}
use xv6_extended.Base.Family.{update, update_self, update_ne}
use xv6_extended.Sleeplock.{holdingsleep, releasesleep}
use xv6_extended.Cache.{
  nbuf, head, Buf, Bcache, set_buf, unused, drop_ref, push_front, unlink, brelse_unlock,
  brelse_list, brelse,
}
use xv6_extended.Cache.Links.{
  Linked, Linked-push, Linked-unlink, next_contains, contains-append, contains_split,
  Distinct-middle, length-middle,
}
use xv6_extended.Cache.Valid.{IsValid}
use xv6_extended.Cache.Get.{rewrite-IsValid, ring_has, head_out}

pub push_front-Linked :
    (s : Bcache) (b : ℕ) (l : List ℕ)
    → Linked s.next s.prev head l head
    → contains (head ∷ l) b ≡ false
    → contains l head ≡ false
    → Distinct l
    → Linked (push_front b s).next (push_front b s).prev head (b ∷ l) head
unfolding push_front
push_front-Linked s b l h new out once =
    subst
      (λ x.
        Linked (update (update s.next b (s.next head)) head b) (update (update s.prev b head) x b)
          head (b ∷ l) head)
      (sym (update_ne s.next b head (s.next head) (ground (arith, new))))
      (Linked-push s.next s.prev head b l head h new out once (ground (arith, new)) out)

pub unlink-Linked :
    (s : Bcache) (b : ℕ) (xs ys : List ℕ)
    → Linked s.next s.prev head (xs ++ (b ∷ ys)) head
    → Distinct (xs ++ (b ∷ ys))
    → contains (xs ++ (b ∷ ys)) head ≡ false
    → Linked (unlink b s).next (unlink b s).prev head (xs ++ ys) head
unfolding unlink
unlink-Linked s b xs ys h once out =
    let behind = next_contains s.next s.prev head b xs ys head h in
    let alone = Distinct-middle xs b ys once in
    let apart : s.next b ≢ b = λ e.
      not_there behind (contains-append xs ys b) (contains-append xs (b ∷ ys) head) alone.1 e in
    subst
      (λ p.
        Linked (update s.next p (s.next b)) (update s.prev (s.next b) (s.prev b)) head (xs ++ ys)
          head)
      (sym (update_ne s.prev (s.next b) b (s.prev b) apart))
      (Linked-unlink s.next s.prev head b (s.prev b) (s.next b) xs ys head refl refl h once out out)
  where
    not_there :
        contains (head ∷ ys) (s.next b) ≡ true
        → contains (xs ++ ys) b ≡ (contains xs b || contains ys b)
        → contains (xs ++ (b ∷ ys)) head ≡ (contains xs head || contains (b ∷ ys) head)
        → contains (xs ++ ys) b ≡ false
        → s.next b ≡ b
        → ⊥
    not_there behind e1 e2 alone e =
        let in_b : contains (head ∷ ys) b ≡ true =
          subst (λ x. contains (head ∷ ys) x ≡ true) e behind in
        ground (arith, in_b, e1, e2, alone, out)

-- The order behind the release of `b`, which had `n` references, with the buffers `v`.
abbrev pub Released : Bcache → ℕ → List ℕ → Bcache → Type 0
Released s b l s' =
    (s'.buf ≡ (drop_ref b s).buf)
    × (l' : List ℕ) × IsValid s' l'
    × ((((s.buf b).refcnt ≢ 1) × (l' ≡ l))
        ⊎ (((s.buf b).refcnt ≡ 1)
            × (xs : List ℕ) × (ys : List ℕ) × (l ≡ xs ++ (b ∷ ys))
            × (l' ≡ b ∷ (xs ++ ys))))

module _ {s : Bcache} {l : List ℕ} (inv : IsValid s l) (b : ℕ) (hb : b < nbuf)
    (pos : 0 < (s.buf b).refcnt) where
  lowered : ((s.buf b).refcnt + 2 ^ 32 - 1) % 2 ^ 32 ≡ (s.buf b).refcnt - 1
  lowered = let r = inv.range b in omega (arith, r, pos)

  drop_ref-IsValid : IsValid (drop_ref b s) l
  drop_ref-IsValid =
      rewrite-IsValid inv b (record (s.buf b) { refcnt = ((s.buf b).refcnt + 2 ^ 32 - 1) % 2 ^ 32 })
        hb (omega arith) refl refl

  dropped_unused : (c : Bool) → ((s.buf b).refcnt == 1) ≡ c → unused (drop_ref b s) b ≡ c
  dropped_unused c h =
      ap (λ (w : Buf). w.refcnt == 0)
        (update_self s.buf b
          (record (s.buf b) { refcnt = ((s.buf b).refcnt + 2 ^ 32 - 1) % 2 ^ 32 }))
      ∙ ap (λ n. n == 0) lowered
      ∙ ground (arith, h, pos)

  moved-IsValid :
      (xs ys : List ℕ)
      → l ≡ xs ++ (b ∷ ys)
      → IsValid (push_front b (unlink b (drop_ref b s))) (b ∷ (xs ++ ys))
  unfolding push_front unlink
  moved-IsValid xs ys e =
      let once : Distinct (xs ++ (b ∷ ys)) = subst Distinct e inv.once in
      let out : contains (xs ++ (b ∷ ys)) head ≡ false =
        ap (λ m. contains m head) (sym e) ∙ head_out inv in
      let alone = Distinct-middle xs b ys once in
      let h : Linked s.next s.prev head (xs ++ (b ∷ ys)) head =
        subst (λ m. Linked s.next s.prev head m head) e inv.linked in
      record {
        linked =
            push_front-Linked (unlink b (drop_ref b s)) b (xs ++ ys)
              (unlink-Linked (drop_ref b s) b xs ys h once out) (ground (arith, alone.1, hb))
              (ground (arith, out, contains-append xs ys head, contains-append xs (b ∷ ys) head))
              alone.0;
        once = (alone.1, alone.0);
        all = λ a.
            same_members a (contains-append xs ys a) (contains-append xs (b ∷ ys) a)
            ∙ ap (λ m. contains m a) (sym e)
            ∙ inv.all a;
        count = sym (length-middle xs b ys) ∙ ap length (sym e) ∙ inv.count;
        unique = drop_ref-IsValid.unique;
        range = drop_ref-IsValid.range;
      }
    where
      same_members :
          (a : ℕ)
          → contains (xs ++ ys) a ≡ (contains xs a || contains ys a)
          → contains (xs ++ (b ∷ ys)) a ≡ (contains xs a || contains (b ∷ ys) a)
          → contains (b ∷ (xs ++ ys)) a ≡ contains (xs ++ (b ∷ ys)) a
      same_members a e1 e2 = ground (arith, e1, e2)

  pub brelse_list-Released : Released s b l (brelse_list b s)
  unfolding brelse_list push_front unlink
  brelse_list-Released = elim (Bool-cases ((s.buf b).refcnt == 1)) [
    | inl last ↦
        let (xs, ys, e) = contains_split l b (ring_has inv b hb) in
        let u = dropped_unused true last in
        subst
          (λ c. Released s b l (if c then push_front b (unlink b (drop_ref b s)) else drop_ref b s))
          (sym u)
          (refl, b ∷ (xs ++ ys), moved-IsValid xs ys e, inr (ground (arith, last), xs, ys, e, refl))
    | inr more ↦
        let u = dropped_unused false more in
        subst
          (λ c. Released s b l (if c then push_front b (unlink b (drop_ref b s)) else drop_ref b s))
          (sym u) (refl, l, drop_ref-IsValid, inl (ground (arith, more), refl))
  ]

-- The cache once the process has let go of the buffer.
abbrev pub unlocked : ℕ → Bcache → Bcache
unlocked b s = set_buf b (record (s.buf b) { lock = releasesleep (s.buf b).lock }) s

-- `brelse` of a buffer of a valid cache that is in use panics exactly if the process does not hold it. Else the
-- buffer is unlocked and loses a reference, and nothing else of any buffer changes; the order of use stays as it
-- was, but that a buffer that lost its last reference is now the one used last; and the cache stays valid.
pub brelse-Released :
    (s : Bcache) (l : List ℕ) (pid b : ℕ)
    → IsValid s l
    → b < nbuf
    → 0 < (s.buf b).refcnt
    → ((holdingsleep pid (s.buf b).lock ≡ false) × (brelse pid b s ≡ panic))
      ⊎ ((holdingsleep pid (s.buf b).lock ≡ true)
          × (s' : Bcache) × (brelse pid b s ≡ done s')
          × Released (unlocked b s) b l s')
unfolding brelse brelse_unlock
brelse-Released s l pid b inv hb pos = elim (Bool-cases (holdingsleep pid (s.buf b).lock)) [
  | inr other ↦ inl (other, ap after other)
  | inl own ↦
      let inv' =
        rewrite-IsValid inv b (record (s.buf b) { lock = releasesleep (s.buf b).lock }) hb
          (inv.range b) refl refl in
      let kept : ((unlocked b s).buf b).refcnt ≡ (s.buf b).refcnt =
        ap (λ (w : Buf). w.refcnt)
          (update_self s.buf b (record (s.buf b) { lock = releasesleep (s.buf b).lock })) in
      inr (
        own,
        brelse_list b (unlocked b s),
        ap after own,
        brelse_list-Released inv' b hb (subst (λ n. 0 < n) (sym kept) pos),
      )
]
  where
    after : Bool → Outcome Bcache
    after c = (if not c then panic else done (unlocked b s)) >>= λ s'. done (brelse_list b s')
