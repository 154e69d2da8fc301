-- ===== src/Bitmap/Bits.antt =====
-- A bit of a number that is set or cleared leaves the other bits as they were.
use xv6_extended.Base.{
  ℕ, zero, suc, ◌+◌, ◌-◌, ◌*◌, ◌/◌, ◌%◌, ◌^◌, ◌≤◌, ◌<◌, ◌≡◌, ◌≢◌, ◌∙◌, sym, ap, subst, true, false,
  ◌==◌, has_bit, arith, dec_lt,
}
use native.Mathlib.Nat.{
  pow-suc, pow-succ', one-le-pow, div-mul-le_self, mul_assoc, div-div-eq-div-mul, add-mul-div_left,
  add-div_right,
}

-- Adding an even multiple of `b` keeps the bit `b`.
low_kept : (x b p : ℕ) → 0 < b → (x + b * (2 * p)) / b % 2 ≡ x / b % 2
low_kept x b p pos = ap (λ q. q % 2) (add-mul-div_left x (2 * p) pos) ∙ even (x / b) p
  where
    even : (q p : ℕ) → (q + 2 * p) % 2 ≡ q % 2
    even q p = omega arith

-- Setting the bit `m` that is clear keeps what is above it.
high_kept : (x m p : ℕ) → 0 < m → x / m % 2 ≡ 0 → (x + m) / (m * (2 * p)) ≡ x / (m * (2 * p))
high_kept x m p pos clear =
    sym (div-div-eq-div-mul (x + m) m (2 * p))
    ∙ ap (λ q. q / (2 * p)) (add-div_right x pos)
    ∙ sym (div-div-eq-div-mul (x / m + 1) 2 p)
    ∙ ap (λ q. q / p) (half (x / m) clear)
    ∙ div-div-eq-div-mul (x / m) 2 p
    ∙ div-div-eq-div-mul x m (2 * p)
  where
    half : (q : ℕ) → q % 2 ≡ 0 → (q + 1) / 2 ≡ q / 2
    half q e = omega (arith, e)

two_pow_add : (i n : ℕ) → 2 ^ (i + n) ≡ 2 ^ i * 2 ^ n
two_pow_add i zero =
    let e : i + 0 ≡ i = omega arith in
    let one_time : 2 ^ i ≡ 2 ^ i * 1 = omega arith in ap (λ k. 2 ^ k) e ∙ one_time
two_pow_add i (suc n) =
    let e : i + suc n ≡ suc (i + n) = omega arith in
    ap (λ k. 2 ^ k) e
    ∙ pow-suc 2 (i + n)
    ∙ ap (λ q. q * 2) (two_pow_add i n)
    ∙ mul_assoc (2 ^ i) (2 ^ n) 2
    ∙ ap (λ q. 2 ^ i * q) (sym (pow-suc 2 n))

two_pow_split : (i j : ℕ) → i < j → 2 ^ j ≡ 2 ^ i * (2 * 2 ^ (j - i - 1))
two_pow_split i j h =
    let e : j ≡ i + suc (j - i - 1) = omega (arith, h) in
    ap (λ k. 2 ^ k) e
    ∙ two_pow_add i (suc (j - i - 1))
    ∙ ap (λ q. 2 ^ i * q) (pow-succ' 2 (j - i - 1))

two_pow_pos : (i : ℕ) → 0 < 2 ^ i
two_pow_pos i = one-le-pow i 2 (omega arith)

-- Setting a bit that is clear keeps every other bit.
pub set_kept :
    (x i j : ℕ)
    → has_bit x (2 ^ i) ≡ false
    → i ≢ j
    → has_bit (x + 2 ^ i) (2 ^ j) ≡ has_bit x (2 ^ j)
set_kept x i j clear ne = elim (dec_lt i j) [
  | yes above ↦
      let z : x / 2 ^ i % 2 ≡ 0 = ground (arith, clear) in
      ap (λ q. q % 2 == 1)
        (subst (λ m. (x + 2 ^ i) / m ≡ x / m) (sym (two_pow_split i j above))
          (high_kept x (2 ^ i) (2 ^ (j - i - 1)) (two_pow_pos i) z))
  | no not_above ↦
      let below : j < i = omega (arith, not_above, ne) in
      ap (λ q. q == 1)
        (subst (λ m. (x + m) / 2 ^ j % 2 ≡ x / 2 ^ j % 2) (sym (two_pow_split j i below))
          (low_kept x (2 ^ j) (2 ^ (i - j - 1)) (two_pow_pos j)))
]

pub set_self : (x i : ℕ) → has_bit x (2 ^ i) ≡ false → has_bit (x + 2 ^ i) (2 ^ i) ≡ true
set_self x i clear = ap (λ q. q % 2 == 1) (add-div_right x (two_pow_pos i)) ∙ odd (x / 2 ^ i) clear
  where
    odd : (q : ℕ) → (q % 2 == 1) ≡ false → ((q + 1) % 2 == 1) ≡ true
    odd q e = ground (arith, e)

-- A number with a bit that is set is another one, with that bit clear, plus the bit.
pub bit_le : (x m : ℕ) → has_bit x m ≡ true → m ≤ x
bit_le x m h = go (x / m) (div-mul-le_self x m) h
  where
    go : (q : ℕ) → q * m ≤ x → (q % 2 == 1) ≡ true → m ≤ x
    go zero le e = cc e
    go (suc q) le e = let k : suc q * m ≡ q * m + m = omega arith in omega (arith, le, k)

cleared_bit : (x i : ℕ) → has_bit x (2 ^ i) ≡ true → has_bit (x - 2 ^ i) (2 ^ i) ≡ false
cleared_bit x i h =
    let le = bit_le x (2 ^ i) h in
    let whole : x - 2 ^ i + 2 ^ i ≡ x = omega (arith, le) in
    let up = add-div_right (x - 2 ^ i) (two_pow_pos i) in
    even ((x - 2 ^ i) / 2 ^ i) (x / 2 ^ i) (sym up ∙ ap (λ y. y / 2 ^ i) whole) h
  where
    even : (q r : ℕ) → q + 1 ≡ r → (r % 2 == 1) ≡ true → (q % 2 == 1) ≡ false
    even q r e h = ground (arith, e, h)

pub clear_self : (x i : ℕ) → has_bit x (2 ^ i) ≡ true → has_bit (x - 2 ^ i) (2 ^ i) ≡ false
clear_self = cleared_bit

-- Clearing a bit keeps every other bit.
pub clear_kept :
    (x i j : ℕ) → has_bit x (2 ^ i) ≡ true → i ≢ j → has_bit (x - 2 ^ i) (2 ^ j) ≡ has_bit x (2 ^ j)
clear_kept x i j h ne =
    let le = bit_le x (2 ^ i) h in
    let whole : x - 2 ^ i + 2 ^ i ≡ x = omega (arith, le) in
    sym (set_kept (x - 2 ^ i) i j (cleared_bit x i h) ne) ∙ ap (λ y. has_bit y (2 ^ j)) whole
