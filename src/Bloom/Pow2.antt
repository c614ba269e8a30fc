-- ===== src/Bloom/Pow2.antt =====
-- next_pow2 rounds up to a power of two.
use Prim.Native.Nat.{bit_or}
use native.Mathlib.Nat.{
  mul_comm, add-mul-div_right, le-div_iff_mul-le, lt-div-mul-add, div-lt_iff_lt-mul,
  mul-le-mul_right, mul_assoc, mul-one, mod-lt, div-add-mod', div-le_self, pow-le-pow_right,
  mod-eq_of_lt,
}
use key_val_store.Base.{
  ℕ, zero, suc, ◌+◌, ◌-◌, ◌*◌, ◌/◌, ◌%◌, ◌^◌, ◌≤◌, ◌<◌, ◌≡◌, sym, inl, inr, arith, ap, ◌∙◌,
  below_or_beyond,
}
use key_val_store.Base.Bits.{bit_or-ge_left, bit_or-ge_right, bit_or-lt_pow, bit_or-high, two_pow}
use key_val_store.Bloom.{smear, next_pow2}

pub pow-add : (a b : ℕ) → 2 ^ (a + b) ≡ 2 ^ a * 2 ^ b
pow-add zero b = let e : 0 + b ≡ b = omega arith in rw e (omega arith)
pow-add (suc a) b =
    let e : suc a + b ≡ suc (a + b) = omega arith in
    rw e (
      omega (arith, two_pow (a + b), two_pow a, pow-add a b, ap (λ (t : ℕ). t * 2 ^ b) (two_pow a)))

pub pow-pos : (n : ℕ) → 0 < 2 ^ n
pow-pos zero = omega arith
pow-pos (suc n) = omega (arith, two_pow n, pow-pos n)

-- The shifted copy fills the bits below the leading ones.
shifted_fill : (J M D x : ℕ) → 0 < J → M ≤ D * J → M * J ≤ x + M → M ≤ x / J + D
shifted_fill J M D x p q r = rw (← add-mul-div_right x D p) ((le-div_iff_mul-le p).1 (omega arith))

high_part : (J M x : ℕ) → 0 < M → J * M ≤ x + M → J * M ≤ x / M * M + M
high_part J M x p h = elim (below_or_beyond J (x / M + 2)) [
  | inl small ↦ omega (arith, mul-le-mul_right M (le_of small))
  | inr (d, e) ↦ absurd (omega (arith, lt-div-mul-add {a = x} p, ap (λ (t : ℕ). t * M) e))
]
  where
    le_of : J < x / M + 2 → J ≤ x / M + 1
    le_of l = omega arith

div_below : (J M x : ℕ) → 0 < J → x < M * J → x / J < M
div_below J M x p h = (div-lt_iff_lt-mul p).1 h

pow-cover : (m j : ℕ) → 2 ^ m ≤ 2 ^ (m - j) * 2 ^ j
pow-cover m j = elim (below_or_beyond m j) [
  | inl p ↦
      let e : m - j ≡ 0 = omega arith in
      rw e (omega (arith, pow-le-pow_right {n = 2} (omega arith) (le_of p)))
  | inr (k, e) ↦
      let e' : m - j ≡ k = omega arith in
      rw e' (rw e (omega (arith, pow-add j k, mul_comm (2 ^ j) (2 ^ k))))
]
  where
    le_of : m < j → m ≤ j
    le_of l = omega arith

fill_step :
    (j m x : ℕ)
    → x < 2 ^ (j + m)
    → 2 ^ (j + m) ≤ x + 2 ^ m
    → 2 ^ (j + m) ≤ bit_or x (x / 2 ^ j) + 2 ^ (m - j)
fill_step j m x p q =
    let J = 2 ^ j in
    let M = 2 ^ m in
    let low : x % M < M = mod-lt x (pow-pos m) in
    let copy : x / J < M = div_below J M x (pow-pos j) (omega (arith, pow-add j m, mul_comm J M)) in
    omega (
      arith,
      pow-add j m,
      mul_comm J M,
      bit_or-high m (x / M) (x % M) (x / J) low copy,
      ap (λ (t : ℕ). bit_or t (x / J)) (div-add-mod' x M),
      bit_or-ge_right (x % M) (x / J),
      high_part J M x (pow-pos m) (omega (arith, pow-add j m)),
      shifted_fill J M (2 ^ (m - j)) x (pow-pos j) (pow-cover m j)
          (omega (arith, pow-add j m, mul_comm J M)),
    )

-- One round keeps the width and doubles the run of leading ones.
smear_round :
    (n i v : ℕ)
    → v < 2 ^ n
    → 2 ^ n ≤ v + 2 ^ (n - i)
    → (bit_or v (v / 2 ^ i) < 2 ^ n) × (2 ^ n ≤ bit_or v (v / 2 ^ i) + 2 ^ (n - i * 2))
smear_round n i v p q =
    (bit_or-lt_pow n v (v / 2 ^ i) p (omega (arith, div-le_self v (2 ^ i))), filled)
  where
    filled : 2 ^ n ≤ bit_or v (v / 2 ^ i) + 2 ^ (n - i * 2)
    filled = elim (below_or_beyond n i) [
      | inl s ↦
          let e : n - i ≡ 0 = omega arith in
          omega (arith, rw e at q, bit_or-ge_left v (v / 2 ^ i), pow-pos (n - i * 2))
      | inr (m, e) ↦
          let e₁ : n - i ≡ m = omega arith in
          let e₂ : n - i * 2 ≡ m - i = omega arith in
          rw (e₂, e) (fill_step i m v (rw e at p) (rw e at (rw e₁ at q)))
    ]

smear_rounds :
    (rounds i n v : ℕ)
    → v < 2 ^ n
    → 2 ^ n ≤ v + 2 ^ (n - i)
    → (smear rounds i v < 2 ^ n) × (2 ^ n ≤ smear rounds i v + 2 ^ (n - i * 2 ^ rounds))
unfolding smear
smear_rounds zero i n v p q = (p, rw mul-one q)
smear_rounds (suc r) i n v p q =
    let (below, filled) = smear_round n i v p q in
    let (below', filled') = smear_rounds r (i * 2) n (bit_or v (v / 2 ^ i)) below filled in
    let e : i * 2 ^ suc r ≡ i * 2 * 2 ^ r = rw (two_pow r) (sym (mul_assoc i 2 (2 ^ r))) in
    (below', rw e filled')

-- A number with its highest bit at `n - 1` becomes `n` ones.
smear-ones : (n v : ℕ) → n ≤ 64 → v < 2 ^ n → 2 ^ n ≤ v + 2 ^ (n - 1) → smear 6 1 v + 1 ≡ 2 ^ n
smear-ones n v h p q =
    let (below, filled) = smear_rounds 6 1 n v p q in
    let e : n - 1 * 2 ^ 6 ≡ 0 = omega arith in omega (arith, rw e at filled)

width : (k w : ℕ) → w < 2 ^ k → (n : ℕ) × (n ≤ k) × (w < 2 ^ n) × (2 ^ n ≤ w + 2 ^ (n - 1))
width zero w h = (0, omega arith, h, omega arith)
width (suc k) w h = elim (below_or_beyond w (2 ^ k)) [
  | inl small ↦ let (n, a, b, c) = width k w small in (n, omega arith, b, c)
  | inr (m, e) ↦
      let e' : suc k - 1 ≡ k = omega arith in
      (suc k, omega arith, h, rw e' (omega (arith, two_pow k)))
]

-- For 0 < v ≤ 2^63 next_pow2 returns 2^n with n ≤ 63, v ≤ 2^n, and 2^n below v + 2^(n - 1): no
-- smaller power of two reaches v.
pub next_pow2_rounds_up :
    (v : ℕ)
    → 0 < v
    → v ≤ 2 ^ 63
    → (n : ℕ) × (n ≤ 63) × (next_pow2 v ≡ 2 ^ n) × (v ≤ 2 ^ n) × (2 ^ n < v + 2 ^ (n - 1))
unfolding next_pow2
next_pow2_rounds_up zero p h = absurd (omega arith)
next_pow2_rounds_up (suc v) p h =
    let (n, a, b, c) = width 63 v (omega arith) in
    let e = smear-ones n v (omega arith) b c in
    let bound = pow-le-pow_right {n = 2} (omega arith) a in
    (n, a, rw e (mod-eq_of_lt (omega arith)), b, omega arith)

next_pow2_top : (n v : ℕ) → n ≤ 63 → suc v ≡ 2 ^ n → next_pow2 (suc v) ≡ 2 ^ n
unfolding next_pow2
next_pow2_top n v h e =
    let ones = smear-ones n v (omega arith) (omega arith) (omega (arith, pow-pos (n - 1))) in
    let bound = pow-le-pow_right {n = 2} (omega arith) h in rw ones (mod-eq_of_lt (omega arith))

-- A power of two is its own result.
pub next_pow2-pow : (n : ℕ) → n ≤ 63 → next_pow2 (2 ^ n) ≡ 2 ^ n
next_pow2-pow n h =
    let e : suc (2 ^ n - 1) ≡ 2 ^ n = omega (arith, pow-pos n) in
    ap next_pow2 (sym e) ∙ next_pow2_top n (2 ^ n - 1) h e
