-- ===== src/Bloom/Distinct.antt =====
-- BloomFilter::probe_positions of src/bloom.cpp: how the probes of one key lie to each other.
use Prim.Native.Nat.{bit_and}
use native.Mathlib.Nat.{
  mul_assoc, add-mul, mul-sub, mul-add, mod-lt, div-add-mod, mod-eq_of_lt, mul-add-mod_self_left,
  pow-le-pow_right,
}
use key_val_store.Base.{
  ℕ, zero, suc, ◌+◌, ◌-◌, ◌*◌, ◌/◌, ◌%◌, ◌^◌, ◌≤◌, ◌<◌, ◌≡◌, ◌≢◌, refl, sym, inl, inr, ◌∙◌, List,
  [], ◌∷◌, All, add64, sub64, arith, ap, below_or_beyond,
}
use key_val_store.Base.Bits.{bit_and_digit, bit_and-le_right, bit_or_digit, two_pow}
use key_val_store.Str.{Bytes}
use key_val_store.Bloom.{
  BloomFilter, probe_count, probes, probe_positions, fnv1a_a, fnv1a_b, fnv1a_b_loop,
}
use key_val_store.Bloom.Pow2.{pow-pos, pow-add}

-- No two members are equal.
abbrev pub Distinct : List ℕ → Type 0
Distinct [] = Unit {0}
Distinct (p ∷ ps) = All (λ q. p ≢ q) ps × Distinct ps

fnv1a_b-odd : (key : Bytes) → fnv1a_b key % 2 ≡ 1
unfolding fnv1a_b
fnv1a_b-odd key = omega (arith, bit_or_digit (fnv1a_b_loop 0xcbf29ce484222325 key) 1)

-- A number is its quotient and remainder by twice `p`, put together from those of its half.
mod_twice : (p x : ℕ) → 0 < p → x % (2 * p) ≡ x / 2 % p * 2 + x % 2
mod_twice p x h =
    let low : x / 2 % p * 2 + x % 2 < 2 * p = omega (arith, mod-lt (x / 2) h) in
    let whole : 2 * p * (x / 2 / p) + (x / 2 % p * 2 + x % 2) ≡ x =
      omega (arith, div-add-mod (x / 2) p, mul_assoc 2 p (x / 2 / p)) in
    ap (λ (t : ℕ). t % (2 * p)) (sym whole)
    ∙ (mul-add-mod_self_left (2 * p) (x / 2 / p) (x / 2 % p * 2 + x % 2) ∙ mod-eq_of_lt low)

-- The mask `2 ^ k - 1` takes the remainder.
bit_and-mask : (k x : ℕ) → bit_and x (2 ^ k - 1) ≡ x % 2 ^ k
bit_and-mask zero x = omega (arith, bit_and-le_right x 0)
bit_and-mask (suc k) x =
    let half : (2 ^ suc k - 1) / 2 ≡ 2 ^ k - 1 = omega (arith, two_pow k, pow-pos k) in
    let odd : (2 ^ suc k - 1) % 2 ≡ 1 = omega (arith, two_pow k, pow-pos k) in
    omega (
      arith,
      odd,
      bit_and_digit x (2 ^ suc k - 1),
      ap (λ (t : ℕ). bit_and (x / 2) t) half,
      bit_and-mask k (x / 2),
      mod_twice (2 ^ k) x (pow-pos k),
      ap (λ (t : ℕ). x % t) (two_pow k),
    )

-- An odd factor does not help to reach a multiple of a power of two.
odd_cancels : (k d h q : ℕ) → h % 2 ≡ 1 → d * h ≡ 2 ^ k * q → (t : ℕ) × (d ≡ 2 ^ k * t)
odd_cancels zero d h q o e = (d, omega arith)
odd_cancels (suc k) d h q o e = elim (below_or_beyond (d % 2) 1) [
  | inl p ↦
      let half : d / 2 * h ≡ 2 ^ k * q =
        omega (arith, ap (λ (t : ℕ). t * h) (halves p), mul_assoc 2 (d / 2) h, twice_pow) in
      let (t, u) = odd_cancels k (d / 2) h q o half in
      (t, omega (arith, u, halves p, ap (λ (s : ℕ). s * t) (two_pow k), mul_assoc 2 (2 ^ k) t))
  | inr (m, p) ↦ absurd (
      omega (
        arith,
        o,
        e,
        p,
        twice_pow,
        ap (λ (t : ℕ). t * h) (odd_d m p),
        add-mul (2 * (d / 2)) 1 h,
        mul_assoc 2 (d / 2) h,
      ))
]
  where
    twice_pow : 2 ^ suc k * q ≡ 2 * (2 ^ k * q)
    twice_pow = ap (λ (t : ℕ). t * q) (two_pow k) ∙ mul_assoc 2 (2 ^ k) q

    halves : d % 2 < 1 → d ≡ 2 * (d / 2)
    halves p = omega arith

    odd_d : (m : ℕ) → d % 2 ≡ 1 + m → d ≡ 2 * (d / 2) + 1
    odd_d m p = omega arith

-- Reducing to a machine word first does not change the remainder.
word_mod : (k x : ℕ) → k ≤ 64 → x % 2 ^ 64 % 2 ^ k ≡ x % 2 ^ k
word_mod k x h = elim (below_or_beyond 64 k) [
  | inl p ↦ absurd (omega arith)
  | inr (j, e) ↦
      let split : 2 ^ 64 ≡ 2 ^ k * 2 ^ j = ap (λ (t : ℕ). 2 ^ t) e ∙ pow-add k j in
      let whole : 2 ^ k * (2 ^ j * (x / 2 ^ 64)) + x % 2 ^ 64 ≡ x =
        omega
          (arith, ap (λ (t : ℕ). t * (x / 2 ^ 64)) split, mul_assoc (2 ^ k) (2 ^ j) (x / 2 ^ 64)) in
      sym (mul-add-mod_self_left (2 ^ k) (2 ^ j * (x / 2 ^ 64)) (x % 2 ^ 64))
      ∙ ap (λ (t : ℕ). t % 2 ^ k) whole
]

-- Probe `i` in a filter of `2 ^ k` bits, without the wrap-around of words.
pub probe_lem :
    (k h1 h2 i m : ℕ)
    → k ≤ 63
    → m ≡ 2 ^ k
    → bit_and (add64 h1 (i * h2 % 2 ^ 64)) (sub64 m 1) ≡ (h1 + i * h2) % 2 ^ k
probe_lem k h1 h2 i m h e =
    let size : 2 ^ k ≤ 2 ^ 63 = pow-le-pow_right {n = 2} (omega arith) h in
    let mask : sub64 m 1 ≡ 2 ^ k - 1 = omega (arith, e, size, pow-pos k) in
    let sum : add64 h1 (i * h2 % 2 ^ 64) ≡ (h1 + i * h2) % 2 ^ 64 = omega arith in
    ap (λ (t : ℕ). bit_and t (sub64 m 1)) sum
    ∙ (ap (λ (t : ℕ). bit_and ((h1 + i * h2) % 2 ^ 64) t) mask
        ∙ (bit_and-mask k ((h1 + i * h2) % 2 ^ 64) ∙ word_mod k (h1 + i * h2) (omega arith)))

-- Two sums with one remainder differ by a multiple.
same_remainder : (p x y : ℕ) → x % p ≡ (x + y) % p → (q : ℕ) × (y ≡ p * q)
same_remainder p x y h = (
  (x + y) / p - x / p,
  omega (arith, div-add-mod x p, div-add-mod (x + y) p, mul-sub p ((x + y) / p) (x / p), h),
)

-- Fewer than `2 ^ k` steps of an odd width do not lead back.
steps_apart :
    (k h1 h2 i d : ℕ)
    → h2 % 2 ≡ 1
    → 0 < d
    → d < 2 ^ k
    → (h1 + i * h2) % 2 ^ k ≢ (h1 + (i + d) * h2) % 2 ^ k
steps_apart k h1 h2 i d odd pos small same =
    let far : h1 + (i + d) * h2 ≡ h1 + i * h2 + d * h2 = omega (arith, add-mul i d h2) in
    let (q, e) =
      same_remainder (2 ^ k) (h1 + i * h2) (d * h2) (same ∙ ap (λ (t : ℕ). t % 2 ^ k) far) in
    let (t, u) = odd_cancels k d h2 q odd e in
    elim (below_or_beyond t 1) [
      | inl none_of ↦ omega (arith, u, ap (λ (s : ℕ). 2 ^ k * s) (zero_of t none_of))
      | inr (m, more) ↦ omega (arith, u, ap (λ (s : ℕ). 2 ^ k * s) more, mul-add (2 ^ k) 1 m)
    ]
  where
    zero_of : (t : ℕ) → t < 1 → t ≡ 0
    zero_of t h = omega arith

module _ (k h1 h2 m : ℕ) (word : k ≤ 63) (size : m ≡ 2 ^ k) (odd : h2 % 2 ≡ 1) where
  -- The probes `j`, `j + 1`, … differ from an earlier one.
  probes-apart :
      (n i j d : ℕ)
      → j ≡ i + d
      → 0 < d
      → d + n ≤ 2 ^ k
      → All (λ q. (h1 + i * h2) % 2 ^ k ≢ q) (probes n j h1 h2 (sub64 m 1))
  unfolding probes
  probes-apart zero i j d e pos room = tt
  probes-apart (suc n) i j d e pos room = (
    λ same.
        steps_apart k h1 h2 i d odd pos (omega arith)
          (same ∙ (probe_lem k h1 h2 j m word size ∙ ap (λ (t : ℕ). (h1 + t * h2) % 2 ^ k) e)),
    probes-apart n i (j + 1) (d + 1) (omega arith) (omega arith) (omega arith),
  )

  -- Up to as many probes as there are bits are distinct: an odd step covers all slots.
  pub probes-Distinct : (n i : ℕ) → n ≤ 2 ^ k → Distinct (probes n i h1 h2 (sub64 m 1))
  unfolding probes
  probes-Distinct zero i h = tt
  probes-Distinct (suc n) i h = (
    rw (probe_lem k h1 h2 i m word size)
        (probes-apart n i (i + 1) 1 refl (omega arith) (omega arith)),
    probes-Distinct n (i + 1) (omega arith),
  )

-- In a filter whose number of bits is a 64-bit power of two and not below the number of probes, the
-- probes of every key are pairwise distinct.
pub probe_positions-Distinct :
    (key : Bytes) (f : BloomFilter) (k : ℕ)
    → k ≤ 63
    → f.m ≡ 2 ^ k
    → probe_count ≤ f.m
    → Distinct (probe_positions key f)
unfolding probe_positions
probe_positions-Distinct key f k word size room =
    probes-Distinct k (fnv1a_a key) (fnv1a_b key) f.m word size (fnv1a_b-odd key) probe_count 0
      (omega arith)
