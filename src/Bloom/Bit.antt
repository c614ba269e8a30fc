-- ===== src/Bloom/Bit.antt =====
-- set_bit sets the bit that get_bit reads, and clears none.
use Prim.Native.Nat.{bit_or, max}
use native.Mathlib.Nat.{div-div-eq-div-mul}
use key_val_store.Base.{
  ℕ, zero, suc, ◌*◌, ◌/◌, ◌%◌, ◌^◌, ◌≤◌, ◌<◌, ◌≡◌, refl, ap, sym, Bool, true, ◌&&◌, ◌||◌,
  if◌then◌else◌, [], ◌∷◌, length, get_or, set, arith, ◌==◌, length-set, below_or_beyond, inl, inr,
}
use key_val_store.Base.Bits.{bit_or_digit, two_pow}
use key_val_store.Str.{Bytes}
use key_val_store.Bloom.{BloomFilter, set_bit, get_bit}

-- Bit `p` of a number.
abbrev bit_at : ℕ → ℕ → ℕ
bit_at a p = a / 2 ^ p % 2

half_shift : (p a : ℕ) → a / 2 ^ suc p ≡ a / 2 / 2 ^ p
half_shift p a = rw two_pow (sym (div-div-eq-div-mul a 2 (2 ^ p)))

bit_at-bit_or : (p a b : ℕ) → bit_at (bit_or a b) p ≡ max (bit_at a p) (bit_at b p)
bit_at-bit_or zero a b = omega (arith, bit_or_digit a b)
bit_at-bit_or (suc p) a b =
    let e : bit_or a b / 2 ≡ bit_or (a / 2) (b / 2) = omega (arith, bit_or_digit a b) in
    omega (
      arith,
      half_shift p (bit_or a b),
      half_shift p a,
      half_shift p b,
      ap (λ (t : ℕ). bit_at t p) e,
      bit_at-bit_or p (a / 2) (b / 2),
    )

-- The bits of the masks `1 << p`, as a table over both shifts.
abbrev mask_bit : ℕ → ℕ → ℕ
mask_bit p q = if p == q then 1 else 0

mask_row : ℕ → ℕ → Bool
mask_row p zero = true
mask_row p (suc q) = (bit_at (2 ^ p % 256) q == mask_bit p q) && mask_row p q

mask_rows : ℕ → Bool
unfolding mask_row
mask_rows zero = true
mask_rows (suc p) = mask_row p 8 && mask_rows p

mask_row_entry : (p n q : ℕ) → mask_row p n ≡ true → q < n → bit_at (2 ^ p % 256) q ≡ mask_bit p q
unfolding mask_row
mask_row_entry p zero q h k = elim k [ ]
mask_row_entry p (suc n) q h k = ground (arith, mask_row_entry p n q)

mask_rows_entry :
    (n p q : ℕ) → mask_rows n ≡ true → p < n → q < 8 → bit_at (2 ^ p % 256) q ≡ mask_bit p q
unfolding mask_rows
mask_rows_entry zero p q h k l = elim k [ ]
mask_rows_entry (suc n) p q h k l =
    let row : mask_row n 8 ≡ true = ground arith in
    let rows : mask_rows n ≡ true = ground arith in
    elim (below_or_beyond p n) [
      | inl below ↦ mask_rows_entry n p q rows below l
      | inr (m, e) ↦ let e' : p ≡ n = omega arith in rw e' (mask_row_entry n 8 q row l)
    ]

bit_at-mask : (p q : ℕ) → p < 8 → q < 8 → bit_at (2 ^ p % 256) q ≡ mask_bit p q
unfolding mask_rows
bit_at-mask p q h k = mask_rows_entry 8 p q refl h k

get_or-set :
    (xs : Bytes) (i j v : ℕ)
    → i < length xs
    → get_or (set xs i v) j 0 ≡ (if i == j then v else get_or xs j 0)
get_or-set [] i j v h = elim h [ ]
get_or-set (x ∷ xs) zero zero v h = refl
get_or-set (x ∷ xs) zero (suc j) v h = ground arith
get_or-set (x ∷ xs) (suc i) zero v h = ground arith
get_or-set (x ∷ xs) (suc i) (suc j) v h = ground (arith, get_or-set xs i j v)

-- A filter whose array has a byte for every bit position below `m`.
abbrev pub Covers : BloomFilter → Type 0
Covers f = f.m ≤ 8 * length f.bits

pub set_bit-shape :
    (i : ℕ) (f : BloomFilter)
    → ((set_bit i f).m ≡ f.m) × (length (set_bit i f).bits ≡ length f.bits)
unfolding set_bit
set_bit-shape i f = (refl, length-set f.bits (i / 8) _)

-- After set_bit of a bit within the array, get_bit returns true for that bit, and for every other
-- bit what it returned before.
pub get_bit-set_bit :
    (i j : ℕ) (f : BloomFilter)
    → i / 8 < length f.bits
    → get_bit j (set_bit i f) ≡ (i == j || get_bit j f)
unfolding get_bit set_bit
get_bit-set_bit i j f h = ground (
  arith,
  get_or-set f.bits (i / 8) (j / 8) (bit_or (get_or f.bits (i / 8) 0) (2 ^ (i % 8) % 256)),
  bit_at-bit_or (j % 8) (get_or f.bits (i / 8) 0) (2 ^ (i % 8) % 256),
  bit_at-mask (i % 8) (j % 8),
)
