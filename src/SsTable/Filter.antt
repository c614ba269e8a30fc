-- ===== src/SsTable/Filter.antt =====
-- The filter that SSTable::build makes: its size, and that it admits every key of the table.
use native.Mathlib.Nat.{pow-le-pow_right}
use key_val_store.Base.{
  ℕ, zero, suc, ◌+◌, ◌-◌, ◌/◌, ◌^◌, ◌≤◌, ◌<◌, ◌≡◌, refl, ap, ◌∙◌, true, some, [], ◌∷◌, length,
  length-replicate, arith, ltb, add64, below_or_beyond, ◌⊎◌, inl, inr, Bool-cases,
}
use key_val_store.Base.Bits.{two_pow}
use key_val_store.Str.{Bytes}
use key_val_store.Str.Order.{eq_of_compare}
use key_val_store.OrdMap.{OrdMap, find}
use key_val_store.MemTable.{MemEntry}
use key_val_store.Bloom.{BloomFilter, next_pow2, fresh_bits, fresh, add, may_contain}
use key_val_store.Bloom.Pow2.{next_pow2_rounds_up}
use key_val_store.Bloom.Member.{
  IsSized, add-shape, add-IsSized, may_contain-add, may_contain-add_keeps,
}
use key_val_store.SsTable.{add_keys}

pub add_keys-shape :
    (m : OrdMap MemEntry) (f : BloomFilter)
    → ((add_keys m f).m ≡ f.m) × (length (add_keys m f).bits ≡ length f.bits)
unfolding add_keys
add_keys-shape [] f = (refl, refl)
add_keys-shape ((k, e) ∷ m) f =
    let (a, b) = add-shape k f in let (c, d) = add_keys-shape m (add k f) in (c ∙ a, d ∙ b)

add_keys-keeps :
    (m : OrdMap MemEntry) (key : Bytes) (f : BloomFilter)
    → IsSized f
    → may_contain key f ≡ true
    → may_contain key (add_keys m f) ≡ true
unfolding add_keys
add_keys-keeps [] key f s h = h
add_keys-keeps ((k, e) ∷ m) key f s h =
    add_keys-keeps m key (add k f) (add-IsSized k f s) (may_contain-add_keeps k key f s h)

found_here_or_later :
    (key k : Bytes) (w : MemEntry) (m : OrdMap MemEntry) (e : MemEntry)
    → find key ((k, w) ∷ m) ≡ some e
    → (key ≡ k) ⊎ (find key m ≡ some e)
unfolding find
found_here_or_later key k w m e h = ground (arith, eq_of_compare key k)

-- Over a filter whose array covers its bits, the filter to which all keys of a map were added
-- admits every key that the map holds.
pub may_contain-add_keys :
    (m : OrdMap MemEntry) (key : Bytes) (e : MemEntry) (f : BloomFilter)
    → IsSized f
    → find key m ≡ some e
    → may_contain key (add_keys m f) ≡ true
unfolding add_keys find
may_contain-add_keys [] key e f s h = ground arith
may_contain-add_keys ((k, w) ∷ m) key e f s h = elim (found_here_or_later key k w m e h) [
  | inl same ↦ rw same (add_keys-keeps m k (add k f) (add-IsSized k f s) (may_contain-add k f s))
  | inr later ↦ may_contain-add_keys m key e (add k f) (add-IsSized k f s) later
]

small_power : (n v : ℕ) → 2 ^ n < v + 2 ^ (n - 1) → v ≤ 2 ^ 31 → n ≤ 31
small_power n v h p = elim (below_or_beyond n 32) [
  | inl small ↦ omega arith
  | inr (j, e) ↦
      let e' : n ≡ suc (31 + j) = omega arith in
      let e'' : n - 1 ≡ 31 + j = omega arith in
      let bound : 31 ≤ 31 + j = omega arith in
      absurd (
        omega (
          arith,
          pow-le-pow_right {n = 2} (omega arith) bound,
          rw e'' at h,
          ap (λ (t : ℕ). 2 ^ t) e',
          two_pow (31 + j),
        ))
]

-- Rounding up a size of at most 2^31 bits gives a power of two of at most 2^31.
rounded : (v : ℕ) → v ≤ 2 ^ 31 → (k : ℕ) × (k ≤ 31) × (next_pow2 v ≡ 2 ^ k) × (next_pow2 v ≤ 2 ^ 31)
rounded zero h = (0, omega arith, unfold next_pow2 in refl, unfold next_pow2 in omega arith)
rounded (suc v) h =
    let (k, a, b, c, d) = next_pow2_rounds_up (suc v) (omega arith) (omega arith) in
    let small = small_power k (suc v) d h in
    (k, small, b, rw b (pow-le-pow_right {n = 2} (omega arith) small))

module _ (optimal_bits : ℕ → ℕ) where
  -- A fresh filter has 2^k bits, at least 64 and at most 2^31.
  pub fresh_bits_power :
      (n : ℕ)
      → optimal_bits n ≤ 2 ^ 31
      → (k : ℕ) × (k ≤ 31)
        × (fresh_bits optimal_bits n ≡ 2 ^ k)
        × (64 ≤ fresh_bits optimal_bits n)
        × (fresh_bits optimal_bits n ≤ 2 ^ 31)
  unfolding fresh_bits
  fresh_bits_power n h = elim (Bool-cases (ltb (next_pow2 (optimal_bits n)) 64)) [
    | inl small ↦ rw small (6, omega arith, refl, omega arith, omega arith)
    | inr large ↦
        let (k, a, b, c) = rounded (optimal_bits n) h in rw large (k, a, b, ground arith, c)
  ]

  pub fresh-shape :
      (n : ℕ)
      → optimal_bits n ≤ 2 ^ 31
      → ((fresh optimal_bits n).m ≡ fresh_bits optimal_bits n)
        × (length (fresh optimal_bits n).bits ≡ (fresh_bits optimal_bits n + 7) / 8)
  unfolding fresh
  fresh-shape n h =
      let (k, a, b, c, d) = fresh_bits_power n h in
      (refl, omega (arith, length-replicate {A = ℕ} (add64 (fresh_bits optimal_bits n) 7 / 8) 0))

  pub fresh-IsSized : (n : ℕ) → optimal_bits n ≤ 2 ^ 31 → IsSized (fresh optimal_bits n)
  fresh-IsSized n h =
      let (k, a, b, c, d) = fresh_bits_power n h in
      let (e, l) = fresh-shape n h in
      record {
        positive = rw e (omega arith);
        word = rw e (omega arith);
        covered = rw (e, l) (omega arith);
      }
