-- ===== src/Bench/Keys.antt =====
-- The keys and the values of src/bench.cpp, and the buffers that they are printed to.
use key_val_store.Base.{
  ℕ, zero, suc, ◌+◌, ◌-◌, ◌/◌, ◌%◌, ◌^◌, ◌<◌, ◌≤◌, ◌≡◌, ◌≢◌, refl, ap, sym, ◌∙◌, false, [], ◌∷◌,
  ◌++◌, length, replicate, drop, arith, inl, inr, ℕ-cases, Bool-cases, length-append,
  length-replicate, take_beyond,
}
use key_val_store.Str.{Bytes, str_eq}
use key_val_store.Str.Order.{str_eq_iff}
use key_val_store.Text.{leading_number}
use key_val_store.Names.{ascii, digits_loop, decimal}
use key_val_store.Names.Distinct.{
  digits_loop-zero, digits_loop-suc, ten_pow, leading_number-zeros, leading_number-digits,
}
use key_val_store.Bench.{snprintf, zero_padded, fmtkey, fmtval}

length-digits_loop :
    (fuel k n : ℕ) (acc : Bytes)
    → n < 10 ^ suc k
    → length (digits_loop fuel n acc) ≤ suc k + length acc
length-digits_loop zero k n acc h = unfold digits_loop in omega arith
length-digits_loop (suc fuel) zero n acc h =
    rw (digits_loop-zero fuel n acc (omega (arith, h))) (omega arith)
length-digits_loop (suc fuel) (suc k) n acc h = elim (ℕ-cases (n / 10)) [
  | inl z ↦ rw (digits_loop-zero fuel n acc z) (omega arith)
  | inr (q, e) ↦ rw (digits_loop-suc fuel n q acc e) (
      omega (
        arith,
        length-digits_loop fuel k (n / 10) ((48 + n % 10) ∷ acc)
            (omega (arith, h, ten_pow k, ten_pow (suc k))),
      ))
]

pub length-zero_padded :
    (width i : ℕ) → i < 2 ^ 31 → 10 ≤ width → length (zero_padded width i) ≡ width
unfolding zero_padded decimal
length-zero_padded width i h w =
    let digits = length-digits_loop 20 9 i [] (omega (arith, h)) in
    omega (
      arith,
      length-append (replicate (width - length (digits_loop 20 i [])) 48) (digits_loop 20 i []),
      length-replicate {A = ℕ} (width - length (digits_loop 20 i [])) 48,
      digits,
      w,
    )

module _ (i : ℕ) (int : i < 2 ^ 31) where
  fmtkey_whole : fmtkey i ≡ ascii "k" ++ zero_padded 15 i
  unfolding fmtkey snprintf
  fmtkey_whole =
      take_beyond 23 (ascii "k" ++ zero_padded 15 i)
        (omega (arith, length-zero_padded 15 i int (omega arith)))

  fmtval_whole : fmtval i ≡ ascii "v" ++ (zero_padded 15 i ++ (ascii "_" ++ zero_padded 80 i))
  unfolding fmtval snprintf
  fmtval_whole =
      take_beyond 103 (ascii "v" ++ (zero_padded 15 i ++ (ascii "_" ++ zero_padded 80 i))) (
        omega (
          arith,
          length-append (zero_padded 15 i) (ascii "_" ++ zero_padded 80 i),
          length-zero_padded 15 i int (omega arith),
          length-zero_padded 80 i int (omega arith),
        ))

  pub length-fmtkey : length (fmtkey i) ≡ 16
  length-fmtkey = rw fmtkey_whole (omega (arith, length-zero_padded 15 i int (omega arith)))

  pub length-fmtval : length (fmtval i) ≡ 97
  length-fmtval = rw fmtval_whole (
      omega (
        arith,
        length-append (zero_padded 15 i) (ascii "_" ++ zero_padded 80 i),
        length-zero_padded 15 i int (omega arith),
        length-zero_padded 80 i int (omega arith),
      ))

  -- The number that a key is made of is read back from it.
  number-fmtkey : leading_number 0 (drop 1 (fmtkey i)) ≡ i
  number-fmtkey = rw fmtkey_whole (
      unfold zero_padded decimal in
      leading_number-zeros (15 - length (digits_loop 20 i [])) (digits_loop 20 i [])
      ∙ leading_number-digits 19 i [] (omega (arith, int))
      ∙ (unfold leading_number in refl))

-- Different numbers below 2^31 give different keys.
pub fmtkey-ne : (i j : ℕ) → i < 2 ^ 31 → j < 2 ^ 31 → i ≢ j → str_eq (fmtkey i) (fmtkey j) ≡ false
fmtkey-ne i j p q h = elim (Bool-cases (str_eq (fmtkey i) (fmtkey j))) [
  | inl same ↦ absurd (
      h (
        sym (number-fmtkey i p)
        ∙ ap (λ s. leading_number 0 (drop 1 s)) ((str_eq_iff (fmtkey i) (fmtkey j)).0 same)
        ∙ number-fmtkey j q))
  | inr differ ↦ differ
]
