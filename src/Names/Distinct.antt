-- ===== src/Names/Distinct.antt =====
-- The files of the store do not share names.
use mathlib.Core.List.{append_assoc}
use key_val_store.Base.{
  ℕ, zero, suc, ◌+◌, ◌-◌, ◌*◌, ◌/◌, ◌%◌, ◌^◌, ◌<◌, ◌≡◌, ◌≢◌, refl, ap, ◌∙◌, sym, true, false, ◌∷◌,
  ◌++◌, replicate, drop, arith, Bool-cases, inl, inr, ℕ-cases,
}
use key_val_store.Str.{Bytes, str_compare, str_eq}
use key_val_store.Str.Order.{str_eq_iff}
use key_val_store.Text.{is_digit, leading_number}
use key_val_store.Names.{
  ascii, digits_loop, decimal, padded, sst_path, wal_seg_path, done_path, manifest_name,
  manifest_tmp_name,
}

pub digits_loop-append :
    (fuel n : ℕ) (acc t : Bytes) → digits_loop fuel n acc ++ t ≡ digits_loop fuel n (acc ++ t)
unfolding digits_loop
digits_loop-append zero n acc t = refl
digits_loop-append (suc fuel) n acc t =
    ground (arith, digits_loop-append fuel (n / 10) ((48 + n % 10) ∷ acc) t)

digit_read :
    (v d : ℕ) (acc : Bytes)
    → d < 10
    → leading_number v ((48 + d) ∷ acc) ≡ leading_number (v * 10 + d) acc
unfolding leading_number
digit_read v d acc h =
    let e : v * 10 + (48 + d - 48) ≡ v * 10 + d = omega arith in
    let test : is_digit (48 + d) ≡ true = ground arith in rw (test, e)

pub digits_loop-zero :
    (fuel n : ℕ) (acc : Bytes) → n / 10 ≡ 0 → digits_loop (suc fuel) n acc ≡ (48 + n % 10) ∷ acc
unfolding digits_loop
digits_loop-zero fuel n acc h = rw (h, digits_loop)

pub digits_loop-suc :
    (fuel n q : ℕ) (acc : Bytes)
    → n / 10 ≡ suc q
    → digits_loop (suc fuel) n acc ≡ digits_loop fuel (n / 10) ((48 + n % 10) ∷ acc)
unfolding digits_loop
digits_loop-suc fuel n q acc h = ground (arith, h)

pub ten_pow : (f : ℕ) → 10 ^ suc f ≡ 10 * 10 ^ f
ten_pow f = omega arith

last_digit :
    (fuel n : ℕ) (acc : Bytes)
    → n / 10 ≡ 0
    → leading_number 0 (digits_loop (suc fuel) n acc) ≡ leading_number n acc
last_digit fuel n acc z =
    let last : 0 * 10 + n % 10 ≡ n = omega arith in
    rw (digits_loop-zero fuel n acc z)
      (digit_read 0 (n % 10) acc (omega arith) ∙ ap (λ v. leading_number v acc) last)

pub leading_number-digits :
    (fuel n : ℕ) (acc : Bytes)
    → n < 10 ^ suc fuel
    → leading_number 0 (digits_loop (suc fuel) n acc) ≡ leading_number n acc
leading_number-digits zero n acc h = last_digit zero n acc (omega arith)
leading_number-digits (suc fuel) n acc h = elim (ℕ-cases (n / 10)) [
  | inl z ↦ last_digit (suc fuel) n acc z
  | inr (q, e) ↦
      let more : n / 10 * 10 + n % 10 ≡ n = omega arith in
      rw (digits_loop-suc (suc fuel) n q acc e) (
        leading_number-digits fuel (n / 10) ((48 + n % 10) ∷ acc)
          (omega (arith, ten_pow fuel, ten_pow (suc fuel)))
        ∙ digit_read (n / 10) (n % 10) acc (omega arith)
        ∙ ap (λ v. leading_number v acc) more)
]

pub leading_number-zeros :
    (k : ℕ) (s : Bytes) → leading_number 0 (replicate k 48 ++ s) ≡ leading_number 0 s
unfolding leading_number
leading_number-zeros zero s = refl
leading_number-zeros (suc k) s = leading_number-zeros k s

-- The number that the digits behind the first four bytes of a table's name spell is its 64-bit
-- id.
pub leading_number-sst_path : (id : ℕ) → id < 2 ^ 64 → leading_number 0 (drop 4 (sst_path id)) ≡ id
unfolding sst_path padded decimal
leading_number-sst_path id h =
    rw (append_assoc, leading_number-zeros, digits_loop-append)
      (leading_number-digits 19 id (ascii ".sst") (omega arith) ∙ (unfold leading_number in refl))

-- Tables with different ids have different names.
pub sst_path-ne :
    (i j : ℕ) → i < 2 ^ 64 → j < 2 ^ 64 → i ≢ j → str_eq (sst_path i) (sst_path j) ≡ false
sst_path-ne i j p q h = elim (Bool-cases (str_eq (sst_path i) (sst_path j))) [
  | inl same ↦ absurd (
      h (
        sym (leading_number-sst_path i p)
        ∙ ap (λ s. leading_number 0 (drop 4 s)) ((str_eq_iff (sst_path i) (sst_path j)).0 same)
        ∙ leading_number-sst_path j q))
  | inr differ ↦ differ
]

pub sst_path-ne-wal_seg_path : (i j : ℕ) → str_eq (sst_path i) (wal_seg_path j) ≡ false
unfolding sst_path wal_seg_path str_compare
sst_path-ne-wal_seg_path i j = refl

pub sst_path-ne-done_path : (i j : ℕ) → str_eq (sst_path i) (done_path j) ≡ false
unfolding sst_path done_path wal_seg_path str_compare
sst_path-ne-done_path i j = refl

pub sst_path-ne-manifest : (i : ℕ) → str_eq (sst_path i) manifest_name ≡ false
unfolding sst_path str_compare
sst_path-ne-manifest i = refl

pub sst_path-ne-manifest_tmp : (i : ℕ) → str_eq (sst_path i) manifest_tmp_name ≡ false
unfolding sst_path str_compare
sst_path-ne-manifest_tmp i = refl
