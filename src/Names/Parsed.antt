-- ===== src/Names/Parsed.antt =====
-- The names that the store prints are recognised, and give their ids back.
use key_val_store.Base.{
  ℕ, zero, suc, ◌+◌, ◌-◌, ◌/◌, ◌%◌, ◌^◌, ◌<◌, ◌≡◌, refl, ap, ◌∙◌, some, [], ◌∷◌, ◌++◌, replicate,
  length, arith, All-append,
}
use key_val_store.Str.{Bytes}
use key_val_store.Text.{leading_number, stoull}
use key_val_store.Text.Lines.{OneLine}
use key_val_store.Text.Numbers.{DigitFirst, stoull-DigitFirst}
use key_val_store.Names.{ascii, digits_loop, decimal, padded, sst_path}
use key_val_store.Names.Distinct.{leading_number-digits, leading_number-zeros}

digits_loop-DigitFirst :
    (fuel n : ℕ) (acc : Bytes) → DigitFirst acc → DigitFirst (digits_loop fuel n acc)
unfolding digits_loop
digits_loop-DigitFirst zero n acc h = h
digits_loop-DigitFirst (suc fuel) n acc h =
    elim (n / 10)
      as (λ q. DigitFirst (elim q [
        | zero ↦ (48 + n % 10) ∷ acc
        | suc _ ↦ digits_loop fuel (n / 10) ((48 + n % 10) ∷ acc)
      ])) [
        | zero ↦ ground arith
        | suc q ↦ digits_loop-DigitFirst fuel (n / 10) ((48 + n % 10) ∷ acc) (ground arith)
      ]

digits_loop-OneLine : (fuel n : ℕ) (acc : Bytes) → OneLine acc → OneLine (digits_loop fuel n acc)
unfolding digits_loop
digits_loop-OneLine zero n acc h = h
digits_loop-OneLine (suc fuel) n acc h =
    elim (n / 10)
      as (λ q. OneLine (elim q [
        | zero ↦ (48 + n % 10) ∷ acc
        | suc _ ↦ digits_loop fuel (n / 10) ((48 + n % 10) ∷ acc)
      ])) [
        | zero ↦ (ground arith, h)
        | suc q ↦ digits_loop-OneLine fuel (n / 10) ((48 + n % 10) ∷ acc) (ground arith, h)
      ]

decimal-DigitFirst : (n : ℕ) → DigitFirst (decimal n)
unfolding decimal digits_loop
decimal-DigitFirst n =
    elim (n / 10)
      as (λ q. DigitFirst (elim q [
        | zero ↦ (48 + n % 10) ∷ []
        | suc _ ↦ digits_loop 19 (n / 10) ((48 + n % 10) ∷ [])
      ])) [
        | zero ↦ ground arith
        | suc q ↦ digits_loop-DigitFirst 19 (n / 10) ((48 + n % 10) ∷ []) (ground arith)
      ]

pub decimal-OneLine : (n : ℕ) → OneLine (decimal n)
unfolding decimal
decimal-OneLine n = digits_loop-OneLine 20 n [] tt

zeros-DigitFirst : (k : ℕ) (s : Bytes) → DigitFirst s → DigitFirst (replicate k 48 ++ s)
zeros-DigitFirst zero s h = h
zeros-DigitFirst (suc k) s h = refl

zeros-OneLine : (k : ℕ) → OneLine (replicate k 48)
zeros-OneLine zero = tt
zeros-OneLine (suc k) = (refl, zeros-OneLine k)

leading_number-decimal : (n : ℕ) → n < 2 ^ 64 → leading_number 0 (decimal n) ≡ n
unfolding decimal
leading_number-decimal n h =
    leading_number-digits 19 n [] (omega arith) ∙ (unfold leading_number in refl)

-- stoull reads back what %llu printed.
pub stoull-decimal : (n : ℕ) → n < 2 ^ 64 → stoull (decimal n) ≡ some n
stoull-decimal n h =
    let e = leading_number-decimal n h in
    stoull-DigitFirst (decimal n) (decimal-DigitFirst n) (omega (arith, e)) ∙ ap some e

-- And what %06llu printed.
pub stoull-padded : (n : ℕ) → n < 2 ^ 64 → stoull (padded n) ≡ some n
unfolding padded
stoull-padded n h =
    let zeros = 6 - length (decimal n) in
    let e = leading_number-zeros zeros (decimal n) ∙ leading_number-decimal n h in
    stoull-DigitFirst (padded n) (zeros-DigitFirst zeros (decimal n) (decimal-DigitFirst n))
      (omega (arith, e))
    ∙ ap some e

pub sst_path-OneLine : (id : ℕ) → OneLine (sst_path id)
unfolding sst_path padded
sst_path-OneLine id =
    let zeros = 6 - length (decimal id) in
    let digits =
      All-append _ (replicate zeros 48) (decimal id) (zeros-OneLine zeros) (decimal-OneLine id) in
    let named = All-append _ (padded id) (ascii ".sst") digits (refl, (refl, (refl, (refl, tt)))) in
    (refl, (refl, (refl, (refl, named))))
