-- ===== src/Text/Numbers.antt =====
-- std::stoull on the digits that are printed for a number.
use key_val_store.Base.{◌^◌, ◌<◌, ◌≡◌, true, some, [], ◌∷◌, arith}
use key_val_store.Str.{Bytes}
use key_val_store.Text.{is_digit, leading_number, stoull}

-- A digit stands in front.
abbrev pub DigitFirst : Bytes → Type 0
DigitFirst [] = ⊥
DigitFirst (c ∷ s) = is_digit c ≡ true

-- A text that begins with a digit is read as the number that its leading digits spell.
pub stoull-DigitFirst :
    (s : Bytes) → DigitFirst s → leading_number 0 s < 2 ^ 64 → stoull s ≡ some (leading_number 0 s)
unfolding stoull
stoull-DigitFirst [] d h = absurd d
stoull-DigitFirst (c ∷ s) d h = ground arith
