-- ===== src/Text.antt =====
-- The text functions of the standard library that src/manifest.cpp and src/db.cpp call: std::getline,
-- std::string::rfind at 0, std::string::substr and std::stoull.
pub mod Lines
pub mod Numbers
use key_val_store.Base.{
  ℕ, zero, suc, ◌+◌, ◌-◌, ◌*◌, ◌%◌, ◌^◌, Bool, true, false, ◌&&◌, ◌||◌, Option, none, some, List,
  [], ◌∷◌, length, drop, ltb, leb, ◌==◌, if◌then◌else◌,
}
use key_val_store.Str.{Bytes}

push_front : ℕ → List Bytes → List Bytes
push_front c [] = (c ∷ []) ∷ []
push_front c (l ∷ ls) = (c ∷ l) ∷ ls

-- The lines that a loop of std::getline reads; 10 is the line feed.
unfoldable pub lines : Bytes → List Bytes
unfolding push_front
lines [] = []
lines (c ∷ s) = if c == 10 then [] ∷ lines s else push_front c (lines s)

-- s.rfind(prefix, 0) == 0
unfoldable pub starts_with : Bytes → Bytes → Bool
starts_with [] s = true
starts_with (p ∷ ps) [] = false
starts_with (p ∷ ps) (c ∷ s) = p == c && starts_with ps s

-- s.substr(n), which throws beyond the end.
unfoldable pub substr : ℕ → Bytes → Option Bytes
substr n s = if ltb (length s) n then none else some (drop n s)

abbrev pub is_digit : ℕ → Bool
is_digit c = leb 48 c && leb c 57

-- The number that the leading digits spell, `v` being what has been read.
unfoldable pub leading_number : ℕ → Bytes → ℕ
leading_number v [] = v
leading_number v (c ∷ s) =
    let rest = leading_number (v * 10 + (c - 48)) s in if is_digit c then rest else v

-- isspace in the "C" locale
abbrev pub is_space : ℕ → Bool
is_space c = c == 32 || (leb 9 c && leb c 13)

unfoldable pub skip_space : Bytes → Bytes
skip_space [] = []
skip_space (c ∷ s) = if is_space c then skip_space s else c ∷ s

-- The digits behind the sign: none of them, or a number beyond 64 bits, throws.
unsigned_number : Bytes → Option ℕ
unsigned_number [] = none
unsigned_number (c ∷ s) =
    let n = leading_number 0 (c ∷ s) in if is_digit c && ltb n (2 ^ 64) then some n else none

-- A minus sign negates modulo 2^64.
abbrev negated : Option ℕ → Option ℕ
negated none = none
negated (some n) = some ((2 ^ 64 - n) % 2 ^ 64)

signed_number : Bytes → Option ℕ
signed_number [] = none
signed_number (c ∷ s) =
    if c == 45
    then negated (unsigned_number s)
    else if c == 43
    then unsigned_number s
    else unsigned_number (c ∷ s)

-- std::stoull in base ten; `none` for the exceptions that it throws.
unfoldable pub stoull : Bytes → Option ℕ
unfolding skip_space unsigned_number signed_number
stoull s = signed_number (skip_space s)
