-- ===== src/Codec/RoundTrip.antt =====
-- Reading back what the binary helpers wrote, from a whole file and from one that was cut short.
use key_val_store.Base.{
  ℕ, zero, suc, ◌+◌, ◌/◌, ◌^◌, ◌<◌, ◌≡◌, refl, inl, inr, none, some, [], ◌∷◌, ◌++◌, length, take,
  to_u32, arith, length-append, length-take-le, take-append_past, ap, below_or_beyond, Option-cases,
}
use mathlib.Core.List.{append_assoc}
use key_val_store.Str.{Bytes}
use key_val_store.Codec.{le_bytes, le_value, fread, wu32, wu64, wstr, ru32, ru64, rstr}

pub length-le_bytes : (w v : ℕ) → length (le_bytes w v) ≡ w
length-le_bytes zero v = refl
length-le_bytes (suc w) v = ap suc (length-le_bytes w (v / 256))

le_value-le_bytes : (w v : ℕ) → v < 256 ^ w → le_value (le_bytes w v) ≡ v
le_value-le_bytes zero v h = omega arith
le_value-le_bytes (suc w) v h = omega (arith, le_value-le_bytes w (v / 256) (omega arith))

pub fread-append : (x y : Bytes) → fread (length x) (x ++ y) ≡ some (x, y)
unfolding fread
fread-append [] y = refl
fread-append (b ∷ x) y = ground (arith, fread-append x y)

-- A read past the end fails.
pub fread-none : (n : ℕ) (src : Bytes) → length src < n → fread n src ≡ none
unfolding fread
fread-none zero src h = elim h [ ]
fread-none (suc n) [] h = refl
fread-none (suc n) (b ∷ src) h = ground (arith, fread-none n src)

-- A read that succeeds splits the file.
pub fread-length :
    (n : ℕ) (src front rest : Bytes)
    → fread n src ≡ some (front, rest)
    → length front + length rest ≡ length src
unfolding fread
fread-length zero src front rest h = ground arith
fread-length (suc n) [] front rest h = ground arith
fread-length (suc n) (b ∷ src) front rest h = elim (Option-cases (fread n src)) [
  | inl e ↦ ground (arith, e)
  | inr ((f, r), e) ↦ ground (arith, e, fread-length n src f r)
]

pub ru32-wu32 : (v : ℕ) (rest : Bytes) → v < 2 ^ 32 → ru32 (wu32 v ++ rest) ≡ some (v, rest)
unfolding ru32 wu32
ru32-wu32 v rest h =
    ground (arith, fread-append (le_bytes 4 v) rest, le_value-le_bytes 4 v (omega arith))

pub ru64-wu64 : (v : ℕ) (rest : Bytes) → v < 2 ^ 64 → ru64 (wu64 v ++ rest) ≡ some (v, rest)
unfolding ru64 wu64
ru64-wu64 v rest h =
    ground (arith, fread-append (le_bytes 8 v) rest, le_value-le_bytes 8 v (omega arith))

pub length-wu32 : (v : ℕ) → length (wu32 v) ≡ 4
unfolding wu32
length-wu32 v = refl

pub length-wu64 : (v : ℕ) → length (wu64 v) ≡ 8
unfolding wu64
length-wu64 v = refl

pub length-wstr : (s : Bytes) → length (wstr s) ≡ 4 + length s
unfolding wstr
length-wstr s =
    omega (arith, length-append (wu32 (to_u32 (length s))) s, length-wu32 (to_u32 (length s)))

-- A string shorter than 2^32 bytes is read back, and what follows it is left.
pub rstr-wstr : (s rest : Bytes) → length s < 2 ^ 32 → rstr (wstr s ++ rest) ≡ some (s, rest)
unfolding rstr wstr
rstr-wstr s rest h =
    rw append_assoc (ground (arith, ru32-wu32 (to_u32 (length s)) (s ++ rest), fread-append s rest))

ru32-none : (src : Bytes) → length src < 4 → ru32 src ≡ none
unfolding ru32
ru32-none src h = rw (fread-none 4 src h)

pub take-wstr :
    (m : ℕ) (s rest : Bytes)
    → take (4 + m) (wstr s ++ rest) ≡ wu32 (to_u32 (length s)) ++ take m (s ++ rest)
unfolding wstr wu32
take-wstr m s rest = rw append_assoc (take-append_past m (wu32 (to_u32 (length s))) (s ++ rest))

-- A string that is cut short is not read.
pub rstr-torn :
    (n : ℕ) (s rest : Bytes)
    → length s < 2 ^ 32
    → n < 4 + length s
    → rstr (take n (wstr s ++ rest)) ≡ none
unfolding rstr
rstr-torn n s rest h k = elim (below_or_beyond n 4) [
  | inl p ↦
      rw (ru32-none (take n (wstr s ++ rest)) (omega (arith, length-take-le n (wstr s ++ rest))))
  | inr (m, e) ↦ rw e (
      rw (take-wstr m s rest) (
        ground (
          arith,
          ru32-wu32 (to_u32 (length s)) (take m (s ++ rest)),
          fread-none (length s) (take m (s ++ rest)),
          length-take-le m (s ++ rest),
        )))
]
