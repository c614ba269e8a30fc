-- ===== src/Codec/Decoded.antt =====
-- The readers among the binary helpers of src/wal.cpp, on any file of bytes.
use key_val_store.Base.{
  ℕ, zero, suc, ◌+◌, ◌*◌, ◌/◌, ◌%◌, ◌^◌, ◌<◌, ◌≡◌, refl, inl, inr, some, [], ◌∷◌, ◌++◌, length, All,
  to_u32, arith, ap, ◌∙◌, Option-cases,
}
use mathlib.Core.Path.{subst}
use mathlib.Core.List.{append_assoc}
use native.Mathlib.Nat.{pow-succ'}
use key_val_store.Str.{Bytes}
use key_val_store.Codec.{le_bytes, le_value, fread, wu32, wstr, ru32, rstr}

-- What a file holds: numbers below 256.
abbrev pub AreBytes : Bytes → Type 0
AreBytes = All (λ b. b < 256)

-- The bytes that are read and the rest of the file make up the file.
pub fread-eq-some :
    (n : ℕ) (src front rest : Bytes)
    → fread n src ≡ some (front, rest)
    → (src ≡ front ++ rest) × (length front ≡ n)
unfolding fread
fread-eq-some zero src front rest h = ground arith
fread-eq-some (suc n) [] front rest h = ground arith
fread-eq-some (suc n) (b ∷ src) front rest h = elim (Option-cases (fread n src)) [
  | inl e ↦ ground (arith, e)
  | inr ((f, r), e) ↦ ground (arith, e, fread-eq-some n src f r)
]

pub AreBytes-append : (x y : Bytes) → AreBytes (x ++ y) → AreBytes x × AreBytes y
AreBytes-append [] y h = (tt, h)
AreBytes-append (b ∷ x) y h = let (p, q) = AreBytes-append x y h.1 in ((h.0, p), q)

le_bytes-le_value : (bs : Bytes) → AreBytes bs → le_bytes (length bs) (le_value bs) ≡ bs
le_bytes-le_value [] h = refl
le_bytes-le_value (b ∷ bs) h =
    let low : (b + 256 * le_value bs) % 256 ≡ b = omega (arith, h.0) in
    let high : (b + 256 * le_value bs) / 256 ≡ le_value bs = omega (arith, h.0) in
    rw (low, high) (ap (λ t. b ∷ t) (le_bytes-le_value bs h.1))

le_value-lt : (bs : Bytes) → AreBytes bs → le_value bs < 256 ^ length bs
le_value-lt [] h = omega arith
le_value-lt (b ∷ bs) h = omega (arith, h.0, le_value-lt bs h.1, pow-succ' 256 (length bs))

ru32-eq-some :
    (src rest : Bytes) (v : ℕ)
    → AreBytes src
    → ru32 src ≡ some (v, rest)
    → (src ≡ wu32 v ++ rest) × (v < 2 ^ 32) × AreBytes rest
unfolding ru32
ru32-eq-some src rest v ok h = elim (Option-cases (fread 4 src)) [
  | inl e ↦ absurd (ground (arith, e))
  | inr ((f, r), e) ↦
      let (split, four) = fread-eq-some 4 src f r e in
      let (front, back) = AreBytes-append f r (subst AreBytes split ok) in
      let value : v ≡ le_value f = ground (arith, e) in
      let left : rest ≡ r = ground (arith, e) in
      let printed : wu32 (le_value f) ≡ f =
        unfold wu32 in subst (λ n. le_bytes n (le_value f) ≡ f) four (le_bytes-le_value f front) in
      let small : le_value f < 256 ^ 4 =
        subst (λ n. le_value f < 256 ^ n) four (le_value-lt f front) in
      (rw (value, left, printed) split, rw value small, rw left back)
]

-- A string that is read is short enough for its length field, and stands printed in the file.
pub rstr-eq-some :
    (src rest s : Bytes)
    → AreBytes src
    → rstr src ≡ some (s, rest)
    → (src ≡ wstr s ++ rest) × (length s < 2 ^ 32) × AreBytes rest
unfolding rstr wstr
rstr-eq-some src rest s ok h = elim (Option-cases (ru32 src)) [
  | inl e ↦ absurd (ground (arith, e))
  | inr ((n, r), e) ↦
      let (split, small, ok') = ru32-eq-some src r n ok e in
      let body : fread n r ≡ some (s, rest) = ground (arith, e) in
      let (split', long) = fread-eq-some n r s rest body in
      let (_, back) = AreBytes-append s rest (subst AreBytes split' ok') in
      let field : to_u32 (length s) ≡ n = omega (arith, long, small) in
      (
        split ∙ rw (field, append_assoc) (ap (λ t. wu32 n ++ t) split'),
        omega (arith, long, small),
        back,
      )
]
