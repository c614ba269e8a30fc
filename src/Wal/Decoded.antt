-- ===== src/Wal/Decoded.antt =====
-- WAL::replay on any file of bytes, well formed or not.
use key_val_store.Base.{
  ℕ, zero, suc, ◌^◌, ◌≤◌, ◌<◌, ◌≡◌, ◌↔◌, refl, inl, inr, none, some, List, [], ◌∷◌, ◌++◌, length,
  All, arith, ap, ◌∙◌, Option-cases,
}
use mathlib.Core.Path.{subst}
use mathlib.Core.List.{append_assoc, append-nil}
use key_val_store.Str.{Bytes}
use key_val_store.Codec.{wstr, rstr}
use key_val_store.Codec.Decoded.{AreBytes, AreBytes-append, rstr-eq-some}
use key_val_store.Wal.{WalRecord, op_byte, op_of_byte, encode, read_body, replay_loop, replay}
use key_val_store.Wal.Replay.{
  Fits, encode_all, read_body-encode, read_body-length, replay-encode_all,
}

op_byte-op_of_byte : (b : ℕ) → op_byte (op_of_byte b) ≡ b
op_byte-op_of_byte zero = refl
op_byte-op_of_byte (suc zero) = refl
op_byte-op_of_byte (suc (suc b)) = refl

read_body-eq-some :
    (src k v rest : Bytes)
    → AreBytes src
    → read_body src ≡ some (k, v, rest)
    → (src ≡ (wstr k ++ wstr v) ++ rest) × (length k < 2 ^ 32) × (length v < 2 ^ 32) × AreBytes rest
unfolding read_body
read_body-eq-some src k v rest ok h = elim (Option-cases (rstr src)) [
  | inl e ↦ absurd (ground (arith, e))
  | inr ((s, r), e) ↦ elim (Option-cases (rstr r)) [
    | inl e' ↦ absurd (ground (arith, e, e'))
    | inr ((s', r'), e') ↦
        let (split, short, ok') = rstr-eq-some src r s ok e in
        let (split', short', ok'') = rstr-eq-some r r' s' ok' e' in
        let key : k ≡ s = ground (arith, e, e') in
        let value : v ≡ s' = ground (arith, e, e') in
        let left : rest ≡ r' = ground (arith, e, e') in
        (
          rw (key, value, left, append_assoc) (split ∙ ap (λ t. wstr s ++ t) split'),
          rw key short,
          rw value short',
          rw left ok'',
        )
  ]
]

-- A whole record stands at the front of the bytes.
abbrev BeginsWhole : Bytes → Type 0
BeginsWhole src = (r : WalRecord) × (rest : Bytes) × Fits r × (src ≡ encode r ++ rest)

-- The records are whole and make up the file, except for a tail at whose front there is none.
abbrev pub Splits : Bytes → List WalRecord → Type 0
Splits file rs =
    (tail : Bytes) × All Fits rs × (file ≡ encode_all rs ++ tail) × (¬ BeginsWhole tail)

¬BeginsWhole-nil : ¬ BeginsWhole []
unfolding encode
¬BeginsWhole-nil (r, rest, f, e) = cc

¬BeginsWhole-torn : (b : ℕ) (src : Bytes) → read_body src ≡ none → ¬ BeginsWhole (b ∷ src)
unfolding encode
¬BeginsWhole-torn b src h (r, rest, f, e) =
    let body : src ≡ (wstr r.key ++ wstr r.value) ++ rest = cc in
    cc (read_body-encode r.key r.value rest f.key_fits f.value_fits)

-- The bytes that one round read, put before what the rest of the file splits into.
rebuilt :
    (b : ℕ) (src k v rest : Bytes) (rs : List WalRecord) (tail : Bytes)
    → src ≡ (wstr k ++ wstr v) ++ rest
    → rest ≡ encode_all rs ++ tail
    → b ∷ src ≡ encode_all (record { op = op_of_byte b; key = k; value = v } ∷ rs) ++ tail
unfolding encode
rebuilt b src k v rest rs tail p q = rw (op_byte-op_of_byte b, p, q) (simp append_assoc)

replay_loop-Splits :
    (fuel : ℕ) (src : Bytes) → AreBytes src → length src ≤ fuel → Splits src (replay_loop fuel src)
unfolding replay_loop
replay_loop-Splits fuel [] ok h = ([], tt, refl, ¬BeginsWhole-nil)
replay_loop-Splits zero (b ∷ src) ok h = elim h [ ]
replay_loop-Splits (suc fuel) (b ∷ src) ok h = elim (Option-cases (read_body src)) [
  | inl e ↦ rw (e, replay_loop) (b ∷ src, tt, refl, ¬BeginsWhole-torn b src e)
  | inr ((k, v, rest), e) ↦
      let (split, short, short', ok') = read_body-eq-some src k v rest ok.1 e in
      let (tail, fits, file, torn) =
        replay_loop-Splits fuel rest ok' (omega (arith, read_body-length src k v rest e)) in
      rw (e, replay_loop)
        (
          tail,
          (
            record {
              key_fits = short;
              value_fits = short';
              byte_back = ap op_of_byte (op_byte-op_of_byte b);
            },
            fits,
          ),
          rebuilt b src k v rest (replay_loop fuel rest) tail split file,
          torn,
        )
]

replay-Splits : (file : Bytes) → AreBytes file → Splits file (replay file)
unfolding replay
replay-Splits file ok = replay_loop-Splits (length file) file ok (omega arith)

-- Nothing is replayed of a tail at whose front no whole record stands.
replay-tail : (tail : Bytes) → AreBytes tail → ¬ BeginsWhole tail → replay tail ≡ []
replay-tail tail ok torn = empty (replay tail) (replay-Splits tail ok)
  where
    empty : (rs : List WalRecord) → Splits tail rs → rs ≡ []
    empty [] s = refl
    empty (r ∷ rs) (t, fits, file, _) =
        absurd
          (torn (r, encode_all rs ++ t, fits.0, file ∙ append_assoc (encode r) (encode_all rs) t))

-- Replay of a file of bytes, whatever they are, yields the records `rs` exactly if the file is the
-- encodings of `rs`, one behind the other and each with lengths that fit 32 bits, and behind them
-- a tail that does not begin with such an encoding.
pub replay-iff-Splits :
    (file : Bytes) (rs : List WalRecord) → AreBytes file → (replay file ≡ rs) ↔ Splits file rs
replay-iff-Splits file rs ok = (
  λ e. subst (Splits file) e (replay-Splits file ok),
  λ (tail, fits, split, torn).
      let (_, ok') = AreBytes-append (encode_all rs) tail (subst AreBytes split ok) in
      ap replay split
      ∙ (replay-encode_all rs tail fits ∙ rw (replay-tail tail ok' torn) (append-nil rs)),
)
