-- ===== src/Wal/Replay.antt =====
-- WAL::replay as an equation without fuel, and what it returns for a log of whole records.
use key_val_store.Base.{
  ℕ, zero, suc, ◌^◌, ◌≤◌, ◌<◌, ◌≡◌, refl, none, some, List, [], ◌∷◌, ◌++◌, length, All, arith, ap,
  Option-cases, inl, inr, ◌∙◌, sym,
}
use mathlib.Core.List.{append_assoc, append-nil}
use key_val_store.Str.{Bytes}
use key_val_store.Codec.{wstr, rstr, ru32, fread}
use key_val_store.Codec.RoundTrip.{fread-length, rstr-wstr}
use key_val_store.Wal.{WalRecord, op_byte, op_of_byte, encode, read_body, replay_loop, replay}

ru32-length :
    (src : Bytes) (v : ℕ) (rest : Bytes) → ru32 src ≡ some (v, rest) → length rest ≤ length src
unfolding ru32
ru32-length src v rest h = elim (Option-cases (fread 4 src)) [
  | inl e ↦ ground (arith, e)
  | inr ((f, r), e) ↦ ground (arith, e, fread-length 4 src f r)
]

pub rstr-length : (src s rest : Bytes) → rstr src ≡ some (s, rest) → length rest ≤ length src
unfolding rstr
rstr-length src s rest h = elim (Option-cases (ru32 src)) [
  | inl e ↦ ground (arith, e)
  | inr ((n, r), e) ↦ ground (arith, e, ru32-length src n r, fread-length n r s rest)
]

pub read_body-length :
    (src k v rest : Bytes) → read_body src ≡ some (k, v, rest) → length rest ≤ length src
unfolding read_body
read_body-length src k v rest h = elim (Option-cases (rstr src)) [
  | inl e ↦ ground (arith, e)
  | inr ((s, r), e) ↦ elim (Option-cases (rstr r)) [
    | inl e' ↦ ground (arith, e, e')
    | inr ((s', r'), e') ↦ ground (arith, e, e', rstr-length src s r, rstr-length r s' r')
  ]
]

-- Fuel beyond the length of the file changes nothing.
replay_loop_fuel :
    (n m : ℕ) (src : Bytes)
    → length src ≤ n
    → length src ≤ m
    → replay_loop n src ≡ replay_loop m src
unfolding replay_loop
replay_loop_fuel n m [] p q = refl
replay_loop_fuel zero m (b ∷ src) p q = elim p [ ]
replay_loop_fuel (suc n) zero (b ∷ src) p q = elim q [ ]
replay_loop_fuel (suc n) (suc m) (b ∷ src) p q = elim (Option-cases (read_body src)) [
  | inl e ↦ rw (e, replay_loop)
  | inr ((k, v, rest), e) ↦
      rw (e, replay_loop)
        (ap (λ t. record { op = op_of_byte b; key = k; value = v } ∷ t)
          (replay_loop_fuel n m rest (omega (arith, read_body-length src k v rest e))
            (omega (arith, read_body-length src k v rest e))))
]

-- The loop without fuel: replay of a file that is not empty reads one record, and if that is
-- whole, replays the rest of the file; a record that is cut short ends it.
pub replay_round :
    (b : ℕ) (src : Bytes)
    → replay (b ∷ src) ≡ (elim (read_body src) [
      | none ↦ []
      | some (k, v, rest) ↦ record { op = op_of_byte b; key = k; value = v } ∷ replay rest
    ])
unfolding replay
replay_round b src = elim (Option-cases (read_body src)) [
  | inl e ↦ rw (e, replay_loop)
  | inr ((k, v, rest), e) ↦
      rw (e, replay_loop)
        (ap (λ t. record { op = op_of_byte b; key = k; value = v } ∷ t)
          (replay_loop_fuel (length src) (length rest) rest (read_body-length src k v rest e)
            (omega arith)))
]

-- What append accepts: the lengths fit the 32-bit fields.
pub record Fits (r : WalRecord) : Type 0 where
  pub key_fits : length r.key < 2 ^ 32
  pub value_fits : length r.value < 2 ^ 32
  pub byte_back : op_of_byte (op_byte r.op) ≡ r.op

abbrev pub encode_all : List WalRecord → Bytes
encode_all [] = []
encode_all (r ∷ rs) = encode r ++ encode_all rs

pub read_body-encode :
    (k v rest : Bytes)
    → length k < 2 ^ 32
    → length v < 2 ^ 32
    → read_body ((wstr k ++ wstr v) ++ rest) ≡ some (k, v, rest)
unfolding read_body
read_body-encode k v rest p q =
    rw append_assoc (ground (arith, rstr-wstr k (wstr v ++ rest), rstr-wstr v rest))

-- Replay of a log that begins with whole records yields them, and then goes on behind them.
pub replay-encode :
    (r : WalRecord) (rest : Bytes) → Fits r → replay (encode r ++ rest) ≡ r ∷ replay rest
unfolding encode
replay-encode r rest h =
    replay_round (op_byte r.op) ((wstr r.key ++ wstr r.value) ++ rest)
    ∙ rw (read_body-encode r.key r.value rest h.key_fits h.value_fits) (ground (arith, h.byte_back))

pub replay-encode_all :
    (rs : List WalRecord) (rest : Bytes)
    → All Fits rs
    → replay (encode_all rs ++ rest) ≡ rs ++ replay rest
replay-encode_all [] rest h = refl
replay-encode_all (r ∷ rs) rest h =
    rw append_assoc (
      replay-encode r (encode_all rs ++ rest) h.0 ∙ ap (λ t. r ∷ t) (replay-encode_all rs rest h.1))

replay-nil : replay [] ≡ []
unfolding replay
replay-nil = refl

-- Replay of a log of whole records yields exactly those records, in their order.
pub replay-whole : (rs : List WalRecord) → All Fits rs → replay (encode_all rs) ≡ rs
replay-whole rs h =
    ap replay (sym (append-nil (encode_all rs)))
    ∙ replay-encode_all rs [] h
    ∙ rw replay-nil (append-nil rs)
