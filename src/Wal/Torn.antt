-- ===== src/Wal/Torn.antt =====
-- A log whose last record was cut short by a crash, and what becomes of records behind a tear.
use key_val_store.Base.{
  ℕ, zero, suc, ◌+◌, ◌^◌, ◌≤◌, ◌<◌, ◌≡◌, refl, none, List, [], ◌++◌, length, take, to_u32, All,
  arith, length-append, length-take-le, below_or_beyond, inl, inr, ◌∙◌, take-append_past,
}
use mathlib.Core.List.{append_assoc, append-nil}
use key_val_store.Str.{Bytes}
use key_val_store.Codec.{wstr, rstr}
use key_val_store.Codec.RoundTrip.{
  length-wstr, rstr-torn, rstr-wstr, take-wstr, ru32-wu32, fread-none,
}
use key_val_store.Wal.{WalRecord, op_byte, encode, read_body, replay_loop, replay}
use key_val_store.Wal.Replay.{Fits, encode_all, replay_round, replay-encode_all}

pub length-encode : (r : WalRecord) → length (encode r) ≡ 9 + length r.key + length r.value
unfolding encode
length-encode r =
    omega (arith, length-append (wstr r.key) (wstr r.value), length-wstr r.key, length-wstr r.value)

read_body-torn :
    (n : ℕ) (k v : Bytes)
    → length k < 2 ^ 32
    → length v < 2 ^ 32
    → n < 8 + length k + length v
    → read_body (take n (wstr k ++ wstr v)) ≡ none
unfolding read_body
read_body-torn n k v p q h = elim (below_or_beyond n (length (wstr k))) [
  | inl below ↦ ground (arith, rstr-torn n k (wstr v), length-wstr k)
  | inr (m, e) ↦
      rw (e, take-append_past m (wstr k) (wstr v))
        (ground (
          arith,
          e,
          length-wstr k,
          rstr-wstr k (take m (wstr v)) p,
          append-nil (wstr v),
          rstr-torn m v [] q,
        ))
]

-- Replay drops a record that is not whole.
replay-torn_alone :
    (n : ℕ) (r : WalRecord) → Fits r → n < length (encode r) → replay (take n (encode r)) ≡ []
unfolding encode
replay-torn_alone zero r f h = unfold replay replay_loop in refl
replay-torn_alone (suc n) r f h =
    replay_round (op_byte r.op) (take n (wstr r.key ++ wstr r.value))
    ∙ rw (
        read_body-torn n r.key r.value f.key_fits f.value_fits
          (unfold encode in omega (arith, length-encode r)))

-- After whole records and a strict prefix of one more, replay yields the whole records: neither one
-- of them nor anything else.
pub replay-torn :
    (rs : List WalRecord) (r : WalRecord) (n : ℕ)
    → All Fits rs
    → Fits r
    → n < length (encode r)
    → replay (encode_all rs ++ take n (encode r)) ≡ rs
replay-torn rs r n hs h k =
    replay-encode_all rs (take n (encode r)) hs ∙ rw (replay-torn_alone n r h k) (append-nil rs)

read_body-swallowed :
    (n : ℕ) (k tail later : Bytes)
    → length k < 2 ^ 32
    → n + length later < length k
    → read_body (take (4 + n) (wstr k ++ tail) ++ later) ≡ none
unfolding read_body rstr
read_body-swallowed n k tail later h p =
    rw (take-wstr n k tail, append_assoc)
      (ground (
        arith,
        ru32-wu32 (to_u32 (length k)) (take n (k ++ tail) ++ later),
        fread-none (length k) (take n (k ++ tail) ++ later),
        length-append (take n (k ++ tail)) later,
        length-take-le n (k ++ tail),
      ))

swallowed_from :
    (rs : List WalRecord) (r : WalRecord) (m : ℕ) (later : List WalRecord)
    → All Fits rs
    → Fits r
    → m + length (encode_all later) < length r.key
    → replay (encode_all rs ++ (take (suc (4 + m)) (encode r) ++ encode_all later)) ≡ rs
unfolding encode
swallowed_from rs r m later hs h k =
    replay-encode_all rs _ hs
    ∙ rw
        (replay_round (op_byte r.op)
          (take (4 + m) (wstr r.key ++ wstr r.value) ++ encode_all later))
        (rw (read_body-swallowed m r.key (wstr r.value) (encode_all later) h.key_fits k)
          (append-nil rs))

-- The log holds the records `rs`, the first `n` bytes of a record that was torn behind its key
-- length, and whole later records: while these have fewer bytes than the torn key lacks, replay
-- yields `rs` alone, and every later record is lost.
pub replay-swallowed :
    (rs : List WalRecord) (r : WalRecord) (n : ℕ) (later : List WalRecord)
    → All Fits rs
    → Fits r
    → 5 ≤ n
    → n + length (encode_all later) < 5 + length r.key
    → replay (encode_all rs ++ (take n (encode r) ++ encode_all later)) ≡ rs
replay-swallowed rs r n later hs h five k = elim (below_or_beyond n 5) [
  | inl p ↦ absurd (omega arith)
  | inr (m, e) ↦
      let e' : n ≡ suc (4 + m) = omega arith in
      rw e' (swallowed_from rs r m later hs h (omega arith))
]
