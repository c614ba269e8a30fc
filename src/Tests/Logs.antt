-- ===== src/Tests/Logs.antt =====
-- The theorems on the log, at logs of one and two records.
use key_val_store.Base.{
  ◌≡◌, ◌↔◌, refl, [], ◌∷◌, ◌++◌, arith, length, take, ltb, if◌then◌else◌, replicate,
}
use key_val_store.Str.{Bytes}
use key_val_store.Codec.{wu32, wstr}
use key_val_store.Codec.Decoded.{AreBytes}
use key_val_store.Wal.{Wal, WalOp, WalRecord, append, sync, crash, encode, replay}
use key_val_store.Wal.Replay.{Fits, encode_all}
use key_val_store.Wal.Decoded.{Splits, replay-iff-Splits}
use key_val_store.Wal.Torn.{replay-swallowed}
use key_val_store.Wal.Crash.{Holds, append-sync-Holds, replay-crash-append}

abbrev first : WalRecord
first = record { op = WalOp.put; key = 97 ∷ []; value = 49 ∷ [] }

abbrev second : WalRecord
second = record { op = WalOp.del; key = 97 ∷ []; value = [] }

-- A record with a key of thirty bytes.
abbrev long : WalRecord
long = record { op = WalOp.put; key = replicate 30 120; value = [] }

first-Fits : Fits first
first-Fits = record { key_fits = omega arith; value_fits = omega arith; byte_back = refl }

second-Fits : Fits second
second-Fits = record { key_fits = omega arith; value_fits = omega arith; byte_back = refl }

long-Fits : Fits long
long-Fits = record { key_fits = omega arith; value_fits = omega arith; byte_back = refl }

abbrev segment : Wal
segment = record { file = encode_all (first ∷ []); buffer = [] }

segment-Holds : Holds (first ∷ []) segment
segment-Holds = record { fits = (first-Fits, tt); synced = refl; flushed = refl }

append-sync-Holds_example :
    Holds (first ∷ second ∷ []) (sync (append second segment))
    × (replay (sync (append second segment)).file ≡ first ∷ second ∷ [])
append-sync-Holds_example = append-sync-Holds (first ∷ []) second segment segment-Holds second-Fits

replay-crash-append_example :
    replay (crash 7 (append second segment))
    ≡ (if ltb 7 (length (encode second)) then first ∷ [] else first ∷ second ∷ [])
replay-crash-append_example =
    replay-crash-append (first ∷ []) second segment 7 segment-Holds second-Fits

-- The tear of the repository's own crash test, and a later put of eleven bytes.
replay-swallowed_example :
    replay (encode_all (first ∷ []) ++ (take 5 (encode long) ++ encode_all (first ∷ [])))
    ≡ first ∷ []
unfolding encode wstr wu32
replay-swallowed_example =
    replay-swallowed (first ∷ []) long 5 (first ∷ []) (first-Fits, tt) long-Fits (omega arith)
      (omega arith)

-- The first record, and the first two bytes of another one.
abbrev torn_file : Bytes
torn_file = 0 ∷ 1 ∷ 0 ∷ 0 ∷ 0 ∷ 97 ∷ 1 ∷ 0 ∷ 0 ∷ 0 ∷ 49 ∷ 1 ∷ 5 ∷ []

torn_file-AreBytes : AreBytes torn_file
torn_file-AreBytes = omega arith

replay-iff-Splits_example : (replay torn_file ≡ first ∷ []) ↔ Splits torn_file (first ∷ [])
replay-iff-Splits_example = replay-iff-Splits torn_file (first ∷ []) torn_file-AreBytes

-- The layout of the two kinds of records, as src/wal.cpp describes it.
first_layout : encode first ≡ 0 ∷ 1 ∷ 0 ∷ 0 ∷ 0 ∷ 97 ∷ 1 ∷ 0 ∷ 0 ∷ 0 ∷ 49 ∷ []
unfolding encode wstr wu32
first_layout = refl

second_layout : encode second ≡ 1 ∷ 1 ∷ 0 ∷ 0 ∷ 0 ∷ 97 ∷ 0 ∷ 0 ∷ 0 ∷ 0 ∷ []
unfolding encode wstr wu32
second_layout = refl
