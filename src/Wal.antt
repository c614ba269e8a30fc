-- ===== src/Wal.antt =====
-- include/wal.h and src/wal.cpp: the append-only write-ahead log segment.
-- `file` is what the segment holds on disk, `buffer` what stdio has not handed over yet.
pub mod Replay
pub mod Decoded
pub mod Crash
pub mod Torn
use key_val_store.Base.{ℕ, zero, suc, Option, none, some, List, [], ◌∷◌, ◌++◌, length, take, ◌>>=◌}
use key_val_store.Str.{Bytes}
use key_val_store.Codec.{wstr, rstr}

-- `other` is a byte that no enumerator names: static_cast<WalOp> lets it through.
pub data WalOp : Type 0 where
  put del : WalOp
  other : ℕ → WalOp

pub record WalRecord : Type 0 where
  pub op : WalOp
  pub key : Bytes
  pub value : Bytes

abbrev pub op_byte : WalOp → ℕ
op_byte put = 0
op_byte del = 1
op_byte (other b) = b

abbrev pub op_of_byte : ℕ → WalOp
op_of_byte zero = put
op_of_byte (suc zero) = del
op_of_byte (suc (suc b)) = other (suc (suc b))

pub record Wal : Type 0 where
  pub file : Bytes
  pub buffer : Bytes

-- The constructor: fopen with mode "ab+" keeps what the file holds, and creates a missing file.
abbrev pub open_wal : Option Bytes → Wal
open_wal none = record { file = []; buffer = [] }
open_wal (some f) = record { file = f; buffer = [] }

-- The bytes of one record.
unfoldable pub encode : WalRecord → Bytes
encode r = op_byte r.op ∷ (wstr r.key ++ wstr r.value)

-- WAL::append
unfoldable pub append : WalRecord → Wal → Wal
append r w = record w { buffer = w.buffer ++ encode r }

-- WAL::sync
unfoldable pub sync : Wal → Wal
sync w = record { file = w.file ++ w.buffer; buffer = [] }

-- What a crash leaves on disk: of the buffer the first `n` bytes may have got through.
abbrev pub crash : ℕ → Wal → Bytes
crash n w = w.file ++ take n w.buffer

-- The two strings of a record: `none` where the file ends inside them.
unfoldable pub read_body : Bytes → Option (Bytes × Bytes × Bytes)
read_body src = do (key, rest) ← rstr src; (value, rest') ← rstr rest; some (key, value, rest')

-- WAL::replay: the records for which the callback is called, in order. Every round takes a byte at
-- least, so the length of the file is enough fuel.
unfoldable pub replay_loop : ℕ → Bytes → List WalRecord
replay_loop fuel [] = []
replay_loop zero (op ∷ src) = []
replay_loop (suc fuel) (op ∷ src) = elim (read_body src) [
  | none ↦ []
  | some (k, v, rest) ↦ record { op = op_of_byte op; key = k; value = v } ∷ replay_loop fuel rest
]

unfoldable pub replay : Bytes → List WalRecord
unfolding replay_loop
replay file = replay_loop (length file) file
