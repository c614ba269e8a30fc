-- ===== src/Codec.antt =====
-- The binary helpers of src/wal.cpp and src/sstable.cpp: fixed-width integers as the machine lays
-- them out (lowest byte first, as the file formats say) and strings behind their length.
-- A file open for reading is the list of its bytes that are still to be read.
pub mod RoundTrip
pub mod Decoded
use key_val_store.Base.{
  ℕ, zero, suc, ◌+◌, ◌*◌, ◌/◌, ◌%◌, Option, none, some, [], ◌∷◌, ◌++◌, length, to_u32, ◌>>=◌,
}
use key_val_store.Str.{Bytes}

-- The low `w` bytes of a number, and the number that bytes stand for.
abbrev pub le_bytes : ℕ → ℕ → Bytes
le_bytes zero v = []
le_bytes (suc w) v = (v % 256) ∷ le_bytes w (v / 256)

abbrev pub le_value : Bytes → ℕ
le_value [] = 0
le_value (b ∷ bs) = b + 256 * le_value bs

abbrev consed : ℕ → Option (Bytes × Bytes) → Option (Bytes × Bytes)
consed b none = none
consed b (some (front, rest)) = some (b ∷ front, rest)

-- fread of exactly `n` bytes: `none` if the file ends before.
unfoldable pub fread : ℕ → Bytes → Option (Bytes × Bytes)
fread zero src = some ([], src)
fread (suc n) [] = none
fread (suc n) (b ∷ src) = consed b (fread n src)

unfoldable pub wu32 : ℕ → Bytes
wu32 v = le_bytes 4 v

unfoldable pub wu64 : ℕ → Bytes
wu64 v = le_bytes 8 v

unfoldable pub wstr : Bytes → Bytes
wstr s = wu32 (to_u32 (length s)) ++ s

unfoldable pub ru32 : Bytes → Option (ℕ × Bytes)
ru32 src = do (b, rest) ← fread 4 src; some (le_value b, rest)

unfoldable pub ru64 : Bytes → Option (ℕ × Bytes)
ru64 src = do (b, rest) ← fread 8 src; some (le_value b, rest)

unfoldable pub rstr : Bytes → Option (Bytes × Bytes)
rstr src = do (len, rest) ← ru32 src; fread len rest
