-- ===== src/Names.antt =====
-- The names of the store's files (DB::sst_path and DB::wal_seg_path of src/db.cpp, and the two
-- names of src/manifest.cpp), as the bytes that snprintf writes, and how DB::recover takes names
-- apart. The directory holds no directories, so that a name has no separator and is its path's
-- filename.
pub mod Distinct
pub mod Parsed
pub mod Kinds
use Prim.Native.Char.{code}
use Prim.Native.String.{String}
use key_val_store.Base.{
  ℕ, zero, suc, ◌+◌, ◌-◌, ◌/◌, ◌%◌, Bool, true, false, ◌&&◌, Option, none, some, List, [], ◌∷◌,
  ◌++◌, length, replicate, ◌==◌, if◌then◌else◌, ◌>>=◌,
}
use key_val_store.Str.{Bytes, str_eq}
use key_val_store.Text.{starts_with, substr, stoull}

abbrev pub ascii : String → Bytes
ascii String.[] = []
ascii (String.◌∷◌ c s) = code c ∷ ascii s

-- The digits of a number in front of `acc`; 20 of them are enough for 64 bits.
unfoldable pub digits_loop : ℕ → ℕ → Bytes → Bytes
digits_loop zero n acc = acc
digits_loop (suc fuel) n acc = elim (n / 10) [
  | zero ↦ (48 + n % 10) ∷ acc
  | suc q ↦ digits_loop fuel (n / 10) ((48 + n % 10) ∷ acc)
]

-- %llu, and %06llu
unfoldable pub decimal : ℕ → Bytes
decimal n = digits_loop 20 n []

unfoldable pub padded : ℕ → Bytes
padded n = replicate (6 - length (decimal n)) 48 ++ decimal n

-- DB::sst_path and DB::wal_seg_path, without the directory
unfoldable pub sst_path : ℕ → Bytes
sst_path id = ascii "sst_" ++ (padded id ++ ascii ".sst")

unfoldable pub wal_seg_path : ℕ → Bytes
wal_seg_path id = ascii "wal_" ++ (padded id ++ ascii ".log")

-- The name of a sealed segment.
unfoldable pub done_path : ℕ → Bytes
done_path id = wal_seg_path id ++ ascii ".done"

abbrev pub manifest_name : Bytes
manifest_name = ascii "MANIFEST"

abbrev pub manifest_tmp_name : Bytes
manifest_tmp_name = ascii "MANIFEST.tmp"

-- A name cut in front of its last dot; `none` without a dot.
at_dot : ℕ → Bytes → Option (Bytes × Bytes) → Option (Bytes × Bytes)
at_dot c s (some (before, dotted)) = some (c ∷ before, dotted)
at_dot c s none = if c == 46 then some ([], c ∷ s) else none

unfoldable pub last_dot : Bytes → Option (Bytes × Bytes)
unfolding at_dot
last_dot [] = none
last_dot (c ∷ s) = at_dot c s (last_dot s)

-- A dot in front, as in ".log", begins no extension.
stem_of : Bytes → Option (Bytes × Bytes) → Bytes × Bytes
stem_of name none = (name, [])
stem_of name (some ([], dotted)) = (name, [])
stem_of name (some (b ∷ before, dotted)) =
    if str_eq name (ascii "..") then (name, []) else (b ∷ before, dotted)

-- std::filesystem::path::stem and extension
unfoldable pub stem : Bytes → Bytes
unfolding stem_of
stem name = (stem_of name (last_dot name)).0

unfoldable pub extension : Bytes → Bytes
unfolding stem_of
extension name = (stem_of name (last_dot name)).1

-- The names that DB::recover takes for sealed segments, for tables and for segments.
unfoldable pub is_sealed : Bytes → Bool
is_sealed name =
    str_eq (extension name) (ascii ".done") && str_eq (extension (stem name)) (ascii ".log")

unfoldable pub is_table : Bytes → Bool
is_table name = str_eq (extension name) (ascii ".sst")

unfoldable pub is_named_table : Bytes → Bool
unfolding is_table
is_named_table name = is_table name && starts_with (ascii "sst_") (stem name)

unfoldable pub is_segment : Bytes → Bool
is_segment name = str_eq (extension name) (ascii ".log") && starts_with (ascii "wal_") (stem name)

-- std::stoull(stem.substr(4))
unfoldable pub file_id : Bytes → Option ℕ
file_id name = substr 4 (stem name) >>= stoull
