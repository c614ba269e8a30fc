-- ===== src/SsTable.antt =====
-- include/sstable.h and src/sstable.cpp: the immutable sorted file.
-- A file is its bytes, and ftell64 is the number of bytes in front of what is still to be read.
-- The offsets of a file that build wrote are below 2^63, so that fseek64 takes them as they are.
pub mod Written
pub mod Footer
pub mod Search
pub mod Filter
pub mod Contract
use key_val_store.Base.{
  ℕ, zero, suc, ◌+◌, ◌-◌, ◌*◌, ◌/◌, ◌%◌, ◌^◌, Bool, true, false, Option, none, some, List, [], ◌∷◌,
  ◌++◌, length, drop, take, replicate, get_elem?, Ordering, leb, ltb, ◌==◌, if◌then◌else◌, to_u32,
  ◌>>=◌,
}
use key_val_store.Str.{Bytes, str_compare, str_lt}
use key_val_store.OrdMap.{OrdMap}
use key_val_store.MemTable.{MemEntry}
use key_val_store.Codec.{fread, wu32, wu64, wstr, ru32, ru64, rstr}
use key_val_store.Bloom.{BloomFilter, fresh, from_bytes, add, may_contain}

pub record SstEntry : Type 0 where
  pub key : Bytes
  pub value : Bytes
  pub tombstone : Bool

pub record IndexPoint : Type 0 where
  pub key : Bytes
  pub offset : ℕ

pub data LookupResult : Type 0 where
  not_found tombstone : LookupResult
  found : Bytes → LookupResult

-- SSTable::INDEX_STRIDE
abbrev pub index_stride : ℕ
index_stride = 16

-- The loop that adds every key to the filter.
unfoldable pub add_keys : OrdMap MemEntry → BloomFilter → BloomFilter
add_keys [] f = f
add_keys ((k, e) ∷ m) f = add_keys m (add k f)

-- One data entry.
unfoldable pub entry_bytes : Bytes → MemEntry → Bytes
entry_bytes k e = wstr k ++ ((if e.tombstone then 1 else 0) ∷ wstr e.value)

-- The loop over the entries, at entry `n` and position `pos`: the bytes written, and the points that
-- it leaves in `sparse`, one for every `index_stride` entries.
unfoldable pub write_entries : ℕ → ℕ → OrdMap MemEntry → Bytes × List IndexPoint
write_entries n pos [] = ([], [])
write_entries n pos ((k, e) ∷ m) =
    let (rest, points) = write_entries (n + 1) (pos + length (entry_bytes k e)) m in
    (
      entry_bytes k e ++ rest,
      if n % index_stride == 0 then record { key = k; offset = pos % 2 ^ 64 } ∷ points else points,
    )

unfoldable pub point_bytes : List IndexPoint → Bytes
point_bytes [] = []
point_bytes (p ∷ ps) = wstr p.key ++ (wu64 p.offset ++ point_bytes ps)

unfoldable pub bloom_section : BloomFilter → Bytes
bloom_section f = wu32 (to_u32 f.m) ++ f.bits

unfoldable pub index_section : List IndexPoint → Bytes
index_section ps = wu32 (to_u32 (length ps)) ++ point_bytes ps

-- Everything behind the data entries, which take `len` bytes.
unfoldable pub sections : ℕ → BloomFilter → List IndexPoint → Bytes
sections len f ps =
    bloom_section f
    ++ (index_section ps
        ++ (wu64 (len % 2 ^ 64) ++ wu64 ((len + length (bloom_section f)) % 2 ^ 64)))

-- The members that load_meta fills; the path is kept by the store.
pub record SsTable : Type 0 where
  pub index : List IndexPoint
  pub bloom_offset : ℕ
  pub index_offset : ℕ
  pub bloom : BloomFilter

-- The bytes at the 16-byte footer: a file that is too short for the seek is read from its start.
unfoldable pub at_footer : Bytes → Bytes
at_footer file = if leb 16 (length file) then drop (length file - 16) file else file

-- What a string that cannot be read leaves behind: resize has set the length, and fread has filled
-- in what there was.
unfoldable pub torn_str : Bytes → Bytes
torn_str src = elim (ru32 src) [
  | none ↦ []
  | some (len, rest) ↦ take len rest ++ replicate (len - length rest) 0
]

abbrev blank_point : IndexPoint
blank_point = record { key = []; offset = 0 }

-- The loop that fills the `count` points of the resized index.
unfoldable pub read_points : ℕ → Bytes → List IndexPoint
read_points zero src = []
read_points (suc count) src = elim (rstr src) [
  | none ↦ record { key = torn_str src; offset = 0 } ∷ replicate count blank_point
  | some (k, rest) ↦ elim (ru64 rest) [
    | none ↦ record { key = k; offset = 0 } ∷ replicate count blank_point
    | some (o, rest') ↦ record { key = k; offset = o } ∷ read_points count rest'
  ]
]

unfoldable pub load_index : Bytes → List IndexPoint
load_index src = elim (ru32 src) [ none ↦ [] | some (count, rest) ↦ read_points count rest ]

module _ (optimal_bits : ℕ → ℕ) where
  -- SSTable::build: the file that it writes.
  unfoldable pub build : OrdMap MemEntry → Bytes
  build m =
      let (rows, points) = write_entries 0 0 m in
      rows ++ sections (length rows) (add_keys m (fresh optimal_bits (length m))) points

  -- `none` is the exception of the filter's constructor.
  unfoldable pub load_bloom : Bytes → Option BloomFilter
  load_bloom src = elim (ru32 src) [
    | none ↦ some (fresh optimal_bits 0)
    | some (num_bits, rest) ↦ elim (fread ((num_bits + 7) % 2 ^ 32 / 8) rest) [
      | none ↦ some (fresh optimal_bits 0)
      | some (buf, rest') ↦ from_bytes buf ((num_bits + 7) % 2 ^ 32 / 8) num_bits
    ]
  ]

  -- The constructor and SSTable::load_meta on a file that is there.
  unfoldable pub load_meta : Bytes → Option SsTable
  load_meta file = elim (ru64 (at_footer file)) [
    | none ↦
        some
          (record { index = []; bloom_offset = 0; index_offset = 0; bloom = fresh optimal_bits 0 })
    | some (bo, rest) ↦ elim (ru64 rest) [
      | none ↦
          some (record {
            index = [];
            bloom_offset = bo;
            index_offset = 0;
            bloom = fresh optimal_bits 0;
          })
      | some (io, rest') ↦ do
        f ← load_bloom (drop bo file)
        some (record {
          index = load_index (drop io file);
          bloom_offset = bo;
          index_offset = io;
          bloom = f;
        })
    ]
  ]

-- std::upper_bound over the index: the number of leading points whose key is not above `key`.
unfoldable pub upper_bound : Bytes → List IndexPoint → ℕ
upper_bound key [] = 0
upper_bound key (p ∷ ps) = if str_lt key p.key then 0 else suc (upper_bound key ps)

read_byte : Bytes → Option (ℕ × Bytes)
read_byte [] = none
read_byte (b ∷ src) = some (b, src)

-- The key, the flags and the value of the entry that comes next.
unfoldable pub read_entry : Bytes → Option (Bytes × ℕ × Bytes × Bytes)
unfolding read_byte
read_entry src = do
  (k, rest) ← rstr src
  (flags, rest') ← read_byte rest
  (v, rest'') ← rstr rest'
  some (k, flags, v, rest'')

abbrev pub entry_result : ℕ → Bytes → LookupResult
entry_result flags v = if flags % 2 == 1 then tombstone else found v

-- The forward scan of SSTable::lookup in a file of `size` bytes whose entries end at `stop`. Every
-- round takes a byte at least.
unfoldable pub scan_loop : ℕ → Bytes → ℕ → ℕ → Bytes → LookupResult
scan_loop zero key stop size src = not_found
scan_loop (suc fuel) key stop size src = elim (ltb (size - length src) stop) [
  | false ↦ not_found
  | true ↦ elim (read_entry src) [
    | none ↦ not_found
    | some (k, flags, v, rest) ↦ elim (str_compare k key) [
      | Ordering.eq ↦ entry_result flags v
      | Ordering.gt ↦ not_found
      | Ordering.lt ↦ scan_loop fuel key stop size rest
    ]
  ]
]

scan_from : Bytes → SsTable → Option Bytes → Option IndexPoint → LookupResult
scan_from key t none p = not_found
scan_from key t (some file) none = not_found
scan_from key t (some file) (some p) =
    let src = drop p.offset file in scan_loop (length src) key t.bloom_offset (length file) src

-- SSTable::lookup; `file` is what stands at the table's path, `none` if it cannot be opened.
unfoldable pub lookup : Bytes → SsTable → Option Bytes → LookupResult
unfolding scan_from
lookup key t file =
    if may_contain key t.bloom
    then elim t.index [
      | [] ↦ not_found
      | _ ↦ elim (upper_bound key t.index) [
        | zero ↦ not_found
        | suc i ↦ scan_from key t file (get_elem? t.index i)
      ]
    ]
    else not_found

unfoldable pub scan_all_loop : ℕ → ℕ → ℕ → Bytes → List SstEntry
scan_all_loop zero stop size src = []
scan_all_loop (suc fuel) stop size src = elim (ltb (size - length src) stop) [
  | false ↦ []
  | true ↦ elim (read_entry src) [
    | none ↦ []
    | some (k, flags, v, rest) ↦
        record { key = k; value = v; tombstone = flags % 2 == 1 }
        ∷ scan_all_loop fuel stop size rest
  ]
]

-- SSTable::scan_all
unfoldable pub scan_all : SsTable → Option Bytes → List SstEntry
scan_all t file = elim file [
  | none ↦ []
  | some f ↦ scan_all_loop (length f) t.bloom_offset (length f) f
]
