-- ===== src/MemTable/Accounting.antt =====
-- The byte count that drives the flush threshold, and the order of the entries.
use key_val_store.Base.{ℕ, ◌+◌, ◌%◌, ◌^◌, ◌≡◌, Option, none, some, [], ◌∷◌, length, arith}
use key_val_store.Str.{Bytes}
use key_val_store.Str.Order.{eq_of_compare}
use key_val_store.OrdMap.{OrdMap, IsSorted, find, assign}
use key_val_store.OrdMap.Laws.{assign-IsSorted, find-AllAbove}
use key_val_store.MemTable.{MemEntry, MemTable, live, deleted, empty_table, put, del}

-- The keys' and values' bytes, added up.
abbrev pub weight : OrdMap MemEntry → ℕ
weight [] = 0
weight ((k, e) ∷ m) = length k + length e.value + weight m

abbrev cost : Bytes → Option MemEntry → ℕ
cost k none = 0
cost k (some e) = length k + length e.value

-- `bytes` is the total size, as a size_t holds it, and the entries stand in key order.
pub record IsValid (t : MemTable) : Type 0 where
  pub sorted : IsSorted t.entries
  pub counted : t.bytes ≡ weight t.entries % 2 ^ 64

weight-assign :
    (k : Bytes) (e : MemEntry) (m : OrdMap MemEntry)
    → IsSorted m
    → weight (assign k e m) + cost k (find k m) ≡ weight m + length k + length e.value
unfolding find assign
weight-assign k e [] s = omega arith
weight-assign k e ((j, w) ∷ m) s =
    ground (arith, weight-assign k e m, find-AllAbove j k m, eq_of_compare k j)

-- From entries in key order whose bytes are counted exactly (modulo 2^64), put leads to such
-- again.
pub put-IsValid : (k v : Bytes) (t : MemTable) → IsValid t → IsValid (put k v t)
unfolding put
put-IsValid k v t h =
    ground (arith, weight-assign k (live v) t.entries, assign-IsSorted k (live v) t.entries)

-- From entries in key order whose bytes are counted exactly (modulo 2^64), del leads to such
-- again.
pub del-IsValid : (k : Bytes) (t : MemTable) → IsValid t → IsValid (del k t)
unfolding del
del-IsValid k t h =
    ground (arith, weight-assign k deleted t.entries, assign-IsSorted k deleted t.entries)

pub empty_table-IsValid : IsValid empty_table
empty_table-IsValid = omega arith
