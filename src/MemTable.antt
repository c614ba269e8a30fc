-- ===== src/MemTable.antt =====
-- include/memtable.h and src/memtable.cpp: the sorted buffer of recent writes.
pub mod Accounting
pub mod Reads
use key_val_store.Base.{
  ℕ, ◌+◌, ◌-◌, ◌%◌, ◌^◌, Bool, true, false, Option, none, some, List, [], ◌∷◌, length, add64, sub64,
  if◌then◌else◌,
}
use key_val_store.Str.{Bytes}
use key_val_store.OrdMap.{OrdMap, find, assign}

pub record MemEntry : Type 0 where
  pub value : Bytes
  pub tombstone : Bool

-- `entries` is data_, and `bytes` is bytes_.
pub record MemTable : Type 0 where
  pub entries : OrdMap MemEntry
  pub bytes : ℕ

abbrev pub empty_table : MemTable
empty_table = record { entries = []; bytes = 0 }

abbrev pub live : Bytes → MemEntry
live v = record { value = v; tombstone = false }

abbrev pub deleted : MemEntry
deleted = record { value = []; tombstone = true }

-- std::map::emplace: the map, and the entry that stood in the way, if one did.
unfoldable pub emplace : Bytes → MemEntry → OrdMap MemEntry → OrdMap MemEntry × Option MemEntry
emplace k e m = elim (find k m) [ none ↦ (assign k e m, none) | some old ↦ (m, some old) ]

put_after : Bytes → Bytes → ℕ → OrdMap MemEntry × Option MemEntry → MemTable
put_after k v b (m, none) = record { entries = m; bytes = add64 (add64 b (length k)) (length v) }
put_after k v b (m, some old) = record {
  entries = assign k (live v) m;
  bytes = add64 (sub64 b (length old.value)) (length v);
}

-- MemTable::put
unfoldable pub put : Bytes → Bytes → MemTable → MemTable
unfolding put_after emplace
put k v t = put_after k v t.bytes (emplace k (live v) t.entries)

del_after : Bytes → ℕ → OrdMap MemEntry × Option MemEntry → MemTable
del_after k b (m, none) = record { entries = m; bytes = add64 b (length k) }
del_after k b (m, some old) = record {
  entries = assign k deleted m;
  bytes = sub64 b (length old.value);
}

-- MemTable::del
unfoldable pub del : Bytes → MemTable → MemTable
unfolding del_after emplace
del k t = del_after k t.bytes (emplace k deleted t.entries)

-- MemTable::raw, with `none` for nullptr
unfoldable pub raw : Bytes → MemTable → Option MemEntry
raw k t = find k t.entries

-- The value that an entry shows a reader: none behind a tombstone.
abbrev pub shown : MemEntry → Option Bytes
shown e = if e.tombstone then none else some e.value

-- MemTable::get
unfoldable pub get : Bytes → MemTable → Option Bytes
get k t = elim (find k t.entries) [ none ↦ none | some e ↦ shown e ]

-- MemTable::size, MemTable::empty and MemTable::clear
unfoldable pub size : MemTable → ℕ
size t = length t.entries

unfoldable pub empty : MemTable → Bool
empty t = elim t.entries [ [] ↦ true | _ ↦ false ]

unfoldable pub clear : MemTable → MemTable
clear t = empty_table
