-- ===== src/Tests/Store.antt =====
-- The theorems on the store, at a store with two tables.
use key_val_store.Base.{refl, ◌++◌, ◌≡◌, none, some, List, [], ◌∷◌, arith, if◌then◌else◌}
use key_val_store.Str.{Bytes, str_compare, str_eq}
use key_val_store.OrdMap.{OrdMap, find, assign}
use key_val_store.MemTable
use key_val_store.MemTable.{MemEntry, live, deleted, empty_table}
use key_val_store.Codec.{wu32, wstr}
use key_val_store.SsTable.{entry_bytes}
use key_val_store.SsTable.Written.{rows}
use key_val_store.SsTable.Contract.{TableFits}
use key_val_store.Db.{Db, put, del, get, merge_entries, clean_entries}
use key_val_store.Db.Represents.{Represents, search_maps, get-Represents}
use key_val_store.Db.Flush.{Flushed, flush_memtable-Flushed}
use key_val_store.Db.Merge.{merge_maps, compacted}
use key_val_store.Db.Compact.{Compacted, compact-Compacted}
use key_val_store.Db.Methods.{Room, get-put, get-del}
use key_val_store.Names.{ascii}
use key_val_store.Repl.{says, run_line}
use key_val_store.Repl.Commands.{run_line-put-get}
use key_val_store.Tests.Fixtures.{ten_bits, key_a, key_b, store, store_maps, store-Represents}

pub put-Room : Room ten_bits store (MemTable.put key_b (51 ∷ []) store.memtable).entries store_maps
unfolding MemTable.put compacted merge_maps merge_entries clean_entries assign find str_compare rows
    entry_bytes wstr wu32
put-Room = record {
  ids = omega arith;
  table = record {
    sorted = (tt, tt);
    entries = omega arith;
    filter = omega arith;
    count = omega arith;
    size = omega arith;
  };
  merge = record {
    sorted = (tt, tt);
    entries = omega arith;
    filter = omega arith;
    count = omega arith;
    size = omega arith;
  };
}

get-put_example :
    (db' : Db) × (ms' : List (OrdMap MemEntry)) × (put ten_bits key_b (51 ∷ []) store ≡ some db')
    × Represents ten_bits db' ms'
    × ((key : Bytes) → get key db' ≡ (if str_eq key key_b then some (51 ∷ []) else get key store))
get-put_example = get-put ten_bits key_b (51 ∷ []) store store_maps store-Represents put-Room

pub del-Room : Room ten_bits store (MemTable.del key_b store.memtable).entries store_maps
unfolding MemTable.del compacted merge_maps merge_entries clean_entries assign find str_compare rows
    entry_bytes wstr wu32
del-Room = record {
  ids = omega arith;
  table = record {
    sorted = (tt, tt);
    entries = omega arith;
    filter = omega arith;
    count = omega arith;
    size = omega arith;
  };
  merge = record {
    sorted = tt;
    entries = tt;
    filter = omega arith;
    count = omega arith;
    size = omega arith;
  };
}

get-del_example :
    (db' : Db) × (ms' : List (OrdMap MemEntry)) × (del ten_bits key_b store ≡ some db')
    × Represents ten_bits db' ms'
    × ((key : Bytes) → get key db' ≡ (if str_eq key key_b then none else get key store))
get-del_example = get-del ten_bits key_b store store_maps store-Represents del-Room

-- The store with a third key in its memtable.
abbrev dirty : Db
dirty = record store { memtable = record { entries = (key_b, live (52 ∷ [])) ∷ []; bytes = 2 } }

dirty-Represents : Represents ten_bits dirty store_maps
dirty-Represents = record { tables = store-Represents.tables; sorted = (tt, tt) }

pub dirty-fits : TableFits ten_bits dirty.memtable.entries
unfolding rows entry_bytes wstr wu32
dirty-fits = record {
  sorted = (tt, tt);
  entries = omega arith;
  filter = omega arith;
  count = omega arith;
  size = omega arith;
}

flush_memtable-Flushed_example : (db' : Db) × Flushed ten_bits dirty db' store_maps
flush_memtable-Flushed_example =
    flush_memtable-Flushed ten_bits dirty store_maps dirty-Represents (λ e. dirty-fits)
      (omega arith)

merged-fits : TableFits ten_bits (compacted (dirty.memtable.entries ∷ store_maps))
unfolding compacted merge_maps merge_entries clean_entries assign find str_compare rows entry_bytes
    wstr wu32
merged-fits = record {
  sorted = (tt, tt);
  entries = omega arith;
  filter = omega arith;
  count = omega arith;
  size = omega arith;
}

compact-Compacted_example :
    (db' : Db) × (ms' : List (OrdMap MemEntry)) × Compacted ten_bits dirty db' store_maps ms'
compact-Compacted_example =
    compact-Compacted ten_bits dirty store_maps dirty-Represents (λ e. dirty-fits) merged-fits
      (omega arith)

get-Represents_example : get key_a store ≡ search_maps key_a ([] ∷ store_maps)
get-Represents_example = get-Represents ten_bits key_a store store_maps store-Represents

run_line-put-get_example :
    (db' : Db) × (run_line ten_bits (ascii "put" ++ (32 ∷ (key_b ++ (32 ∷ 51 ∷ [])))) store
      ≡ some (says db' (ascii "OK" ++ (10 ∷ []))))
    × (run_line ten_bits (ascii "get" ++ (32 ∷ key_b)) db' ≡ some (says db' (51 ∷ 10 ∷ [])))
run_line-put-get_example =
    run_line-put-get ten_bits key_b (51 ∷ []) store store_maps store-Represents put-Room (refl, tt)
      refl
