-- ===== src/Tests/Fixtures.antt =====
-- Small stores, tables and records that the tests share.
use key_val_store.Base.{ℕ, ◌*◌, refl, List, [], ◌∷◌, arith}
use key_val_store.Str.{Bytes, str_compare}
use key_val_store.OrdMap.{OrdMap, find, assign}
use key_val_store.MemTable.{MemEntry, live, deleted, empty_table}
use key_val_store.Codec.{wu32, wstr}
use key_val_store.SsTable.{build, entry_bytes}
use key_val_store.SsTable.Written.{rows}
use key_val_store.SsTable.Contract.{TableFits, loaded}
use key_val_store.Names.{sst_path, padded, decimal, digits_loop}
use key_val_store.Db.{Db, OpenTable}
use key_val_store.Db.Represents.{Represents}

-- About ten bits for each key.
abbrev pub ten_bits : ℕ → ℕ
ten_bits n = 10 * n

abbrev pub key_a : Bytes
key_a = 97 ∷ []

abbrev pub key_b : Bytes
key_b = 98 ∷ []

abbrev pub old_map : OrdMap MemEntry
old_map = (key_a, live (49 ∷ [])) ∷ (key_b, live (50 ∷ [])) ∷ []

abbrev pub new_map : OrdMap MemEntry
new_map = (key_a, deleted) ∷ []

pub old_map-fits : TableFits ten_bits old_map
unfolding rows entry_bytes wstr wu32 str_compare
old_map-fits = record {
  sorted = ((refl, tt), (tt, tt));
  entries = omega arith;
  filter = omega arith;
  count = omega arith;
  size = omega arith;
}

pub new_map-fits : TableFits ten_bits new_map
unfolding rows entry_bytes wstr wu32
new_map-fits = record {
  sorted = (tt, tt);
  entries = omega arith;
  filter = omega arith;
  count = omega arith;
  size = omega arith;
}

abbrev table_at : ℕ → OrdMap MemEntry → OpenTable
table_at id m = record { path = sst_path id; table = loaded ten_bits m }

-- A store with two tables, of which the newer one deletes the first key. Any write flushes, and two
-- tables are compacted.
abbrev pub store : Db
store = record {
  dir =
      assign (sst_path 1) (build ten_bits new_map)
        (assign (sst_path 0) (build ten_bits old_map) []);
  opts = record { memtable_flush_bytes = 1; compaction_threshold = 2 };
  memtable = empty_table;
  wal = record { file = []; buffer = [] };
  sstables = table_at 1 new_map ∷ table_at 0 old_map ∷ [];
  next_sst_id = 2;
  current_wal_id = 2;
  manifest_gen = 2;
  wal_replayed = 0;
}

abbrev pub store_maps : List (OrdMap MemEntry)
store_maps = new_map ∷ old_map ∷ []

pub store-Represents : Represents ten_bits store store_maps
unfolding find assign sst_path padded decimal digits_loop str_compare
store-Represents = record {
  tables = (
    record {
      id = 1;
      below = omega arith;
      named = refl;
      fits = new_map-fits;
      opened = refl;
      stored = refl;
    },
    (
      record {
        id = 0;
        below = omega arith;
        named = refl;
        fits = old_map-fits;
        opened = refl;
        stored = refl;
      },
      tt,
    ),
  );
  sorted = tt;
}
