-- ===== src/Tests/Restarts.antt =====
-- The theorems on restarts and on runs, at small stores.
use key_val_store.Base.{◌≤◌, refl, none, some, inl, inr, [], ◌∷◌, arith}
use key_val_store.Str.{str_compare}
use key_val_store.OrdMap.{find, assign}
use key_val_store.MemTable
use key_val_store.MemTable.{live}
use key_val_store.Codec.{wu32, wstr}
use key_val_store.Wal.{WalOp, WalRecord}
use key_val_store.SsTable.{entry_bytes}
use key_val_store.SsTable.Written.{rows}
use key_val_store.SsTable.Contract.{TableFits}
use key_val_store.Names.{wal_seg_path}
use key_val_store.Manifest
use key_val_store.Manifest.{Dir}
use key_val_store.Db.{Options, Db, log, merge_entries, clean_entries}
use key_val_store.Db.Merge.{merge_maps, compacted}
use key_val_store.Db.Methods.{Room}
use key_val_store.Recovery.{apply_record, open_active}
use key_val_store.Recovery.Log.{replayed}
use key_val_store.Recovery.OnDisk.{manifest_of, OnDisk}
use key_val_store.Recovery.Alike.{create_log-OnDisk}
use key_val_store.Recovery.Durable.{Durable, commit-OnDisk}
use key_val_store.Recovery.Reopened.{Resumed, reopen-Durable}
use key_val_store.Recovery.Append.{logged_write, logged_write-Durable}
use key_val_store.Recovery.Lifecycle.{first_db, open_db_done}
use key_val_store.Recovery.Runs.{View, updated, table_maps, Run, started, putting, crashing, Serves}
use key_val_store.Recovery.Served.{Run-Serves}
use key_val_store.Recovery.Overwrites.{Overwritten, overwrite_lost, put-small}
use key_val_store.Tests.Fixtures.{ten_bits, key_b, store, store_maps, store-Represents}
use key_val_store.Tests.Reopen.{store_dir-IsSorted, no_segments}

-- Thresholds that one write does not reach.
abbrev pub wide : Options
wide = record { memtable_flush_bytes = 4096; compaction_threshold = 4 }

-- The store with two tables, with the segment of an earlier id.
abbrev early_dir : Dir
early_dir = assign (wal_seg_path 1) [] (Manifest.write (manifest_of 2 store.sstables) store.dir)

early_dir-OnDisk : OnDisk ten_bits early_dir 2 2 store.sstables store_maps ((1, []) ∷ [])
early_dir-OnDisk =
    create_log-OnDisk ten_bits _ 2 2 1 store.sstables store_maps [] []
      (commit-OnDisk ten_bits store.dir 2 2 store.sstables store_maps [] store_dir-IsSorted
        (omega arith) (omega arith) store-Represents.tables no_segments tt)
      (omega arith) tt

abbrev early_store : Db
early_store = record store { dir = early_dir; current_wal_id = 1 }

early_store-Durable : Durable ten_bits early_store store_maps []
early_store-Durable = record {
  olds = [];
  disk = early_dir-OnDisk;
  spent = refl;
  active = omega arith;
  tight = (1, refl, omega arith);
  synced = record { fits = tt; synced = refl; flushed = refl };
  memtable = unfold replayed in refl;
  sorted = tt;
}

abbrev first_record : WalRecord
first_record = record { op = WalOp.put; key = key_b; value = 52 ∷ [] }

abbrev early_logged : Db
early_logged = logged_write first_record early_store

early_logged-Durable : Durable ten_bits early_logged store_maps (first_record ∷ [])
early_logged-Durable =
    logged_write-Durable ten_bits early_store store_maps [] early_store-Durable first_record
      (record { key_fits = omega arith; value_fits = omega arith; byte_back = refl })

overwritten-fits : TableFits ten_bits (MemTable.put key_b (51 ∷ []) early_logged.memtable).entries
unfolding logged_write log apply_record MemTable.put find assign str_compare rows entry_bytes wstr
    wu32
overwritten-fits = record {
  sorted = (tt, tt);
  entries = omega arith;
  filter = omega arith;
  count = omega arith;
  size = omega arith;
}

overwrite_lost_example : Overwritten ten_bits wide early_logged key_b (51 ∷ []) (live (52 ∷ []))
unfolding logged_write log apply_record MemTable.put find assign str_compare
overwrite_lost_example =
    overwrite_lost ten_bits key_b (51 ∷ []) wide early_logged store_maps (first_record ∷ [])
      (live (52 ∷ [])) early_logged-Durable (omega arith) refl refl overwritten-fits (omega arith)
      (omega arith)

reopen-Durable_example : (db : Db) × Resumed ten_bits wide early_store store_maps [] db
reopen-Durable_example =
    reopen-Durable ten_bits wide early_store store_maps [] early_store-Durable (inr refl)

-- A first start, a put, a crash and a second start.
abbrev first_store : Db
first_store = open_active (first_db ten_bits wide)

first_Room :
    Room ten_bits first_store
      (MemTable.put key_b (52 ∷ []) first_store.memtable).entries
      (table_maps first_store.dir first_store.sstables)
unfolding open_active table_maps MemTable.put compacted merge_maps merge_entries clean_entries
    assign find str_compare rows entry_bytes wstr wu32
first_Room = record {
  ids = omega arith;
  table = record {
    sorted = (tt, tt);
    entries = omega arith;
    filter = omega arith;
    count = omega arith;
    size = omega arith;
  };
  merge = record {
    sorted = (tt, tt);
    entries = omega arith;
    filter = omega arith;
    count = omega arith;
    size = omega arith;
  };
}

abbrev second_store : Db
second_store = logged_write first_record first_store

abbrev written_view : View
written_view = updated key_b (some (52 ∷ [])) (λ key. none)

second-Run : Run ten_bits wide second_store written_view
unfolding open_active
second-Run =
    putting key_b (52 ∷ []) (started (open_db_done ten_bits wide)) (omega arith) (omega arith)
      first_Room (omega arith)
      (put-small ten_bits key_b (52 ∷ []) first_store
        (unfold MemTable.put find assign str_compare in refl))

second_ids : second_store.next_sst_id ≤ second_store.current_wal_id
unfolding logged_write log open_active
second_ids = omega arith

second_Serves : Serves ten_bits second_store written_view
second_Serves = Run-Serves ten_bits wide second-Run

third : (db : Db) × Resumed ten_bits wide second_store second_Serves.maps second_Serves.records db
third =
    reopen-Durable ten_bits wide second_store second_Serves.maps second_Serves.records
      second_Serves.durable (inl second_ids)

Run-Serves_example : Serves ten_bits (third.0) written_view
Run-Serves_example = Run-Serves ten_bits wide (crashing second-Run (inl second_ids) third.1.done)
