-- ===== src/Tests/Crashes.antt =====
-- The theorems on crashes, at the store with two tables.
use key_val_store.Base.{◌≡◌, refl, some, none, [], ◌∷◌, arith, take}
use key_val_store.Str.{Bytes, str_compare}
use key_val_store.OrdMap.{find, assign}
use key_val_store.MemTable
use key_val_store.MemTable.{MemEntry, live, deleted}
use key_val_store.Codec.{wu32, wstr}
use key_val_store.Wal.{WalOp, WalRecord}
use key_val_store.Wal.Replay.{Fits}
use key_val_store.SsTable.{entry_bytes}
use key_val_store.SsTable.Written.{rows}
use key_val_store.SsTable.Contract.{TableFits}
use key_val_store.Manifest.{Dir}
use key_val_store.Db.{
  Db, get, log, seal_segment, update_manifest, remove_files, merge_entries, clean_entries,
}
use key_val_store.Db.Flush.{with_table}
use key_val_store.Db.Compact.{swapped}
use key_val_store.Names.{wal_seg_path}
use key_val_store.Db.Merge.{merge_maps, compacted}
use key_val_store.Recovery.{apply_record, open_db, close_db}
use key_val_store.Recovery.Lifecycle.{reopen-close_db, open_db_first}
use key_val_store.Recovery.Durable.{Durable, Recovered}
use key_val_store.Recovery.Append.{torn_dir, logged_write, logged_write-Durable}
use key_val_store.Recovery.FlushCrash.{sealed, crash-flush_memtable}
use key_val_store.Recovery.MergeCrash.{removing, crash-merge_all}
use key_val_store.Recovery.Contract.{appending, flushing, RecoveredEither, crash-put, crash-del}
use key_val_store.Tests.Fixtures.{ten_bits, key_b, store, store_maps}
use key_val_store.Tests.Store.{dirty-fits}
use key_val_store.Tests.Reopen.{full_store, full_store-Durable, full_put-Room, full_del-Room}

abbrev record_b : WalRecord
record_b = record { op = WalOp.put; key = key_b; value = 52 ∷ [] }

record_b-Fits : Fits record_b
record_b-Fits = record { key_fits = omega arith; value_fits = omega arith; byte_back = refl }

-- The store with one record in its log.
abbrev logged_store : Db
logged_store = logged_write record_b full_store

logged_store-Durable : Durable ten_bits logged_store store_maps (record_b ∷ [])
logged_store-Durable =
    logged_write-Durable ten_bits full_store store_maps [] full_store-Durable record_b record_b-Fits

logged_store-fits : TableFits ten_bits logged_store.memtable.entries
unfolding logged_write log apply_record MemTable.put find assign
logged_store-fits = dirty-fits

abbrev sealed_dir : Dir
sealed_dir = seal_segment (update_manifest (with_table ten_bits logged_store))

crash-flush_memtable_example :
    Recovered ten_bits store.opts sealed_dir (λ key. get key logged_store)
crash-flush_memtable_example =
    crash-flush_memtable ten_bits logged_store store_maps (record_b ∷ []) logged_store-Durable
      logged_store-fits (unfold logged_write log in omega arith)
      (unfold logged_write log in omega arith) store.opts sealed

old_maps-fit : TableFits ten_bits (compacted store_maps)
unfolding compacted merge_maps merge_entries clean_entries assign find str_compare rows entry_bytes
    wstr wu32
old_maps-fit = record {
  sorted = (tt, tt);
  entries = omega arith;
  filter = omega arith;
  count = omega arith;
  size = omega arith;
}

abbrev merging_dir : Dir
merging_dir =
    remove_files (take 1 full_store.sstables)
      (update_manifest (swapped ten_bits (compacted store_maps) full_store)).dir

crash-merge_all_example : Recovered ten_bits store.opts merging_dir (λ key. get key full_store)
crash-merge_all_example =
    crash-merge_all ten_bits full_store store_maps [] full_store-Durable old_maps-fit (omega arith)
      (omega arith) store.opts (removing 1)

abbrev put_b : WalRecord
put_b = record { op = WalOp.put; key = key_b; value = 51 ∷ [] }

abbrev del_b : WalRecord
del_b = record { op = WalOp.del; key = key_b; value = [] }

crash-put_example :
    RecoveredEither ten_bits store.opts
      (assign (wal_seg_path 2) (torn_dir 3 put_b full_store) full_store.dir)
      key_b
      (live (51 ∷ []))
      full_store
crash-put_example =
    crash-put ten_bits full_store store_maps [] full_store-Durable (omega arith) store.opts key_b
      (51 ∷ []) (omega arith) (omega arith) full_put-Room (appending 3)

crash-del_example :
    RecoveredEither ten_bits store.opts
      (seal_segment (update_manifest (with_table ten_bits (logged_write del_b full_store))))
      key_b
      deleted
      full_store
crash-del_example =
    crash-del ten_bits full_store store_maps [] full_store-Durable (omega arith) store.opts key_b
      (omega arith) full_del-Room (flushing sealed)

reopen-close_db_example :
    (dir : Dir) × (close_db ten_bits logged_store ≡ some dir)
    × Recovered ten_bits store.opts dir (λ key. get key logged_store)
reopen-close_db_example =
    reopen-close_db ten_bits store.opts logged_store store_maps (record_b ∷ []) logged_store-Durable
      (λ e. logged_store-fits) (unfold logged_write log in omega arith)
      (unfold logged_write log in omega arith)

open_db_first_example :
    (db : Db) × (open_db ten_bits store.opts [] ≡ some db)
    × Durable ten_bits db [] []
    × ((key : Bytes) → get key db ≡ none)
open_db_first_example = open_db_first ten_bits store.opts
