-- ===== src/Tests/Reopen.antt =====
-- The theorems on the manifest and on opening a store, at the store with two tables.
use key_val_store.Base.{◌≡◌, refl, ◌∙◌, none, some, List, [], ◌∷◌, arith, if◌then◌else◌}
use key_val_store.Str.{str_eq}
use key_val_store.OrdMap.{OrdMap, IsSorted, assign, select}
use key_val_store.OrdMap.Laws.{assign-IsSorted}
use key_val_store.OrdMap.Select.{select-assign_out}
use key_val_store.MemTable
use key_val_store.MemTable.{MemEntry, live, empty_table}
use key_val_store.Wal.{WalRecord}
use key_val_store.SsTable.{build}
use key_val_store.Names.{sst_path, wal_seg_path, is_segment, file_id}
use key_val_store.Names.Kinds.{is_segment-sst, file_id-sst_path}
use key_val_store.Names.Parsed.{sst_path-OneLine}
use key_val_store.Manifest
use key_val_store.Manifest.{Dir, ManifestData}
use key_val_store.Manifest.ReadBack.{read-write}
use key_val_store.Db.{Db, put, get, del}
use key_val_store.Db.Methods.{Room}
use key_val_store.Recovery.Log.{replayed}
use key_val_store.Recovery.OnDisk.{manifest_of, OnDisk}
use key_val_store.Recovery.Alike.{create_log-OnDisk}
use key_val_store.Recovery.Durable.{Durable, Recovered, commit-OnDisk}
use key_val_store.Recovery.Restart.{Restored, open_db-Restored}
use key_val_store.Recovery.Kept.{Kept}
use key_val_store.Recovery.Keeps.{put-Durable, del-Durable}
use key_val_store.Recovery.Contract.{reopen-put, reopen-del}
use key_val_store.Tests.Fixtures.{
  ten_bits, key_b, old_map, new_map, store, store_maps, store-Represents,
}
use key_val_store.Tests.Store.{put-Room, del-Room}

pub store_dir-IsSorted : IsSorted store.dir
store_dir-IsSorted =
    assign-IsSorted (sst_path 1) _ _ (assign-IsSorted (sst_path 0) (build ten_bits old_map) [] tt)

pub no_segments : select is_segment store.dir ≡ []
unfolding select
no_segments =
    select-assign_out is_segment (sst_path 1) (build ten_bits new_map) _ (is_segment-sst 1)
    ∙ select-assign_out is_segment (sst_path 0) (build ten_bits old_map) [] (is_segment-sst 0)

-- The store's directory with its MANIFEST and its active segment.
abbrev pub full_dir : Dir
full_dir = assign (wal_seg_path 2) [] (Manifest.write (manifest_of 2 store.sstables) store.dir)

full_dir-OnDisk : OnDisk ten_bits full_dir 2 2 store.sstables store_maps ((2, []) ∷ [])
full_dir-OnDisk =
    create_log-OnDisk ten_bits _ 2 2 2 store.sstables store_maps [] []
      (commit-OnDisk ten_bits store.dir 2 2 store.sstables store_maps [] store_dir-IsSorted
        (omega arith) (omega arith) store-Represents.tables no_segments tt)
      (omega arith) tt

abbrev pub full_store : Db
full_store = record store { dir = full_dir }

pub full_store-Durable : Durable ten_bits full_store store_maps []
full_store-Durable = record {
  olds = [];
  disk = full_dir-OnDisk;
  spent = refl;
  active = omega arith;
  tight = (1, refl, omega arith);
  synced = record { fits = tt; synced = refl; flushed = refl };
  memtable = unfold replayed in refl;
  sorted = tt;
}

pub full_put-Room :
    Room ten_bits full_store (MemTable.put key_b (51 ∷ []) full_store.memtable).entries store_maps
full_put-Room = record { ids = put-Room.ids; table = put-Room.table; merge = put-Room.merge }

pub full_del-Room :
    Room ten_bits full_store (MemTable.del key_b full_store.memtable).entries store_maps
full_del-Room = record { ids = del-Room.ids; table = del-Room.table; merge = del-Room.merge }

open_db-Restored_example :
    (db : Db) × Restored ten_bits store.opts full_dir 2 2 store.sstables store_maps
      ((2, []) ∷ [])
      db
open_db-Restored_example =
    open_db-Restored ten_bits store.opts full_dir 2 2 store.sstables store_maps ((2, []) ∷ [])
      full_dir-OnDisk

put-Durable_example :
    (db' : Db) × (ms' : List (OrdMap MemEntry)) × (rs' : List WalRecord) × Kept ten_bits
      (put ten_bits key_b (51 ∷ []) full_store)
      full_store
      3
      db'
      ms'
      rs'
put-Durable_example =
    put-Durable ten_bits key_b (51 ∷ []) full_store store_maps [] full_store-Durable (omega arith)
      (omega arith) full_put-Room (omega arith)

del-Durable_example :
    (db' : Db) × (ms' : List (OrdMap MemEntry)) × (rs' : List WalRecord) × Kept ten_bits
      (del ten_bits key_b full_store)
      full_store
      3
      db'
      ms'
      rs'
del-Durable_example =
    del-Durable ten_bits key_b full_store store_maps [] full_store-Durable (omega arith)
      full_del-Room (omega arith)

reopen-put_example :
    (db' : Db) × (put ten_bits key_b (51 ∷ []) full_store ≡ some db')
    × Recovered ten_bits store.opts db'.dir
        (λ key. if str_eq key key_b then some (51 ∷ []) else get key full_store)
reopen-put_example =
    reopen-put ten_bits full_store store_maps [] full_store-Durable (omega arith) store.opts key_b
      (51 ∷ []) (omega arith) (omega arith) full_put-Room

reopen-del_example :
    (db' : Db) × (del ten_bits key_b full_store ≡ some db')
    × Recovered ten_bits store.opts db'.dir
        (λ key. if str_eq key key_b then none else get key full_store)
reopen-del_example =
    reopen-del ten_bits full_store store_maps [] full_store-Durable (omega arith) store.opts key_b
      (omega arith) full_del-Room

abbrev two_names : ManifestData
two_names = record { generation = 18; live_sstables = sst_path 7 ∷ sst_path 3 ∷ [] }

read-write_example : Manifest.read (Manifest.write two_names full_dir) ≡ some two_names
read-write_example = read-write two_names full_dir (record {
  generation_fits = omega arith;
  one_line = (sst_path-OneLine 7, (sst_path-OneLine 3, tt));
})

file_id-sst_path_example : file_id (sst_path 41) ≡ some 41
file_id-sst_path_example = file_id-sst_path 41 (omega arith)
