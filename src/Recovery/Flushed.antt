-- ===== src/Recovery/Flushed.antt =====
-- What a flush leaves on disk when it has replaced the MANIFEST, and when it has ended.
use key_val_store.Base.{ℕ, ◌+◌, ◌<◌, ◌≤◌, ◌^◌, ◌≡◌, refl, ◌∙◌, List, [], ◌∷◌, arith, add64}
use key_val_store.OrdMap.{OrdMap, IsSorted}
use key_val_store.OrdMap.Laws.{assign-IsSorted}
use key_val_store.OrdMap.Select.{select-assign_out}
use key_val_store.MemTable
use key_val_store.MemTable.{MemEntry, empty_table}
use key_val_store.SsTable.Contract.{TableFits}
use key_val_store.Names.{sst_path, is_segment}
use key_val_store.Names.Kinds.{is_segment-sst}
use key_val_store.Db.{Db, update_manifest, rotate_wal}
use key_val_store.Db.Flush.{with_table, with_table-Tables, full_state}
use key_val_store.Recovery.Segments.{Logs}
use key_val_store.Recovery.OnDisk.{OnDisk}
use key_val_store.Recovery.Durable.{IsTight, commit-OnDisk}
use key_val_store.Recovery.Rotation.{rotate_wal_empty, rotate_wal-active}

module _ (optimal_bits : ℕ → ℕ) (db : Db) (ms : List (OrdMap MemEntry)) (olds : Logs)
    (disk : OnDisk optimal_bits db.dir db.manifest_gen db.next_sst_id db.sstables ms
      ((db.current_wal_id, db.wal.file) ∷ olds))
    (sorted : IsSorted db.memtable.entries) (fits : TableFits optimal_bits db.memtable.entries)
    (active : db.current_wal_id ≤ db.next_sst_id) (ids : db.next_sst_id + 1 < 2 ^ 64)
    (gens : db.manifest_gen + 1 < 2 ^ 64) where
  abbrev pub listed_db : Db
  listed_db = update_manifest (with_table optimal_bits db)

  -- The MANIFEST has been replaced: the new table is live, and the segment is still there.
  pub listed-OnDisk :
      OnDisk optimal_bits listed_db.dir listed_db.manifest_gen listed_db.next_sst_id
        listed_db.sstables
        (db.memtable.entries ∷ ms)
        ((listed_db.current_wal_id, listed_db.wal.file) ∷ olds)
  unfolding update_manifest
  listed-OnDisk =
      let next : add64 db.next_sst_id 1 ≡ db.next_sst_id + 1 = omega arith in
      let gen : add64 db.manifest_gen 1 ≡ db.manifest_gen + 1 = omega arith in
      rw (next, gen)
        (commit-OnDisk optimal_bits (with_table optimal_bits db).dir (db.manifest_gen + 1)
          (db.next_sst_id + 1) (with_table optimal_bits db).sstables (db.memtable.entries ∷ ms)
          ((db.current_wal_id, db.wal.file) ∷ olds)
          (assign-IsSorted (sst_path db.next_sst_id) _ db.dir disk.ordered) gens ids
          (with_table-Tables optimal_bits db ms fits ids
            (record { tables = disk.tables; sorted = sorted }))
          (select-assign_out is_segment (sst_path db.next_sst_id) _ db.dir
              (is_segment-sst db.next_sst_id)
            ∙ disk.logged)
          disk.log_fits)

  pub listed_below : listed_db.current_wal_id < listed_db.next_sst_id
  unfolding update_manifest
  listed_below =
      let next : add64 db.next_sst_id 1 ≡ db.next_sst_id + 1 = omega arith in omega (arith, next)

  listed-IsTight : IsTight listed_db.next_sst_id listed_db.sstables
  unfolding update_manifest
  listed-IsTight = (db.next_sst_id, refl, omega arith)

  -- The flush has ended: the segment is gone, and an empty one stands in its place.
  pub full_state-OnDisk :
      OnDisk optimal_bits
        (full_state optimal_bits db).dir
        (full_state optimal_bits db).manifest_gen
        (full_state optimal_bits db).next_sst_id
        (full_state optimal_bits db).sstables
        (db.memtable.entries ∷ ms)
        (((full_state optimal_bits db).current_wal_id, (full_state optimal_bits db).wal.file)
          ∷ olds)
  unfolding full_state
  full_state-OnDisk =
      unfold rotate_wal in
      rotate_wal-active optimal_bits listed_db (db.memtable.entries ∷ ms) olds listed-OnDisk
        listed_below

  pub full_state_wal : (full_state optimal_bits db).wal ≡ record { file = []; buffer = [] }
  unfolding full_state
  full_state_wal =
      rotate_wal_empty optimal_bits listed_db (db.memtable.entries ∷ ms) olds listed-OnDisk
        listed_below

  pub full_state_memtable : (full_state optimal_bits db).memtable ≡ empty_table
  unfolding full_state rotate_wal MemTable.clear
  full_state_memtable = refl

  pub full_state_active :
      (full_state optimal_bits db).current_wal_id ≡ (full_state optimal_bits db).next_sst_id
  unfolding full_state rotate_wal
  full_state_active = refl

  pub full_state-IsTight :
      IsTight (full_state optimal_bits db).next_sst_id (full_state optimal_bits db).sstables
  unfolding full_state
  full_state-IsTight = unfold rotate_wal in listed-IsTight
