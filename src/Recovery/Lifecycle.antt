-- ===== src/Recovery/Lifecycle.antt =====
-- The first start of a store, and its orderly end.
use key_val_store.Base.{ℕ, ◌+◌, ◌<◌, ◌^◌, ◌≡◌, refl, ◌∙◌, false, none, some, List, [], arith}
use key_val_store.Str.{Bytes}
use key_val_store.OrdMap.{OrdMap, find, erase, select}
use key_val_store.MemTable
use key_val_store.MemTable.{MemEntry, empty_table}
use key_val_store.Wal.{WalRecord}
use key_val_store.SsTable.Contract.{TableFits}
use key_val_store.Names.{wal_seg_path}
use key_val_store.Manifest
use key_val_store.Manifest.{Dir}
use key_val_store.Db.{Options, Db, get, update_manifest}
use key_val_store.Db.Represents.{search_maps, get-Represents}
use key_val_store.Db.Flush.{maps_after}
use key_val_store.Recovery.{
  fresh, remove_leftovers, remove_orphans, load_tables, open_active, recover, open_db, close_db,
  sort_newest, sort_oldest, collect_segments, replay_segments,
}
use key_val_store.Recovery.Log.{replayed}
use key_val_store.Recovery.OnDisk.{manifest_of, OnDisk, remove_orphans-OnDisk}
use key_val_store.Recovery.Alike.{create_log-OnDisk, find_no_log}
use key_val_store.Recovery.Durable.{
  Durable, Durable-Represents, Recovered, Recovered-view, crash_idle, commit-OnDisk,
}
use key_val_store.Recovery.Closed.{close_db-Closed}

module _ (optimal_bits : ℕ → ℕ) where
  -- The end of a durable store whose memtable fits a table (or is empty), with one id and one
  -- generation left, succeeds, and opening the directory that it leaves gives every read back as
  -- it was.
  pub reopen-close_db :
      (opts : Options) (db : Db) (ms : List (OrdMap MemEntry)) (rs : List WalRecord)
      → Durable optimal_bits db ms rs
      → (MemTable.empty db.memtable ≡ false → TableFits optimal_bits db.memtable.entries)
      → db.next_sst_id + 1 < 2 ^ 64
      → db.manifest_gen + 1 < 2 ^ 64
      → (dir : Dir) × (close_db optimal_bits db ≡ some dir)
        × Recovered optimal_bits opts dir (λ key. get key db)
  reopen-close_db opts db ms rs d h ids gens =
      let (db', c) = close_db-Closed optimal_bits db ms rs d h ids gens in
      (
        db'.dir,
        c.done,
        Recovered-view optimal_bits opts db'.dir _ _
            (crash_idle optimal_bits opts db' (maps_after db.memtable.entries ms) [] c.durable)
            c.views,
      )

  -- The directory that the first start leaves, before its segment is created.
  abbrev pub first_dir : Dir
  first_dir = remove_orphans [] (Manifest.write (manifest_of 1 []) [])

  first_dir-OnDisk : OnDisk optimal_bits first_dir 1 0 [] [] []
  unfolding select
  first_dir-OnDisk =
      remove_orphans-OnDisk optimal_bits _ 1 0 [] [] []
        (commit-OnDisk optimal_bits [] 1 0 [] [] [] tt (omega arith) (omega arith) tt refl tt)

  abbrev pub first_db : Options → Db
  first_db opts = record (fresh opts first_dir) { manifest_gen = 1 }

  first_loaded :
      (opts : Options)
      → load_tables optimal_bits (fresh opts (remove_leftovers []))
        ≡ some (record (fresh opts (Manifest.write (manifest_of 1 []) [])) { manifest_gen = 1 })
  unfolding load_tables remove_leftovers update_manifest Manifest.exists find select erase
      sort_newest
  first_loaded opts = refl

  pub open_db_done :
      (opts : Options) → open_db optimal_bits opts [] ≡ some (open_active (first_db opts))
  unfolding open_db recover
  open_db_done opts =
      rw (first_loaded opts, first_dir-OnDisk.logged)
        (unfold collect_segments sort_oldest replay_segments in refl)

  first_segment : find (wal_seg_path 0) first_dir ≡ none
  first_segment =
      find_no_log optimal_bits first_dir 1 0 0 [] [] [] [] first_dir-OnDisk (omega arith) tt

  -- The first start, in an empty directory, succeeds and leads to a durable store without
  -- entries.
  pub open_db_first :
      (opts : Options)
      → (db : Db) × (open_db optimal_bits opts [] ≡ some db)
        × Durable optimal_bits db [] []
        × ((key : Bytes) → get key db ≡ none)
  open_db_first opts =
      let d : Durable optimal_bits (open_active (first_db opts)) [] [] = record {
        olds = [];
        disk =
            unfold open_active in
            rw first_segment (
              create_log-OnDisk optimal_bits first_dir 1 0 0 [] [] [] [] first_dir-OnDisk
                (omega arith) tt);
        spent = refl;
        active = unfold open_active in omega arith;
        tight = unfold open_active in refl;
        synced =
            unfold open_active in
            rw first_segment (record { fits = tt; synced = refl; flushed = refl });
        memtable = unfold open_active replayed in refl;
        sorted = unfold open_active in tt;
      } in
      (
        open_active (first_db opts),
        open_db_done opts,
        d,
        λ key.
            get-Represents optimal_bits key (open_active (first_db opts)) []
              (Durable-Represents optimal_bits (open_active (first_db opts)) [] [] d)
            ∙ (unfold open_active search_maps find in refl),
      )
