-- ===== src/Recovery/FlushCrash.antt =====
-- A crash at any point of DB::flush_memtable_locked, and the flush that runs to its end.
use key_val_store.Base.{ℕ, ◌+◌, ◌<◌, ◌^◌, ◌≡◌, refl, sym, ◌∙◌, List, [], ◌∷◌, arith}
use key_val_store.Str.{Bytes}
use key_val_store.OrdMap.{OrdMap, assign}
use key_val_store.MemTable.{MemEntry, empty_table}
use key_val_store.Wal.{WalRecord, replay}
use key_val_store.Wal.Crash.{Holds}
use key_val_store.SsTable.Contract.{TableFits}
use key_val_store.Names.{sst_path, manifest_tmp_name}
use key_val_store.Manifest.{Dir}
use key_val_store.Db.{Options, Db, get, update_manifest, seal_segment, open_next, rotate_wal}
use key_val_store.Db.Represents.{search_maps, get-Represents}
use key_val_store.Db.Flush.{with_table, full_state, search_maps-nil}
use key_val_store.Recovery.Flushed.{
  listed-OnDisk, listed_below, full_state-OnDisk, full_state_wal, full_state_memtable,
  full_state_active, full_state-IsTight,
}
use key_val_store.Recovery.Segments.{Logs, log_records, log_records_spent}
use key_val_store.Recovery.Log.{replayed}
use key_val_store.Recovery.OnDisk.{OnDisk}
use key_val_store.Recovery.Durable.{
  Durable, Durable-Represents, Recovered, OnDisk-Recovered, view-Durable, log_records-Durable,
}
use key_val_store.Recovery.Rotation.{
  assign_sst-OnDisk, assign_tmp-OnDisk, seal_segment-OnDisk, open_next-OnDisk, rotate_wal-OnDisk,
}

search_maps_twice :
    (key : Bytes) (m : OrdMap MemEntry) (ms : List (OrdMap MemEntry))
    → search_maps key (m ∷ m ∷ ms) ≡ search_maps key (m ∷ ms)
unfolding search_maps
search_maps_twice key m ms = ground arith

module _ (optimal_bits : ℕ → ℕ) where
  -- The directories that a crash in a flush can leave: in the write of the table's file or of the
  -- new MANIFEST, which may hold any bytes then, and behind each rename, creation and removal.
  pub data FlushCrash (db : Db) : Dir → Type 0 where
    started : FlushCrash db db.dir
    building : (c : Bytes) → FlushCrash db (assign (sst_path db.next_sst_id) c db.dir)
    listing :
        (c : Bytes) → FlushCrash db (assign manifest_tmp_name c (with_table optimal_bits db).dir)
    committed : FlushCrash db (update_manifest (with_table optimal_bits db)).dir
    sealed : FlushCrash db (seal_segment (update_manifest (with_table optimal_bits db)))
    opened : FlushCrash db (open_next (update_manifest (with_table optimal_bits db)))
    ended : FlushCrash db (rotate_wal (update_manifest (with_table optimal_bits db))).dir

  module _ (db : Db) (ms : List (OrdMap MemEntry)) (rs : List WalRecord)
      (d : Durable optimal_bits db ms rs) (fits : TableFits optimal_bits db.memtable.entries)
      (ids : db.next_sst_id + 1 < 2 ^ 64) (gens : db.manifest_gen + 1 < 2 ^ 64) where
    abbrev live_db : Db
    live_db = update_manifest (with_table optimal_bits db)

    listed :
        OnDisk optimal_bits live_db.dir live_db.manifest_gen live_db.next_sst_id live_db.sstables
          (db.memtable.entries ∷ ms)
          ((live_db.current_wal_id, live_db.wal.file) ∷ d.olds)
    listed = listed-OnDisk optimal_bits db ms d.olds d.disk d.sorted fits d.active ids gens

    below : live_db.current_wal_id < live_db.next_sst_id
    below = listed_below optimal_bits db ms d.olds d.disk d.sorted fits d.active ids gens

    view_flushed : (key : Bytes) → search_maps key ([] ∷ db.memtable.entries ∷ ms) ≡ get key db
    view_flushed key =
        search_maps-nil key (db.memtable.entries ∷ ms)
        ∙ sym (get-Represents optimal_bits key db ms (Durable-Represents optimal_bits db ms rs d))

    view_committed :
        (key : Bytes)
        → search_maps key (
            (replayed (log_records ((db.current_wal_id, db.wal.file) ∷ d.olds)) empty_table).entries
            ∷ db.memtable.entries
            ∷ ms)
          ≡ get key db
    view_committed key =
        rw (log_records-Durable optimal_bits db ms rs d, ← d.memtable)
          (search_maps_twice key db.memtable.entries ms
            ∙ sym (
                get-Represents optimal_bits key db ms (Durable-Represents optimal_bits db ms rs d)))

    reads_before :
        (opts : Options) (dir : Dir)
        → OnDisk optimal_bits dir db.manifest_gen db.next_sst_id db.sstables ms
            ((db.current_wal_id, db.wal.file) ∷ d.olds)
        → Recovered optimal_bits opts dir (λ key. get key db)
    reads_before opts dir h =
        OnDisk-Recovered optimal_bits opts dir db.manifest_gen db.next_sst_id db.sstables ms
          ((db.current_wal_id, db.wal.file) ∷ d.olds) _ h
          (λ key. view-Durable optimal_bits db ms rs key d)

    -- `logs` hold no records: the segment is sealed, or the next one is empty.
    reads_after :
        (opts : Options) (dir : Dir) (logs : Logs)
        → OnDisk optimal_bits dir live_db.manifest_gen live_db.next_sst_id live_db.sstables
            (db.memtable.entries ∷ ms)
            logs
        → log_records logs ≡ []
        → Recovered optimal_bits opts dir (λ key. get key db)
    reads_after opts dir logs h e =
        OnDisk-Recovered optimal_bits opts dir live_db.manifest_gen live_db.next_sst_id
          live_db.sstables (db.memtable.entries ∷ ms) logs _ h
          (λ key. rw e (unfold replayed in view_flushed key))

    no_records : log_records ((live_db.next_sst_id, []) ∷ d.olds) ≡ []
    unfolding replay
    no_records = log_records_spent live_db.next_sst_id [] d.olds d.spent

    -- Wherever a flush of a durable store crashes, if its memtable fits a table and one id and
    -- one generation are left, opening the directory again succeeds and gives every read back as
    -- it was.
    pub crash-flush_memtable :
        (opts : Options) {dir : Dir}
        → FlushCrash db dir
        → Recovered optimal_bits opts dir (λ key. get key db)
    crash-flush_memtable opts started = reads_before opts db.dir d.disk
    crash-flush_memtable opts (building c) = reads_before opts _ (
        assign_sst-OnDisk optimal_bits db.dir db.manifest_gen db.next_sst_id db.sstables ms _ d.disk
          c)
    crash-flush_memtable opts (listing c) = reads_before opts _ (
        assign_tmp-OnDisk optimal_bits (with_table optimal_bits db).dir db.manifest_gen
          db.next_sst_id db.sstables ms _
          (assign_sst-OnDisk optimal_bits db.dir db.manifest_gen db.next_sst_id db.sstables ms _
            d.disk _)
          c)
    crash-flush_memtable opts committed =
        OnDisk-Recovered optimal_bits opts live_db.dir live_db.manifest_gen live_db.next_sst_id
          live_db.sstables (db.memtable.entries ∷ ms)
          ((live_db.current_wal_id, live_db.wal.file) ∷ d.olds) _ listed
          (unfold update_manifest in view_committed)
    crash-flush_memtable opts sealed =
        reads_after opts _ d.olds
          (seal_segment-OnDisk optimal_bits live_db (db.memtable.entries ∷ ms) d.olds listed below)
          d.spent
    crash-flush_memtable opts opened =
        reads_after opts _ ((live_db.next_sst_id, []) ∷ d.olds)
          (open_next-OnDisk optimal_bits live_db (db.memtable.entries ∷ ms) d.olds listed below)
          no_records
    crash-flush_memtable opts ended =
        reads_after opts _ ((live_db.next_sst_id, []) ∷ d.olds)
          (rotate_wal-OnDisk optimal_bits live_db (db.memtable.entries ∷ ms) d.olds listed below)
          no_records

    nothing_logged : Holds [] (record { file = []; buffer = [] })
    nothing_logged = record { fits = tt; synced = refl; flushed = refl }

    -- A flush that runs to its end leaves a durable store with an empty log.
    pub full_state-Durable :
        Durable optimal_bits (full_state optimal_bits db) (db.memtable.entries ∷ ms) []
    full_state-Durable =
        let e = full_state_wal optimal_bits db ms d.olds d.disk d.sorted fits d.active ids gens in
        let m =
          full_state_memtable optimal_bits db ms d.olds d.disk d.sorted fits d.active ids gens in
        let a =
          full_state_active optimal_bits db ms d.olds d.disk d.sorted fits d.active ids gens in
        record {
          olds = d.olds;
          disk = full_state-OnDisk optimal_bits db ms d.olds d.disk d.sorted fits d.active ids gens;
          spent = d.spent;
          active = omega (arith, a);
          tight =
              full_state-IsTight optimal_bits db ms d.olds d.disk d.sorted fits d.active ids gens;
          synced = rw e nothing_logged;
          memtable = unfold replayed in m;
          sorted = rw m tt;
        }
