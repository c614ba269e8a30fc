-- ===== src/Recovery/Restart.antt =====
-- DB::recover on a directory with a MANIFEST and any segments.
use key_val_store.Base.{ℕ, ◌≤◌, ◌≡◌, refl, ap, ◌∙◌, some, List, ◌∷◌, arith}
use key_val_store.Str.{Bytes}
use key_val_store.OrdMap.{OrdMap}
use key_val_store.MemTable.{MemEntry, empty_table}
use key_val_store.Manifest
use key_val_store.Manifest.{Dir}
use key_val_store.Manifest.ReadBack.{read-manifest_text}
use key_val_store.Db.{Options, OpenTable, Db, get}
use key_val_store.Db.Represents.{search_maps, Tables, Represents, get-Represents}
use key_val_store.Db.Frame.{find-assign_wal, Tables-frame}
use key_val_store.Recovery.{
  max, fresh, remove_leftovers, remove_orphans, load_listed, load_tables, open_active, open_db,
  recover,
}
use key_val_store.Recovery.Tables.{
  paths, Tables-OneLine, load_listed-AllOpened, remove_orphans-SameTables, Tables-SameTables,
}
use key_val_store.Recovery.Log.{replayed, counted, replayed-IsSorted}
use key_val_store.Recovery.Segments.{Logs, log_records, log_id}
use key_val_store.Recovery.Collected.{Collects-logs, replay_segments_lem}
use key_val_store.Recovery.Active.{ActiveLog, open_active-ActiveLog}
use key_val_store.Recovery.OnDisk.{
  manifest_of, OnDisk, remove_leftovers-OnDisk, remove_orphans-OnDisk,
}

module _ (optimal_bits : ℕ → ℕ) where
  -- The store that recovery leads to, and what its reads return.
  pub record Restored (opts : Options) (dir : Dir) (gen n : ℕ) (ss : List OpenTable)
      (ms : List (OrdMap MemEntry)) (logs : Logs) (db : Db) : Type 0 where
    pub done : open_db optimal_bits opts dir ≡ some db
    pub holds : Represents optimal_bits db ms
    pub same_tables : db.sstables ≡ ss
    pub same_gen : db.manifest_gen ≡ gen
    pub same_opts : db.opts ≡ opts
    pub ids : db.next_sst_id ≤ n
    pub active : db.current_wal_id ≡ max (log_id logs) db.next_sst_id
    pub memtable : db.memtable ≡ replayed (log_records logs) empty_table
    pub replays : db.wal_replayed ≡ counted (log_records logs) 0
    pub files : ActiveLog optimal_bits db gen db.next_sst_id ss ms logs
    pub view :
        (key : Bytes)
        → get key db ≡ search_maps key ((replayed (log_records logs) empty_table).entries ∷ ms)

  load_tables-listed :
      (opts : Options) (dir : Dir) (gen n next : ℕ) (ss : List OpenTable)
      (ms : List (OrdMap MemEntry)) (logs : Logs)
      → OnDisk optimal_bits dir gen n ss ms logs
      → load_listed optimal_bits (paths ss) dir 0 ≡ some (next, ss)
      → load_tables optimal_bits (fresh opts dir)
        ≡ some (record (fresh opts dir) { manifest_gen = gen; next_sst_id = next; sstables = ss })
  unfolding load_tables Manifest.exists
  load_tables-listed opts dir gen n next ss ms logs h l =
      let names = Tables-OneLine optimal_bits dir n ss ms h.tables in
      let text =
        read-manifest_text (manifest_of gen ss) dir
          (record { generation_fits = h.gen_fits; one_line = names }) h.listed in
      rw (h.listed, Manifest.exists) (rw (text, l))

  -- The state behind step 5.
  abbrev replayed_db : Options → Dir → ℕ → ℕ → List OpenTable → Logs → Db
  replayed_db opts dir gen next ss logs = record (fresh opts (remove_orphans ss dir)) {
    manifest_gen = gen;
    next_sst_id = next;
    sstables = ss;
    memtable = replayed (log_records logs) empty_table;
    wal_replayed = counted (log_records logs) 0;
    current_wal_id = max 0 (log_id logs);
  }

  open_db-done :
      (opts : Options) (dir : Dir) (gen n next : ℕ) (ss : List OpenTable)
      (ms : List (OrdMap MemEntry)) (logs : Logs)
      → OnDisk optimal_bits dir gen n ss ms logs
      → load_listed optimal_bits (paths ss) (remove_leftovers dir) 0 ≡ some (next, ss)
      → open_db optimal_bits opts dir
        ≡ some (open_active (replayed_db opts (remove_leftovers dir) gen next ss logs))
  unfolding open_db recover
  open_db-done opts dir gen n next ss ms logs h l =
      let clean = remove_leftovers-OnDisk optimal_bits dir gen n ss ms logs h in
      let kept = remove_orphans-OnDisk optimal_bits (remove_leftovers dir) gen n ss ms logs clean in
      let collected = Collects-logs logs h.log_fits in
      rw
        (
          load_tables-listed opts (remove_leftovers dir) gen n next ss ms logs clean l,
          kept.logged,
          collected.done,
        )
        (rw collected.order
          (ap (λ d. some (open_active d)) (replay_segments_lem logs _ h.log_fits)))

  open_active-Represents :
      (db : Db) (ms : List (OrdMap MemEntry))
      → Represents optimal_bits db ms
      → Represents optimal_bits (open_active db) ms
  unfolding open_active
  open_active-Represents db ms h = record {
    tables =
        Tables-frame optimal_bits db.dir _ db.next_sst_id db.next_sst_id db.sstables ms
          (omega arith) (λ i p. find-assign_wal i (max db.current_wal_id db.next_sst_id) _ db.dir)
          h.tables;
    sorted = h.sorted;
  }

  -- The cleaned directory, with the id counter that recovery comes to.
  before-OnDisk :
      (dir : Dir) (gen n next : ℕ) (ss : List OpenTable) (ms : List (OrdMap MemEntry)) (logs : Logs)
      → OnDisk optimal_bits dir gen n ss ms logs
      → next ≤ n
      → Tables optimal_bits (remove_orphans ss (remove_leftovers dir)) next ss ms
      → OnDisk optimal_bits (remove_orphans ss (remove_leftovers dir)) gen next ss ms logs
  before-OnDisk dir gen n next ss ms logs h b t =
      let clean = remove_leftovers-OnDisk optimal_bits dir gen n ss ms logs h in
      let kept = remove_orphans-OnDisk optimal_bits (remove_leftovers dir) gen n ss ms logs clean in
      record {
        ordered = kept.ordered;
        listed = kept.listed;
        gen_fits = kept.gen_fits;
        ids_fit = omega (arith, b, h.ids_fit);
        tables = t;
        logged = kept.logged;
        log_fits = kept.log_fits;
      }

  max-zero_left : (a : ℕ) → max 0 a ≡ a
  max-zero_left a = ground arith

  zero_max : (n next : ℕ) → next ≤ max 0 n → next ≤ n
  zero_max n next h = ground arith

  -- On a directory in name order whose MANIFEST lists tables that hold `ms`, with any segments,
  -- opening the store succeeds, whatever leftovers and orphans lie about. It serves the listed
  -- tables with the listed generation, its memtable is the replay of the segments' whole records,
  -- oldest segment first, it counts these, and its id counter is above every table. Its active
  -- segment is the newest one if that is not below the id counter, and else a new and empty one;
  -- it removes no segment.
  pub open_db-Restored :
      (opts : Options) (dir : Dir) (gen n : ℕ) (ss : List OpenTable) (ms : List (OrdMap MemEntry))
      (logs : Logs)
      → OnDisk optimal_bits dir gen n ss ms logs
      → (db : Db) × Restored opts dir gen n ss ms logs db
  unfolding open_active
  open_db-Restored opts dir gen n ss ms logs h =
      let clean = remove_leftovers-OnDisk optimal_bits dir gen n ss ms logs h in
      let (next, l) =
        load_listed-AllOpened optimal_bits (remove_leftovers dir) n 0 ss ms h.ids_fit
          clean.tables in
      let orphans = remove_orphans-SameTables ss (remove_leftovers dir) in
      let before = replayed_db opts (remove_leftovers dir) gen next ss logs in
      let start : Represents optimal_bits before ms = record {
        tables = Tables-SameTables optimal_bits _ before.dir next ss ms orphans l.holds;
        sorted = replayed-IsSorted (log_records logs) empty_table tt;
      } in
      let kept = open_active-Represents before ms start in
      let id = max-zero_left (log_id logs) in
      let files : OnDisk optimal_bits before.dir gen next ss ms logs =
        before-OnDisk dir gen n next ss ms logs h (zero_max n next l.within) start.tables in
      (
        open_active before,
        record {
          done = open_db-done opts dir gen n next ss ms logs h l.done;
          holds = kept;
          same_tables = refl;
          same_gen = refl;
          same_opts = refl;
          ids = zero_max n next l.within;
          active = ap (λ c. max c next) id;
          memtable = refl;
          replays = refl;
          files = open_active-ActiveLog optimal_bits before gen ss ms logs files id;
          view = λ key. get-Represents optimal_bits key (open_active before) ms kept ∙ (refl);
        },
      )
