-- ===== src/Recovery/Durable.antt =====
-- A running store whose files hold all that it knows, and what opening a directory gives back.
use key_val_store.Base.{
  ◌≤◌, ◌+◌, [], ℕ, ◌<◌, ◌^◌, ◌≡◌, ap, sym, ◌∙◌, Option, some, List, ◌∷◌, arith,
}
use key_val_store.Str.{Bytes}
use key_val_store.OrdMap.{OrdMap, IsSorted, select}
use key_val_store.OrdMap.Laws.{assign-IsSorted}
use key_val_store.OrdMap.Select.{select-assign_out, select-erase_out, erase-IsSorted}
use key_val_store.MemTable.{MemEntry, empty_table}
use key_val_store.Wal.{WalRecord, replay}
use key_val_store.Wal.Replay.{replay-whole}
use key_val_store.Wal.Crash.{Holds}
use key_val_store.Names.{sst_path, is_segment, manifest_name, manifest_tmp_name}
use key_val_store.Names.Kinds.{is_segment-manifest, is_segment-manifest_tmp}
use key_val_store.Manifest
use key_val_store.Manifest.{Dir, ManifestData, manifest_text, rename}
use key_val_store.Manifest.ReadBack.{find-write_manifest, write_lem}
use key_val_store.Db.{Options, OpenTable, Db, get}
use key_val_store.Db.Represents.{search_maps, Tables, Represents, get-Represents}
use key_val_store.Db.Frame.{find-write, Tables-frame}
use key_val_store.Recovery.{open_db}
use key_val_store.Recovery.Log.{replayed}
use key_val_store.Recovery.Segments.{Logs, Descending, log_records, log_entries, log_records_spent}
use key_val_store.Recovery.OnDisk.{manifest_of, OnDisk}
use key_val_store.Recovery.Restart.{open_db-Restored}

-- The id counter is the one above the newest table.
abbrev pub IsTight : ℕ → List OpenTable → Type 0
IsTight n [] = n ≡ 0
IsTight n (s ∷ ss) = (id : ℕ) × (s.path ≡ sst_path id) × (n ≡ id + 1)

module _ (optimal_bits : ℕ → ℕ) where
  -- The directory's MANIFEST lists the store's tables, the active segment is the newest, holds exactly
  -- the synced records `rs`, and is the only one with records, the memtable is what these lead to,
  -- and the id counter is above the newest table and not below the active segment.
  pub record Durable (db : Db) (ms : List (OrdMap MemEntry)) (rs : List WalRecord) : Type 0 where
    pub olds : Logs
    pub disk :
        OnDisk optimal_bits db.dir db.manifest_gen db.next_sst_id db.sstables ms
          ((db.current_wal_id, db.wal.file) ∷ olds)
    pub spent : log_records olds ≡ []
    pub active : db.current_wal_id ≤ db.next_sst_id
    pub tight : IsTight db.next_sst_id db.sstables
    pub synced : Holds rs db.wal
    pub memtable : db.memtable ≡ replayed rs empty_table
    pub sorted : IsSorted db.memtable.entries

  pub Durable-Represents :
      (db : Db) (ms : List (OrdMap MemEntry)) (rs : List WalRecord)
      → Durable db ms rs
      → Represents optimal_bits db ms
  Durable-Represents db ms rs d = record { tables = d.disk.tables; sorted = d.sorted }

  -- Opening the store on `dir` succeeds, and get then returns what `view` returns.
  pub record Recovered (opts : Options) (dir : Dir) (view : Bytes → Option Bytes) : Type 0 where
    pub db : Db
    pub maps : List (OrdMap MemEntry)
    pub done : open_db optimal_bits opts dir ≡ some db
    pub holds : Represents optimal_bits db maps
    pub views : (key : Bytes) → get key db ≡ view key

  pub Recovered-view :
      (opts : Options) (dir : Dir) (view view' : Bytes → Option Bytes)
      → Recovered opts dir view
      → ((key : Bytes) → view key ≡ view' key)
      → Recovered opts dir view'
  Recovered-view opts dir view view' r e = record {
    db = r.db;
    maps = r.maps;
    done = r.done;
    holds = r.holds;
    views = λ key. r.views key ∙ e key;
  }

  pub OnDisk-Recovered :
      (opts : Options) (dir : Dir) (gen n : ℕ) (ss : List OpenTable) (ms : List (OrdMap MemEntry))
      (logs : Logs) (view : Bytes → Option Bytes)
      → OnDisk optimal_bits dir gen n ss ms logs
      → ((key : Bytes)
          → search_maps key ((replayed (log_records logs) empty_table).entries ∷ ms) ≡ view key)
      → Recovered opts dir view
  OnDisk-Recovered opts dir gen n ss ms logs view h v =
      let (db, r) = open_db-Restored optimal_bits opts dir gen n ss ms logs h in
      record {
        db = db;
        maps = ms;
        done = r.done;
        holds = r.holds;
        views = λ key. r.view key ∙ v key;
      }

  -- The records of the store's segments.
  pub log_records-Durable :
      (db : Db) (ms : List (OrdMap MemEntry)) (rs : List WalRecord) (d : Durable db ms rs)
      → log_records ((db.current_wal_id, db.wal.file) ∷ d.olds) ≡ rs
  log_records-Durable db ms rs d =
      log_records_spent db.current_wal_id db.wal.file d.olds d.spent
      ∙ ap replay d.synced.synced
      ∙ replay-whole rs d.synced.fits

  -- What a get of the running store finds, in terms of what its files hold.
  pub view-Durable :
      (db : Db) (ms : List (OrdMap MemEntry)) (rs : List WalRecord) (key : Bytes)
      (d : Durable db ms rs)
      → search_maps key (
          (replayed (log_records ((db.current_wal_id, db.wal.file) ∷ d.olds)) empty_table).entries
          ∷ ms)
        ≡ get key db
  view-Durable db ms rs key d =
      rw (log_records-Durable db ms rs d, ← d.memtable)
        (sym (get-Represents optimal_bits key db ms (Durable-Represents db ms rs d)))

  -- A crash between two calls: opening the directory again gives every read back.
  pub crash_idle :
      (opts : Options) (db : Db) (ms : List (OrdMap MemEntry)) (rs : List WalRecord)
      → Durable db ms rs
      → Recovered opts db.dir (λ key. get key db)
  crash_idle opts db ms rs d =
      OnDisk-Recovered opts db.dir db.manifest_gen db.next_sst_id db.sstables ms
        ((db.current_wal_id, db.wal.file) ∷ d.olds) (λ key. get key db) d.disk
        (λ key. view-Durable db ms rs key d)

  select-write :
      (d : ManifestData) (dir : Dir)
      → select is_segment (Manifest.write d dir) ≡ select is_segment dir
  select-write d dir = rw (write_lem d dir) (
      select-assign_out is_segment manifest_name (manifest_text d) _ is_segment-manifest
      ∙ select-erase_out is_segment manifest_tmp_name _ is_segment-manifest_tmp
      ∙ select-assign_out is_segment manifest_tmp_name (manifest_text d) dir
          is_segment-manifest_tmp)

  -- The replacement of the MANIFEST commits the tables that it lists.
  pub commit-OnDisk :
      (dir : Dir) (gen n : ℕ) (ss : List OpenTable) (ms : List (OrdMap MemEntry)) (logs : Logs)
      → IsSorted dir
      → gen < 2 ^ 64
      → n < 2 ^ 64
      → Tables optimal_bits dir n ss ms
      → select is_segment dir ≡ log_entries logs
      → Descending logs
      → OnDisk optimal_bits (Manifest.write (manifest_of gen ss) dir) gen n ss ms logs
  commit-OnDisk dir gen n ss ms logs o g b t s l = record {
    ordered = rw (write_lem (manifest_of gen ss) dir) (
        assign-IsSorted manifest_name _ _
          (erase-IsSorted manifest_tmp_name _ (assign-IsSorted manifest_tmp_name _ dir o)));
    listed = find-write_manifest (manifest_of gen ss) dir;
    gen_fits = g;
    ids_fit = b;
    tables =
        Tables-frame optimal_bits dir _ n n ss ms (omega arith)
          (λ i p. find-write i (manifest_of gen ss) dir) t;
    logged = select-write (manifest_of gen ss) dir ∙ s;
    log_fits = l;
  }
