-- ===== src/Recovery/Reopened.antt =====
-- DB::recover on the directory of a durable store, which leads to a durable store again.
use key_val_store.Base.{
  ℕ, ◌<◌, ◌≤◌, ◌^◌, ◌≡◌, ap, sym, ◌∙◌, ◌⊎◌, inl, inr, some, some-inj, List, [], ◌∷◌, arith,
}
use key_val_store.Str.{Bytes}
use key_val_store.OrdMap.{OrdMap}
use key_val_store.MemTable.{MemEntry, empty_table}
use key_val_store.Wal.{WalRecord}
use key_val_store.Wal.Crash.{Holds}
use key_val_store.Names.{sst_path, file_id}
use key_val_store.Names.Kinds.{file_id-sst_path}
use key_val_store.Manifest.{Dir}
use key_val_store.Db.{Options, OpenTable, Db, get}
use key_val_store.Db.Represents.{Tables}
use key_val_store.Recovery.{open_db}
use key_val_store.Recovery.Log.{replayed, counted}
use key_val_store.Recovery.Segments.{Logs, AllUnder, log_records}
use key_val_store.Recovery.Restart.{Restored, open_db-Restored}
use key_val_store.Recovery.Durable.{IsTight, Durable, view-Durable, log_records-Durable}

sst_path-inj : (i j : ℕ) → i < 2 ^ 64 → j < 2 ^ 64 → sst_path i ≡ sst_path j → i ≡ j
sst_path-inj i j h k e =
    some-inj i j (sym (file_id-sst_path i h) ∙ ap file_id e ∙ file_id-sst_path j k)

module _ (optimal_bits : ℕ → ℕ) where
  -- Above all tables and not above a counter that is tight, a counter is that one.
  tight_unique :
      (dir : Dir) (n n' : ℕ) (ss : List OpenTable) (ms : List (OrdMap MemEntry))
      → IsTight n ss
      → n < 2 ^ 64
      → Tables optimal_bits dir n' ss ms
      → n' ≤ n
      → n' ≡ n
  tight_unique dir n n' [] ms t b h p = omega (arith, t)
  tight_unique dir n n' (s ∷ ss) [] t b h p = absurd h
  tight_unique dir n n' (s ∷ ss) (m ∷ ms) (id, named, above) b h p =
      let same : h.0.id ≡ id =
        sst_path-inj h.0.id id (omega (arith, h.0.below)) (omega (arith, above))
          (sym h.0.named ∙ named) in
      omega (arith, same, above, h.0.below)

  -- The store opened on the directory of a durable one is durable, and serves the same reads.
  pub record Resumed (opts : Options) (db : Db) (ms : List (OrdMap MemEntry)) (rs : List WalRecord)
      (db' : Db) : Type 0 where
    pub done : open_db optimal_bits opts db.dir ≡ some db'
    pub durable : Durable optimal_bits db' ms rs
    pub same_ids : db'.next_sst_id ≡ db.next_sst_id
    pub same_gen : db'.manifest_gen ≡ db.manifest_gen
    pub same_opts : db'.opts ≡ opts
    pub replays : db'.wal_replayed ≡ counted rs 0
    pub views : (key : Bytes) → get key db' ≡ get key db

  abbrev rest : Logs → Logs
  rest [] = []
  rest (l ∷ logs) = logs

  abbrev newest : Logs → Bytes
  newest [] = []
  newest ((w, file) ∷ logs) = file

  -- What of the opened store's log depends on the segment that it chose.
  record LogKept (db : Db) (rs : List WalRecord) (olds : Logs) : Type 0 where
    pub spent : log_records olds ≡ []
    pub synced : Holds rs db.wal

  module _ (opts : Options) (db db' : Db) (ms : List (OrdMap MemEntry)) (rs : List WalRecord)
      (d : Durable optimal_bits db ms rs)
      (r : Restored optimal_bits opts db.dir db.manifest_gen db.next_sst_id db.sstables ms
        ((db.current_wal_id, db.wal.file) ∷ d.olds)
        db') where
    pub next_same : db'.next_sst_id ≡ db.next_sst_id
    next_same =
        tight_unique db'.dir db.next_sst_id db'.next_sst_id db.sstables ms d.tight d.disk.ids_fit
          r.files.disk.tables r.ids

    -- A new segment was chosen, so the log was empty.
    no_records :
        (db.next_sst_id ≤ db.current_wal_id) ⊎ (rs ≡ [])
        → db'.current_wal_id ≡ db'.next_sst_id
        → r.files.olds ≡ (db.current_wal_id, db.wal.file) ∷ d.olds
        → rs ≡ []
    no_records (inr h) id same = h
    no_records (inl h) id same =
        let below : AllUnder db'.current_wal_id ((db.current_wal_id, db.wal.file) ∷ d.olds) =
          rw same at r.files.disk.log_fits.1 in
        absurd (omega (arith, h, id, next_same, below.0))

    log_kept : (db.next_sst_id ≤ db.current_wal_id) ⊎ (rs ≡ []) → LogKept db' rs r.files.olds
    log_kept h = elim r.files.chosen [
      | inl same ↦ record {
        spent = sym (ap (λ l. log_records (rest l)) same) ∙ d.spent;
        synced = record {
          fits = d.synced.fits;
          synced = sym (ap newest same) ∙ d.synced.synced;
          flushed = r.files.flushed;
        };
      }
      | inr (same, empty, id) ↦
          let all = log_records-Durable optimal_bits db ms rs d in
          let nothing = no_records h id same in
          record {
            spent = ap log_records same ∙ all ∙ nothing;
            synced = rw nothing (record { fits = tt; synced = empty; flushed = r.files.flushed });
          }
    ]

    pub Restored-Resumed :
        (db.next_sst_id ≤ db.current_wal_id) ⊎ (rs ≡ []) → Resumed opts db ms rs db'
    Restored-Resumed h =
        let k = log_kept h in
        let all = log_records-Durable optimal_bits db ms rs d in
        record {
          done = r.done;
          durable = record {
            olds = r.files.olds;
            disk = rw (r.same_gen, r.same_tables) r.files.disk;
            spent = k.spent;
            active = rw (r.active, next_same) (ground (arith, d.active));
            tight = rw (r.same_tables, next_same) d.tight;
            synced = k.synced;
            memtable = r.memtable ∙ ap (λ l. replayed l empty_table) all;
            sorted = r.holds.sorted;
          };
          same_ids = next_same;
          same_gen = r.same_gen;
          same_opts = r.same_opts;
          replays = r.replays ∙ ap (λ l. counted l 0) all;
          views = λ key. r.view key ∙ view-Durable optimal_bits db ms rs key d;
        }

  -- Opening the directory of a durable store succeeds, and leads to a durable store with the same
  -- tables, records, id counter and generation that serves the same reads, if the log is empty or
  -- its segment is not below the id counter.
  pub reopen-Durable :
      (opts : Options) (db : Db) (ms : List (OrdMap MemEntry)) (rs : List WalRecord)
      → Durable optimal_bits db ms rs
      → (db.next_sst_id ≤ db.current_wal_id) ⊎ (rs ≡ [])
      → (db' : Db) × Resumed opts db ms rs db'
  reopen-Durable opts db ms rs d h =
      let (db', r) =
        open_db-Restored optimal_bits opts db.dir db.manifest_gen db.next_sst_id db.sstables ms
          ((db.current_wal_id, db.wal.file) ∷ d.olds) d.disk in
      (db', Restored-Resumed opts db db' ms rs d r h)
