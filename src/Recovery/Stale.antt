-- ===== src/Recovery/Stale.antt =====
-- What recovery does with a segment that a crash left behind.
use key_val_store.Base.{ℕ, ◌+◌, ◌<◌, ◌≤◌, ◌^◌, ◌≡◌, refl, ap, sym, ◌∙◌, inl, inr, List, ◌∷◌, arith}
use mathlib.Core.List.{append-nil}
use key_val_store.OrdMap.{OrdMap, IsSorted}
use key_val_store.MemTable.{MemEntry, empty_table}
use key_val_store.SsTable.Contract.{TableFits}
use key_val_store.Wal.{WalRecord, append, sync, replay}
use key_val_store.Db.{Options, Db, log}
use key_val_store.Db.Represents.{search_maps}
use key_val_store.Db.Flush.{full_state}
use key_val_store.Recovery.{apply_record}
use key_val_store.Recovery.Log.{replayed}
use key_val_store.Recovery.Segments.{Logs, log_records, log_id}
use key_val_store.Recovery.OnDisk.{OnDisk}
use key_val_store.Recovery.Alike.{assign_log-OnDisk}
use key_val_store.Recovery.Restart.{Restored}
use key_val_store.Recovery.Durable.{Durable, Recovered, OnDisk-Recovered, log_records-Durable}
use key_val_store.Recovery.Reopened.{next_same}
use key_val_store.Recovery.Append.{logged_write}
use key_val_store.Recovery.Flushed.{full_state-OnDisk, full_state_wal}

module _ (optimal_bits : ℕ → ℕ) where
  -- A store whose directory has the segments `olds` below the active one.
  pub record Lagging (db : Db) (ms : List (OrdMap MemEntry)) (olds : Logs) : Type 0 where
    pub disk :
        OnDisk optimal_bits db.dir db.manifest_gen db.next_sst_id db.sstables ms
          ((db.current_wal_id, db.wal.file) ∷ olds)
    pub sorted : IsSorted db.memtable.entries
    pub active : db.current_wal_id ≤ db.next_sst_id

  -- A flush empties the active segment only: after a flush and a restart, the records of all older
  -- segments stand above the flushed entries.
  pub stale_view :
      (opts : Options) (db : Db) (ms : List (OrdMap MemEntry)) (olds : Logs)
      → Lagging db ms olds
      → TableFits optimal_bits db.memtable.entries
      → db.next_sst_id + 1 < 2 ^ 64
      → db.manifest_gen + 1 < 2 ^ 64
      → Recovered optimal_bits opts (full_state optimal_bits db).dir (λ key.
        search_maps key
          ((replayed (log_records olds) empty_table).entries ∷ db.memtable.entries ∷ ms))
  stale_view opts db ms olds h fits ids gens =
      let f = full_state optimal_bits db in
      let on = full_state-OnDisk optimal_bits db ms olds h.disk h.sorted fits h.active ids gens in
      let empty = full_state_wal optimal_bits db ms olds h.disk h.sorted fits h.active ids gens in
      OnDisk-Recovered optimal_bits opts f.dir f.manifest_gen f.next_sst_id f.sstables
        (db.memtable.entries ∷ ms) ((f.current_wal_id, f.wal.file) ∷ olds) _ on
        (λ key. rw (empty) (unfold replay in rw (append-nil (log_records olds)) refl))

  -- The first record that a store logs behind the crash.
  pub logged_write-Lagging :
      (r : WalRecord) (db : Db) (ms : List (OrdMap MemEntry)) (olds : Logs)
      → Lagging db ms olds
      → IsSorted (apply_record r db.memtable).entries
      → Lagging (logged_write r db) ms olds
  unfolding logged_write log
  logged_write-Lagging r db ms olds h s = record {
    disk =
        assign_log-OnDisk optimal_bits db.dir db.manifest_gen db.next_sst_id db.current_wal_id
          db.sstables ms (sync (append r db.wal)).file olds db.wal.file h.disk;
    sorted = s;
    active = h.active;
  }

  module _ (opts : Options) (db db' : Db) (ms : List (OrdMap MemEntry)) (rs : List WalRecord)
      (d : Durable optimal_bits db ms rs) (below : db.current_wal_id < db.next_sst_id)
      (r : Restored optimal_bits opts db.dir db.manifest_gen db.next_sst_id db.sstables ms
        ((db.current_wal_id, db.wal.file) ∷ d.olds)
        db') where
    pub next_kept : db'.next_sst_id ≡ db.next_sst_id
    next_kept = next_same optimal_bits opts db db' ms rs d r

    above : db'.current_wal_id ≡ db'.next_sst_id
    above = r.active ∙ ground (arith, below, next_kept)

    -- The segment from before the crash is an old one of the opened store.
    left_behind : r.files.olds ≡ (db.current_wal_id, db.wal.file) ∷ d.olds
    left_behind = elim r.files.chosen [
      | inl same ↦
          let id : db.current_wal_id ≡ db'.current_wal_id = ap log_id same in
          absurd (omega (arith, id, above, next_kept, below))
      | inr fresh ↦ fresh.0
    ]

    pub Restored-Lagging : Lagging db' ms r.files.olds
    Restored-Lagging = record {
      disk = rw (r.same_gen, r.same_tables) r.files.disk;
      sorted = r.holds.sorted;
      active = omega (arith, above);
    }

    pub records_left : log_records r.files.olds ≡ rs
    records_left = ap log_records left_behind ∙ log_records-Durable optimal_bits db ms rs d

    pub memtable_kept : db'.memtable ≡ db.memtable
    memtable_kept =
        r.memtable
        ∙ ap (λ l. replayed l empty_table) (log_records-Durable optimal_bits db ms rs d)
        ∙ sym d.memtable
