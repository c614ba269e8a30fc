-- ===== src/Recovery/Append.antt =====
-- A crash while DB::put or DB::del appends its record to the log.
use key_val_store.Base.{
  ℕ, ◌≡◌, refl, ap, sym, ◌∙◌, List, [], ◌∷◌, ◌++◌, length, ltb, if◌then◌else◌, Bool-cases, inl, inr,
}
use key_val_store.Str.{Bytes}
use key_val_store.OrdMap.{OrdMap, assign}
use key_val_store.MemTable.{MemTable, MemEntry, empty_table}
use key_val_store.Wal.{WalRecord, encode, append, sync, crash}
use key_val_store.Wal.Replay.{Fits}
use key_val_store.Wal.Crash.{replay-crash-append, append-sync-Holds}
use key_val_store.Names.{wal_seg_path}
use key_val_store.Db.{Options, Db, log, get}
use key_val_store.Db.Represents.{get-Represents}
use key_val_store.Recovery.{apply_record}
use key_val_store.Recovery.Log.{replayed, replayed-append, replayed-IsSorted}
use key_val_store.Recovery.Segments.{log_records_spent}
use key_val_store.Recovery.Alike.{assign_log-OnDisk}
use key_val_store.Recovery.Durable.{Durable, Durable-Represents, Recovered, OnDisk-Recovered}

-- The store behind the record's append, sync and change of the memtable.
unfoldable pub logged_write : WalRecord → Db → Db
unfolding log
logged_write r db = record (log r db) { memtable = apply_record r db.memtable }

-- The directory after a crash in the append: `n` bytes of the record got through.
abbrev pub torn_dir : ℕ → WalRecord → Db → Bytes
torn_dir n r db = crash n (append r db.wal)

replayed-snoc :
    (rs : List WalRecord) (r : WalRecord) (t : MemTable)
    → replayed (rs ++ (r ∷ [])) t ≡ apply_record r (replayed rs t)
replayed-snoc rs r t = replayed-append rs (r ∷ []) t ∙ (unfold replayed in refl)

module _ (optimal_bits : ℕ → ℕ) (db : Db) (ms : List (OrdMap MemEntry)) (rs : List WalRecord)
    (d : Durable optimal_bits db ms rs) where
  -- Logging a record and applying it keeps the store durable.
  pub logged_write-Durable :
      (r : WalRecord) → Fits r → Durable optimal_bits (logged_write r db) ms (rs ++ (r ∷ []))
  unfolding logged_write
  logged_write-Durable r f =
      let m : apply_record r db.memtable ≡ replayed (rs ++ (r ∷ [])) empty_table =
        ap (apply_record r) d.memtable ∙ sym (replayed-snoc rs r empty_table) in
      record {
        disk =
            assign_log-OnDisk optimal_bits db.dir db.manifest_gen db.next_sst_id db.current_wal_id
              db.sstables ms (sync (append r db.wal)).file d.olds db.wal.file d.disk;
        olds = d.olds;
        spent = d.spent;
        active = d.active;
        tight = d.tight;
        synced = (append-sync-Holds rs r db.wal d.synced f).0;
        memtable = m;
        sorted = rw m (replayed-IsSorted (rs ++ (r ∷ [])) empty_table tt);
      }

  -- A crash in the append of a record, after `n` of its bytes: opening the directory again gives
  -- the reads from before the call if the record is cut short, and those behind it if it is whole.
  pub crash-logged_write :
      (opts : Options) (r : WalRecord) (n : ℕ)
      → Fits r
      → Recovered optimal_bits opts
          (assign (wal_seg_path db.current_wal_id) (torn_dir n r db) db.dir)
          (λ key. get key (if ltb n (length (encode r)) then db else logged_write r db))
  crash-logged_write opts r n f =
      let torn = torn_dir n r db in
      OnDisk-Recovered optimal_bits opts (assign (wal_seg_path db.current_wal_id) torn db.dir)
        db.manifest_gen db.next_sst_id db.sstables ms ((db.current_wal_id, torn) ∷ d.olds) _
        (assign_log-OnDisk optimal_bits db.dir db.manifest_gen db.next_sst_id db.current_wal_id
          db.sstables ms torn d.olds db.wal.file d.disk)
        (λ key. elim (Bool-cases (ltb n (length (encode r)))) [
          | inl cut ↦
              rw
                (
                  cut,
                  log_records_spent db.current_wal_id torn d.olds d.spent,
                  replay-crash-append rs r db.wal n d.synced f,
                )
                (rw (cut, ← d.memtable)
                  (sym (
                    get-Represents optimal_bits key db ms
                      (Durable-Represents optimal_bits db ms rs d))))
          | inr whole ↦
              rw
                (
                  whole,
                  log_records_spent db.current_wal_id torn d.olds d.spent,
                  replay-crash-append rs r db.wal n d.synced f,
                )
                (rw (whole, ← (logged_write-Durable r f).memtable)
                  (sym (
                    get-Represents optimal_bits key (logged_write r db) ms (
                      Durable-Represents optimal_bits (logged_write r db) ms (rs ++ (r ∷ []))
                        (logged_write-Durable r f)))))
        ])
