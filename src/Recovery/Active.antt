-- ===== src/Recovery/Active.antt =====
-- Step 6 of DB::recover: the segment that the opened store logs to.
use key_val_store.Base.{
  ℕ, ◌<◌, ◌≡◌, refl, ap, sym, ◌∙◌, ◌⊎◌, inl, inr, some, List, [], ◌∷◌, arith, ltb, Bool-cases,
}
use mathlib.Core.List.{append-nil}
use key_val_store.Str.{Bytes}
use key_val_store.OrdMap.{OrdMap, find}
use key_val_store.OrdMap.Laws.{find-assign_self}
use key_val_store.OrdMap.Select.{find-select}
use key_val_store.MemTable.{MemEntry}
use key_val_store.Wal.{replay}
use key_val_store.Names.{wal_seg_path, is_segment}
use key_val_store.Names.Kinds.{is_segment-wal}
use key_val_store.Manifest.{Dir}
use key_val_store.Db.{OpenTable, Db}
use key_val_store.Recovery.{max, open_active}
use key_val_store.Recovery.Segments.{
  Logs, AllUnder, AllUnder-trans, log_entries, log_records, log_id,
}
use key_val_store.Recovery.OnDisk.{OnDisk}
use key_val_store.Recovery.Alike.{assign_log-OnDisk, create_log-OnDisk, find_no_log}

module _ (optimal_bits : ℕ → ℕ) where
  -- The store logs to the newest of the segments `logs`, or to a new and empty one above them.
  pub record ActiveLog (db : Db) (gen n : ℕ) (ss : List OpenTable) (ms : List (OrdMap MemEntry))
      (logs : Logs) : Type 0 where
    pub olds : Logs
    pub disk : OnDisk optimal_bits db.dir gen n ss ms ((db.current_wal_id, db.wal.file) ∷ olds)
    pub flushed : db.wal.buffer ≡ []
    pub chosen :
        (logs ≡ (db.current_wal_id, db.wal.file) ∷ olds)
        ⊎ ((olds ≡ logs) × (db.wal.file ≡ []) × (db.current_wal_id ≡ n))

  find_log :
      (dir : Dir) (gen n w : ℕ) (ss : List OpenTable) (ms : List (OrdMap MemEntry)) (file : Bytes)
      (olds : Logs)
      → OnDisk optimal_bits dir gen n ss ms ((w, file) ∷ olds)
      → find (wal_seg_path w) dir ≡ some file
  find_log dir gen n w ss ms file olds h =
      sym (find-select is_segment (wal_seg_path w) dir ∙ rw (is_segment-wal w))
      ∙ ap (find (wal_seg_path w)) h.logged
      ∙ find-assign_self (wal_seg_path w) file (log_entries olds)

  module _ (db : Db) (gen : ℕ) (ss : List OpenTable) (ms : List (OrdMap MemEntry)) where
    created :
        (logs : Logs)
        → OnDisk optimal_bits db.dir gen db.next_sst_id ss ms logs
        → AllUnder db.next_sst_id logs
        → max db.current_wal_id db.next_sst_id ≡ db.next_sst_id
        → ActiveLog (open_active db) gen db.next_sst_id ss ms logs
    unfolding open_active
    created logs h u e =
        let n = db.next_sst_id in
        let absent = find_no_log optimal_bits db.dir gen n n ss ms [] logs h h.ids_fit u in
        rw (e, absent)
          (record {
            olds = logs;
            disk = create_log-OnDisk optimal_bits db.dir gen n n ss ms [] logs h h.ids_fit u;
            flushed = refl;
            chosen = inr (refl, refl, refl);
          })

    resumed :
        (w : ℕ) (file : Bytes) (olds : Logs)
        → OnDisk optimal_bits db.dir gen db.next_sst_id ss ms ((w, file) ∷ olds)
        → max db.current_wal_id db.next_sst_id ≡ w
        → ActiveLog (open_active db) gen db.next_sst_id ss ms ((w, file) ∷ olds)
    unfolding open_active
    resumed w file olds h e =
        let n = db.next_sst_id in
        rw (e, find_log db.dir gen n w ss ms file olds h)
          (record {
            olds = olds;
            disk = assign_log-OnDisk optimal_bits db.dir gen n w ss ms file olds file h;
            flushed = refl;
            chosen = inl refl;
          })

    pub open_active-ActiveLog :
        (logs : Logs)
        → OnDisk optimal_bits db.dir gen db.next_sst_id ss ms logs
        → db.current_wal_id ≡ log_id logs
        → ActiveLog (open_active db) gen db.next_sst_id ss ms logs
    open_active-ActiveLog [] h e = created [] h tt (rw e (ground arith))
    open_active-ActiveLog ((w, file) ∷ olds) h e = elim (Bool-cases (ltb w db.next_sst_id)) [
      | inl less ↦
          let below : w < db.next_sst_id = ground (arith, less) in
          created ((w, file) ∷ olds) h
            (below, AllUnder-trans w db.next_sst_id olds below h.log_fits.1)
            (rw e (ground (arith, below)))
      | inr more ↦ resumed w file olds h (rw e (ground (arith, more)))
    ]

    -- Opening the segment adds no records.
    pub log_records-ActiveLog :
        (db' : Db) (n : ℕ) (logs : Logs) (a : ActiveLog db' gen n ss ms logs)
        → log_records ((db'.current_wal_id, db'.wal.file) ∷ a.olds) ≡ log_records logs
    log_records-ActiveLog db' n logs a = elim a.chosen [
      | inl same ↦ sym (ap log_records same)
      | inr (same, empty, id) ↦ rw (same, empty) (unfold replay in append-nil (log_records logs))
    ]
