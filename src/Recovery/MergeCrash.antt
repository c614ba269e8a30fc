-- ===== src/Recovery/MergeCrash.antt =====
-- A crash at any point of the merge in DB::compact_locked, and the merge that runs to its end.
use key_val_store.Base.{
  ℕ, zero, suc, ◌+◌, ◌<◌, ◌^◌, ◌≡◌, ◌≢◌, refl, ap, ◌∙◌, List, [], ◌∷◌, arith, add64, take, length,
}
use key_val_store.Str.{Bytes}
use key_val_store.OrdMap.{OrdMap, assign, erase}
use key_val_store.OrdMap.Laws.{assign-IsSorted}
use key_val_store.OrdMap.Select.{select-assign_out}
use key_val_store.MemTable.{MemEntry, empty_table}
use key_val_store.Wal.{WalRecord}
use key_val_store.SsTable.Contract.{TableFits}
use key_val_store.Names.{sst_path, manifest_tmp_name, is_segment}
use key_val_store.Names.Distinct.{sst_path-ne}
use key_val_store.Names.Kinds.{is_segment-sst, manifest-ne-sst}
use key_val_store.Manifest.{Dir}
use key_val_store.Db.{Options, OpenTable, Db, get, update_manifest, remove_files}
use key_val_store.Db.Represents.{search_maps, Tables}
use key_val_store.Db.Flush.{new_table, new_table-IsTable, dir_with}
use key_val_store.Db.Merge.{compacted, search-compacted, Tables-IsSorted}
use key_val_store.Db.Compact.{search_maps-below, swapped, merged_state}
use key_val_store.Recovery.Log.{replayed}
use key_val_store.Recovery.Segments.{Logs, log_records}
use key_val_store.Recovery.OnDisk.{OnDisk}
use key_val_store.Recovery.Alike.{erase-Alike, Alike-OnDisk}
use key_val_store.Recovery.Durable.{
  Durable, Recovered, OnDisk-Recovered, commit-OnDisk, view-Durable,
}
use key_val_store.Recovery.Rotation.{assign_sst-OnDisk, assign_tmp-OnDisk}

module _ (optimal_bits : ℕ → ℕ) where
  -- The directories that a crash in the merge into a table of `m` can leave: in the write of the
  -- table's file or of the new MANIFEST, and behind the removal of the first `k` old files.
  pub data MergeCrash (m : OrdMap MemEntry) (db : Db) : Dir → Type 0 where
    building : (c : Bytes) → MergeCrash m db (assign (sst_path db.next_sst_id) c db.dir)
    listing :
        (c : Bytes) → MergeCrash m db (assign manifest_tmp_name c (swapped optimal_bits m db).dir)
    removing :
        (k : ℕ)
        → MergeCrash m db
            (remove_files (take k db.sstables) (update_manifest (swapped optimal_bits m db)).dir)

  -- The removal of old tables is not noticed once the MANIFEST lists another.
  remove_files-OnDisk :
      (k : ℕ) (dir0 dir : Dir) (gen n : ℕ) (old : List OpenTable) (ns : List (OrdMap MemEntry))
      (s : OpenTable) (m : OrdMap MemEntry) (logs : Logs)
      → n < 2 ^ 64
      → s.path ≡ sst_path n
      → Tables optimal_bits dir0 n old ns
      → OnDisk optimal_bits dir gen (n + 1) (s ∷ []) (m ∷ []) logs
      → OnDisk optimal_bits (remove_files (take k old) dir) gen (n + 1) (s ∷ []) (m ∷ []) logs
  unfolding remove_files
  remove_files-OnDisk zero dir0 dir gen n old ns s m logs b p t h = h
  remove_files-OnDisk (suc k) dir0 dir gen n [] ns s m logs b p t h = h
  remove_files-OnDisk (suc k) dir0 dir gen n (o ∷ old) [] s m logs b p t h = absurd t
  remove_files-OnDisk (suc k) dir0 dir gen n (o ∷ old) (x ∷ ns) s m logs b p t h =
      let i = t.0.id in
      let other : n ≢ i = λ e. absurd (omega (arith, t.0.below)) in
      remove_files-OnDisk k dir0 (erase o.path dir) gen n old ns s m logs b p t.1 (
        rw (t.0.named) (
          Alike-OnDisk optimal_bits dir (erase (sst_path i) dir) gen (n + 1) (s ∷ []) (m ∷ []) logs
            h
            (erase-Alike (sst_path i) dir (s ∷ []) h.ordered (record {
              no_segment = is_segment-sst i;
              no_manifest = manifest-ne-sst i;
              no_table = (rw p (sst_path-ne n i b (omega (arith, t.0.below)) other), tt);
            }))))

  module _ (db : Db) (ms : List (OrdMap MemEntry)) (rs : List WalRecord)
      (d : Durable optimal_bits db ms rs) (fits : TableFits optimal_bits (compacted ms))
      (ids : db.next_sst_id + 1 < 2 ^ 64) (gens : db.manifest_gen + 1 < 2 ^ 64) where
    abbrev swapped_db : Db
    swapped_db = swapped optimal_bits (compacted ms) db

    -- The MANIFEST has been replaced: the merged table is the only one.
    listed-OnDisk :
        OnDisk optimal_bits
          (update_manifest swapped_db).dir
          (db.manifest_gen + 1)
          (db.next_sst_id + 1)
          (new_table optimal_bits (compacted ms) db ∷ [])
          (compacted ms ∷ [])
          ((db.current_wal_id, db.wal.file) ∷ d.olds)
    unfolding update_manifest swapped
    listed-OnDisk =
        let gen : add64 db.manifest_gen 1 ≡ db.manifest_gen + 1 = omega arith in
        rw gen (
          commit-OnDisk optimal_bits (dir_with optimal_bits (compacted ms) db) (db.manifest_gen + 1)
            (db.next_sst_id + 1) (new_table optimal_bits (compacted ms) db ∷ []) (compacted ms ∷ [])
            ((db.current_wal_id, db.wal.file) ∷ d.olds)
            (assign-IsSorted (sst_path db.next_sst_id) _ db.dir d.disk.ordered) gens ids
            (new_table-IsTable optimal_bits (compacted ms) db fits, tt)
            (select-assign_out is_segment (sst_path db.next_sst_id) _ db.dir
                (is_segment-sst db.next_sst_id)
              ∙ d.disk.logged)
            d.disk.log_fits)

    removed-OnDisk :
        (k : ℕ)
        → OnDisk optimal_bits
            (remove_files (take k db.sstables) (update_manifest swapped_db).dir)
            (db.manifest_gen + 1)
            (db.next_sst_id + 1)
            (new_table optimal_bits (compacted ms) db ∷ [])
            (compacted ms ∷ [])
            ((db.current_wal_id, db.wal.file) ∷ d.olds)
    removed-OnDisk k =
        remove_files-OnDisk k db.dir _ (db.manifest_gen + 1) db.next_sst_id db.sstables ms
          (new_table optimal_bits (compacted ms) db) (compacted ms) _ (omega arith) refl
          d.disk.tables listed-OnDisk

    view_merged :
        (key : Bytes)
        → search_maps key (
            (replayed (log_records ((db.current_wal_id, db.wal.file) ∷ d.olds)) empty_table).entries
            ∷ compacted ms
            ∷ [])
          ≡ get key db
    view_merged key =
        search_maps-below key
          (replayed (log_records ((db.current_wal_id, db.wal.file) ∷ d.olds)) empty_table).entries
          (compacted ms ∷ []) ms
          (search-compacted key ms
            (Tables-IsSorted optimal_bits db.dir db.next_sst_id db.sstables ms d.disk.tables))
        ∙ view-Durable optimal_bits db ms rs key d

    reads_before :
        (opts : Options) (dir : Dir)
        → OnDisk optimal_bits dir db.manifest_gen db.next_sst_id db.sstables ms
            ((db.current_wal_id, db.wal.file) ∷ d.olds)
        → Recovered optimal_bits opts dir (λ key. get key db)
    reads_before opts dir h =
        OnDisk-Recovered optimal_bits opts dir db.manifest_gen db.next_sst_id db.sstables ms
          ((db.current_wal_id, db.wal.file) ∷ d.olds) _ h
          (λ key. view-Durable optimal_bits db ms rs key d)

    -- Wherever the merge of a durable store's tables crashes, if the merged map fits a table and
    -- one id and one generation are left, opening the directory again succeeds and gives every
    -- read back as it was.
    pub crash-merge_all :
        (opts : Options) {dir : Dir}
        → MergeCrash (compacted ms) db dir
        → Recovered optimal_bits opts dir (λ key. get key db)
    crash-merge_all opts (building c) = reads_before opts _ (
        assign_sst-OnDisk optimal_bits db.dir db.manifest_gen db.next_sst_id db.sstables ms _ d.disk
          c)
    crash-merge_all opts (listing c) = reads_before opts _ (
        unfold swapped in
        assign_tmp-OnDisk optimal_bits (dir_with optimal_bits (compacted ms) db) db.manifest_gen
          db.next_sst_id db.sstables ms _
          (assign_sst-OnDisk optimal_bits db.dir db.manifest_gen db.next_sst_id db.sstables ms _
            d.disk _)
          c)
    crash-merge_all opts (removing k) =
        OnDisk-Recovered optimal_bits opts _ (db.manifest_gen + 1) (db.next_sst_id + 1)
          (new_table optimal_bits (compacted ms) db ∷ []) (compacted ms ∷ [])
          ((db.current_wal_id, db.wal.file) ∷ d.olds) _ (removed-OnDisk k) view_merged

    take_all : (ss : List OpenTable) → take (length ss) ss ≡ ss
    take_all [] = refl
    take_all (s ∷ ss) = ap (λ t. s ∷ t) (take_all ss)

    abbrev pub merged : Db
    merged = merged_state optimal_bits (compacted ms) db

    pub merged_gen : merged.manifest_gen ≡ db.manifest_gen + 1
    unfolding merged_state update_manifest swapped
    merged_gen = omega arith

    pub merged_next : merged.next_sst_id ≡ db.next_sst_id + 1
    unfolding merged_state update_manifest swapped
    merged_next = omega arith

    merged_dir : merged.dir ≡ remove_files db.sstables (update_manifest swapped_db).dir
    unfolding merged_state
    merged_dir = refl

    merged_tables : merged.sstables ≡ new_table optimal_bits (compacted ms) db ∷ []
    unfolding merged_state update_manifest swapped
    merged_tables = refl

    merged_log : (merged.wal ≡ db.wal) × (merged.current_wal_id ≡ db.current_wal_id)
    unfolding merged_state update_manifest swapped
    merged_log = (refl, refl)

    pub merged_memtable : merged.memtable ≡ db.memtable
    unfolding merged_state update_manifest swapped
    merged_memtable = refl

    -- A merge that runs to its end leaves a durable store with the same log.
    pub merged_state-Durable : Durable optimal_bits merged (compacted ms ∷ []) rs
    merged_state-Durable =
        let all = rw (take_all db.sstables) at (removed-OnDisk (length db.sstables)) in
        let (w, c) = merged_log in
        record {
          olds = d.olds;
          disk = rw (merged_dir, merged_gen, merged_next, merged_tables, w, c) all;
          spent = d.spent;
          active = omega (arith, d.active, c, merged_next);
          tight = rw (merged_tables, merged_next) (db.next_sst_id, refl, refl);
          synced = rw w d.synced;
          memtable = merged_memtable ∙ d.memtable;
          sorted = rw merged_memtable d.sorted;
        }
