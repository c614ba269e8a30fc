-- ===== src/Db/Compact.antt =====
-- DB::compact_locked: it succeeds, leaves one table without tombstones, and no reader notices.
use key_val_store.Base.{
  ℕ, ◌+◌, ◌≤◌, ◌<◌, ◌^◌, ◌≡◌, ◌≢◌, refl, sym, ◌∙◌, true, false, some, List, [], ◌∷◌, arith, add64,
  length, ltb, if◌then◌else◌, Bool-cases, inl, inr,
}
use key_val_store.Str.{Bytes}
use key_val_store.OrdMap.{OrdMap, find, erase}
use key_val_store.OrdMap.Laws.{find-erase_ne}
use key_val_store.MemTable
use key_val_store.MemTable.{MemEntry}
use key_val_store.SsTable.Contract.{TableFits}
use key_val_store.Names.{sst_path}
use key_val_store.Names.Distinct.{sst_path-ne}
use key_val_store.Manifest.{Dir}
use key_val_store.Db.{
  OpenTable, Db, update_manifest, merge_all, clean_entries, remove_files, compact, flush_memtable,
  get,
}
use key_val_store.Db.Represents.{search_maps, Tables, Represents, get-Represents}
use key_val_store.Db.Frame.{find-update_manifest}
use key_val_store.Db.Flush.{
  maps_after, new_table, dir_with, add_table-build, new_table_stored, flush_memtable-Flushed,
}
use key_val_store.Db.Merge.{
  merge_maps, compacted, search-compacted, merge_tables-maps, Tables-IsSorted,
}

pub search_maps-below :
    (key : Bytes) (m : OrdMap MemEntry) (ms ns : List (OrdMap MemEntry))
    → search_maps key ms ≡ search_maps key ns
    → search_maps key (m ∷ ms) ≡ search_maps key (m ∷ ns)
unfolding search_maps
search_maps-below key m ms ns h = ground (arith, h)

module _ (optimal_bits : ℕ → ℕ) where
  -- Removing the old files spares the new one.
  find-remove_files :
      (n : ℕ) (dir0 dir : Dir) (ss : List OpenTable) (ms : List (OrdMap MemEntry))
      → n < 2 ^ 64
      → Tables optimal_bits dir0 n ss ms
      → find (sst_path n) (remove_files ss dir) ≡ find (sst_path n) dir
  unfolding remove_files
  find-remove_files n dir0 dir [] [] p h = refl
  find-remove_files n dir0 dir [] (m ∷ ms) p h = absurd h
  find-remove_files n dir0 dir (s ∷ ss) [] p h = absurd h
  find-remove_files n dir0 dir (s ∷ ss) (m ∷ ms) p h =
      let t = h.0 in
      let other : n ≢ t.id = λ e. absurd (omega (arith, t.below)) in
      find-remove_files n dir0 (erase s.path dir) ss ms p h.1
      ∙ rw t.named (
          find-erase_ne (sst_path t.id) (sst_path n) dir
            (sst_path-ne n t.id p (omega (arith, t.below)) other))

  unfoldable pub swapped : OrdMap MemEntry → Db → Db
  swapped m db = record db {
    dir = dir_with optimal_bits m db;
    sstables = new_table optimal_bits m db ∷ [];
    next_sst_id = add64 db.next_sst_id 1;
  }

  unfoldable pub merged_state : OrdMap MemEntry → Db → Db
  unfolding swapped
  merged_state m db =
      let db2 = update_manifest (swapped m db) in
      record db2 { dir = remove_files db.sstables db2.dir }

  pub merge_all-done :
      (db : Db) (ms : List (OrdMap MemEntry))
      → Represents optimal_bits db ms
      → TableFits optimal_bits (compacted ms)
      → merge_all optimal_bits db ≡ some (merged_state (compacted ms) db)
  unfolding merge_all merged_state
  merge_all-done db ms r h =
      let same = merge_tables-maps optimal_bits db.dir db.next_sst_id db.sstables ms r.tables in
      rw same (
        unfold compacted in
        rw (add_table-build optimal_bits (clean_entries (merge_maps ms) []) db h))

  pub merged_fields :
      (m : OrdMap MemEntry) (db : Db)
      → db.next_sst_id + 1 < 2 ^ 64
      → ((merged_state m db).next_sst_id ≡ db.next_sst_id + 1)
        × ((merged_state m db).sstables ≡ new_table optimal_bits m db ∷ [])
        × ((merged_state m db).memtable.entries ≡ db.memtable.entries)
  unfolding merged_state update_manifest
  merged_fields m db h = (omega arith, refl, refl)

  merged_state-Represents :
      (db : Db) (ms : List (OrdMap MemEntry))
      → Represents optimal_bits db ms
      → TableFits optimal_bits (compacted ms)
      → db.next_sst_id + 1 < 2 ^ 64
      → Represents optimal_bits (merged_state (compacted ms) db) (compacted ms ∷ [])
  merged_state-Represents db ms r h room =
      let m = compacted ms in
      let (ids, list, mem) = merged_fields m db room in
      record {
        tables =
            rw (ids, list)
              (
                record {
                  id = db.next_sst_id;
                  below = omega arith;
                  named = refl;
                  fits = h;
                  opened = refl;
                  stored =
                      unfold merged_state in
                      find-remove_files db.next_sst_id db.dir (update_manifest (swapped m db)).dir
                        db.sstables ms (omega arith) r.tables
                      ∙ find-update_manifest db.next_sst_id (swapped m db)
                      ∙ new_table_stored optimal_bits m db;
                },
                tt,
              );
        sorted = rw mem r.sorted;
      }

  pub compact-few :
      (db : Db) → ltb (length db.sstables) 2 ≡ true → compact optimal_bits db ≡ some db
  unfolding compact
  compact-few db h = rw (h, compact)

  pub compact-many :
      (db db1 db2 : Db)
      → ltb (length db.sstables) 2 ≡ false
      → flush_memtable optimal_bits db ≡ some db1
      → merge_all optimal_bits db1 ≡ some db2
      → compact optimal_bits db ≡ some db2
  unfolding compact
  compact-many db db1 db2 h f g = rw (h, compact) (rw f g)

  pub record Compacted (db db' : Db) (ms ms' : List (OrdMap MemEntry)) : Type 0 where
    pub done : compact optimal_bits db ≡ some db'
    pub holds : Represents optimal_bits db' ms'
    pub ids : db'.next_sst_id ≤ db.next_sst_id + 2
    pub unseen : (key : Bytes) → get key db' ≡ get key db
    pub merged : ms' ≡ (
        if ltb (length db.sstables) 2
        then ms
        else compacted (maps_after db.memtable.entries ms) ∷ [])

  -- In a store that represents the maps `ms`, whose memtable fits a table (or is empty), whose
  -- merge fits one too, and with two ids left, a compaction succeeds and get returns for every
  -- key what it returned before. With fewer than two tables the store keeps its maps; else its
  -- one table holds the merge of the memtable and all tables. At most two ids are used.
  pub compact-Compacted :
      (db : Db) (ms : List (OrdMap MemEntry))
      → Represents optimal_bits db ms
      → (MemTable.empty db.memtable ≡ false → TableFits optimal_bits db.memtable.entries)
      → TableFits optimal_bits (compacted (maps_after db.memtable.entries ms))
      → db.next_sst_id + 2 < 2 ^ 64
      → (db' : Db) × (ms' : List (OrdMap MemEntry)) × Compacted db db' ms ms'
  compact-Compacted db ms r h g room = elim (Bool-cases (ltb (length db.sstables) 2)) [
    | inl few ↦ (
      db,
      ms,
      record {
        done = compact-few db few;
        holds = r;
        ids = omega arith;
        unseen = λ key. refl;
        merged = rw few;
      },
    )
    | inr enough ↦
        let (db1, f) = flush_memtable-Flushed optimal_bits db ms r h (omega arith) in
        let ms1 = maps_after db.memtable.entries ms in
        let room1 : db1.next_sst_id + 1 < 2 ^ 64 = omega (arith, f.ids) in
        let kept = merged_state-Represents db1 ms1 f.holds g room1 in
        let (ids, list, mem) = merged_fields (compacted ms1) db1 room1 in
        (
          merged_state (compacted ms1) db1,
          compacted ms1 ∷ [],
          record {
            done =
                compact-many db db1 (merged_state (compacted ms1) db1) enough f.done
                  (merge_all-done db1 ms1 f.holds g);
            holds = kept;
            ids = omega (arith, ids, f.ids);
            unseen = λ key.
                get-Represents optimal_bits key (merged_state (compacted ms1) db1)
                  (compacted ms1 ∷ []) kept
                ∙ rw mem (
                    search_maps-below key db1.memtable.entries (compacted ms1 ∷ []) ms1 (
                      search-compacted key ms1 (
                        Tables-IsSorted optimal_bits db1.dir db1.next_sst_id db1.sstables ms1
                          f.holds.tables)))
                ∙ sym (get-Represents optimal_bits key db1 ms1 f.holds)
                ∙ f.unseen key;
            merged = rw enough;
          },
        )
  ]
