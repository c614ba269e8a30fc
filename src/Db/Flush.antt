-- ===== src/Db/Flush.antt =====
-- DB::flush_memtable_locked: it succeeds, moves the memtable into a table, and no reader notices.
use key_val_store.Base.{
  ℕ, ◌+◌, ◌≤◌, ◌<◌, ◌^◌, ◌≡◌, refl, sym, ◌∙◌, true, false, some, List, [], ◌∷◌, arith, add64,
  Bool-cases, inl, inr,
}
use key_val_store.Str.{Bytes}
use key_val_store.OrdMap.{OrdMap, find, assign}
use key_val_store.OrdMap.Laws.{find-assign_self}
use key_val_store.MemTable
use key_val_store.MemTable.{MemEntry}
use key_val_store.SsTable.{build}
use key_val_store.SsTable.Contract.{TableFits, loaded, load_meta-build}
use key_val_store.Names.{sst_path}
use key_val_store.Manifest.{Dir}
use key_val_store.Db.{OpenTable, Db, update_manifest, rotate_wal, add_table, flush_memtable, get}
use key_val_store.Db.Represents.{search_maps, IsTable, Tables, Represents, get-Represents}
use key_val_store.Db.Frame.{find-update_manifest, find-rotate_wal, find-assign_sst, Tables-frame}

-- A flush leaves the maps of the older tables below the map of the new one.
abbrev pub maps_after : OrdMap MemEntry → List (OrdMap MemEntry) → List (OrdMap MemEntry)
maps_after [] ms = ms
maps_after (x ∷ m) ms = (x ∷ m) ∷ ms

pub search_maps-nil :
    (key : Bytes) (ms : List (OrdMap MemEntry)) → search_maps key ([] ∷ ms) ≡ search_maps key ms
unfolding search_maps find
search_maps-nil key ms = refl

module _ (optimal_bits : ℕ → ℕ) where
  -- The table that a build under the next id opens.
  abbrev pub new_table : OrdMap MemEntry → Db → OpenTable
  new_table m db = record { path = sst_path db.next_sst_id; table = loaded optimal_bits m }

  abbrev pub dir_with : OrdMap MemEntry → Db → Dir
  dir_with m db = assign (sst_path db.next_sst_id) (build optimal_bits m) db.dir

  pub add_table-build :
      (m : OrdMap MemEntry) (db : Db)
      → TableFits optimal_bits m
      → add_table optimal_bits m db ≡ some (dir_with m db, new_table m db)
  unfolding add_table
  add_table-build m db h =
      rw (find-assign_self (sst_path db.next_sst_id) (build optimal_bits m) db.dir)
        (rw (load_meta-build optimal_bits m h))

  pub new_table_stored :
      (m : OrdMap MemEntry) (db : Db)
      → find (sst_path db.next_sst_id) (dir_with m db) ≡ some (build optimal_bits m)
  new_table_stored m db = find-assign_self (sst_path db.next_sst_id) (build optimal_bits m) db.dir

  pub new_table-IsTable :
      (m : OrdMap MemEntry) (db : Db)
      → TableFits optimal_bits m
      → IsTable optimal_bits (dir_with m db) (db.next_sst_id + 1) (new_table m db) m
  new_table-IsTable m db h = record {
    id = db.next_sst_id;
    below = omega arith;
    named = refl;
    fits = h;
    opened = refl;
    stored = new_table_stored m db;
  }

  -- The state with the new table in front, before the manifest is written.
  abbrev pub with_table : Db → Db
  with_table db = record db {
    dir = dir_with db.memtable.entries db;
    sstables = new_table db.memtable.entries db ∷ db.sstables;
    next_sst_id = add64 db.next_sst_id 1;
  }

  pub record Flushed (db db' : Db) (ms : List (OrdMap MemEntry)) : Type 0 where
    pub done : flush_memtable optimal_bits db ≡ some db'
    pub holds : Represents optimal_bits db' (maps_after db.memtable.entries ms)
    pub cleared : db'.memtable.entries ≡ []
    pub ids : db'.next_sst_id ≤ db.next_sst_id + 1
    pub unseen : (key : Bytes) → get key db' ≡ get key db

  pub flush-full :
      (db : Db)
      → TableFits optimal_bits db.memtable.entries
      → MemTable.empty db.memtable ≡ false
      → flush_memtable optimal_bits db ≡ some (rotate_wal (update_manifest (with_table db)))
  unfolding flush_memtable
  flush-full db h e = rw (e, flush_memtable) (rw (add_table-build db.memtable.entries db h))

  pub with_table-Tables :
      (db : Db) (ms : List (OrdMap MemEntry))
      → TableFits optimal_bits db.memtable.entries
      → db.next_sst_id + 1 < 2 ^ 64
      → Represents optimal_bits db ms
      → Tables optimal_bits
          (dir_with db.memtable.entries db)
          (db.next_sst_id + 1)
          (new_table db.memtable.entries db ∷ db.sstables)
          (db.memtable.entries ∷ ms)
  with_table-Tables db ms h room r = (
    new_table-IsTable db.memtable.entries db h,
    Tables-frame optimal_bits db.dir (dir_with db.memtable.entries db) db.next_sst_id
        (db.next_sst_id + 1) db.sstables ms (omega arith)
        (λ i p.
          find-assign_sst i db.next_sst_id (build optimal_bits db.memtable.entries) db.dir p
            (omega arith))
        r.tables,
  )

  unfoldable pub full_state : Db → Db
  full_state db = rotate_wal (update_manifest (with_table db))

  pub full_state_fields :
      (db : Db)
      → db.next_sst_id + 1 < 2 ^ 64
      → ((full_state db).next_sst_id ≡ db.next_sst_id + 1)
        × ((full_state db).sstables ≡ new_table db.memtable.entries db ∷ db.sstables)
        × ((full_state db).memtable.entries ≡ [])
  unfolding full_state rotate_wal update_manifest MemTable.clear
  full_state_fields db h = (omega arith, refl, refl)

  full_state-Represents :
      (db : Db) (ms : List (OrdMap MemEntry))
      → TableFits optimal_bits db.memtable.entries
      → db.next_sst_id + 1 < 2 ^ 64
      → Represents optimal_bits db ms
      → Represents optimal_bits (full_state db) (db.memtable.entries ∷ ms)
  full_state-Represents db ms h room r =
      let (ids, list, cleared) = full_state_fields db room in
      record {
        tables =
            rw (ids, list)
              (Tables-frame optimal_bits (dir_with db.memtable.entries db) (full_state db).dir
                (db.next_sst_id + 1) (db.next_sst_id + 1)
                (new_table db.memtable.entries db ∷ db.sstables) (db.memtable.entries ∷ ms)
                (omega arith)
                (λ i p.
                  unfold full_state in
                  find-rotate_wal i (update_manifest (with_table db))
                  ∙ find-update_manifest i (with_table db))
                (with_table-Tables db ms h room r));
        sorted = rw cleared tt;
      }

  pub maps_after-full :
      (m : OrdMap MemEntry) (ms : List (OrdMap MemEntry))
      → (elim m [ [] ↦ true | _ ↦ false ]) ≡ false
      → maps_after m ms ≡ m ∷ ms
  maps_after-full [] ms h = cc
  maps_after-full (x ∷ m) ms h = refl

  pub maps_after-empty :
      (m : OrdMap MemEntry) (ms : List (OrdMap MemEntry))
      → (elim m [ [] ↦ true | _ ↦ false ]) ≡ true
      → (m ≡ []) × (maps_after m ms ≡ ms)
  maps_after-empty [] ms h = (refl, refl)
  maps_after-empty (x ∷ m) ms h = (cc, cc)

  -- In a store that represents the maps `ms`, whose memtable fits a table (or is empty), and with
  -- one id left, a flush succeeds. The memtable's entries become the newest table (none, if there
  -- are none), the memtable is empty, at most one id is used, and get returns for every key what
  -- it returned before.
  pub flush_memtable-Flushed :
      (db : Db) (ms : List (OrdMap MemEntry))
      → Represents optimal_bits db ms
      → (MemTable.empty db.memtable ≡ false → TableFits optimal_bits db.memtable.entries)
      → db.next_sst_id + 1 < 2 ^ 64
      → (db' : Db) × Flushed db db' ms
  flush_memtable-Flushed db ms r h room = elim (Bool-cases (MemTable.empty db.memtable)) [
    | inl none_left ↦
        let (nil, same) =
          maps_after-empty db.memtable.entries ms (unfold MemTable.empty in none_left) in
        (
          db,
          record {
            done = unfold flush_memtable in rw (none_left, flush_memtable);
            holds = rw same r;
            cleared = nil;
            ids = omega arith;
            unseen = λ key. refl;
          },
        )
    | inr some_left ↦
        let (ids, list, cleared) = full_state_fields db room in
        let full = maps_after-full db.memtable.entries ms (unfold MemTable.empty in some_left) in
        let kept = full_state-Represents db ms (h some_left) room r in
        (
          full_state db,
          record {
            done = unfold full_state in flush-full db (h some_left) some_left;
            holds = rw full kept;
            cleared = cleared;
            ids = omega (arith, ids);
            unseen = λ key.
                get-Represents optimal_bits key (full_state db) (db.memtable.entries ∷ ms) kept
                ∙ rw cleared (search_maps-nil key (db.memtable.entries ∷ ms))
                ∙ sym (get-Represents optimal_bits key db ms r);
          },
        )
  ]
