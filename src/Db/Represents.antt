-- ===== src/Db/Represents.antt =====
-- The abstract view of the store: the memtable's entries over the maps that the tables were built
-- from, newest first.
use key_val_store.Base.{ℕ, ◌<◌, ◌≡◌, refl, Option, none, some, List, [], ◌∷◌, arith}
use key_val_store.Str.{Bytes}
use key_val_store.OrdMap.{OrdMap, IsSorted, find}
use key_val_store.MemTable.{MemEntry, shown}
use key_val_store.SsTable.{build, lookup}
use key_val_store.SsTable.Search.{as_result}
use key_val_store.SsTable.Contract.{TableFits, loaded, lookup-build}
use key_val_store.Names.{sst_path}
use key_val_store.Manifest.{Dir}
use key_val_store.Db.{OpenTable, Db, search_tables, get}

-- The first map that knows the key decides, and a tombstone hides what lies below.
unfoldable pub search_maps : Bytes → List (OrdMap MemEntry) → Option Bytes
search_maps key [] = none
search_maps key (m ∷ ms) = elim (find key m) [ none ↦ search_maps key ms | some e ↦ shown e ]

module _ (optimal_bits : ℕ → ℕ) where
  -- The table `s` was built from `m`, under an id below `n`, and its file is in place.
  pub record IsTable (dir : Dir) (n : ℕ) (s : OpenTable) (m : OrdMap MemEntry) : Type 0 where
    pub id : ℕ
    pub below : id < n
    pub named : s.path ≡ sst_path id
    pub fits : TableFits optimal_bits m
    pub opened : s.table ≡ loaded optimal_bits m
    pub stored : find (sst_path id) dir ≡ some (build optimal_bits m)

  abbrev pub Tables : Dir → ℕ → List OpenTable → List (OrdMap MemEntry) → Type 0
  Tables dir n [] [] = Unit {0}
  Tables dir n [] (m ∷ ms) = ⊥
  Tables dir n (s ∷ ss) [] = ⊥
  Tables dir n (s ∷ ss) (m ∷ ms) = IsTable dir n s m × Tables dir n ss ms

  -- The store's tables hold the maps `ms`, and the memtable is in order.
  pub record Represents (db : Db) (ms : List (OrdMap MemEntry)) : Type 0 where
    pub tables : Tables db.dir db.next_sst_id db.sstables ms
    pub sorted : IsSorted db.memtable.entries

  lookup-IsTable :
      (key : Bytes) (dir : Dir) (n : ℕ) (s : OpenTable) (m : OrdMap MemEntry)
      → IsTable dir n s m
      → lookup key s.table (find s.path dir) ≡ as_result (find key m)
  lookup-IsTable key dir n s m h =
      rw (h.named, h.opened, h.stored) (lookup-build optimal_bits m key h.fits)

  search_tables-maps :
      (key : Bytes) (dir : Dir) (n : ℕ) (ss : List OpenTable) (ms : List (OrdMap MemEntry))
      → Tables dir n ss ms
      → search_tables key dir ss ≡ search_maps key ms
  unfolding search_tables search_maps
  search_tables-maps key dir n [] [] h = refl
  search_tables-maps key dir n [] (m ∷ ms) h = absurd h
  search_tables-maps key dir n (s ∷ ss) [] h = absurd h
  search_tables-maps key dir n (s ∷ ss) (m ∷ ms) h =
      ground (arith, lookup-IsTable key dir n s m h.0, search_tables-maps key dir n ss ms h.1)

  -- In a store that represents the maps `ms`, get returns what a search of the memtable's entries
  -- and then of `ms` returns: the newest entry decides, and a tombstone hides older ones.
  pub get-Represents :
      (key : Bytes) (db : Db) (ms : List (OrdMap MemEntry))
      → Represents db ms
      → get key db ≡ search_maps key (db.memtable.entries ∷ ms)
  unfolding get search_maps
  get-Represents key db ms h =
      ground (arith, search_tables-maps key db.dir db.next_sst_id db.sstables ms h.tables)
