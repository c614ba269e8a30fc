-- ===== src/Recovery/Runs.antt =====
-- Runs of one process after another: calls of a store, its ends, crashes between calls, restarts.
use key_val_store.Base.{
  ℕ, ◌+◌, ◌<◌, ◌≤◌, ◌^◌, ◌≡◌, refl, ap, ◌⊎◌, false, Option, none, some, List, [], ◌∷◌, length,
  if◌then◌else◌,
}
use key_val_store.Str.{Bytes, str_eq}
use key_val_store.OrdMap.{OrdMap, find}
use key_val_store.MemTable
use key_val_store.MemTable.{MemEntry}
use key_val_store.Wal.{WalRecord}
use key_val_store.SsTable.{SstEntry, scan_all}
use key_val_store.SsTable.Written.{as_entries}
use key_val_store.SsTable.Contract.{TableFits}
use key_val_store.Manifest.{Dir}
use key_val_store.Db.{Options, OpenTable, Db, get, put, del, flush_memtable, compact}
use key_val_store.Db.Represents.{Tables}
use key_val_store.Db.Flush.{maps_after}
use key_val_store.Db.Merge.{compacted, scan_all-IsTable}
use key_val_store.Db.Methods.{Room}
use key_val_store.Recovery.{open_db, close_db}
use key_val_store.Recovery.Durable.{Durable}

-- The entries of one scan as a map.
abbrev as_map : List SstEntry → OrdMap MemEntry
as_map [] = []
as_map (e ∷ es) = (e.key, record { value = e.value; tombstone = e.tombstone }) ∷ as_map es

as_map-as_entries : (m : OrdMap MemEntry) → as_map (as_entries m) ≡ m
as_map-as_entries [] = refl
as_map-as_entries ((k, e) ∷ m) = ap (λ t. (k, e) ∷ t) (as_map-as_entries m)

-- What the open tables hold.
unfoldable pub table_maps : Dir → List OpenTable → List (OrdMap MemEntry)
table_maps dir [] = []
table_maps dir (s ∷ ss) = as_map (scan_all s.table (find s.path dir)) ∷ table_maps dir ss

abbrev pub View : Type 0
View = Bytes → Option Bytes

abbrev pub updated : Bytes → Option Bytes → View → View
updated k v view = λ key. if str_eq key k then v else view key

module _ (optimal_bits : ℕ → ℕ) where
  pub table_maps-Tables :
      (dir : Dir) (n : ℕ) (ss : List OpenTable) (ms : List (OrdMap MemEntry))
      → Tables optimal_bits dir n ss ms
      → table_maps dir ss ≡ ms
  unfolding table_maps
  table_maps-Tables dir n [] [] h = refl
  table_maps-Tables dir n [] (m ∷ ms) h = absurd h
  table_maps-Tables dir n (s ∷ ss) [] h = absurd h
  table_maps-Tables dir n (s ∷ ss) (m ∷ ms) h =
      rw (scan_all-IsTable optimal_bits dir n s m h.0)
        (rw (as_map-as_entries m) (ap (λ t. m ∷ t) (table_maps-Tables dir n ss ms h.1)))

  -- The memtable's entries fit a table.
  abbrev pub Flushable : Db → Type 0
  Flushable db = MemTable.empty db.memtable ≡ false → TableFits optimal_bits db.memtable.entries

  -- `Run db view`: `db` is reached from the first start on, and `view` is what was written.
  pub data Run (opts : Options) : Db → View → Type 0 where
    started : {db : Db} → open_db optimal_bits opts [] ≡ some db → Run opts db (λ key. none)
    putting :
        {db db' : Db} {view : View} (k v : Bytes)
        → Run opts db view
        → length k < 2 ^ 32
        → length v < 2 ^ 32
        → Room optimal_bits db
            (MemTable.put k v db.memtable).entries
            (table_maps db.dir db.sstables)
        → db.manifest_gen + 3 < 2 ^ 64
        → put optimal_bits k v db ≡ some db'
        → Run opts db' (updated k (some v) view)
    deleting :
        {db db' : Db} {view : View} (k : Bytes)
        → Run opts db view
        → length k < 2 ^ 32
        → Room optimal_bits db (MemTable.del k db.memtable).entries (table_maps db.dir db.sstables)
        → db.manifest_gen + 3 < 2 ^ 64
        → del optimal_bits k db ≡ some db'
        → Run opts db' (updated k none view)
    flushing :
        {db db' : Db} {view : View}
        → Run opts db view
        → Flushable db
        → db.next_sst_id + 1 < 2 ^ 64
        → db.manifest_gen + 1 < 2 ^ 64
        → flush_memtable optimal_bits db ≡ some db'
        → Run opts db' view
    compacting :
        {db db' : Db} {view : View}
        → Run opts db view
        → Flushable db
        → TableFits optimal_bits
            (compacted (maps_after db.memtable.entries (table_maps db.dir db.sstables)))
        → db.next_sst_id + 2 < 2 ^ 64
        → db.manifest_gen + 2 < 2 ^ 64
        → compact optimal_bits db ≡ some db'
        → Run opts db' view
    restarting :
        {db db' : Db} {view : View} {dir : Dir}
        → Run opts db view
        → Flushable db
        → db.next_sst_id + 1 < 2 ^ 64
        → db.manifest_gen + 1 < 2 ^ 64
        → close_db optimal_bits db ≡ some dir
        → open_db optimal_bits opts dir ≡ some db'
        → Run opts db' view
    crashing :
        {db db' : Db} {view : View}
        → Run opts db view
        → (db.next_sst_id ≤ db.current_wal_id) ⊎ (db.memtable.entries ≡ [])
        → open_db optimal_bits opts db.dir ≡ some db'
        → Run opts db' view

  -- A durable store that serves `view`.
  pub record Serves (db : Db) (view : View) : Type 0 where
    pub maps : List (OrdMap MemEntry)
    pub records : List WalRecord
    pub durable : Durable optimal_bits db maps records
    pub reads : (key : Bytes) → get key db ≡ view key
