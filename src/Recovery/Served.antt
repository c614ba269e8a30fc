-- ===== src/Recovery/Served.antt =====
-- What the stores that a run reaches serve.
use key_val_store.Base.{
  ℕ, ◌+◌, ◌<◌, ◌≤◌, ◌^◌, ◌≡◌, refl, ap, sym, ◌∙◌, ◌⊎◌, inl, inr, Option, none, some, some-inj, List,
  [], length,
}
use key_val_store.Str.{Bytes}
use key_val_store.OrdMap.{OrdMap}
use key_val_store.MemTable
use key_val_store.MemTable.{MemEntry}
use key_val_store.Wal.{WalRecord}
use key_val_store.SsTable.Contract.{TableFits}
use key_val_store.Manifest.{Dir}
use key_val_store.Db.{Options, Db, get, put, del, flush_memtable, compact}
use key_val_store.Db.Represents.{Represents}
use key_val_store.Db.Flush.{maps_after, flush_memtable-Flushed}
use key_val_store.Db.Merge.{compacted}
use key_val_store.Db.Compact.{compact-Compacted}
use key_val_store.Db.Methods.{Room, get-put, get-del}
use key_val_store.Recovery.{open_db, close_db}
use key_val_store.Recovery.Durable.{Durable, Durable-Represents}
use key_val_store.Recovery.Kept.{flush_memtable-Durable, compact-Durable}
use key_val_store.Recovery.Keeps.{put-Durable, del-Durable}
use key_val_store.Recovery.Reopened.{reopen-Durable}
use key_val_store.Recovery.Closed.{close_db-Closed, Durable-spent}
use key_val_store.Recovery.Lifecycle.{open_db_first}
use key_val_store.Recovery.Runs.{
  View, updated, table_maps, table_maps-Tables, Flushable, Run, started, putting, deleting,
  flushing, compacting, restarting, crashing, Serves,
}

module _ (optimal_bits : ℕ → ℕ) where
  -- A call that leads to a durable store, and shows its reads elsewhere.
  serve :
      (db db1 db2 : Db) (view : View) (call : Option Db) (ms : List (OrdMap MemEntry))
      (rs : List WalRecord)
      → call ≡ some db
      → call ≡ some db1
      → call ≡ some db2
      → Durable optimal_bits db1 ms rs
      → ((key : Bytes) → get key db2 ≡ view key)
      → Serves optimal_bits db view
  serve db db1 db2 view call ms rs e f g d reads = rw (some-inj db db1 (sym e ∙ f)) (record {
    maps = ms;
    records = rs;
    durable = d;
    reads = λ key. ap (get key) (some-inj db1 db2 (sym f ∙ g)) ∙ reads key;
  })

  module _ (opts : Options) (db db' : Db) (view : View) (s : Serves optimal_bits db view) where
    same_maps : table_maps db.dir db.sstables ≡ s.maps
    same_maps =
        table_maps-Tables optimal_bits db.dir db.next_sst_id db.sstables s.maps
          s.durable.disk.tables

    abbrev represents : Represents optimal_bits db s.maps
    represents = Durable-Represents optimal_bits db s.maps s.records s.durable

    put-Serves :
        (k v : Bytes)
        → length k < 2 ^ 32
        → length v < 2 ^ 32
        → Room optimal_bits db
            (MemTable.put k v db.memtable).entries
            (table_maps db.dir db.sstables)
        → db.manifest_gen + 3 < 2 ^ 64
        → put optimal_bits k v db ≡ some db'
        → Serves optimal_bits db' (updated k (some v) view)
    put-Serves k v fk fv room gens e =
        let fits = rw same_maps at room in
        let (db1, ms1, rs1, c) =
          put-Durable optimal_bits k v db s.maps s.records s.durable fk fv fits gens in
        let (db2, ms2, done, holds, reads) = get-put optimal_bits k v db s.maps represents fits in
        serve db' db1 db2 (updated k (some v) view) _ ms1 rs1 e c.done done c.durable
          (λ key. rw (← s.reads key) (reads key))

    del-Serves :
        (k : Bytes)
        → length k < 2 ^ 32
        → Room optimal_bits db (MemTable.del k db.memtable).entries (table_maps db.dir db.sstables)
        → db.manifest_gen + 3 < 2 ^ 64
        → del optimal_bits k db ≡ some db'
        → Serves optimal_bits db' (updated k none view)
    del-Serves k fk room gens e =
        let fits = rw same_maps at room in
        let (db1, ms1, rs1, c) =
          del-Durable optimal_bits k db s.maps s.records s.durable fk fits gens in
        let (db2, ms2, done, holds, reads) = get-del optimal_bits k db s.maps represents fits in
        serve db' db1 db2 (updated k none view) _ ms1 rs1 e c.done done c.durable
          (λ key. rw (← s.reads key) (reads key))

    flush_memtable-Serves :
        Flushable optimal_bits db
        → db.next_sst_id + 1 < 2 ^ 64
        → db.manifest_gen + 1 < 2 ^ 64
        → flush_memtable optimal_bits db ≡ some db'
        → Serves optimal_bits db' view
    flush_memtable-Serves h ids gens e =
        let (db1, rs1, c, cleared) =
          flush_memtable-Durable optimal_bits db s.maps s.records s.durable h ids gens in
        let (db2, f) = flush_memtable-Flushed optimal_bits db s.maps represents h ids in
        serve db' db1 db2 view _ _ rs1 e c.done f.done c.durable (λ key. f.unseen key ∙ s.reads key)

    compact-Serves :
        Flushable optimal_bits db
        → TableFits optimal_bits
            (compacted (maps_after db.memtable.entries (table_maps db.dir db.sstables)))
        → db.next_sst_id + 2 < 2 ^ 64
        → db.manifest_gen + 2 < 2 ^ 64
        → compact optimal_bits db ≡ some db'
        → Serves optimal_bits db' view
    compact-Serves h merge ids gens e =
        let fits = rw same_maps at merge in
        let (db1, ms1, rs1, c) =
          compact-Durable optimal_bits db s.maps s.records s.durable h fits ids gens in
        let (db2, ms2, f) = compact-Compacted optimal_bits db s.maps represents h fits ids in
        serve db' db1 db2 view _ ms1 rs1 e c.done f.done c.durable
          (λ key. f.unseen key ∙ s.reads key)

    open_db-Serves :
        (db.next_sst_id ≤ db.current_wal_id) ⊎ (db.memtable.entries ≡ [])
        → open_db optimal_bits opts db.dir ≡ some db'
        → Serves optimal_bits db' view
    open_db-Serves h e =
        let empty_log : (db.next_sst_id ≤ db.current_wal_id) ⊎ (s.records ≡ []) = elim h [
          | inl above ↦ inl above
          | inr none_left ↦ inr (Durable-spent optimal_bits db s.maps s.records s.durable none_left)
        ] in
        let (db1, r) = reopen-Durable optimal_bits opts db s.maps s.records s.durable empty_log in
        serve db' db1 db1 view _ s.maps s.records e r.done r.done r.durable
          (λ key. r.views key ∙ s.reads key)

  restart-Serves :
      (opts : Options) (db db' : Db) (view : View) (dir : Dir) (s : Serves optimal_bits db view)
      → Flushable optimal_bits db
      → db.next_sst_id + 1 < 2 ^ 64
      → db.manifest_gen + 1 < 2 ^ 64
      → close_db optimal_bits db ≡ some dir
      → open_db optimal_bits opts dir ≡ some db'
      → Serves optimal_bits db' view
  restart-Serves opts db db' view dir s h ids gens e f =
      let (db1, c) = close_db-Closed optimal_bits db s.maps s.records s.durable h ids gens in
      let (db2, r) =
        reopen-Durable optimal_bits opts db1 (maps_after db.memtable.entries s.maps) [] c.durable
          (inr refl) in
      let left : dir ≡ db1.dir = some-inj dir db1.dir (sym e ∙ c.done) in
      serve db' db2 db2 view _ _ [] (rw left at f) r.done r.done r.durable
        (λ key. r.views key ∙ c.views key ∙ s.reads key)

  -- Whatever sequence of puts, dels, flushes, compactions, orderly restarts and crashes between
  -- calls leads from a first start to a store, the store is durable, and get returns at every key
  -- the value written there last, or nothing if that was a del or none. Each step needs room for
  -- what it writes, and a crash one of two things: an empty memtable, or an active segment not
  -- below the id counter.
  pub Run-Serves :
      (opts : Options) {db : Db} {view : View}
      → Run optimal_bits opts db view
      → Serves optimal_bits db view
  Run-Serves opts (started {db} e) =
      let (db1, done, d, reads) = open_db_first optimal_bits opts in
      serve db db1 db1 (λ key. none) _ [] [] e done done d reads
  Run-Serves opts (putting {db} {db'} {view} k v r fk fv room gens e) =
      put-Serves opts db db' view (Run-Serves opts r) k v fk fv room gens e
  Run-Serves opts (deleting {db} {db'} {view} k r fk room gens e) =
      del-Serves opts db db' view (Run-Serves opts r) k fk room gens e
  Run-Serves opts (flushing {db} {db'} {view} r h ids gens e) =
      flush_memtable-Serves opts db db' view (Run-Serves opts r) h ids gens e
  Run-Serves opts (compacting {db} {db'} {view} r h merge ids gens e) =
      compact-Serves opts db db' view (Run-Serves opts r) h merge ids gens e
  Run-Serves opts (restarting {db} {db'} {view} {dir} r h ids gens e f) =
      restart-Serves opts db db' view dir (Run-Serves opts r) h ids gens e f
  Run-Serves opts (crashing {db} {db'} {view} r h e) =
      open_db-Serves opts db db' view (Run-Serves opts r) h e
