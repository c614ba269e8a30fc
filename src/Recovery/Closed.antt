-- ===== src/Recovery/Closed.antt =====
-- The orderly end of a store, in DB::~DB: the state whose directory it leaves is durable.
use key_val_store.Base.{
  ℕ, ◌+◌, ◌<◌, ◌^◌, ◌≡◌, ◌≢◌, refl, ap, sym, ◌∙◌, false, some, some-inj, List, [], ◌∷◌, ◌++◌, arith,
}
use mathlib.Core.List.{append-nil}
use key_val_store.Str.{Bytes}
use key_val_store.OrdMap.{OrdMap, assign}
use key_val_store.MemTable
use key_val_store.MemTable.{MemTable, MemEntry, live, deleted, empty_table}
use key_val_store.MemTable.Reads.{entries-put, entries-del}
use key_val_store.Wal.{WalOp, WalRecord, sync}
use key_val_store.SsTable.Contract.{TableFits}
use key_val_store.Names.{wal_seg_path}
use key_val_store.Db.{Db, get}
use key_val_store.Db.Represents.{get-Represents}
use key_val_store.Db.Flush.{maps_after, flush_memtable-Flushed}
use key_val_store.Recovery.{apply_op, apply_record, close_db}
use key_val_store.Recovery.Log.{replayed}
use key_val_store.Recovery.Alike.{assign_log-OnDisk}
use key_val_store.Recovery.Durable.{Durable, Durable-Represents}
use key_val_store.Recovery.Kept.{flush_memtable-Durable}

assign-nonempty : (k : Bytes) (e : MemEntry) (m : OrdMap MemEntry) → assign k e m ≢ []
unfolding assign
assign-nonempty k e [] h = ground (arith, h)
assign-nonempty k e ((j, w) ∷ m) h = ground (arith, h)

apply_op-nonempty : (op : WalOp) (k v : Bytes) (t : MemTable) → (apply_op op k v t).entries ≢ []
unfolding apply_op
apply_op-nonempty WalOp.put k v t h =
    assign-nonempty k (live v) t.entries (sym (entries-put k v t) ∙ h)
apply_op-nonempty WalOp.del k v t h =
    assign-nonempty k deleted t.entries (sym (entries-del k t) ∙ h)
apply_op-nonempty (WalOp.other b) k v t h =
    assign-nonempty k deleted t.entries (sym (entries-del k t) ∙ h)

-- Only no records leave the memtable without entries.
pub replayed_nothing :
    (rs : List WalRecord) (t : MemTable)
    → (replayed rs t).entries ≡ []
    → (rs ≡ []) × (t.entries ≡ [])
unfolding replayed apply_record
replayed_nothing [] t h = (refl, h)
replayed_nothing (r ∷ rs) t h =
    absurd (apply_op-nonempty r.op r.key r.value t (replayed_nothing rs (apply_record r t) h).1)

module _ (optimal_bits : ℕ → ℕ) where
  pub Durable-spent :
      (db : Db) (ms : List (OrdMap MemEntry)) (rs : List WalRecord)
      → Durable optimal_bits db ms rs
      → db.memtable.entries ≡ []
      → rs ≡ []
  Durable-spent db ms rs d h =
      (replayed_nothing rs empty_table (sym (ap (λ t. t.entries) d.memtable) ∙ h)).0

  -- The end of `db`: `db'` is the state that its directory stands for.
  pub record Closed (db : Db) (ms : List (OrdMap MemEntry)) (db' : Db) : Type 0 where
    pub done : close_db optimal_bits db ≡ some db'.dir
    pub durable : Durable optimal_bits db' ms []
    pub views : (key : Bytes) → get key db' ≡ get key db

  -- The segment is closed: nothing was buffered.
  closed_db : Db → Db
  closed_db db = record db { dir = assign (wal_seg_path db.current_wal_id) db.wal.file db.dir }

  closed_db-Durable :
      (db : Db) (ms : List (OrdMap MemEntry)) (rs : List WalRecord)
      → Durable optimal_bits db ms rs
      → Durable optimal_bits (closed_db db) ms rs
  unfolding closed_db
  closed_db-Durable db ms rs d = record {
    olds = d.olds;
    disk =
        assign_log-OnDisk optimal_bits db.dir db.manifest_gen db.next_sst_id db.current_wal_id
          db.sstables ms db.wal.file d.olds db.wal.file d.disk;
    spent = d.spent;
    active = d.active;
    tight = d.tight;
    synced = d.synced;
    memtable = d.memtable;
    sorted = d.sorted;
  }

  get-closed_db :
      (key : Bytes) (db : Db) (ms : List (OrdMap MemEntry)) (rs : List WalRecord)
      → Durable optimal_bits db ms rs
      → get key (closed_db db) ≡ get key db
  get-closed_db key db ms rs d =
      let e = closed_db-Durable db ms rs d in
      get-Represents optimal_bits key (closed_db db) ms
        (Durable-Represents optimal_bits (closed_db db) ms rs e)
      ∙ (unfold closed_db in
          sym (get-Represents optimal_bits key db ms (Durable-Represents optimal_bits db ms rs d)))

  -- The end of a durable store whose memtable fits a table (or is empty), with one id and one
  -- generation left, succeeds.
  pub close_db-Closed :
      (db : Db) (ms : List (OrdMap MemEntry)) (rs : List WalRecord)
      → Durable optimal_bits db ms rs
      → (MemTable.empty db.memtable ≡ false → TableFits optimal_bits db.memtable.entries)
      → db.next_sst_id + 1 < 2 ^ 64
      → db.manifest_gen + 1 < 2 ^ 64
      → (db' : Db) × Closed db (maps_after db.memtable.entries ms) db'
  close_db-Closed db ms rs d h ids gens =
      let (db1, rs1, f, cleared) = flush_memtable-Durable optimal_bits db ms rs d h ids gens in
      let (db2, g) =
        flush_memtable-Flushed optimal_bits db ms (Durable-Represents optimal_bits db ms rs d) h
          ids in
      let same : db2 ≡ db1 = some-inj db2 db1 (sym g.done ∙ f.done) in
      let ms1 = maps_after db.memtable.entries ms in
      let none_left = Durable-spent db1 ms1 rs1 f.durable cleared in
      let nothing : db1.wal.file ++ db1.wal.buffer ≡ db1.wal.file =
        ap (λ b. db1.wal.file ++ b) f.durable.synced.flushed ∙ append-nil db1.wal.file in
      (
        closed_db db1,
        record {
          done = unfold close_db sync closed_db in rw f.done (rw nothing refl);
          durable = closed_db-Durable db1 ms1 [] (rw none_left at f.durable);
          views = λ key.
              get-closed_db key db1 ms1 rs1 f.durable ∙ ap (get key) (sym same) ∙ g.unseen key;
        },
      )
