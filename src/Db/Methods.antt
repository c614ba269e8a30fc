-- ===== src/Db/Methods.antt =====
-- DB::put and DB::del: the log, the memtable, and the flush and compaction that may follow.
use key_val_store.Base.{
  ℕ, ◌+◌, ◌<◌, ◌^◌, ◌≡◌, refl, ◌∙◌, true, false, Option, none, some, List, [], arith, length, leb,
  if◌then◌else◌, Bool-cases, inl, inr,
}
use key_val_store.Str.{Bytes, str_eq}
use key_val_store.OrdMap.{OrdMap, IsSorted, assign}
use key_val_store.OrdMap.Laws.{find-assign, assign-IsSorted}
use key_val_store.MemTable
use key_val_store.MemTable.Reads.{entries-put, entries-del}
use key_val_store.MemTable.{MemEntry, MemTable, live, deleted, shown}
use key_val_store.SsTable.Contract.{TableFits}
use key_val_store.Wal.{WalRecord, WalOp}
use key_val_store.Db.{Db, log, maybe_flush, flush_memtable, compact, put, del, get}
use key_val_store.Db.Represents.{search_maps, Represents, get-Represents}
use key_val_store.Db.Frame.{find-assign_wal, Tables-frame}
use key_val_store.Db.Flush.{maps_after, flush_memtable-Flushed}
use key_val_store.Db.Merge.{compacted}
use key_val_store.Db.Compact.{compact-Compacted}

module _ (optimal_bits : ℕ → ℕ) where
  -- Two more tables can be built: of `m`, and of the merge of `m` and the tables' maps.
  pub record Room (db : Db) (m : OrdMap MemEntry) (ms : List (OrdMap MemEntry)) : Type 0 where
    pub ids : db.next_sst_id + 3 < 2 ^ 64
    pub table : TableFits optimal_bits m
    pub merge : TableFits optimal_bits (compacted (maps_after m ms))

  -- A state that answers every get as `db` does, reached by a call that does not throw.
  pub record Settled (call : Option Db) (db db' : Db) (ms' : List (OrdMap MemEntry)) : Type 0 where
    pub done : call ≡ some db'
    pub holds : Represents optimal_bits db' ms'
    pub unseen : (key : Bytes) → get key db' ≡ get key db

  pub maps_after-twice :
      (m : OrdMap MemEntry) (ms : List (OrdMap MemEntry)) (n : OrdMap MemEntry)
      → n ≡ []
      → maps_after n (maps_after m ms) ≡ maps_after m ms
  maps_after-twice m ms n h = rw h

  pub empty_of : (t : MemTable) → t.entries ≡ [] → MemTable.empty t ≡ true
  unfolding MemTable.empty
  empty_of t h = rw h

  pub maybe_flush-small :
      (db : Db)
      → leb db.opts.memtable_flush_bytes db.memtable.bytes ≡ false
      → maybe_flush optimal_bits db ≡ some db
  unfolding maybe_flush
  maybe_flush-small db h = rw (h, maybe_flush)

  pub maybe_flush-large :
      (db db1 : Db)
      → leb db.opts.memtable_flush_bytes db.memtable.bytes ≡ true
      → flush_memtable optimal_bits db ≡ some db1
      → maybe_flush optimal_bits db ≡ (
          if leb db1.opts.compaction_threshold (length db1.sstables)
          then compact optimal_bits db1
          else some db1)
  unfolding maybe_flush
  maybe_flush-large db db1 h f = rw (h, maybe_flush) (rw f)

  -- After a write, maybe_flush does not throw, and no reader notices what it does.
  pub maybe_flush-Settled :
      (db : Db) (ms : List (OrdMap MemEntry))
      → Represents optimal_bits db ms
      → Room db db.memtable.entries ms
      → (db' : Db) × (ms' : List (OrdMap MemEntry)) × Settled
          (maybe_flush optimal_bits db)
          db
          db'
          ms'
  maybe_flush-Settled db ms r room =
      elim (Bool-cases (leb db.opts.memtable_flush_bytes db.memtable.bytes)) [
        | inr small ↦
            (db, ms, record { done = maybe_flush-small db small; holds = r; unseen = λ key. refl })
        | inl large ↦
            let (db1, f) =
              flush_memtable-Flushed optimal_bits db ms r (λ e. room.table)
                (omega (arith, room.ids)) in
            let ms1 = maps_after db.memtable.entries ms in
            elim (Bool-cases (leb db1.opts.compaction_threshold (length db1.sstables))) [
              | inr few ↦ (
                db1,
                ms1,
                record {
                  done = maybe_flush-large db db1 large f.done ∙ rw few;
                  holds = f.holds;
                  unseen = f.unseen;
                },
              )
              | inl many ↦
                  let again =
                    maps_after-twice db.memtable.entries ms db1.memtable.entries f.cleared in
                  let none_left = empty_of db1.memtable f.cleared in
                  let (db2, ms2, c) =
                    compact-Compacted optimal_bits db1 ms1 f.holds (λ e. cc (none_left, e))
                      (rw again room.merge) (omega (arith, room.ids, f.ids)) in
                  (
                    db2,
                    ms2,
                    record {
                      done = maybe_flush-large db db1 large f.done ∙ rw many c.done;
                      holds = c.holds;
                      unseen = λ key. c.unseen key ∙ f.unseen key;
                    },
                  )
            ]
      ]

  unfoldable pub logged_state : WalRecord → MemTable → Db → Db
  logged_state r t db = record (log r db) { memtable = t }

  logged_state-Represents :
      (r : WalRecord) (t : MemTable) (db : Db) (ms : List (OrdMap MemEntry))
      → Represents optimal_bits db ms
      → IsSorted t.entries
      → Represents optimal_bits (logged_state r t db) ms
  unfolding logged_state log
  logged_state-Represents r t db ms h s = record {
    tables =
        Tables-frame optimal_bits db.dir _ db.next_sst_id db.next_sst_id db.sstables ms
          (omega arith) (λ i p. find-assign_wal i db.current_wal_id _ db.dir) h.tables;
    sorted = s;
  }

  pub get-logged_state :
      (key k : Bytes) (e : MemEntry) (r : WalRecord) (t : MemTable) (db : Db)
      (ms : List (OrdMap MemEntry))
      → Represents optimal_bits db ms
      → t.entries ≡ assign k e db.memtable.entries
      → get key (logged_state r t db) ≡ (if str_eq key k then shown e else get key db)
  get-logged_state key k e r t db ms h w =
      let s : IsSorted t.entries = rw w (assign-IsSorted k e db.memtable.entries h.sorted) in
      get-Represents optimal_bits key (logged_state r t db) ms
        (logged_state-Represents r t db ms h s)
      ∙ unfold logged_state search_maps in
        ground (
          arith,
          w,
          find-assign k key e db.memtable.entries,
          get-Represents optimal_bits key db ms h,
        )

  settle :
      (r : WalRecord) (k : Bytes) (e : MemEntry) (t : MemTable) (db : Db)
      (ms : List (OrdMap MemEntry))
      → Represents optimal_bits db ms
      → Room db t.entries ms
      → t.entries ≡ assign k e db.memtable.entries
      → (db' : Db) × (ms' : List (OrdMap MemEntry)) × (maybe_flush optimal_bits
            (logged_state r t db)
          ≡ some db')
        × Represents optimal_bits db' ms'
        × ((key : Bytes) → get key db' ≡ (if str_eq key k then shown e else get key db))
  unfolding logged_state log
  settle r k e t db ms h room w =
      let s : IsSorted t.entries = rw w (assign-IsSorted k e db.memtable.entries h.sorted) in
      let (db', ms', done) =
        maybe_flush-Settled (logged_state r t db) ms (logged_state-Represents r t db ms h s)
          (record { ids = room.ids; table = room.table; merge = room.merge }) in
      (
        db',
        ms',
        done.done,
        done.holds,
        λ key. done.unseen key ∙ get-logged_state key k e r t db ms h w,
      )

  -- In a store that represents the maps `ms` and has room for the tables that the write may
  -- cause, put succeeds and leads to a store that represents some maps. There get returns the
  -- value at the key, and at every other key what it returned before, whether or not put flushed
  -- and compacted.
  pub get-put :
      (k v : Bytes) (db : Db) (ms : List (OrdMap MemEntry))
      → Represents optimal_bits db ms
      → Room db (MemTable.put k v db.memtable).entries ms
      → (db' : Db) × (ms' : List (OrdMap MemEntry)) × (put optimal_bits k v db ≡ some db')
        × Represents optimal_bits db' ms'
        × ((key : Bytes) → get key db' ≡ (if str_eq key k then some v else get key db))
  unfolding put logged_state
  get-put k v db ms h room =
      settle (record { op = WalOp.put; key = k; value = v }) k (live v)
        (MemTable.put k v db.memtable) db ms h room (entries-put k v db.memtable)

  -- In a store that represents the maps `ms` and has room for the tables that the write may
  -- cause, del succeeds and leads to a store that represents some maps. There get returns nothing
  -- at the key, and at every other key what it returned before, whether or not del flushed and
  -- compacted.
  pub get-del :
      (k : Bytes) (db : Db) (ms : List (OrdMap MemEntry))
      → Represents optimal_bits db ms
      → Room db (MemTable.del k db.memtable).entries ms
      → (db' : Db) × (ms' : List (OrdMap MemEntry)) × (del optimal_bits k db ≡ some db')
        × Represents optimal_bits db' ms'
        × ((key : Bytes) → get key db' ≡ (if str_eq key k then none else get key db))
  unfolding del logged_state
  get-del k db ms h room =
      settle (record { op = WalOp.del; key = k; value = [] }) k deleted (MemTable.del k db.memtable)
        db ms h room (entries-del k db.memtable)
