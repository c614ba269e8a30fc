-- ===== src/Recovery/Keeps.antt =====
-- Every method of a durable store leads to a durable store.
use key_val_store.Base.{
  ℕ, ◌+◌, ◌<◌, ◌^◌, refl, ◌∙◌, List, [], ◌∷◌, ◌++◌, arith, length, leb, Bool-cases, inl, inr,
}
use key_val_store.Str.{Bytes}
use key_val_store.OrdMap.{OrdMap}
use key_val_store.MemTable
use key_val_store.MemTable.{MemEntry}
use key_val_store.Wal.{WalOp, WalRecord}
use key_val_store.Wal.Replay.{Fits}
use key_val_store.Db.{Db, put, del, log, maybe_flush}
use key_val_store.Db.Flush.{maps_after}
use key_val_store.Db.Methods.{
  Room, maps_after-twice, empty_of, maybe_flush-small, maybe_flush-large,
}
use key_val_store.Recovery.{apply_record}
use key_val_store.Recovery.Durable.{Durable}
use key_val_store.Recovery.Append.{logged_write, logged_write-Durable}
use key_val_store.Recovery.Kept.{Kept, flush_memtable-Durable, compact-Durable}

module _ (optimal_bits : ℕ → ℕ) where
  pub maybe_flush-Durable :
      (db : Db) (ms : List (OrdMap MemEntry)) (rs : List WalRecord)
      → Durable optimal_bits db ms rs
      → Room optimal_bits db db.memtable.entries ms
      → db.manifest_gen + 3 < 2 ^ 64
      → (db' : Db) × (ms' : List (OrdMap MemEntry)) × (rs' : List WalRecord) × Kept optimal_bits
          (maybe_flush optimal_bits db)
          db
          3
          db'
          ms'
          rs'
  maybe_flush-Durable db ms rs d room gens =
      elim (Bool-cases (leb db.opts.memtable_flush_bytes db.memtable.bytes)) [
        | inr small ↦ (
          db,
          ms,
          rs,
          record {
            done = maybe_flush-small optimal_bits db small;
            durable = d;
            ids = omega arith;
            gens = omega arith;
          },
        )
        | inl large ↦
            let (db1, rs1, f, cleared) =
              flush_memtable-Durable optimal_bits db ms rs d (λ e. room.table)
                (omega (arith, room.ids)) (omega arith) in
            let ms1 = maps_after db.memtable.entries ms in
            let large_lem = maybe_flush-large optimal_bits db db1 large f.done in
            elim (Bool-cases (leb db1.opts.compaction_threshold (length db1.sstables))) [
              | inr few ↦ (
                db1,
                ms1,
                rs1,
                record {
                  done = large_lem ∙ rw few;
                  durable = f.durable;
                  ids = omega (arith, f.ids);
                  gens = omega (arith, f.gens);
                },
              )
              | inl many ↦
                  let again =
                    maps_after-twice optimal_bits db.memtable.entries ms db1.memtable.entries
                      cleared in
                  let none_left = empty_of optimal_bits db1.memtable cleared in
                  let (db2, ms2, rs2, c) =
                    compact-Durable optimal_bits db1 ms1 rs1 f.durable (λ e. cc (none_left, e))
                      (rw again room.merge) (omega (arith, room.ids, f.ids))
                      (omega (arith, f.gens)) in
                  (
                    db2,
                    ms2,
                    rs2,
                    record {
                      done = large_lem ∙ rw many c.done;
                      durable = c.durable;
                      ids = omega (arith, f.ids, c.ids);
                      gens = omega (arith, f.gens, c.gens);
                    },
                  )
            ]
      ]

  write-Durable :
      (r : WalRecord) (db : Db) (ms : List (OrdMap MemEntry)) (rs : List WalRecord)
      → Durable optimal_bits db ms rs
      → Fits r
      → Room optimal_bits db (apply_record r db.memtable).entries ms
      → db.manifest_gen + 3 < 2 ^ 64
      → (db' : Db) × (ms' : List (OrdMap MemEntry)) × (rs' : List WalRecord) × Kept optimal_bits
          (maybe_flush optimal_bits (logged_write r db))
          db
          3
          db'
          ms'
          rs'
  write-Durable r db ms rs d f room gens =
      let e = logged_write-Durable optimal_bits db ms rs d r f in
      let (db', ms', rs', k) =
        maybe_flush-Durable (logged_write r db) ms (rs ++ (r ∷ [])) e
          (unfold logged_write log in
            record { ids = room.ids; table = room.table; merge = room.merge })
          (unfold logged_write log in gens) in
      (
        db',
        ms',
        rs',
        record {
          done = k.done;
          durable = k.durable;
          ids = unfold logged_write log in k.ids;
          gens = unfold logged_write log in k.gens;
        },
      )

  -- From a durable store with room for the tables, ids and generations that the write may take,
  -- put of a key and a value whose lengths fit 32 bits succeeds and leads to a durable store,
  -- whether or not it flushed and compacted. At most three ids and three generations are used.
  pub put-Durable :
      (k v : Bytes) (db : Db) (ms : List (OrdMap MemEntry)) (rs : List WalRecord)
      → Durable optimal_bits db ms rs
      → length k < 2 ^ 32
      → length v < 2 ^ 32
      → Room optimal_bits db (MemTable.put k v db.memtable).entries ms
      → db.manifest_gen + 3 < 2 ^ 64
      → (db' : Db) × (ms' : List (OrdMap MemEntry)) × (rs' : List WalRecord) × Kept optimal_bits
          (put optimal_bits k v db)
          db
          3
          db'
          ms'
          rs'
  unfolding put logged_write apply_record
  put-Durable k v db ms rs d fk fv room gens =
      write-Durable (record { op = WalOp.put; key = k; value = v }) db ms rs d
        (record { key_fits = fk; value_fits = fv; byte_back = refl }) room gens

  -- From a durable store with room for the tables, ids and generations that the write may take,
  -- del of a key whose length fits 32 bits succeeds and leads to a durable store, whether or not
  -- it flushed and compacted. At most three ids and three generations are used.
  pub del-Durable :
      (k : Bytes) (db : Db) (ms : List (OrdMap MemEntry)) (rs : List WalRecord)
      → Durable optimal_bits db ms rs
      → length k < 2 ^ 32
      → Room optimal_bits db (MemTable.del k db.memtable).entries ms
      → db.manifest_gen + 3 < 2 ^ 64
      → (db' : Db) × (ms' : List (OrdMap MemEntry)) × (rs' : List WalRecord) × Kept optimal_bits
          (del optimal_bits k db)
          db
          3
          db'
          ms'
          rs'
  unfolding del logged_write apply_record
  del-Durable k db ms rs d fk room gens =
      write-Durable (record { op = WalOp.del; key = k; value = [] }) db ms rs d
        (record { key_fits = fk; value_fits = omega arith; byte_back = refl }) room gens
