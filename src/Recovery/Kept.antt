-- ===== src/Recovery/Kept.antt =====
-- Flushes and compactions of a durable store lead to a durable store.
use key_val_store.Base.{
  ℕ, ◌+◌, ◌<◌, ◌≤◌, ◌^◌, ◌≡◌, false, Option, some, List, [], ◌∷◌, arith, length, ltb, Bool-cases,
  inl, inr,
}
use key_val_store.OrdMap.{OrdMap}
use key_val_store.MemTable
use key_val_store.MemTable.{MemEntry}
use key_val_store.SsTable.Contract.{TableFits}
use key_val_store.Wal.{WalRecord}
use key_val_store.Db.{Db, flush_memtable, compact, rotate_wal, update_manifest}
use key_val_store.Db.Flush.{
  maps_after, maps_after-full, maps_after-empty, full_state, full_state_fields, flush-full,
}
use key_val_store.Db.Merge.{compacted}
use key_val_store.Db.Compact.{merged_state, merge_all-done, compact-few, compact-many}
use key_val_store.Recovery.Durable.{Durable, Durable-Represents}
use key_val_store.Recovery.FlushCrash.{full_state-Durable}
use key_val_store.Recovery.MergeCrash.{merged_gen, merged_next, merged_state-Durable}

module _ (optimal_bits : ℕ → ℕ) where
  -- The call succeeds and leads to the durable store `db`, with at most `k` more ids and MANIFESTs.
  pub record Kept (call : Option Db) (before : Db) (k : ℕ) (db : Db) (ms : List (OrdMap MemEntry))
      (rs : List WalRecord) : Type 0 where
    pub done : call ≡ some db
    pub durable : Durable optimal_bits db ms rs
    pub ids : db.next_sst_id ≤ before.next_sst_id + k
    pub gens : db.manifest_gen ≤ before.manifest_gen + k

  pub full_state_gen :
      (db : Db)
      → db.manifest_gen + 1 < 2 ^ 64
      → (full_state optimal_bits db).manifest_gen ≡ db.manifest_gen + 1
  unfolding full_state rotate_wal update_manifest
  full_state_gen db h = omega arith

  pub flush_memtable-Durable :
      (db : Db) (ms : List (OrdMap MemEntry)) (rs : List WalRecord)
      → Durable optimal_bits db ms rs
      → (MemTable.empty db.memtable ≡ false → TableFits optimal_bits db.memtable.entries)
      → db.next_sst_id + 1 < 2 ^ 64
      → db.manifest_gen + 1 < 2 ^ 64
      → (db' : Db) × (rs' : List WalRecord) × Kept
          (flush_memtable optimal_bits db)
          db
          1
          db'
          (maps_after db.memtable.entries ms)
          rs'
        × (db'.memtable.entries ≡ [])
  flush_memtable-Durable db ms rs d h ids gens = elim (Bool-cases (MemTable.empty db.memtable)) [
    | inl none_left ↦
        let (nil, same) =
          maps_after-empty optimal_bits db.memtable.entries ms
            (unfold MemTable.empty in none_left) in
        (
          db,
          rs,
          record {
            done = unfold flush_memtable in rw (none_left, flush_memtable);
            durable = rw same d;
            ids = omega arith;
            gens = omega arith;
          },
          nil,
        )
    | inr some_left ↦
        let full =
          maps_after-full optimal_bits db.memtable.entries ms
            (unfold MemTable.empty in some_left) in
        let (next, list, cleared) = full_state_fields optimal_bits db ids in
        (
          full_state optimal_bits db,
          [],
          record {
            done = unfold full_state in flush-full optimal_bits db (h some_left) some_left;
            durable = rw full (full_state-Durable optimal_bits db ms rs d (h some_left) ids gens);
            ids = omega (arith, next);
            gens = omega (arith, full_state_gen db gens);
          },
          cleared,
        )
  ]

  pub compact-Durable :
      (db : Db) (ms : List (OrdMap MemEntry)) (rs : List WalRecord)
      → Durable optimal_bits db ms rs
      → (MemTable.empty db.memtable ≡ false → TableFits optimal_bits db.memtable.entries)
      → TableFits optimal_bits (compacted (maps_after db.memtable.entries ms))
      → db.next_sst_id + 2 < 2 ^ 64
      → db.manifest_gen + 2 < 2 ^ 64
      → (db' : Db) × (ms' : List (OrdMap MemEntry)) × (rs' : List WalRecord) × Kept
          (compact optimal_bits db)
          db
          2
          db'
          ms'
          rs'
  compact-Durable db ms rs d h g ids gens = elim (Bool-cases (ltb (length db.sstables) 2)) [
    | inl few ↦ (
      db,
      ms,
      rs,
      record {
        done = compact-few optimal_bits db few;
        durable = d;
        ids = omega arith;
        gens = omega arith;
      },
    )
    | inr enough ↦
        let (db1, rs1, f, cleared) =
          flush_memtable-Durable db ms rs d h (omega arith) (omega arith) in
        let ms1 = maps_after db.memtable.entries ms in
        let ids1 : db1.next_sst_id + 1 < 2 ^ 64 = omega (arith, f.ids) in
        let gens1 : db1.manifest_gen + 1 < 2 ^ 64 = omega (arith, f.gens) in
        let r = Durable-Represents optimal_bits db1 ms1 rs1 f.durable in
        (
          merged_state optimal_bits (compacted ms1) db1,
          compacted ms1 ∷ [],
          rs1,
          record {
            done =
                compact-many optimal_bits db db1 (merged_state optimal_bits (compacted ms1) db1)
                  enough f.done (merge_all-done optimal_bits db1 ms1 r g);
            durable = merged_state-Durable optimal_bits db1 ms1 rs1 f.durable g ids1 gens1;
            ids = omega (arith, f.ids, merged_next optimal_bits db1 ms1 rs1 f.durable g ids1 gens1);
            gens =
                omega (arith, f.gens, merged_gen optimal_bits db1 ms1 rs1 f.durable g ids1 gens1);
          },
        )
  ]
