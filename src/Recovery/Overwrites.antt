-- ===== src/Recovery/Overwrites.antt =====
-- DB::put behind a restart with a segment left behind, and what becomes of the overwritten value.
use key_val_store.Base.{ℕ, ◌+◌, ◌<◌, ◌^◌, ◌≡◌, refl, ◌∙◌, false, some, List, [], ◌∷◌, arith, leb}
use key_val_store.Str.{Bytes}
use key_val_store.OrdMap.{OrdMap, find, assign}
use key_val_store.OrdMap.Laws.{find-assign_self}
use key_val_store.MemTable
use key_val_store.MemTable.{MemTable, MemEntry, empty_table, shown, live, raw}
use key_val_store.MemTable.Reads.{entries-put}
use key_val_store.SsTable.Contract.{TableFits}
use key_val_store.Wal.{WalOp, WalRecord}
use key_val_store.Db.{Options, Db, get, put, log, flush_memtable}
use key_val_store.Db.Represents.{search_maps}
use key_val_store.Db.Flush.{full_state, flush-full}
use key_val_store.Db.Methods.{maybe_flush-small}
use key_val_store.Recovery.{apply_record, open_db}
use key_val_store.Recovery.Restart.{open_db-Restored}
use key_val_store.Recovery.Durable.{Durable}
use key_val_store.Recovery.Append.{logged_write}
use key_val_store.Recovery.Stale.{
  stale_view, logged_write-Lagging, next_kept, Restored-Lagging, records_left, memtable_kept,
}

empty-assign :
    (k : Bytes) (e : MemEntry) (m : OrdMap MemEntry) (t : MemTable)
    → t.entries ≡ assign k e m
    → MemTable.empty t ≡ false
unfolding MemTable.empty assign
empty-assign k e [] t h = rw h refl
empty-assign k e ((j, w) ∷ m) t h = ground (arith, h)

module _ (optimal_bits : ℕ → ℕ) where
  -- Overwritten: what a store comes to that puts `v` at `k` after the crash of `db`, flushes, and
  -- starts once more.
  pub record Overwritten (opts : Options) (db : Db) (k v : Bytes) (e : MemEntry) : Type 0 where
    pub opened : Db
    pub stored : Db
    pub flushed : Db
    pub again : Db
    pub restart : open_db optimal_bits opts db.dir ≡ some opened
    pub write : put optimal_bits k v opened ≡ some stored
    pub read : get k stored ≡ some v
    pub flush : flush_memtable optimal_bits stored ≡ some flushed
    pub next_start : open_db optimal_bits opts flushed.dir ≡ some again
    pub lost : get k again ≡ shown e

  module _ (k v : Bytes) where
    abbrev record_of : WalRecord
    record_of = record { op = WalOp.put; key = k; value = v }

    pub put-small :
        (db : Db)
        → leb db.opts.memtable_flush_bytes (MemTable.put k v db.memtable).bytes ≡ false
        → put optimal_bits k v db ≡ some (logged_write record_of db)
    unfolding put logged_write log apply_record
    put-small db h = maybe_flush-small optimal_bits (logged_write record_of db) h

    get-written : (db : Db) → get k (logged_write record_of db) ≡ some v
    unfolding get logged_write log apply_record raw
    get-written db =
        ground (arith, entries-put k v db.memtable, find-assign_self k (live v) db.memtable.entries)

    written_entries :
        (db : Db)
        → (logged_write record_of db).memtable.entries ≡ assign k (live v) db.memtable.entries
    unfolding logged_write log apply_record
    written_entries db = entries-put k v db.memtable

    search_maps-head :
        (e : MemEntry) (m : OrdMap MemEntry) (ms : List (OrdMap MemEntry))
        → find k m ≡ some e
        → search_maps k (m ∷ ms) ≡ shown e
    unfolding search_maps
    search_maps-head e m ms h = rw (h, search_maps) refl

    fits_logged :
        (db : Db)
        → TableFits optimal_bits (MemTable.put k v db.memtable).entries
        → TableFits optimal_bits (logged_write record_of db).memtable.entries
    unfolding logged_write log apply_record
    fits_logged db h = h

    logged_ids :
        (db : Db)
        → ((logged_write record_of db).next_sst_id ≡ db.next_sst_id)
          × ((logged_write record_of db).manifest_gen ≡ db.manifest_gen)
    unfolding logged_write log
    logged_ids db = (refl, refl)

    -- A durable store whose active segment is below its id counter, as behind a compaction, holds
    -- an entry at `k` that is not flushed, and crashes. The store opened on its directory puts
    -- `v` at `k`, which stays below the flush threshold, and get returns it. Then it flushes,
    -- with entries that fit a table and one id and one generation left. The next start succeeds,
    -- and get returns what the entry from before the crash shows, and not `v`.
    pub overwrite_lost :
        (opts : Options) (db : Db) (ms : List (OrdMap MemEntry)) (rs : List WalRecord)
        (e : MemEntry)
        → Durable optimal_bits db ms rs
        → db.current_wal_id < db.next_sst_id
        → find k db.memtable.entries ≡ some e
        → leb opts.memtable_flush_bytes (MemTable.put k v db.memtable).bytes ≡ false
        → TableFits optimal_bits (MemTable.put k v db.memtable).entries
        → db.next_sst_id + 1 < 2 ^ 64
        → db.manifest_gen + 1 < 2 ^ 64
        → Overwritten opts db k v e
    overwrite_lost opts db ms rs e d below there small fits ids gens =
        let (db1, r) =
          open_db-Restored optimal_bits opts db.dir db.manifest_gen db.next_sst_id db.sstables ms
            ((db.current_wal_id, db.wal.file) ∷ d.olds) d.disk in
        let same = memtable_kept optimal_bits opts db db1 ms rs d below r in
        let next = next_kept optimal_bits opts db db1 ms rs d below r in
        let db2 = logged_write record_of db1 in
        let fits2 = fits_logged db1 (rw same fits) in
        let (next2, gen2) = logged_ids db1 in
        let lagging =
          logged_write-Lagging optimal_bits record_of db1 ms r.files.olds
            (Restored-Lagging optimal_bits opts db db1 ms rs d below r)
            (unfold apply_record in rw same fits.sorted) in
        let later =
          stale_view optimal_bits opts db2 ms r.files.olds lagging fits2
            (omega (arith, next2, next, ids)) (omega (arith, gen2, r.same_gen, gens)) in
        record {
          opened = db1;
          stored = db2;
          flushed = full_state optimal_bits db2;
          again = later.db;
          restart = r.done;
          write = put-small db1 (rw (r.same_opts, same) small);
          read = get-written db1;
          flush =
              unfold full_state in
              flush-full optimal_bits db2 fits2
                (empty-assign k (live v) db1.memtable.entries db2.memtable (written_entries db1));
          next_start = later.done;
          lost =
              later.views k
              ∙ rw (records_left optimal_bits opts db db1 ms rs d below r, ← d.memtable)
                  (search_maps-head e db.memtable.entries (db2.memtable.entries ∷ ms) there);
        }
