-- ===== src/Db.antt =====
-- include/db.h and src/db.cpp: the store. The directory `dir` is the disk as the process sees it; each
-- method runs under the mutex, so it is one step from state to state. Calls that may throw return
-- an `Option`. `optimal_bits` is the floating-point size formula of src/bloom.cpp.
pub mod Represents
pub mod Frame
pub mod Flush
pub mod Merge
pub mod Compact
pub mod Methods
use key_val_store.Base.{
  ℕ, zero, suc, ◌+◌, Bool, true, false, Option, none, some, List, [], ◌∷◌, length, map, leb, ltb,
  if◌then◌else◌, add64, ◌>>=◌,
}
use key_val_store.Str.{Bytes}
use key_val_store.OrdMap.{OrdMap, find, assign, erase}
use key_val_store.MemTable
use key_val_store.MemTable.{MemEntry, MemTable, live, shown, raw}
use key_val_store.Wal.{Wal, WalRecord, WalOp, open_wal, append, sync}
use key_val_store.SsTable.{
  SsTable, SstEntry, LookupResult, not_found, tombstone, found, build, load_meta, lookup, scan_all,
}
use key_val_store.Names.{sst_path, wal_seg_path, done_path}
use key_val_store.Manifest
use key_val_store.Manifest.{Dir, ManifestData, rename}

pub record Options : Type 0 where
  pub memtable_flush_bytes : ℕ
  pub compaction_threshold : ℕ

-- An opened table with its path.
pub record OpenTable : Type 0 where
  pub path : Bytes
  pub table : SsTable

-- `wal` is the active segment; `sstables` stands newest first.
pub record Db : Type 0 where
  pub dir : Dir
  pub opts : Options
  pub memtable : MemTable
  pub wal : Wal
  pub sstables : List OpenTable
  pub next_sst_id : ℕ
  pub current_wal_id : ℕ
  pub manifest_gen : ℕ
  pub wal_replayed : ℕ

pub record DbStats : Type 0 where
  pub memtable_entries : ℕ
  pub memtable_bytes : ℕ
  pub sstable_count : ℕ
  pub wal_replayed : ℕ
  pub active_wal_id : ℕ
  pub manifest_gen : ℕ

-- The loop of DB::get over the tables: the first that knows the key wins.
unfoldable pub search_tables : Bytes → Dir → List OpenTable → Option Bytes
search_tables key dir [] = none
search_tables key dir (s ∷ older) = elim (lookup key s.table (find s.path dir)) [
  | not_found ↦ search_tables key dir older
  | tombstone ↦ none
  | found v ↦ some v
]

-- DB::get
unfoldable pub get : Bytes → Db → Option Bytes
unfolding raw
get key db = elim (raw key db.memtable) [
  | none ↦ search_tables key db.dir db.sstables
  | some e ↦ shown e
]

-- DB::update_manifest_locked
unfoldable pub update_manifest : Db → Db
update_manifest db =
    let gen = add64 db.manifest_gen 1 in
    record db {
      manifest_gen = gen;
      dir =
          Manifest.write
            (record { generation = gen; live_sstables = map (λ s. s.path) db.sstables }) db.dir;
    }

-- Step 3 of flush_memtable_locked: closing the segment hands its buffer over, and it is renamed.
unfoldable pub seal_segment : Db → Dir
unfolding sync
seal_segment db =
    rename (wal_seg_path db.current_wal_id) (done_path db.current_wal_id)
      (assign (wal_seg_path db.current_wal_id) (sync db.wal).file db.dir)

-- Step 4: opening the next segment creates its file.
unfoldable pub next_segment : Db → Wal
unfolding seal_segment
next_segment db = open_wal (find (wal_seg_path db.next_sst_id) (seal_segment db))

unfoldable pub open_next : Db → Dir
unfolding seal_segment next_segment
open_next db = assign (wal_seg_path db.next_sst_id) (next_segment db).file (seal_segment db)

-- Steps 3 to 6
unfoldable pub rotate_wal : Db → Db
unfolding seal_segment next_segment open_next
rotate_wal db = record db {
  dir = erase (done_path db.current_wal_id) (open_next db);
  wal = next_segment db;
  current_wal_id = db.next_sst_id;
  memtable = MemTable.clear db.memtable;
}

-- The inner loop of the merge: merged[e.key] = e.
unfoldable pub merge_entries : List SstEntry → OrdMap SstEntry → OrdMap SstEntry
merge_entries [] merged = merged
merge_entries (e ∷ es) merged = merge_entries es (assign e.key e merged)

-- The merge, oldest table first: the tables behind the head are merged before it.
unfoldable pub merge_tables : Dir → List OpenTable → OrdMap SstEntry
merge_tables dir [] = []
merge_tables dir (s ∷ older) =
    merge_entries (scan_all s.table (find s.path dir)) (merge_tables dir older)

-- The loop that drops the tombstones.
unfoldable pub clean_entries : OrdMap SstEntry → OrdMap MemEntry → OrdMap MemEntry
clean_entries [] clean = clean
clean_entries ((k, e) ∷ merged) clean =
    clean_entries merged (if e.tombstone then clean else assign k (live e.value) clean)

unfoldable pub remove_files : List OpenTable → Dir → Dir
remove_files [] dir = dir
remove_files (s ∷ old) dir = remove_files old (erase s.path dir)

-- WAL::append and WAL::sync on the active segment, whose file stands in the directory.
unfoldable pub log : WalRecord → Db → Db
log r db =
    let w = sync (append r db.wal) in
    record db { wal = w; dir = assign (wal_seg_path db.current_wal_id) w.file db.dir }

module _ (optimal_bits : ℕ → ℕ) where
  -- std::make_shared<SSTable>(path): the file has to be there.
  unfoldable pub open_table : Bytes → Dir → Option OpenTable
  open_table path dir = do
    file ← find path dir
    t ← load_meta optimal_bits file
    some (record { path = path; table = t })

  -- Build a table under the next id and open it: the new id counter, the directory and the table.
  unfoldable pub add_table : OrdMap MemEntry → Db → Option (Dir × OpenTable)
  unfolding open_table
  add_table m db =
      let path = sst_path db.next_sst_id in
      let dir = assign path (build optimal_bits m) db.dir in
      open_table path dir >>= λ t. some (dir, t)

  -- DB::flush_memtable_locked, and DB::flush_memtable
  unfoldable pub flush_memtable : Db → Option Db
  unfolding update_manifest
  flush_memtable db = elim (MemTable.empty db.memtable) [
    | true ↦ some db
    | false ↦ do
      (dir, t) ← add_table db.memtable.entries db
      let db1 = record db {
        dir = dir;
        sstables = t ∷ db.sstables;
        next_sst_id = add64 db.next_sst_id 1;
      }
      some (rotate_wal (update_manifest db1))
  ]

  -- What compact_locked does behind its flush.
  unfoldable pub merge_all : Db → Option Db
  unfolding update_manifest
  merge_all db = do
    (dir, t) ← add_table (clean_entries (merge_tables db.dir db.sstables) []) db
    let db1 = record db { dir = dir; sstables = t ∷ []; next_sst_id = add64 db.next_sst_id 1 }
    let db2 = update_manifest db1
    some (record db2 { dir = remove_files db.sstables db2.dir })

  -- DB::compact_locked, and DB::compact
  unfoldable pub compact : Db → Option Db
  compact db = elim (ltb (length db.sstables) 2) [
    | true ↦ some db
    | false ↦ flush_memtable db >>= merge_all
  ]

  -- DB::maybe_flush
  unfoldable pub maybe_flush : Db → Option Db
  maybe_flush db = elim (leb db.opts.memtable_flush_bytes db.memtable.bytes) [
    | false ↦ some db
    | true ↦ do
      db1 ← flush_memtable db
      if leb db1.opts.compaction_threshold (length db1.sstables) then compact db1 else some db1
  ]

  -- DB::put
  unfoldable pub put : Bytes → Bytes → Db → Option Db
  unfolding log
  put key value db =
      let db1 = log (record { op = WalOp.put; key = key; value = value }) db in
      maybe_flush (record db1 { memtable = MemTable.put key value db1.memtable })

  -- DB::del
  unfoldable pub del : Bytes → Db → Option Db
  unfolding log
  del key db =
      let db1 = log (record { op = WalOp.del; key = key; value = [] }) db in
      maybe_flush (record db1 { memtable = MemTable.del key db1.memtable })

-- DB::stats
unfoldable pub stats : Db → DbStats
stats db = record {
  memtable_entries = MemTable.size db.memtable;
  memtable_bytes = db.memtable.bytes;
  sstable_count = length db.sstables;
  wal_replayed = db.wal_replayed;
  active_wal_id = db.current_wal_id;
  manifest_gen = db.manifest_gen;
}
