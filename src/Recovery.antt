-- ===== src/Recovery.antt =====
-- DB::recover of src/db.cpp, with the constructor and the destructor of DB.
-- A directory_iterator yields the entries in the order of their names; the code sorts what it
-- collects, so that no other order would change the outcome. `none` is an exception out of the
-- constructor. The names of the files are distinct, and so are the stems that std::sort compares.
pub mod Tables
pub mod Log
pub mod Segments
pub mod Collected
pub mod OnDisk
pub mod Active
pub mod Restart
pub mod Alike
pub mod Durable
pub mod Reopened
pub mod Append
pub mod Rotation
pub mod Flushed
pub mod FlushCrash
pub mod MergeCrash
pub mod Kept
pub mod Keeps
pub mod Contract
pub mod Closed
pub mod Lifecycle
pub mod Runs
pub mod Missing
pub mod Served
pub mod Stale
pub mod Overwrites
use key_val_store.Base.{
  ℕ, Bool, true, false, Option, none, some, List, [], ◌∷◌, ◌&&◌, ◌||◌, not, map, ltb, ◌==◌,
  if◌then◌else◌, add64, ◌>>=◌,
}
use key_val_store.Str.{Bytes, str_lt, str_eq}
use key_val_store.OrdMap.{OrdMap, find, assign, erase, select}
use key_val_store.MemTable
use key_val_store.MemTable.{MemTable, empty_table}
use key_val_store.Wal.{WalOp, WalRecord, open_wal, sync, replay}
use key_val_store.Names.{
  wal_seg_path, manifest_tmp_name, stem, is_sealed, is_table, is_named_table, is_segment, file_id,
}
use key_val_store.Manifest
use key_val_store.Manifest.{Dir, ManifestData}
use key_val_store.Db.{Options, OpenTable, Db, update_manifest, open_table, flush_memtable}

-- std::max
abbrev pub max : ℕ → ℕ → ℕ
max a b = if ltb a b then b else a

-- std::sort by descending stem.
insert_newest : OpenTable → List OpenTable → List OpenTable
insert_newest t [] = t ∷ []
insert_newest t (s ∷ ss) =
    if str_lt (stem s.path) (stem t.path) then t ∷ s ∷ ss else s ∷ insert_newest t ss

unfoldable pub sort_newest : List OpenTable → List OpenTable
unfolding insert_newest
sort_newest [] = []
sort_newest (t ∷ ts) = insert_newest t (sort_newest ts)

unfoldable pub contains : Bytes → List Bytes → Bool
contains name [] = false
contains name (s ∷ ss) = str_eq name s || contains name ss

-- Step 4: the tables' files that are not live are removed.
unfoldable pub remove_orphans : List OpenTable → Dir → Dir
unfolding contains
remove_orphans ts dir =
    select (λ name. not (is_table name) || contains name (map (λ t. t.path) ts)) dir

-- A segment to replay, with its id, its name and what it holds.
pub record Segment : Type 0 where
  pub id : ℕ
  pub name : Bytes
  pub file : Bytes

-- The order of the pairs of an id and a path.
abbrev pub segment_lt : Segment → Segment → Bool
segment_lt s t = ltb s.id t.id || (s.id == t.id && str_lt s.name t.name)

insert_oldest : Segment → List Segment → List Segment
insert_oldest s [] = s ∷ []
insert_oldest s (t ∷ ts) = if segment_lt s t then s ∷ t ∷ ts else t ∷ insert_oldest s ts

unfoldable pub sort_oldest : List Segment → List Segment
unfolding insert_oldest
sort_oldest [] = []
sort_oldest (s ∷ ss) = insert_oldest s (sort_oldest ss)

-- The loop of step 5 that collects the segments, over the entries that it keeps.
unfoldable pub collect_segments : OrdMap Bytes → Option (List Segment)
collect_segments [] = some []
collect_segments ((name, file) ∷ entries) = do
  id ← file_id name
  segs ← collect_segments entries
  some (record { id = id; name = name; file = file } ∷ segs)

-- The callback of replay: an operation that is not Put deletes.
apply_op : WalOp → Bytes → Bytes → MemTable → MemTable
apply_op WalOp.put k v t = MemTable.put k v t
apply_op _ k v t = MemTable.del k t

unfoldable pub apply_record : WalRecord → MemTable → MemTable
unfolding apply_op
apply_record r t = apply_op r.op r.key r.value t

unfoldable pub replay_records : List WalRecord → Db → Db
replay_records [] db = db
replay_records (r ∷ rs) db =
    replay_records rs
      (record db { memtable = apply_record r db.memtable; wal_replayed = add64 db.wal_replayed 1 })

unfoldable pub replay_segments : List Segment → Db → Db
replay_segments [] db = db
replay_segments (s ∷ segs) db =
    replay_segments segs
      (replay_records (replay s.file) (record db { current_wal_id = max db.current_wal_id s.id }))

-- Step 6
unfoldable pub open_active : Db → Db
open_active db =
    let id = max db.current_wal_id db.next_sst_id in
    let w = open_wal (find (wal_seg_path id) db.dir) in
    record db { current_wal_id = id; wal = w; dir = assign (wal_seg_path id) w.file db.dir }

-- Steps 1 and 2
unfoldable pub remove_leftovers : Dir → Dir
remove_leftovers dir = select (λ name. not (is_sealed name)) (erase manifest_tmp_name dir)

-- The members before DB::recover runs.
abbrev pub fresh : Options → Dir → Db
fresh opts dir = record {
  dir = dir;
  opts = opts;
  memtable = empty_table;
  wal = open_wal none;
  sstables = [];
  next_sst_id = 0;
  current_wal_id = 0;
  manifest_gen = 0;
  wal_replayed = 0;
}

module _ (optimal_bits : ℕ → ℕ) where
  -- The loop over the names that the MANIFEST lists: the id counter and the opened tables. A name is
  -- a base name, so that it is the path in the directory, and fs::path(name) has it as filename.
  unfoldable pub load_listed : List Bytes → Dir → ℕ → Option (ℕ × List OpenTable)
  load_listed [] dir next = some (next, [])
  load_listed (name ∷ names) dir next = do
    id ← file_id name
    t ← open_table optimal_bits name dir
    (next', ts) ← load_listed names dir (max next (add64 id 1))
    some (next', t ∷ ts)

  -- Step 3 for a directory with a MANIFEST, and for one without.
  unfoldable pub load_tables : Db → Option Db
  unfolding load_listed
  load_tables db =
      if Manifest.exists db.dir
      then (do
        d ← Manifest.read db.dir
        (next, ts) ← load_listed d.live_sstables db.dir db.next_sst_id
        some (record db { manifest_gen = d.generation; next_sst_id = next; sstables = ts }))
      else (do
        (next, ts) ←
            load_listed (map (λ e. e.0) (select is_named_table db.dir)) db.dir db.next_sst_id
        some (update_manifest (record db { next_sst_id = next; sstables = sort_newest ts })))

  -- DB::recover
  unfoldable pub recover : Db → Option Db
  recover db = do
    db1 ← load_tables (record db { dir = remove_leftovers db.dir })
    let dir = remove_orphans db1.sstables db1.dir
    segs ← collect_segments (select is_segment dir)
    some (open_active (replay_segments (sort_oldest segs) (record db1 { dir = dir })))

  -- DB::DB on what the directory holds.
  unfoldable pub open_db : Options → Dir → Option Db
  open_db opts dir = recover (fresh opts dir)

  -- DB::~DB, and the closing of the segment that follows: what the directory holds then.
  unfoldable pub close_db : Db → Option Dir
  close_db db = do
    db1 ← flush_memtable optimal_bits db
    some (assign (wal_seg_path db1.current_wal_id) (sync db1.wal).file db1.dir)
