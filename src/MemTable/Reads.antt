-- ===== src/MemTable/Reads.antt =====
-- What MemTable::get and MemTable::raw return after a write.
use key_val_store.Base.{◌≡◌, some, arith, if◌then◌else◌}
use key_val_store.Str.{Bytes, str_eq}
use key_val_store.OrdMap.{assign}
use key_val_store.OrdMap.Laws.{find-assign}
use key_val_store.MemTable.{MemTable, live, deleted, put, del, raw}

-- After put, raw finds the live entry at the key, and at every other key what it found before.
pub raw-put :
    (k j v : Bytes) (t : MemTable)
    → raw j (put k v t) ≡ (if str_eq j k then some (live v) else raw j t)
unfolding put raw
raw-put k j v t = ground (arith, find-assign k j (live v) t.entries)

-- After del, raw finds the tombstone at the key, and at every other key what it found before.
pub raw-del :
    (k j : Bytes) (t : MemTable) → raw j (del k t) ≡ (if str_eq j k then some deleted else raw j t)
unfolding del raw
raw-del k j t = ground (arith, find-assign k j deleted t.entries)

-- The entries after a write.
pub entries-put : (k v : Bytes) (t : MemTable) → (put k v t).entries ≡ assign k (live v) t.entries
unfolding put
entries-put k v t = ground arith

pub entries-del : (k : Bytes) (t : MemTable) → (del k t).entries ≡ assign k deleted t.entries
unfolding del
entries-del k t = ground arith
