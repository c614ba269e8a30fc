-- ===== src/Recovery/Log.antt =====
-- Step 5 of DB::recover: the segments are replayed into the memtable.
use key_val_store.Base.{ℕ, ◌≡◌, refl, List, [], ◌∷◌, ◌++◌, add64}
use key_val_store.Str.{Bytes}
use key_val_store.OrdMap.{IsSorted}
use key_val_store.OrdMap.Laws.{assign-IsSorted}
use key_val_store.MemTable.{MemTable, live, deleted}
use key_val_store.Wal.{WalOp, WalRecord}
use key_val_store.Db.{Db}
use key_val_store.MemTable.Reads.{entries-put, entries-del}
use key_val_store.Recovery.{apply_op, apply_record, replay_records}

-- The memtable that the records lead to.
unfoldable pub replayed : List WalRecord → MemTable → MemTable
replayed [] t = t
replayed (r ∷ rs) t = replayed rs (apply_record r t)

-- The counter that the records lead to.
unfoldable pub counted : List WalRecord → ℕ → ℕ
counted [] n = n
counted (r ∷ rs) n = counted rs (add64 n 1)

pub replay_records_lem :
    (rs : List WalRecord) (db : Db)
    → replay_records rs db
      ≡ record db { memtable = replayed rs db.memtable; wal_replayed = counted rs db.wal_replayed }
unfolding replay_records replayed counted
replay_records_lem [] db = refl
replay_records_lem (r ∷ rs) db = replay_records_lem rs _

pub replayed-append :
    (rs ss : List WalRecord) (t : MemTable) → replayed (rs ++ ss) t ≡ replayed ss (replayed rs t)
unfolding replayed
replayed-append [] ss t = refl
replayed-append (r ∷ rs) ss t = replayed-append rs ss (apply_record r t)

apply_op-IsSorted :
    (op : WalOp) (k v : Bytes) (t : MemTable)
    → IsSorted t.entries
    → IsSorted (apply_op op k v t).entries
unfolding apply_op
apply_op-IsSorted WalOp.put k v t h =
    rw (entries-put k v t) (assign-IsSorted k (live v) t.entries h)
apply_op-IsSorted WalOp.del k v t h = rw (entries-del k t) (assign-IsSorted k deleted t.entries h)
apply_op-IsSorted (WalOp.other b) k v t h =
    rw (entries-del k t) (assign-IsSorted k deleted t.entries h)

apply_record-IsSorted :
    (r : WalRecord) (t : MemTable) → IsSorted t.entries → IsSorted (apply_record r t).entries
unfolding apply_record
apply_record-IsSorted r t h = apply_op-IsSorted r.op r.key r.value t h

pub replayed-IsSorted :
    (rs : List WalRecord) (t : MemTable) → IsSorted t.entries → IsSorted (replayed rs t).entries
unfolding replayed
replayed-IsSorted [] t h = h
replayed-IsSorted (r ∷ rs) t h =
    replayed-IsSorted rs (apply_record r t) (apply_record-IsSorted r t h)

pub counted-append :
    (rs ss : List WalRecord) (n : ℕ) → counted (rs ++ ss) n ≡ counted ss (counted rs n)
unfolding counted
counted-append [] ss n = refl
counted-append (r ∷ rs) ss n = counted-append rs ss (add64 n 1)
