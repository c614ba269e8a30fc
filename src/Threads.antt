-- ===== src/Threads.antt =====
-- Threads that call one DB at a time each: the locks that the methods of src/db.cpp take on the
-- std::shared_mutex of include/db.h, and what they do while they hold it. A put or a del is two steps
-- under its lock, the log and the rest; the other methods are one.
pub mod Steps
pub mod Linear
pub mod Progress
use key_val_store.Base.{
  ℕ, ◌+◌, ◌-◌, ◌≡◌, Bool, true, false, Option, none, some, List, [], ◌∷◌, ◌++◌, All,
}
use key_val_store.Str.{Bytes}
use key_val_store.MemTable
use key_val_store.Wal.{WalOp, WalRecord}
use key_val_store.Db.{Db, DbStats, get, stats, log, maybe_flush, flush_memtable, compact}

-- The methods that take the lock exclusively, and those that share it.
pub data Write : Type 0 where
  put_call : (key value : Bytes) → Write
  del_call : (key : Bytes) → Write
  flush_call compact_call : Write

pub data Read : Type 0 where
  get_call : (key : Bytes) → Read
  stats_call : Read

-- Where a thread stands: outside, behind its lock, or behind the sync of its record.
pub data Stage : Type 0 where
  outside : Stage
  reading : (q : Read) → Stage
  writing : (w : Write) → Stage
  put_logged : (key value : Bytes) → Stage
  del_logged : (key : Bytes) → Stage

-- What a call that has returned did.
pub data Event : Type 0 where
  wrote : (w : Write) → Event
  got : (key : Bytes) (found : Option Bytes) → Event
  counted : (st : DbStats) → Event

-- std::shared_mutex: whether it is held exclusively, and by how many it is shared.
pub record SharedMutex : Type 0 where
  pub held : Bool
  pub sharers : ℕ

abbrev pub put_record : Bytes → Bytes → WalRecord
put_record k v = record { op = WalOp.put; key = k; value = v }

abbrev pub del_record : Bytes → WalRecord
del_record k = record { op = WalOp.del; key = k; value = [] }

abbrev shared : SharedMutex → SharedMutex
shared m = record m { sharers = m.sharers + 1 }

abbrev unshared : SharedMutex → SharedMutex
unshared m = record m { sharers = m.sharers - 1 }

-- The members that the threads share.
pub record Shared : Type 0 where
  pub db : Db
  pub mu : SharedMutex

abbrev pub AllOutside : List Stage → Type 0
AllOutside = All (λ p. p ≡ Stage.outside)

-- All threads, and the calls that have returned, the last one first.
pub record System : Type 0 where
  pub state : Shared
  pub threads : List Stage
  pub history : List Event

abbrev pub free : SharedMutex
free = record { held = false; sharers = 0 }

module _ (optimal_bits : ℕ → ℕ) where
  -- One step of one thread, and the event if its call returns.
  pub data Move (s : Shared) : Stage → Shared → Stage → List Event → Type 0 where
    lock_shared :
        (q : Read)
        → s.mu.held ≡ false
        → Move s Stage.outside (record s { mu = shared s.mu }) (Stage.reading q) []
    lock :
        (w : Write)
        → s.mu.held ≡ false
        → s.mu.sharers ≡ 0
        → Move s Stage.outside (record s { mu = record s.mu { held = true } }) (Stage.writing w) []
    look_up :
        (k : Bytes)
        → Move s
            (Stage.reading (Read.get_call k))
            (record s { mu = unshared s.mu })
            Stage.outside
            (Event.got k (get k s.db) ∷ [])
    count :
        Move s
          (Stage.reading Read.stats_call)
          (record s { mu = unshared s.mu })
          Stage.outside
          (Event.counted (stats s.db) ∷ [])
    log_put :
        (k v : Bytes)
        → Move s
            (Stage.writing (Write.put_call k v))
            (record s { db = log (put_record k v) s.db })
            (Stage.put_logged k v)
            []
    log_del :
        (k : Bytes)
        → Move s
            (Stage.writing (Write.del_call k))
            (record s { db = log (del_record k) s.db })
            (Stage.del_logged k)
            []
    end_put :
        (k v : Bytes) {db' : Db}
        → maybe_flush optimal_bits (record s.db { memtable = MemTable.put k v s.db.memtable })
          ≡ some db'
        → Move s
            (Stage.put_logged k v)
            (record { db = db'; mu = record s.mu { held = false } })
            Stage.outside
            (Event.wrote (Write.put_call k v) ∷ [])
    end_del :
        (k : Bytes) {db' : Db}
        → maybe_flush optimal_bits (record s.db { memtable = MemTable.del k s.db.memtable })
          ≡ some db'
        → Move s
            (Stage.del_logged k)
            (record { db = db'; mu = record s.mu { held = false } })
            Stage.outside
            (Event.wrote (Write.del_call k) ∷ [])
    end_flush :
        {db' : Db}
        → flush_memtable optimal_bits s.db ≡ some db'
        → Move s
            (Stage.writing Write.flush_call)
            (record { db = db'; mu = record s.mu { held = false } })
            Stage.outside
            (Event.wrote Write.flush_call ∷ [])
    end_compact :
        {db' : Db}
        → compact optimal_bits s.db ≡ some db'
        → Move s
            (Stage.writing Write.compact_call)
            (record { db = db'; mu = record s.mu { held = false } })
            Stage.outside
            (Event.wrote Write.compact_call ∷ [])

  -- What any number of threads can reach from a store that nobody has called yet.
  pub data Reach (db : Db) : System → Type 0 where
    start :
        (threads : List Stage)
        → AllOutside threads
        → Reach db
            (record { state = record { db = db; mu = free }; threads = threads; history = [] })
    later :
        (before after : List Stage) {p p' : Stage} {s s' : Shared} {es past : List Event}
        → Reach db (record { state = s; threads = before ++ (p ∷ after); history = past })
        → Move s p s' p' es
        → Reach db (record { state = s'; threads = before ++ (p' ∷ after); history = es ++ past })
