-- ===== src/Tests/Processes.antt =====
-- The theorems on processes, threads and the benchmark, at small inputs.
use key_val_store.Base.{
  ℕ, ◌≡◌, refl, ◌∙◌, true, false, ◌⊎◌, ◌-◌, none, some, [], ◌∷◌, ◌++◌, arith, length, if◌then◌else◌,
}
use key_val_store.Str.{str_eq}
use key_val_store.OrdMap.{find, assign}
use key_val_store.MemTable
use key_val_store.MemTable.{empty_table}
use key_val_store.Codec.{wu32, wstr}
use key_val_store.SsTable.{entry_bytes}
use key_val_store.SsTable.Written.{rows}
use key_val_store.SsTable.Contract.{TableFits}
use key_val_store.Names.{ascii, sst_path}
use key_val_store.Names.Parsed.{sst_path-OneLine}
use key_val_store.Manifest
use key_val_store.Manifest.{Dir, ManifestData}
use key_val_store.Manifest.ReadBack.{find-write_manifest}
use key_val_store.Db.{Db, get, log, maybe_flush}
use key_val_store.Recovery.{open_db}
use key_val_store.Recovery.Missing.{open_db-missing}
use key_val_store.Repl.{shown_value}
use key_val_store.Repl.Session.{Disk, data_dir, main}
use key_val_store.Repl.Sessions.{transcript, main-put-get}
use key_val_store.Threads.{
  Write, Read, Stage, Event, System, Reach, start, later, lock_shared, look_up, lock, end_put,
  log_put, put_record, free,
}
use key_val_store.Threads.Steps.{sharing, holding, total, all_logged, logs, Sequential}
use key_val_store.Threads.Linear.{linearizable}
use key_val_store.Threads.Progress.{Busy, NextMove, Throws, no_deadlock}
use key_val_store.Bench.{Clock, Timed, bench_hot_read, fmtval}
use key_val_store.Bench.Loads.{answers_of}
use key_val_store.Bench.Reads.{bench_hot_read-hits}
use key_val_store.Tests.Fixtures.{ten_bits, key_a, key_b, store, store_maps}
use key_val_store.Db.Frame.{find-write}
use key_val_store.Db.Methods.{maybe_flush-small}
use key_val_store.Tests.Restarts.{wide}
use key_val_store.Tests.Reopen.{full_store, full_store-Durable}

-- The data directory of all processes holds the store with two tables.
abbrev full_disk : Disk
full_disk = λ name. full_store.dir

put_b-fits : TableFits ten_bits (MemTable.put key_b (51 ∷ []) empty_table).entries
unfolding MemTable.put find assign rows entry_bytes wstr wu32
put_b-fits = record {
  sorted = (tt, tt);
  entries = omega arith;
  filter = omega arith;
  count = omega arith;
  size = omega arith;
}

main-put-get_example :
    (disk1 : Disk) × (disk2 : Disk) × (main ten_bits []
        ((ascii "put" ++ (32 ∷ (key_b ++ (32 ∷ 51 ∷ [])))) ∷ [])
        full_disk
      ≡ some (disk1, transcript (data_dir []) (ascii "OK" ++ (10 ∷ []))))
    × (main ten_bits [] ((ascii "get" ++ (32 ∷ key_a)) ∷ []) disk1
        ≡ some (
          disk2,
          transcript (data_dir []) (
              shown_value (if str_eq key_a key_b then some (51 ∷ []) else get key_a full_store)
              ++ (10 ∷ [])),
        ))
main-put-get_example =
    main-put-get ten_bits full_store store_maps full_store-Durable key_b (51 ∷ []) (omega arith)
      put_b-fits (omega arith) (omega arith) [] full_disk key_a refl (refl, tt) refl (refl, tt)

-- Two threads: the first puts, and then the second reads.
abbrev shared_store : Db
shared_store = record store { opts = wide }

abbrev logged_store : Db
logged_store = log (put_record key_b (51 ∷ [])) shared_store

abbrev after_put : Db
after_put = record logged_store { memtable = MemTable.put key_b (51 ∷ []) logged_store.memtable }

abbrev after_get : System
after_get = record {
  state = record { db = after_put; mu = free };
  threads = Stage.outside ∷ (Stage.outside ∷ []);
  history =
      Event.got key_b (get key_b after_put) ∷ (Event.wrote (Write.put_call key_b (51 ∷ [])) ∷ []);
}

after_put-small : maybe_flush ten_bits after_put ≡ some after_put
unfolding log MemTable.put find
after_put-small = maybe_flush-small ten_bits after_put refl

after_get-Reach : Reach ten_bits shared_store after_get
after_get-Reach =
    let other = Stage.outside ∷ [] in
    let begun = start (Stage.outside ∷ other) (refl, (refl, tt)) in
    let locked = later [] other begun (lock (Write.put_call key_b (51 ∷ [])) refl refl) in
    let synced = later [] other locked (log_put key_b (51 ∷ [])) in
    let ended = later [] other synced (end_put key_b (51 ∷ []) after_put-small) in
    let sharing_lock = later other [] ended (lock_shared (Read.get_call key_b) refl) in
    later other [] sharing_lock (look_up key_b)

linearizable_example :
    ((total holding after_get.threads ≡ 0)
      ⊎ ((total holding after_get.threads ≡ 1) × (total sharing after_get.threads ≡ 0)))
    × (settled : Db) × Sequential ten_bits after_get.history shared_store settled
    × (after_get.state.db ≡ logs (all_logged after_get.threads) settled)
linearizable_example = linearizable ten_bits shared_store after_get after_get-Reach

-- A clock that counts its readings.
abbrev counting : Clock
counting = record { Time = ℕ; Micros = ℕ; now = λ n. n; us = λ a b. b - a }

bench_hot_read-hits_example :
    (t : Timed counting) × (bench_hot_read ten_bits counting (λ i. 1) 3 ≡ some t)
    × (length t.samples ≡ 3)
    × (t.answers ≡ answers_of (λ i. some (fmtval 1)) 3 0)
    × (t.db.sstables ≡ [])
bench_hot_read-hits_example =
    bench_hot_read-hits ten_bits counting (λ i. 1) 3 (omega arith) (λ i. omega arith)

abbrev one_name : ManifestData
one_name = record { generation = 1; live_sstables = sst_path 7 ∷ [] }

open_db-missing_example : open_db ten_bits wide (Manifest.write one_name []) ≡ none
open_db-missing_example =
    open_db-missing ten_bits wide (Manifest.write one_name []) one_name [] [] (sst_path 7)
      (record { generation_fits = omega arith; one_line = (sst_path-OneLine 7, tt) })
      (find-write_manifest one_name []) refl (find-write 7 one_name [] ∙ (unfold find in refl))

abbrev while_put : System
while_put = record {
  state = record { db = logged_store; mu = record { held = true; sharers = 0 } };
  threads = Stage.put_logged key_b (51 ∷ []) ∷ (Stage.outside ∷ []);
  history = [];
}

while_put-Reach : Reach ten_bits shared_store while_put
while_put-Reach =
    let other = Stage.outside ∷ [] in
    let begun = start (Stage.outside ∷ other) (refl, (refl, tt)) in
    let locked = later [] other begun (lock (Write.put_call key_b (51 ∷ [])) refl refl) in
    later [] other locked (log_put key_b (51 ∷ []))

no_deadlock_example :
    ((while_put.state.mu.held ≡ false) × (while_put.state.mu.sharers ≡ 0))
    ⊎ ((b : Busy while_put.threads) × (NextMove ten_bits while_put.state b.stage
          ⊎ Throws ten_bits while_put.state b.stage))
no_deadlock_example = no_deadlock ten_bits shared_store while_put while_put-Reach
