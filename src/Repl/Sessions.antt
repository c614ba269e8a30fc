-- ===== src/Repl/Sessions.antt =====
-- Two processes of src/main.cpp, one after the other, on the same data directory.
use key_val_store.Base.{
  ℕ, ◌+◌, ◌<◌, ◌^◌, ◌≡◌, refl, ap, ◌∙◌, inr, true, false, some, List, [], ◌∷◌, ◌++◌, arith, length,
  leb, if◌then◌else◌,
}
use key_val_store.Str.{Bytes, str_eq}
use key_val_store.Str.Order.{str_eq_iff}
use key_val_store.OrdMap.{OrdMap, assign, find}
use key_val_store.MemTable
use key_val_store.MemTable.{MemEntry, live, empty_table}
use key_val_store.MemTable.Reads.{entries-put}
use key_val_store.SsTable.Contract.{TableFits}
use key_val_store.Wal.{WalOp, WalRecord, sync}
use key_val_store.Wal.Replay.{Fits}
use key_val_store.Names.{ascii, wal_seg_path}
use key_val_store.Manifest.{Dir}
use key_val_store.Db.{Db, get, put, log, flush_memtable, stats}
use key_val_store.Db.Methods.{get-logged_state, logged_state}
use key_val_store.Db.Flush.{maps_after}
use key_val_store.Recovery.{open_db, close_db, apply_record}
use key_val_store.Recovery.Log.{replayed, counted}
use key_val_store.Recovery.Append.{logged_write, logged_write-Durable}
use key_val_store.Recovery.Durable.{Durable, Durable-Represents}
use key_val_store.Recovery.Reopened.{Resumed, reopen-Durable}
use key_val_store.Recovery.Closed.{Closed, close_db-Closed}
use key_val_store.Recovery.Overwrites.{put-small}
use key_val_store.Repl.{repl_options, run_line, run_lines, says, shown_value}
use key_val_store.Repl.Commands.{IsWord, IsValue, run_line-put, run_line-get}
use key_val_store.Repl.Session.{Disk, save, data_dir, greeting, recovery_notice, opening_text, main}

-- What a process prints around `out`, the answer to its one command, when it replays nothing.
abbrev pub transcript : Bytes → Bytes → Bytes
transcript name out =
    (greeting name ++ ([] ++ (ascii "type 'help' for commands" ++ (10 ∷ 10 ∷ []))))
    ++ (ascii "> " ++ (out ++ (ascii "> " ++ (10 ∷ (ascii "shutting down..." ++ (10 ∷ []))))))

save_self : (name : Bytes) (dir : Dir) (disk : Disk) → save name dir disk name ≡ dir
save_self name dir disk = ground (arith, str_eq_iff name name)

module _ (optimal_bits : ℕ → ℕ) where
  -- A process with one command.
  main-one :
      (args : List Bytes) (line out : Bytes) (disk : Disk) (db db' : Db) (dir : Dir)
      → open_db optimal_bits repl_options (disk (data_dir args)) ≡ some db
      → db.wal_replayed ≡ 0
      → run_line optimal_bits line db ≡ some (says db' out)
      → close_db optimal_bits db' ≡ some dir
      → main optimal_bits args (line ∷ []) disk
        ≡ some (save (data_dir args) dir disk, transcript (data_dir args) out)
  unfolding main run_lines opening_text recovery_notice stats
  main-one args line out disk db db' dir o n r c = rw o (rw (r, n) (rw c refl))

  -- The end of a store with an empty memtable.
  close_db-idle :
      (db : Db)
      → MemTable.empty db.memtable ≡ true
      → close_db optimal_bits db
        ≡ some (assign (wal_seg_path db.current_wal_id) (sync db.wal).file db.dir)
  unfolding close_db flush_memtable
  close_db-idle db h = rw (h, flush_memtable) refl

  -- The bytes of a first entry.
  bytes-put :
      (k v : Bytes)
      → length k + length v < 4096
      → leb 4096 (MemTable.put k v empty_table).bytes ≡ false
  unfolding MemTable.put find
  bytes-put k v h = ground (arith, h)

  module _ (db : Db) (ms : List (OrdMap MemEntry)) (d : Durable optimal_bits db ms []) (k v : Bytes)
      (short : length k + length v < 4096)
      (fits : TableFits optimal_bits (MemTable.put k v empty_table).entries)
      (ids : db.next_sst_id + 1 < 2 ^ 64) (gens : db.manifest_gen + 1 < 2 ^ 64) where
    abbrev record_of : WalRecord
    record_of = record { op = WalOp.put; key = k; value = v }

    record_of-Fits : Fits record_of
    record_of-Fits = record {
      key_fits = omega (arith, short);
      value_fits = omega (arith, short);
      byte_back = refl;
    }

    -- A store opened on the directory has an empty memtable.
    opened_memtable :
        (db1 : Db) → Resumed optimal_bits repl_options db ms [] db1 → db1.memtable ≡ empty_table
    opened_memtable db1 r = r.durable.memtable ∙ (unfold replayed in refl)

    -- What the put leads to.
    written : Db → Db
    written db1 = logged_write record_of db1

    written-Durable :
        (db1 : Db)
        → Resumed optimal_bits repl_options db ms [] db1
        → Durable optimal_bits (written db1) ms (record_of ∷ [])
    unfolding written
    written-Durable db1 r =
        logged_write-Durable optimal_bits db1 ms [] r.durable record_of record_of-Fits

    put-written :
        (db1 : Db)
        → Resumed optimal_bits repl_options db ms [] db1
        → put optimal_bits k v db1 ≡ some (written db1)
    unfolding written
    put-written db1 r =
        put-small optimal_bits k v db1
          (rw (r.same_opts, opened_memtable db1 r) (bytes-put k v short))

    get-written :
        (db1 : Db) (j : Bytes)
        → Resumed optimal_bits repl_options db ms [] db1
        → get j (written db1) ≡ (if str_eq j k then some v else get j db)
    unfolding written logged_write apply_record
    get-written db1 j r =
        unfold logged_state in
        get-logged_state optimal_bits j k (live v) record_of (MemTable.put k v db1.memtable) db1 ms
          (Durable-Represents optimal_bits db1 ms [] r.durable) (entries-put k v db1.memtable)
        ∙ rw (r.views j) refl

    written-TableFits :
        (db1 : Db)
        → db1.memtable ≡ empty_table
        → TableFits optimal_bits (written db1).memtable.entries
    unfolding written logged_write log apply_record
    written-TableFits db1 same = rw same fits

    -- What the first process leaves when it ends.
    closed :
        (db1 : Db)
        → Resumed optimal_bits repl_options db ms [] db1
        → (ms2 : List (OrdMap MemEntry)) × (db2 : Db) × Closed optimal_bits (written db1) ms2 db2
    closed db1 r =
        let same = opened_memtable db1 r in
        let (db2, c) =
          close_db-Closed optimal_bits (written db1) ms (record_of ∷ []) (written-Durable db1 r)
            (λ e. written-TableFits db1 same)
            (unfold written logged_write log in omega (arith, ids, r.same_ids))
            (unfold written logged_write log in omega (arith, gens, r.same_gen)) in
        (maps_after (written db1).memtable.entries ms, db2, c)

    -- A data directory that an orderly end left has room for one more id and one more generation,
    -- and the entry of a word and a value, together below the flush threshold, fits a table. Then
    -- a process with one `put` of them and after it a process with one `get` of any word both
    -- end, the first answers OK, and the second prints the value if the word is the key, and else
    -- what the store held there before.
    pub main-put-get :
        (args : List Bytes) (disk : Disk) (j : Bytes)
        → disk (data_dir args) ≡ db.dir
        → IsWord k
        → IsValue v
        → IsWord j
        → (disk1 : Disk) × (disk2 : Disk) × (main optimal_bits args
              ((ascii "put" ++ (32 ∷ (k ++ (32 ∷ v)))) ∷ [])
              disk
            ≡ some (disk1, transcript (data_dir args) (ascii "OK" ++ (10 ∷ []))))
          × (main optimal_bits args ((ascii "get" ++ (32 ∷ j)) ∷ []) disk1
              ≡ some (
                disk2,
                transcript
                    (data_dir args)
                    (shown_value (if str_eq j k then some v else get j db) ++ (10 ∷ [])),
              ))
    main-put-get args disk j e hk hv hj =
        let name = data_dir args in
        let (db1, r) = reopen-Durable optimal_bits repl_options db ms [] d (inr refl) in
        let (ms2, db2, c) = closed db1 r in
        let (db3, r3) = reopen-Durable optimal_bits repl_options db2 ms2 [] c.durable (inr refl) in
        let none_left : MemTable.empty db3.memtable ≡ true =
          rw (r3.durable.memtable) (unfold replayed MemTable.empty in refl) in
        let found : get j db3 ≡ (if str_eq j k then some v else get j db) =
          r3.views j ∙ c.views j ∙ get-written db1 j r in
        (
          save name db2.dir disk,
          _,
          main-one args _ (ascii "OK" ++ (10 ∷ [])) disk db1 (written db1) db2.dir
              (ap (open_db optimal_bits repl_options) e ∙ r.done)
              (r.replays ∙ (unfold counted in refl))
              (run_line-put optimal_bits k v db1 hk hv ∙ rw (put-written db1 r) refl) c.done,
          main-one args _ (shown_value (if str_eq j k then some v else get j db) ++ (10 ∷ []))
              (save name db2.dir disk) db3 db3 _
              (ap (open_db optimal_bits repl_options) (save_self name db2.dir disk) ∙ r3.done)
              (r3.replays ∙ (unfold counted in refl))
              (run_line-get optimal_bits j db3 hj ∙ rw found refl) (close_db-idle db3 none_left),
        )
