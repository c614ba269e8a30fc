-- ===== src/Recovery/Contract.antt =====
-- The durability contract of include/db.h: what a crash in or behind DB::put and DB::del leaves.
use key_val_store.Base.{
  some-inj, ℕ, ◌+◌, ◌<◌, ◌^◌, ◌≡◌, refl, ap, sym, ◌∙◌, ◌⊎◌, inl, inr, none, some, List, [], ◌∷◌,
  ◌++◌, arith, length, ltb, if◌then◌else◌, Bool-cases,
}
use key_val_store.Str.{Bytes, str_eq}
use key_val_store.OrdMap.{OrdMap, assign}
use key_val_store.MemTable
use key_val_store.MemTable.{MemEntry, live, deleted, shown}
use key_val_store.MemTable.Reads.{entries-put, entries-del}
use key_val_store.SsTable.Contract.{TableFits}
use key_val_store.Wal.{WalOp, WalRecord, encode}
use key_val_store.Wal.Replay.{Fits}
use key_val_store.Names.{wal_seg_path}
use key_val_store.Manifest.{Dir}
use key_val_store.Db.{Options, Db, get, put, del, log}
use key_val_store.Db.Represents.{get-Represents}
use key_val_store.Db.Flush.{maps_after, full_state, full_state_fields, search_maps-nil}
use key_val_store.Db.Merge.{compacted}
use key_val_store.Db.Methods.{Room, logged_state, get-logged_state, get-put, get-del}
use key_val_store.Recovery.{apply_record}
use key_val_store.Recovery.Durable.{
  Durable, Durable-Represents, Recovered, Recovered-view, crash_idle,
}
use key_val_store.Recovery.Append.{torn_dir, logged_write, logged_write-Durable, crash-logged_write}
use key_val_store.Recovery.FlushCrash.{FlushCrash, crash-flush_memtable, full_state-Durable}
use key_val_store.Recovery.MergeCrash.{MergeCrash, crash-merge_all}
use key_val_store.Recovery.Kept.{full_state_gen}
use key_val_store.Recovery.Keeps.{put-Durable, del-Durable}

maps_after-assign :
    (k : Bytes) (e : MemEntry) (m : OrdMap MemEntry) (ms : List (OrdMap MemEntry))
    → maps_after (assign k e m) ms ≡ assign k e m ∷ ms
unfolding assign
maps_after-assign k e [] ms = refl
maps_after-assign k e ((j, w) ∷ m) ms = ground arith

module _ (optimal_bits : ℕ → ℕ) where
  -- The directories that a crash can leave in a call that logs `r`: in the append, in the flush that
  -- may follow, or in the merge that may follow that.
  pub data WriteCrash (r : WalRecord) (db : Db) (ms : List (OrdMap MemEntry)) : Dir → Type 0 where
    appending :
        (n : ℕ)
        → WriteCrash r db ms (assign (wal_seg_path db.current_wal_id) (torn_dir n r db) db.dir)
    flushing :
        {dir : Dir} → FlushCrash optimal_bits (logged_write r db) dir → WriteCrash r db ms dir
    merging :
        {dir : Dir}
        → MergeCrash optimal_bits
            (compacted ((logged_write r db).memtable.entries ∷ ms))
            (full_state optimal_bits (logged_write r db))
            dir
        → WriteCrash r db ms dir

  -- One of two views, as of before the write of `e` at `k`, or behind it.
  abbrev pub RecoveredEither : Options → Dir → Bytes → MemEntry → Db → Type 0
  RecoveredEither opts dir k e db =
      Recovered optimal_bits opts dir (λ key. get key db)
      ⊎ Recovered optimal_bits opts dir (λ key. if str_eq key k then shown e else get key db)

  module _ (db : Db) (ms : List (OrdMap MemEntry)) (rs : List WalRecord)
      (d : Durable optimal_bits db ms rs) (gens : db.manifest_gen + 3 < 2 ^ 64) where
    get-logged_write :
        (key k : Bytes) (e : MemEntry) (r : WalRecord)
        → (apply_record r db.memtable).entries ≡ assign k e db.memtable.entries
        → get key (logged_write r db) ≡ (if str_eq key k then shown e else get key db)
    unfolding logged_write
    get-logged_write key k e r w =
        unfold logged_state in
        get-logged_state optimal_bits key k e r (apply_record r db.memtable) db ms
          (Durable-Represents optimal_bits db ms rs d) w

    module _ (opts : Options) (r : WalRecord) (f : Fits r)
        (fits : TableFits optimal_bits (logged_write r db).memtable.entries)
        (merge : TableFits optimal_bits (compacted ((logged_write r db).memtable.entries ∷ ms)))
        (ids : (logged_write r db).next_sst_id + 3 < 2 ^ 64)
        (gens' : (logged_write r db).manifest_gen + 3 < 2 ^ 64) where
      abbrev behind : Db
      behind = logged_write r db

      behind-Durable : Durable optimal_bits behind ms (rs ++ (r ∷ []))
      behind-Durable = logged_write-Durable optimal_bits db ms rs d r f

      flushed-Durable :
          Durable optimal_bits (full_state optimal_bits behind) (behind.memtable.entries ∷ ms) []
      flushed-Durable =
          full_state-Durable optimal_bits behind ms (rs ++ (r ∷ [])) behind-Durable fits
            (omega arith) (omega arith)

      get_flushed : (key : Bytes) → get key (full_state optimal_bits behind) ≡ get key behind
      get_flushed key =
          let (next, list, cleared) = full_state_fields optimal_bits behind (omega arith) in
          get-Represents optimal_bits key (full_state optimal_bits behind)
            (behind.memtable.entries ∷ ms)
            (Durable-Represents optimal_bits (full_state optimal_bits behind)
              (behind.memtable.entries ∷ ms) [] flushed-Durable)
          ∙ rw cleared (search_maps-nil key (behind.memtable.entries ∷ ms))
          ∙ sym (
              get-Represents optimal_bits key behind ms
                (Durable-Represents optimal_bits behind ms (rs ++ (r ∷ [])) behind-Durable))

      crash_view :
          {dir : Dir}
          → WriteCrash r db ms dir
          → Recovered optimal_bits opts dir (λ key. get key db)
            ⊎ Recovered optimal_bits opts dir (λ key. get key behind)
      crash_view (appending n) = elim (Bool-cases (ltb n (length (encode r)))) [
        | inl cut ↦ inl (rw cut at (crash-logged_write optimal_bits db ms rs d opts r n f))
        | inr whole ↦ inr (rw whole at (crash-logged_write optimal_bits db ms rs d opts r n f))
      ]
      crash_view (flushing c) = inr (
          crash-flush_memtable optimal_bits behind ms (rs ++ (r ∷ [])) behind-Durable fits
            (omega arith) (omega arith) opts c)
      crash_view (merging c) =
          let (next, list, cleared) = full_state_fields optimal_bits behind (omega arith) in
          inr (
            Recovered-view optimal_bits opts _ _ _
              (crash-merge_all optimal_bits (full_state optimal_bits behind)
                (behind.memtable.entries ∷ ms) [] flushed-Durable merge (omega (arith, next))
                (omega (arith, full_state_gen optimal_bits behind (omega arith))) opts c)
              get_flushed)

    crash_write :
        (opts : Options) (r : WalRecord) (k : Bytes) (e : MemEntry) {dir : Dir}
        → Fits r
        → (apply_record r db.memtable).entries ≡ assign k e db.memtable.entries
        → Room optimal_bits db (apply_record r db.memtable).entries ms
        → WriteCrash r db ms dir
        → RecoveredEither opts dir k e db
    crash_write opts r k e {dir} f w room c =
        let nonempty : maps_after (apply_record r db.memtable).entries ms
            ≡ (apply_record r db.memtable).entries ∷ ms =
          rw w (maps_after-assign k e db.memtable.entries ms) in
        let merge = rw nonempty at room.merge in
        elim (crash_view opts r f (unfold logged_write in room.table) (unfold logged_write in merge)
          (unfold logged_write log in room.ids) (unfold logged_write log in gens) c) [
            | inl old ↦ inl old
            | inr new ↦
                inr (
                  Recovered-view optimal_bits opts dir _ _ new
                    (λ key. get-logged_write key k e r w))
          ]

    -- A crash anywhere in a put, of a key and a value whose lengths fit 32 bits, to a durable
    -- store with room for the tables, ids and generations that it may take: in the append, the
    -- flush or the merge that it causes. Opening the directory again succeeds, and gives every
    -- read back as before the put, or as behind it.
    pub crash-put :
        (opts : Options) (k v : Bytes) {dir : Dir}
        → length k < 2 ^ 32
        → length v < 2 ^ 32
        → Room optimal_bits db (MemTable.put k v db.memtable).entries ms
        → WriteCrash (record { op = WalOp.put; key = k; value = v }) db ms dir
        → RecoveredEither opts dir k (live v) db
    unfolding apply_record
    crash-put opts k v fk fv room c =
        crash_write opts (record { op = WalOp.put; key = k; value = v }) k (live v)
          (record { key_fits = fk; value_fits = fv; byte_back = refl })
          (entries-put k v db.memtable) room c

    -- A crash anywhere in a del, of a key whose length fits 32 bits, on a durable store with room
    -- for the tables, ids and generations that it may take: in the append, the flush or the merge
    -- that it causes. Opening the directory again succeeds, and gives every read back as before
    -- the del, or as behind it.
    pub crash-del :
        (opts : Options) (k : Bytes) {dir : Dir}
        → length k < 2 ^ 32
        → Room optimal_bits db (MemTable.del k db.memtable).entries ms
        → WriteCrash (record { op = WalOp.del; key = k; value = [] }) db ms dir
        → RecoveredEither opts dir k deleted db
    unfolding apply_record
    crash-del opts k fk room c =
        crash_write opts (record { op = WalOp.del; key = k; value = [] }) k deleted
          (record { key_fits = fk; value_fits = omega arith; byte_back = refl })
          (entries-del k db.memtable) room c

    -- A put that has returned is durable: from a durable store with room for the tables, ids and
    -- generations that it may take, put of a key and a value whose lengths fit 32 bits succeeds,
    -- and opening the directory that it leaves gives the value back at the key, and at every
    -- other key what get returned before.
    pub reopen-put :
        (opts : Options) (k v : Bytes)
        → length k < 2 ^ 32
        → length v < 2 ^ 32
        → Room optimal_bits db (MemTable.put k v db.memtable).entries ms
        → (db' : Db) × (put optimal_bits k v db ≡ some db')
          × Recovered optimal_bits opts db'.dir (λ key. if str_eq key k then some v else get key db)
    reopen-put opts k v fk fv room =
        let (db', ms', rs', kept) = put-Durable optimal_bits k v db ms rs d fk fv room gens in
        let (db2, ms2, done, holds, view) =
          get-put optimal_bits k v db ms (Durable-Represents optimal_bits db ms rs d) room in
        let same : db2 ≡ db' = some-inj db2 db' (sym done ∙ kept.done) in
        (
          db',
          kept.done,
          Recovered-view optimal_bits opts db'.dir _ _
              (crash_idle optimal_bits opts db' ms' rs' kept.durable)
              (λ key. ap (get key) (sym same) ∙ view key),
        )

    -- A del that has returned is durable: from a durable store with room for the tables, ids and
    -- generations that it may take, del of a key whose length fits 32 bits succeeds, and opening
    -- the directory that it leaves gives nothing back at the key, and at every other key what get
    -- returned before.
    pub reopen-del :
        (opts : Options) (k : Bytes)
        → length k < 2 ^ 32
        → Room optimal_bits db (MemTable.del k db.memtable).entries ms
        → (db' : Db) × (del optimal_bits k db ≡ some db')
          × Recovered optimal_bits opts db'.dir (λ key. if str_eq key k then none else get key db)
    reopen-del opts k fk room =
        let (db', ms', rs', kept) = del-Durable optimal_bits k db ms rs d fk room gens in
        let (db2, ms2, done, holds, view) =
          get-del optimal_bits k db ms (Durable-Represents optimal_bits db ms rs d) room in
        let same : db2 ≡ db' = some-inj db2 db' (sym done ∙ kept.done) in
        (
          db',
          kept.done,
          Recovered-view optimal_bits opts db'.dir _ _
              (crash_idle optimal_bits opts db' ms' rs' kept.durable)
              (λ key. ap (get key) (sym same) ∙ view key),
        )
