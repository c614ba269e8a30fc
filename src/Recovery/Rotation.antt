-- ===== src/Recovery/Rotation.antt =====
-- What the steps of a flush leave on disk, each on its own.
use key_val_store.Base.{ℕ, ◌<◌, ◌≤◌, ◌^◌, ◌≡◌, ◌≢◌, false, List, [], ◌∷◌, arith, All}
use key_val_store.Str.{Bytes, str_eq}
use key_val_store.OrdMap.{OrdMap, assign, erase}
use key_val_store.OrdMap.Laws.{find-assign_self}
use key_val_store.MemTable.{MemEntry}
use key_val_store.Wal.{sync}
use key_val_store.Names.{sst_path, wal_seg_path, done_path, manifest_tmp_name}
use key_val_store.Names.Distinct.{sst_path-ne, sst_path-ne-done_path, sst_path-ne-manifest_tmp}
use key_val_store.Names.Kinds.{
  is_segment-sst, is_segment-done, is_segment-manifest_tmp, manifest-ne-sst, manifest-ne-done,
  manifest-ne-tmp,
}
use key_val_store.Manifest.{Dir, rename}
use key_val_store.Db.{OpenTable, Db, seal_segment, next_segment, open_next, rotate_wal}
use key_val_store.Db.Represents.{Tables}
use key_val_store.Recovery.OnDisk.{OnDisk}
use key_val_store.Recovery.Segments.{Logs, AllUnder, AllUnder-trans}
use key_val_store.Recovery.Alike.{
  IsOther, assign-Alike, erase-Alike, Alike-OnDisk, assign_log-OnDisk, create_log-OnDisk,
  erase_log-OnDisk, find_no_log,
}

module _ (optimal_bits : ℕ → ℕ) where
  -- The names that a flush writes to, besides those that it commits with.
  pub sst-IsOther :
      (dir : Dir) (n k : ℕ) (ss : List OpenTable) (ms : List (OrdMap MemEntry))
      → n ≤ k
      → k < 2 ^ 64
      → Tables optimal_bits dir n ss ms
      → All (λ s. str_eq s.path (sst_path k) ≡ false) ss
  sst-IsOther dir n k [] ms p q h = tt
  sst-IsOther dir n k (s ∷ ss) [] p q h = absurd h
  sst-IsOther dir n k (s ∷ ss) (m ∷ ms) p q h =
      let t = h.0 in
      let other : t.id ≢ k = λ e. absurd (omega (arith, t.below)) in
      (
        rw t.named (sst_path-ne t.id k (omega (arith, t.below)) q other),
        sst-IsOther dir n k ss ms p q h.1,
      )

  tmp-IsOther :
      (dir : Dir) (n : ℕ) (ss : List OpenTable) (ms : List (OrdMap MemEntry))
      → Tables optimal_bits dir n ss ms
      → All (λ s. str_eq s.path manifest_tmp_name ≡ false) ss
  tmp-IsOther dir n [] ms h = tt
  tmp-IsOther dir n (s ∷ ss) [] h = absurd h
  tmp-IsOther dir n (s ∷ ss) (m ∷ ms) h =
      (rw h.0.named (sst_path-ne-manifest_tmp h.0.id), tmp-IsOther dir n ss ms h.1)

  done-IsOther :
      (dir : Dir) (n w : ℕ) (ss : List OpenTable) (ms : List (OrdMap MemEntry))
      → Tables optimal_bits dir n ss ms
      → All (λ s. str_eq s.path (done_path w) ≡ false) ss
  done-IsOther dir n w [] ms h = tt
  done-IsOther dir n w (s ∷ ss) [] h = absurd h
  done-IsOther dir n w (s ∷ ss) (m ∷ ms) h =
      (rw h.0.named (sst_path-ne-done_path h.0.id w), done-IsOther dir n w ss ms h.1)

  module _ (dir : Dir) (gen n : ℕ) (ss : List OpenTable) (ms : List (OrdMap MemEntry)) (logs : Logs)
      (h : OnDisk optimal_bits dir gen n ss ms logs) where
    -- A file under the next id is an orphan, whatever it holds.
    pub assign_sst-OnDisk :
        (c : Bytes) → OnDisk optimal_bits (assign (sst_path n) c dir) gen n ss ms logs
    assign_sst-OnDisk c = Alike-OnDisk optimal_bits dir _ gen n ss ms logs h (
        assign-Alike (sst_path n) c dir ss h.ordered (record {
          no_segment = is_segment-sst n;
          no_manifest = manifest-ne-sst n;
          no_table = sst-IsOther dir n n ss ms (omega arith) h.ids_fit h.tables;
        }))

    -- So is a half-written replacement of the MANIFEST.
    pub assign_tmp-OnDisk :
        (c : Bytes) → OnDisk optimal_bits (assign manifest_tmp_name c dir) gen n ss ms logs
    assign_tmp-OnDisk c = Alike-OnDisk optimal_bits dir _ gen n ss ms logs h (
        assign-Alike manifest_tmp_name c dir ss h.ordered (record {
          no_segment = is_segment-manifest_tmp;
          no_manifest = manifest-ne-tmp;
          no_table = tmp-IsOther dir n ss ms h.tables;
        }))

    done_path-IsOther : (w : ℕ) → IsOther (done_path w) ss
    done_path-IsOther w = record {
      no_segment = is_segment-done w;
      no_manifest = manifest-ne-done w;
      no_table = done-IsOther dir n w ss ms h.tables;
    }

    pub assign_done-OnDisk :
        (w : ℕ) (c : Bytes) → OnDisk optimal_bits (assign (done_path w) c dir) gen n ss ms logs
    assign_done-OnDisk w c =
        Alike-OnDisk optimal_bits dir _ gen n ss ms logs h
          (assign-Alike (done_path w) c dir ss h.ordered (done_path-IsOther w))

    pub erase_done-OnDisk : (w : ℕ) → OnDisk optimal_bits (erase (done_path w) dir) gen n ss ms logs
    erase_done-OnDisk w =
        Alike-OnDisk optimal_bits dir _ gen n ss ms logs h
          (erase-Alike (done_path w) dir ss h.ordered (done_path-IsOther w))

  -- What each step of the rotation leaves on disk.
  module _ (db : Db) (ms : List (OrdMap MemEntry)) (olds : Logs)
      (h : OnDisk optimal_bits db.dir db.manifest_gen db.next_sst_id db.sstables ms
        ((db.current_wal_id, db.wal.file) ∷ olds))
      (below : db.current_wal_id < db.next_sst_id) where
    pub seal_segment-OnDisk :
        OnDisk optimal_bits (seal_segment db) db.manifest_gen db.next_sst_id db.sstables ms olds
    unfolding seal_segment rename
    seal_segment-OnDisk =
        let w = db.current_wal_id in
        let c = (sync db.wal).file in
        let closed = assign (wal_seg_path w) c db.dir in
        let on =
          assign_log-OnDisk optimal_bits db.dir db.manifest_gen db.next_sst_id w db.sstables ms c
            olds db.wal.file h in
        let gone =
          erase_log-OnDisk optimal_bits closed db.manifest_gen db.next_sst_id w db.sstables ms c
            olds on in
        rw (find-assign_self (wal_seg_path w) c db.dir, rename)
          (assign_done-OnDisk (erase (wal_seg_path w) closed) db.manifest_gen db.next_sst_id
            db.sstables ms olds gone w c)

    above : AllUnder db.next_sst_id olds
    above = AllUnder-trans db.current_wal_id db.next_sst_id olds below h.log_fits.1

    pub next_segment_empty : next_segment db ≡ record { file = []; buffer = [] }
    unfolding next_segment
    next_segment_empty = rw (
        find_no_log optimal_bits (seal_segment db) db.manifest_gen db.next_sst_id db.next_sst_id
          db.sstables ms [] olds seal_segment-OnDisk h.ids_fit above)

    pub open_next-OnDisk :
        OnDisk optimal_bits
          (open_next db)
          db.manifest_gen
          db.next_sst_id
          db.sstables
          ms
          ((db.next_sst_id, []) ∷ olds)
    unfolding open_next
    open_next-OnDisk = rw next_segment_empty (
        create_log-OnDisk optimal_bits (seal_segment db) db.manifest_gen db.next_sst_id
          db.next_sst_id db.sstables ms [] olds seal_segment-OnDisk h.ids_fit above)

    pub rotate_wal-OnDisk :
        OnDisk optimal_bits
          (rotate_wal db).dir
          db.manifest_gen
          db.next_sst_id
          db.sstables
          ms
          ((db.next_sst_id, []) ∷ olds)
    unfolding rotate_wal
    rotate_wal-OnDisk =
        erase_done-OnDisk (open_next db) db.manifest_gen db.next_sst_id db.sstables ms
          ((db.next_sst_id, []) ∷ olds) open_next-OnDisk db.current_wal_id

    pub rotate_wal_empty : (rotate_wal db).wal ≡ record { file = []; buffer = [] }
    unfolding rotate_wal
    rotate_wal_empty = next_segment_empty

    -- The same in terms of the new active segment.
    pub rotate_wal-active :
        OnDisk optimal_bits
          (rotate_wal db).dir
          db.manifest_gen
          db.next_sst_id
          db.sstables
          ms
          ((db.next_sst_id, (rotate_wal db).wal.file) ∷ olds)
    rotate_wal-active = rw rotate_wal_empty rotate_wal-OnDisk
