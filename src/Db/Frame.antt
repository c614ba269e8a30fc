-- ===== src/Db/Frame.antt =====
-- What the writes of the store to other files leave alone: the files of the tables.
use key_val_store.Base.{
  ℕ, ◌≤◌, ◌<◌, ◌≡◌, ◌∙◌, false, List, [], ◌∷◌, arith, ◌^◌, inl, inr, Option-cases,
}
use key_val_store.Str.{Bytes, str_eq}
use key_val_store.OrdMap.{OrdMap, find, assign, erase}
use key_val_store.OrdMap.Laws.{find-assign_ne, find-erase_ne}
use key_val_store.MemTable.{MemEntry}
use key_val_store.Names.{sst_path, wal_seg_path, done_path, manifest_name, manifest_tmp_name}
use key_val_store.Names.Distinct.{
  sst_path-ne, sst_path-ne-wal_seg_path, sst_path-ne-done_path, sst_path-ne-manifest,
  sst_path-ne-manifest_tmp,
}
use key_val_store.Manifest
use key_val_store.Manifest.{Dir, ManifestData, rename}
use key_val_store.Db.{OpenTable, Db, update_manifest, rotate_wal}
use key_val_store.Db.Represents.{Tables}

find-rename_ne :
    (old new j : Bytes) (dir : Dir)
    → str_eq j old ≡ false
    → str_eq j new ≡ false
    → find j (rename old new dir) ≡ find j dir
unfolding rename
find-rename_ne old new j dir p q = elim (Option-cases (find old dir)) [
  | inl e ↦ rw (e, rename)
  | inr (c, e) ↦
      rw (e, rename) (find-assign_ne new j c (erase old dir) q ∙ find-erase_ne old j dir p)
]

-- Replacing the manifest does not touch a table.
pub find-write :
    (i : ℕ) (d : ManifestData) (dir : Dir)
    → find (sst_path i) (Manifest.write d dir) ≡ find (sst_path i) dir
unfolding Manifest.write
find-write i d dir =
    find-rename_ne manifest_tmp_name manifest_name (sst_path i)
      (assign manifest_tmp_name (Manifest.manifest_text d) dir) (sst_path-ne-manifest_tmp i)
      (sst_path-ne-manifest i)
    ∙ find-assign_ne manifest_tmp_name (sst_path i) (Manifest.manifest_text d) dir
        (sst_path-ne-manifest_tmp i)

pub find-update_manifest :
    (i : ℕ) (db : Db) → find (sst_path i) (update_manifest db).dir ≡ find (sst_path i) db.dir
unfolding update_manifest
find-update_manifest i db = find-write i _ db.dir

-- Nor does rotating the log.
pub find-rotate_wal :
    (i : ℕ) (db : Db) → find (sst_path i) (rotate_wal db).dir ≡ find (sst_path i) db.dir
unfolding rotate_wal
find-rotate_wal i db =
    find-erase_ne (done_path db.current_wal_id) (sst_path i) _
      (sst_path-ne-done_path i db.current_wal_id)
    ∙ find-assign_ne (wal_seg_path db.next_sst_id) (sst_path i) _ _
        (sst_path-ne-wal_seg_path i db.next_sst_id)
    ∙ find-rename_ne (wal_seg_path db.current_wal_id) (done_path db.current_wal_id) (sst_path i) _
        (sst_path-ne-wal_seg_path i db.current_wal_id) (sst_path-ne-done_path i db.current_wal_id)
    ∙ find-assign_ne (wal_seg_path db.current_wal_id) (sst_path i) _ db.dir
        (sst_path-ne-wal_seg_path i db.current_wal_id)

pub find-assign_wal :
    (i j : ℕ) (c : Bytes) (dir : Dir)
    → find (sst_path i) (assign (wal_seg_path j) c dir) ≡ find (sst_path i) dir
find-assign_wal i j c dir =
    find-assign_ne (wal_seg_path j) (sst_path i) c dir (sst_path-ne-wal_seg_path i j)

-- A table under a fresh id leaves the older ones alone.
pub find-assign_sst :
    (i n : ℕ) (c : Bytes) (dir : Dir)
    → i < n
    → n < 2 ^ 64
    → find (sst_path i) (assign (sst_path n) c dir) ≡ find (sst_path i) dir
find-assign_sst i n c dir p q =
    find-assign_ne (sst_path n) (sst_path i) c dir
      (sst_path-ne i n (omega arith) q (λ e. absurd (omega arith)))

module _ (optimal_bits : ℕ → ℕ) where
  -- A directory in which the tables' files are the same serves the same tables, also when the id
  -- counter has gone up.
  pub Tables-frame :
      (dir dir' : Dir) (n n' : ℕ) (ss : List OpenTable) (ms : List (OrdMap MemEntry))
      → n ≤ n'
      → ((i : ℕ) → i < n → find (sst_path i) dir' ≡ find (sst_path i) dir)
      → Tables optimal_bits dir n ss ms
      → Tables optimal_bits dir' n' ss ms
  Tables-frame dir dir' n n' [] [] p same h = tt
  Tables-frame dir dir' n n' [] (m ∷ ms) p same h = h
  Tables-frame dir dir' n n' (s ∷ ss) [] p same h = h
  Tables-frame dir dir' n n' (s ∷ ss) (m ∷ ms) p same h = (
    record {
      id = h.0.id;
      below = omega (arith, h.0.below);
      named = h.0.named;
      fits = h.0.fits;
      opened = h.0.opened;
      stored = same h.0.id h.0.below ∙ h.0.stored;
    },
    Tables-frame dir dir' n n' ss ms p same h.1,
  )
