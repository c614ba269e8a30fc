-- ===== src/Recovery/Alike.antt =====
-- Writes to the directory that recovery does not notice, and writes to the newest segment.
use key_val_store.Base.{ℕ, ◌<◌, ◌^◌, ◌≡◌, refl, ap, sym, ◌∙◌, false, none, List, [], ◌∷◌, All}
use key_val_store.Str.{Bytes, str_compare, str_eq}
use key_val_store.OrdMap.{OrdMap, IsSorted, find, assign, erase, select}
use key_val_store.OrdMap.Laws.{
  find-assign_ne, find-erase_ne, assign-IsSorted, assign-assign, erase-assign,
}
use key_val_store.OrdMap.Select.{
  find-select, select-assign_out, select-assign_in, select-erase, select-erase_out, erase-IsSorted,
}
use key_val_store.MemTable.{MemEntry}
use key_val_store.Names.{wal_seg_path, is_segment, manifest_name}
use key_val_store.Names.Distinct.{sst_path-ne-wal_seg_path}
use key_val_store.Names.Kinds.{is_segment-wal}
use key_val_store.Manifest.{Dir}
use key_val_store.Db.{OpenTable}
use key_val_store.Db.Represents.{Tables}
use key_val_store.Recovery.Tables.{SameTables, Tables-SameTables}
use key_val_store.Recovery.Segments.{Logs, AllUnder, Descending, log_entries, find-log_entries}
use key_val_store.Recovery.OnDisk.{OnDisk}

-- The second directory has the manifest, the listed tables and the segments of the first.
pub record Alike (dir dir' : Dir) (ss : List OpenTable) : Type 0 where
  pub ordered : IsSorted dir'
  pub manifest : find manifest_name dir' ≡ find manifest_name dir
  pub tables : SameTables dir dir' ss
  pub segments : select is_segment dir' ≡ select is_segment dir

-- A name that is neither the manifest's, nor a segment's, nor that of a table in `ss`.
pub record IsOther (k : Bytes) (ss : List OpenTable) : Type 0 where
  pub no_segment : is_segment k ≡ false
  pub no_manifest : str_eq manifest_name k ≡ false
  pub no_table : All (λ s. str_eq s.path k ≡ false) ss

assign-SameTables :
    (k c : Bytes) (dir : Dir) (ss : List OpenTable)
    → All (λ s. str_eq s.path k ≡ false) ss
    → SameTables dir (assign k c dir) ss
assign-SameTables k c dir [] h = tt
assign-SameTables k c dir (s ∷ ss) h =
    (find-assign_ne k s.path c dir h.0, assign-SameTables k c dir ss h.1)

erase-SameTables :
    (k : Bytes) (dir : Dir) (ss : List OpenTable)
    → All (λ s. str_eq s.path k ≡ false) ss
    → SameTables dir (erase k dir) ss
erase-SameTables k dir [] h = tt
erase-SameTables k dir (s ∷ ss) h = (find-erase_ne k s.path dir h.0, erase-SameTables k dir ss h.1)

pub assign-Alike :
    (k c : Bytes) (dir : Dir) (ss : List OpenTable)
    → IsSorted dir
    → IsOther k ss
    → Alike dir (assign k c dir) ss
assign-Alike k c dir ss o h = record {
  ordered = assign-IsSorted k c dir o;
  manifest = find-assign_ne k manifest_name c dir h.no_manifest;
  tables = assign-SameTables k c dir ss h.no_table;
  segments = select-assign_out is_segment k c dir h.no_segment;
}

pub erase-Alike :
    (k : Bytes) (dir : Dir) (ss : List OpenTable)
    → IsSorted dir
    → IsOther k ss
    → Alike dir (erase k dir) ss
erase-Alike k dir ss o h = record {
  ordered = erase-IsSorted k dir o;
  manifest = find-erase_ne k manifest_name dir h.no_manifest;
  tables = erase-SameTables k dir ss h.no_table;
  segments = select-erase_out is_segment k dir h.no_segment;
}

manifest-ne-wal : (w : ℕ) → str_eq manifest_name (wal_seg_path w) ≡ false
unfolding wal_seg_path str_compare
manifest-ne-wal w = refl

module _ (optimal_bits : ℕ → ℕ) where
  -- A table's name is no segment's.
  pub Tables-ne-wal :
      (w n : ℕ) (dir : Dir) (ss : List OpenTable) (ms : List (OrdMap MemEntry))
      → Tables optimal_bits dir n ss ms
      → All (λ s. str_eq s.path (wal_seg_path w) ≡ false) ss
  Tables-ne-wal w n dir [] ms h = tt
  Tables-ne-wal w n dir (s ∷ ss) [] h = absurd h
  Tables-ne-wal w n dir (s ∷ ss) (m ∷ ms) h =
      (rw h.0.named (sst_path-ne-wal_seg_path h.0.id w), Tables-ne-wal w n dir ss ms h.1)

  module _ (dir dir' : Dir) (gen n : ℕ) (ss : List OpenTable) (ms : List (OrdMap MemEntry))
      (logs : Logs) where
    pub Alike-OnDisk :
        OnDisk optimal_bits dir gen n ss ms logs
        → Alike dir dir' ss
        → OnDisk optimal_bits dir' gen n ss ms logs
    Alike-OnDisk h a = record {
      ordered = a.ordered;
      listed = a.manifest ∙ h.listed;
      gen_fits = h.gen_fits;
      ids_fit = h.ids_fit;
      tables = Tables-SameTables optimal_bits dir dir' n ss ms a.tables h.tables;
      logged = a.segments ∙ h.logged;
      log_fits = h.log_fits;
    }

  module _ (dir : Dir) (gen n w : ℕ) (ss : List OpenTable) (ms : List (OrdMap MemEntry)) (c : Bytes)
      (olds : Logs) where
    written :
        (logs : Logs)
        → OnDisk optimal_bits dir gen n ss ms logs
        → Descending ((w, c) ∷ olds)
        → assign (wal_seg_path w) c (log_entries logs) ≡ log_entries ((w, c) ∷ olds)
        → OnDisk optimal_bits (assign (wal_seg_path w) c dir) gen n ss ms ((w, c) ∷ olds)
    written logs h b e = record {
      ordered = assign-IsSorted (wal_seg_path w) c dir h.ordered;
      listed = find-assign_ne (wal_seg_path w) manifest_name c dir (manifest-ne-wal w) ∙ h.listed;
      gen_fits = h.gen_fits;
      ids_fit = h.ids_fit;
      tables =
          Tables-SameTables optimal_bits dir _ n ss ms
            (assign-SameTables (wal_seg_path w) c dir ss (Tables-ne-wal w n dir ss ms h.tables))
            h.tables;
      logged =
          select-assign_in is_segment (wal_seg_path w) c dir h.ordered (is_segment-wal w)
          ∙ ap (assign (wal_seg_path w) c) h.logged
          ∙ e;
      log_fits = b;
    }

    -- The newest segment is written.
    pub assign_log-OnDisk :
        (old : Bytes)
        → OnDisk optimal_bits dir gen n ss ms ((w, old) ∷ olds)
        → OnDisk optimal_bits (assign (wal_seg_path w) c dir) gen n ss ms ((w, c) ∷ olds)
    assign_log-OnDisk old h =
        written ((w, old) ∷ olds) h h.log_fits
          (assign-assign (wal_seg_path w) c old (log_entries olds))

    -- A segment is created under a greater id.
    pub create_log-OnDisk :
        OnDisk optimal_bits dir gen n ss ms olds
        → w < 2 ^ 64
        → AllUnder w olds
        → OnDisk optimal_bits (assign (wal_seg_path w) c dir) gen n ss ms ((w, c) ∷ olds)
    create_log-OnDisk h b u = written olds h (b, u, h.log_fits) refl

    -- The newest segment is removed.
    pub erase_log-OnDisk :
        OnDisk optimal_bits dir gen n ss ms ((w, c) ∷ olds)
        → OnDisk optimal_bits (erase (wal_seg_path w) dir) gen n ss ms olds
    erase_log-OnDisk h = record {
      ordered = erase-IsSorted (wal_seg_path w) dir h.ordered;
      listed = find-erase_ne (wal_seg_path w) manifest_name dir (manifest-ne-wal w) ∙ h.listed;
      gen_fits = h.gen_fits;
      ids_fit = h.ids_fit;
      tables =
          Tables-SameTables optimal_bits dir _ n ss ms
            (erase-SameTables (wal_seg_path w) dir ss (Tables-ne-wal w n dir ss ms h.tables))
            h.tables;
      logged =
          select-erase is_segment (wal_seg_path w) dir
          ∙ ap (erase (wal_seg_path w)) h.logged
          ∙ erase-assign (wal_seg_path w) c (log_entries olds)
              (find-log_entries w olds h.log_fits.0 h.log_fits.1 h.log_fits.2);
      log_fits = h.log_fits.2;
    }

    -- Under an id above the segments', none is found.
    pub find_no_log :
        OnDisk optimal_bits dir gen n ss ms olds
        → w < 2 ^ 64
        → AllUnder w olds
        → find (wal_seg_path w) dir ≡ none
    find_no_log h b u =
        sym (find-select is_segment (wal_seg_path w) dir ∙ rw (is_segment-wal w))
        ∙ ap (find (wal_seg_path w)) h.logged
        ∙ find-log_entries w olds b u h.log_fits
