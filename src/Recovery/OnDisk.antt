-- ===== src/Recovery/OnDisk.antt =====
-- What DB::recover relies on in a directory, and that its first and fourth step leave that alone.
use key_val_store.Base.{ℕ, ◌<◌, ◌^◌, ◌≡◌, ◌∙◌, true, false, not, ◌||◌, some, List, arith}
use key_val_store.Str.{Bytes, str_eq}
use key_val_store.OrdMap.{OrdMap, IsSorted, find, select, erase}
use key_val_store.OrdMap.Laws.{find-erase_ne}
use key_val_store.OrdMap.Select.{
  find-select, select-IsSorted, select-select, select-erase_out, erase-IsSorted,
}
use key_val_store.MemTable.{MemEntry}
use key_val_store.Names.{
  sst_path, is_sealed, is_table, is_segment, manifest_name, manifest_tmp_name,
}
use key_val_store.Names.Distinct.{sst_path-ne-manifest_tmp}
use key_val_store.Names.Kinds.{
  is_sealed-sst, is_sealed-manifest, is_segment-manifest_tmp, segment_not_sealed, segment_not_table,
  is_table-manifest, manifest-ne-tmp,
}
use key_val_store.Manifest.{Dir, ManifestData, manifest_text}
use key_val_store.Db.{OpenTable}
use key_val_store.Db.Represents.{Tables}
use key_val_store.Db.Frame.{Tables-frame}
use key_val_store.Recovery.{contains, remove_leftovers, remove_orphans}
use key_val_store.Recovery.Tables.{paths, remove_orphans-SameTables, Tables-SameTables}
use key_val_store.Recovery.Segments.{Logs, Descending, log_entries}

-- The data of the manifest that lists these tables.
abbrev pub manifest_of : ℕ → List OpenTable → ManifestData
manifest_of gen ss = record { generation = gen; live_sstables = paths ss }

module _ (optimal_bits : ℕ → ℕ) where
  -- The MANIFEST lists the tables `ss`, which hold `ms` under ids below `n`, and the segments
  -- are `logs`, newest first. Files of any other kind, orphans and leftovers may stand there too.
  pub record OnDisk (dir : Dir) (gen n : ℕ) (ss : List OpenTable) (ms : List (OrdMap MemEntry))
      (logs : Logs) : Type 0 where
    pub ordered : IsSorted dir
    pub listed : find manifest_name dir ≡ some (manifest_text (manifest_of gen ss))
    pub gen_fits : gen < 2 ^ 64
    pub ids_fit : n < 2 ^ 64
    pub tables : Tables optimal_bits dir n ss ms
    pub logged : select is_segment dir ≡ log_entries logs
    pub log_fits : Descending logs

  pub find-remove_leftovers :
      (k : Bytes) (dir : Dir)
      → is_sealed k ≡ false
      → str_eq k manifest_tmp_name ≡ false
      → find k (remove_leftovers dir) ≡ find k dir
  unfolding remove_leftovers
  find-remove_leftovers k dir h t =
      find-select (λ name. not (is_sealed name)) k (erase manifest_tmp_name dir)
      ∙ rw h (find-erase_ne manifest_tmp_name k dir t)

  select-remove_leftovers :
      (dir : Dir) → select is_segment (remove_leftovers dir) ≡ select is_segment dir
  unfolding remove_leftovers
  select-remove_leftovers dir =
      select-select is_segment (λ name. not (is_sealed name)) (erase manifest_tmp_name dir)
        segment_not_sealed
      ∙ select-erase_out is_segment manifest_tmp_name dir is_segment-manifest_tmp

  pub remove_leftovers-OnDisk :
      (dir : Dir) (gen n : ℕ) (ss : List OpenTable) (ms : List (OrdMap MemEntry)) (logs : Logs)
      → OnDisk dir gen n ss ms logs
      → OnDisk (remove_leftovers dir) gen n ss ms logs
  remove_leftovers-OnDisk dir gen n ss ms logs h = record {
    ordered =
        unfold remove_leftovers in
        select-IsSorted _ (erase manifest_tmp_name dir)
          (erase-IsSorted manifest_tmp_name dir h.ordered);
    listed = find-remove_leftovers manifest_name dir is_sealed-manifest manifest-ne-tmp ∙ h.listed;
    gen_fits = h.gen_fits;
    ids_fit = h.ids_fit;
    tables =
        Tables-frame optimal_bits dir (remove_leftovers dir) n n ss ms (omega arith)
          (λ i p.
            find-remove_leftovers (sst_path i) dir (is_sealed-sst i) (sst_path-ne-manifest_tmp i))
          h.tables;
    logged = select-remove_leftovers dir ∙ h.logged;
    log_fits = h.log_fits;
  }

  segment_stays :
      (names : List Bytes) (name : Bytes)
      → is_segment name ≡ true
      → (not (is_table name) || contains name names) ≡ true
  segment_stays names name h = rw (segment_not_table name h)

  pub remove_orphans-OnDisk :
      (dir : Dir) (gen n : ℕ) (ss : List OpenTable) (ms : List (OrdMap MemEntry)) (logs : Logs)
      → OnDisk dir gen n ss ms logs
      → OnDisk (remove_orphans ss dir) gen n ss ms logs
  remove_orphans-OnDisk dir gen n ss ms logs h = record {
    ordered = unfold remove_orphans in select-IsSorted _ dir h.ordered;
    listed =
        unfold remove_orphans in find-select _ manifest_name dir ∙ rw is_table-manifest h.listed;
    gen_fits = h.gen_fits;
    ids_fit = h.ids_fit;
    tables =
        Tables-SameTables optimal_bits dir (remove_orphans ss dir) n ss ms
          (remove_orphans-SameTables ss dir) h.tables;
    logged =
        unfold remove_orphans in
        select-select is_segment _ dir (segment_stays (paths ss)) ∙ h.logged;
    log_fits = h.log_fits;
  }
