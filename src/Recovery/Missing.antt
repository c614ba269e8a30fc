-- ===== src/Recovery/Missing.antt =====
-- Step 3 of DB::recover when a table that the MANIFEST lists is gone.
use key_val_store.Base.{
  ℕ, ◌≡◌, refl, ◌∙◌, none, some, inl, inr, List, [], ◌∷◌, ◌++◌, arith, add64, Option-cases,
}
use key_val_store.Str.{Bytes}
use key_val_store.OrdMap.{OrdMap, find, erase}
use key_val_store.OrdMap.Select.{find-select}
use key_val_store.Names.{file_id, manifest_name, manifest_tmp_name}
use key_val_store.Manifest
use key_val_store.Manifest.{Dir, ManifestData, manifest_text}
use key_val_store.Manifest.ReadBack.{Writable, read-manifest_text}
use key_val_store.Recovery.OnDisk.{find-remove_leftovers}
use key_val_store.Names.Kinds.{is_sealed-manifest, manifest-ne-tmp}
use key_val_store.Db.{Options, open_table}
use key_val_store.Recovery.{max, remove_leftovers, load_listed, load_tables, recover, open_db}

find-erase-none : (k j : Bytes) (m : OrdMap Bytes) → find j m ≡ none → find j (erase k m) ≡ none
unfolding find erase
find-erase-none k j [] h = refl
find-erase-none k j ((i, w) ∷ m) h = ground (arith, h, find-erase-none k j m)

find-remove_leftovers-none :
    (name : Bytes) (dir : Dir) → find name dir ≡ none → find name (remove_leftovers dir) ≡ none
unfolding remove_leftovers
find-remove_leftovers-none name dir h =
    find-select _ name (erase manifest_tmp_name dir)
    ∙ ground (arith, find-erase-none manifest_tmp_name name dir h)

module _ (optimal_bits : ℕ → ℕ) where
  -- The loop stops at the table, if at no earlier one.
  load_listed-missing :
      (before after : List Bytes) (name : Bytes) (dir : Dir) (next : ℕ)
      → find name dir ≡ none
      → load_listed optimal_bits (before ++ (name ∷ after)) dir next ≡ none
  unfolding load_listed open_table
  load_listed-missing [] after name dir next h = elim (Option-cases (file_id name)) [
    | inl e ↦ rw e refl
    | inr (id, e) ↦ rw (e, h) refl
  ]
  load_listed-missing (n ∷ before) after name dir next h = elim (Option-cases (file_id n)) [
    | inl e ↦ rw e refl
    | inr (id, e) ↦ elim (Option-cases (open_table optimal_bits n dir)) [
      | inl f ↦ rw (e, f) refl
      | inr (t, f) ↦
          rw (e, f, load_listed-missing before after name dir (max next (add64 id 1)) h) refl
    ]
  ]

  -- If the MANIFEST has a 64-bit generation and names without line feeds, and lists a table whose
  -- file is not in the directory, opening the store fails, whatever else the directory holds.
  pub open_db-missing :
      (opts : Options) (dir : Dir) (d : ManifestData) (before after : List Bytes) (name : Bytes)
      → Writable d
      → find manifest_name dir ≡ some (manifest_text d)
      → d.live_sstables ≡ before ++ (name ∷ after)
      → find name dir ≡ none
      → open_db optimal_bits opts dir ≡ none
  unfolding open_db recover load_tables Manifest.exists
  open_db-missing opts dir d before after name w text listed gone =
      let kept : find manifest_name (remove_leftovers dir) ≡ some (manifest_text d) =
        find-remove_leftovers optimal_bits manifest_name dir is_sealed-manifest manifest-ne-tmp
        ∙ text in
      let back = read-manifest_text d (remove_leftovers dir) w kept in
      let fails =
        load_listed-missing before after name (remove_leftovers dir) 0
          (find-remove_leftovers-none name dir gone) in
      rw (kept, Manifest.exists) (rw (back, listed, fails) refl)
