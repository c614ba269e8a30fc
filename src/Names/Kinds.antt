-- ===== src/Names/Kinds.antt =====
-- How DB::recover tells the files of a directory apart.
use mathlib.Core.List.{append-nil}
use key_val_store.Base.{
  ◌≢◌, ap, sym, Bool-cases, inl, inr, some-inj, ℕ, ◌^◌, ◌<◌, ◌≡◌, refl, ◌∙◌, true, false, Bool,
  some, [], ◌∷◌, ◌++◌, arith, ◌&&◌, not,
}
use key_val_store.Str.{Bytes, str_compare, str_eq}
use key_val_store.Str.Order.{str_eq_iff}
use key_val_store.Text.{substr, starts_with}
use key_val_store.Names.{
  ascii, padded, sst_path, wal_seg_path, done_path, manifest_name, manifest_tmp_name, last_dot,
  stem, extension, is_sealed, is_table, is_segment, file_id,
}
use key_val_store.Names.Parsed.{stoull-padded}

&&-left : (a b : Bool) → (a && b) ≡ true → a ≡ true
&&-left a b h = ground arith

last_dot-append :
    (s t a b : Bytes) → last_dot t ≡ some (a, b) → last_dot (s ++ t) ≡ some (s ++ a, b)
unfolding last_dot
last_dot-append [] t a b h = h
last_dot-append (c ∷ s) t a b h = rw (last_dot-append s t a b h)

-- A name whose last dot stands behind a first byte is cut there.
cut_name :
    (name : Bytes) (c : ℕ) (before dotted : Bytes)
    → last_dot name ≡ some (c ∷ before, dotted)
    → str_eq name (ascii "..") ≡ false
    → (stem name ≡ c ∷ before) × (extension name ≡ dotted)
unfolding stem extension
cut_name name c before dotted h d = (rw (h, stem) (rw d), rw (h, extension) (rw d))

dot_sst : last_dot (ascii ".sst") ≡ some ([], ascii ".sst")
unfolding last_dot
dot_sst = refl

dot_log : last_dot (ascii ".log") ≡ some ([], ascii ".log")
unfolding last_dot
dot_log = refl

dot_done : last_dot (ascii ".done") ≡ some ([], ascii ".done")
unfolding last_dot
dot_done = refl

module _ (id : ℕ) where
  number_dot :
      (e : Bytes) → last_dot e ≡ some ([], e) → last_dot (padded id ++ e) ≡ some (padded id, e)
  number_dot e h = last_dot-append (padded id) e [] e h ∙ rw append-nil

  sst_cut :
      (stem (sst_path id) ≡ ascii "sst_" ++ padded id) × (extension (sst_path id) ≡ ascii ".sst")
  unfolding sst_path str_compare
  sst_cut =
      cut_name (sst_path id) 115 _ (ascii ".sst")
        (last_dot-append (ascii "sst_") _ (padded id) (ascii ".sst")
          (number_dot (ascii ".sst") dot_sst))
        refl

  wal_cut :
      (stem (wal_seg_path id) ≡ ascii "wal_" ++ padded id)
      × (extension (wal_seg_path id) ≡ ascii ".log")
  unfolding wal_seg_path str_compare
  wal_cut =
      cut_name (wal_seg_path id) 119 _ (ascii ".log")
        (last_dot-append (ascii "wal_") _ (padded id) (ascii ".log")
          (number_dot (ascii ".log") dot_log))
        refl

  done_cut : (stem (done_path id) ≡ wal_seg_path id) × (extension (done_path id) ≡ ascii ".done")
  unfolding done_path wal_seg_path str_compare
  done_cut =
      cut_name (done_path id) 119 _ (ascii ".done")
        (last_dot-append (wal_seg_path id) (ascii ".done") [] (ascii ".done") dot_done
          ∙ rw append-nil)
        refl

  pub is_table-sst : is_table (sst_path id) ≡ true
  unfolding is_table str_compare
  is_table-sst = rw (sst_cut.1)

  pub is_table-wal : is_table (wal_seg_path id) ≡ false
  unfolding is_table str_compare
  is_table-wal = rw (wal_cut.1)

  pub is_table-done : is_table (done_path id) ≡ false
  unfolding is_table str_compare
  is_table-done = rw (done_cut.1)

  pub is_segment-sst : is_segment (sst_path id) ≡ false
  unfolding is_segment str_compare
  is_segment-sst = rw (sst_cut.1)

  pub is_segment-wal : is_segment (wal_seg_path id) ≡ true
  unfolding is_segment str_compare starts_with
  is_segment-wal = rw (wal_cut.0, wal_cut.1)

  pub is_segment-done : is_segment (done_path id) ≡ false
  unfolding is_segment str_compare
  is_segment-done = rw (done_cut.1)

  pub is_sealed-sst : is_sealed (sst_path id) ≡ false
  unfolding is_sealed str_compare
  is_sealed-sst = rw (sst_cut.1)

  pub is_sealed-wal : is_sealed (wal_seg_path id) ≡ false
  unfolding is_sealed str_compare
  is_sealed-wal = rw (wal_cut.1)

  pub is_sealed-done : is_sealed (done_path id) ≡ true
  unfolding is_sealed str_compare
  is_sealed-done = rw (done_cut.1) (rw (done_cut.0, wal_cut.1))

  -- The id that recovery takes from a table's name is the 64-bit id for which the name was
  -- printed.
  pub file_id-sst_path : id < 2 ^ 64 → file_id (sst_path id) ≡ some id
  unfolding file_id substr
  file_id-sst_path h = rw (sst_cut.0) (ground (arith, stoull-padded id h))

  pub file_id-wal_seg_path : id < 2 ^ 64 → file_id (wal_seg_path id) ≡ some id
  unfolding file_id substr
  file_id-wal_seg_path h = rw (wal_cut.0) (ground (arith, stoull-padded id h))

-- The kinds of files exclude one another.
pub segment_not_sealed : (name : Bytes) → is_segment name ≡ true → not (is_sealed name) ≡ true
unfolding is_segment is_sealed str_compare
segment_not_sealed name h =
    let e : extension name ≡ ascii ".log" = (str_eq_iff _ _).0 (&&-left _ _ h) in rw e

pub segment_not_table : (name : Bytes) → is_segment name ≡ true → is_table name ≡ false
unfolding is_segment is_table str_compare
segment_not_table name h =
    let e : extension name ≡ ascii ".log" = (str_eq_iff _ _).0 (&&-left _ _ h) in rw e

pub is_sealed-manifest : is_sealed manifest_name ≡ false
unfolding is_sealed extension last_dot str_compare
is_sealed-manifest = refl

pub is_table-manifest : is_table manifest_name ≡ false
unfolding is_table extension last_dot str_compare
is_table-manifest = refl

pub is_segment-manifest : is_segment manifest_name ≡ false
unfolding is_segment extension last_dot str_compare
is_segment-manifest = refl

pub is_segment-manifest_tmp : is_segment manifest_tmp_name ≡ false
unfolding is_segment extension last_dot str_compare
is_segment-manifest_tmp = refl

-- The MANIFEST's name, and that of its replacement, against the others.
pub manifest-ne-sst : (id : ℕ) → str_eq manifest_name (sst_path id) ≡ false
unfolding sst_path str_compare
manifest-ne-sst id = refl

pub manifest-ne-done : (id : ℕ) → str_eq manifest_name (done_path id) ≡ false
unfolding done_path wal_seg_path str_compare
manifest-ne-done id = refl

pub manifest-ne-tmp : str_eq manifest_name manifest_tmp_name ≡ false
unfolding str_compare
manifest-ne-tmp = refl

-- Segments with different ids have different names.
pub wal_seg_path-ne :
    (i j : ℕ) → i < 2 ^ 64 → j < 2 ^ 64 → i ≢ j → str_eq (wal_seg_path i) (wal_seg_path j) ≡ false
wal_seg_path-ne i j p q h = elim (Bool-cases (str_eq (wal_seg_path i) (wal_seg_path j))) [
  | inl same ↦ absurd (
      h (
        some-inj i j (
          sym (file_id-wal_seg_path i p)
          ∙ ap file_id ((str_eq_iff (wal_seg_path i) (wal_seg_path j)).0 same)
          ∙ file_id-wal_seg_path j q)))
  | inr differ ↦ differ
]
