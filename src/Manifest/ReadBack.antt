-- ===== src/Manifest/ReadBack.antt =====
-- Manifest::read of what Manifest::write wrote, and of lines that it does not know.
use mathlib.Core.List.{append_assoc, append-nil}
use key_val_store.Base.{
  ℕ, ◌^◌, ◌<◌, ◌≡◌, refl, ◌∙◌, false, some, List, [], ◌∷◌, ◌++◌, All, All-append, arith, ◌>>=◌,
  Option-cases, inl, inr,
}
use key_val_store.Str.{Bytes}
use key_val_store.OrdMap.{find, assign, erase}
use key_val_store.OrdMap.Laws.{find-assign_self}
use key_val_store.Text.{lines, starts_with}
use key_val_store.Text.Lines.{OneLine, lines-append}
use key_val_store.Names.{ascii, decimal, manifest_name, manifest_tmp_name}
use key_val_store.Names.Parsed.{decimal-OneLine, stoull-decimal}
use key_val_store.Manifest.{
  Dir, ManifestData, rename, file_lines, manifest_text, write, read_line, read_lines, read,
}

-- What a MANIFEST can hold: a 64-bit generation, and names without line feeds.
pub record Writable (d : ManifestData) : Type 0 where
  pub generation_fits : d.generation < 2 ^ 64
  pub one_line : All OneLine d.live_sstables

-- The line in front of a text is read, and then the text.
read_lines-append :
    (l s : Bytes) (d : ManifestData)
    → OneLine l
    → read_lines (lines (l ++ (10 ∷ s))) d ≡ (read_line l d >>= read_lines (lines s))
unfolding read_lines
read_lines-append l s d h = rw (lines-append l s h)

read_line_file :
    (name : Bytes) (d : ManifestData)
    → read_line (ascii "file " ++ name) d
      ≡ some (record d { live_sstables = d.live_sstables ++ (name ∷ []) })
unfolding read_line starts_with
read_line_file name d = refl

read_line_generation :
    (n : ℕ) (d : ManifestData)
    → n < 2 ^ 64
    → read_line (ascii "generation " ++ decimal n) d ≡ some (record d { generation = n })
unfolding read_line starts_with
read_line_generation n d h = rw (stoull-decimal n h)

read_file_lines :
    (names : List Bytes) (d : ManifestData)
    → All OneLine names
    → read_lines (lines (file_lines names)) d
      ≡ some (record d { live_sstables = d.live_sstables ++ names })
unfolding file_lines
read_file_lines [] d h = unfold lines read_lines in rw append-nil
read_file_lines (s ∷ ss) d h = rw (← append_assoc (ascii "file ") s (10 ∷ file_lines ss)) (
    read_lines-append (ascii "file " ++ s) (file_lines ss) d
      (All-append _ (ascii "file ") s (refl, (refl, (refl, (refl, (refl, tt))))) h.0)
    ∙ rw (read_line_file s d) (
        read_file_lines ss (record d { live_sstables = d.live_sstables ++ (s ∷ []) }) h.1
        ∙ rw append_assoc))

generation_prefix : OneLine (ascii "generation ")
generation_prefix = ground arith

-- A MANIFEST that holds the text of writable data is read as these.
pub read-manifest_text :
    (d : ManifestData) (dir : Dir)
    → Writable d
    → find manifest_name dir ≡ some (manifest_text d)
    → read dir ≡ some d
unfolding read manifest_text
read-manifest_text d dir w h = rw h (
    rw
      (← append_assoc (ascii "generation ") (decimal d.generation)
        (10 ∷ file_lines d.live_sstables))
      (read_lines-append (ascii "generation " ++ decimal d.generation) (file_lines d.live_sstables)
          _
          (All-append _ (ascii "generation ") (decimal d.generation) generation_prefix
            (decimal-OneLine d.generation))
        ∙ rw (read_line_generation d.generation _ w.generation_fits)
            (read_file_lines d.live_sstables _ w.one_line)))

-- A rename moves what stood under the old name.
pub find-rename :
    (old new c : Bytes) (dir : Dir) → find old dir ≡ some c → find new (rename old new dir) ≡ some c
unfolding rename
find-rename old new c dir h = rw (h, rename) (find-assign_self new c (erase old dir))

-- Whatever stood there before, the MANIFEST holds the text that write wrote.
pub find-write_manifest :
    (d : ManifestData) (dir : Dir) → find manifest_name (write d dir) ≡ some (manifest_text d)
unfolding write
find-write_manifest d dir =
    find-rename manifest_tmp_name manifest_name (manifest_text d) _
      (find-assign_self manifest_tmp_name (manifest_text d) dir)

-- The two calls of write, as changes of the map.
pub write_lem :
    (d : ManifestData) (dir : Dir)
    → write d dir
      ≡ assign manifest_name
          (manifest_text d)
          (erase manifest_tmp_name (assign manifest_tmp_name (manifest_text d) dir))
unfolding write rename
write_lem d dir = rw (find-assign_self manifest_tmp_name (manifest_text d) dir, rename)

-- Manifest::read gives back what Manifest::write wrote, for a 64-bit generation and names without
-- line feeds, whatever the directory held before.
pub read-write : (d : ManifestData) (dir : Dir) → Writable d → read (write d dir) ≡ some d
read-write d dir w = read-manifest_text d (write d dir) w (find-write_manifest d dir)

-- A line that begins with neither prefix changes nothing, wherever it stands among the others.
pub read_lines_unknown :
    (before after : List Bytes) (line : Bytes) (d : ManifestData)
    → starts_with (ascii "generation ") line ≡ false
    → starts_with (ascii "file ") line ≡ false
    → read_lines (before ++ (line ∷ after)) d ≡ read_lines (before ++ after) d
unfolding read_lines
read_lines_unknown [] after line d g f = unfold read_line in rw (g, f)
read_lines_unknown (l ∷ before) after line d g f = elim (Option-cases (read_line l d)) [
  | inl e ↦ rw e
  | inr (d', e) ↦ rw e (read_lines_unknown before after line d' g f)
]
