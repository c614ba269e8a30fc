-- ===== src/Manifest.antt =====
-- include/manifest.h and src/manifest.cpp: the text file that lists the live tables, and its atomic
-- replacement. A directory is the map from its files' names to their bytes.
pub mod ReadBack
use key_val_store.Base.{
  ℕ, Bool, true, false, Option, none, some, [], List, ◌∷◌, ◌++◌, drop, if◌then◌else◌, ◌>>=◌,
}
use key_val_store.Str.{Bytes}
use key_val_store.Text.{lines, starts_with, stoull}
use key_val_store.OrdMap.{OrdMap, find, assign, erase}
use key_val_store.Names.{ascii, decimal, manifest_name, manifest_tmp_name}

abbrev pub Dir : Type 0
Dir = OrdMap Bytes

-- std::filesystem::rename: the target is replaced; a source that is not there changes nothing.
unfoldable pub rename : Bytes → Bytes → Dir → Dir
rename old new dir = elim (find old dir) [ none ↦ dir | some c ↦ assign new c (erase old dir) ]

pub record ManifestData : Type 0 where
  pub generation : ℕ
  pub live_sstables : List Bytes

unfoldable pub file_lines : List Bytes → Bytes
file_lines [] = []
file_lines (s ∷ ss) = ascii "file " ++ (s ++ (10 ∷ file_lines ss))

-- The text that Manifest::write streams out; 10 is the line feed.
unfoldable pub manifest_text : ManifestData → Bytes
manifest_text d = ascii "generation " ++ (decimal d.generation ++ (10 ∷ file_lines d.live_sstables))

-- Manifest::write
unfoldable pub write : ManifestData → Dir → Dir
write d dir =
    rename manifest_tmp_name manifest_name (assign manifest_tmp_name (manifest_text d) dir)

-- Manifest::exists
unfoldable pub exists : Dir → Bool
exists dir = elim (find manifest_name dir) [ none ↦ false | some c ↦ true ]

-- What one line changes: lines with no known prefix are ignored, and a number that std::stoull
-- refuses throws.
unfoldable pub read_line : Bytes → ManifestData → Option ManifestData
read_line line d =
    if starts_with (ascii "generation ") line
    then stoull (drop 11 line) >>= (λ n. some (record d { generation = n }))
    else if starts_with (ascii "file ") line
    then some (record d { live_sstables = d.live_sstables ++ (drop 5 line ∷ []) })
    else some d

unfoldable pub read_lines : List Bytes → ManifestData → Option ManifestData
read_lines [] d = some d
read_lines (l ∷ ls) d = read_line l d >>= read_lines ls

-- Manifest::read
unfoldable pub read : Dir → Option ManifestData
unfolding read_lines
read dir = do
  text ← find manifest_name dir
  read_lines (lines text) (record { generation = 0; live_sstables = [] })
