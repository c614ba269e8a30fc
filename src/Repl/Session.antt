-- ===== src/Repl/Session.antt =====
-- main of src/main.cpp: from the arguments, over the command loop, to the destructor of the store.
use key_val_store.Base.{ℕ, Option, some, List, [], ◌∷◌, ◌++◌, ltb, if◌then◌else◌, ◌>>=◌}
use key_val_store.Str.{Bytes, str_eq}
use key_val_store.Names.{ascii, decimal}
use key_val_store.Manifest.{Dir}
use key_val_store.Db.{Db, stats}
use key_val_store.Recovery.{open_db, close_db}
use key_val_store.Repl.{repl_options, run_lines}

-- What the directories of the file system hold; one that does not exist holds nothing, since
-- the constructor creates it.
abbrev pub Disk : Type 0
Disk = Bytes → Dir

abbrev pub save : Bytes → Dir → Disk → Disk
save name dir disk = λ n. if str_eq n name then dir else disk n

-- The arguments behind the program's name.
unfoldable pub data_dir : List Bytes → Bytes
data_dir [] = ascii "./kvdata"
data_dir (arg ∷ args) = arg

-- 226, 128, 148 are the bytes of the dash.
unfoldable pub greeting : Bytes → Bytes
greeting dir =
    ascii "kvstore  "
    ++ (226
        ∷ 128
        ∷ 148
        ∷ (ascii "  LSM-tree key-value store"
            ++ (10 ∷ (ascii "data dir : " ++ (dir ++ (10 ∷ 10 ∷ []))))))

unfoldable pub recovery_notice : ℕ → Bytes
recovery_notice n =
    if ltb 0 n
    then ascii "[recovery] replayed " ++ (decimal n ++ (ascii " WAL entries" ++ (10 ∷ [])))
    else []

unfoldable pub opening_text : Bytes → Db → Bytes
opening_text name db =
    greeting name
    ++ (recovery_notice (stats db).wal_replayed
        ++ (ascii "type 'help' for commands" ++ (10 ∷ 10 ∷ [])))

module _ (optimal_bits : ℕ → ℕ) where
  -- The lines of std::cin lead to the disk that the process leaves, and to its output.
  unfoldable pub main : List Bytes → List Bytes → Disk → Option (Disk × Bytes)
  main args lines disk = do
    let name = data_dir args
    db ← open_db optimal_bits repl_options (disk name)
    (db', out) ← run_lines optimal_bits lines db
    dir ← close_db optimal_bits db'
    some (save name dir disk, opening_text name db ++ out)
