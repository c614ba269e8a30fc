-- ===== src/Repl.antt =====
-- The command loop of src/main.cpp: one line of input leads to a new store and to output. The bytes
-- of an output stand for what std::cout gets; `none` is an exception out of the store.
pub mod Commands
pub mod Session
pub mod Sessions
use key_val_store.Base.{
  ℕ, Bool, true, false, Option, none, some, List, [], ◌∷◌, ◌++◌, ◌*◌, ◌||◌, length, if◌then◌else◌,
  ◌>>=◌,
}
use key_val_store.Str.{Bytes, str_eq}
use key_val_store.Text.{is_space, skip_space}
use key_val_store.Names.{ascii, decimal, padded}
use key_val_store.Db.{Options, Db, DbStats, put, get, del, flush_memtable, compact, stats}

-- The word that a stream begins with, and what is left behind it.
abbrev push_letter : ℕ → Bytes × Bytes → Bytes × Bytes
push_letter c (w, rest) = (c ∷ w, rest)

unfoldable pub word : Bytes → Bytes × Bytes
word [] = ([], [])
word (c ∷ s) = if is_space c then ([], c ∷ s) else push_letter c (word s)

-- ss >> token
unfoldable pub read_word : Bytes → Bytes × Bytes
read_word s = word (skip_space s)

abbrev pub is_empty : Bytes → Bool
is_empty [] = true
is_empty (c ∷ s) = false

-- What a line leads to; `goes_on` is false where the loop breaks.
pub record Reply : Type 0 where
  pub db : Db
  pub out : Bytes
  pub goes_on : Bool

abbrev pub says : Db → Bytes → Reply
says db out = record { db = db; out = out; goes_on = true }

-- 226, 134, 146 are the bytes of the arrow.
help_text : Bytes
help_text =
    ascii "  put <key> <value>   write a key"
    ++ (10
        ∷ (ascii "  get <key>           read a key"
            ++ (10
                ∷ (ascii "  del <key>           delete a key"
                    ++ (10
                        ∷ (ascii "  stats               show engine internals"
                            ++ (10
                                ∷ (ascii "  flush               force MemTable "
                                    ++ (226
                                        ∷ 134
                                        ∷ 146
                                        ∷ (ascii " SSTable"
                                            ++ (10
                                                ∷ (ascii
                                                      "  compact             merge all SSTables into one"
                                                    ++ (10
                                                        ∷ (ascii
                                                            "  help                this message"
                                                            ++ (10
                                                            ∷ (ascii "  exit / quit         close"
                                                            ++ (10 ∷ [])))))))))))))))))

stats_text : DbStats → Bytes
stats_text st =
    ascii "memtable : "
    ++ (decimal st.memtable_entries
        ++ (ascii " entries, "
            ++ (decimal st.memtable_bytes
                ++ (ascii " bytes"
                    ++ (10
                        ∷ (ascii "sstables : "
                            ++ (decimal st.sstable_count
                                ++ (ascii " file(s)"
                                    ++ (10
                                        ∷ (ascii "manifest : generation "
                                            ++ (decimal st.manifest_gen
                                                ++ (10
                                                    ∷ (ascii "wal seg  : wal_"
                                                        ++ (padded st.active_wal_id
                                                            ++ (ascii ".log"
                                                            ++ (10
                                                            ∷ (ascii "recovery : "
                                                            ++ (decimal st.wal_replayed
                                                            ++ (ascii " WAL entries replayed"
                                                            ++ (10 ∷ []))))))))))))))))))))

ok_tables : Db → Bytes
ok_tables db =
    ascii "OK  (sstables now: " ++ (decimal (stats db).sstable_count ++ (ascii ")" ++ (10 ∷ [])))

pub shown_value : Option Bytes → Bytes
shown_value none = ascii "(not found)"
shown_value (some v) = v

module _ (optimal_bits : ℕ → ℕ) where
  -- The line has no line feed, so that std::getline takes all that follows the white space.
  put_line : Bytes × Bytes → Db → Option Reply
  put_line (key, rest) db =
      let value = skip_space rest in
      if is_empty key || is_empty value
      then some (says db (ascii "usage: put <key> <value>" ++ (10 ∷ [])))
      else put optimal_bits key value db >>= λ db'. some (says db' (ascii "OK" ++ (10 ∷ [])))

  get_line : Bytes × Bytes → Db → Option Reply
  unfolding shown_value
  get_line (key, rest) db =
      if is_empty key
      then some (says db (ascii "usage: get <key>" ++ (10 ∷ [])))
      else some (says db (shown_value (get key db) ++ (10 ∷ [])))

  del_line : Bytes × Bytes → Db → Option Reply
  del_line (key, rest) db =
      if is_empty key
      then some (says db (ascii "usage: del <key>" ++ (10 ∷ [])))
      else del optimal_bits key db >>= λ db'. some (says db' (ascii "OK" ++ (10 ∷ [])))

  -- The chain of tests on the command's name.
  command : Bytes × Bytes → Db → Option Reply
  unfolding put_line get_line del_line help_text stats_text ok_tables
  command (cmd, rest) db =
      if str_eq cmd (ascii "put")
      then put_line (read_word rest) db
      else if str_eq cmd (ascii "get")
      then get_line (read_word rest) db
      else if str_eq cmd (ascii "del")
      then del_line (read_word rest) db
      else if str_eq cmd (ascii "stats")
      then some (says db (stats_text (stats db)))
      else if str_eq cmd (ascii "flush")
      then flush_memtable optimal_bits db >>= (λ db'. some (says db' (ok_tables db')))
      else if str_eq cmd (ascii "compact")
      then compact optimal_bits db >>= (λ db'. some (says db' (ok_tables db')))
      else if str_eq cmd (ascii "help")
      then some (says db help_text)
      else if str_eq cmd (ascii "exit") || str_eq cmd (ascii "quit")
      then some (record { db = db; out = []; goes_on = false })
      else if is_empty cmd
      then some (says db [])
      else some (says db (ascii "unknown: '" ++ (cmd ++ (ascii "'  (type help)" ++ (10 ∷ [])))))

  -- One round of the loop behind std::getline.
  unfoldable pub run_line : Bytes → Db → Option Reply
  unfolding command
  run_line line db = command (read_word line) db

  -- The loop over the lines of the input, each behind its prompt, up to its end or to `exit`.
  unfoldable pub run_lines : List Bytes → Db → Option (Db × Bytes)
  run_lines [] db = some (db, ascii "> " ++ (10 ∷ (ascii "shutting down..." ++ (10 ∷ []))))
  run_lines (line ∷ lines) db = do
    r ← run_line line db
    elim r.goes_on [
      | true ↦ run_lines lines r.db >>= λ (db', out). some (db', ascii "> " ++ (r.out ++ out))
      | false ↦ some (r.db, ascii "> " ++ (10 ∷ (ascii "shutting down..." ++ (10 ∷ []))))
    ]

-- The options of the command loop.
abbrev pub repl_options : Options
repl_options = record { memtable_flush_bytes = 4 * 1024; compaction_threshold = 4 }
