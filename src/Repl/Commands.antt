-- ===== src/Repl/Commands.antt =====
-- What the commands of the loop do with the store.
use key_val_store.Base.{ℕ, ◌≡◌, refl, List, ◌∙◌, false, some, [], ◌∷◌, ◌++◌, All, arith, ◌>>=◌}
use key_val_store.Str.{Bytes, str_compare}
use key_val_store.Text.{is_space, skip_space}
use key_val_store.Names.{ascii}
use key_val_store.Str.Order.{compare_refl}
use key_val_store.OrdMap.{OrdMap}
use key_val_store.MemTable
use key_val_store.MemTable.{MemEntry}
use key_val_store.Db.{Db, put, get}
use key_val_store.Db.Represents.{Represents}
use key_val_store.Db.Methods.{Room, get-put}
use key_val_store.Repl.{word, read_word, is_empty, says, run_line, shown_value}

-- A word: not empty, and without white space.
abbrev pub IsWord : Bytes → Type 0
IsWord [] = ⊥
IsWord (c ∷ s) = (is_space c ≡ false) × All (λ b. is_space b ≡ false) s

word-append :
    (w rest : Bytes) → All (λ b. is_space b ≡ false) w → word (w ++ (32 ∷ rest)) ≡ (w, 32 ∷ rest)
unfolding word
word-append [] rest h = refl
word-append (c ∷ w) rest h = rw h.0 (rw (word-append w rest h.1))

word_whole : (w : Bytes) → All (λ b. is_space b ≡ false) w → word w ≡ (w, [])
unfolding word
word_whole [] h = refl
word_whole (c ∷ w) h = rw h.0 (rw (word_whole w h.1))

read_word-append : (w rest : Bytes) → IsWord w → read_word (w ++ (32 ∷ rest)) ≡ (w, 32 ∷ rest)
unfolding read_word skip_space
read_word-append [] rest h = absurd h
read_word-append (c ∷ w) rest h = rw h.0 (word-append (c ∷ w) rest h)

read_word_whole : (w : Bytes) → IsWord w → read_word (32 ∷ w) ≡ (w, [])
unfolding read_word skip_space
read_word_whole [] h = absurd h
read_word_whole (c ∷ w) h = rw h.0 (word_whole (c ∷ w) h)

read_word_next : (w rest : Bytes) → IsWord w → read_word (32 ∷ (w ++ (32 ∷ rest))) ≡ (w, 32 ∷ rest)
unfolding read_word skip_space
read_word_next [] rest h = absurd h
read_word_next (c ∷ w) rest h = rw h.0 (word-append (c ∷ w) rest h)

IsWord-not_empty : (w : Bytes) → IsWord w → is_empty w ≡ false
IsWord-not_empty [] h = absurd h
IsWord-not_empty (c ∷ w) h = refl

-- The rest of a line: not empty, and without white space in front.
abbrev pub IsValue : Bytes → Type 0
IsValue [] = ⊥
IsValue (c ∷ s) = is_space c ≡ false

skip_space-IsValue : (v : Bytes) → IsValue v → skip_space (32 ∷ v) ≡ v
unfolding skip_space
skip_space-IsValue [] h = absurd h
skip_space-IsValue (c ∷ v) h = rw h

IsValue-not_empty : (v : Bytes) → IsValue v → is_empty v ≡ false
IsValue-not_empty [] h = absurd h
IsValue-not_empty (c ∷ v) h = refl

module _ (optimal_bits : ℕ → ℕ) where
  pub run_line-put :
      (k v : Bytes) (db : Db)
      → IsWord k
      → IsValue v
      → run_line optimal_bits (ascii "put" ++ (32 ∷ (k ++ (32 ∷ v)))) db
        ≡ (put optimal_bits k v db >>= λ db'. some (says db' (ascii "OK" ++ (10 ∷ []))))
  unfolding run_line str_compare
  run_line-put k v db h g =
      rw (read_word-append (ascii "put") (k ++ (32 ∷ v)) (refl, (refl, (refl, tt)))) (
        rw (read_word_next k v h)
          (rw (skip_space-IsValue v g, IsWord-not_empty k h, IsValue-not_empty v g)))

  pub run_line-get :
      (k : Bytes) (db : Db)
      → IsWord k
      → run_line optimal_bits (ascii "get" ++ (32 ∷ k)) db
        ≡ some (says db (shown_value (get k db) ++ (10 ∷ [])))
  unfolding run_line str_compare
  run_line-get k db h =
      rw (read_word-append (ascii "get") k (refl, (refl, (refl, tt))))
        (rw (read_word_whole k h) (rw (IsWord-not_empty k h)))

  -- In a store that represents the maps `ms` and has room for the tables that the write may
  -- cause, the line of a put with a key without white space and a value that does not begin with
  -- it is answered by OK, and a get of the key in the store that it leads to prints the value.
  pub run_line-put-get :
      (k v : Bytes) (db : Db) (ms : List (OrdMap MemEntry))
      → Represents optimal_bits db ms
      → Room optimal_bits db (MemTable.put k v db.memtable).entries ms
      → IsWord k
      → IsValue v
      → (db' : Db) × (run_line optimal_bits (ascii "put" ++ (32 ∷ (k ++ (32 ∷ v)))) db
          ≡ some (says db' (ascii "OK" ++ (10 ∷ []))))
        × (run_line optimal_bits (ascii "get" ++ (32 ∷ k)) db' ≡ some (says db' (v ++ (10 ∷ []))))
  run_line-put-get k v db ms r room h g =
      let (db', ms', done, holds, view) = get-put optimal_bits k v db ms r room in
      let found : get k db' ≡ some v = ground (arith, view k, compare_refl k) in
      (
        db',
        run_line-put k v db h g ∙ rw done refl,
        run_line-get k db' h ∙ rw found (unfold shown_value in refl),
      )
