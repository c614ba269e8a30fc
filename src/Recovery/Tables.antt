-- ===== src/Recovery/Tables.antt =====
-- Steps 3 and 4 of DB::recover: the tables that the MANIFEST lists are opened, and kept.
use key_val_store.Base.{
  ℕ, ◌≤◌, ◌<◌, ◌^◌, ◌≡◌, refl, ap, sym, ◌∙◌, true, Bool, not, ◌||◌, some, List, [], ◌∷◌, map, arith,
  All, All-weaken, add64,
}
use key_val_store.Str.{Bytes}
use key_val_store.Str.Order.{str_eq_iff}
use key_val_store.OrdMap.{OrdMap, find}
use key_val_store.OrdMap.Select.{find-select}
use key_val_store.MemTable.{MemEntry}
use key_val_store.SsTable.Contract.{load_meta-build}
use key_val_store.Text.Lines.{OneLine}
use key_val_store.Names.{is_table, file_id}
use key_val_store.Names.Parsed.{sst_path-OneLine}
use key_val_store.Names.Kinds.{file_id-sst_path}
use key_val_store.Manifest.{Dir}
use key_val_store.Db.{OpenTable, open_table}
use key_val_store.Db.Represents.{IsTable, Tables}
use key_val_store.Recovery.{max, contains, remove_orphans, load_listed}

abbrev pub paths : List OpenTable → List Bytes
paths = map (λ t. t.path)

-- The directory has the same files for the listed tables.
abbrev pub SameTables : Dir → Dir → List OpenTable → Type 0
SameTables dir dir' = All (λ s. find s.path dir' ≡ find s.path dir)

contains-cons :
    (s : Bytes) (names : List Bytes) (name : Bytes)
    → contains name names ≡ true
    → contains name (s ∷ names) ≡ true
unfolding contains
contains-cons s names name h = ground (arith, h)

contains_head : (s : Bytes) (names : List Bytes) → contains s (s ∷ names) ≡ true
unfolding contains
contains_head s names = ground (arith, str_eq_iff s s)

contains-paths : (ss : List OpenTable) → All (λ s. contains s.path (paths ss) ≡ true) ss
contains-paths [] = tt
contains-paths (s ∷ ss) = (
  contains_head s.path (paths ss),
  All-weaken (λ t. contains-cons s.path (paths ss) t.path) ss (contains-paths ss),
)

kept_by : (t c : Bool) → c ≡ true → (not t || c) ≡ true
kept_by t c h = ground arith

find-remove_orphans :
    (ss : List OpenTable) (dir : Dir) (s : OpenTable)
    → contains s.path (paths ss) ≡ true
    → find s.path (remove_orphans ss dir) ≡ find s.path dir
unfolding remove_orphans
find-remove_orphans ss dir s h =
    find-select (λ name. not (is_table name) || contains name (paths ss)) s.path dir
    ∙ rw (kept_by (is_table s.path) (contains s.path (paths ss)) h)

-- The orphans are removed, and no live table is.
pub remove_orphans-SameTables :
    (ss : List OpenTable) (dir : Dir) → SameTables dir (remove_orphans ss dir) ss
remove_orphans-SameTables ss dir = All-weaken (find-remove_orphans ss dir) ss (contains-paths ss)

module _ (optimal_bits : ℕ → ℕ) where
  pub Tables-SameTables :
      (dir dir' : Dir) (n : ℕ) (ss : List OpenTable) (ms : List (OrdMap MemEntry))
      → SameTables dir dir' ss
      → Tables optimal_bits dir n ss ms
      → Tables optimal_bits dir' n ss ms
  Tables-SameTables dir dir' n [] [] same h = tt
  Tables-SameTables dir dir' n [] (m ∷ ms) same h = h
  Tables-SameTables dir dir' n (s ∷ ss) [] same h = h
  Tables-SameTables dir dir' n (s ∷ ss) (m ∷ ms) same h = (
    record {
      id = h.0.id;
      below = h.0.below;
      named = h.0.named;
      fits = h.0.fits;
      opened = h.0.opened;
      stored =
          ap (λ p. find p dir') (sym h.0.named)
          ∙ same.0
          ∙ ap (λ p. find p dir) h.0.named
          ∙ h.0.stored;
    },
    Tables-SameTables dir dir' n ss ms same.1 h.1,
  )

  -- The names of the tables stand on one line each.
  pub Tables-OneLine :
      (dir : Dir) (n : ℕ) (ss : List OpenTable) (ms : List (OrdMap MemEntry))
      → Tables optimal_bits dir n ss ms
      → All OneLine (paths ss)
  Tables-OneLine dir n [] [] h = tt
  Tables-OneLine dir n [] (m ∷ ms) h = absurd h
  Tables-OneLine dir n (s ∷ ss) [] h = absurd h
  Tables-OneLine dir n (s ∷ ss) (m ∷ ms) h =
      (rw h.0.named (sst_path-OneLine h.0.id), Tables-OneLine dir n ss ms h.1)

  open_table-IsTable :
      (dir : Dir) (n : ℕ) (s : OpenTable) (m : OrdMap MemEntry)
      → IsTable optimal_bits dir n s m
      → open_table optimal_bits s.path dir ≡ some s
  unfolding open_table
  open_table-IsTable dir n s m h =
      rw (ap (λ p. find p dir) h.named ∙ h.stored)
        (rw (load_meta-build optimal_bits m h.fits) (ground (arith, h.opened)))

  -- What the loop over the listed names leads to.
  pub record AllOpened (dir : Dir) (n next next' : ℕ) (ss : List OpenTable)
      (ms : List (OrdMap MemEntry)) : Type 0 where
    pub done : load_listed optimal_bits (paths ss) dir next ≡ some (next', ss)
    pub holds : Tables optimal_bits dir next' ss ms
    pub above : next ≤ next'
    pub within : next' ≤ max next n

  IsTable-below :
      (dir : Dir) (n n' : ℕ) (s : OpenTable) (m : OrdMap MemEntry)
      (h : IsTable optimal_bits dir n s m)
      → h.id < n'
      → IsTable optimal_bits dir n' s m
  IsTable-below dir n n' s m h b = record {
    id = h.id;
    below = b;
    named = h.named;
    fits = h.fits;
    opened = h.opened;
    stored = h.stored;
  }

  -- All listed tables are opened, and the id counter goes above each of them.
  pub load_listed-AllOpened :
      (dir : Dir) (n next : ℕ) (ss : List OpenTable) (ms : List (OrdMap MemEntry))
      → n < 2 ^ 64
      → Tables optimal_bits dir n ss ms
      → (next' : ℕ) × AllOpened dir n next next' ss ms
  unfolding load_listed
  load_listed-AllOpened dir n next [] [] b h =
      (next, record { done = refl; holds = tt; above = omega arith; within = ground arith })
  load_listed-AllOpened dir n next [] (m ∷ ms) b h = absurd h
  load_listed-AllOpened dir n next (s ∷ ss) [] b h = absurd h
  load_listed-AllOpened dir n next (s ∷ ss) (m ∷ ms) b h =
      let t = h.0 in
      let (next', l) = load_listed-AllOpened dir n (max next (add64 t.id 1)) ss ms b h.1 in
      let number : file_id s.path ≡ some t.id =
        ap file_id t.named ∙ file_id-sst_path t.id (omega (arith, t.below)) in
      (
        next',
        record {
          done = rw (number, open_table-IsTable dir n s m t, l.done);
          holds = (IsTable-below dir n next' s m t (ground (arith, l.above, t.below)), l.holds);
          above = ground (arith, l.above);
          within = ground (arith, l.within, t.below);
        },
      )
