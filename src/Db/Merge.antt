-- ===== src/Db/Merge.antt =====
-- The merge of compact_locked, as a function of the maps that the tables hold.
use key_val_store.Base.{
  ℕ, ◌≡◌, refl, ap, Option, none, some, List, [], ◌∷◌, arith, if◌then◌else◌, All, Bool-cases, inl,
  inr,
}
use key_val_store.Str.{Bytes}
use key_val_store.Str.Order.{eq_of_compare}
use key_val_store.OrdMap.{OrdMap, AllAbove, IsSorted, find, assign}
use key_val_store.OrdMap.Laws.{find-assign, assign-IsSorted}
use key_val_store.MemTable.{MemEntry, live}
use key_val_store.SsTable.{SstEntry, scan_all}
use key_val_store.SsTable.Written.{as_entries}
use key_val_store.SsTable.Contract.{scan_all-build}
use key_val_store.Manifest.{Dir}
use key_val_store.Db.{OpenTable, merge_entries, merge_tables, clean_entries}
use key_val_store.Db.Represents.{search_maps, IsTable, Tables}

-- The merge of the maps, newest first in the list.
unfoldable pub merge_maps : List (OrdMap MemEntry) → OrdMap SstEntry
merge_maps [] = []
merge_maps (m ∷ ms) = merge_entries (as_entries m) (merge_maps ms)

-- The map that a compaction builds its table from.
unfoldable pub compacted : List (OrdMap MemEntry) → OrdMap MemEntry
compacted ms = clean_entries (merge_maps ms) []

abbrev with_key : Bytes → MemEntry → SstEntry
with_key k e = record { key = k; value = e.value; tombstone = e.tombstone }

-- A key above which every entry lies is not in the map.
absent {ℓ} : {V : Type ℓ} (k : Bytes) (m : OrdMap V) → AllAbove k m → find k m ≡ none
unfolding find
absent k [] h = refl
absent k ((j, v) ∷ m) h = ground (arith, absent k m h.1, h.0)

abbrev over : Bytes → Option MemEntry → Option SstEntry → Option SstEntry
over key none below = below
over key (some e) below = some (with_key key e)

find-merge_entries :
    (key : Bytes) (m : OrdMap MemEntry) (acc : OrdMap SstEntry)
    → IsSorted m
    → find key (merge_entries (as_entries m) acc) ≡ over key (find key m) (find key acc)
unfolding merge_entries find
find-merge_entries key [] acc s = refl
find-merge_entries key ((k, e) ∷ m) acc s = ground (
  arith,
  find-merge_entries key m (assign k (with_key k e) acc) s.1,
  find-assign k key (with_key k e) acc,
  eq_of_compare key k,
  absent k m s.0,
)

merge_entries-IsSorted :
    (es : List SstEntry) (acc : OrdMap SstEntry) → IsSorted acc → IsSorted (merge_entries es acc)
unfolding merge_entries
merge_entries-IsSorted [] acc s = s
merge_entries-IsSorted (e ∷ es) acc s =
    merge_entries-IsSorted es (assign e.key e acc) (assign-IsSorted e.key e acc s)

merge_maps-IsSorted : (ms : List (OrdMap MemEntry)) → IsSorted (merge_maps ms)
unfolding merge_maps
merge_maps-IsSorted [] = tt
merge_maps-IsSorted (m ∷ ms) =
    merge_entries-IsSorted (as_entries m) (merge_maps ms) (merge_maps-IsSorted ms)

-- What a merged entry leaves in the cleaned map over `below`.
abbrev kept : Option SstEntry → Option MemEntry → Option MemEntry
kept none below = below
kept (some e) below = if e.tombstone then below else some (live e.value)

find-clean_entries :
    (key : Bytes) (merged : OrdMap SstEntry) (clean : OrdMap MemEntry)
    → IsSorted merged
    → find key (clean_entries merged clean) ≡ kept (find key merged) (find key clean)
unfolding clean_entries find
find-clean_entries key [] clean s = refl
find-clean_entries key ((k, e) ∷ merged) clean s = elim (Bool-cases e.tombstone) [
  | inl dead ↦ rw dead (
      ground (
        arith,
        dead,
        find-clean_entries key merged clean s.1,
        eq_of_compare key k,
        absent k merged s.0,
      ))
  | inr alive ↦ rw alive (
      ground (
        arith,
        alive,
        find-clean_entries key merged (assign k (live e.value) clean) s.1,
        find-assign k key (live e.value) clean,
        eq_of_compare key k,
        absent k merged s.0,
      ))
]

-- The value that a merged entry shows.
abbrev entry_shown : Option SstEntry → Option Bytes
entry_shown none = none
entry_shown (some e) = if e.tombstone then none else some e.value

search-merge_maps :
    (key : Bytes) (ms : List (OrdMap MemEntry))
    → All (λ m. IsSorted m) ms
    → search_maps key ms ≡ entry_shown (find key (merge_maps ms))
unfolding search_maps merge_maps
search-merge_maps key [] h = unfold find in refl
search-merge_maps key (m ∷ ms) h =
    ground (arith, find-merge_entries key m (merge_maps ms) h.0, search-merge_maps key ms h.1)

-- Merging keeps what a search returns, though it drops every tombstone.
pub search-compacted :
    (key : Bytes) (ms : List (OrdMap MemEntry))
    → All (λ m. IsSorted m) ms
    → search_maps key (compacted ms ∷ []) ≡ search_maps key ms
unfolding compacted
search-compacted key ms h =
    unfold search_maps in
    ground (
      arith,
      search-merge_maps key ms h,
      find-clean_entries key (merge_maps ms) [] (merge_maps-IsSorted ms),
      (let e : find {V = MemEntry} key [] ≡ none = unfold find in refl in e),
    )

module _ (optimal_bits : ℕ → ℕ) where
  pub scan_all-IsTable :
      (dir : Dir) (n : ℕ) (s : OpenTable) (m : OrdMap MemEntry)
      → IsTable optimal_bits dir n s m
      → scan_all s.table (find s.path dir) ≡ as_entries m
  scan_all-IsTable dir n s m h =
      rw (h.named, h.opened, h.stored) (scan_all-build optimal_bits m h.fits)

  pub merge_tables-maps :
      (dir : Dir) (n : ℕ) (ss : List OpenTable) (ms : List (OrdMap MemEntry))
      → Tables optimal_bits dir n ss ms
      → merge_tables dir ss ≡ merge_maps ms
  unfolding merge_tables merge_maps
  merge_tables-maps dir n [] [] h = refl
  merge_tables-maps dir n [] (m ∷ ms) h = absurd h
  merge_tables-maps dir n (s ∷ ss) [] h = absurd h
  merge_tables-maps dir n (s ∷ ss) (m ∷ ms) h =
      rw (scan_all-IsTable dir n s m h.0)
        (ap (merge_entries (as_entries m)) (merge_tables-maps dir n ss ms h.1))

  pub Tables-IsSorted :
      (dir : Dir) (n : ℕ) (ss : List OpenTable) (ms : List (OrdMap MemEntry))
      → Tables optimal_bits dir n ss ms
      → All (λ m. IsSorted m) ms
  Tables-IsSorted dir n [] [] h = tt
  Tables-IsSorted dir n [] (m ∷ ms) h = absurd h
  Tables-IsSorted dir n (s ∷ ss) [] h = absurd h
  Tables-IsSorted dir n (s ∷ ss) (m ∷ ms) h = (h.0.fits.sorted, Tables-IsSorted dir n ss ms h.1)
