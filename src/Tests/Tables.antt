-- ===== src/Tests/Tables.antt =====
-- The theorems on the sorted files and their filters, at a table of two entries.
use key_val_store.Base.{ℕ, ◌+◌, ◌-◌, ◌/◌, ◌^◌, ◌≡◌, ◌≤◌, ◌<◌, refl, some, [], ◌∷◌, All, arith, true}
use key_val_store.Str.{str_compare}
use key_val_store.OrdMap.{find}
use key_val_store.MemTable.{live}
use key_val_store.SsTable.{build, load_meta, lookup, scan_all, add_keys}
use key_val_store.SsTable.Written.{as_entries}
use key_val_store.SsTable.Search.{as_result}
use key_val_store.SsTable.Contract.{loaded, load_meta-build, lookup-build, scan_all-build}
use key_val_store.SsTable.Filter.{may_contain-add_keys}
use key_val_store.Bloom.{BloomFilter, may_contain, probe_positions, next_pow2, fnv1a_a, fnv1a_b}
use key_val_store.Bloom.Pow2.{next_pow2_rounds_up}
use key_val_store.Bloom.Member.{IsSized, probe_positions-InArray}
use key_val_store.Bloom.Distinct.{Distinct, probe_positions-Distinct}
use key_val_store.Tests.Fixtures.{ten_bits, key_a, key_b, old_map, old_map-fits}

load_meta-build_example :
    load_meta ten_bits (build ten_bits old_map) ≡ some (loaded ten_bits old_map)
load_meta-build_example = load_meta-build ten_bits old_map old_map-fits

lookup-build_example :
    lookup key_b (loaded ten_bits old_map) (some (build ten_bits old_map))
    ≡ as_result (find key_b old_map)
lookup-build_example = lookup-build ten_bits old_map key_b old_map-fits

scan_all-build_example :
    scan_all (loaded ten_bits old_map) (some (build ten_bits old_map)) ≡ as_entries old_map
scan_all-build_example = scan_all-build ten_bits old_map old_map-fits

-- A filter of 64 bits, all clear.
abbrev clear_filter : BloomFilter
clear_filter = record { m = 64; bits = 0 ∷ 0 ∷ 0 ∷ 0 ∷ 0 ∷ 0 ∷ 0 ∷ 0 ∷ [] }

clear_filter-IsSized : IsSized clear_filter
clear_filter-IsSized = record { positive = omega arith; word = omega arith; covered = omega arith }

may_contain-add_keys_example : may_contain key_b (add_keys old_map clear_filter) ≡ true
unfolding find str_compare
may_contain-add_keys_example =
    may_contain-add_keys old_map key_b (live (50 ∷ [])) clear_filter clear_filter-IsSized refl

probe_positions-InArray_example : All (λ i. i / 8 < 8) (probe_positions key_a clear_filter)
probe_positions-InArray_example = probe_positions-InArray key_a clear_filter clear_filter-IsSized

next_pow2_rounds_up_example :
    (n : ℕ) × (n ≤ 63) × (next_pow2 96 ≡ 2 ^ n) × (96 ≤ 2 ^ n) × (2 ^ n < 96 + 2 ^ (n - 1))
next_pow2_rounds_up_example = next_pow2_rounds_up 96 (omega arith) (omega arith)

probe_positions-Distinct_example : Distinct (probe_positions key_a clear_filter)
probe_positions-Distinct_example =
    probe_positions-Distinct key_a clear_filter 6 (omega arith) refl (omega arith)

-- The published values of the 64-bit FNV-1a hash of the empty text, of "a" and of "foobar".
fnv1a_a_empty : fnv1a_a [] ≡ 0xcbf29ce484222325
unfolding fnv1a_a
fnv1a_a_empty = refl

fnv1a_a_letter : fnv1a_a (97 ∷ []) ≡ 0xaf63dc4c8601ec8c
unfolding fnv1a_a
fnv1a_a_letter = refl

fnv1a_a_word : fnv1a_a (102 ∷ 111 ∷ 111 ∷ 98 ∷ 97 ∷ 114 ∷ []) ≡ 0x85944171f73967e8
unfolding fnv1a_a
fnv1a_a_word = refl

-- The second hash is the same one with its lowest bit set.
fnv1a_b_letter : fnv1a_b (97 ∷ []) ≡ 0xaf63dc4c8601ec8d
unfolding fnv1a_b
fnv1a_b_letter = refl
