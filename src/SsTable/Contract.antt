-- ===== src/SsTable/Contract.antt =====
-- What a table promises: the file that SSTable::build writes, once opened, answers lookup and
-- scan_all as the map that it was built from.
use mathlib.Core.List.{append_assoc}
use key_val_store.Base.{
  ℕ, zero, suc, ◌+◌, ◌/◌, ◌%◌, ◌^◌, ◌≤◌, ◌<◌, ◌≡◌, refl, ap, ◌∙◌, sym, true, false, Option, none,
  some, List, [], ◌∷◌, ◌++◌, length, length-append, drop, drop-append, get_elem?, All, arith,
  Bool-cases, Option-cases, ℕ-cases, inl, inr, ◌==◌,
}
use key_val_store.Str.{Bytes}
use key_val_store.OrdMap.{OrdMap, IsSorted, find}
use key_val_store.MemTable.{MemEntry}
use key_val_store.Bloom.{BloomFilter, fresh, may_contain}
use key_val_store.SsTable.{
  IndexPoint, SsTable, not_found, index_stride, entry_bytes, add_keys, write_entries, bloom_section,
  sections, build, load_meta, upper_bound, scan_from, scan_loop, lookup, scan_all,
}
use key_val_store.SsTable.Written.{
  EntriesFit, rows, write_entries-rows, AtRows, length-rows-ge, as_entries, scan_all_loop-rows,
}
use key_val_store.SsTable.Footer.{PointFits, IsStored, length-bloom_section, load_meta-sections}
use key_val_store.SsTable.Search.{
  as_result, scan_loop-rows, Start, upper_bound-Start, upper_bound-zero,
}
use key_val_store.SsTable.Filter.{
  add_keys-shape, may_contain-add_keys, fresh_bits_power, fresh-shape, fresh-IsSized,
}

rows-append : (a b : OrdMap MemEntry) → rows (a ++ b) ≡ rows a ++ rows b
unfolding rows
rows-append [] b = refl
rows-append ((k, e) ∷ a) b =
    ap (λ t. entry_bytes k e ++ t) (rows-append a b)
    ∙ sym (append_assoc (entry_bytes k e) (rows a) (rows b))

IsSorted-after : (a b : OrdMap MemEntry) → IsSorted (a ++ b) → IsSorted b
IsSorted-after [] b h = h
IsSorted-after ((k, e) ∷ a) b h = IsSorted-after a b h.1

EntriesFit-after : (a b : OrdMap MemEntry) → EntriesFit (a ++ b) → EntriesFit b
EntriesFit-after [] b h = h
EntriesFit-after ((k, e) ∷ a) b h = EntriesFit-after a b h.2

points_fit :
    (n pos : ℕ) (m : OrdMap MemEntry) → EntriesFit m → All PointFits (write_entries n pos m).1
unfolding write_entries
points_fit n pos [] h = tt
points_fit n pos ((k, e) ∷ m) h = elim (Bool-cases (n % index_stride == 0)) [
  | inl stride ↦ rw stride (
    record { key = h.0; offset = omega arith },
    points_fit (n + 1) (pos + length (entry_bytes k e)) m h.2,
  )
  | inr between ↦ rw between (points_fit (n + 1) (pos + length (entry_bytes k e)) m h.2)
]

length-points : (n pos : ℕ) (m : OrdMap MemEntry) → length (write_entries n pos m).1 ≤ length m
unfolding write_entries
length-points n pos [] = omega arith
length-points n pos ((k, e) ∷ m) =
    ground (arith, length-points (n + 1) (pos + length (entry_bytes k e)) m)

module _ (optimal_bits : ℕ → ℕ) where
  -- What build accepts: the 32-bit length fields, the `int` counter and the 64-bit offsets hold.
  pub record TableFits (m : OrdMap MemEntry) : Type 0 where
    pub sorted : IsSorted m
    pub entries : EntriesFit m
    pub filter : optimal_bits (length m) ≤ 2 ^ 31
    pub count : length m < 2 ^ 31
    pub size : length (rows m) < 2 ^ 62

  abbrev pub filter_of : OrdMap MemEntry → BloomFilter
  filter_of m = add_keys m (fresh optimal_bits (length m))

  -- The object that opening the file gives.
  abbrev pub loaded : OrdMap MemEntry → SsTable
  loaded m = record {
    index = (write_entries 0 0 m).1;
    bloom_offset = length (rows m);
    index_offset = length (rows m) + length (bloom_section (filter_of m));
    bloom = filter_of m;
  }

  filter_of-IsStored : (m : OrdMap MemEntry) → TableFits m → IsStored (filter_of m)
  filter_of-IsStored m h =
      let (k, a, b, c, d) = fresh_bits_power optimal_bits (length m) h.filter in
      let (e, l) = fresh-shape optimal_bits (length m) h.filter in
      let (e', l') = add_keys-shape m (fresh optimal_bits (length m)) in
      record {
        width = k;
        small = a;
        power = e' ∙ (e ∙ b);
        bound = omega (arith, e', e, d);
        array = l' ∙ (l ∙ ap (λ (t : ℕ). (t + 7) / 8) (sym (e' ∙ e)));
      }

  unfoldable tail_of : OrdMap MemEntry → Bytes
  tail_of m = sections (length (rows m)) (filter_of m) (write_entries 0 0 m).1

  build-parts : (m : OrdMap MemEntry) → build optimal_bits m ≡ rows m ++ tail_of m
  unfolding build tail_of
  build-parts m = rw (write_entries-rows 0 0 m)

  -- For entries in key order that fit the file's fields, opening the file that build wrote
  -- succeeds, with the index, the offsets and the filter that build computed.
  pub load_meta-build :
      (m : OrdMap MemEntry)
      → TableFits m
      → load_meta optimal_bits (build optimal_bits m) ≡ some (loaded m)
  unfolding tail_of
  load_meta-build m h =
      let stored = filter_of-IsStored m h in
      rw build-parts (
        load_meta-sections optimal_bits (rows m) (filter_of m) (write_entries 0 0 m).1 stored
          (omega (arith, length-points 0 0 m, h.count)) (points_fit 0 0 m h.entries)
          (omega (arith, h.size, length-bloom_section (filter_of m), stored.array, stored.bound)))

  at_rows :
      (before after : OrdMap MemEntry)
      → TableFits (before ++ after)
      → AtRows
          (length (rows (before ++ after)))
          (length (rows (before ++ after) ++ tail_of (before ++ after)))
          after
          (tail_of (before ++ after))
  at_rows before after h = record {
    fits = EntriesFit-after before after h.entries;
    ends = length-append (rows (before ++ after)) (tail_of (before ++ after));
    left = omega (
      arith,
      length-append (rows (before ++ after)) (tail_of (before ++ after)),
      length-append (rows after) (tail_of (before ++ after)),
      ap length (rows-append before after),
      length-append (rows before) (rows after),
    );
  }

  -- For entries in key order that fit the file's fields, scan_all of the file that build wrote
  -- returns them all, in order.
  pub scan_all-build :
      (m : OrdMap MemEntry)
      → TableFits m
      → scan_all (loaded m) (some (build optimal_bits m)) ≡ as_entries m
  unfolding scan_all
  scan_all-build m h = rw build-parts (
      scan_all_loop-rows (length (rows m ++ tail_of m)) (length (rows m))
        (length (rows m ++ tail_of m)) m (tail_of m)
        (omega (arith, length-append (rows m) (tail_of m), length-rows-ge m)) (at_rows [] m h))

  drop-before :
      (before after : OrdMap MemEntry) (tail : Bytes)
      → drop (length (rows before)) (rows (before ++ after) ++ tail) ≡ rows after ++ tail
  drop-before before after tail =
      rw (rows-append before after, append_assoc) (drop-append (rows before) (rows after ++ tail))

  scan_rows :
      (before after : OrdMap MemEntry) (key : Bytes)
      → TableFits (before ++ after)
      → (let file = rows (before ++ after) ++ tail_of (before ++ after) in
          let src = drop (length (rows before)) file in
          scan_loop (length src) key (length (rows (before ++ after))) (length file) src)
        ≡ as_result (find key after)
  scan_rows before after key h =
      let tail = tail_of (before ++ after) in
      rw (drop-before before after tail) (
        scan_loop-rows (length (rows after ++ tail)) (length (rows (before ++ after)))
          (length (rows (before ++ after) ++ tail)) key after tail
          (omega (arith, length-append (rows after) tail, length-rows-ge after))
          (IsSorted-after before after h.sorted) (at_rows before after h))

  scan_rows_of :
      (m before after : OrdMap MemEntry) (key : Bytes) (off : ℕ)
      → TableFits m
      → m ≡ before ++ after
      → off ≡ length (rows before) % 2 ^ 64
      → (let file = rows m ++ tail_of m in
          let src = drop off file in scan_loop (length src) key (length (rows m)) (length file) src)
        ≡ as_result (find key after)
  scan_rows_of m before after key off h e o =
      let o' : off ≡ length (rows before) = omega (
        arith,
        o,
        h.size,
        ap (λ (t : OrdMap MemEntry). length (rows t)) e,
        ap length (rows-append before after),
        length-append (rows before) (rows after),
      ) in
      rw (o', e) (scan_rows before after key (rw e at h))

  scan_from-Start :
      (m : OrdMap MemEntry) (key : Bytes) (p : Option IndexPoint)
      → TableFits m
      → Start 0 m key p
      → scan_from key (loaded m) (some (rows m ++ tail_of m)) p ≡ as_result (find key m)
  unfolding scan_from
  scan_from-Start m key p h s =
      rw (s.chosen, s.same)
        (scan_rows_of m s.before s.after key s.point.offset h s.split
          (s.at ∙ ap (λ (t : ℕ). t % 2 ^ 64) (omega arith)))

  denied :
      (m : OrdMap MemEntry) (key : Bytes)
      → TableFits m
      → may_contain key (filter_of m) ≡ false
      → find key m ≡ none
  denied m key h no_bit = elim (Option-cases (find key m)) [
    | inl absent ↦ absent
    | inr (e, present) ↦ cc (
        may_contain-add_keys m key e (fresh optimal_bits (length m))
          (fresh-IsSized optimal_bits (length m) h.filter) present)
  ]

  upper_bound-nil : (key : Bytes) (i : ℕ) → upper_bound key [] ≡ suc i → ⊥
  unfolding upper_bound
  upper_bound-nil key i h = omega arith

  look_denied :
      (key : Bytes) (t : SsTable) (file : Option Bytes)
      → may_contain key t.bloom ≡ false
      → lookup key t file ≡ not_found
  unfolding lookup
  look_denied key t file b = rw b

  look_zero :
      (key : Bytes) (t : SsTable) (file : Option Bytes)
      → upper_bound key t.index ≡ 0
      → lookup key t file ≡ not_found
  unfolding lookup
  look_zero key t file u = ground arith

  look :
      (key : Bytes) (t : SsTable) (file : Option Bytes) (i : ℕ)
      → may_contain key t.bloom ≡ true
      → upper_bound key t.index ≡ suc i
      → lookup key t file ≡ scan_from key t file (get_elem? t.index i)
  unfolding lookup
  look key t file i b u = rw b (by_index t.index u)
    where
      by_index :
          (index : List IndexPoint)
          → upper_bound key index ≡ suc i
          → (elim index [
            | [] ↦ not_found
            | _ ↦ elim (upper_bound key t.index) [
              | zero ↦ not_found
              | suc j ↦ scan_from key t file (get_elem? t.index j)
            ]
          ])
            ≡ scan_from key t file (get_elem? t.index i)
      by_index [] w = absurd (upper_bound-nil key i w)
      by_index (p ∷ ps) w = rw u

  -- For entries in key order that fit the file's fields, lookup in the file that build wrote is a
  -- lookup in the entries: a live entry is found with its value, a tombstone is reported as one,
  -- and a key that they lack is not found.
  pub lookup-build :
      (m : OrdMap MemEntry) (key : Bytes)
      → TableFits m
      → lookup key (loaded m) (some (build optimal_bits m)) ≡ as_result (find key m)
  lookup-build m key h = elim (Bool-cases (may_contain key (filter_of m))) [
    | inl maybe ↦ elim (ℕ-cases (upper_bound key (write_entries 0 0 m).1)) [
      | inl z ↦
          rw (upper_bound-zero 0 m key h.sorted z)
            (look_zero key (loaded m) (some (build optimal_bits m)) z)
      | inr (i, u) ↦
          look key (loaded m) (some (build optimal_bits m)) i maybe u
          ∙ rw build-parts (
              scan_from-Start m key (get_elem? (write_entries 0 0 m).1 i) h
                (upper_bound-Start 0 0 m key i h.sorted u))
    ]
    | inr never ↦
        rw (denied m key h never) (look_denied key (loaded m) (some (build optimal_bits m)) never)
  ]
