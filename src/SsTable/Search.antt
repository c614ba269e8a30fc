-- ===== src/SsTable/Search.antt =====
-- SSTable::lookup in a file that SSTable::build wrote: the index leads in front of the key, and the
-- scan from there finds it.
use key_val_store.Base.{
  ℕ, zero, suc, ◌+◌, ◌%◌, ◌^◌, ◌≤◌, ◌≡◌, refl, ap, ◌∙◌, false, Option, none, some, List, [], ◌∷◌,
  ◌++◌, length, length-append, get_elem?, Ordering, ◌==◌, if◌then◌else◌, arith, inl, inr,
  Bool-cases, ℕ-cases,
}
use key_val_store.Str.{Bytes, str_compare, str_lt}
use key_val_store.Str.Order.{
  compare_refl, eq_of_compare, compare-swap_lt, compare-swap_gt, compare-trans_lt,
}
use key_val_store.OrdMap.{OrdMap, AllAbove, IsSorted, find}
use key_val_store.OrdMap.Laws.{find-AllAbove}
use key_val_store.MemTable.{MemEntry}
use key_val_store.SsTable.{
  IndexPoint, LookupResult, not_found, tombstone, found, index_stride, entry_bytes, write_entries,
  upper_bound, entry_result, scan_loop,
}
use key_val_store.SsTable.Written.{
  rows, flag, AtRows, AtRows-next, more_rows, no_more_rows, read_row,
}

-- What a lookup says of the entry that a map has at the key.
abbrev pub as_result : Option MemEntry → LookupResult
as_result none = not_found
as_result (some e) = if e.tombstone then tombstone else found e.value

flag_result : (e : MemEntry) → entry_result (flag e) e.value ≡ as_result (some e)
flag_result e = ground arith

pub scan_loop-rows :
    (fuel stop size : ℕ) (key : Bytes) (m : OrdMap MemEntry) (tail : Bytes)
    → length m ≤ fuel
    → IsSorted m
    → AtRows stop size m tail
    → scan_loop fuel key stop size (rows m ++ tail) ≡ as_result (find key m)
unfolding find scan_loop
scan_loop-rows zero stop size key [] tail p s h = refl
scan_loop-rows (suc fuel) stop size key [] tail p s h =
    unfold rows in rw (no_more_rows stop size tail h.ends, scan_loop)
scan_loop-rows zero stop size key ((k, e) ∷ m) tail p s h = elim p [ ]
scan_loop-rows (suc fuel) stop size key ((k, e) ∷ m) tail p s h =
    rw (more_rows stop size k e m tail h, scan_loop)
      (rw (read_row k e m tail h.fits.0 h.fits.1) (
        ground (
          arith,
          flag_result e,
          eq_of_compare k key,
          compare_refl key,
          compare-swap_lt k key,
          compare-swap_gt k key,
          find-AllAbove k key m s.0,
          scan_loop-rows fuel stop size key m tail (omega arith) s.1
              (AtRows-next stop size k e m tail h),
        )))

-- A point of the index stands in front of `key`: the entries before it do not hold the key.
pub record Start (pos : ℕ) (m : OrdMap MemEntry) (key : Bytes) (p : Option IndexPoint)
    : Type 0 where
  pub before : OrdMap MemEntry
  pub after : OrdMap MemEntry
  pub point : IndexPoint
  pub split : m ≡ before ++ after
  pub chosen : p ≡ some point
  pub at : point.offset ≡ (pos + length (rows before)) % 2 ^ 64
  pub same : find key m ≡ find key after
  pub reached : (l : Bytes) → AllAbove l m → str_compare l key ≡ Ordering.lt

Start-here :
    (pos : ℕ) (k : Bytes) (e : MemEntry) (m : OrdMap MemEntry) (key : Bytes)
    → str_lt key k ≡ false
    → Start pos ((k, e) ∷ m) key (some (record { key = k; offset = pos % 2 ^ 64 }))
Start-here pos k e m key h = record {
  before = [];
  after = (k, e) ∷ m;
  point = record { key = k; offset = pos % 2 ^ 64 };
  split = refl;
  chosen = refl;
  at = unfold rows in ap (λ (t : ℕ). t % 2 ^ 64) (omega arith);
  same = refl;
  reached = λ l a.
      ground (arith, eq_of_compare key k, compare-swap_gt key k, compare-trans_lt l k key a.0, a.0);
}

Start-later :
    (pos : ℕ) (k : Bytes) (e : MemEntry) (m : OrdMap MemEntry) (key : Bytes) (p : Option IndexPoint)
    → IsSorted ((k, e) ∷ m)
    → Start (pos + length (entry_bytes k e)) m key p
    → Start pos ((k, e) ∷ m) key p
Start-later pos k e m key p s h = record {
  before = (k, e) ∷ h.before;
  after = h.after;
  point = h.point;
  split = ap (λ t. (k, e) ∷ t) h.split;
  chosen = h.chosen;
  at =
      h.at
      ∙ ap (λ (t : ℕ). t % 2 ^ 64)
          (unfold rows in omega (arith, length-append (entry_bytes k e) (rows h.before)));
  same = unfold find in ground (arith, h.same, compare-swap_lt k key, h.reached k s.0);
  reached = λ l a. h.reached l a.1;
}

Start-at_point :
    (pos pos' : ℕ) (k : Bytes) (e : MemEntry) (m : OrdMap MemEntry) (key : Bytes)
    (ps : List IndexPoint) (i : ℕ)
    → IsSorted ((k, e) ∷ m)
    → pos' ≡ pos + length (entry_bytes k e)
    → upper_bound key (record { key = k; offset = pos % 2 ^ 64 } ∷ ps) ≡ suc i
    → ((j : ℕ) → upper_bound key ps ≡ suc j → Start pos' m key (get_elem? ps j))
    → Start pos ((k, e) ∷ m) key (get_elem? (record { key = k; offset = pos % 2 ^ 64 } ∷ ps) i)
unfolding upper_bound
Start-at_point pos pos' k e m key ps i s q h later = elim (Bool-cases (str_lt key k)) [
  | inl above ↦ absurd (ground arith)
  | inr reached ↦ elim (ℕ-cases (upper_bound key ps)) [
    | inl z ↦ let i0 : i ≡ 0 = ground arith in rw i0 (Start-here pos k e m key reached)
    | inr (j, u) ↦
        let ij : i ≡ suc j = ground arith in
        rw ij (Start-later pos k e m key (get_elem? ps j) s (rw q at (later j u)))
  ]
]

-- The point in front of the upper bound is a start for the scan.
pub upper_bound-Start :
    (n pos : ℕ) (m : OrdMap MemEntry) (key : Bytes) (i : ℕ)
    → IsSorted m
    → upper_bound key (write_entries n pos m).1 ≡ suc i
    → Start pos m key (get_elem? (write_entries n pos m).1 i)
unfolding write_entries
upper_bound-Start n pos [] key i s h = unfold upper_bound in absurd (omega arith)
upper_bound-Start n pos ((k, e) ∷ m) key i s h = elim (Bool-cases (n % index_stride == 0)) [
  | inl stride ↦ rw stride (
      Start-at_point pos (pos + length (entry_bytes k e)) k e m key
        (write_entries (n + 1) (pos + length (entry_bytes k e)) m).1 i s refl (rw stride at h)
        (λ j u. upper_bound-Start (n + 1) (pos + length (entry_bytes k e)) m key j s.1 u))
  | inr between ↦ rw between (
      Start-later pos k e m key
        (get_elem? (write_entries (n + 1) (pos + length (entry_bytes k e)) m).1 i) s
        (upper_bound-Start (n + 1) (pos + length (entry_bytes k e)) m key i s.1 (rw between at h)))
]

-- Where no point stands in front of the key, the table does not hold it.
pub upper_bound-zero :
    (pos : ℕ) (m : OrdMap MemEntry) (key : Bytes)
    → IsSorted m
    → upper_bound key (write_entries 0 pos m).1 ≡ 0
    → find key m ≡ none
unfolding write_entries upper_bound find
upper_bound-zero pos [] key s h = refl
upper_bound-zero pos ((k, e) ∷ m) key s h = ground (arith, find-AllAbove k key m s.0)
