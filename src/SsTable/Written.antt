-- ===== src/SsTable/Written.antt =====
-- The data entries that SSTable::build writes, read back one after the other.
use key_val_store.Base.{
  ℕ, zero, suc, ◌+◌, ◌-◌, ◌^◌, ◌≤◌, ◌<◌, ◌≡◌, refl, ap, true, false, some, List, [], ◌∷◌, ◌++◌,
  length, length-append, ltb, lt→ltb, le→ltb, arith, if◌then◌else◌, ◌%◌, ◌==◌,
}
use mathlib.Core.List.{append_assoc}
use key_val_store.Str.{Bytes}
use key_val_store.OrdMap.{OrdMap}
use key_val_store.MemTable.{MemEntry}
use key_val_store.Codec.{wstr}
use key_val_store.Codec.RoundTrip.{rstr-wstr, length-wstr}
use key_val_store.SsTable.{SstEntry, entry_bytes, write_entries, read_entry, scan_all_loop}

-- The lengths of every key and value fit the 32-bit fields.
abbrev pub EntriesFit : OrdMap MemEntry → Type 0
EntriesFit [] = Unit {0}
EntriesFit ((k, e) ∷ m) = (length k < 2 ^ 32) × (length e.value < 2 ^ 32) × EntriesFit m

-- The data section.
unfoldable pub rows : OrdMap MemEntry → Bytes
rows [] = []
rows ((k, e) ∷ m) = entry_bytes k e ++ rows m

pub write_entries-rows : (n pos : ℕ) (m : OrdMap MemEntry) → (write_entries n pos m).0 ≡ rows m
unfolding write_entries rows
write_entries-rows n pos [] = refl
write_entries-rows n pos ((k, e) ∷ m) =
    ap (λ t. entry_bytes k e ++ t) (write_entries-rows (n + 1) (pos + length (entry_bytes k e)) m)

abbrev pub flag : MemEntry → ℕ
flag e = if e.tombstone then 1 else 0

pub read_entry-entry_bytes :
    (k : Bytes) (e : MemEntry) (rest : Bytes)
    → length k < 2 ^ 32
    → length e.value < 2 ^ 32
    → read_entry (entry_bytes k e ++ rest) ≡ some (k, flag e, e.value, rest)
unfolding read_entry entry_bytes
read_entry-entry_bytes k e rest p q =
    rw append_assoc
      (ground (arith, rstr-wstr k (flag e ∷ (wstr e.value ++ rest)), rstr-wstr e.value rest))

pub length-entry_bytes :
    (k : Bytes) (e : MemEntry) → length (entry_bytes k e) ≡ 9 + length k + length e.value
unfolding entry_bytes
length-entry_bytes k e =
    omega
      (arith, length-append (wstr k) (flag e ∷ wstr e.value), length-wstr k, length-wstr e.value)

-- Where a loop over the entries stands: what is left of them, and the sections behind them.
pub record AtRows (stop size : ℕ) (m : OrdMap MemEntry) (tail : Bytes) : Type 0 where
  pub fits : EntriesFit m
  pub ends : size ≡ stop + length tail
  pub left : length (rows m ++ tail) ≤ size

pub AtRows-next :
    (stop size : ℕ) (k : Bytes) (e : MemEntry) (m : OrdMap MemEntry) (tail : Bytes)
    → AtRows stop size ((k, e) ∷ m) tail
    → AtRows stop size m tail
unfolding rows
AtRows-next stop size k e m tail h = record {
  fits = h.fits.2;
  ends = h.ends;
  left = omega (
    arith,
    h.left,
    length-append (entry_bytes k e ++ rows m) tail,
    length-append (entry_bytes k e) (rows m),
    length-append (rows m) tail,
  );
}

-- The test of the loops on ftell64: it holds exactly while entries are left.
pub more_rows :
    (stop size : ℕ) (k : Bytes) (e : MemEntry) (m : OrdMap MemEntry) (tail : Bytes)
    → AtRows stop size ((k, e) ∷ m) tail
    → ltb (size - length (rows ((k, e) ∷ m) ++ tail)) stop ≡ true
unfolding rows
more_rows stop size k e m tail h = lt→ltb _ _ (
    omega (
      arith,
      h.ends,
      h.left,
      length-append (entry_bytes k e ++ rows m) tail,
      length-append (entry_bytes k e) (rows m),
      length-entry_bytes k e,
    ))

pub no_more_rows :
    (stop size : ℕ) (tail : Bytes)
    → size ≡ stop + length tail
    → ltb (size - length tail) stop ≡ false
no_more_rows stop size tail h = le→ltb _ _ (omega arith)

pub read_row :
    (k : Bytes) (e : MemEntry) (m : OrdMap MemEntry) (tail : Bytes)
    → length k < 2 ^ 32
    → length e.value < 2 ^ 32
    → read_entry (rows ((k, e) ∷ m) ++ tail) ≡ some (k, flag e, e.value, rows m ++ tail)
unfolding rows
read_row k e m tail p q = rw append_assoc (read_entry-entry_bytes k e (rows m ++ tail) p q)

pub length-rows-ge : (m : OrdMap MemEntry) → length m ≤ length (rows m)
unfolding rows
length-rows-ge [] = omega arith
length-rows-ge ((k, e) ∷ m) =
    omega
      (arith, length-append (entry_bytes k e) (rows m), length-entry_bytes k e, length-rows-ge m)

-- What a scan of all entries returns.
abbrev pub as_entries : OrdMap MemEntry → List SstEntry
as_entries [] = []
as_entries ((k, e) ∷ m) =
    record { key = k; value = e.value; tombstone = e.tombstone } ∷ as_entries m

flag_back : (e : MemEntry) → (flag e % 2 == 1) ≡ e.tombstone
flag_back e = ground arith

pub scan_all_loop-rows :
    (fuel stop size : ℕ) (m : OrdMap MemEntry) (tail : Bytes)
    → length m ≤ fuel
    → AtRows stop size m tail
    → scan_all_loop fuel stop size (rows m ++ tail) ≡ as_entries m
unfolding scan_all_loop
scan_all_loop-rows zero stop size [] tail p h = refl
scan_all_loop-rows (suc fuel) stop size [] tail p h =
    unfold rows in rw (no_more_rows stop size tail h.ends, scan_all_loop)
scan_all_loop-rows zero stop size ((k, e) ∷ m) tail p h = elim p [ ]
scan_all_loop-rows (suc fuel) stop size ((k, e) ∷ m) tail p h =
    rw (more_rows stop size k e m tail h, scan_all_loop)
      (rw (read_row k e m tail h.fits.0 h.fits.1) (
        rw (flag_back e) (
          ap (λ t. record { key = k; value = e.value; tombstone = e.tombstone } ∷ t)
            (scan_all_loop-rows fuel stop size m tail (omega arith)
              (AtRows-next stop size k e m tail h)))))
