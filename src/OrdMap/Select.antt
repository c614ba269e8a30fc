-- ===== src/OrdMap/Select.antt =====
-- The entries that pass a test, after a write and after an erasure.
use key_val_store.Base.{◌≡◌, refl, none, true, false, Bool, [], ◌∷◌, arith, if◌then◌else◌}
use key_val_store.Str.{Bytes}
use key_val_store.Str.Order.{eq_of_compare}
use key_val_store.OrdMap.{OrdMap, AllAbove, IsSorted, find, assign, erase, select}
use key_val_store.OrdMap.Laws.{AllAbove-trans}

module _ {ℓ} {V : Type ℓ} where
  pub find-select :
      (test : Bytes → Bool) (k : Bytes) (m : OrdMap V)
      → find k (select test m) ≡ (if test k then find k m else none)
  unfolding find select
  find-select test k [] = ground arith
  find-select test k ((j, w) ∷ m) = ground (arith, find-select test k m, eq_of_compare k j)

  pub AllAbove-select :
      (test : Bytes → Bool) (k : Bytes) (m : OrdMap V) → AllAbove k m → AllAbove k (select test m)
  unfolding select
  AllAbove-select test k [] h = tt
  AllAbove-select test k ((j, w) ∷ m) h = ground (arith, AllAbove-select test k m h.1)

  pub select-IsSorted : (test : Bytes → Bool) (m : OrdMap V) → IsSorted m → IsSorted (select test m)
  unfolding select
  select-IsSorted test [] h = tt
  select-IsSorted test ((j, w) ∷ m) h =
      ground (arith, select-IsSorted test m h.1, AllAbove-select test j m h.0)

  -- A write under a key that fails the test is not selected.
  pub select-assign_out :
      (test : Bytes → Bool) (k : Bytes) (v : V) (m : OrdMap V)
      → test k ≡ false
      → select test (assign k v m) ≡ select test m
  unfolding select assign
  select-assign_out test k v [] h = ground arith
  select-assign_out test k v ((j, w) ∷ m) h =
      ground (arith, select-assign_out test k v m h, eq_of_compare k j)

  assign-AllAbove : (k : Bytes) (v : V) (m : OrdMap V) → AllAbove k m → assign k v m ≡ (k, v) ∷ m
  unfolding assign
  assign-AllAbove k v [] h = refl
  assign-AllAbove k v ((j, w) ∷ m) h = ground (arith, h.0)

  -- In a map in key order, a write under a key that passes the test is a write to the selection.
  pub select-assign_in :
      (test : Bytes → Bool) (k : Bytes) (v : V) (m : OrdMap V)
      → IsSorted m
      → test k ≡ true
      → select test (assign k v m) ≡ assign k v (select test m)
  unfolding select assign
  select-assign_in test k v [] s h = ground arith
  select-assign_in test k v ((j, w) ∷ m) s h = ground (
    arith,
    select-assign_in test k v m s.1 h,
    eq_of_compare k j,
    AllAbove-trans k j m,
    AllAbove-select test k m,
    assign-AllAbove k v (select test m),
  )

  pub select-erase :
      (test : Bytes → Bool) (k : Bytes) (m : OrdMap V)
      → select test (erase k m) ≡ erase k (select test m)
  unfolding select erase
  select-erase test k [] = refl
  select-erase test k ((j, w) ∷ m) = ground (arith, select-erase test k m)

  -- An erasure of a key that fails the test does not change the selection.
  pub select-erase_out :
      (test : Bytes → Bool) (k : Bytes) (m : OrdMap V)
      → test k ≡ false
      → select test (erase k m) ≡ select test m
  unfolding select erase
  select-erase_out test k [] h = refl
  select-erase_out test k ((j, w) ∷ m) h =
      ground (arith, select-erase_out test k m h, eq_of_compare k j)

  AllAbove-erase : (l k : Bytes) (m : OrdMap V) → AllAbove l m → AllAbove l (erase k m)
  unfolding erase
  AllAbove-erase l k [] h = tt
  AllAbove-erase l k ((j, w) ∷ m) h = ground (arith, AllAbove-erase l k m h.1)

  pub erase-IsSorted : (k : Bytes) (m : OrdMap V) → IsSorted m → IsSorted (erase k m)
  unfolding erase
  erase-IsSorted k [] h = tt
  erase-IsSorted k ((j, w) ∷ m) h = ground (arith, erase-IsSorted k m h.1, AllAbove-erase j k m h.0)

  -- A weaker test first changes nothing.
  pub select-select :
      (test first : Bytes → Bool) (m : OrdMap V)
      → ((k : Bytes) → test k ≡ true → first k ≡ true)
      → select test (select first m) ≡ select test m
  unfolding select
  select-select test first [] h = refl
  select-select test first ((j, w) ∷ m) h = ground (arith, select-select test first m h, h j)
