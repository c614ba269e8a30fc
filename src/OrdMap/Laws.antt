-- ===== src/OrdMap/Laws.antt =====
-- Reading a std::map after a write, and what a write does to the order of the entries.
use key_val_store.Base.{◌≡◌, refl, none, some, false, [], ◌∷◌, Ordering, arith, ◌∙◌, if◌then◌else◌}
use key_val_store.Str.{Bytes, str_compare, str_eq}
use key_val_store.Str.Order.{compare_refl, eq_of_compare, compare-swap_gt, compare-trans_lt}
use key_val_store.OrdMap.{OrdMap, AllAbove, IsSorted, find, assign, erase}

module _ {ℓ} {V : Type ℓ} where
  pub find-assign :
      (k j : Bytes) (v : V) (m : OrdMap V)
      → find j (assign k v m) ≡ (if str_eq j k then some v else find j m)
  unfolding find assign
  find-assign k j v [] = ground arith
  find-assign k j v ((i, w) ∷ m) = ground (
    arith,
    find-assign k j v m,
    eq_of_compare k i,
    eq_of_compare j i,
    eq_of_compare j k,
    compare_refl i,
  )

  pub find-assign_self : (k : Bytes) (v : V) (m : OrdMap V) → find k (assign k v m) ≡ some v
  find-assign_self k v m = ground (arith, find-assign k k v m, compare_refl k)

  pub find-assign_ne :
      (k j : Bytes) (v : V) (m : OrdMap V) → str_eq j k ≡ false → find j (assign k v m) ≡ find j m
  find-assign_ne k j v m h = find-assign k j v m ∙ rw h

  pub AllAbove-assign :
      (l k : Bytes) (v : V) (m : OrdMap V)
      → str_compare l k ≡ Ordering.lt
      → AllAbove l m
      → AllAbove l (assign k v m)
  unfolding assign
  AllAbove-assign l k v [] h a = (h, tt)
  AllAbove-assign l k v ((i, w) ∷ m) h a = ground (arith, AllAbove-assign l k v m h a.1)

  pub AllAbove-trans :
      (l k : Bytes) (m : OrdMap V) → str_compare l k ≡ Ordering.lt → AllAbove k m → AllAbove l m
  AllAbove-trans l k [] h a = tt
  AllAbove-trans l k ((i, w) ∷ m) h a = (compare-trans_lt l k i h a.0, AllAbove-trans l k m h a.1)

  pub assign-IsSorted : (k : Bytes) (v : V) (m : OrdMap V) → IsSorted m → IsSorted (assign k v m)
  unfolding assign
  assign-IsSorted k v [] s = (tt, tt)
  assign-IsSorted k v ((i, w) ∷ m) s = ground (
    arith,
    eq_of_compare k i,
    compare-swap_gt k i,
    AllAbove-trans k i m,
    AllAbove-assign i k v m,
    assign-IsSorted k v m,
  )

  pub find-AllAbove :
      (k j : Bytes) (m : OrdMap V) → AllAbove k m → str_compare j k ≡ Ordering.lt → find j m ≡ none
  unfolding find
  find-AllAbove k j [] a h = refl
  find-AllAbove k j ((i, w) ∷ m) a h =
      ground (arith, compare-trans_lt j k i h a.0, find-AllAbove k j m a.1 h)

  pub find-erase_ne :
      (k j : Bytes) (m : OrdMap V) → str_eq j k ≡ false → find j (erase k m) ≡ find j m
  unfolding find erase
  find-erase_ne k j [] h = refl
  find-erase_ne k j ((i, w) ∷ m) h =
      ground (arith, find-erase_ne k j m h, eq_of_compare k i, eq_of_compare j i, compare_refl i)

  -- A second write to a key replaces the first.
  pub assign-assign :
      (k : Bytes) (v w : V) (m : OrdMap V) → assign k v (assign k w m) ≡ assign k v m
  unfolding assign
  assign-assign k v w [] = ground (arith, compare_refl k)
  assign-assign k v w ((i, u) ∷ m) = ground (arith, assign-assign k v w m, compare_refl k)

  erase_absent : (k : Bytes) (m : OrdMap V) → find k m ≡ none → erase k m ≡ m
  unfolding find erase
  erase_absent k [] h = refl
  erase_absent k ((i, u) ∷ m) h = ground (arith, erase_absent k m)

  -- Erasing a key that was written where it was absent restores the map.
  pub erase-assign :
      (k : Bytes) (v : V) (m : OrdMap V) → find k m ≡ none → erase k (assign k v m) ≡ m
  unfolding find assign erase
  erase-assign k v [] h = ground (arith, compare_refl k)
  erase-assign k v ((i, u) ∷ m) h =
      ground (arith, erase-assign k v m, erase_absent k m, compare_refl k)
