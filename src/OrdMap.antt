-- ===== src/OrdMap.antt =====
-- std::map<std::string, V> as the sources use it: the entries in ascending key order, each key once.
pub mod Laws
pub mod Select
use key_val_store.Base.{
  ℕ, zero, ◌+◌, Bool, true, ◌≡◌, Option, none, some, List, [], ◌∷◌, Ordering, All, length,
  if◌then◌else◌,
}
use key_val_store.Str.{Bytes, str_compare, str_lt}

abbrev pub OrdMap {ℓ} : Type ℓ → Type ℓ
OrdMap V = List (Bytes × V)

-- Every entry's key is above `k`.
abbrev pub AllAbove {ℓ} : {V : Type ℓ} → Bytes → OrdMap V → Type 0
AllAbove k [] = Unit {0}
AllAbove k ((j, v) ∷ m) = (str_compare k j ≡ Ordering.lt) × AllAbove k m

abbrev pub IsSorted {ℓ} : {V : Type ℓ} → OrdMap V → Type 0
IsSorted [] = Unit {0}
IsSorted ((k, v) ∷ m) = AllAbove k m × IsSorted m

module _ {ℓ} {V : Type ℓ} where
  abbrev at_compare : Ordering → Option V → Option V → Option V
  at_compare Ordering.eq found later = found
  at_compare _ found later = later

  -- find, with `none` for end()
  unfoldable pub find : Bytes → OrdMap V → Option V
  find k [] = none
  find k ((j, v) ∷ m) = at_compare (str_compare k j) (some v) (find k m)

  abbrev place : Ordering → Bytes → V → Bytes → V → OrdMap V → OrdMap V → OrdMap V
  place Ordering.lt k v j w m rest = (k, v) ∷ (j, w) ∷ m
  place Ordering.eq k v j w m rest = (k, v) ∷ m
  place Ordering.gt k v j w m rest = (j, w) ∷ rest

  -- m[k] = v
  unfoldable pub assign : Bytes → V → OrdMap V → OrdMap V
  assign k v [] = (k, v) ∷ []
  assign k v ((j, w) ∷ m) = place (str_compare k j) k v j w m (assign k v m)

  abbrev dropped : Ordering → Bytes → V → OrdMap V → OrdMap V
  dropped Ordering.eq j w rest = rest
  dropped _ j w rest = (j, w) ∷ rest

  -- erase of a key
  unfoldable pub erase : Bytes → OrdMap V → OrdMap V
  erase k [] = []
  erase k ((j, w) ∷ m) = dropped (str_compare k j) j w (erase k m)

  -- The entries whose key passes a test, in their order.
  unfoldable pub select : (Bytes → Bool) → OrdMap V → OrdMap V
  select test [] = []
  select test ((j, w) ∷ m) = if test j then (j, w) ∷ select test m else select test m
