-- ===== src/Str.antt =====
-- std::string as the sources use it: a sequence of bytes, compared byte by byte as unsigned
-- numbers (std::char_traits<char>::compare), which is the order of std::map's keys.
pub mod Order
use key_val_store.Base.{ℕ, Bool, true, false, List, [], ◌∷◌, compare, Ordering}

abbrev pub Bytes : Type 0
Bytes = List ℕ

-- The order of the first bytes that differ decides; a proper prefix comes first.
abbrev then_compare : Ordering → Ordering → Ordering
then_compare Ordering.lt o = Ordering.lt
then_compare Ordering.eq o = o
then_compare Ordering.gt o = Ordering.gt

-- std::string::compare
unfoldable pub str_compare : Bytes → Bytes → Ordering
str_compare [] [] = Ordering.eq
str_compare [] (b ∷ y) = Ordering.lt
str_compare (a ∷ x) [] = Ordering.gt
str_compare (a ∷ x) (b ∷ y) = then_compare (compare a b) (str_compare x y)

-- operator< and operator==
abbrev pub str_lt : Bytes → Bytes → Bool
str_lt x y = elim (str_compare x y) [ Ordering.lt ↦ true | _ ↦ false ]

abbrev pub str_eq : Bytes → Bytes → Bool
str_eq x y = elim (str_compare x y) [ Ordering.eq ↦ true | _ ↦ false ]
