-- ===== src/Str/Order.antt =====
-- The comparison of strings is a linear order.
use key_val_store.Base.{true, ◌≡◌, refl, ◌↔◌, [], ◌∷◌, Ordering, arith}
use key_val_store.Str.{Bytes, str_compare, str_eq}

pub compare_refl : (x : Bytes) → str_compare x x ≡ Ordering.eq
unfolding str_compare
compare_refl [] = refl
compare_refl (a ∷ x) = ground (arith, compare_refl x)

pub eq_of_compare : (x y : Bytes) → str_compare x y ≡ Ordering.eq → x ≡ y
unfolding str_compare
eq_of_compare [] [] h = refl
eq_of_compare [] (b ∷ y) h = ground arith
eq_of_compare (a ∷ x) [] h = ground arith
eq_of_compare (a ∷ x) (b ∷ y) h = ground (arith, eq_of_compare x y)

pub compare-swap_lt : (x y : Bytes) → str_compare x y ≡ Ordering.lt → str_compare y x ≡ Ordering.gt
unfolding str_compare
compare-swap_lt [] [] h = ground arith
compare-swap_lt [] (b ∷ y) h = refl
compare-swap_lt (a ∷ x) [] h = ground arith
compare-swap_lt (a ∷ x) (b ∷ y) h = ground (arith, compare-swap_lt x y)

pub compare-swap_gt : (x y : Bytes) → str_compare x y ≡ Ordering.gt → str_compare y x ≡ Ordering.lt
unfolding str_compare
compare-swap_gt [] [] h = ground arith
compare-swap_gt [] (b ∷ y) h = ground arith
compare-swap_gt (a ∷ x) [] h = refl
compare-swap_gt (a ∷ x) (b ∷ y) h = ground (arith, compare-swap_gt x y)

pub compare-trans_lt :
    (x y z : Bytes)
    → str_compare x y ≡ Ordering.lt
    → str_compare y z ≡ Ordering.lt
    → str_compare x z ≡ Ordering.lt
unfolding str_compare
compare-trans_lt [] [] z h k = ground arith
compare-trans_lt [] (b ∷ y) [] h k = ground arith
compare-trans_lt [] (b ∷ y) (c ∷ z) h k = refl
compare-trans_lt (a ∷ x) [] z h k = ground arith
compare-trans_lt (a ∷ x) (b ∷ y) [] h k = ground arith
compare-trans_lt (a ∷ x) (b ∷ y) (c ∷ z) h k = ground (arith, compare-trans_lt x y z)

pub str_eq_iff : (x y : Bytes) → (str_eq x y ≡ true) ↔ (x ≡ y)
str_eq_iff x y = (λ h. eq_of_compare x y (ground arith), λ h. ground (arith, compare_refl x))
