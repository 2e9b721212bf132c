-- ===== src/Helpers.antt =====
-- EqualArrays of pkg/util/util.go. A slice is nil, or a list; a nil one is not an empty one.
use environment_operator.Prelude.{
  Bool, true, false, List, [], ◌∷◌, Option, none, some, ◌≡◌, ◌↔◌, length, eqb, eqb_iff, pos, negsuc,
  ℤ, eqz, if◌then◌else◌, arith,
}

-- The loop over the indexes of the first list, where the lengths are the same.
unfoldable pub same_items : List ℤ → List ℤ → Bool
same_items [] b = true
same_items (x ∷ a) [] = false
same_items (x ∷ a) (y ∷ b) = if eqz x y then same_items a b else false

unfoldable pub equal_arrays : Option (List ℤ) → Option (List ℤ) → Bool
unfolding same_items
equal_arrays none none = true
equal_arrays none (some b) = false
equal_arrays (some a) none = false
equal_arrays (some a) (some b) = if eqb (length a) (length b) then same_items a b else false

eqz_iff : (x y : ℤ) → (eqz x y ≡ true) ↔ (x ≡ y)
eqz_iff (pos a) (pos b) = ground (arith, eqb_iff a b)
eqz_iff (pos a) (negsuc b) = ground arith
eqz_iff (negsuc a) (pos b) = ground arith
eqz_iff (negsuc a) (negsuc b) = ground (arith, eqb_iff a b)

same_items_iff :
    (a b : List ℤ) → eqb (length a) (length b) ≡ true → (same_items a b ≡ true) ↔ (a ≡ b)
unfolding same_items
same_items_iff [] [] h = ground arith
same_items_iff [] (y ∷ b) h = ground arith
same_items_iff (x ∷ a) [] h = ground arith
same_items_iff (x ∷ a) (y ∷ b) h = ground (arith, same_items_iff a b, eqz_iff x y)

-- Two slices are equal exactly when they are both nil, or hold the same numbers in the same order.
pub equal_arrays_iff : (a b : Option (List ℤ)) → (equal_arrays a b ≡ true) ↔ (a ≡ b)
unfolding equal_arrays
equal_arrays_iff none none = ground arith
equal_arrays_iff none (some b) = ground arith
equal_arrays_iff (some a) none = ground arith
equal_arrays_iff (some a) (some b) = ground (arith, same_items_iff a b)
