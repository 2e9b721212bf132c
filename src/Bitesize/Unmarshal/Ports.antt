-- ===== src/Bitesize/Unmarshal/Ports.antt =====
-- The ports of a service, and what a document leaves to the defaults.
use environment_operator.Prelude.{
  ℕ, zero, suc, ◌+◌, ◌/◌, ◌%◌, join, contains, contains-append, false, List, [], ◌∷◌, map, All, ℤ,
  pos, negsuc, ◌≡◌, refl, ap, arith, ltb, Bool-cases, inl, inr,
}
use environment_operator.Prelude.Splits.{split-append, split_whole}
use environment_operator.Prelude.Numbers.{decimal, digits, IsInt64, atoi-decimal}
use environment_operator.Bitesize.Unmarshal.{string_to_int_array}

-- A printed number has no comma.
contains-digits : (fuel n : ℕ) → contains b',' (digits fuel n) ≡ false
unfolding contains digits
contains-digits zero n = refl
contains-digits (suc fuel) n = elim (Bool-cases (ltb n 10)) [
  | inl e ↦ rw e (ground arith)
  | inr e ↦
      rw
        (
          e,
          contains-append b',' (digits fuel (n / 10)) ((48 + n % 10) ∷ []),
          contains-digits fuel (n / 10),
        )
        (ground arith)
]

contains-decimal : (p : ℤ) → contains b',' (decimal p) ≡ false
unfolding decimal contains
contains-decimal (pos n) = contains-digits (suc n) n
contains-decimal (negsuc n) = contains-digits (suc (suc n)) (suc n)

-- A list of ports that is written with commas is read back.
pub string_to_int_array-join :
    (p : ℤ) (ps : List ℤ)
    → All IsInt64 (p ∷ ps)
    → string_to_int_array (join b',' (map decimal (p ∷ ps))) ≡ p ∷ ps
unfolding string_to_int_array join
string_to_int_array-join p [] h =
    rw (split_whole b',' (decimal p) (contains-decimal p), atoi-decimal p h.0) refl
string_to_int_array-join p (q ∷ ps) h =
    rw
      (
        split-append b',' (decimal p) (join b',' (map decimal (q ∷ ps))) (contains-decimal p),
        atoi-decimal p h.0,
      )
      (ap (λ (r : List ℤ). p ∷ r) (string_to_int_array-join q ps h.1))
