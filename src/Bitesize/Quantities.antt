-- ===== src/Bitesize/Quantities.antt =====
-- validRequests and validLimits of pkg/bitesize/validation.go, which differ in their messages only,
-- with the checks of volumes and of URLs. Of an error only its kind is kept, and the largest
-- quantities are parameters of the process. A slice out of range is a panic, `none`.
pub mod Exact
use environment_operator.Prelude.{
  ℕ, ◌+◌, ◌<◌, Text, codes, ◌==◌, ==_iff, ==_refl, Bool, true, false, not, ◌&&◌, ◌||◌, List, [],
  ◌∷◌, ◌++◌, map, length, length-append, exists, Option, none, some, Result, ok, err, ℤ, gtb, ◌≤ℤ◌,
  ◌≡◌, ◌≢◌, ◌↔◌, ◌⊎◌, inl, inr, refl, ap, sym, ◌∙◌, arith, eqb, eqb_iff, leb, is_empty, Bool-cases,
  Option-cases, if◌then◌else◌,
}
use environment_operator.Bitesize.Autoscaling.{at_most, not_above}
use environment_operator.Prelude.Numbers.{atoi, value_of}
use environment_operator.Bitesize.Types.{Resources}

pub data QuantityError : Type 0 where
  bad_unit too_large : QuantityError

abbrev pub consed : ℕ → Option (Text × Text) → Option (Text × Text)
consed c none = none
consed c (some (s, t)) = some (c ∷ s, t)

-- s[0 : len(s)-k] and s[len(s)-k :]
unfoldable pub cut : ℕ → Text → Option (Text × Text)
cut k [] = if eqb k 0 then some ([], []) else none
cut k (c ∷ s) =
    let rest = consed c (cut k s) in if eqb k (length (c ∷ s)) then some ([], c ∷ s) else rest

abbrev pub valid_unit : Text → Bool
valid_unit u = u == codes "Mi" || u == codes "m"

unfoldable pub measured : ℤ → Text × Text → Option QuantityError
measured max (quantity, unit) =
    if not (valid_unit unit)
    then some bad_unit
    else if gtb (value_of (atoi quantity)) max
    then some too_large
    else none

-- One quantity, of which the last k characters are the unit; the empty one is allowed.
unfoldable pub valid_quantity : ℕ → ℤ → Text → Option (Option QuantityError)
unfolding cut measured
valid_quantity k max s =
    if is_empty s
    then some none
    else elim (cut k s) [ none ↦ none | some parts ↦ some (measured max parts) ]

unfoldable pub valid_resources : ℤ → ℤ → Resources → Option (Option QuantityError)
unfolding valid_quantity
valid_resources max_cpu max_memory r = elim (valid_quantity 1 max_cpu r.cpu) [
  | none ↦ none
  | some (some e) ↦ some (some e)
  | some none ↦ valid_quantity 2 max_memory r.memory
]

-- The checks of a volume's modes, type and provisioning, where none is a value that is no string.
unfoldable pub one_of : List Text → Option Text → Bool
one_of names none = false
one_of names (some s) = exists (λ (name : Text). name == s) names

unfoldable pub valid_volume_modes : Option Text → Bool
unfolding one_of
valid_volume_modes =
    one_of (codes "ReadWriteOnce" ∷ codes "ReadOnlyMany" ∷ codes "ReadWriteMany" ∷ [])

unfoldable pub valid_volume_types : Option Text → Bool
unfolding one_of
valid_volume_types = one_of (codes "efs" ∷ codes "EBS" ∷ [])

unfoldable pub valid_volume_provisioning : Option Text → Bool
unfolding one_of
valid_volume_provisioning = one_of (codes "dynamic" ∷ codes "manual" ∷ [])

abbrev is_host_byte : ℕ → Bool
is_host_byte c =
    (leb b'a' c && leb c b'z')
    || ((leb b'A' c && leb c b'Z') || ((leb b'0' c && leb c b'9') || (eqb c b'.' || eqb c b'-')))

abbrev all_host_bytes : Text → Bool
all_host_bytes [] = true
all_host_bytes (c ∷ s) = is_host_byte c && all_host_bytes s

-- The regular expression accepts the texts of these characters, the empty one too.
unfoldable pub valid_external_url : List Text → Bool
valid_external_url [] = true
valid_external_url (u ∷ us) = all_host_bytes u && valid_external_url us
