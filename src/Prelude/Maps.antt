-- ===== src/Prelude/Maps.antt =====
-- A Go map with string keys, as an association list. Two maps that answer every key alike may list
-- their entries in another order, so statements about maps are about `lookup` and `text_at`.
use mathlib.Core.Path.{◌≡◌, refl}
use mathlib.Core.Option.{Option, none, some}
use mathlib.Core.List.{List, [], ◌∷◌}
use native.Mathlib.Omega.{arith}
use environment_operator.Prelude.Tests.{if◌then◌else◌}
use environment_operator.Prelude.Strings.{Text, ◌==◌, ==_iff}

abbrev pub TextMap {ℓ} : Type ℓ → Type ℓ
TextMap V = List (Text × V)

module _ {ℓ} {V : Type ℓ} where
  -- v, ok := m[k]
  unfoldable pub lookup : Text → TextMap V → Option V
  lookup key [] = none
  lookup key ((k, v) ∷ rest) = if k == key then some v else lookup key rest

  -- m[k] = v
  unfoldable pub insert : Text → V → TextMap V → TextMap V
  insert key value [] = (key, value) ∷ []
  insert key value ((k, v) ∷ rest) =
      if k == key then (key, value) ∷ rest else (k, v) ∷ insert key value rest

  -- What is written is found under its key, and every other key is answered as before.
  pub lookup-insert :
      (key other : Text) (value : V) (entries : TextMap V)
      → lookup other (insert key value entries)
        ≡ (if key == other then some value else lookup other entries)
  unfolding lookup insert
  lookup-insert key other value [] = refl
  lookup-insert key other value ((k, v) ∷ rest) =
      let ih = lookup-insert key other value rest in
      ground (ih, ==_iff key other, ==_iff k key, ==_iff k other, arith)

-- m[k] of a map of strings: the empty string where the key is missing.
unfoldable pub text_at : Text → TextMap Text → Text
text_at k m = elim (lookup k m) [ none ↦ [] | some v ↦ v ]

pub text_at-nil : (k : Text) → text_at k [] ≡ []
unfolding text_at lookup
text_at-nil k = refl

pub text_at-cons :
    (k j : Text) (v : Text) (m : TextMap Text)
    → text_at k ((j, v) ∷ m) ≡ (if j == k then v else text_at k m)
unfolding text_at lookup
text_at-cons k j v m = ground arith

pub text_at-insert :
    (k j : Text) (v : Text) (m : TextMap Text)
    → text_at j (insert k v m) ≡ (if k == j then v else text_at j m)
unfolding text_at
text_at-insert k j v m = ground (arith, lookup-insert k j v m)
