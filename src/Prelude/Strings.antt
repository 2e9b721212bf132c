-- ===== src/Prelude/Strings.antt =====
-- A Go string is the list of its bytes. Equality and order are those of Go's `==` and `<`.
use Prim.Native.Nat.{ℕ, ◌+◌, compare, Ordering}
use Prim.Native.Char.{code}
use Prim.Native.String.{String}
use mathlib.Core.Path.{◌≡◌, refl}
use mathlib.Core.Logic.{◌↔◌, ◌≢◌}
use mathlib.Core.Bool.{Bool, true, false, ◌&&◌, ◌||◌}
use mathlib.Core.List.{List, [], ◌∷◌, ◌++◌, map}
use native.Mathlib.Omega.{arith}
use environment_operator.Prelude.Tests.{leb, eqb, eqb_iff, if◌then◌else◌}

abbrev pub Text : Type 0
Text = List ℕ

-- The bytes of an ASCII literal.
abbrev pub codes : String → Text
codes String.[] = []
codes (String.◌∷◌ c s) = code c ∷ codes s

infix 50 ◌==◌
unfoldable pub ◌==◌ : Text → Text → Bool
[] == [] = true
(a ∷ s) == (b ∷ t) = eqb a b && s == t
_ == _ = false

pub ==_refl : (s : Text) → (s == s) ≡ true
unfolding ◌==◌
==_refl [] = refl
==_refl (a ∷ s) = ground (arith, ==_refl s)

==-path : (s t : Text) → (s == t) ≡ true → s ≡ t
unfolding ◌==◌
==-path [] [] h = refl
==-path [] (b ∷ t) h = cc
==-path (a ∷ s) [] h = cc
==-path (a ∷ s) (b ∷ t) h = ground (arith, eqb_iff a b, ==-path s t)

pub ==_iff : (s t : Text) → ((s == t) ≡ true) ↔ (s ≡ t)
==_iff s t = (==-path s t, λ e. rw e (==_refl t))

-- Go's `s < t`: the first byte that differs decides, and a proper prefix comes first.
unfoldable pub less : Text → Text → Bool
less [] [] = false
less [] (b ∷ t) = true
less (a ∷ s) [] = false
less (a ∷ s) (b ∷ t) = elim (compare a b) [
  | Ordering.lt ↦ true
  | Ordering.eq ↦ less s t
  | Ordering.gt ↦ false
]

pub less_irrefl : (s : Text) → less s s ≡ false
unfolding less
less_irrefl [] = refl
less_irrefl (a ∷ s) = ground (arith, less_irrefl s)

pub less_trans : (s t u : Text) → less s t ≡ true → less t u ≡ true → less s u ≡ true
unfolding less
less_trans [] [] u p q = cc
less_trans [] (b ∷ t) [] p q = cc
less_trans [] (b ∷ t) (c ∷ u) p q = refl
less_trans (a ∷ s) [] u p q = cc
less_trans (a ∷ s) (b ∷ t) [] p q = cc
less_trans (a ∷ s) (b ∷ t) (c ∷ u) p q = ground (arith, less_trans s t u)

-- Of two texts that are not below each other, neither differs from the other.
pub less_total : (s t : Text) → less s t ≡ false → less t s ≡ false → s ≡ t
unfolding less
less_total [] [] p q = refl
less_total [] (b ∷ t) p q = cc
less_total (a ∷ s) [] p q = cc
less_total (a ∷ s) (b ∷ t) p q = ground (arith, less_total s t)

-- strings.Split at a separator of one byte: at least one piece, always.
unfoldable pub split : ℕ → Text → List Text
split sep [] = [] ∷ []
split sep (c ∷ s) =
    let rest = split sep s in
    if eqb c sep then [] ∷ rest else elim rest [ [] ↦ (c ∷ []) ∷ [] | p ∷ ps ↦ (c ∷ p) ∷ ps ]

-- strings.Join with a separator of one byte.
unfoldable pub join : ℕ → List Text → Text
join sep [] = []
join sep (p ∷ []) = p
join sep (p ∷ q ∷ ps) = p ++ (sep ∷ join sep (q ∷ ps))

-- strings.Contains for a text of one byte.
unfoldable pub contains : ℕ → Text → Bool
contains b [] = false
contains b (c ∷ s) = eqb c b || contains b s

abbrev lower_byte : ℕ → ℕ
lower_byte c = if leb b'A' c && leb c b'Z' then c + 32 else c

-- strings.ToLower on ASCII.
unfoldable pub to_lower : Text → Text
to_lower = map lower_byte

pub to_lower-to_lower : (s : Text) → to_lower (to_lower s) ≡ to_lower s
unfolding to_lower
to_lower-to_lower [] = refl
to_lower-to_lower (c ∷ s) = ground (arith, to_lower-to_lower s)

pub contains-append : (b : ℕ) (s t : Text) → contains b (s ++ t) ≡ (contains b s || contains b t)
unfolding contains
contains-append b [] t = refl
contains-append b (c ∷ s) t = ground (arith, contains-append b s t)

-- strings.EqualFold on ASCII.
unfoldable pub equal_fold : Text → Text → Bool
unfolding to_lower
equal_fold s t = to_lower s == to_lower t

-- strings.HasPrefix
unfoldable pub has_prefix : Text → Text → Bool
has_prefix s [] = true
has_prefix [] (b ∷ t) = false
has_prefix (a ∷ s) (b ∷ t) = eqb a b && has_prefix s t

pub ==_ne : (s t : Text) → s ≢ t → (s == t) ≡ false
==_ne s t n = ground (arith, ==_iff s t)
