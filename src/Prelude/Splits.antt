-- ===== src/Prelude/Splits.antt =====
-- strings.Split and strings.Join at a separator of one byte.
use Prim.Native.Nat.{ℕ}
use mathlib.Core.Path.{◌≡◌, refl, ap, ◌∙◌}
use mathlib.Core.Logic.{inl, inr}
use mathlib.Core.Bool.{false}
use mathlib.Core.List.{List, [], ◌∷◌, ◌++◌}
use native.Mathlib.Omega.{arith}
use environment_operator.Prelude.Tests.{eqb, eqb_iff, Bool-cases}
use environment_operator.Prelude.Strings.{Text, split, join, contains}

-- A separator that does not stand in the first piece cuts behind it.
pub split-append :
    (sep : ℕ) (s t : Text) → contains sep s ≡ false → split sep (s ++ (sep ∷ t)) ≡ s ∷ split sep t
unfolding split contains
split-append sep [] t h = ground (arith, eqb_iff sep sep)
split-append sep (c ∷ s) t h = ground (arith, split-append sep s t)

pub split_whole : (sep : ℕ) (s : Text) → contains sep s ≡ false → split sep s ≡ s ∷ []
unfolding split contains
split_whole sep [] h = refl
split_whole sep (c ∷ s) h = ground (arith, split_whole sep s)

pub split_pieces : (sep : ℕ) (s : Text) → (p : Text) × (ps : List Text) × (split sep s ≡ p ∷ ps)
unfolding split
split_pieces sep [] = ([], [], refl)
split_pieces sep (c ∷ s) = elim (Bool-cases (eqb c sep)) [
  | inl h ↦ ([], split sep s, rw h)
  | inr h ↦ let (p, ps, e) = split_pieces sep s in (c ∷ p, ps, rw (h, e))
]

join_head :
    (sep c : ℕ) (p : Text) (ps : List Text) → join sep ((c ∷ p) ∷ ps) ≡ c ∷ join sep (p ∷ ps)
unfolding join
join_head sep c p [] = refl
join_head sep c p (q ∷ ps) = refl

pub join-split : (sep : ℕ) (s : Text) → join sep (split sep s) ≡ s
unfolding split join
join-split sep [] = refl
join-split sep (c ∷ s) =
    let (p, ps, e) = split_pieces sep s in
    elim (Bool-cases (eqb c sep)) [
      | inl h ↦
          let same : c ≡ sep = (eqb_iff c sep).0 h in
          rw (h, e) (cc (same, rw e at (join-split sep s)))
      | inr h ↦
          rw (h, e) (join_head sep c p ps ∙ ap (λ (t : Text). c ∷ t) (rw e at (join-split sep s)))
    ]

pub join-cons : (sep : ℕ) (p : Text) (s : Text) → join sep (p ∷ split sep s) ≡ p ++ (sep ∷ s)
unfolding join
join-cons sep p s =
    let (q, qs, e) = split_pieces sep s in
    rw e (ap (λ (t : Text). p ++ (sep ∷ t)) (rw e at (join-split sep s)))
