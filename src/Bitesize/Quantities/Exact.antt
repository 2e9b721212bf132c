-- ===== src/Bitesize/Quantities/Exact.antt =====
-- Exactly which requests and limits are accepted.
use environment_operator.Prelude.{
  ℕ, Text, codes, ◌==◌, ==_iff, true, false, [], ◌∷◌, ◌++◌, length, length-append, Option, none,
  some, ℤ, gtb, ◌≤ℤ◌, ◌≡◌, ◌↔◌, ◌⊎◌, inl, inr, refl, ap, sym, ◌∙◌, arith, eqb, eqb_iff, is_empty,
  Bool-cases, Option-cases,
}
use environment_operator.Bitesize.Autoscaling.{at_most, not_above}
use environment_operator.Prelude.Numbers.{atoi, value_of}
use environment_operator.Bitesize.Types.{Resources}
use environment_operator.Bitesize.Quantities.{
  QuantityError, consed, cut, valid_unit, measured, valid_quantity, valid_resources,
}

-- The empty text, or a number up to the limit and its unit; a quantity that is no number counts as
-- Atoi's value of it.
abbrev pub IsQuantity : Text → ℤ → Text → Type 0
IsQuantity unit max s =
    (s ≡ []) ⊎ ((quantity : Text) × (s ≡ quantity ++ unit) × (value_of (atoi quantity) ≤ℤ max))

cut-append : (s t : Text) → cut (length t) (s ++ t) ≡ some (s, t)
unfolding cut
cut-append [] [] = refl
cut-append [] (c ∷ t) = ground arith
cut-append (c ∷ s) t =
    let ih = cut-append s t in
    let longer : eqb (length t) (length (c ∷ (s ++ t))) ≡ false =
      ground (arith, length-append s t) in
    rw (longer, ih, cut) refl

-- The two parts of a text.
abbrev AreParts : ℕ → Text → Option (Text × Text) → Type 0
AreParts k s none = Unit
AreParts k s (some p) = (p.0 ++ p.1 ≡ s) × (length p.1 ≡ k)

consed-AreParts :
    (k c : ℕ) (s : Text) (o : Option (Text × Text))
    → AreParts k s o
    → AreParts k (c ∷ s) (consed c o)
consed-AreParts k c s none h = tt
consed-AreParts k c s (some p) h = (ap (λ (t : Text). c ∷ t) h.0, h.1)

cut-AreParts : (k : ℕ) (s : Text) → AreParts k s (cut k s)
unfolding cut
cut-AreParts k [] = elim (Bool-cases (eqb k 0)) [
  | inl e ↦ rw (e, AreParts) (refl, sym ((eqb_iff k 0).0 e))
  | inr e ↦ rw (e, AreParts) tt
]
cut-AreParts k (c ∷ s) = elim (Bool-cases (eqb k (length (c ∷ s)))) [
  | inl e ↦ rw (e, AreParts) (refl, sym ((eqb_iff k (length (c ∷ s))).0 e))
  | inr e ↦ rw (e, AreParts) (consed-AreParts k c s (cut k s) (cut-AreParts k s))
]

measured-none :
    (max : ℤ) (a b : Text)
    → measured max (a, b) ≡ none
    → (valid_unit b ≡ true) × (value_of (atoi a) ≤ℤ max)
unfolding measured
measured-none max a b h = elim (Bool-cases (valid_unit b)) [
  | inr e ↦ cc (rw (e, measured) at h)
  | inl e ↦ elim (Bool-cases (gtb (value_of (atoi a)) max)) [
    | inl g ↦ cc (rw (e, g, measured) at h)
    | inr g ↦ (e, at_most (value_of (atoi a)) max g)
  ]
]

-- A unit of k characters that is the only valid one of its length.
abbrev IsUnit : ℕ → Text → Type 0
IsUnit k unit =
    (length unit ≡ k)
    × (is_empty unit ≡ false)
    × (valid_unit unit ≡ true)
    × ((u : Text) → length u ≡ k → valid_unit u ≡ true → u ≡ unit)

never_empty : (q unit : Text) → is_empty unit ≡ false → is_empty (q ++ unit) ≡ false
never_empty [] unit h = h
never_empty (c ∷ q) unit h = refl

valid_quantity-IsQuantity :
    (k : ℕ) (unit : Text) (max : ℤ) (s : Text)
    → IsUnit k unit
    → valid_quantity k max s ≡ some none
    → IsQuantity unit max s
unfolding valid_quantity
valid_quantity-IsQuantity k unit max [] u h = inl refl
valid_quantity-IsQuantity k unit max (c ∷ s) u h = elim (Option-cases (cut k (c ∷ s))) [
  | inl e ↦ cc (rw (e, valid_quantity) at h)
  | inr ((a, b), e) ↦
      let (whole, long) : (a ++ b ≡ c ∷ s) × (length b ≡ k) =
        rw (e, AreParts) at (cut-AreParts k (c ∷ s)) in
      let m : measured max (a, b) ≡ none = cc (rw (e, valid_quantity) at h) in
      let (valid, bounded) = measured-none max a b m in
      inr (a, sym whole ∙ ap (λ (t : Text). a ++ t) (u.3 b long valid), bounded)
]

IsQuantity-valid_quantity :
    (k : ℕ) (unit : Text) (max : ℤ) (s : Text)
    → IsUnit k unit
    → IsQuantity unit max s
    → valid_quantity k max s ≡ some none
unfolding valid_quantity measured
IsQuantity-valid_quantity k unit max s u (inl e) = rw e refl
IsQuantity-valid_quantity k unit max s u (inr (q, e, h)) =
    let parts : cut k (q ++ unit) ≡ some (q, unit) = rw (← u.0) (cut-append q unit) in
    rw (e, never_empty q unit u.1, valid_quantity, parts, u.2, not_above (value_of (atoi q)) max h)
      refl

cpu-IsUnit : IsUnit 1 (codes "m")
unfolding ◌==◌
cpu-IsUnit = (refl, refl, refl, only)
  where
    only : (u : Text) → length u ≡ 1 → valid_unit u ≡ true → u ≡ codes "m"
    only [] l v = cc
    only (a ∷ []) l v = ground (arith, ==_iff (a ∷ []) (codes "m"))
    only (a ∷ b ∷ u) l v = let no : ⊥ = omega (arith, l) in elim no [ ]

memory-IsUnit : IsUnit 2 (codes "Mi")
unfolding ◌==◌
memory-IsUnit = (refl, refl, refl, only)
  where
    only : (u : Text) → length u ≡ 2 → valid_unit u ≡ true → u ≡ codes "Mi"
    only [] l v = cc
    only (a ∷ []) l v = let no : ⊥ = omega (arith, l) in elim no [ ]
    only (a ∷ b ∷ []) l v = ground (arith, ==_iff (a ∷ b ∷ []) (codes "Mi"))
    only (a ∷ b ∷ c ∷ u) l v = let no : ⊥ = omega (arith, l) in elim no [ ]

-- Requests, and limits, are accepted without a panic exactly when the processor is empty or a number
-- and `m`, and the memory is empty or a number and `Mi`, each number at most the limit; a text that
-- is no number stands for zero here.
pub valid_resources-IsQuantity :
    (max_cpu max_memory : ℤ) (r : Resources)
    → (valid_resources max_cpu max_memory r ≡ some none)
      ↔ (IsQuantity (codes "m") max_cpu r.cpu × IsQuantity (codes "Mi") max_memory r.memory)
unfolding valid_resources
valid_resources-IsQuantity max_cpu max_memory r = (
  λ h.
      let (c, m) = both (valid_quantity 1 max_cpu r.cpu) (valid_quantity 2 max_memory r.memory) h in
      (
        valid_quantity-IsQuantity 1 (codes "m") max_cpu r.cpu cpu-IsUnit c,
        valid_quantity-IsQuantity 2 (codes "Mi") max_memory r.memory memory-IsUnit m,
      ),
  λ h.
      rw (IsQuantity-valid_quantity 1 (codes "m") max_cpu r.cpu cpu-IsUnit h.0, valid_resources)
        (IsQuantity-valid_quantity 2 (codes "Mi") max_memory r.memory memory-IsUnit h.1),
)
  where
    both :
        (x y : Option (Option QuantityError))
        → elim x [ none ↦ none | some (some e) ↦ some (some e) | some none ↦ y ] ≡ some none
        → (x ≡ some none) × (y ≡ some none)
    both none y h = cc
    both (some (some e)) y h = cc
    both (some none) y h = (refl, h)
