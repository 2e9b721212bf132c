-- ===== src/Prelude/Sort.antt =====
-- Go's sort package, on lists that are ordered by a text: an insertion sort. The program relies on
-- a sorted permutation only; where the keys are distinct that determines the result, as
-- `sort_by-perm` shows.
use mathlib.Core.List.{Permᴰ}
use mathlib.Core.List.Permᴰ
use environment_operator.Prelude.Lists.{All}
use environment_operator.Prelude.Tests.{if◌then◌else◌, Bool-cases}
use environment_operator.Prelude.Strings.{Text, less, less_irrefl, less_trans, less_total}
use mathlib.Core.Path.{◌≡◌, refl, sym, ap, ◌∙◌, subst}
use mathlib.Core.Logic.{◌≢◌, inl, inr}
use mathlib.Core.Bool.{true, false}
use mathlib.Core.List.{List, [], ◌∷◌}

-- The order of texts, read backwards: `less b a ≡ false` says that a is at most b.
above : (a b : Text) → less a b ≡ true → less b a ≡ false
above a b h = elim (Bool-cases (less b a)) [
  | inl h' ↦ cc (less_trans a b a h h', less_irrefl a)
  | inr h' ↦ h'
]

not_less_trans : (a b c : Text) → less b a ≡ false → less c b ≡ false → less c a ≡ false
not_less_trans a b c p q = elim (Bool-cases (less c a)) [
  | inl h ↦ elim (Bool-cases (less a b)) [
    | inl h' ↦ cc (less_trans c a b h h')
    | inr h' ↦ let e : a ≡ b = less_total a b h' p in cc
  ]
  | inr h ↦ h
]

module _ {ℓ} {A : Type ℓ} (key : A → Text) where
  unfoldable pub insert_by : A → List A → List A
  insert_by x [] = x ∷ []
  insert_by x (y ∷ ys) = if less (key y) (key x) then y ∷ insert_by x ys else x ∷ y ∷ ys

  unfoldable pub sort_by : List A → List A
  unfolding insert_by
  sort_by [] = []
  sort_by (x ∷ xs) = insert_by x (sort_by xs)

  -- No key is below one that stands before it.
  abbrev pub IsSorted : List A → Type 0
  IsSorted [] = Unit
  IsSorted (x ∷ xs) = All (λ y. less (key y) (key x) ≡ false) xs × IsSorted xs

  abbrev pub IsDistinct : List A → Type 0
  IsDistinct [] = Unit
  IsDistinct (x ∷ xs) = All (λ y. key x ≢ key y) xs × IsDistinct xs

  All-above :
      (x y : A) (zs : List A)
      → less (key y) (key x) ≡ false
      → All (λ z. less (key z) (key y) ≡ false) zs
      → All (λ z. less (key z) (key x) ≡ false) zs
  All-above x y [] h all = tt
  All-above x y (z ∷ zs) h all =
      (not_less_trans (key x) (key y) (key z) h all.0, All-above x y zs h all.1)

  All-insert_by : (P : A → Type 0) (x : A) (ys : List A) → P x → All P ys → All P (insert_by x ys)
  unfolding insert_by
  All-insert_by P x [] p ps = (p, tt)
  All-insert_by P x (y ∷ ys) p ps = elim (Bool-cases (less (key y) (key x))) [
    | inl h ↦ rw h (ps.0, All-insert_by P x ys p ps.1)
    | inr h ↦ rw h (p, ps)
  ]

  insert_by-IsSorted : (x : A) (ys : List A) → IsSorted ys → IsSorted (insert_by x ys)
  unfolding insert_by
  insert_by-IsSorted x [] s = (tt, tt)
  insert_by-IsSorted x (y ∷ ys) s = elim (Bool-cases (less (key y) (key x))) [
    | inl h ↦ rw h (
      All-insert_by (λ z. less (key z) (key y) ≡ false) x ys (above (key y) (key x) h) s.0,
      insert_by-IsSorted x ys s.1,
    )
    | inr h ↦ rw h ((h, All-above x y ys h s.0), s)
  ]

  pub sort_by-IsSorted : (xs : List A) → IsSorted (sort_by xs)
  unfolding sort_by
  sort_by-IsSorted [] = tt
  sort_by-IsSorted (x ∷ xs) = insert_by-IsSorted x (sort_by xs) (sort_by-IsSorted xs)

  insert_by-permᴰ : (x : A) (ys : List A) → Permᴰ (insert_by x ys) (x ∷ ys)
  unfolding insert_by
  insert_by-permᴰ x [] = Permᴰ.refl (x ∷ [])
  insert_by-permᴰ x (y ∷ ys) = elim (Bool-cases (less (key y) (key x))) [
    | inl h ↦ rw h (Permᴰ.trans (Permᴰ.cons refl (insert_by-permᴰ x ys)) (Permᴰ.swap refl refl))
    | inr h ↦ rw h (Permᴰ.refl (x ∷ y ∷ ys))
  ]

  pub sort_by-permᴰ : (xs : List A) → Permᴰ (sort_by xs) xs
  unfolding sort_by
  sort_by-permᴰ [] = Permᴰ.refl []
  sort_by-permᴰ (x ∷ xs) =
      Permᴰ.trans (insert_by-permᴰ x (sort_by xs)) (Permᴰ.cons refl (sort_by-permᴰ xs))

  insert_by_below :
      (x z : A) (zs : List A)
      → less (key z) (key x) ≡ true
      → insert_by x (z ∷ zs) ≡ z ∷ insert_by x zs
  unfolding insert_by
  insert_by_below x z zs h = rw h

  insert_by_above :
      (x z : A) (zs : List A) → less (key z) (key x) ≡ false → insert_by x (z ∷ zs) ≡ x ∷ z ∷ zs
  unfolding insert_by
  insert_by_above x z zs h = rw h

  -- Two items that both stand before the rest are put in the order of their keys.
  insert_two :
      (x y : A) (zs : List A)
      → key x ≢ key y
      → insert_by y zs ≡ y ∷ zs
      → insert_by x zs ≡ x ∷ zs
      → insert_by x (y ∷ zs) ≡ insert_by y (x ∷ zs)
  insert_two x y zs n ey ex = elim (Bool-cases (less (key y) (key x))) [
    | inl h ↦ cc (insert_by_below x y zs h, ex, insert_by_above y x zs (above (key y) (key x) h))
    | inr h ↦ elim (Bool-cases (less (key x) (key y))) [
      | inl h' ↦ cc (insert_by_above x y zs h, insert_by_below y x zs h', ey)
      | inr h' ↦ absurd (n (less_total (key x) (key y) h' h))
    ]
  ]

  -- One item goes behind z, and the other stands before it.
  insert_between :
      (x y z : A) (zs : List A)
      → less (key z) (key x) ≡ true
      → less (key z) (key y) ≡ false
      → insert_by x (insert_by y (z ∷ zs)) ≡ insert_by y (insert_by x (z ∷ zs))
  insert_between x y z zs hx hy = elim (Bool-cases (less (key y) (key x))) [
    | inl h ↦ cc (
      insert_by_below x z zs hx,
      insert_by_above y z zs hy,
      insert_by_above y z (insert_by x zs) hy,
      insert_by_below x y (z ∷ zs) h,
    )
    | inr h ↦ cc (not_less_trans (key x) (key y) (key z) h hy)
  ]

  -- Items with different keys may be inserted in either order.
  insert_by_comm :
      (x y : A) (zs : List A)
      → key x ≢ key y
      → insert_by x (insert_by y zs) ≡ insert_by y (insert_by x zs)
  insert_by_comm x y [] n = unfold insert_by in insert_two x y [] n refl refl
  insert_by_comm x y (z ∷ zs) n = elim (Bool-cases (less (key z) (key x))) [
    | inl hx ↦ elim (Bool-cases (less (key z) (key y))) [
      | inl hy ↦ cc (
        insert_by_below x z zs hx,
        insert_by_below y z zs hy,
        insert_by_below x z (insert_by y zs) hx,
        insert_by_below y z (insert_by x zs) hy,
        insert_by_comm x y zs n,
      )
      | inr hy ↦ insert_between x y z zs hx hy
    ]
    | inr hx ↦ elim (Bool-cases (less (key z) (key y))) [
      | inl hy ↦ sym (insert_between y x z zs hy hx)
      | inr hy ↦
          let ey = insert_by_above y z zs hy in
          let ex = insert_by_above x z zs hx in cc (insert_two x y (z ∷ zs) n ey ex, ey, ex)
    ]
  ]

  pub All-permᴰ : {xs ys : List A} (P : A → Type 0) → Permᴰ xs ys → All P xs → All P ys
  All-permᴰ P Permᴰ.nil h = tt
  All-permᴰ P (Permᴰ.cons e d) h = (rw e at h.0, All-permᴰ P d h.1)
  All-permᴰ P (Permᴰ.swap e f) h = (rw f at h.1.0, (rw e at h.0, h.1.1))
  All-permᴰ P (Permᴰ.trans d f) h = All-permᴰ P f (All-permᴰ P d h)

  pub IsDistinct-permᴰ : {xs ys : List A} → Permᴰ xs ys → IsDistinct xs → IsDistinct ys
  IsDistinct-permᴰ Permᴰ.nil h = tt
  IsDistinct-permᴰ (Permᴰ.cons {b = b} {l₁ = l} e d) h = (
    All-permᴰ (λ y. key b ≢ key y) d (subst (λ c. All (λ y. key c ≢ key y) l) e h.0),
    IsDistinct-permᴰ d h.1,
  )
  IsDistinct-permᴰ (Permᴰ.swap {l = l} e f) h = (
    ((λ p. h.0.0 (ap key e ∙ sym p ∙ ap key (sym f))), along f l h.1.0),
    (along e l h.0.1, h.1.1),
  )
    where
      along :
          {a b : A} → a ≡ b → (l : List A) → All (λ y. key a ≢ key y) l → All (λ y. key b ≢ key y) l
      along e l = subst (λ c. All (λ y. key c ≢ key y) l) e
  IsDistinct-permᴰ (Permᴰ.trans d f) h = IsDistinct-permᴰ f (IsDistinct-permᴰ d h)

  -- Where the keys are distinct, the order in which items are handed over does not matter.
  pub sort_by-perm : {xs ys : List A} → Permᴰ xs ys → IsDistinct xs → sort_by xs ≡ sort_by ys
  unfolding sort_by
  sort_by-perm Permᴰ.nil h = refl
  sort_by-perm (Permᴰ.cons e d) h = cc (e, sort_by-perm d h.1)
  sort_by-perm (Permᴰ.swap {a = a} {b = b} {l = l} e f) h =
      cc (insert_by_comm a b (sort_by l) h.0.0, e, f)
  sort_by-perm (Permᴰ.trans d f) h = sort_by-perm d h ∙ sort_by-perm f (IsDistinct-permᴰ d h)
