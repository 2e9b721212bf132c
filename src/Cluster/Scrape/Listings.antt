-- ===== src/Cluster/Scrape/Listings.antt =====
-- What is listed of several services, kind by kind, has the objects of each of them.
use environment_operator.Prelude.{
  Text, ==_ne, ==_iff, Bool-cases, inl, inr, true, false, List, [], ◌∷◌, ◌++◌, ◌≡◌, ◌≢◌, refl, ap,
  sym, ◌∙◌, All, All-append,
}
use mathlib.Core.List.{append-nil}
use environment_operator.Prelude.Sort.{IsDistinct}
use environment_operator.Cluster.Scrape.Events.{Found, name_of, is_stray}
use environment_operator.Cluster.Scrape.Separate.{is_of, own}

abbrev pub AllOf : Text → List Found → Type 0
AllOf name fs = All (λ f. is_of name f ≡ true) fs

pub own-append :
    (name : Text) (fs gs : List Found) → own name (fs ++ gs) ≡ own name fs ++ own name gs
unfolding own
own-append name [] gs = refl
own-append name (f ∷ fs) gs = elim (Bool-cases (is_of name f)) [
  | inl e ↦ rw (e, own) (ap (λ t. f ∷ t) (own-append name fs gs))
  | inr e ↦ rw (e, own) (own-append name fs gs)
]

pub own_all : (name : Text) (fs : List Found) → AllOf name fs → own name fs ≡ fs
unfolding own
own_all name [] h = refl
own_all name (f ∷ fs) h = rw (h.0, own, own_all name fs h.1) refl

pub own_none :
    (name : Text) (fs : List Found) → All (λ f. is_of name f ≡ false) fs → own name fs ≡ []
unfolding own
own_none name [] h = refl
own_none name (f ∷ fs) h = rw (h.0, own, own_none name fs h.1) refl

-- An object is of one service only.
other_name :
    (name other : Text) (f : Found) → is_of name f ≡ true → name ≢ other → is_of other f ≡ false
other_name name other f h n = elim (Bool-cases (is_stray f)) [
  | inl e ↦ rw e refl
  | inr e ↦
      let named : name_of f ≡ name = (==_iff (name_of f) name).0 (rw e at h) in
      rw (e, ==_ne (name_of f) other (λ same. n (sym named ∙ same))) refl
]

others :
    (name other : Text) (fs : List Found)
    → AllOf name fs
    → name ≢ other
    → All (λ f. is_of other f ≡ false) fs
others name other [] h n = tt
others name other (f ∷ fs) h n = (other_name name other f h.0 n, others name other fs h.1 n)

-- One kind of object, of which each service has some under its name.
module _ {X : Type 0} (name : X → Text) (pick : X → List Found) where
  unfoldable pub gather : List X → List Found
  gather [] = []
  gather (x ∷ xs) = pick x ++ gather xs

  abbrev pub IsPlaced : X → Type 0
  IsPlaced x = AllOf (name x) (pick x)

  pub gather_none :
      (other : Text) (xs : List X)
      → All IsPlaced xs
      → All (λ x. other ≢ name x) xs
      → own other (gather xs) ≡ []
  unfolding gather own
  gather_none other [] placed n = refl
  gather_none other (x ∷ xs) placed n =
      own-append other (pick x) (gather xs)
      ∙ rw
          (
            own_none other (pick x) (others (name x) other (pick x) placed.0 (λ e. n.0 (sym e))),
            gather_none other xs placed.1 n.1,
          )
          refl

  abbrev pub Gathers : List Found → X → Type 0
  Gathers fs x = own (name x) fs ≡ pick x

  before :
      (x : X) (ys : List X) (fs : List Found)
      → IsPlaced x
      → All (λ y. name x ≢ name y) ys
      → All (Gathers fs) ys
      → All (Gathers (pick x ++ fs)) ys
  before x [] fs placed n h = tt
  before x (y ∷ ys) fs placed n h = (
    own-append (name y) (pick x) fs
        ∙ rw (own_none (name y) (pick x) (others (name x) (name y) (pick x) placed n.0)) h.0,
    before x ys fs placed n.1 h.1,
  )

  pub gather-own :
      (xs : List X) → All IsPlaced xs → IsDistinct name xs → All (Gathers (gather xs)) xs
  unfolding gather
  gather-own [] placed n = tt
  gather-own (x ∷ xs) placed n = (
    own-append (name x) (pick x) (gather xs)
        ∙ rw (own_all (name x) (pick x) placed.0, gather_none (name x) xs placed.1 n.0)
            (append-nil (pick x)),
    before x xs (gather xs) placed.0 n.0 (gather-own xs placed.1 n.1),
  )

  pub gather-All :
      (P : Found → Type 0) (xs : List X) → All (λ x. All P (pick x)) xs → All P (gather xs)
  unfolding gather
  gather-All P [] h = tt
  gather-All P (x ∷ xs) h = All-append P (pick x) (gather xs) h.0 (gather-All P xs h.1)
