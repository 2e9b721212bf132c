-- ===== src/Bitesize/Names.antt =====
-- Looking a service up by its name, as FindByName of pkg/bitesize/service.go does.
use environment_operator.Prelude.{
  Text, ◌==◌, ==_iff, ==_refl, ==_ne, List, [], ◌∷◌, some, ◌≡◌, ◌≢◌, refl, Bool-cases, inl, inr,
  All,
}
use mathlib.Core.Path.{subst}
use environment_operator.Prelude.Sort.{IsDistinct}
use environment_operator.Bitesize.Types.{Service}
use environment_operator.Bitesize.Service.{find_by_name}

abbrev pub name_of : Service → Text
name_of d = d.name

-- What is found under a name has that name, and what all services have.
pub find_by_name-All :
    (P : Service → Type 0) (ds : List Service) (name : Text) (d : Service)
    → find_by_name ds name ≡ some d
    → All P ds
    → P d × (d.name ≡ name)
unfolding find_by_name
find_by_name-All P [] name d h all = cc
find_by_name-All P (x ∷ xs) name d h (p, ps) = elim (Bool-cases (x.name == name)) [
  | inl e ↦
      let same : x ≡ d = cc (h, e) in
      subst (λ (y : Service). P y × (y.name ≡ name)) same (p, (==_iff _ _).0 e)
  | inr e ↦ find_by_name-All P xs name d (rw e at h) ps
]

-- Where no two services have one name, each is found under its own.
abbrev pub Finds : List Service → Service → Type 0
Finds ds d = find_by_name ds d.name ≡ some d

Finds-cons :
    (x : Service) (all xs : List Service)
    → All (λ y. x.name ≢ y.name) xs
    → All (Finds all) xs
    → All (Finds (x ∷ all)) xs
unfolding find_by_name
Finds-cons x all [] n f = tt
Finds-cons x all (y ∷ ys) n f = (rw (==_ne x.name y.name n.0) f.0, Finds-cons x all ys n.1 f.1)

pub IsDistinct-Finds : (ds : List Service) → IsDistinct name_of ds → All (Finds ds) ds
unfolding find_by_name
IsDistinct-Finds [] h = tt
IsDistinct-Finds (d ∷ ds) h =
    (rw (==_refl d.name) refl, Finds-cons d ds ds h.0 (IsDistinct-Finds ds h.1))
