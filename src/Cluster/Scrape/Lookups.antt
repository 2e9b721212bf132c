-- ===== src/Cluster/Scrape/Lookups.antt =====
-- The services of the map are found under their keys.
use mathlib.Core.List.Permᴰ
use mathlib.Core.Path.{subst}
use environment_operator.Prelude.{
  Text, TextMap, lookup, ◌==◌, ==_iff, ==_refl, ==_ne, List, [], ◌∷◌, map, some, ◌≡◌, ◌≢◌, refl,
  sym, ap, ◌∙◌, All, Bool-cases, inl, inr,
}
use environment_operator.Prelude.Sort.{IsDistinct, sort_by-permᴰ, All-permᴰ, IsDistinct-permᴰ}
use environment_operator.Bitesize.Types.{Service}
use environment_operator.Bitesize.Service.{find_by_name}
use environment_operator.Bitesize.Names.{name_of, Finds, IsDistinct-Finds}
use environment_operator.Cluster.Scrape.{services}
use environment_operator.Cluster.Scrape.Keyed.{key, IsKeyed, values-IsDistinct}

abbrev values : TextMap Service → List Service
values m = map (λ e. e.1) m

-- The service is the entry under its own name.
abbrev pub IsEntry : TextMap Service → Service → Type 0
IsEntry m s = lookup s.name m ≡ some s

IsEntry-cons :
    (k : Text) (s : Service) (m n : TextMap Service)
    → All (λ e. e.1.name ≡ e.0) n
    → All (λ e. k ≢ key e) n
    → All (IsEntry m) (values n)
    → All (IsEntry ((k, s) ∷ m)) (values n)
unfolding lookup
IsEntry-cons k s m [] named other h = tt
IsEntry-cons k s m ((j, v) ∷ n) named other h = (
  rw (==_ne k v.name (λ same. other.0 (same ∙ named.0))) h.0,
  IsEntry-cons k s m n named.1 other.1 h.1,
)

values-IsEntry : (m : TextMap Service) → IsKeyed m → All (IsEntry m) (values m)
unfolding lookup
values-IsEntry [] keyed = tt
values-IsEntry ((k, s) ∷ m) keyed = (
  rw (keyed.0.0, ==_refl k) refl,
  IsEntry-cons k s m m keyed.0.1 keyed.1.0 (values-IsEntry m (keyed.0.1, keyed.1.1)),
)

values-lookup :
    (P : Service → Type 0) (k : Text) (s : Service) (m : TextMap Service)
    → All (λ e. e.1.name ≡ e.0) m
    → All P (values m)
    → lookup k m ≡ some s
    → P s × (s.name ≡ k)
unfolding lookup
values-lookup P k s [] named h e = cc
values-lookup P k s ((j, v) ∷ m) named h e = elim (Bool-cases (j == k)) [
  | inl q ↦
      let same : v ≡ s = cc (rw q at e) in
      subst (λ x. P x × (x.name ≡ k)) same (h.0, named.0 ∙ (==_iff j k).0 q)
  | inr q ↦ values-lookup P k s m named.1 h.1 (rw q at e)
]

-- Every service of the list is the entry of its name, and every entry is found in the list.
pub services-IsEntry : (m : TextMap Service) → IsKeyed m → All (IsEntry m) (services m)
unfolding services
services-IsEntry m keyed =
    All-permᴰ name_of (IsEntry m) (Permᴰ.symm (sort_by-permᴰ name_of (values m)))
      (values-IsEntry m keyed)

pub services-IsDistinct : (m : TextMap Service) → IsKeyed m → IsDistinct name_of (services m)
unfolding services
services-IsDistinct m keyed =
    IsDistinct-permᴰ name_of (Permᴰ.symm (sort_by-permᴰ name_of (values m)))
      (values-IsDistinct m keyed)

pub find_by_name-services :
    (k : Text) (s : Service) (m : TextMap Service)
    → IsKeyed m
    → lookup k m ≡ some s
    → find_by_name (services m) k ≡ some s
unfolding services
find_by_name-services k s m keyed e =
    let found : All (Finds (services m)) (values m) =
      All-permᴰ name_of (Finds (services m)) (sort_by-permᴰ name_of (values m))
        (IsDistinct-Finds (services m) (services-IsDistinct m keyed)) in
    let (h, named) = values-lookup (Finds (services m)) k s m keyed.0 found e in
    ap (find_by_name (services m)) (sym named) ∙ h
