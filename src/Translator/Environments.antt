-- ===== src/Translator/Environments.antt =====
-- An environment whose objects are listed by the cluster, kind by kind: the services that are read.
pub mod Reads
pub mod Settled
pub mod Plain
pub mod Routed
pub mod Autoscaled
pub mod Members
use environment_operator.Prelude.{
  Text, TextMap, lookup, ==_refl, ◌==◌, List, [], ◌∷◌, ◌++◌, map, Option, none, some, Result, ok,
  ◌≡◌, refl, ap, sym, ◌∙◌, All, All-map, All-append, true,
}
use environment_operator.Prelude.Sort.{IsDistinct}
use environment_operator.Bitesize.Types.{Service}
use environment_operator.Cluster.Scrape.Objects.{KubeService, KubeDeployment, KubeHpa, KubeIngress}
use environment_operator.Cluster.Scrape.{services}
use environment_operator.Cluster.Scrape.Events.{
  Found, service, deployment, hpa, ingress, name_of, add_all, scrape_services,
}
use environment_operator.Cluster.Scrape.Separate.{is_of, own}
use environment_operator.Cluster.Scrape.Listings.{
  AllOf, Gathers, IsPlaced, gather, gather-own, own-append, own_all,
}

-- A configured service with what is listed of it.
pub record Member : Type 0 where
  pub desired : Service
  pub of_service : KubeService
  pub of_deployment : KubeDeployment
  pub of_hpa : Option KubeHpa
  pub of_ingress : Option KubeIngress

abbrev pub name : Member → Text
name m = m.desired.name

abbrev pub optional : {A : Type 0} → (A → Found) → Option A → List Found
optional f none = []
optional f (some x) = f x ∷ []

abbrev pub objects : Member → List Found
objects m =
    (service m.of_service ∷ [])
    ++ ((deployment m.of_deployment ∷ [])
        ++ (optional hpa m.of_hpa ++ optional ingress m.of_ingress))

abbrev pub Named : {A : Type 0} → (A → Text) → Text → Option A → Type 0
Named f n none = Unit
Named f n (some x) = f x ≡ n

-- The objects have the name of the service.
pub record IsNamed (m : Member) : Type 0 where
  pub of_service : m.of_service.name ≡ name m
  pub of_deployment : m.of_deployment.name ≡ name m
  pub of_hpa : Named (λ (k : KubeHpa). k.name) (name m) m.of_hpa
  pub of_ingress : Named (λ (k : KubeIngress). k.name) (name m) m.of_ingress

-- The list of the values that are there.
abbrev pub present : {A : Type 0} → (Member → Option A) → List Member → List A
present f [] = []
present f (m ∷ ms) = elim (f m) [ none ↦ present f ms | some x ↦ x ∷ present f ms ]

-- What is listed, in the order in which the code reads it.
abbrev pub listed : List Member → List Found
listed ms =
    map service (map (λ (m : Member). m.of_service) ms)
    ++ (map deployment (map (λ (m : Member). m.of_deployment) ms)
        ++ (map hpa (present (λ (m : Member). m.of_hpa) ms)
            ++ map ingress (present (λ (m : Member). m.of_ingress) ms)))

gather_each :
    {A : Type 0} (f : A → Found) (g : Member → A) (ms : List Member)
    → map f (map g ms) ≡ gather name (λ m. f (g m) ∷ []) ms
unfolding gather
gather_each f g [] = refl
gather_each f g (m ∷ ms) = ap (λ fs. f (g m) ∷ fs) (gather_each f g ms)

gather-present :
    {A : Type 0} (f : A → Found) (g : Member → Option A) (ms : List Member)
    → map f (present g ms) ≡ gather name (λ m. optional f (g m)) ms
unfolding gather
gather-present f g [] = refl
gather-present {A = A} f g (m ∷ ms) = step (g m) (gather-present f g ms)
  where
    step :
        (o : Option A)
        → map f (present g ms) ≡ gather name (λ m. optional f (g m)) ms
        → map f (elim o [ none ↦ present g ms | some x ↦ x ∷ present g ms ])
          ≡ optional f o ++ gather name (λ m. optional f (g m)) ms
    step none ih = ih
    step (some x) ih = ap (λ fs. f x ∷ fs) ih

pick_hpa-IsPlaced :
    (k : Text) (o : Option KubeHpa) → Named (λ (x : KubeHpa). x.name) k o → AllOf k (optional hpa o)
unfolding name_of
pick_hpa-IsPlaced k none h = tt
pick_hpa-IsPlaced k (some x) h = (rw (h, ==_refl k) refl, tt)

pick_ingress-IsPlaced :
    (k : Text) (o : Option KubeIngress)
    → Named (λ (x : KubeIngress). x.name) k o
    → AllOf k (optional ingress o)
unfolding name_of
pick_ingress-IsPlaced k none h = tt
pick_ingress-IsPlaced k (some x) h = (rw (h, ==_refl k) refl, tt)

abbrev pub pick_service : Member → List Found
pick_service m = service m.of_service ∷ []

abbrev pub pick_deployment : Member → List Found
pick_deployment m = deployment m.of_deployment ∷ []

abbrev pub pick_hpa : Member → List Found
pick_hpa m = optional hpa m.of_hpa

abbrev pub pick_ingress : Member → List Found
pick_ingress m = optional ingress m.of_ingress

pick_service-IsPlaced : (m : Member) → IsNamed m → IsPlaced name pick_service m
unfolding name_of
pick_service-IsPlaced m h = (rw (h.of_service, ==_refl (name m)) refl, tt)

pick_deployment-IsPlaced : (m : Member) → IsNamed m → IsPlaced name pick_deployment m
unfolding name_of
pick_deployment-IsPlaced m h = (rw (h.of_deployment, ==_refl (name m)) refl, tt)

-- The objects of a member are of its name.
pub objects-AllOf : (m : Member) → IsNamed m → AllOf (name m) (objects m)
objects-AllOf m h = (
  (pick_service-IsPlaced m h).0,
  (
    (pick_deployment-IsPlaced m h).0,
    All-append (λ f. is_of (name m) f ≡ true) (pick_hpa m) (pick_ingress m)
        (pick_hpa-IsPlaced (name m) m.of_hpa h.of_hpa)
        (pick_ingress-IsPlaced (name m) m.of_ingress h.of_ingress),
  ),
)

module _ (ms : List Member) (named : All IsNamed ms) (distinct : IsDistinct name ms) where
  pub listed_gathered :
      listed ms
      ≡ gather name pick_service ms
        ++ (gather name pick_deployment ms
            ++ (gather name pick_hpa ms ++ gather name pick_ingress ms))
  listed_gathered =
      rw
        (
          gather_each service (λ (m : Member). m.of_service) ms,
          gather_each deployment (λ (m : Member). m.of_deployment) ms,
          gather-present hpa (λ (m : Member). m.of_hpa) ms,
          gather-present ingress (λ (m : Member). m.of_ingress) ms,
        )
        refl

  abbrev Owns : Member → Type 0
  Owns m = own (name m) (listed ms) ≡ objects m

  owns :
      (m : Member)
      → Gathers name pick_service (gather name pick_service ms) m
      → Gathers name pick_deployment (gather name pick_deployment ms) m
      → Gathers name pick_hpa (gather name pick_hpa ms) m
      → Gathers name pick_ingress (gather name pick_ingress ms) m
      → Owns m
  owns m s d h i = rw (listed_gathered, own-append, own-append, own-append, s, d, h, i) refl

  pub listed-own : All (λ m. own (name m) (listed ms) ≡ objects m) ms
  listed-own =
      each ms (gather-own name pick_service ms (All-map pick_service-IsPlaced ms named) distinct)
        (gather-own name pick_deployment ms (All-map pick_deployment-IsPlaced ms named) distinct)
        (gather-own name pick_hpa ms
          (All-map (λ m h. pick_hpa-IsPlaced (name m) m.of_hpa h.of_hpa) ms named) distinct)
        (gather-own name pick_ingress ms
          (All-map (λ m h. pick_ingress-IsPlaced (name m) m.of_ingress h.of_ingress) ms named)
          distinct)
    where
      each :
          (xs : List Member)
          → All (Gathers name pick_service (gather name pick_service ms)) xs
          → All (Gathers name pick_deployment (gather name pick_deployment ms)) xs
          → All (Gathers name pick_hpa (gather name pick_hpa ms)) xs
          → All (Gathers name pick_ingress (gather name pick_ingress ms)) xs
          → All Owns xs
      each [] s d h i = tt
      each (x ∷ xs) s d h i = (owns x s.0 d.0 h.0 i.0, each xs s.1 d.1 h.1 i.1)
