-- ===== src/Cluster/Scrape/Events.antt =====
-- The part of `ScrapeResourcesForNamespace` that fills the map of services: the objects of each kind
-- in turn. A listing that fails is logged and taken for an empty one. The custom resources are those
-- of every supported version and kind, in the order of the two loops.
use environment_operator.Prelude.{
  Text, TextMap, codes, text_at, insert, Bool, false, List, [], ◌∷◌, ◌++◌, map, Option, none, some,
  Result, ok, err, is_empty, if◌then◌else◌,
}
use environment_operator.Bitesize.Types.{Service}
use environment_operator.Cluster.Scrape.Objects.{
  KubeService, KubeDeployment, KubeHpa, KubeIngress, KubeClaim, KubeCustom,
}
use environment_operator.Cluster.Scrape.{
  create_or_get, services, add_service, add_deployment, add_hpa, add_ingress, add_volume_claim,
  add_custom,
}

-- An object that was listed.
pub data Found : Type 0 where
  service : KubeService → Found
  deployment : KubeDeployment → Found
  hpa : KubeHpa → Found
  ingress : KubeIngress → Found
  claim : KubeClaim → Found
  custom : KubeCustom → Found

-- The service that the object belongs to.
unfoldable pub name_of : Found → Text
name_of (service k) = k.name
name_of (deployment k) = k.name
name_of (hpa k) = k.name
name_of (ingress k) = k.name
name_of (claim k) = text_at (codes "deployment") k.labels
name_of (custom k) = k.name

unfoldable pub put : Text → Option Service → TextMap Service → Option (TextMap Service)
put name none m = none
put name (some s) m = some (insert name s m)

-- A claim with no deployment label belongs to no service.
abbrev pub is_stray : Found → Bool
is_stray (claim k) = is_empty (text_at (codes "deployment") k.labels)
is_stray _ = false

module _ (zero : Text) where
  unfoldable pub write : Found → Service → Option Service
  write (service k) s = some (add_service k s)
  write (deployment k) s = add_deployment zero k s
  write (hpa k) s = add_hpa k s
  write (ingress k) s = add_ingress k s
  write (claim k) s = add_volume_claim k s
  write (custom k) s = some (add_custom k s)

  unfoldable pub add : Found → TextMap Service → Option (TextMap Service)
  add f m = if is_stray f then some m else put (name_of f) (write f (create_or_get (name_of f) m)) m

  unfoldable pub add_all : List Found → TextMap Service → Option (TextMap Service)
  add_all [] m = some m
  add_all (f ∷ fs) m = elim (add f m) [ none ↦ none | some m' ↦ add_all fs m' ]

  abbrev listed : {A : Type 0} → Result (List A) → List A
  listed (ok xs) = xs
  listed (err x) = []

  unfoldable pub scrape_services :
      Result (List KubeService)
      → Result (List KubeDeployment)
      → Result (List KubeHpa)
      → Result (List KubeIngress)
      → Result (List KubeClaim)
      → Result (List KubeCustom)
      → Option (List Service)
  scrape_services ss ds hs is cs rs =
      let found =
        map service (listed ss)
        ++ (map deployment (listed ds)
            ++ (map hpa (listed hs)
                ++ (map ingress (listed is)
                    ++ (map claim (listed cs) ++ map custom (listed rs))))) in
      elim (add_all found []) [ none ↦ none | some m ↦ some (services m) ]
