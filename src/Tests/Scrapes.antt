-- ===== src/Tests/Scrapes.antt =====
-- Reading two services back from the cluster.
use mathlib.Core.List.{Permᴰ}
use environment_operator.Prelude.{
  Text, TextMap, codes, lookup, insert, ◌==◌, List, [], ◌∷◌, none, some, pos, ◌≡◌, refl,
}
use environment_operator.Prelude.Sort.{IsSorted, IsDistinct}
use environment_operator.Bitesize.Types.{Service}
use environment_operator.Cluster.Scrape.Objects.{KubeService, KubeHpa}
use environment_operator.Cluster.Scrape.Readable.{IsThere, IsReadable, add_all-IsThere}
use environment_operator.Cluster.Scrape.{or_new, create_or_get, add_service, services}
use environment_operator.Cluster.Scrape.Events.{
  Found, service, hpa, name_of, write, put, add, add_all,
}
use environment_operator.Cluster.Scrape.Keyed.{add_all-services}
use environment_operator.Cluster.Scrape.Separate.{own, read_own, add_all-own}

abbrev listed : Text → KubeService
listed name = record { name = name; labels = []; annotations = []; ports = pos 80 ∷ [] }

abbrev entry : Text → Text × Service
entry name = (name, add_service (listed name) (or_new name none))

abbrev filled : TextMap Service
filled = entry (codes "web") ∷ entry (codes "api") ∷ []

abbrev reversed : TextMap Service
reversed = entry (codes "api") ∷ entry (codes "web") ∷ []

abbrev found : List Found
found = service (listed (codes "web")) ∷ service (listed (codes "api")) ∷ []

two_added : add_all (codes "0") found [] ≡ some filled
unfolding add_all add put write name_of create_or_get lookup insert ◌==◌
two_added = refl

add_all-services_example :
    (services filled ≡ services reversed)
    × IsSorted (λ (s : Service). s.name) (services filled)
    × IsDistinct (λ (s : Service). s.name) (services filled)
add_all-services_example =
    add_all-services (codes "0") found filled reversed two_added (Permᴰ.swap refl refl)

abbrev autoscaler : KubeHpa
autoscaler = record {
  name = codes "web";
  min_replicas = some (pos 2);
  max_replicas = pos 5;
  metrics =
      record { type = codes "Resource"; resource = some (codes "cpu", some (pos 80)); pods = none }
      ∷ [];
}

autoscaler-IsReadable : IsReadable (hpa autoscaler)
unfolding ◌==◌
autoscaler-IsReadable = (tt, tt)

add_all-IsThere_example :
    IsThere (add_all (codes "0") (service (listed (codes "web")) ∷ hpa autoscaler ∷ []) [])
add_all-IsThere_example =
    add_all-IsThere (codes "0") (service (listed (codes "web")) ∷ hpa autoscaler ∷ []) []
      (tt, (autoscaler-IsReadable, tt))

add_all-own_example :
    read_own (codes "0") (codes "web") (own (codes "web") found) (lookup (codes "web") [])
    ≡ some (lookup (codes "web") filled)
add_all-own_example = add_all-own (codes "0") (codes "web") found [] filled two_added
