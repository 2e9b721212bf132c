-- ===== src/Tests/Requests.antt =====
-- A request to deploy a blue/green service.
use environment_operator.Prelude.{
  Text, codes, ◌==◌, List, [], ◌∷◌, Option, none, some, Result, ok, ◌≡◌, ◌≢◌, refl, map, All,
}
use environment_operator.Bitesize.Types.{Service, green, blue}
use environment_operator.Bitesize.Colour.{colour_name}
use environment_operator.Bitesize.Service.{
  active_deployment_name, inactive_deployment_name, is_blue_green_parent, find_by_name,
}
use environment_operator.Bitesize.Gists.{Gist, Environment}
use environment_operator.Bitesize.BlueGreen.{child_copy}
use environment_operator.Bitesize.BlueGreen.Copies.{IsParent}
use environment_operator.Prelude.Sort.{IsDistinct}
use environment_operator.Bitesize.Names.{name_of}
use environment_operator.Web.{DeployRequest, deploying, Loaded, post_deploy, StatusService}
use environment_operator.Web.Statuses.{
  StatusResponse, replied, get_status, get_service_status, get_status-get_service_status,
}
use environment_operator.Web.Deploys.{post_deploy-inactive}
use environment_operator.Tests.Data.{shop, shop_deployment, green_active, environment}

abbrev inactive : Service
inactive = child_copy shop shop_deployment green blue

abbrev loaded : Loaded
loaded = record { services = shop ∷ inactive ∷ []; gists = [] }

-- The state lists what was done.
abbrev load : List Text → List Text × Result Loaded
load s = (codes "load" ∷ s, ok loaded)

abbrev apply : Service → List Gist → List Text → List Text × Option Text
apply svc gists s = (svc.version ∷ s, none)

abbrev request : DeployRequest
request = record { name = codes "shop"; application = codes "app"; version = codes "9" }

shop-IsParent : IsParent shop shop_deployment green
shop-IsParent = record {
  settings = green_active;
  has_deployment = refl;
  has_method = refl;
  has_settings = refl;
  has_active = refl;
  is_set = λ e. cc;
}

shop_found : find_by_name loaded.services (codes "shop") ≡ some shop
unfolding find_by_name ◌==◌
shop_found = refl

inactive_found : find_by_name loaded.services (codes "shop-blue") ≡ some inactive
unfolding find_by_name ◌==◌ child_copy colour_name
inactive_found = refl

post_deploy-inactive_example :
    (post_deploy load (some apply) (ok (some request)) []
      ≡ some (codes "9" ∷ codes "load" ∷ codes "load" ∷ codes "load" ∷ [], deploying))
    × (active_deployment_name shop ≢ some inactive.name)
unfolding colour_name
post_deploy-inactive_example =
    post_deploy-inactive load apply loaded (λ s. refl) request shop inactive shop_deployment green
      [] shop-IsParent shop_found inactive_found

-- A deployed blue/green service with its inactive copy.
abbrev deployed : Environment
deployed = environment (shop ∷ inactive ∷ [])

shop_inactive : inactive_deployment_name shop ≡ some (codes "shop-blue")
unfolding inactive_deployment_name colour_name is_blue_green_parent ◌==◌
shop_inactive = refl

copy_inactive : inactive_deployment_name inactive ≡ some []
unfolding inactive_deployment_name is_blue_green_parent child_copy ◌==◌
copy_inactive = refl

shop-IsDistinct : IsDistinct name_of (shop ∷ inactive ∷ [])
unfolding child_copy colour_name
shop-IsDistinct = (((λ e. cc e), tt), (tt, tt))

get_status-get_service_status_example :
    (r : StatusResponse) × (get_status none (ok deployed) ≡ some r)
    × (map (λ (st : StatusService). st.name) r.services ≡ map name_of (shop ∷ inactive ∷ []))
    × All
        (λ (st : StatusService). get_service_status none (ok deployed) st.name ≡ some (replied st))
        r.services
get_status-get_service_status_example =
    get_status-get_service_status deployed shop-IsDistinct
      ((codes "shop-blue", shop_inactive), (([], copy_inactive), tt))
