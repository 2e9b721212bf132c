-- ===== src/Tests/Comparisons.antt =====
-- The comparison on small configurations.
use environment_operator.Prelude.{
  ◌++◌, codes, ◌==◌, true, false, [], ◌∷◌, some, lookup, insert, text_at, ◌≡◌, ◌≢◌, none, pos, refl,
  Any,
}
use environment_operator.Bitesize.Service.{
  active_deployment_name, is_blue_green_parent, is_active_blue_green, is_tls_enabled, find_by_name,
}
use environment_operator.Diff.Align.{align_desired, align_current}
use environment_operator.Diff.Compare.{
  Outcome, service_changed, compare, compare_all, compare_service, compare_versioned, force_parent,
  add_difference, check_secret, share_desired, share_current,
}
use environment_operator.Bitesize.Types.{Service, green, blue}
use environment_operator.Bitesize.Zero.{no_empties}
use environment_operator.Bitesize.Volumes.{sort_volumes_by_vol_name, pick_volumes}
use environment_operator.Prelude.Sort.{sort_by}
use environment_operator.Bitesize.Service.{active_deployment_tag}
use environment_operator.Bitesize.BlueGreen.{copy_blue_green_service, child_copy}
use environment_operator.Cluster.Scrape.Objects.{KubeService, KubeDeployment, KubeContainer}
use environment_operator.Cluster.Scrape.Containers.{mounted_volumes}
use environment_operator.Cluster.Scrape.{
  more_volumes, with_deployment, create_or_get, add_service, add_deployment,
}
use environment_operator.Diff.Compare.Copies.{align_desired-copy}
use environment_operator.Diff.Compare.{without_status}
use environment_operator.Diff.Compare.Runs.{managed, changed-managed}
use environment_operator.Diff.Compare.Converged.{Agrees, Agrees-self, compare-converged}
use environment_operator.Diff.Compare.Cleared.{share_desired-active_name}
use environment_operator.Tests.Data.{shop, shop_deployment, web, running, old, tools, tools_laws}

pub web-Agrees : Agrees tools (codes "ns") (running ∷ []) web
unfolding find_by_name ◌==◌ active_deployment_name is_blue_green_parent is_tls_enabled
web-Agrees =
    Agrees-self tools (codes "ns") tools_laws (running ∷ []) running web (codes "web") refl refl
      (tt, tt) refl refl

compare-converged_example :
    (o : Outcome) × (compare tools (codes "ns") (web ∷ []) (running ∷ []) ≡ some (o, false))
    × (o.changes ≡ [])
compare-converged_example =
    compare-converged tools (codes "ns") tools_laws (web ∷ []) (running ∷ []) (tt, tt)
      (web-Agrees, tt)

-- The outcome for a service whose version has changed.
abbrev web_outcome : Outcome
web_outcome = record {
  changes = (codes "web", codes "~") ∷ [];
  desired = web ∷ [];
  existing = old ∷ [];
}

web_compared : compare tools (codes "ns") (web ∷ []) (old ∷ []) ≡ some (web_outcome, true)
unfolding compare compare_all compare_service compare_versioned force_parent add_difference
    check_secret share_desired share_current find_by_name ◌==◌ is_active_blue_green
    is_blue_green_parent is_tls_enabled align_desired align_current insert text_at lookup
web_compared = refl

web_reported : service_changed web_outcome.changes (codes "web") ≡ true
unfolding service_changed lookup ◌==◌
web_reported = refl

changed-managed_example : Any (λ d. (d.name ≡ codes "web") × (managed d ≡ true)) (web ∷ [])
changed-managed_example =
    changed-managed tools (codes "ns") (codes "web") (web ∷ []) (old ∷ []) web_outcome true
      web_compared web_reported

share_desired-active_name_example :
    active_deployment_name (share_desired tools (codes "ns") (some running) shop)
    ≡ some (codes "shop" ++ codes "-")
share_desired-active_name_example =
    share_desired-active_name tools (codes "ns") running shop shop_deployment refl refl

-- A blue/green service with no URLs, of which the inactive copy runs.
abbrev unexposed : Service
unexposed = record shop { external_url = []; empties = record no_empties { external_url = true } }

abbrev blue_copy : Service
blue_copy = child_copy unexposed shop_deployment green blue

abbrev blue_object : KubeService
blue_object = record { name = blue_copy.name; labels = []; annotations = []; ports = pos 80 ∷ [] }

abbrev blue_container : KubeContainer
blue_container = record {
  requests = [];
  limits = [];
  env = [];
  liveness_probe = none;
  readiness_probe = none;
  mounts = [];
  command = [];
}

abbrev blue_deployment : KubeDeployment
blue_deployment = record {
  name = blue_copy.name;
  labels = [];
  replicas = some (pos 1);
  containers = blue_container ∷ [];
  volumes = [];
  template_annotations = none;
  created = codes "today";
  available_replicas = pos 1;
  status_replicas = pos 1;
  updated_replicas = pos 1;
}

abbrev blue_entry : Service
blue_entry =
    with_deployment (codes "0") blue_deployment blue_container []
      (add_service blue_object (create_or_get blue_copy.name []))

blue_copied : copy_blue_green_service unexposed blue ≡ some blue_copy
unfolding copy_blue_green_service active_deployment_tag
blue_copied = refl

blue_read :
    add_deployment
      (codes "0")
      blue_deployment
      (add_service blue_object (create_or_get blue_copy.name []))
    ≡ some blue_entry
unfolding add_deployment add_service create_or_get more_volumes mounted_volumes
    sort_volumes_by_vol_name pick_volumes sort_by lookup
blue_read = refl

align_desired-copy_example :
    align_desired tools blue_copy (without_status blue_entry)
    ≢ align_current (without_status blue_entry)
align_desired-copy_example =
    align_desired-copy tools (codes "0") unexposed blue_copy blue_entry blue blue_object
      blue_deployment blue_copied refl blue_read
