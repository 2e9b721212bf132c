-- ===== src/Tests/Resting.antt =====
-- A service that is deployed, read back and compared.
use environment_operator.Prelude.{
  TextMap, codes, split, ◌==◌, arith, false, [], ◌∷◌, none, some, ok, pos, ◌≡◌, refl, inl, inr,
}
use environment_operator.Bitesize.Types.{Service, HorizontalPodAutoscaler}
use environment_operator.Bitesize.Zero.{no_metric}
use environment_operator.Bitesize.Service.{is_blue_green_parent, deployment_method}
use environment_operator.Cluster.Scrape.{services}
use environment_operator.Cluster.Scrape.Events.{service, deployment, ingress, hpa, add_all}
use environment_operator.Diff.Compare.{Outcome, compare}
use environment_operator.Translator.Objects.{
  DeploymentObject, ServiceObject, IngressObject, HpaObject,
}
use environment_operator.Translator.Containers.{
  secret_parts, missing_secret, colour_vars, vars_of, kube_env_vars, mounts_of, volume_mounts,
  container_with, container_of,
}
use environment_operator.Translator.Deployments.{deployment_of, deployment_object, hpa_object}
use environment_operator.Translator.Services.{service_object}
use environment_operator.Translator.Deployed.{IsHeld, seen}
use environment_operator.Translator.Settled.{Core, plain, seen_service}
use environment_operator.Translator.Ingresses.{ingress_object}
use environment_operator.Translator.Routed.{IsRouted, seen_ingress}
use environment_operator.Translator.Resting.{compare-resting}
use environment_operator.Translator.Resting.Routes.{Route, routed}
use environment_operator.Translator.Resting.Exposed.{compare-routed}
use environment_operator.Translator.Autoscalers.{seen_hpa, IsMetric}
use environment_operator.Translator.Resting.Autoscaled.{scaled}
use environment_operator.Translator.Resting.Scaled.{compare-scaled}
use environment_operator.Tests.Translations.{
  process, cluster, variables, made_variables, variables-IsPlain,
}
use environment_operator.Tests.Data.{tools, tools_laws}

abbrev pub core : Core
core = record {
  name = codes "api";
  application = codes "backend";
  version = codes "7";
  replicas = pos 3;
  port = pos 80;
  ports = [];
  requests = record { cpu = codes "100m"; memory = codes "10Mi" };
  limits = record { cpu = codes "500m"; memory = codes "100Mi" };
  liveness_probe = none;
  readiness_probe = none;
  env_vars = variables;
  commands = codes "serve" ∷ [];
  annotations = (codes "team", codes "a") ∷ [];
}

core-IsHeld : IsHeld cluster (plain core)
core-IsHeld = record {
  variables = variables-IsPlain;
  liveness = tt;
  readiness = tt;
  count = omega arith;
  requested = (refl, refl);
  limited = (refl, refl);
}

abbrev core_deployment : DeploymentObject
core_deployment =
    deployment_of process cluster (codes "ns") (plain core)
      (container_with cluster (plain core) [] made_variables)

core_made : deployment_object process cluster (codes "ns") (plain core) ≡ ok (some core_deployment)
unfolding deployment_object container_of volume_mounts mounts_of kube_env_vars vars_of
    missing_secret secret_parts split colour_vars is_blue_green_parent deployment_method ◌==◌
core_made = refl

compare-resting_example :
    (o : ServiceObject) × (read : TextMap Service) × (outcome : Outcome) × (service_object
        (codes "ns")
        (plain core)
      ≡ some o)
    × (add_all
          (codes "0")
          (service (seen_service o)
            ∷ deployment (seen (codes "today") (pos 3) core_deployment)
            ∷ [])
          []
        ≡ some read)
    × (compare tools (codes "ns") (plain core ∷ []) (services read) ≡ some (outcome, false))
compare-resting_example =
    compare-resting tools process cluster (codes "ns") (codes "0") (codes "today") (pos 3) core
      core_deployment tools_laws core-IsHeld (omega arith, tt) (tt, tt) core_made

abbrev pub route : Route
route = record {
  url = codes "a.example.com";
  urls = codes "b.example.com" ∷ [];
  ssl = codes "true";
  https_only = codes "false";
  https_backend = [];
  http2 = codes "true";
  backend = codes "proxy";
  backend_port = pos 8080;
}

route-IsHeld : IsHeld cluster (routed core route)
route-IsHeld = record {
  variables = variables-IsPlain;
  liveness = tt;
  readiness = tt;
  count = omega arith;
  requested = (refl, refl);
  limited = (refl, refl);
}

route-IsRouted : IsRouted (routed core route) (pos 80)
unfolding ◌==◌
route-IsRouted = record {
  ssl = inr refl;
  https_only = inl refl;
  backend = refl;
  backend_port = refl;
  port_fits = omega arith;
  backend_port_fits = omega arith;
}

route_made :
    deployment_object process cluster (codes "ns") (routed core route) ≡ ok (some core_deployment)
unfolding deployment_object container_of volume_mounts mounts_of kube_env_vars vars_of
    missing_secret secret_parts split colour_vars is_blue_green_parent deployment_method ◌==◌
route_made = refl

compare-routed_example :
    (o : ServiceObject) × (i : IngressObject) × (read : TextMap Service) × (outcome : Outcome)
    × (service_object (codes "ns") (routed core route) ≡ some o)
    × (ingress_object (codes "ns") (routed core route) ≡ some i)
    × (add_all
          (codes "0")
          (service (seen_service o)
            ∷ deployment (seen (codes "today") (pos 3) core_deployment)
            ∷ ingress (seen_ingress i)
            ∷ [])
          []
        ≡ some read)
    × (compare tools (codes "ns") (routed core route ∷ []) (services read) ≡ some (outcome, false))
compare-routed_example =
    compare-routed tools process cluster (codes "ns") (codes "0") (codes "today") (pos 3) core route
      core_deployment tools_laws route-IsHeld (omega arith, tt) (tt, tt) route-IsRouted refl
      route_made

abbrev pub autoscaler : HorizontalPodAutoscaler
autoscaler = record {
  min_replicas = pos 2;
  max_replicas = pos 5;
  metric = record no_metric { name = codes "cpu"; target_average_utilization = pos 80 };
}

scaled-IsHeld : IsHeld cluster (scaled core autoscaler)
scaled-IsHeld = record {
  variables = variables-IsPlain;
  liveness = tt;
  readiness = tt;
  count = omega arith;
  requested = (refl, refl);
  limited = (refl, refl);
}

pub autoscaler-IsMetric : IsMetric cluster autoscaler.metric
unfolding ◌==◌
autoscaler-IsMetric = (refl, refl)

scaled_made :
    deployment_object process cluster (codes "ns") (scaled core autoscaler)
    ≡ ok (some core_deployment)
unfolding deployment_object container_of volume_mounts mounts_of kube_env_vars vars_of
    missing_secret secret_parts split colour_vars is_blue_green_parent deployment_method ◌==◌
scaled_made = refl

compare-scaled_example :
    (o : ServiceObject) × (a : HpaObject) × (read : TextMap Service) × (outcome : Outcome)
    × (service_object (codes "ns") (scaled core autoscaler) ≡ some o)
    × (hpa_object cluster (codes "ns") (scaled core autoscaler) ≡ some a)
    × (add_all
          (codes "0")
          (service (seen_service o)
            ∷ deployment
                (record (seen (codes "today") (pos 3) core_deployment) { replicas = some (pos 4) })
            ∷ hpa (seen_hpa a)
            ∷ [])
          []
        ≡ some read)
    × (compare tools (codes "ns") (scaled core autoscaler ∷ []) (services read)
        ≡ some (outcome, false))
compare-scaled_example =
    compare-scaled tools process cluster (codes "ns") (codes "0") (codes "today") (pos 3) (pos 4)
      core autoscaler core_deployment tools_laws scaled-IsHeld (omega arith, tt) (tt, tt)
      autoscaler-IsMetric refl scaled_made
