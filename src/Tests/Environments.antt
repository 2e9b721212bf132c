-- ===== src/Tests/Environments.antt =====
-- The operator on a cluster that lists the objects of three services.
use environment_operator.Prelude.{
  Text, codes, split, ◌==◌, ==_iff, arith, List, [], ◌∷◌, map, Option, none, some, Result, ok, err,
  pos, ◌≡◌, ◌≢◌, refl, inl, inr, ◌∙◌,
}
use environment_operator.Prelude.Sort.{IsDistinct}
use environment_operator.Bitesize.Types.{Service}
use environment_operator.Bitesize.Service.{is_blue_green_parent, deployment_method, is_tls_enabled}
use environment_operator.Bitesize.Gists.{Gist, Environment}
use environment_operator.Cluster.Scrape.Namespaces.{Listing, scrape_namespace}
use environment_operator.Git.{client, pull}
use environment_operator.Operator.Loop.{main, refreshes}
use environment_operator.Operator.Deployed.{Lists, Scrapes, main-deployed}
use environment_operator.Translator.Objects.{DeploymentObject}
use environment_operator.Translator.Containers.{
  secret_parts, missing_secret, colour_vars, vars_of, kube_env_vars, mounts_of, volume_mounts,
  container_with, container_of,
}
use environment_operator.Translator.Deployments.{deployment_of, deployment_object}
use environment_operator.Translator.Deployed.{IsHeld}
use environment_operator.Translator.Settled.{Core, plain, made_service, service_made}
use environment_operator.Translator.Routed.{IsRouted, made_ingress, ingress_object-made}
use environment_operator.Translator.Resting.Routes.{routed, routed-service, routed-deployment}
use environment_operator.Translator.Resting.Autoscaled.{
  scaled, scaled-service, scaled-deployment, made_hpa, hpa_made,
}
use environment_operator.Translator.Environments.{Member, name, present}
use environment_operator.Translator.Environments.Plain.{plain_member}
use environment_operator.Translator.Environments.Routed.{routed_member}
use environment_operator.Translator.Environments.Autoscaled.{scaled_member}
use environment_operator.Translator.Environments.Members.{
  IsDeployed, plainly, published, autoscaled,
}
use environment_operator.Translator.Environments.Settled.{desired}
use environment_operator.Tests.Translations.{process, cluster, made_variables, variables-IsPlain}
use environment_operator.Tests.Data.{tools, tools_laws, environment}
use environment_operator.Tests.Resting.{core, route, autoscaler, autoscaler-IsMetric}
use environment_operator.Tests.Loads.{config, library}
use environment_operator.Tests.Reapers.{clients}
use environment_operator.Tests.Rounds.{apply}

abbrev named_core : Text → Core
named_core n = record core { name = n }

core_made :
    (n : Text)
    → deployment_object process cluster (codes "ns") (plain (named_core n))
      ≡ ok (
          some (
            deployment_of process cluster
              (codes "ns")
              (plain (named_core n))
              (container_with cluster (plain (named_core n)) [] made_variables)))
unfolding deployment_object container_of volume_mounts mounts_of kube_env_vars vars_of
    missing_secret secret_parts split colour_vars is_blue_green_parent deployment_method ◌==◌
core_made n = refl

abbrev made_deployment : Text → DeploymentObject
made_deployment n =
    deployment_of process cluster (codes "ns") (plain (named_core n))
      (container_with cluster (plain (named_core n)) [] made_variables)

named-IsHeld : (n : Text) → IsHeld cluster (plain (named_core n))
named-IsHeld n = record {
  variables = variables-IsPlain;
  liveness = tt;
  readiness = tt;
  count = omega arith;
  requested = (refl, refl);
  limited = (refl, refl);
}

routed-IsHeld : (n : Text) → IsHeld cluster (routed (named_core n) route)
routed-IsHeld n = record {
  variables = variables-IsPlain;
  liveness = tt;
  readiness = tt;
  count = omega arith;
  requested = (refl, refl);
  limited = (refl, refl);
}

scaled-IsHeld : (n : Text) → IsHeld cluster (scaled (named_core n) autoscaler)
scaled-IsHeld n = record {
  variables = variables-IsPlain;
  liveness = tt;
  readiness = tt;
  count = omega arith;
  requested = (refl, refl);
  limited = (refl, refl);
}

web-IsRouted : IsRouted (routed (named_core (codes "web")) route) (pos 80)
unfolding ◌==◌
web-IsRouted = record {
  ssl = inr refl;
  https_only = inl refl;
  backend = refl;
  backend_port = refl;
  port_fits = omega arith;
  backend_port_fits = omega arith;
}

abbrev api_member : Member
api_member =
    plain_member tools process cluster (codes "ns") (codes "0") (named_core (codes "api"))
      (made_service (codes "ns") (named_core (codes "api"))) (codes "today") (pos 3)
      (made_deployment (codes "api"))

abbrev web_member : Member
web_member =
    routed_member tools process cluster (codes "ns") (codes "0") (named_core (codes "web")) route
      (made_service (codes "ns") (named_core (codes "web")))
      (made_ingress (codes "ns") (routed (named_core (codes "web")) route) (pos 80)) (codes "today")
      (pos 3) (made_deployment (codes "web"))

abbrev jobs_member : Member
jobs_member =
    scaled_member tools process cluster (codes "ns") (codes "0") (named_core (codes "jobs"))
      autoscaler (made_service (codes "ns") (named_core (codes "jobs")))
      (made_hpa cluster (codes "ns") (named_core (codes "jobs")) autoscaler) (codes "today") (pos 3)
      (pos 4) (made_deployment (codes "jobs"))

abbrev members : List Member
members = api_member ∷ web_member ∷ jobs_member ∷ []

api-IsDeployed : IsDeployed tools process cluster (codes "ns") (codes "0") api_member
api-IsDeployed =
    plainly (named_core (codes "api")) (codes "today") (pos 3) _ _ (named-IsHeld (codes "api"))
      (omega arith, tt) (tt, tt) (service_made (codes "ns") (named_core (codes "api")))
      (core_made (codes "api"))

web-IsDeployed : IsDeployed tools process cluster (codes "ns") (codes "0") web_member
unfolding is_tls_enabled ◌==◌
web-IsDeployed =
    published (named_core (codes "web")) route (codes "today") (pos 3) _ _ _
      (routed-IsHeld (codes "web")) (omega arith, tt) (tt, tt) web-IsRouted refl
      (routed-service (codes "ns") (named_core (codes "web")) route
        ∙ service_made (codes "ns") (named_core (codes "web")))
      (ingress_object-made (codes "ns") (routed (named_core (codes "web")) route) (pos 80) [] refl)
      (routed-deployment process cluster (codes "ns") (named_core (codes "web")) route
        ∙ core_made (codes "web"))

jobs-IsDeployed : IsDeployed tools process cluster (codes "ns") (codes "0") jobs_member
jobs-IsDeployed =
    autoscaled (named_core (codes "jobs")) autoscaler (codes "today") (pos 3) (pos 4) _ _ _
      (scaled-IsHeld (codes "jobs")) (omega arith, tt) (tt, tt) autoscaler-IsMetric refl
      (scaled-service (codes "ns") (named_core (codes "jobs")) autoscaler
        ∙ service_made (codes "ns") (named_core (codes "jobs")))
      (hpa_made cluster (codes "ns") (named_core (codes "jobs")) autoscaler)
      (scaled-deployment process cluster (codes "ns") (named_core (codes "jobs")) autoscaler
        ∙ core_made (codes "jobs"))

names_differ :
    (codes "api" ≢ codes "web") × (codes "api" ≢ codes "jobs") × (codes "web" ≢ codes "jobs")
unfolding ◌==◌
names_differ =
    ((λ e. cc ((==_iff _ _).1 e)), (λ e. cc ((==_iff _ _).1 e)), (λ e. cc ((==_iff _ _).1 e)))

members-IsDistinct : IsDistinct name members
members-IsDistinct = let (a, b, c) = names_differ in ((a, (b, tt)), ((c, tt), (tt, tt)))

abbrev listing : Listing (List Text)
listing = record {
  labels = λ n s. ok [];
  services = λ n s. ok (map (λ (m : Member). m.of_service) members);
  deployments = λ n s. ok (map (λ (m : Member). m.of_deployment) members);
  hpas = λ n s. ok (present (λ (m : Member). m.of_hpa) members);
  ingresses = λ n s. ok (present (λ (m : Member). m.of_ingress) members);
  claims = λ n s. ok [];
  customs = λ n s. ok [];
  config_maps = λ n s. ok [];
}

listing-Lists : Lists listing (codes "ns") [] members
listing-Lists = record {
  labels = [];
  labelled = refl;
  services = refl;
  deployments = refl;
  hpas = refl;
  ingresses = refl;
  claims = refl;
  customs = refl;
  config_maps = refl;
}

abbrev scrape_of : Option (Result Environment) → Result (List Service × List Gist)
scrape_of (some (ok r)) = ok (r.services, r.gists)
scrape_of (some (err x)) = err x
scrape_of none = err []

abbrev scrape : Text → List Text → Result (List Service × List Gist)
scrape namespace s = scrape_of (scrape_namespace (codes "0") listing namespace s)

scrape-Scrapes : Scrapes (codes "0") listing scrape
scrape-Scrapes namespace s r e = rw e refl

abbrev load : List Text → Option (Result Environment)
load copy = some (ok (environment (desired members)))

main-deployed_example :
    main library config (client config) load tools scrape apply clients (codes "ns") 2 [] []
    ≡ some (
      refreshes library config (client config) 2 (pull library config (client config) []).0,
      [],
      [],
    )
main-deployed_example =
    main-deployed library config (client config) load tools tools_laws scrape apply clients process
      cluster (codes "0") listing scrape-Scrapes 2 [] [] (environment (desired members)) members
      (λ k h. refl) refl refl members-IsDistinct
      (api-IsDeployed, (web-IsDeployed, (jobs-IsDeployed, tt))) listing-Lists
