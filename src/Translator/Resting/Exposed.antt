-- ===== src/Translator/Resting/Exposed.antt =====
-- The comparison of a service that has external URLs with what was read back of its objects.
use mathlib.Core.Path.{subst}
use environment_operator.Prelude.{
  Text, TextMap, text_at, lookup, ◌==◌, ==_refl, false, List, [], ◌∷◌, All, some, ok, ℤ, ◌≡◌, refl,
  ap, map, sym, ◌∙◌,
}
use environment_operator.Prelude.Sort.{sort_by, insert_by, IsDistinct}
use environment_operator.Prelude.Numbers.{IsInt32}
use environment_operator.Bitesize.Types.{Service}
use environment_operator.Bitesize.Service.{active_deployment_name, find_by_name}
use environment_operator.Cluster.Scrape.Objects.{KubeEnvVar}
use environment_operator.Cluster.Scrape.{
  services, add_service, when_true, with_ingress, add_ingress,
}
use environment_operator.Cluster.Scrape.Events.{
  service, deployment, ingress, name_of, write, add, add_all,
}
use environment_operator.Diff.Tools.{Tools, ToolsLaws}
use environment_operator.Diff.Align.Laws.{key_of}
use environment_operator.Diff.Compare.{Outcome, secret_missing, without_status, compare}
use environment_operator.Diff.Compare.Converged
use environment_operator.Diff.Compare.Converged.{Agrees-self, compare-converged}
use environment_operator.Translator.Objects.{
  Process, Cluster, DeploymentObject, ServiceObject, IngressObject, IngressRule,
}
use environment_operator.Translator.Containers.{kube_env_vars}
use environment_operator.Translator.Deployments.{deployment_of, deployment_object}
use environment_operator.Translator.Ingresses.{rule_of, ingress_object}
use environment_operator.Translator.Services.{service_object}
use environment_operator.Translator.Deployed.{IsHeld, seen, deployment_object-built}
use environment_operator.Translator.Settled.{
  Core, plain, seen_service, made_service, service_made, built, last_entry, last_same, last_ports,
}
use environment_operator.Translator.Resting.{
  add-found, create_or_get_one, insert_one, first_added, second_added, active_deployment_name-plain,
}
use environment_operator.Translator.Routed.{
  IsRouted, IsUnrouted, seen_rule, seen_ingress, made_ingress, ingress_object-made,
  with_ingress-IsRead, add_ingress-first,
}
use environment_operator.Translator.Resting.Routes.{
  Route, routed, routed-deployment, routed-service, routed-IsHeld, with_route, with_route-routed,
}

module _ (p : Process) (cl : Cluster) (namespace zero created : Text) (n : ℤ) (c : Core) (r : Route)
    (mounts : List (Text × Text)) (env : List KubeEnvVar) where
  abbrev unexposed : Service
  unexposed = last_entry p cl namespace zero created n c mounts env

  abbrev pub route_ingress : IngressObject
  route_ingress = made_ingress namespace (routed c r) c.port

  abbrev first_rule : IngressRule
  first_rule = rule_of (routed c r) c.port r.url

  -- The entry after the three objects were read.
  abbrev pub exposed_entry : Service
  exposed_entry =
      with_ingress (seen_ingress route_ingress) first_rule.service_name first_rule.service_port
        unexposed

  ingress_read : add_ingress (seen_ingress route_ingress) unexposed ≡ some exposed_entry
  unfolding made_ingress
  ingress_read =
      add_ingress-first (seen_ingress route_ingress) (seen_rule first_rule)
        (map seen_rule (map (rule_of (routed c r) c.port) r.urls))
        (first_rule.service_name, first_rule.service_port) unexposed refl refl

  third_added :
      add zero (ingress (seen_ingress route_ingress)) ((c.name, unexposed) ∷ [])
      ≡ some ((c.name, exposed_entry) ∷ [])
  unfolding write made_ingress name_of
  third_added =
      add-found zero (ingress (seen_ingress route_ingress)) ((c.name, unexposed) ∷ []) c.name
        exposed_entry refl refl
        (ap (λ (s : Service). add_ingress (seen_ingress route_ingress) s)
            (create_or_get_one c.name unexposed)
          ∙ ingress_read)
      ∙ ap some (insert_one c.name unexposed exposed_entry)

  unexposed-IsUnrouted : All IsInt32 (c.port ∷ c.ports) → IsUnrouted (routed c r) c.port unexposed
  unfolding add_service deployment_of when_true text_at lookup ◌==◌
  unexposed-IsUnrouted k = record {
    name = refl;
    ports = c.ports;
    listed = last_ports p cl namespace zero created n c mounts env k;
    ssl = refl;
    https_only = refl;
    backend = refl;
    backend_port = refl;
  }

  exposed_same :
      IsHeld cl (routed c r)
      → All IsInt32 (c.port ∷ c.ports)
      → kube_env_vars p cl (plain c) ≡ ok env
      → IsRouted (routed c r) c.port
      → without_status exposed_entry ≡ routed c r
  unfolding made_ingress
  exposed_same h k e a =
      ap (with_route exposed_entry)
        (last_same p cl namespace zero created n c mounts env (routed-IsHeld cl c r h) k e)
      ∙ with_route-routed c r exposed_entry (
          with_ingress-IsRead namespace (routed c r) unexposed c.port r.url a
            (unexposed-IsUnrouted k))

  pub all_read :
      add_all zero
        (service (seen_service (made_service namespace c))
          ∷ deployment (seen created n (built p cl namespace zero created n c mounts env))
          ∷ ingress (seen_ingress route_ingress)
          ∷ [])
        []
      ≡ some ((c.name, exposed_entry) ∷ [])
  unfolding add_all
  all_read =
      rw
        (
          first_added p cl namespace zero created n c mounts env,
          add_all,
          second_added p cl namespace zero created n c mounts env,
          add_all,
          third_added,
        )
        refl

  -- What the comparison asks of the service and of what was read.
  pub exposed-Agrees :
      (t : Tools)
      → ToolsLaws t
      → IsHeld cl (routed c r)
      → All IsInt32 (c.port ∷ c.ports)
      → kube_env_vars p cl (plain c) ≡ ok env
      → IsRouted (routed c r) c.port
      → IsDistinct key_of c.annotations
      → secret_missing t namespace (routed c r) ≡ false
      → Converged.Agrees t namespace (exposed_entry ∷ []) (routed c r)
  unfolding find_by_name deployment_of add_service active_deployment_name
  exposed-Agrees t laws h k e a distinct secret =
      Agrees-self t namespace laws (exposed_entry ∷ []) exposed_entry (routed c r) c.name
        (rw (==_refl c.name) refl) (exposed_same h k e a) distinct secret
        (active_deployment_name-plain c)

-- A service sets no fields but its name, application, version, replicas, ports, requests, limits,
-- probes, variables, commands and annotations, and external URLs with ssl, httpsOnly, httpsBackend,
-- http2, backend and backend_port; all its other fields have their defaults, so it has no init
-- containers, protocol, grace period, mesh, volume, autoscaler, type or deployment method, an empty
-- slice is nil, and its health check is that of its liveness probe. It is deployed: its service
-- object, its deployment and its
-- ingress are made, listed by the cluster and read back. When the deployment can hold the service,
-- the ports fit, the backend and its port are not the service's own, the switches are true or false,
-- no annotation is given twice, no external secret is missing, and a value has no difference to
-- itself, the comparison then reports no change.
pub compare-routed :
    (t : Tools) (p : Process) (cl : Cluster) (namespace zero created : Text) (n : ℤ) (c : Core)
    (r : Route) (d : DeploymentObject)
    → ToolsLaws t
    → IsHeld cl (routed c r)
    → All IsInt32 (c.port ∷ c.ports)
    → IsDistinct key_of c.annotations
    → IsRouted (routed c r) c.port
    → secret_missing t namespace (routed c r) ≡ false
    → deployment_object p cl namespace (routed c r) ≡ ok (some d)
    → (o : ServiceObject) × (i : IngressObject) × (read : TextMap Service) × (outcome : Outcome)
      × (service_object namespace (routed c r) ≡ some o)
      × (ingress_object namespace (routed c r) ≡ some i)
      × (add_all zero
            (service (seen_service o)
              ∷ deployment (seen created n d)
              ∷ ingress (seen_ingress i)
              ∷ [])
            []
          ≡ some read)
      × (compare t namespace (routed c r ∷ []) (services read) ≡ some (outcome, false))
unfolding services sort_by insert_by
compare-routed t p cl namespace zero created n c r d laws h k distinct a secret made =
    let (mounts, env, e, same) =
      deployment_object-built p cl namespace (plain c) d
        (sym (routed-deployment p cl namespace c r) ∙ made) in
    let entry = exposed_entry p cl namespace zero created n c r mounts env in
    let agrees =
      exposed-Agrees p cl namespace zero created n c r mounts env t laws h k e a distinct secret in
    let (outcome, compared, _) =
      compare-converged t namespace laws (routed c r ∷ []) (entry ∷ []) (tt, tt) (agrees, tt) in
    (
      made_service namespace c,
      made_ingress namespace (routed c r) c.port,
      (c.name, entry) ∷ [],
      outcome,
      routed-service namespace c r ∙ service_made namespace c,
      ingress_object-made namespace (routed c r) c.port c.ports refl,
      subst
          (λ (x : DeploymentObject).
            add_all zero
              (service (seen_service (made_service namespace c))
                ∷ deployment (seen created n x)
                ∷ ingress (seen_ingress (made_ingress namespace (routed c r) c.port))
                ∷ [])
              []
            ≡ some ((c.name, entry) ∷ []))
          same (all_read p cl namespace zero created n c r mounts env),
      compared,
    )
