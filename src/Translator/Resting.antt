-- ===== src/Translator/Resting.antt =====
-- The comparison of a service with what was read back of its objects: the operator's loop at rest.
pub mod Routes
pub mod Exposed
pub mod Autoscaled
pub mod Scaled
use mathlib.Core.Path.{subst}
use environment_operator.Prelude.{
  Text, TextMap, lookup, insert, ◌==◌, ==_refl, ◌&&◌, Bool, true, false, List, [], ◌∷◌, All, some,
  ok, ℤ, ◌≡◌, refl, ap, ◌∙◌,
}
use environment_operator.Prelude.Sort.{sort_by, insert_by, IsDistinct}
use environment_operator.Prelude.Numbers.{IsInt32}
use environment_operator.Bitesize.Types.{Service}
use environment_operator.Bitesize.Service.{
  active_deployment_name, is_blue_green_parent, deployment_method, is_tls_enabled, has_external_url,
  find_by_name,
}
use environment_operator.Cluster.Scrape.Objects.{KubeEnvVar, KubeDeployment}
use environment_operator.Cluster.Scrape.{create_or_get, services, add_service, add_deployment}
use environment_operator.Cluster.Scrape.Events.{
  Found, service, deployment, name_of, is_stray, write, put, add, add_all,
}
use environment_operator.Diff.Tools.{Tools, ToolsLaws}
use environment_operator.Diff.Align.Laws.{key_of}
use environment_operator.Diff.Compare.{Outcome, secret_missing, compare}
use environment_operator.Diff.Compare.Converged
use environment_operator.Diff.Compare.Converged.{Agrees-self, compare-converged}
use environment_operator.Translator.Objects.{Process, Cluster, DeploymentObject, ServiceObject}
use environment_operator.Translator.Containers.{kube_env_vars}
use environment_operator.Translator.Deployments.{deployment_of, deployment_object}
use environment_operator.Translator.Services.{service_object}
use environment_operator.Translator.Deployed.{IsHeld, seen, deployment_object-built}
use environment_operator.Translator.Settled.{
  Core, plain, seen_service, made_service, service_made, first_entry, built, last_entry,
  second_read, last_same,
}

-- Reading one object.
add-found :
    (zero : Text) (f : Found) (m : TextMap Service) (name : Text) (s : Service)
    → is_stray f ≡ false
    → name_of f ≡ name
    → write zero f (create_or_get name m) ≡ some s
    → add zero f m ≡ some (insert name s m)
unfolding add put
add-found zero f m name s stray named e = rw (stray, named, e) refl

create_or_get_one : (name : Text) (s : Service) → create_or_get name ((name, s) ∷ []) ≡ s
unfolding create_or_get lookup
create_or_get_one name s = rw (==_refl name) refl

insert_one : (name : Text) (s t : Service) → insert name t ((name, s) ∷ []) ≡ (name, t) ∷ []
unfolding insert
insert_one name s t = rw (==_refl name) refl

active_deployment_name-plain : (c : Core) → active_deployment_name (plain c) ≡ some c.name
unfolding active_deployment_name is_blue_green_parent deployment_method ◌==◌
active_deployment_name-plain c = refl

secret_plain :
    (t : Tools) (namespace : Text) (c : Core) → secret_missing t namespace (plain c) ≡ false
unfolding is_tls_enabled has_external_url ◌==◌
secret_plain t namespace c = absent t.external_secrets_enabled
  where
    absent : (b : Bool) → (b && false) ≡ false
    absent true = refl
    absent false = refl

module _ (p : Process) (cl : Cluster) (namespace zero created : Text) (n : ℤ) (c : Core)
    (mounts : List (Text × Text)) (env : List KubeEnvVar) where
  abbrev pub last : Service
  last = last_entry p cl namespace zero created n c mounts env

  abbrev pub listed_deployment : KubeDeployment
  listed_deployment = seen created n (built p cl namespace zero created n c mounts env)

  first_added :
      add zero (service (seen_service (made_service namespace c))) []
      ≡ some ((c.name, first_entry namespace c) ∷ [])
  unfolding write create_or_get lookup name_of insert
  first_added =
      add-found zero (service (seen_service (made_service namespace c))) [] c.name
        (first_entry namespace c) refl refl refl

  second_added :
      add zero (deployment listed_deployment) ((c.name, first_entry namespace c) ∷ [])
      ≡ some ((c.name, last) ∷ [])
  unfolding write deployment_of name_of
  second_added =
      add-found zero (deployment listed_deployment) ((c.name, first_entry namespace c) ∷ []) c.name
        last refl refl
        (ap (λ (s : Service). add_deployment zero listed_deployment s)
            (create_or_get_one c.name (first_entry namespace c))
          ∙ second_read p cl namespace zero created n c mounts env)
      ∙ ap some (insert_one c.name (first_entry namespace c) last)

  pub both_read :
      add_all zero
        (service (seen_service (made_service namespace c)) ∷ deployment listed_deployment ∷ [])
        []
      ≡ some ((c.name, last) ∷ [])
  unfolding add_all
  both_read = rw (first_added, add_all, second_added) refl

  -- What the comparison asks of the service and of what was read.
  pub last-Agrees :
      (t : Tools)
      → ToolsLaws t
      → IsHeld cl (plain c)
      → All IsInt32 (c.port ∷ c.ports)
      → kube_env_vars p cl (plain c) ≡ ok env
      → IsDistinct key_of c.annotations
      → Converged.Agrees t namespace (last ∷ []) (plain c)
  unfolding find_by_name deployment_of add_service
  last-Agrees t laws h k e distinct =
      Agrees-self t namespace laws (last ∷ []) last (plain c) c.name (rw (==_refl c.name) refl)
        (last_same p cl namespace zero created n c mounts env h k e) distinct
        (secret_plain t namespace c) (active_deployment_name-plain c)

-- A service sets no fields but its name, application, version, replicas, ports, requests, limits,
-- probes, variables, commands and annotations; all its other fields have their defaults, so it has no
-- init containers, protocol, grace period, mesh, volume, autoscaler, type or deployment method, ssl is
-- false, an empty slice is nil unless it is that of the URLs, and its health check is that of its
-- liveness probe. It is deployed: its service object and its deployment are made,
-- listed by the cluster and read back. When the deployment can hold the service, the ports fit, no
-- annotation is given twice, and a value has no difference to itself, the comparison then reports
-- no change.
pub compare-resting :
    (t : Tools) (p : Process) (cl : Cluster) (namespace zero created : Text) (n : ℤ) (c : Core)
    (d : DeploymentObject)
    → ToolsLaws t
    → IsHeld cl (plain c)
    → All IsInt32 (c.port ∷ c.ports)
    → IsDistinct key_of c.annotations
    → deployment_object p cl namespace (plain c) ≡ ok (some d)
    → (o : ServiceObject) × (read : TextMap Service) × (outcome : Outcome) × (service_object
          namespace
          (plain c)
        ≡ some o)
      × (add_all zero (service (seen_service o) ∷ deployment (seen created n d) ∷ []) []
          ≡ some read)
      × (compare t namespace (plain c ∷ []) (services read) ≡ some (outcome, false))
unfolding services sort_by insert_by
compare-resting t p cl namespace zero created n c d laws h k distinct made =
    let (mounts, env, e, same) = deployment_object-built p cl namespace (plain c) d made in
    let agrees = last-Agrees p cl namespace zero created n c mounts env t laws h k e distinct in
    let (outcome, compared, _) =
      compare-converged t namespace laws (plain c ∷ [])
        (last p cl namespace zero created n c mounts env ∷ []) (tt, tt) (agrees, tt) in
    (
      made_service namespace c,
      (c.name, last p cl namespace zero created n c mounts env) ∷ [],
      outcome,
      service_made namespace c,
      subst
          (λ (x : DeploymentObject).
            add_all zero
              (service (seen_service (made_service namespace c))
                ∷ deployment (seen created n x)
                ∷ [])
              []
            ≡ some ((c.name, last p cl namespace zero created n c mounts env) ∷ []))
          same (both_read p cl namespace zero created n c mounts env),
      compared,
    )
