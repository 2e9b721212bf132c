-- ===== src/Translator/Resting/Scaled.antt =====
-- The comparison of a service that has an autoscaler with what was read back of its objects, however
-- many replicas the cluster has scaled it to.
use mathlib.Core.Path.{subst}
use environment_operator.Prelude.{
  Text, TextMap, ==_refl, true, false, List, [], ◌∷◌, All, some, ok, ℤ, ◌≡◌, refl, ap, sym, ◌∙◌,
  nonzero,
}
use environment_operator.Prelude.Sort.{sort_by, insert_by, IsDistinct}
use environment_operator.Prelude.Numbers.{IsInt32}
use environment_operator.Bitesize.Types.{Service, HorizontalPodAutoscaler}
use environment_operator.Bitesize.Service.{active_deployment_name, find_by_name, is_tls_enabled}
use environment_operator.Cluster.Scrape.Objects.{KubeEnvVar, KubeDeployment}
use environment_operator.Cluster.Scrape.{services, add_service, add_deployment, with_hpa, add_hpa}
use environment_operator.Cluster.Scrape.Events.{
  service, deployment, hpa, name_of, write, add, add_all,
}
use environment_operator.Diff.Tools.{Tools, ToolsLaws}
use environment_operator.Diff.Align.{align_desired, align_current}
use environment_operator.Diff.Align.Laws.{key_of, align_desired_self}
use environment_operator.Diff.Compare.{Outcome, without_status, compare}
use environment_operator.Diff.Compare.Converged
use environment_operator.Diff.Compare.Converged.{compare-converged}
use environment_operator.Translator.Objects.{
  Process, Cluster, DeploymentObject, ServiceObject, HpaObject,
}
use environment_operator.Translator.Containers.{container_with}
use environment_operator.Translator.Deployments.{
  deployment_of, deployment_object, metric_spec, hpa_object,
}
use environment_operator.Translator.Services.{service_object}
use environment_operator.Translator.Autoscalers.{
  seen_hpa, IsMetric, add_hpa-first, read_metric-metric_spec,
}
use environment_operator.Translator.Deployed.{
  IsHeld, seen, seen_container, add_deployment-first, deployed_container, deployment_object-built,
}
use environment_operator.Translator.Settled.{
  Core, plain, seen_service, made_service, service_made, first_entry, no_volumes, container, built,
  last_entry, last_same,
}
use environment_operator.Translator.Resting.{
  add-found, create_or_get_one, insert_one, first_added, secret_plain, active_deployment_name-plain,
}
use environment_operator.Translator.Resting.Autoscaled.{
  scaled, scaled-deployment, scaled-service, scaled-IsHeld, made_hpa, hpa_made,
  align_desired-replicas,
}

module _ (p : Process) (cl : Cluster) (namespace zero created : Text) (n running : ℤ) (c : Core)
    (h : HorizontalPodAutoscaler) (mounts : List (Text × Text)) (env : List KubeEnvVar) where
  abbrev unscaled : Service
  unscaled = last_entry p cl namespace zero created n c mounts env

  abbrev pub running_deployment : KubeDeployment
  running_deployment = record (seen created n (built p cl namespace zero created n c mounts env)) {
    replicas = some running;
  }

  abbrev pub scaled_entry : Service
  scaled_entry = with_hpa h.min_replicas h.max_replicas h.metric unscaled

  deployment_added :
      add zero (deployment running_deployment) ((c.name, first_entry namespace c) ∷ [])
      ≡ some ((c.name, record unscaled { replicas = running }) ∷ [])
  unfolding write deployment_of name_of container_with
  deployment_added =
      add-found zero (deployment running_deployment) ((c.name, first_entry namespace c) ∷ []) c.name
        (record unscaled { replicas = running }) refl refl
        (ap (λ (s : Service). add_deployment zero running_deployment s)
            (create_or_get_one c.name (first_entry namespace c))
          ∙ add_deployment-first zero running_deployment _
              (seen_container (container p cl namespace zero created n c mounts env))
              (first_entry namespace c) [] refl
              (deployed_container p cl namespace (plain c)
                (container p cl namespace zero created n c mounts env))
              (no_volumes namespace c mounts))
      ∙ ap some (insert_one c.name (first_entry namespace c) _)

  hpa_added :
      IsMetric cl h.metric
      → add zero
          (hpa (seen_hpa (made_hpa cl namespace c h)))
          ((c.name, record unscaled { replicas = running }) ∷ [])
        ≡ some ((c.name, scaled_entry) ∷ [])
  unfolding write name_of add_service
  hpa_added metric =
      add-found zero (hpa (seen_hpa (made_hpa cl namespace c h)))
        ((c.name, record unscaled { replicas = running }) ∷ []) c.name scaled_entry refl refl
        (ap (λ (s : Service). add_hpa (seen_hpa (made_hpa cl namespace c h)) s)
            (create_or_get_one c.name (record unscaled { replicas = running }))
          ∙ add_hpa-first (seen_hpa (made_hpa cl namespace c h)) h.min_replicas
              (metric_spec cl h.metric) h.metric (record unscaled { replicas = running }) refl refl
              refl (read_metric-metric_spec cl h.metric metric))
      ∙ ap some (insert_one c.name (record unscaled { replicas = running }) scaled_entry)

  pub all_read :
      IsMetric cl h.metric
      → add_all zero
          (service (seen_service (made_service namespace c))
            ∷ deployment running_deployment
            ∷ hpa (seen_hpa (made_hpa cl namespace c h))
            ∷ [])
          []
        ≡ some ((c.name, scaled_entry) ∷ [])
  unfolding add_all
  all_read metric =
      rw
        (
          first_added p cl namespace zero created n c mounts env,
          add_all,
          deployment_added,
          add_all,
          hpa_added metric,
        )
        refl

  -- What was read is the service with the replicas of the autoscaler, so they are aligned.
  scaled_same :
      (t : Tools)
      → ToolsLaws t
      → IsDistinct key_of c.annotations
      → nonzero h.min_replicas ≡ true
      → without_status unscaled ≡ plain c
      → align_desired t (scaled c h) (without_status scaled_entry)
        ≡ align_current (without_status scaled_entry)
  unfolding deployment_of add_service
  scaled_same t laws distinct least same =
      ap (λ (x : Service). align_desired t x (without_status scaled_entry))
        (ap (λ (x : Service). record x { hpa = h; replicas = c.replicas }) (sym same))
      ∙ align_desired-replicas t (without_status scaled_entry) (without_status scaled_entry)
          c.replicas least
      ∙ align_desired_self t laws (without_status scaled_entry) distinct

  pub scaled-Agrees :
      (t : Tools)
      → ToolsLaws t
      → IsDistinct key_of c.annotations
      → nonzero h.min_replicas ≡ true
      → without_status unscaled ≡ plain c
      → Converged.Agrees t namespace (scaled_entry ∷ []) (scaled c h)
  unfolding find_by_name active_deployment_name deployment_of add_service is_tls_enabled
  scaled-Agrees t laws distinct least same = record {
    deployed = scaled_entry;
    found = rw (==_refl c.name) refl;
    same = scaled_same t laws distinct least same;
    secret = secret_plain t namespace c;
    active = c.name;
    has_active = active_deployment_name-plain c;
    runs_active =
        subst (λ (x : Service). active_deployment_name x ≡ some c.name) (sym same)
          (active_deployment_name-plain c);
  }

-- A service sets no fields but its name, application, version, replicas, ports, requests, limits,
-- probes, variables, commands and annotations, and an autoscaler that has a minimum of replicas and
-- one kind of metric; all its other fields have their defaults, so it has no init containers,
-- protocol, grace period, mesh, volume, type or deployment method, ssl is false, an empty slice is nil
-- unless it is that of the URLs, and its health check is that of its liveness probe. It is deployed:
-- its service object, its deployment and its autoscaler are made. When the
-- deployment can hold the service, the ports fit, no annotation is given twice and a value has no
-- difference to itself, the cluster may scale the deployment to any number of replicas: it is listed
-- and read back with the others, and the comparison then reports no change.
pub compare-scaled :
    (t : Tools) (p : Process) (cl : Cluster) (namespace zero created : Text) (n running : ℤ)
    (c : Core) (h : HorizontalPodAutoscaler) (d : DeploymentObject)
    → ToolsLaws t
    → IsHeld cl (scaled c h)
    → All IsInt32 (c.port ∷ c.ports)
    → IsDistinct key_of c.annotations
    → IsMetric cl h.metric
    → nonzero h.min_replicas ≡ true
    → deployment_object p cl namespace (scaled c h) ≡ ok (some d)
    → (o : ServiceObject) × (a : HpaObject) × (read : TextMap Service) × (outcome : Outcome)
      × (service_object namespace (scaled c h) ≡ some o)
      × (hpa_object cl namespace (scaled c h) ≡ some a)
      × (add_all zero
            (service (seen_service o)
              ∷ deployment (record (seen created n d) { replicas = some running })
              ∷ hpa (seen_hpa a)
              ∷ [])
            []
          ≡ some read)
      × (compare t namespace (scaled c h ∷ []) (services read) ≡ some (outcome, false))
unfolding services sort_by insert_by
compare-scaled t p cl namespace zero created n running c h d laws held k distinct metric least
      made =
    let (mounts, env, e, same) =
      deployment_object-built p cl namespace (plain c) d
        (sym (scaled-deployment p cl namespace c h) ∙ made) in
    let entry = scaled_entry p cl namespace zero created n running c h mounts env in
    let agrees =
      scaled-Agrees p cl namespace zero created n running c h mounts env t laws distinct least
        (last_same p cl namespace zero created n c mounts env (scaled-IsHeld cl c h held) k e) in
    let (outcome, compared, _) =
      compare-converged t namespace laws (scaled c h ∷ []) (entry ∷ []) (tt, tt) (agrees, tt) in
    (
      made_service namespace c,
      made_hpa cl namespace c h,
      (c.name, entry) ∷ [],
      outcome,
      scaled-service namespace c h ∙ service_made namespace c,
      hpa_made cl namespace c h,
      subst
          (λ (x : DeploymentObject).
            add_all zero
              (service (seen_service (made_service namespace c))
                ∷ deployment (record (seen created n x) { replicas = some running })
                ∷ hpa (seen_hpa (made_hpa cl namespace c h))
                ∷ [])
              []
            ≡ some ((c.name, entry) ∷ []))
          same (all_read p cl namespace zero created n running c h mounts env metric),
      compared,
    )
