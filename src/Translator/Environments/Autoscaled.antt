-- ===== src/Translator/Environments/Autoscaled.antt =====
-- An autoscaled service whose objects were made by the translator and are listed by the cluster.
use mathlib.Core.Path.{subst}
use environment_operator.Prelude.{
  Text, codes, ◌==◌, ◌||◌, Bool-cases, inl, inr, true, List, [], ◌∷◌, All, none, some, ok, ℤ, ◌≡◌,
  refl, sym, ◌∙◌, nonzero,
}
use environment_operator.Prelude.Sort.{IsDistinct}
use environment_operator.Prelude.Numbers.{IsInt32}
use environment_operator.Bitesize.Types.{HorizontalPodAutoscaler}
use environment_operator.Bitesize.Service.{is_blue_green_parent, deployment_method}
use environment_operator.Cluster.Scrape.Objects.{KubeEnvVar}
use environment_operator.Diff.Tools.{Tools, ToolsLaws}
use environment_operator.Diff.Align.Laws.{key_of}
use environment_operator.Translator.Objects.{
  Process, Cluster, DeploymentObject, ServiceObject, HpaObject,
}
use environment_operator.Translator.Containers.{kube_env_vars}
use environment_operator.Translator.Deployments.{deployment_of, deployment_object, hpa_object}
use environment_operator.Translator.Services.{service_object}
use environment_operator.Translator.Deployed.{IsHeld, seen, deployment_object-built}
use environment_operator.Translator.Settled.{Core, plain, seen_service, made_service, service_made}
use environment_operator.Translator.Environments.{Member}
use environment_operator.Translator.Environments.Reads.{IsAtRest}
use environment_operator.Translator.Autoscalers.{seen_hpa, IsMetric}
use environment_operator.Translator.Deployments.{metric_spec}
use environment_operator.Bitesize.Types.{Metric}
use environment_operator.Cluster.Scrape.Readable.{First, IsMeasured}
use environment_operator.Translator.Settled.{last_same}
use environment_operator.Translator.Resting.Autoscaled.{
  scaled, scaled-deployment, scaled-service, scaled-IsHeld, made_hpa, hpa_made,
}
use environment_operator.Translator.Resting.Scaled.{
  scaled_entry, running_deployment, all_read, scaled-Agrees,
}

-- A metric of one kind has its value.
metric_spec-IsMeasured :
    (c : Cluster) (m : Metric) → IsMetric c m → First IsMeasured (metric_spec c m)
unfolding metric_spec ◌==◌
metric_spec-IsMeasured c m h =
    elim (Bool-cases (m.name == codes "cpu" || m.name == codes "memory")) [
      | inl e ↦
          let k : (nonzero m.target_average_utilization ≡ true) × (m.target_average_value ≡ []) =
            rw e at h in
          rw (e, k.0, metric_spec) tt
      | inr e ↦ rw (e, metric_spec) tt
    ]

module _ (t : Tools) (p : Process) (cl : Cluster) (namespace zero : Text) where
  -- The cluster runs as many replicas as it has scaled the deployment to.
  abbrev pub scaled_member :
      Core
      → HorizontalPodAutoscaler
      → ServiceObject
      → HpaObject
      → Text
      → ℤ
      → ℤ
      → DeploymentObject
      → Member
  scaled_member c h o a created n running d = record {
    desired = scaled c h;
    of_service = seen_service o;
    of_deployment = record (seen created n d) { replicas = some running };
    of_hpa = some (seen_hpa a);
    of_ingress = none;
  }

  scaled_built :
      (c : Core) (h : HorizontalPodAutoscaler) (created : Text) (n running : ℤ)
      (mounts : List (Text × Text)) (env : List KubeEnvVar)
      → ToolsLaws t
      → IsHeld cl (scaled c h)
      → All IsInt32 (c.port ∷ c.ports)
      → IsDistinct key_of c.annotations
      → IsMetric cl h.metric
      → nonzero h.min_replicas ≡ true
      → kube_env_vars p cl (plain c) ≡ ok env
      → IsAtRest t namespace zero (record {
        desired = scaled c h;
        of_service = seen_service (made_service namespace c);
        of_deployment = running_deployment p cl namespace zero created n running c h mounts env;
        of_hpa = some (seen_hpa (made_hpa cl namespace c h));
        of_ingress = none;
      })
  unfolding is_blue_green_parent deployment_method deployment_of ◌==◌
  scaled_built c h created n running mounts env laws held k distinct metric least e = record {
    named = record { of_service = refl; of_deployment = refl; of_hpa = refl; of_ingress = tt };
    single = refl;
    deployment_readable = tt;
    hpa_readable = ((tt, metric_spec-IsMeasured cl h.metric metric), tt);
    ingress_readable = tt;
    entry = scaled_entry p cl namespace zero created n running c h mounts env;
    read = all_read p cl namespace zero created n running c h mounts env metric;
    agrees =
        scaled-Agrees p cl namespace zero created n running c h mounts env t laws distinct least
          (last_same p cl namespace zero created n c mounts env (scaled-IsHeld cl c h held) k e);
  }

  pub scaled-IsAtRest :
      (c : Core) (h : HorizontalPodAutoscaler) (created : Text) (n running : ℤ) (o : ServiceObject)
      (a : HpaObject) (d : DeploymentObject)
      → ToolsLaws t
      → IsHeld cl (scaled c h)
      → All IsInt32 (c.port ∷ c.ports)
      → IsDistinct key_of c.annotations
      → IsMetric cl h.metric
      → nonzero h.min_replicas ≡ true
      → service_object namespace (scaled c h) ≡ some o
      → hpa_object cl namespace (scaled c h) ≡ some a
      → deployment_object p cl namespace (scaled c h) ≡ ok (some d)
      → IsAtRest t namespace zero (scaled_member c h o a created n running d)
  scaled-IsAtRest c h created n running o a d laws held k distinct metric least served scales made =
      let (mounts, env, e, same) =
        deployment_object-built p cl namespace (plain c) d
          (sym (scaled-deployment p cl namespace c h) ∙ made) in
      let same_service : made_service namespace c ≡ o =
        cc (service_made namespace c, served, scaled-service namespace c h) in
      let same_hpa : made_hpa cl namespace c h ≡ a = cc (hpa_made cl namespace c h, scales) in
      subst (λ x. IsAtRest t namespace zero (scaled_member c h x a created n running d))
        same_service
        (subst
          (λ x.
            IsAtRest t namespace zero
              (scaled_member c h (made_service namespace c) x created n running d))
          same_hpa
          (subst
            (λ x. IsAtRest t namespace zero (
              scaled_member c h (made_service namespace c) (made_hpa cl namespace c h) created n
                running x))
            same
            (scaled_built c h created n running mounts env laws held k distinct metric least e)))
