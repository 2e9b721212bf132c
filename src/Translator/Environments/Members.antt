-- ===== src/Translator/Environments/Members.antt =====
-- The services whose objects were made by the translator and are listed by the cluster.
use environment_operator.Prelude.{
  Text, true, false, List, ◌∷◌, All, All-map, some, ok, ℤ, ◌≡◌, nonzero,
}
use environment_operator.Prelude.Sort.{IsDistinct}
use environment_operator.Prelude.Numbers.{IsInt32}
use environment_operator.Bitesize.Types.{HorizontalPodAutoscaler}
use environment_operator.Diff.Tools.{Tools, ToolsLaws}
use environment_operator.Diff.Align.Laws.{key_of}
use environment_operator.Diff.Compare.{secret_missing}
use environment_operator.Translator.Objects.{
  Process, Cluster, DeploymentObject, ServiceObject, HpaObject, IngressObject,
}
use environment_operator.Translator.Deployments.{deployment_object, hpa_object}
use environment_operator.Translator.Ingresses.{ingress_object}
use environment_operator.Translator.Services.{service_object}
use environment_operator.Translator.Deployed.{IsHeld}
use environment_operator.Translator.Settled.{Core, plain}
use environment_operator.Translator.Routed.{IsRouted}
use environment_operator.Translator.Autoscalers.{IsMetric}
use environment_operator.Translator.Resting.Routes.{Route, routed}
use environment_operator.Translator.Resting.Autoscaled.{scaled}
use environment_operator.Translator.Environments.{Member}
use environment_operator.Translator.Environments.Reads.{IsAtRest}
use environment_operator.Translator.Environments.Plain.{plain_member, plain-IsAtRest}
use environment_operator.Translator.Environments.Routed.{routed_member, routed-IsAtRest}
use environment_operator.Translator.Environments.Autoscaled.{scaled_member, scaled-IsAtRest}

module _ (t : Tools) (p : Process) (cl : Cluster) (namespace zero : Text) where
  -- What the translator made of a service is what is listed. The service sets the fields of `Core`
  -- alone, or besides them those of `Route` or an autoscaler; every other field has its default. Its deployment can hold it,
  -- its ports fit, and no annotation is given twice; with URLs, no external secret is missing.
  pub data IsDeployed : Member → Type 0 where
    plainly :
        (c : Core) (created : Text) (n : ℤ) (o : ServiceObject) (d : DeploymentObject)
        → IsHeld cl (plain c)
        → All IsInt32 (c.port ∷ c.ports)
        → IsDistinct key_of c.annotations
        → service_object namespace (plain c) ≡ some o
        → deployment_object p cl namespace (plain c) ≡ ok (some d)
        → IsDeployed (plain_member t p cl namespace zero c o created n d)
    published :
        (c : Core) (r : Route) (created : Text) (n : ℤ) (o : ServiceObject) (i : IngressObject)
        (d : DeploymentObject)
        → IsHeld cl (routed c r)
        → All IsInt32 (c.port ∷ c.ports)
        → IsDistinct key_of c.annotations
        → IsRouted (routed c r) c.port
        → secret_missing t namespace (routed c r) ≡ false
        → service_object namespace (routed c r) ≡ some o
        → ingress_object namespace (routed c r) ≡ some i
        → deployment_object p cl namespace (routed c r) ≡ ok (some d)
        → IsDeployed (routed_member t p cl namespace zero c r o i created n d)
    autoscaled :
        (c : Core) (h : HorizontalPodAutoscaler) (created : Text) (n running : ℤ)
        (o : ServiceObject) (a : HpaObject) (d : DeploymentObject)
        → IsHeld cl (scaled c h)
        → All IsInt32 (c.port ∷ c.ports)
        → IsDistinct key_of c.annotations
        → IsMetric cl h.metric
        → nonzero h.min_replicas ≡ true
        → service_object namespace (scaled c h) ≡ some o
        → hpa_object cl namespace (scaled c h) ≡ some a
        → deployment_object p cl namespace (scaled c h) ≡ ok (some d)
        → IsDeployed (scaled_member t p cl namespace zero c h o a created n running d)

  IsDeployed-IsAtRest : ToolsLaws t → (m : Member) → IsDeployed m → IsAtRest t namespace zero m
  IsDeployed-IsAtRest laws m (plainly c created n o d h k u s e) =
      plain-IsAtRest t p cl namespace zero c created n o d laws h k u s e
  IsDeployed-IsAtRest laws m (published c r created n o i d h k u a x s j e) =
      routed-IsAtRest t p cl namespace zero c r created n o i d laws h k u a x s j e
  IsDeployed-IsAtRest laws m (autoscaled c h created n running o a d k f u q l s j e) =
      scaled-IsAtRest t p cl namespace zero c h created n running o a d laws k f u q l s j e

  pub all-IsAtRest :
      (ms : List Member) → ToolsLaws t → All IsDeployed ms → All (IsAtRest t namespace zero) ms
  all-IsAtRest ms laws h = All-map (IsDeployed-IsAtRest laws) ms h
