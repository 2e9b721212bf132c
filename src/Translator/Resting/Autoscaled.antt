-- ===== src/Translator/Resting/Autoscaled.antt =====
-- A service that has an autoscaler, over the one that has none.
use environment_operator.Prelude.{Text, codes, ◌==◌, true, some, ℤ, ◌≡◌, refl, nonzero}
use environment_operator.Bitesize.Types.{Service, HorizontalPodAutoscaler}
use environment_operator.Bitesize.Service.{
  active_deployment_name, active_deployment_tag, is_blue_green_parent, deployment_method,
}
use environment_operator.Diff.Tools.{Tools}
use environment_operator.Diff.Align.{align_desired}
use environment_operator.Translator.Objects.{Process, Cluster, HpaObject}
use environment_operator.Translator.Metadata.{named, labels}
use environment_operator.Translator.Deployments.{deployment_object, metric_spec, hpa_object}
use environment_operator.Translator.Services.{service_object}
use environment_operator.Translator.Deployed.{IsHeld}
use environment_operator.Translator.Settled.{Core, plain}

abbrev pub scaled : Core → HorizontalPodAutoscaler → Service
scaled c h = record (plain c) { hpa = h }

pub scaled-deployment :
    (p : Process) (cl : Cluster) (namespace : Text) (c : Core) (h : HorizontalPodAutoscaler)
    → deployment_object p cl namespace (scaled c h) ≡ deployment_object p cl namespace (plain c)
unfolding deployment_object is_blue_green_parent
scaled-deployment p cl namespace c h = refl

pub scaled-service :
    (namespace : Text) (c : Core) (h : HorizontalPodAutoscaler)
    → service_object namespace (scaled c h) ≡ service_object namespace (plain c)
unfolding service_object is_blue_green_parent deployment_method active_deployment_tag
    active_deployment_name
scaled-service namespace c h = refl

pub scaled-IsHeld :
    (cl : Cluster) (c : Core) (h : HorizontalPodAutoscaler)
    → IsHeld cl (scaled c h)
    → IsHeld cl (plain c)
scaled-IsHeld cl c h held = record {
  variables = held.variables;
  liveness = held.liveness;
  readiness = held.readiness;
  count = held.count;
  requested = held.requested;
  limited = held.limited;
}

abbrev pub made_hpa : Cluster → Text → Core → HorizontalPodAutoscaler → HpaObject
made_hpa cl namespace c h = record {
  meta = named c.name namespace (labels (plain c));
  target_kind = codes "Deployment";
  target_name = c.name;
  target_version = codes "apps/v1";
  min_replicas = h.min_replicas;
  max_replicas = h.max_replicas;
  metrics = metric_spec cl h.metric;
}

pub hpa_made :
    (cl : Cluster) (namespace : Text) (c : Core) (h : HorizontalPodAutoscaler)
    → hpa_object cl namespace (scaled c h) ≡ some (made_hpa cl namespace c h)
unfolding hpa_object is_blue_green_parent labels ◌==◌
hpa_made cl namespace c h = refl

-- With an autoscaler that has a minimum, the configured replicas do not matter.
pub align_desired-replicas :
    (t : Tools) (d e : Service) (n : ℤ)
    → nonzero e.hpa.min_replicas ≡ true
    → align_desired t (record d { replicas = n }) e ≡ align_desired t d e
unfolding align_desired
align_desired-replicas t d e n h = rw h refl
