-- ===== src/Translator/Deployments.antt =====
-- Deployments and autoscalers. A blue/green parent has neither: the result is then none.
use environment_operator.Prelude.{
  Text, TextMap, codes, ◌==◌, ◌||◌, nonzero, List, [], ◌∷◌, Option, none, some, Result, ok, err,
  ◌>>=◌, is_empty, if◌then◌else◌,
}
use environment_operator.Prelude.Numbers.{to_int32}
use environment_operator.Bitesize.Types.{Service, Metric}
use environment_operator.Bitesize.Service.{is_blue_green_parent}
use environment_operator.Cluster.Scrape.Objects.{KubeMetric}
use environment_operator.Translator.Objects.{
  Process, Cluster, ContainerObject, DeploymentObject, HpaObject,
}
use environment_operator.Translator.Metadata.{image, image_pull_secrets, creator, labels, named}
use environment_operator.Translator.Containers.{container_of, init_containers}
use environment_operator.Translator.Volumes.{volumes_of}

-- An error of the init containers is dropped with the containers.
abbrev listed : Result (List ContainerObject) → List ContainerObject
listed (ok cs) = cs
listed (err _) = []

abbrev with_app : Service → TextMap Text
with_app svc =
    creator
    ∷ (codes "name", svc.name)
    ∷ (codes "application", svc.application)
    ∷ (codes "version", svc.version)
    ∷ (codes "app", svc.application)
    ∷ []

-- The deployment around a container.
unfoldable pub deployment_of :
    Process → Cluster → Text → Service → ContainerObject → DeploymentObject
unfolding init_containers image image_pull_secrets volumes_of
deployment_of p c namespace svc container = record {
  meta = named svc.name namespace (with_app svc);
  replicas = to_int32 svc.replicas;
  selector = creator ∷ (codes "name", svc.name) ∷ [];
  template = record (named svc.name namespace (with_app svc)) { annotations = svc.annotations };
  node_selector = (codes "role", codes "minion") ∷ [];
  container =
      if is_empty svc.version
      then container
      else record container { image = image p svc.application svc.version };
  pull_secrets = image_pull_secrets p;
  volumes = volumes_of svc.volumes;
  init_containers = listed (init_containers p c svc);
}

unfoldable pub deployment_object :
    Process → Cluster → Text → Service → Result (Option DeploymentObject)
unfolding deployment_of container_of
deployment_object p c namespace svc =
    if is_blue_green_parent svc
    then ok none
    else (container_of p c svc >>= λ container.
        ok (some (deployment_of p c namespace svc container)))

-- The name of a resource metric is one of two; every other one is a metric of the pods. A quantity
-- that cannot be parsed is zero.
unfoldable pub metric_spec : Cluster → Metric → List KubeMetric
metric_spec c m =
    if m.name == codes "cpu" || m.name == codes "memory"
    then (if nonzero m.target_average_utilization
        then record {
          type = codes "Resource";
          resource = some (m.name, some m.target_average_utilization);
          pods = none;
        }
          ∷ []
        else [])
    else record {
      type = codes "Pods";
      resource = none;
      pods = some (
        m.name,
        some (elim (c.parse_quantity m.target_average_value) [
          | none ↦ c.zero_quantity
          | some q ↦ q
        ]),
      );
    }
      ∷ []

unfoldable pub hpa_object : Cluster → Text → Service → Option HpaObject
unfolding metric_spec labels
hpa_object c namespace svc =
    if is_blue_green_parent svc
    then none
    else some (record {
      meta = named svc.name namespace (labels svc);
      target_kind = codes "Deployment";
      target_name = svc.name;
      target_version = codes "apps/v1";
      min_replicas = svc.hpa.min_replicas;
      max_replicas = svc.hpa.max_replicas;
      metrics = metric_spec c svc.hpa.metric;
    })
