-- ===== src/Translator/Autoscalers.antt =====
-- The autoscaler of a service, read back from the cluster.
use environment_operator.Prelude.{
  Text, codes, ◌==◌, ==_refl, ◌||◌, nonzero, Bool, true, false, List, [], ◌∷◌, none, some, pos, ℤ,
  ◌≡◌, refl, Bool-cases, inl, inr, ap, sym, if◌then◌else◌,
}
use environment_operator.Bitesize.Types.{Service, Metric}
use environment_operator.Bitesize.Zero.{no_metric}
use environment_operator.Bitesize.Service.{is_blue_green_parent}
use environment_operator.Cluster.Scrape.Objects.{KubeHpa, KubeMetric}
use environment_operator.Cluster.Scrape.{first, read_metric, with_hpa, add_hpa}
use environment_operator.Translator.Objects.{Cluster, HpaObject}
use environment_operator.Translator.Deployments.{metric_spec, hpa_object}

abbrev pub seen_hpa : HpaObject → KubeHpa
seen_hpa o = record {
  name = o.meta.name;
  min_replicas = some o.min_replicas;
  max_replicas = o.max_replicas;
  metrics = o.metrics;
}

-- A metric of one kind: a utilization for cpu and memory, and else a value that is written the way it
-- is printed.
abbrev pub IsMetric : Cluster → Metric → Type 0
IsMetric c m =
    if m.name == codes "cpu" || m.name == codes "memory"
    then (nonzero m.target_average_utilization ≡ true) × (m.target_average_value ≡ [])
    else (m.target_average_utilization ≡ pos 0)
      × (c.parse_quantity m.target_average_value ≡ some m.target_average_value)

pods_ne : (codes "Pods" == codes "Resource") ≡ false
unfolding ◌==◌
pods_ne = refl

read_metric-resource :
    (m : Metric)
    → (m.name == codes "cpu" || m.name == codes "memory") ≡ true
    → m.target_average_value ≡ []
    → read_metric
        (record {
          type = codes "Resource";
          resource = some (m.name, some m.target_average_utilization);
          pods = none;
        })
        no_metric
      ≡ some m
unfolding read_metric
read_metric-resource m e h =
    rw (==_refl (codes "Resource"), e, read_metric)
      (ap (λ (v : Text). some (record m { target_average_value = v })) (sym h))

read_metric-pods :
    (m : Metric)
    → m.target_average_utilization ≡ pos 0
    → read_metric
        (record {
          type = codes "Pods";
          resource = none;
          pods = some (m.name, some m.target_average_value);
        })
        no_metric
      ≡ some m
unfolding read_metric
read_metric-pods m h =
    rw (pods_ne, ==_refl (codes "Pods"), read_metric)
      (ap (λ (u : ℤ). some (record m { target_average_utilization = u })) (sym h))

pub read_metric-metric_spec :
    (c : Cluster) (m : Metric)
    → IsMetric c m
    → first (metric_spec c m) (λ k. read_metric k no_metric) ≡ some m
unfolding metric_spec
read_metric-metric_spec c m h =
    elim (Bool-cases (m.name == codes "cpu" || m.name == codes "memory")) [
      | inl e ↦
          let k : (nonzero m.target_average_utilization ≡ true) × (m.target_average_value ≡ []) =
            rw e at h in
          rw (e, k.0, metric_spec) (read_metric-resource m e k.1)
      | inr e ↦
          let k : (m.target_average_utilization ≡ pos 0)
              × (c.parse_quantity m.target_average_value ≡ some m.target_average_value) =
            rw e at h in
          rw (e, k.1, metric_spec) (read_metric-pods m k.0)
    ]

hpa_object-made :
    (c : Cluster) (namespace : Text) (svc : Service) (o : HpaObject)
    → hpa_object c namespace svc ≡ some o
    → (o.min_replicas ≡ svc.hpa.min_replicas)
      × (o.max_replicas ≡ svc.hpa.max_replicas)
      × (o.metrics ≡ metric_spec c svc.hpa.metric)
unfolding hpa_object
hpa_object-made c namespace svc o h = built (is_blue_green_parent svc) _ o h
  where
    built :
        (parent : Bool) (x o : HpaObject)
        → (if parent then none else some x) ≡ some o
        → (o.min_replicas ≡ x.min_replicas)
          × (o.max_replicas ≡ x.max_replicas)
          × (o.metrics ≡ x.metrics)
    built true x o h = cc
    built false x o h =
        let same : o ≡ x = cc in
        (
          ap (λ (y : HpaObject). y.min_replicas) same,
          ap (λ (y : HpaObject). y.max_replicas) same,
          ap (λ (y : HpaObject). y.metrics) same,
        )

pub add_hpa-first :
    (k : KubeHpa) (n : ℤ) (ms : List KubeMetric) (m : Metric) (s : Service)
    → k.min_replicas ≡ some n
    → k.metrics ≡ ms
    → s.hpa.metric ≡ no_metric
    → first ms (λ x. read_metric x no_metric) ≡ some m
    → add_hpa k s ≡ some (with_hpa n k.max_replicas m s)
unfolding add_hpa
add_hpa-first k n [] m s a b z h = cc
add_hpa-first k n (x ∷ ms) m s a b z h = rw (a, b, z, h) refl

-- When the metric of a service is of one kind, its autoscaler is read back as it was configured, and
-- the replicas are then the minimum.
pub add_hpa-hpa_object :
    (c : Cluster) (namespace : Text) (svc s : Service) (o : HpaObject)
    → IsMetric c svc.hpa.metric
    → hpa_object c namespace svc ≡ some o
    → s.hpa.metric ≡ no_metric
    → (t : Service) × (add_hpa (seen_hpa o) s ≡ some t)
      × (t.hpa ≡ svc.hpa)
      × (t.replicas ≡ svc.hpa.min_replicas)
add_hpa-hpa_object c namespace svc s o h made z =
    let (low, high, metrics) = hpa_object-made c namespace svc o made in
    (
      with_hpa svc.hpa.min_replicas o.max_replicas svc.hpa.metric s,
      add_hpa-first (seen_hpa o) svc.hpa.min_replicas (metric_spec c svc.hpa.metric) svc.hpa.metric
          s (ap some low) metrics z (read_metric-metric_spec c svc.hpa.metric h),
      ap
          (λ (n : ℤ). record {
            min_replicas = svc.hpa.min_replicas;
            max_replicas = n;
            metric = svc.hpa.metric;
          })
          high,
      refl,
    )
