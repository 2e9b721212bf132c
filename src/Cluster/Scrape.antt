-- ===== src/Cluster/Scrape.antt =====
-- pkg/cluster/service_map.go and the reading of the services in `ScrapeResourcesForNamespace` of
-- pkg/cluster/cluster.go. A panic, and the end of the process by os.Exit, is `none`.
pub mod Objects
pub mod Containers
pub mod Events
pub mod Keyed
pub mod Separate
pub mod Lookups
pub mod Listings
pub mod Readable
pub mod Imported
pub mod Namespaces
use environment_operator.Prelude.{
  Text, TextMap, codes, text_at, lookup, insert, to_lower, ◌==◌, ◌||◌, Bool, true, false, not, ◌&&◌,
  List, [], ◌∷◌, ◌++◌, map, Option, none, some, Result, ok, err, ℤ, pos, nonzero, eqb, eqz,
  is_empty, if◌then◌else◌,
}
use environment_operator.Prelude.Sort.{sort_by}
use environment_operator.Bitesize.Types.{Service, Volume, DeploymentSettings, Metric, unset}
use environment_operator.Bitesize.Zero.{
  no_service, no_deployment, no_blue_green, no_volume, no_resources, no_empties,
}
use environment_operator.Bitesize.Colour.{blue_green_deployment_id}
use environment_operator.Bitesize.Volumes.{sort_volumes_by_vol_name}
use environment_operator.Cluster.Scrape.Objects.{
  KubeService, KubeContainer, KubeDeployment, KubeMetric, KubeHpa, KubeRule, KubeIngress, KubeClaim,
  KubeCustom,
}
use environment_operator.Cluster.Scrape.Containers.{
  env_vars, health_check, convert_probe, mounted_volumes, access_modes,
}

-- xs[0], a panic where there is none
abbrev pub first {ℓ κ} : {A : Type ℓ} {B : Type κ} → List A → (A → Option B) → Option B
first [] f = none
first (x ∷ _) f = f x

-- *p, a panic where p is nil
abbrev pub deref {ℓ κ} : {A : Type ℓ} {B : Type κ} → Option A → (A → Option B) → Option B
deref none f = none
deref (some x) f = f x

abbrev pub or_new : Text → Option Service → Service
or_new name (some s) = s
or_new name none = record no_service {
  name = name;
  replicas = pos 1;
  deployment = some no_deployment;
  requests = record no_resources { cpu = codes "100m" };
  https_only = codes "false";
  ssl = codes "false";
  empties = record no_empties { external_url = true };
}

-- The service of the name, or a new one with the defaults.
unfoldable pub create_or_get : Text → TextMap Service → Service
create_or_get name m = or_new name (lookup name m)

-- The values of the map in the order of their names; the keys are the names, so no two are equal.
unfoldable pub services : TextMap Service → List Service
services m = sort_by (λ (s : Service). s.name) (map (λ e. e.1) m)

unfoldable pub deployment_settings : TextMap Text → DeploymentSettings
deployment_settings annotations =
    let active = text_at (codes "deployment_active") annotations in
    record no_deployment {
      method = text_at (codes "deployment_method") annotations;
      blue_green = if is_empty active then none else elim (blue_green_deployment_id active) [
        | unset ↦ none
        | c ↦ some (record no_blue_green { active = some c })
      ];
    }

unfoldable pub add_service : KubeService → Service → Service
add_service k s = record s {
  application = text_at (codes "application") k.labels;
  deployment = some (deployment_settings k.annotations);
  ports = if is_empty k.ports then s.ports else k.ports;
  empties = record s.empties { ports = s.empties.ports && is_empty k.ports };
}

-- "true" where the label is set, else what was there
unfoldable pub when_true : Text → TextMap Text → Text → Text
when_true key labels old = if text_at key labels == codes "true" then codes "true" else old

-- The service's volumes with more of them, sorted; none leaves the service's own.
unfoldable pub more_volumes : List Volume → List Volume → Option (List Volume)
more_volumes old new = elim (sort_volumes_by_vol_name (old ++ new)) [
  | err _ ↦ none
  | ok vs ↦ some (if is_empty vs then old else vs)
]

-- A quantity as its text; `zero` is the text of the one that a missing key yields.
abbrev quantity : Text → Text → TextMap Text → Text
quantity zero key m = elim (lookup key m) [ none ↦ zero | some q ↦ q ]

unfoldable pub read_resources : Text → TextMap Text → Text × Text → Text × Text
read_resources zero m old =
    if is_empty m then old else (quantity zero (codes "cpu") m, quantity zero (codes "memory") m)

abbrev pub with_deployment : Text → KubeDeployment → KubeContainer → List Volume → Service → Service
with_deployment zero k c vs s =
    let requests = read_resources zero c.requests (s.requests.cpu, s.requests.memory) in
    let limits = read_resources zero c.limits (s.limits.cpu, s.limits.memory) in
    record s {
      replicas = elim k.replicas [ none ↦ s.replicas | some n ↦ n ];
      requests = record { cpu = requests.0; memory = requests.1 };
      limits = record { cpu = limits.0; memory = limits.1 };
      ssl = when_true (codes "ssl") k.labels s.ssl;
      https_only = when_true (codes "httpsOnly") k.labels s.https_only;
      version = text_at (codes "version") k.labels;
      application = text_at (codes "application") k.labels;
      https_backend = text_at (codes "httpsBackend") k.labels;
      env_vars = env_vars c.env;
      health_check = health_check c.liveness_probe;
      liveness_probe = convert_probe c.liveness_probe;
      readiness_probe = convert_probe c.readiness_probe;
      volumes = vs;
      commands = s.commands ++ c.command;
      annotations = elim k.template_annotations [ none ↦ [] | some m ↦ m ];
      status = record {
        deployed_at = k.created;
        available_replicas = k.available_replicas;
        desired_replicas = k.status_replicas;
        current_replicas = k.updated_replicas;
      };
      empties = record s.empties {
        env_vars = false;
        commands = s.empties.commands && is_empty c.command;
        volumes = s.empties.volumes && is_empty vs;
        liveness_headers = false;
        readiness_headers = false;
      };
    }

unfoldable pub add_deployment : Text → KubeDeployment → Service → Option Service
add_deployment zero k s = first k.containers λ c.
    deref (more_volumes s.volumes (mounted_volumes c.mounts k.volumes))
      λ vs. some (with_deployment zero k c vs s)

-- The metric of the autoscaler; a nil pointer in it is a panic.
unfoldable pub read_metric : KubeMetric → Metric → Option Metric
read_metric k m =
    if k.type == codes "Resource"
    then (deref k.resource λ r. deref r.1 λ utilization. some (record m {
      name = if r.0 == codes "cpu" || r.0 == codes "memory" then r.0 else m.name;
      target_average_utilization = utilization;
    }))
    else if k.type == codes "Pods"
    then (deref k.pods
        λ p. deref p.1 λ value. some (record m { name = p.0; target_average_value = value }))
    else some m

abbrev pub with_hpa : ℤ → ℤ → Metric → Service → Service
with_hpa n max m s = record s {
  hpa = record { min_replicas = n; max_replicas = max; metric = m };
  replicas = n;
}

unfoldable pub add_hpa : KubeHpa → Service → Option Service
add_hpa k s = deref k.min_replicas λ n.
    first k.metrics
      λ metric. deref (read_metric metric s.hpa.metric) λ m. some (with_hpa n k.max_replicas m s)

-- strings.Replace(s, "2F", "/", -1)
unfoldable pub slashes : Text → Text
slashes [] = []
slashes (a ∷ []) = a ∷ []
slashes (a ∷ b ∷ s) = elim (eqb a b'2' && eqb b b'F') [
  | true ↦ b'/' ∷ slashes s
  | false ↦ a ∷ slashes (b ∷ s)
]

abbrev pub with_volumes : List Volume → Service → Service
with_volumes vs s = record s {
  volumes = vs;
  empties = record s.empties { volumes = s.empties.volumes && is_empty vs };
}

unfoldable pub add_volume_claim : KubeClaim → Service → Option Service
add_volume_claim k s =
    let volume : Volume = record no_volume {
      path = slashes (text_at (codes "mount_path") k.labels);
      modes = access_modes k.access_modes;
      size = text_at (codes "size") k.labels;
      name = k.name;
      type = text_at (codes "type") k.labels;
    } in
    deref (more_volumes s.volumes (volume ∷ [])) λ vs. some (with_volumes vs s)

unfoldable pub add_custom : KubeCustom → Service → Service
add_custom k s = record s {
  type = to_lower k.kind;
  options = k.options;
  version = k.version;
  target_namespace = k.target_namespace;
  chart = k.chart;
  repo = k.repo;
  set = k.set;
  values_content = k.values_content;
  ignore = k.ignore;
  replicas = if nonzero k.replicas then k.replicas else s.replicas;
  empties = record s.empties { set = k.set_made && is_empty k.set };
}

-- The first port of the service is compared with the port of the backend.
abbrev backend_port_of : List ℤ → ℤ → ℤ → ℤ
backend_port_of [] port old = old
backend_port_of (p ∷ _) port old = if eqz port p then old else port

abbrev pub with_ingress : KubeIngress → Text → ℤ → Service → Service
with_ingress k backend port s = record s {
  ssl = when_true (codes "ssl") k.labels s.ssl;
  https_only = when_true (codes "httpsOnly") k.labels s.https_only;
  external_url = map (λ (r : KubeRule). r.host) k.rules;
  https_backend = text_at (codes "httpsBackend") k.labels;
  http2 = text_at (codes "http2") k.labels;
  backend = if backend == s.name then s.backend else backend;
  backend_port = backend_port_of s.ports port s.backend_port;
  empties = record s.empties { external_url = is_empty k.rules };
}

unfoldable pub add_ingress : KubeIngress → Service → Option Service
add_ingress k s =
    first k.rules
      λ rule. deref rule.paths λ paths. first paths λ path. some (with_ingress k path.0 path.1 s)
