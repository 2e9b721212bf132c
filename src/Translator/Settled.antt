-- ===== src/Translator/Settled.antt =====
-- A service that was deployed, read back and compared: the loop of the operator at rest.
use environment_operator.Prelude.{
  true, Text, TextMap, codes, lookup, text_at, ◌==◌, List, [], ◌∷◌, map, All, Option, none, some,
  ok, ℤ, ◌≡◌, refl,
}
use environment_operator.Prelude.Sort.{sort_by}
use environment_operator.Prelude.Numbers.{IsInt32, to_int32-IsInt32}
use environment_operator.Bitesize.Types.{Service, Resources, Probe, EnvVar}
use environment_operator.Bitesize.Zero.{no_service, no_deployment, no_empties}
use environment_operator.Bitesize.Volumes.{sort_volumes_by_vol_name, pick_volumes}
use environment_operator.Cluster.Scrape.Objects.{KubeService, KubeEnvVar}
use environment_operator.Cluster.Scrape.Containers.{health_check, mounted_volumes}
use environment_operator.Cluster.Scrape.{
  or_new, more_volumes, with_deployment, deployment_settings, add_service, add_deployment,
  when_true,
}
use environment_operator.Diff.Compare.{without_status}
use environment_operator.Translator.Objects.{
  Process, Cluster, ContainerObject, DeploymentObject, ServiceObject, ServicePort,
}
use environment_operator.Translator.Metadata.{named, labels, annotations, creator}
use environment_operator.Translator.Services.{service_port, service_with, service_object}
use environment_operator.Bitesize.Service.{
  active_deployment_name, is_blue_green_parent, deployment_method,
}
use environment_operator.Translator.Containers.{probe_of, container_with, kube_env_vars}
use environment_operator.Translator.Deployments.{deployment_of}
use environment_operator.Translator.Deployed.{
  IsHeld, Agrees, agrees, seen, seen_container, add_deployment-first, deployed_container,
}

-- What the configuration says of a service that sets only these fields.
pub record Core : Type 0 where
  pub name : Text
  pub application : Text
  pub version : Text
  pub replicas : ℤ
  pub port : ℤ
  pub ports : List ℤ
  pub requests : Resources
  pub limits : Resources
  pub liveness_probe : Option Probe
  pub readiness_probe : Option Probe
  pub env_vars : List EnvVar
  pub commands : List Text
  pub annotations : TextMap Text

-- The service: its health check is the one that is read of its liveness probe, ssl and httpsOnly are
-- false, its URLs are an empty slice, and every other field has its zero value: there are no init
-- containers, no protocol, no grace period, no deployment method and no empty slice that is not nil.
abbrev pub plain : Core → Service
plain c = record no_service {
  name = c.name;
  application = c.application;
  version = c.version;
  replicas = c.replicas;
  ports = c.port ∷ c.ports;
  deployment = some no_deployment;
  requests = c.requests;
  limits = c.limits;
  health_check = health_check (probe_of c.liveness_probe);
  liveness_probe = c.liveness_probe;
  readiness_probe = c.readiness_probe;
  env_vars = c.env_vars;
  commands = c.commands;
  annotations = c.annotations;
  ssl = codes "false";
  https_only = codes "false";
  empties = record no_empties { external_url = true };
}

-- Nothing is different but the status once the read fields agree.
same_service :
    (c : Core) (t : Service)
    → Agrees (plain c) t
    → t.health_check ≡ (plain c).health_check
    → t.ports ≡ (plain c).ports
    → without_status (record (plain c) {
      version = t.version;
      application = t.application;
      replicas = t.replicas;
      env_vars = t.env_vars;
      commands = t.commands;
      liveness_probe = t.liveness_probe;
      readiness_probe = t.readiness_probe;
      annotations = t.annotations;
      requests = t.requests;
      limits = t.limits;
      health_check = t.health_check;
      ports = t.ports;
    })
      ≡ plain c
same_service c t a h p =
    rw
      (
        a.version, a.application, a.replicas, a.env_vars, a.commands, a.liveness_probe,
        a.readiness_probe, a.annotations, a.requests, a.limits, h, p,
      )
      refl

-- The service object as the cluster lists it.
abbrev pub seen_service : ServiceObject → KubeService
seen_service o = record {
  name = o.meta.name;
  labels = o.meta.labels;
  annotations = o.meta.annotations;
  ports = map (λ (p : ServicePort). p.port) o.ports;
}

abbrev pub made_service : Text → Core → ServiceObject
made_service namespace c = record {
  meta = record (named c.name namespace (labels (plain c))) {
    annotations = (codes "deployment_method", []) ∷ [];
  };
  ports = map (service_port []) (c.port ∷ c.ports);
  selector = creator ∷ (codes "name", c.name) ∷ [];
  cluster_ip = [];
}

pub service_made :
    (namespace : Text) (c : Core)
    → service_object namespace (plain c) ≡ some (made_service namespace c)
unfolding service_object service_with active_deployment_name is_blue_green_parent deployment_method
    annotations ◌==◌
service_made namespace c = refl

-- The entry after the service object was read.
abbrev pub first_entry : Text → Core → Service
first_entry namespace c = add_service (seen_service (made_service namespace c)) (or_new c.name none)

pub no_volumes :
    (namespace : Text) (c : Core) (mounts : List (Text × Text))
    → more_volumes (first_entry namespace c).volumes (mounted_volumes mounts []) ≡ some []
unfolding more_volumes sort_volumes_by_vol_name pick_volumes mounted_volumes sort_by add_service
no_volumes namespace c mounts = refl

seen_ports :
    (ps : List ℤ)
    → All IsInt32 ps
    → map (λ (p : ServicePort). p.port) (map (service_port []) ps) ≡ ps
unfolding service_port
seen_ports [] h = refl
seen_ports (p ∷ ps) h = rw (to_int32-IsInt32 p h.0, seen_ports ps h.1) refl

module _ (p : Process) (cl : Cluster) (namespace zero created : Text) (n : ℤ) (c : Core)
    (mounts : List (Text × Text)) (env : List KubeEnvVar) where
  abbrev pub container : ContainerObject
  container = container_with cl (plain c) mounts env

  abbrev pub built : DeploymentObject
  built = deployment_of p cl namespace (plain c) container

  -- The entry after both objects were read.
  abbrev pub last_entry : Service
  last_entry =
      with_deployment zero (seen created n built) (seen_container container) []
        (first_entry namespace c)

  pub second_read :
      add_deployment zero (seen created n built) (first_entry namespace c) ≡ some last_entry
  unfolding deployment_of container_with
  second_read =
      add_deployment-first zero (seen created n built) _ (seen_container container)
        (first_entry namespace c) [] refl (deployed_container p cl namespace (plain c) container)
        (no_volumes namespace c mounts)

  pub last_ports : All IsInt32 (c.port ∷ c.ports) → last_entry.ports ≡ c.port ∷ c.ports
  unfolding add_service
  last_ports h = seen_ports (c.port ∷ c.ports) h

  pub last_same :
      IsHeld cl (plain c)
      → All IsInt32 (c.port ∷ c.ports)
      → kube_env_vars p cl (plain c) ≡ ok env
      → without_status last_entry ≡ plain c
  unfolding deployment_of container_with add_service deployment_settings when_true text_at lookup
      ◌==◌
  last_same h k e =
      let a : Agrees (plain c) last_entry =
        agrees zero created n p cl namespace (plain c) (first_entry namespace c) mounts [] env h e
          refl in
      same_service c last_entry a refl (last_ports k)
