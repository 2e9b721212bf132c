-- ===== src/Translator/Deployed.antt =====
-- A service that was deployed and is read back: the translator against the reading of deployments.
use environment_operator.Prelude.{
  Text, codes, lookup, text_at, ◌==◌, List, [], ◌∷◌, map, All, Option, none, some, ok, ℤ, ◌≡◌, refl,
  ap, is_empty, Bool-cases, inl, inr, ◌∙◌,
}
use mathlib.Core.Path.{subst}
use environment_operator.Prelude.Numbers.{IsInt32, to_int32-IsInt32}
use environment_operator.Bitesize.Types.{Service, Resources, Volume}
use environment_operator.Cluster.Scrape.Objects.{
  KubeDeployment, KubeVolume, KubeContainer, KubeEnvVar,
}
use environment_operator.Cluster.Scrape.Containers.{mounted_volumes}
use environment_operator.Cluster.Scrape.Readable.{more_volumes-IsThere, IsThere}
use environment_operator.Cluster.Scrape.{
  first, deref, read_resources, more_volumes, with_deployment, add_deployment,
}
use environment_operator.Translator.Objects.{
  Process, Cluster, ContainerObject, DeploymentObject, VolumeObject, secret_source,
  config_map_source, claim_source,
}
use environment_operator.Translator.Containers.{resources_of, container_with, kube_env_vars}
use environment_operator.Translator.Deployments.{deployment_of, deployment_object}
use environment_operator.Translator.Variables.{IsPlain, env_vars-kube_env_vars}
use environment_operator.Translator.Probes.{IsProbe, convert_probe-probe_of}
use environment_operator.Translator.Made.{deployment_object-made, container_of-made}

-- The deployment as the cluster lists it: the fields that the translator set, and the status.
abbrev seen_volume : VolumeObject → KubeVolume
seen_volume v = elim v.source [
  | secret_source _ ↦ record { name = v.name; config_map = none; secret = some [] }
  | config_map_source _ items ↦ record { name = v.name; config_map = some items; secret = none }
  | claim_source _ ↦ record { name = v.name; config_map = none; secret = none }
]

abbrev pub seen_container : ContainerObject → KubeContainer
seen_container k = record {
  requests = k.requests;
  limits = k.limits;
  env = k.env;
  liveness_probe = k.liveness_probe;
  readiness_probe = k.readiness_probe;
  mounts = k.mounts;
  command = k.command;
}

abbrev pub seen : Text → ℤ → DeploymentObject → KubeDeployment
seen created n d = record {
  name = d.meta.name;
  labels = d.meta.labels;
  replicas = some d.replicas;
  containers = seen_container d.container ∷ [];
  volumes = map seen_volume d.volumes;
  template_annotations = some d.template.annotations;
  created = created;
  available_replicas = n;
  status_replicas = n;
  updated_replicas = n;
}

-- Both quantities are written the way they are printed.
abbrev pub IsCanonical : Cluster → Resources → Type 0
IsCanonical c r =
    (c.parse_quantity r.cpu ≡ some r.cpu) × (c.parse_quantity r.memory ≡ some r.memory)

-- What a deployment can hold: variables of one kind each, probes with one action, a number of
-- replicas that fits, and quantities that are written the way they are printed.
pub record IsHeld (c : Cluster) (svc : Service) : Type 0 where
  pub variables : All IsPlain svc.env_vars
  pub liveness : IsProbe svc.liveness_probe
  pub readiness : IsProbe svc.readiness_probe
  pub count : IsInt32 svc.replicas
  pub requested : IsCanonical c svc.requests
  pub limited : IsCanonical c svc.limits

-- The fields that are read of a deployment, against those of the service that it was made from.
pub record Agrees (svc t : Service) : Type 0 where
  pub version : t.version ≡ svc.version
  pub application : t.application ≡ svc.application
  pub replicas : t.replicas ≡ svc.replicas
  pub env_vars : t.env_vars ≡ svc.env_vars
  pub commands : t.commands ≡ svc.commands
  pub liveness_probe : t.liveness_probe ≡ svc.liveness_probe
  pub readiness_probe : t.readiness_probe ≡ svc.readiness_probe
  pub annotations : t.annotations ≡ svc.annotations
  pub requests : t.requests ≡ svc.requests
  pub limits : t.limits ≡ svc.limits

resources_of-IsCanonical :
    (c : Cluster) (r : Resources)
    → IsCanonical c r
    → resources_of c r.cpu r.memory ≡ (codes "cpu", r.cpu) ∷ (codes "memory", r.memory) ∷ []
unfolding resources_of
resources_of-IsCanonical c r h = rw (h.0, h.1, resources_of) refl

read_resources-resources_of :
    (zero : Text) (c : Cluster) (r : Resources) (old : Text × Text)
    → IsCanonical c r
    → read_resources zero (resources_of c r.cpu r.memory) old ≡ (r.cpu, r.memory)
unfolding read_resources lookup ◌==◌
read_resources-resources_of zero c r old h = rw (resources_of-IsCanonical c r h) refl

-- Only the image of the container depends on the version.
pub deployed_container :
    (p : Process) (c : Cluster) (namespace : Text) (svc : Service) (k : ContainerObject)
    → seen_container (deployment_of p c namespace svc k).container ≡ seen_container k
unfolding deployment_of
deployed_container p c namespace svc k = elim (Bool-cases (is_empty svc.version)) [
  | inl e ↦ rw e refl
  | inr e ↦ rw e refl
]

-- What is read of the container, from a service that has no commands yet.
pub agrees :
    (zero created : Text) (n : ℤ) (p : Process) (c : Cluster) (namespace : Text) (svc s : Service)
    (mounts : List (Text × Text)) (vs : List Volume) (env : List KubeEnvVar)
    → IsHeld c svc
    → kube_env_vars p c svc ≡ ok env
    → s.commands ≡ []
    → Agrees svc (
        with_deployment zero
          (seen created n (deployment_of p c namespace svc (container_with c svc mounts env)))
          (seen_container (container_with c svc mounts env))
          vs
          s)
unfolding deployment_of container_with text_at lookup ◌==◌
agrees zero created n p c namespace svc s mounts vs env h e none_yet = record {
  version = refl;
  application = refl;
  replicas = to_int32-IsInt32 svc.replicas h.count;
  env_vars = env_vars-kube_env_vars p c svc env h.variables e;
  commands = rw none_yet refl;
  liveness_probe = convert_probe-probe_of svc.liveness_probe h.liveness;
  readiness_probe = convert_probe-probe_of svc.readiness_probe h.readiness;
  annotations = refl;
  requests =
      ap (λ (r : Text × Text). record { cpu = r.0; memory = r.1 })
        (read_resources-resources_of zero c svc.requests (s.requests.cpu, s.requests.memory)
          h.requested);
  limits =
      ap (λ (r : Text × Text). record { cpu = r.0; memory = r.1 })
        (read_resources-resources_of zero c svc.limits (s.limits.cpu, s.limits.memory) h.limited);
}

there : (o : Option (List Volume)) → IsThere o → (vs : List Volume) × (o ≡ some vs)
there none h = elim h [ ]
there (some vs) h = (vs, refl)

-- Reading a deployment whose first container is known.
pub add_deployment-first :
    (zero : Text) (k : KubeDeployment) (x y : KubeContainer) (s : Service) (vs : List Volume)
    → k.containers ≡ x ∷ []
    → x ≡ y
    → more_volumes s.volumes (mounted_volumes y.mounts k.volumes) ≡ some vs
    → add_deployment zero k s ≡ some (with_deployment zero k y vs s)
unfolding add_deployment
add_deployment-first zero k x y s vs h same e =
    ap (λ (xs : List KubeContainer). first xs read) h ∙ ap read same ∙ rw e refl
  where
    read : KubeContainer → Option Service
    read z =
        deref (more_volumes s.volumes (mounted_volumes z.mounts k.volumes))
          λ us. some (with_deployment zero k z us s)

-- A deployment that was made, as it was built.
pub deployment_object-built :
    (p : Process) (c : Cluster) (namespace : Text) (svc : Service) (d : DeploymentObject)
    → deployment_object p c namespace svc ≡ ok (some d)
    → (mounts : List (Text × Text)) × (env : List KubeEnvVar) × (kube_env_vars p c svc ≡ ok env)
      × (deployment_of p c namespace svc (container_with c svc mounts env) ≡ d)
deployment_object-built p c namespace svc d made =
    let (k, from_container, from) = deployment_object-made p c namespace svc d made in
    let (mounts, env, from_env, with_env) = container_of-made p c svc k from_container in
    (
      mounts,
      env,
      from_env,
      ap (λ (x : ContainerObject). deployment_of p c namespace svc x) with_env ∙ from,
    )

-- A service is deployed and its deployment is read back into an entry that has no commands yet, such
-- as a new one. When the deployment can hold the service, the reading succeeds, and the version, the
-- application, the replicas, the variables, the commands, the probes, the annotations and the
-- resources that were read are those of the service.
pub add_deployment-deployment_object :
    (p : Process) (c : Cluster) (namespace zero created : Text) (n : ℤ) (svc s : Service)
    (d : DeploymentObject)
    → IsHeld c svc
    → deployment_object p c namespace svc ≡ ok (some d)
    → s.commands ≡ []
    → (t : Service) × (add_deployment zero (seen created n d) s ≡ some t) × Agrees svc t
unfolding container_with
add_deployment-deployment_object p c namespace zero created n svc s d h made none_yet =
    let (mounts, env, from_env, same) = deployment_object-built p c namespace svc d made in
    let container = container_with c svc mounts env in
    let built = deployment_of p c namespace svc container in
    let (vs, e) =
      there _
        (more_volumes-IsThere s.volumes (mounted_volumes mounts (map seen_volume built.volumes))) in
    subst
      (λ (x : DeploymentObject).
        (t : Service) × (add_deployment zero (seen created n x) s ≡ some t) × Agrees svc t)
      same
      (
        with_deployment zero (seen created n built) (seen_container container) vs s,
        add_deployment-first zero (seen created n built) _ (seen_container container) s vs refl
            (deployed_container p c namespace svc container) e,
        agrees zero created n p c namespace svc s mounts vs env h from_env none_yet,
      )
