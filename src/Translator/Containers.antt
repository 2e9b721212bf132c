-- ===== src/Translator/Containers.antt =====
-- The containers of a deployment: environment variables, mounts, probes and resources.
use environment_operator.Prelude.{
  Text, TextMap, codes, split, Bool, ◌||◌, List, [], ◌∷◌, ◌++◌, map, Option, none, some, Result, ok,
  err, ◌>>=◌, ℤ, is_empty, if◌then◌else◌,
}
use environment_operator.Prelude.Numbers.{to_int32}
use environment_operator.Bitesize.Types.{
  Service, EnvVar, Volume, Probe, Container, HttpGetAction, HttpHeader,
}
use environment_operator.Bitesize.Colour.{colour_name}
use environment_operator.Bitesize.Service.{blue_green_of, is_blue_green_parent}
use environment_operator.Cluster.Scrape.Objects.{KubeEnvVar, KubeProbe}
use environment_operator.Translator.Objects.{Process, Cluster, ContainerObject}
use environment_operator.Translator.Metadata.{image}

-- The name of a secret and the key in it: the two parts at the slash, or else the first part twice.
unfoldable pub secret_parts : List Text → Text × Text
secret_parts [] = ([], [])
secret_parts (name ∷ key ∷ []) = (name, key)
secret_parts (name ∷ _) = (name, name)

-- A variable and the secret that it needs. One with no secret, value and field is empty.
unfoldable pub env_var_of : EnvVar → KubeEnvVar
unfolding secret_parts
env_var_of e =
    if is_empty e.secret
    then (if is_empty e.value
        then (if is_empty e.pod_field
            then record { name = []; value = []; secret_key_ref = none; field_ref = none }
            else record {
              name = e.name;
              value = [];
              secret_key_ref = none;
              field_ref = some e.pod_field;
            })
        else record { name = e.name; value = e.value; secret_key_ref = none; field_ref = none })
    else record {
      name = e.secret;
      value = [];
      secret_key_ref = some (secret_parts (split b'/' e.value));
      field_ref = none;
    }

-- The last secret that the cluster lacks.
unfoldable pub missing_secret : (Text → Bool) → List EnvVar → Option Text
unfolding secret_parts
missing_secret has [] = none
missing_secret has (e ∷ es) = elim (missing_secret has es) [
  | some name ↦ some name
  | none ↦
      let name = (secret_parts (split b'/' e.value)).0 in
      if is_empty e.secret || has name then none else some name
]

-- The variable that a blue/green child carries.
unfoldable pub colour_vars : Service → List KubeEnvVar
colour_vars svc = elim (blue_green_of svc) [
  | none ↦ []
  | some b ↦ elim b.deployment_colour [
    | none ↦ []
    | some c ↦
        record {
          name = codes "POD_DEPLOYMENT_COLOUR";
          value = colour_name c;
          secret_key_ref = none;
          field_ref = none;
        }
        ∷ []
  ]
]

abbrev missing_error : Process → Text → Text → Service → Text
missing_error p name scope svc =
    codes "nable to find secret ["
    ++ name
    ++ codes "] in namespace ["
    ++ p.namespace
    ++ codes "] when processing envvars for "
    ++ scope
    ++ codes " ["
    ++ svc.name
    ++ codes "]"

module _ (p : Process) (c : Cluster) (svc : Service) where
  -- The variables are made whatever is missing; the error is of the last missing secret.
  unfoldable pub vars_of : Text → Text → List EnvVar → Result (List KubeEnvVar)
  unfolding env_var_of missing_secret colour_vars
  vars_of u scope es = elim (missing_secret c.secret_exists es) [
    | some name ↦ err (u ++ missing_error p name scope svc)
    | none ↦ ok (map env_var_of es ++ colour_vars svc)
  ]

  unfoldable pub kube_env_vars : Result (List KubeEnvVar)
  unfolding vars_of
  kube_env_vars = vars_of (codes "u") (codes "deployment") svc.env_vars

  unfoldable pub init_env_vars : Container → Result (List KubeEnvVar)
  unfolding vars_of
  init_env_vars container = vars_of (codes "U") (codes "init containers") container.env_vars

unfoldable pub mounts_of : List Volume → Result (List (Text × Text))
mounts_of [] = ok []
mounts_of (v ∷ vs) =
    if is_empty v.name || is_empty v.path
    then err (codes "volume must have both name and path set")
    else (mounts_of vs >>= λ rest. ok ((v.name, v.path) ∷ rest))

unfoldable pub volume_mounts : Service → Result (List (Text × Text))
unfolding mounts_of
volume_mounts svc = if is_blue_green_parent svc then ok [] else mounts_of svc.volumes

unfoldable pub init_volume_mounts : Service → Container → Result (List (Text × Text))
unfolding mounts_of
init_volume_mounts svc container =
    if is_blue_green_parent svc then ok [] else mounts_of container.volumes

-- The headers of an action are copied one by one.
unfoldable pub copy_headers : List HttpHeader → List HttpHeader
copy_headers [] = []
copy_headers (h ∷ hs) = record { name = h.name; value = h.value } ∷ copy_headers hs

abbrev http_get_of : HttpGetAction → HttpGetAction
http_get_of g = record {
  path = g.path;
  port = g.port;
  host = g.host;
  scheme = g.scheme;
  http_headers = copy_headers g.http_headers;
}

abbrev bare_probe : Probe → KubeProbe
bare_probe p = record {
  initial_delay_seconds = p.initial_delay_seconds;
  timeout_seconds = p.timeout_seconds;
  period_seconds = p.period_seconds;
  success_threshold = p.success_threshold;
  failure_threshold = p.failure_threshold;
  http_get = none;
  exec = none;
  tcp_socket = none;
}

-- Of several actions the last one that the code looks at is kept.
unfoldable pub probe_of : Option Probe → Option KubeProbe
unfolding copy_headers
probe_of none = none
probe_of (some p) = some (elim p.handler.tcp_socket [
  | some socket ↦ record (bare_probe p) { tcp_socket = some socket }
  | none ↦ elim p.handler.exec [
    | some command ↦ record (bare_probe p) { exec = some command }
    | none ↦ elim p.handler.http_get [
      | some get ↦ record (bare_probe p) { http_get = some (http_get_of get) }
      | none ↦ bare_probe p
    ]
  ]
])

abbrev quantity_of : Text → Option Text → TextMap Text
quantity_of key none = []
quantity_of key (some q) = (key, q) ∷ []

-- A quantity that cannot be parsed is left out.
unfoldable pub resources_of : Cluster → Text → Text → TextMap Text
resources_of c cpu memory =
    quantity_of (codes "cpu") (c.parse_quantity cpu)
    ++ quantity_of (codes "memory") (c.parse_quantity memory)

unfoldable pub container_with :
    Cluster → Service → List (Text × Text) → List KubeEnvVar → ContainerObject
unfolding probe_of resources_of
container_with c svc mounts env = record {
  name = svc.name;
  image = [];
  env = env;
  mounts = mounts;
  requests = resources_of c svc.requests.cpu svc.requests.memory;
  limits = resources_of c svc.limits.cpu svc.limits.memory;
  command = svc.commands;
  liveness_probe = probe_of svc.liveness_probe;
  readiness_probe = probe_of svc.readiness_probe;
  ports = map (λ (n : ℤ). (to_int32 n, codes "TCP")) svc.ports;
}

unfoldable pub container_of : Process → Cluster → Service → Result ContainerObject
unfolding volume_mounts kube_env_vars container_with
container_of p c svc = do
  mounts ← volume_mounts svc
  env ← kube_env_vars p c svc
  ok (container_with c svc mounts env)

unfoldable pub init_container_of : Process → Cluster → Service → Container → Result ContainerObject
unfolding init_volume_mounts init_env_vars image
init_container_of p c svc container = do
  env ← init_env_vars p c svc container
  mounts ← init_volume_mounts svc container
  ok (record {
    name = container.name;
    image =
        if is_empty container.version then [] else image p container.application container.version;
    env = env;
    mounts = mounts;
    requests = [];
    limits = [];
    command = container.command;
    liveness_probe = none;
    readiness_probe = none;
    ports = [];
  })

-- The first error ends the loop.
unfoldable pub init_containers_of :
    Process → Cluster → Service → List Container → Result (List ContainerObject)
unfolding init_container_of
init_containers_of p c svc [] = ok []
init_containers_of p c svc (container ∷ rest) = do
  object ← init_container_of p c svc container
  objects ← init_containers_of p c svc rest
  ok (object ∷ objects)

unfoldable pub init_containers : Process → Cluster → Service → Result (List ContainerObject)
unfolding init_containers_of
init_containers p c svc = elim svc.init_containers [
  | none ↦ ok []
  | some cs ↦ init_containers_of p c svc cs
]
