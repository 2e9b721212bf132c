-- ===== src/Cluster/Scrape/Containers.antt =====
-- pkg/cluster/helpers.go: what is read of the first container of a deployment.
use environment_operator.Prelude.{
  Text, codes, ◌==◌, join, Bool, List, [], ◌∷◌, ◌++◌, Option, none, some, exists, if◌then◌else◌,
}
use environment_operator.Bitesize.Types.{EnvVar, HealthCheck, Probe, Handler, Volume, KeyToPath}
use environment_operator.Bitesize.Zero.{no_env_var, no_handler, no_volume}
use environment_operator.Bitesize.Gists.{type_configmap, type_secret}
use environment_operator.Cluster.Scrape.Objects.{KubeEnvVar, KubeProbe, KubeVolume}

unfoldable pub is_reserved_env_var : KubeEnvVar → Bool
is_reserved_env_var e = e.name == codes "POD_DEPLOYMENT_COLOUR"

-- A secret's variable has its name in `secret`.
unfoldable pub env_var : KubeEnvVar → EnvVar
env_var e = elim e.secret_key_ref [
  | some (name, key) ↦ record no_env_var { value = name ++ (b'/' ∷ key); secret = e.name }
  | none ↦ elim e.field_ref [
    | some path ↦ record no_env_var { pod_field = path; name = e.name }
    | none ↦ record no_env_var { name = e.name; value = e.value }
  ]
]

unfoldable pub env_vars : List KubeEnvVar → List EnvVar
env_vars [] = []
env_vars (e ∷ es) =
    let rest = env_vars es in if is_reserved_env_var e then rest else env_var e ∷ rest

unfoldable pub health_check : Option KubeProbe → Option HealthCheck
health_check none = none
health_check (some p) = elim p.exec [
  | none ↦ none
  | some command ↦ some (record {
    command = command;
    initial_delay = p.initial_delay_seconds;
    timeout = p.timeout_seconds;
  })
]

-- The last kind of action that is set is the handler.
unfoldable pub handler_of : KubeProbe → Handler
handler_of p = elim p.tcp_socket [
  | some socket ↦ record no_handler { tcp_socket = some socket }
  | none ↦ elim p.exec [
    | some command ↦ record no_handler { exec = some command }
    | none ↦ elim p.http_get [
      | some get ↦ record no_handler { http_get = some get }
      | none ↦ no_handler
    ]
  ]
]

unfoldable pub convert_probe : Option KubeProbe → Option Probe
convert_probe none = none
convert_probe (some p) = some (record {
  handler = handler_of p;
  initial_delay_seconds = p.initial_delay_seconds;
  timeout_seconds = p.timeout_seconds;
  period_seconds = p.period_seconds;
  success_threshold = p.success_threshold;
  failure_threshold = p.failure_threshold;
})

-- The modes that are in the list, in the order of the code.
abbrev listed : List Text → List Text → List Text
listed modes [] = []
listed modes (m ∷ ms) =
    let rest = listed modes ms in if exists (λ (k : Text). k == m) modes then m ∷ rest else rest

unfoldable pub access_modes : List Text → Text
access_modes modes =
    join b','
      (listed modes (codes "ReadWriteOnce" ∷ codes "ReadOnlyMany" ∷ codes "ReadWriteMany" ∷ []))

-- The path of the last mount of the name, or the empty string.
unfoldable pub mount_path : Text → List (Text × Text) → Text → Text
mount_path name [] path = path
mount_path name ((n, p) ∷ mounts) path = mount_path name mounts (if n == name then p else path)

abbrev mounted : List (Text × Text) → Text → Text → List KeyToPath → Volume
mounted mounts name type items = record no_volume {
  name = name;
  type = type;
  modes = codes "ReadWriteOnce";
  path = mount_path name mounts [];
  items = items;
}

unfoldable pub mounted_volumes : List (Text × Text) → List KubeVolume → List Volume
mounted_volumes mounts [] = []
mounted_volumes mounts (v ∷ vs) =
    let rest = mounted_volumes mounts vs in
    elim v.config_map [
      | some items ↦ mounted mounts v.name type_configmap items ∷ rest
      | none ↦ elim v.secret [
        | some items ↦ mounted mounts v.name type_secret items ∷ rest
        | none ↦ rest
      ]
    ]
