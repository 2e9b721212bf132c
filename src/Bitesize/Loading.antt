-- ===== src/Bitesize/Loading.antt =====
-- loadServices of pkg/bitesize/environment.go: the services of the configuration file are completed,
-- and a blue/green service gets its two copies. A panic, and the end of the process by os.Exit, is
-- `none`.
pub mod Sorted
pub mod Environments
pub mod Sources
pub mod Laws
use environment_operator.Prelude.{
  Text, contains, to_lower, ◌||◌, List, [], ◌∷◌, ◌++◌, map, Option, none, some, Result, ok, err,
  is_empty, if◌then◌else◌,
}
use environment_operator.Bitesize.Types.{Service, EnvVar, Volume, BlueGreenServiceSet, blue, green}
use environment_operator.Bitesize.Service.{is_blue_green_parent}
use environment_operator.Bitesize.BlueGreen.{copy_blue_green_service}
use environment_operator.Bitesize.Volumes.{sort_volumes_by_vol_name}

-- A secret's variable whose value has no slash gets the value twice, with a slash between.
unfoldable pub qualified : EnvVar → EnvVar
qualified e =
    if is_empty e.secret || contains b'/' e.value
    then e
    else record e { value = e.value ++ (b'/' ∷ e.value) }

unfoldable pub lower_type : Volume → Volume
lower_type v = record v { type = to_lower v.type }

unfoldable pub sorted_volumes : List Volume → Option (List Volume)
sorted_volumes vs = elim (sort_volumes_by_vol_name vs) [
  | err _ ↦ none
  | ok sorted ↦ some (if is_empty sorted then vs else sorted)
]

-- The service as the loop leaves it in the environment.
unfoldable pub prepared : Service → Option Service
unfolding qualified lower_type sorted_volumes
prepared svc = elim (sorted_volumes (map lower_type svc.volumes)) [
  | none ↦ none
  | some vs ↦ some (record svc { env_vars = map qualified svc.env_vars; volumes = vs })
]

-- The copies of a service, the blue one first.
unfoldable pub copies : Service → Option (List Service)
copies svc =
    if is_blue_green_parent svc
    then elim (copy_blue_green_service svc blue) [
      | none ↦ none
      | some b ↦ elim (copy_blue_green_service svc green) [
        | none ↦ none
        | some g ↦ some (b ∷ g ∷ [])
      ]
    ]
    else some []

-- The services in order, and the copies in order.
unfoldable pub prepare_all : List Service → Option (List Service × List Service)
unfolding prepared copies
prepare_all [] = some ([], [])
prepare_all (svc ∷ rest) = elim (prepared svc) [
  | none ↦ none
  | some s ↦ elim (copies s) [
    | none ↦ none
    | some cs ↦ elim (prepare_all rest) [
      | none ↦ none
      | some (ss, more) ↦ some (s ∷ ss, cs ++ more)
    ]
  ]
]

unfoldable pub load_services : List Service → Option (List Service)
unfolding prepare_all
load_services services = elim (prepare_all services) [
  | none ↦ none
  | some (ss, cs) ↦ some (ss ++ cs)
]
