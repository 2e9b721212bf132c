-- ===== src/Web.antt =====
-- pkg/web: authentication, the deployment of a service, and the status of services and pods. What the
-- handlers get from the configuration, the cluster and the token library is a parameter; a response is
-- its status and its content, and a panic is `none`.
pub mod Deploys
pub mod Statuses
pub mod Access
use environment_operator.Prelude.{
  Text, codes, has_prefix, ◌==◌, Bool, true, false, ◌&&◌, ◌||◌, List, [], ◌∷◌, ◌++◌, map, exists,
  select, Option, none, some, Result, ok, err, ℤ, eqz, is_empty, if◌then◌else◌,
}
use environment_operator.Bitesize.Types.{Service, Pod}
use environment_operator.Bitesize.Service.{
  is_blue_green_parent, inactive_deployment_name, find_by_name,
}
use environment_operator.Bitesize.Gists.{Gist, find_by_type, type_configmap}

pub record AuthClient : Type 0 where
  pub allowed_groups : List Text
  pub token : Text

-- What the token library makes of a token: it does not parse, verify or hold claims, or it has
-- claims with the groups, which are none where they are missing or no list of texts.
pub data Claims : Type 0 where
  refused : Claims
  groups_claim : Option (List Text) → Claims

unfoldable pub allows_group : List Text → List Text → Bool
allows_group allowed groups = exists (λ (a : Text). exists (λ (g : Text). a == g) groups) allowed

-- `none` is the panic on claims without groups.
unfoldable pub authenticate : (Text → Claims) → AuthClient → Text → Option Bool
unfolding allows_group
authenticate parse a token =
    if is_empty a.token
    then elim (parse token) [
      | refused ↦ some false
      | groups_claim none ↦ none
      | groups_claim (some groups) ↦
          some (if is_empty groups then false else allows_group a.allowed_groups groups)
    ]
    else some (a.token == token)

abbrev drop_prefix : Text → Text → Text
drop_prefix [] s = s
drop_prefix (_ ∷ _) [] = []
drop_prefix (_ ∷ prefix) (_ ∷ s) = drop_prefix prefix s

-- The token of a request, from the values of its Authorization header.
unfoldable pub token_of : List Text → Text
token_of [] = []
token_of (value ∷ _) =
    if has_prefix value (codes "Bearer ") then drop_prefix (codes "Bearer ") value else value

pub record DeployRequest : Type 0 where
  pub name : Text
  pub application : Text
  pub version : Text

pub data Response : Type 0 where
  bad_request : Text → Response
  not_applied : Text → Response
  deploying : Response

-- The environment that a configuration loads: its services and its imported resources.
pub record Loaded : Type 0 where
  pub services : List Service
  pub gists : List Gist

-- `client` is the method ApplyService of the cluster's client; where making the client failed, which
-- is only logged, it is none.
module _ {S : Type 0} (load : S → S × Result Loaded)
    (client : Option (Service → List Gist → S → S × Option Text)) where
  abbrev found : Text → Option Service → Result Service
  found name none = err (name ++ codes " not found")
  found name (some s) = ok s

  abbrev service_in : Text → Result Loaded → Result Service
  service_in name (err x) = err (codes "Could not load env: " ++ x)
  service_in name (ok e) = found name (find_by_name e.services name)

  unfoldable pub load_service : Text → S → S × Result Service
  load_service name s = let loaded = load s in (loaded.0, service_in name loaded.1)

  abbrev maps_in : Result Loaded → Result (List Gist)
  maps_in (err x) = err (codes "Could not load env: " ++ x)
  maps_in (ok e) = ok (find_by_type e.gists type_configmap)

  unfoldable pub load_config_maps : S → S × Result (List Gist)
  load_config_maps s = let loaded = load s in (loaded.0, maps_in loaded.1)

  abbrev pub applied : S × Option Text → S × Response
  applied (s, none) = (s, deploying)
  applied (s, some x) = (s, not_applied (codes "Bad Request: " ++ x))

  -- The service with the version and the application of the request; applying it with a nil client is
  -- a panic.
  unfoldable pub deploy_as : DeployRequest → List Gist → S × Result Service → Option (S × Response)
  deploy_as d gists (s, err x) = some (s, bad_request (codes "Bad Request: " ++ x))
  deploy_as d gists (s, ok svc) = elim client [
    | none ↦ none
    | some apply ↦
        some (
          applied (apply (record svc { version = d.version; application = d.application }) gists s))
  ]

  -- A blue/green service stands for its inactive copy.
  unfoldable pub choose : DeployRequest → Service → List Gist → S → Option (S × Response)
  unfolding deploy_as load_service
  choose d svc gists s =
      if is_blue_green_parent svc
      then elim (inactive_deployment_name svc) [
        | none ↦ none
        | some name ↦ deploy_as d gists (load_service name s)
      ]
      else deploy_as d gists (s, ok svc)

  unfoldable pub with_config_maps :
      DeployRequest → Service → S × Result (List Gist) → Option (S × Response)
  unfolding choose
  with_config_maps d svc (s, err x) = some (s, bad_request (codes "Bad Request: " ++ x))
  with_config_maps d svc (s, ok gists) = choose d svc gists s

  unfoldable pub with_service : DeployRequest → S × Result Service → Option (S × Response)
  unfolding with_config_maps load_config_maps
  with_service d (s, err x) = some (s, bad_request (codes "Bad Request: " ++ x))
  with_service d (s, ok svc) = with_config_maps d svc (load_config_maps s)

  -- A body that decodes to null is a nil request, and a panic.
  unfoldable pub post_deploy : Result (Option DeployRequest) → S → Option (S × Response)
  unfolding with_service load_service
  post_deploy (err x) s =
      some (s, bad_request (codes "Bad Request: Unable to parse request body: " ++ x))
  post_deploy (ok none) s = none
  post_deploy (ok (some d)) s = with_service d (load_service d.name s)

pub data Light : Type 0 where
  red orange green : Light

pub record StatusService : Type 0 where
  pub name : Text
  pub version : Text
  pub deployed_at : Text
  pub available : ℤ
  pub up_to_date : ℤ
  pub desired : ℤ
  pub status : Light

unfoldable pub light_of : ℤ → ℤ → ℤ → Light
light_of available desired current =
    if eqz available desired && eqz desired current
    then green
    else if eqz available desired
    then orange
    else red

unfoldable pub status_for_service : Service → StatusService
unfolding light_of
status_for_service svc = record {
  name = svc.name;
  version = svc.version;
  deployed_at = svc.status.deployed_at;
  available = svc.status.available_replicas;
  up_to_date = svc.status.current_replicas;
  desired = svc.status.desired_replicas;
  status =
      light_of svc.status.available_replicas svc.status.desired_replicas
        svc.status.current_replicas;
}

abbrev renamed : Text → Service → Result Service → Service
renamed name svc (err x) = svc
renamed name svc (ok other) = record other { name = name }

-- A blue/green service shows the status of its inactive copy, under its own name, if that is found.
-- `none` is the panic on a nil `Active`.
unfoldable pub shown : (Text → Result Service) → Service → Option StatusService
unfolding status_for_service
shown load svc =
    if is_blue_green_parent svc
    then elim (inactive_deployment_name svc) [
      | none ↦ none
      | some name ↦ some (status_for_service (renamed svc.name svc (load name)))
    ]
    else some (status_for_service svc)

unfoldable pub all_shown : (Text → Result Service) → List Service → Option (List StatusService)
unfolding shown
all_shown load [] = some []
all_shown load (svc ∷ rest) = elim (shown load svc) [
  | none ↦ none
  | some s ↦ elim (all_shown load rest) [ none ↦ none | some ss ↦ some (s ∷ ss) ]
]

-- strings.Contains
unfoldable pub contains_text : Text → Text → Bool
contains_text [] part = has_prefix [] part
contains_text (c ∷ s) part = has_prefix (c ∷ s) part || contains_text s part

unfoldable pub pods_of : Text → List Pod → List Pod
unfolding contains_text
pods_of name pods = select (λ (p : Pod). contains_text p.name name) pods
