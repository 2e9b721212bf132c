-- ===== src/Bitesize/Loading/Environments.antt =====
-- LoadEnvironment and the UnmarshalYAML method of pkg/bitesize/environment.go, and those of
-- pkg/bitesize/config.go. What the YAML library and the validator return is a parameter, as are the
-- files of imported resources and the local copy of the repository that they come from. Of the errors
-- that name a resource or a repository only the cause is kept; `none` is a panic.
use environment_operator.Prelude.{
  Text, codes, ◌==◌, List, [], ◌∷◌, ◌++◌, Option, none, some, Result, ok, err, ◌>>=◌, is_empty,
  if◌then◌else◌,
}
use environment_operator.Prelude.Sort.{sort_by}
use environment_operator.Bitesize.Types.{
  Service, DeploymentSettings, HealthCheck, BlueGreenServiceSet,
}
use environment_operator.Bitesize.Zero.{no_deployment, no_blue_green}
use environment_operator.Bitesize.Service.{rolling_upgrade}
use environment_operator.Bitesize.Gists.{Gist, Environment}
use environment_operator.Bitesize.Imports.{Files, load_resource}
use environment_operator.Bitesize.Loading.{load_services}

abbrev prefixed : {A : Type 0} → Text → Result A → Result A
prefixed prefix (err x) = err (prefix ++ x)
prefixed prefix (ok a) = ok a

unfoldable pub unmarshal_health_check : Result HealthCheck → Result HealthCheck
unmarshal_health_check decoded = prefixed (codes "health_check.") decoded

abbrev with_active : Option BlueGreenServiceSet → DeploymentSettings → DeploymentSettings
with_active none d = d
with_active (some c) d = record d { blue_green = some (record no_blue_green { active = some c }) }

-- The settings are decoded over the default method, and the active colour apart from them.
unfoldable pub unmarshal_deployment :
    (DeploymentSettings → Result DeploymentSettings)
    → Result (Option BlueGreenServiceSet)
    → (DeploymentSettings → Result (Unit {0}))
    → Result DeploymentSettings
unmarshal_deployment decode active validate = do
  d ← prefixed (codes "deployment.") (decode (record no_deployment { method = rolling_upgrade }))
  a ← prefixed (codes "deployment.") active
  valid ← prefixed (codes "deployment.") (validate (with_active a d))
  ok (with_active a d)

unfoldable pub unmarshal_environment :
    Result Environment → (Environment → Result (Unit {0})) → Result Environment
unmarshal_environment decoded validate = do
  e ← prefixed (codes "environment.") decoded
  valid ← prefixed (codes "environment.") (validate e)
  ok (record e { services = sort_by (λ (s : Service). s.name) e.services })

-- LoadResource for each resource; the first error ends the loop.
unfoldable pub load_resources : Files → Text → Text → List Gist → Result (List Gist)
load_resources files namespace root [] = ok []
load_resources files namespace root (g ∷ gs) = do
  loaded ← load_resource files namespace root g
  rest ← load_resources files namespace root gs
  ok (loaded ∷ rest)

module _ (files : Files) (checkout : Environment → Result Text) (local_path : Text) where
  -- The directory of the resources: that of a repository of their own, or of the configuration.
  unfoldable pub root_of : Environment → Result Text
  root_of e = if is_empty e.repo.remote then ok local_path else checkout e

  abbrev loaded_services : Environment → List Gist → Option (Result Environment)
  loaded_services e gists = elim (load_services e.services) [
    | none ↦ none
    | some services ↦ some (ok (record e { services = services; gists = gists }))
  ]

  abbrev with_gists : Environment → Result (List Gist) → Option (Result Environment)
  with_gists e (err x) = some (err x)
  with_gists e (ok gists) = loaded_services e gists

  abbrev from_root : Environment → Result Text → Option (Result Environment)
  from_root e (err x) = some (err x)
  from_root e (ok root) = with_gists e (load_resources files e.namespace root e.gists)

  -- The first environment of the name.
  unfoldable pub find_environment : Text → List Environment → Option (Result Environment)
  unfolding root_of
  find_environment name [] = some (err (codes "environment " ++ name ++ codes " not found"))
  find_environment name (e ∷ es) =
      let rest = find_environment name es in
      if e.name == name then from_root e (root_of e) else rest

  unfoldable pub load_environment : Result (List Environment) → Text → Option (Result Environment)
  unfolding find_environment
  load_environment (err x) name = some (err x)
  load_environment (ok es) name = find_environment name es
