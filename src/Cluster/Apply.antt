-- ===== src/Cluster/Apply.antt =====
-- `ApplyIfChanged`, `ApplyEnvironment` and `shouldDeployOnChange` of pkg/cluster/cluster.go. Applying
-- one service to the cluster, and reading the cluster, are parameters.
mod Steps
pub mod Deploys
pub mod Missing
use environment_operator.Prelude.{
  Text, Bool, true, false, not, List, [], ◌∷◌, ◌++◌, Option, none, some, Result, ok, err, codes,
  if◌then◌else◌, is_empty,
}
use environment_operator.Bitesize.Types.{Service, Volume, Container}
use environment_operator.Bitesize.Service.{is_blue_green_parent, find_by_name}
use environment_operator.Bitesize.Gists.{Gist, Environment, find_gist, type_configmap}
use environment_operator.Bitesize.Volumes.{is_config_map_volume}
use environment_operator.Diff.Tools.{Tools}
use environment_operator.Diff.Compare.{Changes, service_changed, Outcome, compare}

abbrev was_deployed : Option Service → Bool
was_deployed none = false
was_deployed (some s) = not (is_empty s.status.deployed_at)

-- The tests of the updated service, in order.
unfoldable pub wants_deploy : Option Service → Option Service → Bool
wants_deploy current none = true
wants_deploy current (some updated) =
    if is_blue_green_parent updated
    then true
    else if was_deployed current
    then true
    else not (is_empty updated.version)

unfoldable pub should_deploy_on_change : Changes → List Service → List Service → Text → Bool
unfolding wants_deploy
should_deploy_on_change changes current new name =
    if not (service_changed changes name)
    then false
    else wants_deploy (find_by_name current name) (find_by_name new name)

-- The config maps that a list of volumes names, where the configuration imports them.
unfoldable pub volume_gists : List Gist → List Volume → List Gist
volume_gists gists [] = []
volume_gists gists (v ∷ vs) =
    let rest = volume_gists gists vs in
    if is_config_map_volume v
    then elim (find_gist gists v.name type_configmap) [ none ↦ rest | some g ↦ g ∷ rest ]
    else rest

unfoldable pub container_gists : List Gist → List Container → List Gist
unfolding volume_gists
container_gists gists [] = []
container_gists gists (c ∷ cs) = volume_gists gists c.volumes ++ container_gists gists cs

unfoldable pub service_gists : List Gist → Service → List Gist
unfolding volume_gists container_gists
service_gists gists svc =
    volume_gists gists svc.volumes
    ++ elim svc.init_containers [ none ↦ [] | some cs ↦ container_gists gists cs ]

-- The service with the deployed version where it has none; `none` is the panic on a service that is
-- not deployed.
unfoldable pub with_version : List Service → Service → Option Service
with_version current svc =
    if is_empty svc.version
    then elim (find_by_name current svc.name) [
      | none ↦ none
      | some c ↦ some (record svc { version = c.version })
    ]
    else some svc

module _ {S : Type 0} (apply_service : Service → List Gist → Text → S → S × Option Text) where
  -- The loop of `ApplyEnvironment`: the cluster and the last error, or a panic.
  unfoldable pub apply_services :
      Changes
      → List Service
      → Environment
      → List Service
      → S
      → Option Text
      → Option (S × Option Text)
  apply_services changes current new [] s e = some (s, e)
  apply_services changes current new (svc ∷ rest) s e =
      elim (should_deploy_on_change changes current new.services svc.name) [
        | false ↦ apply_services changes current new rest s e
        | true ↦ elim (with_version current svc) [
          | none ↦ none
          | some svc' ↦
              let (s', e') = apply_service svc' (service_gists new.gists svc) new.namespace s in
              apply_services changes current new rest s' e'
        ]
      ]

  unfoldable pub apply_environment :
      Changes → List Service → Environment → S → Option (S × Option Text)
  apply_environment changes current new s = apply_services changes current new new.services s none

  -- `scrape` is ScrapeResourcesForNamespace. The environments that are applied are the ones that the
  -- comparison has written to.
  unfoldable pub apply_if_changed :
      Tools → (Text → S → Result (List Service)) → Option Environment → S → Option (S × Option Text)
  apply_if_changed t scrape none s = some (s, some (codes "could not compare against config (nil)"))
  apply_if_changed t scrape (some new) s = elim (scrape new.namespace s) [
    | err x ↦ some (s, some x)
    | ok current ↦ elim (compare t new.namespace new.services current) [
      | none ↦ none
      | some (o, changed) ↦
          if changed
          then apply_environment o.changes o.existing (record new { services = o.desired }) s
          else some (s, none)
    ]
  ]
