-- ===== src/Reaper.antt =====
-- pkg/reaper/reaper.go: what the configuration no longer names is deleted from the cluster. The
-- clients are parameters; every error of a deletion is only logged.
pub mod Justified
pub mod Orphans
pub mod Kept
pub mod Exact
use environment_operator.Prelude.{
  Text, ◌==◌, Bool, true, false, not, ◌&&◌, ◌||◌, List, [], ◌∷◌, Option, none, some, Result, ok,
  err, codes, ◌++◌, nonzero, exists, if◌then◌else◌,
}
use environment_operator.Bitesize.Types.{Service, Volume}
use environment_operator.Bitesize.Service.{has_external_url, is_blue_green_parent, find_by_name}
use environment_operator.Bitesize.Gists.{Gist, type_configmap, type_job, type_cronjob}
use environment_operator.Bitesize.Volumes.{is_config_map_volume, is_secret_volume}

pub data Kind : Type 0 where
  ingress external_secret deployment service hpa claim config_map job cron_job : Kind

pub record Clients (S : Type 0) : Type 0 where
  pub destroy : Kind → Text → S → S × Option Text
  pub deployment_exists : Text → S → Bool
  -- making a client for external secrets
  pub secrets_client : S → Option Text

module _ {S : Type 0} (c : Clients S) where
  -- A deletion whose error is only logged.
  unfoldable pub delete : Kind → Text → S → S
  delete k name s = (c.destroy k name s).0

  unfoldable pub destroy_external_secret : Text → S → S
  destroy_external_secret name s = elim (c.secrets_client s) [
    | some x ↦ s
    | none ↦ delete external_secret name s
  ]

  unfoldable pub destroy_ingress : Text → S → S
  destroy_ingress name s = delete ingress name (destroy_external_secret name s)

  unfoldable pub destroy_deployment : Text → S → S
  destroy_deployment name s = if c.deployment_exists name s then delete deployment name s else s

  unfoldable pub destroy_volumes : List Volume → S → S
  destroy_volumes [] s = s
  destroy_volumes (v ∷ vs) s =
      destroy_volumes vs
        (if is_config_map_volume v || is_secret_volume v then s else delete claim v.name s)

  -- Custom resources are left alone.
  unfoldable pub delete_service : Service → S → S
  delete_service svc s = destroy_volumes svc.volumes (
      delete hpa svc.name
        (delete service svc.name (destroy_deployment svc.name (destroy_ingress svc.name s))))

  unfoldable pub destroy_resource : Text → Text → S → S
  destroy_resource name rstype s =
      if rstype == type_configmap
      then delete config_map name s
      else if rstype == type_job
      then delete job name s
      else if rstype == type_cronjob
      then delete cron_job name s
      else s

  unfoldable pub cleanup_ingress : Option Service → Service → S → S
  cleanup_ingress none deployed s = s
  cleanup_ingress (some config) deployed s =
      if not (has_external_url config) && has_external_url deployed
      then destroy_ingress deployed.name s
      else s

  unfoldable pub cleanup_hpa : Option Service → Service → S → S
  cleanup_hpa none deployed s = s
  cleanup_hpa (some config) deployed s =
      if not (nonzero config.hpa.min_replicas) && nonzero deployed.hpa.min_replicas
      then delete hpa deployed.name s
      else s

  unfoldable pub cleanup_gists : List Gist → List Gist → S → S
  cleanup_gists config [] s = s
  cleanup_gists config (g ∷ gs) s = cleanup_gists config gs (
      if exists (λ (h : Gist). g.name == h.name) config
      then s
      else destroy_resource g.name g.type s)

  -- The first branch of the loop, for a deployed service and the configured one of its name.
  unfoldable pub cleanup_service : Option Service → Service → S → S
  cleanup_service none deployed s = delete_service deployed s
  cleanup_service (some config) deployed s =
      if is_blue_green_parent config then destroy_deployment deployed.name s else s

  unfoldable pub cleanup_services : List Service → List Service → S → S
  cleanup_services config [] s = s
  cleanup_services config (deployed ∷ rest) s =
      let found = find_by_name config deployed.name in
      cleanup_services config rest (
        cleanup_hpa found deployed
          (cleanup_ingress found deployed (cleanup_service found deployed s)))

  -- `none` is a nil configuration, or one with nil services; `scrape` reads the namespace.
  unfoldable pub cleanup :
      (S → Result (List Service × List Gist))
      → Option (List Service × List Gist)
      → S
      → S × Option Text
  cleanup scrape none s = (s, some (codes "REAPER: error with bitesize file, configuration is nil"))
  cleanup scrape (some (services, gists)) s = elim (scrape s) [
    | err x ↦ (s, some (codes "REAPER: error loading environment: " ++ x))
    | ok (deployed, deployed_gists) ↦
        (cleanup_gists gists deployed_gists (cleanup_services services deployed s), none)
  ]
