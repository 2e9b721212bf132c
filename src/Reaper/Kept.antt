-- ===== src/Reaper/Kept.antt =====
-- A cleanup asks for no deletion where the configuration keeps all that is deployed.
use environment_operator.Prelude.{
  ◌==◌, true, false, List, [], ◌∷◌, none, some, Result, ok, ◌≡◌, refl, arith, nonzero, exists, All,
}
use environment_operator.Bitesize.Types.{Service}
use environment_operator.Bitesize.Service.{has_external_url, is_blue_green_parent, find_by_name}
use environment_operator.Bitesize.Gists.{Gist}
use environment_operator.Reaper.{
  Clients, destroy_deployment, cleanup_ingress, cleanup_hpa, cleanup_gists, cleanup_service,
  cleanup_services, cleanup,
}

-- A deployed service is configured, with an external URL and an autoscaler if it has these, and it
-- is no blue/green parent with a deployment of its own.
pub record IsKept {S : Type 0} (c : Clients S) (s : S) (config : List Service) (deployed : Service)
    : Type 0 where
  pub configured : Service
  pub found : find_by_name config deployed.name ≡ some configured
  pub parent : is_blue_green_parent configured ≡ true → c.deployment_exists deployed.name s ≡ false
  pub url : has_external_url deployed ≡ true → has_external_url configured ≡ true
  pub scaled : nonzero deployed.hpa.min_replicas ≡ true → nonzero configured.hpa.min_replicas ≡ true

abbrev pub IsConfigured : List Gist → Gist → Type 0
IsConfigured config g = exists (λ (h : Gist). g.name == h.name) config ≡ true

module _ {S : Type 0} (c : Clients S) (s : S) where
  cleanup_service-kept :
      (config deployed : Service)
      → (is_blue_green_parent config ≡ true → c.deployment_exists deployed.name s ≡ false)
      → cleanup_service c (some config) deployed s ≡ s
  unfolding cleanup_service destroy_deployment
  cleanup_service-kept config deployed h = ground arith

  cleanup_ingress-kept :
      (config deployed : Service)
      → (has_external_url deployed ≡ true → has_external_url config ≡ true)
      → cleanup_ingress c (some config) deployed s ≡ s
  unfolding cleanup_ingress
  cleanup_ingress-kept config deployed h = ground arith

  cleanup_hpa-kept :
      (config deployed : Service)
      → (nonzero deployed.hpa.min_replicas ≡ true → nonzero config.hpa.min_replicas ≡ true)
      → cleanup_hpa c (some config) deployed s ≡ s
  unfolding cleanup_hpa
  cleanup_hpa-kept config deployed h = ground arith

  cleanup_services-kept :
      (config deployed : List Service)
      → All (IsKept c s config) deployed
      → cleanup_services c config deployed s ≡ s
  unfolding cleanup_services
  cleanup_services-kept config [] h = refl
  cleanup_services-kept config (d ∷ ds) (k, h) =
      rw
        (
          k.found,
          cleanup_service-kept k.configured d k.parent,
          cleanup_ingress-kept k.configured d k.url,
          cleanup_hpa-kept k.configured d k.scaled,
        )
        (cleanup_services-kept config ds h)

  cleanup_gists-kept :
      (config deployed : List Gist)
      → All (IsConfigured config) deployed
      → cleanup_gists c config deployed s ≡ s
  unfolding cleanup_gists
  cleanup_gists-kept config [] h = refl
  cleanup_gists-kept config (g ∷ gs) (k, h) = rw k (cleanup_gists-kept config gs h)

  -- When the namespace can be read, every deployed service is kept, and every imported resource that
  -- is deployed is configured, a cleanup leaves the cluster as it is and returns no error.
  pub cleanup-kept :
      (scrape : S → Result (List Service × List Gist)) (config deployed : List Service)
      (gists found : List Gist)
      → scrape s ≡ ok (deployed, found)
      → All (IsKept c s config) deployed
      → All (IsConfigured gists) found
      → cleanup c scrape (some (config, gists)) s ≡ (s, none)
  unfolding cleanup
  cleanup-kept scrape config deployed gists found e ks ms =
      rw (e, cleanup, cleanup_services-kept config deployed ks, cleanup_gists-kept gists found ms)
        refl
