-- ===== src/Cluster/Scrape/Namespaces.antt =====
-- ScrapeResourcesForNamespace of pkg/cluster/cluster.go, over what the cluster lists of a namespace.
-- The custom resources are what is listed for every supported version and kind, one after the other.
use environment_operator.Prelude.{Text, TextMap, List, Option, Result}
use environment_operator.Bitesize.Gists.{Object, Environment}
use environment_operator.Cluster.Scrape.Objects.{
  KubeService, KubeDeployment, KubeHpa, KubeIngress, KubeClaim, KubeCustom,
}
use environment_operator.Cluster.Scrape.Events.{scrape_services}
use environment_operator.Cluster.Scrape.Imported.{scrape_environment}

-- The labels of the namespace, and the lists.
pub record Listing (S : Type 0) : Type 0 where
  pub labels : Text → S → Result (TextMap Text)
  pub services : Text → S → Result (List KubeService)
  pub deployments : Text → S → Result (List KubeDeployment)
  pub hpas : Text → S → Result (List KubeHpa)
  pub ingresses : Text → S → Result (List KubeIngress)
  pub claims : Text → S → Result (List KubeClaim)
  pub customs : Text → S → Result (List KubeCustom)
  pub config_maps : Text → S → Result (List Object)

-- `none` is a panic while the services are read.
unfoldable pub scrape_namespace :
    {S : Type 0} → Text → Listing S → Text → S → Option (Result Environment)
unfolding scrape_services scrape_environment
scrape_namespace zero l namespace s =
    scrape_environment namespace (l.labels namespace s)
      (scrape_services zero (l.services namespace s) (l.deployments namespace s)
        (l.hpas namespace s) (l.ingresses namespace s) (l.claims namespace s)
        (l.customs namespace s))
      (l.config_maps namespace s)
