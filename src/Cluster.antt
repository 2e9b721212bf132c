-- ===== src/Cluster.antt =====
-- pkg/cluster: from the configuration to the cluster and back.
pub mod Apply
pub mod Deploy
pub mod Scrape
