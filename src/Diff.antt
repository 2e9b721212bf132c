-- ===== src/Diff.antt =====
-- pkg/diff: what the operator compares between the configuration and the cluster.
pub mod Tools
pub mod Align
pub mod Compare
