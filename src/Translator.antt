-- ===== src/Translator.antt =====
-- pkg/translator/kubemapper.go: the Kubernetes objects of a service. The environment of the process,
-- the secrets of the cluster and the parsing of quantities are parameters.
pub mod Objects
pub mod Strings
pub mod Metadata
pub mod Containers
pub mod Volumes
pub mod Deployments
pub mod Services
pub mod Ingresses
pub mod Customs
pub mod Deployed
pub mod Settled
pub mod Resting
pub mod Autoscalers
pub mod Made
pub mod Selectors
pub mod Claims
pub mod Certificates
pub mod Probes
pub mod Variables
pub mod Mapped
pub mod Owned
pub mod Environments
pub mod IngressLabels
pub mod Routed
