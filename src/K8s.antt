-- ===== src/K8s.antt =====
-- pkg/util/k8s: one client per kind of object, which creates what is missing and updates what is
-- there. The API server is a parameter.
pub mod Meta
pub mod Api
pub mod Deployment
pub mod Service
pub mod StatefulSet
pub mod Ingress
pub mod PersistentVolumeClaim
pub mod HorizontalPodAutoscaler
pub mod Secret
pub mod ConfigMap
pub mod Job
pub mod CronJob
pub mod Custom
pub mod ExternalSecret
pub mod Client
pub mod Pod
