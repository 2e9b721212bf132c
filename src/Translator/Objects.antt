-- ===== src/Translator/Objects.antt =====
-- The objects that the translator builds, with the fields that it sets; environment variables, probes
-- and metrics are those that are read back. A quantity is its text.
use environment_operator.Prelude.{Text, TextMap, ℤ, Bool, List, Option}
use environment_operator.Bitesize.Types.{KeyToPath}
use environment_operator.K8s.Meta.{Meta}
use environment_operator.Cluster.Scrape.Objects.{KubeEnvVar, KubeProbe, KubeMetric}

-- What the process takes from its environment and its configuration.
pub record Process : Type 0 where
  pub registry : Text
  pub pull_secrets : Text
  pub project : Text
  pub environment : Text
  pub env_type : Text
  pub namespace : Text

-- What the translator asks of the cluster and of the library for quantities: whether a secret
-- exists, the text of a parsed quantity, and that of the quantity that a failed parse yields.
pub record Cluster : Type 0 where
  pub secret_exists : Text → Bool
  pub parse_quantity : Text → Option Text
  pub zero_quantity : Text

pub record ServicePort : Type 0 where
  pub port : ℤ
  pub target_port : ℤ
  pub name : Text

pub record ServiceObject : Type 0 where
  pub meta : Meta
  pub ports : List ServicePort
  pub selector : TextMap Text
  pub cluster_ip : Text

pub record ClaimObject : Type 0 where
  pub meta : Meta
  pub access_modes : List Text
  pub storage : Text
  pub volume_name : Text
  pub selector : Option (TextMap Text)

pub data VolumeSource : Type 0 where
  secret_source : Text → VolumeSource
  config_map_source : Text → List KeyToPath → VolumeSource
  claim_source : Text → VolumeSource

pub record VolumeObject : Type 0 where
  pub name : Text
  pub source : VolumeSource

-- A port has a number and a protocol, a mount a name and a path.
pub record ContainerObject : Type 0 where
  pub name : Text
  pub image : Text
  pub env : List KubeEnvVar
  pub mounts : List (Text × Text)
  pub requests : TextMap Text
  pub limits : TextMap Text
  pub command : List Text
  pub liveness_probe : Option KubeProbe
  pub readiness_probe : Option KubeProbe
  pub ports : List (ℤ × Text)

pub record DeploymentObject : Type 0 where
  pub meta : Meta
  pub replicas : ℤ
  pub selector : TextMap Text
  pub template : Meta
  pub node_selector : TextMap Text
  pub container : ContainerObject
  pub pull_secrets : List Text
  pub volumes : List VolumeObject
  pub init_containers : List ContainerObject

pub record HpaObject : Type 0 where
  pub meta : Meta
  pub target_kind : Text
  pub target_name : Text
  pub target_version : Text
  pub min_replicas : ℤ
  pub max_replicas : ℤ
  pub metrics : List KubeMetric

pub record IngressRule : Type 0 where
  pub host : Text
  pub path : Text
  pub service_name : Text
  pub service_port : ℤ

-- A TLS entry has its hosts and the name of its secret.
pub record IngressObject : Type 0 where
  pub meta : Meta
  pub rules : List IngressRule
  pub tls : List (List Text × Text)
