-- ===== src/Cluster/Scrape/Objects.antt =====
-- What pkg/cluster/service_map.go and helpers.go read of the Kubernetes objects. A number is the
-- value of its field, a quantity its text.
use environment_operator.Prelude.{Text, TextMap, ℤ, Bool, List, Option}
use environment_operator.Bitesize.Types.{
  HttpGetAction, TcpSocketAction, KeyToPath, IntOrString, Fields,
}

pub record KubeService : Type 0 where
  pub name : Text
  pub labels : TextMap Text
  pub annotations : TextMap Text
  pub ports : List ℤ

-- ValueFrom with a nil pointer is none: a secret's name and key, and the path of a field.
pub record KubeEnvVar : Type 0 where
  pub name : Text
  pub value : Text
  pub secret_key_ref : Option (Text × Text)
  pub field_ref : Option Text

pub record KubeProbe : Type 0 where
  pub initial_delay_seconds : ℤ
  pub timeout_seconds : ℤ
  pub period_seconds : ℤ
  pub success_threshold : ℤ
  pub failure_threshold : ℤ
  pub http_get : Option HttpGetAction
  pub exec : Option (List Text)
  pub tcp_socket : Option TcpSocketAction

-- The items of the config map, or of the secret, that the volume is made from.
pub record KubeVolume : Type 0 where
  pub name : Text
  pub config_map : Option (List KeyToPath)
  pub secret : Option (List KeyToPath)

-- The mounts are pairs of a name and a path.
pub record KubeContainer : Type 0 where
  pub requests : TextMap Text
  pub limits : TextMap Text
  pub env : List KubeEnvVar
  pub liveness_probe : Option KubeProbe
  pub readiness_probe : Option KubeProbe
  pub mounts : List (Text × Text)
  pub command : List Text

pub record KubeDeployment : Type 0 where
  pub name : Text
  pub labels : TextMap Text
  pub replicas : Option ℤ
  pub containers : List KubeContainer
  pub volumes : List KubeVolume
  pub template_annotations : Option (TextMap Text)
  pub created : Text
  pub available_replicas : ℤ
  pub status_replicas : ℤ
  pub updated_replicas : ℤ

-- The name and the utilization of a resource, and the name and the value of a pods metric.
pub record KubeMetric : Type 0 where
  pub type : Text
  pub resource : Option (Text × Option ℤ)
  pub pods : Option (Text × Option Text)

pub record KubeHpa : Type 0 where
  pub name : Text
  pub min_replicas : Option ℤ
  pub max_replicas : ℤ
  pub metrics : List KubeMetric

-- The paths of a rule, as the service's name and the port of each backend; none is a nil HTTP.
pub record KubeRule : Type 0 where
  pub host : Text
  pub paths : Option (List (Text × ℤ))

pub record KubeIngress : Type 0 where
  pub name : Text
  pub labels : TextMap Text
  pub rules : List KubeRule

pub record KubeClaim : Type 0 where
  pub name : Text
  pub labels : TextMap Text
  pub access_modes : List Text

-- `set_made` says that the map `set` is not nil.
pub record KubeCustom : Type 0 where
  pub name : Text
  pub kind : Text
  pub options : Option Fields
  pub version : Text
  pub target_namespace : Text
  pub chart : Text
  pub repo : Text
  pub set : TextMap IntOrString
  pub set_made : Bool
  pub values_content : Text
  pub ignore : Bool
  pub replicas : ℤ
