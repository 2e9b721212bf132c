-- ===== src/Bitesize/Types.antt =====
-- The configuration types of pkg/bitesize/config.go and pkg/bitesize/service.go, field by field.
-- A string is a `Text`, an int or int32 an integer, a pointer an `Option`. A slice and a map are
-- lists; which of a service's empty ones are nil is in its `empties`. A map of annotations is never
-- nil: unmarshalling, `CreateOrGet` and `AddDeployment` make it.
use environment_operator.Prelude.{ℕ, Text, TextMap, ℤ, Bool, List, Option}

-- BlueGreenServiceSet: an int, 1 for blue and 2 for green, and 0 for a name that is neither.
pub data BlueGreenServiceSet : Type 0 where
  unset blue green : BlueGreenServiceSet

pub record BlueGreenSettings : Type 0 where
  pub active : Option BlueGreenServiceSet
  pub deployment_colour : Option BlueGreenServiceSet
  pub active_flag : Bool

pub record DeploymentSettings : Type 0 where
  pub method : Text
  pub mode : Text
  pub blue_green : Option BlueGreenSettings
  pub custom_urls : TextMap (List Text)

pub record Metric : Type 0 where
  pub name : Text
  pub target_average_value : Text
  pub target_average_utilization : ℤ

pub record HorizontalPodAutoscaler : Type 0 where
  pub min_replicas : ℤ
  pub max_replicas : ℤ
  pub metric : Metric

-- ContainerRequests and ContainerLimits, which have the same fields.
pub record Resources : Type 0 where
  pub cpu : Text
  pub memory : Text

pub record HealthCheck : Type 0 where
  pub command : List Text
  pub initial_delay : ℤ
  pub timeout : ℤ

pub record HttpHeader : Type 0 where
  pub name : Text
  pub value : Text

pub record HttpGetAction : Type 0 where
  pub path : Text
  pub port : ℤ
  pub host : Text
  pub scheme : Text
  pub http_headers : List HttpHeader

pub record TcpSocketAction : Type 0 where
  pub port : ℤ
  pub host : Text

-- ExecAction is its command.
pub record Handler : Type 0 where
  pub exec : Option (List Text)
  pub http_get : Option HttpGetAction
  pub tcp_socket : Option TcpSocketAction

pub record Probe : Type 0 where
  pub handler : Handler
  pub initial_delay_seconds : ℤ
  pub timeout_seconds : ℤ
  pub period_seconds : ℤ
  pub success_threshold : ℤ
  pub failure_threshold : ℤ

pub record EnvVar : Type 0 where
  pub name : Text
  pub value : Text
  pub secret : Text
  pub pod_field : Text

pub record KeyToPath : Type 0 where
  pub key : Text
  pub path : Text
  pub mode : Option ℤ

pub record Volume : Type 0 where
  pub name : Text
  pub path : Text
  pub modes : Text
  pub size : Text
  pub type : Text
  pub items : List KeyToPath
  pub provisioning : Text

pub record Container : Type 0 where
  pub application : Text
  pub name : Text
  pub version : Text
  pub env_vars : List EnvVar
  pub command : List Text
  pub volumes : List Volume

pub record Pod : Type 0 where
  pub name : Text
  pub phase : Text
  pub start_time : Text
  pub message : Text
  pub logs : Text

pub record ServiceStatus : Type 0 where
  pub deployed_at : Text
  pub available_replicas : ℤ
  pub desired_replicas : ℤ
  pub current_replicas : ℤ

pub record Endpoint : Type 0 where
  pub address : Text
  pub ports : TextMap ℕ
  pub labels : TextMap Text
  pub network : Text
  pub locality : Text
  pub weight : ℕ

pub record Port : Type 0 where
  pub number : ℕ
  pub protocol : Text
  pub name : Text

-- intstr.IntOrString
pub data IntOrString : Type 0 where
  int : ℤ → IntOrString
  str : Text → IntOrString

-- An `interface{}` that came out of YAML and was cleaned up: every leaf is a text.
mutual
  pub data Value : Type 0 where
    text : Text → Value
    array : Values → Value
    object : Fields → Value

  pub data Values : Type 0 where
    nil : Values
    cons : Value → Values → Values

  pub data Fields : Type 0 where
    end : Fields
    field : Text → Value → Fields → Fields

-- Which slices and maps of a service are empty without being nil: the comparison prints those, and
-- leaves out nil ones. A flag is false where the field is nil or is not empty. The headers are those
-- of a probe's HTTP action. The other fields are filled by the configuration file alone; `others`
-- has the paths of those that are empty there, as `deployment.custom_urls.blue`.
pub record Empties : Type 0 where
  pub external_url : Bool
  pub ports : Bool
  pub env_vars : Bool
  pub commands : Bool
  pub volumes : Bool
  pub set : Bool
  pub liveness_headers : Bool
  pub readiness_headers : Bool
  pub others : List Text

pub record Service : Type 0 where
  pub name : Text
  pub external_url : List Text
  pub service_mesh : Text
  pub backend : Text
  pub backend_port : ℤ
  pub ports : List ℤ
  pub ssl : Text
  pub version : Text
  pub application : Text
  pub replicas : ℤ
  pub deployment : Option DeploymentSettings
  pub hpa : HorizontalPodAutoscaler
  pub requests : Resources
  pub limits : Resources
  pub health_check : Option HealthCheck
  pub liveness_probe : Option Probe
  pub readiness_probe : Option Probe
  pub env_vars : List EnvVar
  pub commands : List Text
  pub init_containers : Option (List Container)
  pub annotations : TextMap Text
  pub volumes : List Volume
  pub options : Option Fields
  pub http2 : Text
  pub https_only : Text
  pub https_backend : Text
  pub type : Text
  pub status : ServiceStatus
  pub database_type : Text
  pub grace_period : Option ℤ
  pub resource_version : Text
  pub target_namespace : Text
  pub chart : Text
  pub repo : Text
  pub set : TextMap IntOrString
  pub values_content : Text
  pub ignore : Bool
  pub hosts : List Text
  pub addresses : List Text
  pub service_entry_ports : List Port
  pub location : Text
  pub resolution : Text
  pub endpoints : List Endpoint
  pub export_to : List Text
  pub protocol : Text
  pub empties : Empties
