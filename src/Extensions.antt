-- ===== src/Extensions.antt =====
-- The custom resources of pkg/k8_extensions/types.go. A list of pointers, of which none is nil where
-- the program builds it, is the list of what they point at.
use environment_operator.Prelude.{ℕ, Text, TextMap, codes, ℤ, Bool, List, [], ◌∷◌, Option}
use environment_operator.Bitesize.Types.{IntOrString, Fields}
use environment_operator.K8s.Meta.{Meta, TypeMeta}

abbrev pub supported_custom_resources : List Text
supported_custom_resources =
    codes "aurora"
    ∷ codes "mongo"
    ∷ codes "mysql"
    ∷ codes "cassandra"
    ∷ codes "redis"
    ∷ codes "zookeeper"
    ∷ codes "kafka"
    ∷ codes "postgres"
    ∷ codes "neptune"
    ∷ codes "sns"
    ∷ codes "msk"
    ∷ codes "docdb"
    ∷ codes "cb"
    ∷ codes "sqs"
    ∷ codes "s3"
    ∷ codes "es"
    ∷ codes "helmchart"
    ∷ codes "dynamodb"
    ∷ codes "serviceentry"
    ∷ codes "gateway"
    ∷ codes "virtualservice"
    ∷ codes "atlas"
    ∷ codes "cloudfront"
    ∷ codes "cron"
    ∷ []

pub record Port : Type 0 where
  pub number : ℕ
  pub protocol : Text
  pub name : Text

pub record ServerTlsOptions : Type 0 where
  pub mode : Text
  pub credential_name : Text

pub record Server : Type 0 where
  pub port : Port
  pub bind : Text
  pub hosts : List Text
  pub tls : Option ServerTlsOptions

pub record ServiceEntryEndpoint : Type 0 where
  pub address : Text
  pub ports : TextMap ℕ
  pub labels : TextMap Text
  pub network : Text
  pub locality : Text
  pub weight : ℕ

-- PortSelector is its number.
pub record Destination : Type 0 where
  pub host : Text
  pub subset : Text
  pub port : ℕ

-- StringPrefix is its text, and HTTPRouteDestination its destination.
pub record HttpMatchRequest : Type 0 where
  pub name : Text
  pub uri : Text

pub record HttpRoute : Type 0 where
  pub name : Text
  pub match : List HttpMatchRequest
  pub route : List Destination

pub record PrsnExternalResourceSpec : Type 0 where
  pub version : Text
  pub options : Option Fields
  pub replicas : ℤ
  pub target_namespace : Text
  pub chart : Text
  pub repo : Text
  pub set : TextMap IntOrString
  pub values_content : Text
  pub ignore : Bool
  pub selector : TextMap Text
  pub servers : List Server
  pub gateways : List Text
  pub hosts : List Text
  pub addresses : List Text
  pub ports : List Port
  pub location : Text
  pub resolution : Text
  pub endpoints : List ServiceEntryEndpoint
  pub export_to : List Text
  pub subject_alt_names : List Text
  pub http : List HttpRoute

pub record PrsnExternalResource : Type 0 where
  pub type_meta : TypeMeta
  pub meta : Meta
  pub spec : PrsnExternalResourceSpec

pub record ExternalSecretSecretDescriptor : Type 0 where
  pub backend_type : Text
  pub type : Text
  pub compressed : Bool
  pub entries : List (TextMap Text)

pub record ExternalSecret : Type 0 where
  pub type_meta : TypeMeta
  pub meta : Meta
  pub secret_descriptor : ExternalSecretSecretDescriptor
