-- ===== src/Tests/Translations.antt =====
-- The translator at concrete services.
use environment_operator.Prelude.{
  arith, codes, split, contains, ◌==◌, true, List, [], ◌∷◌, ◌++◌, map, none, some, ok, pos, ◌≡◌,
  refl, All, ◌↔◌,
}
use environment_operator.Bitesize.Types.{Service, EnvVar, Volume, BlueGreenServiceSet, green, blue}
use environment_operator.Bitesize.Zero.{no_service, no_volume, no_env_var}
use environment_operator.Bitesize.Colour.{colour_name}
use environment_operator.Bitesize.Service.{
  deployment_method, is_blue_green_parent, active_deployment_name, active_deployment_tag,
}
use environment_operator.Bitesize.BlueGreen.{child_copy, copy_blue_green_service}
use environment_operator.Bitesize.BlueGreen.Copies.{IsParent}
use environment_operator.Cluster.Scrape.Objects.{KubeEnvVar}
use environment_operator.Cluster.Scrape.{or_new, add_deployment, add_volume_claim, with_volumes}
use environment_operator.Translator.Objects.{
  Process, Cluster, ContainerObject, DeploymentObject, ServiceObject, IngressObject, IngressRule,
}
use environment_operator.Translator.Metadata.{annotations, labels}
use environment_operator.Translator.Containers.{
  secret_parts, env_var_of, missing_secret, colour_vars, vars_of, kube_env_vars, mounts_of,
  volume_mounts, container_with, container_of,
}
use environment_operator.Translator.Volumes.{claim_of}
use environment_operator.Translator.Deployments.{deployment_of, deployment_object}
use environment_operator.Translator.Services.{service_with, service_object}
use environment_operator.Translator.Ingresses.{ingress_object}
use environment_operator.Translator.Variables.{
  IsPlain, plain_value, plain_secret, HasSecret, kube_env_vars-HasSecret,
}
use environment_operator.Translator.Claims.{seen_claim, claimed, add_volume_claim-claim_of}
use environment_operator.Translator.Selectors.{Selects, service_object-Selects}
use environment_operator.Translator.Certificates.{ingress_object-tls}
use environment_operator.Translator.Deployed.{
  IsHeld, Agrees, seen, add_deployment-deployment_object,
}
use environment_operator.Tests.Data.{shop, shop_deployment, green_active}

abbrev pub process : Process
process = record {
  registry = codes "registry";
  pull_secrets = [];
  project = codes "project";
  environment = codes "dev";
  env_type = codes "test";
  namespace = codes "ns";
}

-- Every secret exists, and a quantity is printed as it is written.
abbrev pub cluster : Cluster
cluster = record {
  secret_exists = λ name. true;
  parse_quantity = λ text. some text;
  zero_quantity = codes "0";
}

abbrev pub variables : List EnvVar
variables =
    record no_env_var { name = codes "LEVEL"; value = codes "debug" }
    ∷ record no_env_var { value = codes "db/password"; secret = codes "PASSWORD" }
    ∷ []

abbrev pub api : Service
api = record no_service {
  name = codes "api";
  application = codes "backend";
  version = codes "7";
  replicas = pos 3;
  env_vars = variables;
  commands = codes "serve" ∷ [];
  external_url = codes "a.example.com" ∷ codes "b.example.com" ∷ [];
  ports = pos 80 ∷ [];
  ssl = codes "true";
}

pub variables-IsPlain : All IsPlain variables
unfolding ◌==◌ contains
variables-IsPlain = (
  plain_value (codes "LEVEL") (codes "debug") (λ e. cc) refl,
  (plain_secret (codes "PASSWORD") (codes "db") (codes "password") (λ e. cc) refl refl refl, tt),
)

api-IsHeld : IsHeld cluster api
api-IsHeld = record {
  variables = variables-IsPlain;
  liveness = tt;
  readiness = tt;
  count = omega arith;
  requested = (refl, refl);
  limited = (refl, refl);
}

abbrev pub made_variables : List KubeEnvVar
made_variables = map env_var_of variables

api_variables : kube_env_vars process cluster api ≡ ok made_variables
unfolding kube_env_vars vars_of missing_secret secret_parts split colour_vars
api_variables = refl

abbrev api_container : ContainerObject
api_container = container_with cluster api [] made_variables

abbrev pub api_deployment : DeploymentObject
api_deployment = deployment_of process cluster (codes "ns") api api_container

pub api_made : deployment_object process cluster (codes "ns") api ≡ ok (some api_deployment)
unfolding deployment_object container_of volume_mounts mounts_of kube_env_vars vars_of
    missing_secret secret_parts split colour_vars is_blue_green_parent
api_made = refl

add_deployment-deployment_object_example :
    (t : Service) × (add_deployment
        (codes "0")
        (seen (codes "today") (pos 3) api_deployment)
        (or_new (codes "api") none)
      ≡ some t)
    × Agrees api t
add_deployment-deployment_object_example =
    add_deployment-deployment_object process cluster (codes "ns") (codes "0") (codes "today")
      (pos 3) api (or_new (codes "api") none) api_deployment api-IsHeld api_made refl

kube_env_vars-HasSecret_example : (kube_env_vars process cluster api ≡ ok made_variables) ↔ (
    All (HasSecret (λ name. true)) variables
    × (made_variables ≡ map env_var_of variables ++ colour_vars api))
kube_env_vars-HasSecret_example = kube_env_vars-HasSecret process cluster api made_variables

abbrev data_volume : Volume
data_volume = record no_volume {
  name = codes "data";
  path = codes "/var/data";
  modes = codes "ReadWriteOnce";
  size = codes "10G";
  type = codes "EBS";
}

add_volume_claim-claim_of_example :
    add_volume_claim
      (seen_claim (claim_of (codes "ns") (codes "api") (codes "10G") data_volume))
      api
    ≡ some (with_volumes (claimed data_volume ∷ []) api)
add_volume_claim-claim_of_example =
    add_volume_claim-claim_of (codes "ns") (codes "api") (codes "10G") data_volume api refl refl

ingress_object-tls_example :
    (o : IngressObject) × (ingress_object (codes "ns") api ≡ some o)
    × (map (λ (r : IngressRule). r.host) o.rules
        ≡ codes "a.example.com" ∷ codes "b.example.com" ∷ [])
    × (o.tls ≡ (codes "b.example.com" ∷ [], codes "api") ∷ [])
ingress_object-tls_example =
    ingress_object-tls (codes "ns") api (pos 80) [] (codes "a.example.com" ∷ [])
      (codes "b.example.com") refl refl refl

shop-IsParent : IsParent shop shop_deployment green
shop-IsParent = record {
  settings = green_active;
  has_deployment = refl;
  has_method = refl;
  has_settings = refl;
  has_active = refl;
  is_set = λ e. cc;
}

abbrev copy : BlueGreenServiceSet → Service
copy kind = child_copy shop shop_deployment green kind

copy_made : (kind : BlueGreenServiceSet) → copy_blue_green_service shop kind ≡ some (copy kind)
unfolding copy_blue_green_service active_deployment_tag
copy_made kind = refl

-- The copies have no variables but the colour's.
abbrev copy_deployment : BlueGreenServiceSet → DeploymentObject
copy_deployment kind =
    deployment_of process cluster (codes "ns") (copy kind)
      (container_with cluster (copy kind) [] (colour_vars (copy kind)))

copy_deployed :
    (kind : BlueGreenServiceSet)
    → deployment_object process cluster (codes "ns") (copy kind) ≡ ok (some (copy_deployment kind))
unfolding deployment_object container_of volume_mounts mounts_of kube_env_vars vars_of
    missing_secret is_blue_green_parent deployment_method child_copy ◌==◌
copy_deployed kind = refl

abbrev shop_service : ServiceObject
shop_service = record {
  meta = record {
    name = codes "shop";
    namespace = codes "ns";
    resource_version = [];
    labels = labels shop;
    annotations =
        (codes "deployment_method", codes "bluegreen")
        ∷ (codes "deployment_active", codes "green")
        ∷ [];
  };
  ports = [];
  selector = (codes "creator", codes "pipeline") ∷ (codes "name", codes "shop-green") ∷ [];
  cluster_ip = [];
}

shop_made : service_object (codes "ns") shop ≡ some shop_service
unfolding service_object service_with active_deployment_name active_deployment_tag annotations
    is_blue_green_parent deployment_method colour_name ◌==◌
shop_made = refl

service_object-Selects_example :
    Selects shop_service.selector (copy_deployment green).template.labels
    × ¬ Selects shop_service.selector (copy_deployment blue).template.labels
service_object-Selects_example =
    service_object-Selects process cluster (codes "ns") shop shop_deployment green (copy green)
      (copy blue) shop_service (copy_deployment green) (copy_deployment blue) shop-IsParent
      (copy_made green) (copy_made blue) shop_made (copy_deployed green) (copy_deployed blue)
