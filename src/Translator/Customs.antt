-- ===== src/Translator/Customs.antt =====
-- Custom resources: those of a service's type, and the gateway and the virtual service of a mesh.
use environment_operator.Prelude.{
  Text, TextMap, codes, ◌==◌, false, List, [], ◌∷◌, map, Option, none, some, pos, is_empty,
  if◌then◌else◌,
}
use environment_operator.Prelude.Numbers.{to_uint32}
use environment_operator.Bitesize.Types.{Service, Endpoint}
use environment_operator.Bitesize.Types
use environment_operator.Extensions.{
  Port, ServiceEntryEndpoint, Server, PrsnExternalResourceSpec, PrsnExternalResource,
}
use environment_operator.Translator.Strings.{title}
use environment_operator.Translator.Metadata.{named, creator, api_version}

abbrev empty_spec : PrsnExternalResourceSpec
empty_spec = record {
  version = [];
  options = none;
  replicas = pos 0;
  target_namespace = [];
  chart = [];
  repo = [];
  set = [];
  values_content = [];
  ignore = false;
  selector = [];
  servers = [];
  gateways = [];
  hosts = [];
  addresses = [];
  ports = [];
  location = [];
  resolution = [];
  endpoints = [];
  export_to = [];
  subject_alt_names = [];
  http = [];
}

abbrev entry_port : Types.Port → Port
entry_port p = record { number = p.number; protocol = p.protocol; name = p.name }

abbrev entry_endpoint : Endpoint → ServiceEntryEndpoint
entry_endpoint e = record {
  address = e.address;
  ports = e.ports;
  labels = e.labels;
  network = e.network;
  locality = e.locality;
  weight = e.weight;
}

abbrev own_labels : Service → TextMap Text
own_labels svc = creator ∷ (codes "name", svc.name) ∷ []

unfoldable pub custom_resource_definition : Text → Service → PrsnExternalResource
unfolding api_version title
custom_resource_definition namespace svc = record {
  type_meta = record { kind = title svc.type; api_version = api_version svc.type };
  meta = record (named svc.name namespace (own_labels svc)) {
    resource_version = svc.resource_version;
  };
  spec = record empty_spec {
    version = svc.version;
    options = svc.options;
    target_namespace = svc.target_namespace;
    chart = svc.chart;
    repo = svc.repo;
    set = svc.set;
    values_content = svc.values_content;
    ignore = svc.ignore;
    hosts = svc.hosts;
    addresses = svc.addresses;
    ports = map entry_port svc.service_entry_ports;
    location = svc.location;
    resolution = svc.resolution;
    endpoints = map entry_endpoint svc.endpoints;
  };
}

abbrev istio : Text
istio = codes "networking.istio.io/v1alpha3"

abbrev http_server : List Text → Server
http_server hosts = record {
  port = record { number = 80; protocol = codes "HTTP"; name = codes "http" };
  bind = [];
  hosts = hosts;
  tls = none;
}

-- With ssl a server on port 443 comes first, and it alone has a certificate.
unfoldable pub servers_of : Service → List Server
servers_of svc =
    if svc.ssl == codes "true"
    then record {
      port = record { number = 443; protocol = codes "HTTPS"; name = codes "https" };
      bind = [];
      hosts = svc.external_url;
      tls = some (record { mode = codes "SIMPLE"; credential_name = svc.name });
    }
      ∷ http_server svc.external_url
      ∷ []
    else http_server svc.external_url ∷ []

unfoldable pub service_mesh_gateway : Text → Service → PrsnExternalResource
unfolding servers_of
service_mesh_gateway namespace svc = record {
  type_meta = record { kind = codes "Gateway"; api_version = istio };
  meta = named svc.name namespace (own_labels svc);
  spec = record empty_spec {
    selector = (codes "istio", codes "ingressgateway") ∷ [];
    servers = servers_of svc;
  };
}

-- `none` is the panic on a service without ports.
unfoldable pub service_mesh_virtual_service : Text → Service → Option PrsnExternalResource
service_mesh_virtual_service namespace svc = elim svc.ports [
  | [] ↦ none
  | port ∷ _ ↦ some (record {
    type_meta = record { kind = codes "VirtualService"; api_version = istio };
    meta = named svc.name namespace (own_labels svc);
    spec = record empty_spec {
      gateways = svc.name ∷ [];
      hosts = svc.external_url;
      http =
          record {
            name = [];
            match = record { name = []; uri = codes "/" } ∷ [];
            route =
                record {
                  host = if is_empty svc.backend then svc.name else svc.backend;
                  subset = [];
                  port = to_uint32 port;
                }
                ∷ [];
          }
          ∷ [];
    };
  })
]
