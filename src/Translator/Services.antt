-- ===== src/Translator/Services.antt =====
-- Services with and without an address. A panic on a nil pointer is none.
use environment_operator.Prelude.{
  Text, TextMap, codes, equal_fold, List, [], ◌∷◌, ◌++◌, map, Option, none, some, ℤ, if◌then◌else◌,
}
use environment_operator.Prelude.Numbers.{to_int32, decimal}
use environment_operator.Bitesize.Types.{Service}
use environment_operator.Bitesize.Service.{active_deployment_name}
use environment_operator.Translator.Objects.{ServicePort, ServiceObject}
use environment_operator.Translator.Metadata.{labels, annotations, named, creator}

-- The target is the same int32 as the port.
unfoldable pub service_port : Text → ℤ → ServicePort
service_port protocol p = record {
  port = to_int32 p;
  target_port = to_int32 p;
  name =
      if equal_fold protocol (codes "tcp")
      then codes "tcp-port-" ++ decimal p
      else codes "http-" ++ decimal p;
}

abbrev pub selected :
    Text → Text → TextMap Text → TextMap Text → Text → List ServicePort → ServiceObject
selected namespace name labels notes target ports = record {
  meta = record (named name namespace labels) { annotations = notes };
  ports = ports;
  selector = creator ∷ (codes "name", target) ∷ [];
  cluster_ip = [];
}

-- The labels and the pods of the service: the active deployment's for a blue/green parent.
unfoldable pub service_with : TextMap Text → Text → Service → Option ServiceObject
unfolding service_port annotations
service_with labels namespace svc = elim (active_deployment_name svc) [
  | none ↦ none
  | some target ↦ elim (annotations svc) [
    | none ↦ none
    | some notes ↦ some (
        selected namespace svc.name labels notes target (map (service_port svc.protocol) svc.ports))
  ]
]

unfoldable pub service_object : Text → Service → Option ServiceObject
unfolding service_with labels
service_object namespace svc = service_with (labels svc) namespace svc

unfoldable pub headless_service : Text → Service → Option ServiceObject
unfolding service_with
headless_service namespace svc =
    let labels = creator ∷ (codes "name", svc.name) ∷ (codes "application", svc.application) ∷ [] in
    elim (service_with labels namespace svc) [
      | none ↦ none
      | some object ↦ some (record object { cluster_ip = codes "None" })
    ]
