-- ===== src/Tests/Objects.antt =====
-- What the translator makes of a service, and applying it.
use environment_operator.Prelude.{
  Text, TextMap, codes, ◌==◌, false, List, [], ◌∷◌, map, none, some, pos, ◌≡◌, refl, All,
}
use environment_operator.Bitesize.Service.{
  active_deployment_name, deployment_method, is_blue_green_parent, has_external_url,
  is_service_mesh_enabled,
}
use environment_operator.Cluster.Deploy.{Kind, Clients, Mapped, returned}
use environment_operator.Translator.Objects.{Cluster, ServiceObject, IngressObject}
use environment_operator.Translator.Metadata.{annotations, labels, named}
use environment_operator.Translator.Volumes.{persistent_volume_claims}
use environment_operator.Translator.Services.{service_port, selected, service_with, service_object}
use environment_operator.Translator.Ingresses.{ingress_labels, ingress_rules, ingress_object}
use environment_operator.Translator.Variables.{HasSecret}
use environment_operator.Translator.Mapped.{
  KubeObject, routed, nil, mapped, exposed, with_exposed, with_deployment, apply_translated, stored,
  apply_translated-missing_secret,
}
use environment_operator.Translator.Owned.Mapping.{AllListed, mapped-AllListed}
use environment_operator.Tests.Translations.{
  process, cluster, variables, api, api_deployment, api_made,
}

-- No secret exists.
abbrev bare_cluster : Cluster
bare_cluster = record cluster { secret_exists = λ name. false }

abbrev noting : Clients KubeObject (List Kind)
noting = record {
  apply = λ k o s. (k ∷ s, none);
  crd_client = λ k s. none;
  external_secrets_enabled = false;
}

no_claims : persistent_volume_claims bare_cluster (codes "ns") api ≡ some []
unfolding persistent_volume_claims
no_claims = refl

api_single : is_blue_green_parent api ≡ false
unfolding is_blue_green_parent
api_single = refl

no_secrets : ¬ (All (HasSecret (λ name. false)) variables)
no_secrets h = cc (h.1.0 (λ e. cc))

apply_translated-missing_secret_example :
    (x : Text) × (apply_translated process bare_cluster (codes "ns") [] api noting []
      ≡ some (returned (stored process bare_cluster (codes "ns") [] api noting [] []) (some x)))
apply_translated-missing_secret_example =
    apply_translated-missing_secret process bare_cluster (codes "ns") [] api noting [] [] refl
      api_single no_claims no_secrets

abbrev served_notes : TextMap Text
served_notes = (codes "deployment_method", codes "rolling-upgrade") ∷ []

abbrev api_service : ServiceObject
api_service =
    selected (codes "ns") (codes "api") (labels api) served_notes (codes "api")
      (map (service_port []) (pos 80 ∷ []))

api_served : service_object (codes "ns") api ≡ some api_service
unfolding service_object service_with active_deployment_name annotations is_blue_green_parent
    deployment_method
api_served = refl

abbrev api_ingress : IngressObject
api_ingress = record {
  meta = named (codes "api") (codes "ns") (ingress_labels api);
  rules = (ingress_rules api (pos 80) api.external_url []).0;
  tls = (ingress_rules api (pos 80) api.external_url []).1;
}

abbrev api_routes : KubeObject × KubeObject
api_routes = (routed api_ingress, nil)

api-exposed : exposed process cluster (codes "ns") [] api ≡ some api_routes
unfolding exposed has_external_url is_service_mesh_enabled ingress_object ◌==◌
api-exposed = refl

abbrev api_objects : Mapped KubeObject
api_objects =
    with_exposed process cluster (codes "ns") [] api [] (some api_deployment) api_service api_routes

api-mapped : mapped process cluster (codes "ns") [] api ≡ some api_objects
unfolding mapped persistent_volume_claims
api-mapped = rw (api_made, with_deployment, api_served, with_deployment, api-exposed) refl

mapped-AllListed_example : AllListed process cluster (codes "ns") api api_objects
mapped-AllListed_example =
    mapped-AllListed process cluster (codes "ns") api [] api_objects api-mapped
