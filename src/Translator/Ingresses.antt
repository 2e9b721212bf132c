-- ===== src/Translator/Ingresses.antt =====
-- The ingress of a service and the external secret of its certificate.
use environment_operator.Prelude.{
  Text, TextMap, codes, ◌==◌, true, List, [], ◌∷◌, ◌++◌, Option, none, some, Result, ok, err, ℤ,
  nonzero, is_empty, if◌then◌else◌,
}
use environment_operator.Prelude.Numbers.{to_int32}
use environment_operator.Bitesize.Types.{Service}
use environment_operator.Extensions.{ExternalSecret}
use environment_operator.Translator.Objects.{Process, IngressRule, IngressObject}
use environment_operator.Translator.Strings.{title}
use environment_operator.Translator.Metadata.{named, creator}

-- A label that is set only where it has a value.
abbrev pub optional : Text → Text → TextMap Text
optional key value = if is_empty value then [] else (key, value) ∷ []

unfoldable pub ingress_labels : Service → TextMap Text
ingress_labels svc =
    (creator
      ∷ (codes "application", svc.application)
      ∷ (codes "name", svc.name)
      ∷ (codes "ssl", svc.ssl)
      ∷ [])
    ++ (optional (codes "httpsBackend") svc.https_backend
        ++ ((codes "httpsOnly", svc.https_only) ∷ optional (codes "http2") svc.http2))

unfoldable pub rule_of : Service → ℤ → Text → IngressRule
rule_of svc port url = record {
  host = url;
  path = codes "/";
  service_name = if is_empty svc.backend then svc.name else svc.backend;
  service_port = to_int32 (if nonzero svc.backend_port then svc.backend_port else port);
}

-- The loop over the URLs, from the TLS entries that the one before left.
unfoldable pub ingress_rules :
    Service → ℤ → List Text → List (List Text × Text) → List IngressRule × List (List Text × Text)
unfolding rule_of
ingress_rules svc port [] tls = ([], tls)
ingress_rules svc port (url ∷ urls) tls =
    let next = if svc.ssl == codes "true" then (url ∷ [], svc.name) ∷ [] else [] in
    let rest = ingress_rules svc port urls next in (rule_of svc port url ∷ rest.0, rest.1)

-- `none` is the panic on a service without ports.
unfoldable pub ingress_object : Text → Service → Option IngressObject
unfolding ingress_labels ingress_rules
ingress_object namespace svc = elim svc.ports [
  | [] ↦ none
  | port ∷ _ ↦
      let filled = ingress_rules svc port svc.external_url [] in
      some (record {
        meta = named svc.name namespace (ingress_labels svc);
        rules = filled.0;
        tls = filled.1;
      })
]

abbrev tls_key : Process → Text → Service → Text → Text
tls_key p namespace svc suffix =
    codes "tls/"
    ++ p.env_type
    ++ codes "/"
    ++ p.environment
    ++ codes "/"
    ++ namespace
    ++ codes "/"
    ++ svc.name
    ++ suffix

abbrev tls_entry : Text → Text → TextMap Text
tls_entry key name = (codes "key", key) ∷ (codes "name", name) ∷ []

-- The secret has no namespace of its own.
unfoldable pub external_secret_tls : Process → Text → Service → Result ExternalSecret
external_secret_tls p namespace svc =
    if is_empty p.environment
    then err (codes "ENVIRONMENT is not set")
    else if is_empty p.env_type
    then err (codes "ENVTYPE is not set")
    else ok (record {
      type_meta = record {
        kind = title (codes "ExternalSecret");
        api_version = codes "kubernetes-client.io/v1";
      };
      meta =
          named svc.name []
            (creator ∷ (codes "application", svc.application) ∷ (codes "name", svc.name) ∷ []);
      secret_descriptor = record {
        backend_type = codes "secretsManager";
        type = codes "kubernetes.io/tls";
        compressed = true;
        entries =
            tls_entry (tls_key p namespace svc (codes ".crt")) (codes "tls.crt")
            ∷ tls_entry (tls_key p namespace svc (codes ".key")) (codes "tls.key")
            ∷ [];
      };
    })
