-- ===== src/Translator/Certificates.antt =====
-- The rules and the certificates of an ingress.
use environment_operator.Prelude.{
  Text, codes, ◌==◌, List, [], ◌∷◌, ◌++◌, map, some, ℤ, ◌≡◌, refl, ap, if◌then◌else◌, ◌∙◌, ==_refl,
}
use environment_operator.Bitesize.Types.{Service}
use environment_operator.Translator.Objects.{IngressRule, IngressObject}
use environment_operator.Translator.Ingresses.{
  rule_of, ingress_rules, ingress_object, ingress_labels,
}
use environment_operator.Translator.Metadata.{named}

abbrev last_tls : Service → List Text → List (List Text × Text) → List (List Text × Text)
last_tls svc [] tls = tls
last_tls svc (u ∷ []) tls = if svc.ssl == codes "true" then (u ∷ [], svc.name) ∷ [] else []
last_tls svc (_ ∷ v ∷ us) tls = last_tls svc (v ∷ us) tls

pub ingress_rules_lem :
    (svc : Service) (port : ℤ) (urls : List Text) (tls : List (List Text × Text))
    → ingress_rules svc port urls tls ≡ (map (rule_of svc port) urls, last_tls svc urls tls)
unfolding ingress_rules
ingress_rules_lem svc port [] tls = refl
ingress_rules_lem svc port (u ∷ []) tls = refl
ingress_rules_lem svc port (u ∷ v ∷ us) tls =
    let ih = ingress_rules_lem svc port (v ∷ us) _ in
    ap (λ (r : List IngressRule × List (List Text × Text)). (rule_of svc port u ∷ r.0, r.1)) ih

last_tls-append :
    (svc : Service) (us : List Text) (u : Text) (tls : List (List Text × Text))
    → last_tls svc (us ++ (u ∷ [])) tls ≡ last_tls svc (u ∷ []) []
last_tls-append svc [] u tls = refl
last_tls-append svc (v ∷ []) u tls = refl
last_tls-append svc (v ∷ w ∷ us) u tls = last_tls-append svc (w ∷ us) u tls

pub hosts-rule_of :
    (svc : Service) (port : ℤ) (urls : List Text)
    → map (λ (r : IngressRule). r.host) (map (rule_of svc port) urls) ≡ urls
unfolding rule_of
hosts-rule_of svc port [] = refl
hosts-rule_of svc port (u ∷ us) = ap (λ (t : List Text). u ∷ t) (hosts-rule_of svc port us)

-- The ingress of a service with ports and ssl has a rule for every URL, in order, and a certificate
-- for the last URL only.
pub ingress_object-tls :
    (namespace : Text) (svc : Service) (port : ℤ) (ports : List ℤ) (urls : List Text) (url : Text)
    → svc.ports ≡ port ∷ ports
    → svc.ssl ≡ codes "true"
    → svc.external_url ≡ urls ++ (url ∷ [])
    → (o : IngressObject) × (ingress_object namespace svc ≡ some o)
      × (map (λ (r : IngressRule). r.host) o.rules ≡ svc.external_url)
      × (o.tls ≡ (url ∷ [], svc.name) ∷ [])
unfolding ingress_object
ingress_object-tls namespace svc port ports urls url hp hs hu =
    let o : IngressObject = record {
      meta = named svc.name namespace (ingress_labels svc);
      rules = map (rule_of svc port) svc.external_url;
      tls = (url ∷ [], svc.name) ∷ [];
    } in
    let lasts : last_tls svc svc.external_url [] ≡ (url ∷ [], svc.name) ∷ [] =
      rw hu (last_tls-append svc urls url [] ∙ rw (hs, ==_refl (codes "true")) refl) in
    (
      o,
      rw (hp, ingress_object, ingress_rules_lem svc port svc.external_url [], lasts) refl,
      hosts-rule_of svc port svc.external_url,
      refl,
    )
