-- ===== src/Translator/Routed.antt =====
-- The ingress of a service, read back from the cluster.
use environment_operator.Prelude.{
  Text, TextMap, codes, text_at, ◌==◌, ==_refl, nonzero, eqz, eqb_iff, Bool-cases, is_empty, true,
  false, List, [], ◌∷◌, map, some, pos, negsuc, ℤ, ◌≡◌, refl, ap, sym, ◌∙◌, ◌⊎◌, inl, inr,
  if◌then◌else◌, arith,
}
use environment_operator.Prelude.Numbers.{IsInt32, to_int32, to_int32-IsInt32}
use environment_operator.Bitesize.Types.{Service}
use environment_operator.Cluster.Scrape.Objects.{KubeRule, KubeIngress}
use environment_operator.Cluster.Scrape.{when_true, with_ingress, add_ingress}
use environment_operator.Translator.Objects.{IngressRule, IngressObject}
use environment_operator.Translator.Ingresses.{
  rule_of, ingress_rules, ingress_object, ingress_labels,
}
use environment_operator.Translator.Metadata.{named}
use environment_operator.Translator.IngressLabels.{text_at-ssl, other_labels}
use environment_operator.Translator.Certificates.{ingress_rules_lem}

abbrev pub seen_rule : IngressRule → KubeRule
seen_rule r = record { host = r.host; paths = some ((r.service_name, r.service_port) ∷ []) }

-- The ingress as the cluster lists it.
abbrev pub seen_ingress : IngressObject → KubeIngress
seen_ingress o = record {
  name = o.meta.name;
  labels = o.meta.labels;
  rules = map seen_rule o.rules;
}

-- A setting that is off or on.
abbrev pub IsSwitch : Text → Type 0
IsSwitch s = (s ≡ codes "false") ⊎ (s ≡ codes "true")

-- What a service asks of its ingress can be told from the ingress: the backend is another service,
-- its port another port, and the switches are written true or false.
pub record IsRouted (svc : Service) (port : ℤ) : Type 0 where
  pub ssl : IsSwitch svc.ssl
  pub https_only : IsSwitch svc.https_only
  pub backend : (svc.backend == svc.name) ≡ false
  pub backend_port : eqz svc.backend_port port ≡ false
  pub port_fits : IsInt32 port
  pub backend_port_fits : IsInt32 svc.backend_port

-- What was read before the ingress: the service of that name and first port, with the
-- defaults in the fields of an ingress.
pub record IsUnrouted (svc : Service) (port : ℤ) (s : Service) : Type 0 where
  pub name : s.name ≡ svc.name
  pub ports : List ℤ
  pub listed : s.ports ≡ port ∷ ports
  pub ssl : s.ssl ≡ codes "false"
  pub https_only : s.https_only ≡ codes "false"
  pub backend : s.backend ≡ []
  pub backend_port : s.backend_port ≡ pos 0

-- A switch is read as it was set.
when_true-switch :
    (key v old : Text) (m : TextMap Text)
    → text_at key m ≡ v
    → IsSwitch v
    → old ≡ codes "false"
    → when_true key m old ≡ v
unfolding when_true ◌==◌
when_true-switch key v old m e (inl h) o = rw (e, h) o
when_true-switch key v old m e (inr h) o = rw (e, h) refl

backend_read :
    (backend name other old : Text)
    → (backend == name) ≡ false
    → other ≡ name
    → old ≡ []
    → (let x = if is_empty backend then name else backend in if x == other then old else x)
      ≡ backend
backend_read [] name other old h e o = rw (e, ==_refl name) o
backend_read (b ∷ backend) name other old h e o = rw (e, h) refl

eqz_refl : (n : ℤ) → eqz n n ≡ true
eqz_refl (pos n) = (eqb_iff n n).1 refl
eqz_refl (negsuc n) = (eqb_iff n n).1 refl

zero_of : (n : ℤ) → nonzero n ≡ false → n ≡ pos 0
zero_of (pos n) h = ap pos (ground arith)
zero_of (negsuc n) h = cc

port_read :
    (asked port old : ℤ)
    → eqz asked port ≡ false
    → IsInt32 port
    → IsInt32 asked
    → old ≡ pos 0
    → (let x = to_int32 (if nonzero asked then asked else port) in if eqz x port then old else x)
      ≡ asked
port_read asked port old h fits held o = elim (Bool-cases (nonzero asked)) [
  | inl e ↦ rw (e, to_int32-IsInt32 asked held, h) refl
  | inr e ↦ rw (e, to_int32-IsInt32 port fits, eqz_refl port) (o ∙ sym (zero_of asked e))
]

-- What the comparison reads of an ingress.
pub record IsRead (svc t : Service) : Type 0 where
  pub external_url : t.external_url ≡ svc.external_url
  pub ssl : t.ssl ≡ svc.ssl
  pub https_only : t.https_only ≡ svc.https_only
  pub https_backend : t.https_backend ≡ svc.https_backend
  pub http2 : t.http2 ≡ svc.http2
  pub backend : t.backend ≡ svc.backend
  pub backend_port : t.backend_port ≡ svc.backend_port

hosts_seen :
    (svc : Service) (port : ℤ) (urls : List Text)
    → map (λ (r : KubeRule). r.host) (map seen_rule (map (rule_of svc port) urls)) ≡ urls
unfolding rule_of
hosts_seen svc port [] = refl
hosts_seen svc port (u ∷ us) = ap (λ (t : List Text). u ∷ t) (hosts_seen svc port us)

pub add_ingress-first :
    (k : KubeIngress) (rule : KubeRule) (rules : List KubeRule) (path : Text × ℤ) (s : Service)
    → k.rules ≡ rule ∷ rules
    → rule.paths ≡ some (path ∷ [])
    → add_ingress k s ≡ some (with_ingress k path.0 path.1 s)
unfolding add_ingress
add_ingress-first k rule rules path s e h = rw (e, h) refl

unfoldable pub made_ingress : Text → Service → ℤ → IngressObject
made_ingress namespace svc port = record {
  meta = named svc.name namespace (ingress_labels svc);
  rules = map (rule_of svc port) svc.external_url;
  tls = (ingress_rules svc port svc.external_url []).1;
}

pub ingress_object-made :
    (namespace : Text) (svc : Service) (port : ℤ) (ports : List ℤ)
    → svc.ports ≡ port ∷ ports
    → ingress_object namespace svc ≡ some (made_ingress namespace svc port)
unfolding ingress_object made_ingress
ingress_object-made namespace svc port ports h =
    rw (h, ingress_object)
      (ap
        (λ (rules : List IngressRule). some (record {
          meta = named svc.name namespace (ingress_labels svc);
          rules = rules;
          tls = (ingress_rules svc port svc.external_url []).1;
        }))
        (ap (λ (r : List IngressRule × List (List Text × Text)). r.0)
          (ingress_rules_lem svc port svc.external_url [])))

pub with_ingress-IsRead :
    (namespace : Text) (svc s : Service) (port : ℤ) (url : Text)
    → IsRouted svc port
    → IsUnrouted svc port s
    → IsRead svc (
        with_ingress
          (seen_ingress (made_ingress namespace svc port))
          (rule_of svc port url).service_name
          (rule_of svc port url).service_port
          s)
unfolding rule_of made_ingress
with_ingress-IsRead namespace svc s port url r u =
    let (of_backend, of_only, of_http2) = other_labels svc in
    record {
      external_url = hosts_seen svc port svc.external_url;
      ssl = when_true-switch (codes "ssl") svc.ssl s.ssl _ (text_at-ssl svc) r.ssl u.ssl;
      https_only =
          when_true-switch (codes "httpsOnly") svc.https_only s.https_only _ of_only r.https_only
            u.https_only;
      https_backend = of_backend;
      http2 = of_http2;
      backend = backend_read svc.backend svc.name s.name s.backend r.backend u.name u.backend;
      backend_port = rw u.listed (
          port_read svc.backend_port port s.backend_port r.backend_port r.port_fits
            r.backend_port_fits u.backend_port);
    }

-- The ingress of a service with ports and external URLs is read back as it was configured.
pub add_ingress-ingress_object :
    (namespace : Text) (svc s : Service) (port : ℤ) (ports : List ℤ) (url : Text) (urls : List Text)
    → IsRouted svc port
    → IsUnrouted svc port s
    → svc.ports ≡ port ∷ ports
    → svc.external_url ≡ url ∷ urls
    → (o : IngressObject) × (t : Service) × (ingress_object namespace svc ≡ some o)
      × (add_ingress (seen_ingress o) s ≡ some t)
      × IsRead svc t
unfolding made_ingress
add_ingress-ingress_object namespace svc s port ports url urls r u hp hu =
    let o = made_ingress namespace svc port in
    let rule = rule_of svc port url in
    (
      o,
      with_ingress (seen_ingress o) rule.service_name rule.service_port s,
      ingress_object-made namespace svc port ports hp,
      add_ingress-first (seen_ingress o) (seen_rule rule)
          (map seen_rule (map (rule_of svc port) urls)) (rule.service_name, rule.service_port) s
          (ap (λ (us : List Text). map seen_rule (map (rule_of svc port) us)) hu) refl,
      with_ingress-IsRead namespace svc s port url r u,
    )
