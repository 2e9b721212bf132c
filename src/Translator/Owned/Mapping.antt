-- ===== src/Translator/Owned/Mapping.antt =====
-- All that the translator makes of a service is listed.
use environment_operator.Prelude.{
  Text, Bool, true, false, List, [], ◌∷◌, map, Option, none, some, Result, ok, err, ◌>>=◌, ◌≡◌,
  refl, sym, All, inl, inr, is_empty, if◌then◌else◌, Bool-cases,
}
use mathlib.Core.Path.{subst}
use environment_operator.Bitesize.Types.{Service}
use environment_operator.Bitesize.Service.{
  is_blue_green_parent, has_external_url, is_service_mesh_enabled,
}
use environment_operator.Extensions.{PrsnExternalResource}
use environment_operator.Cluster.Deploy.{Mapped}
use environment_operator.Translator.Objects.{
  Process, Cluster, ClaimObject, ServiceObject, HpaObject, IngressObject, ContainerObject,
  DeploymentObject,
}
use environment_operator.Translator.Services.{service_object}
use environment_operator.Translator.Deployments.{deployment_of, deployment_object, hpa_object}
use environment_operator.Translator.Ingresses.{ingress_object}
use environment_operator.Translator.Customs.{
  custom_resource_definition, service_mesh_gateway, service_mesh_virtual_service,
}
use environment_operator.Translator.Containers.{container_of}
use environment_operator.Bitesize.Gists.{Gist, Object}
use environment_operator.Translator.Volumes.{claims_of, persistent_volume_claims}
use environment_operator.Translator.Mapped.{
  KubeObject, nil, claim_object, map_object, deployed, served, scaled, routed, secret,
  custom_object, mapped, deployment_object_single, exposed, stored_only, with_exposed,
  with_deployment, or_nil,
}
use environment_operator.Translator.Owned.{
  labelled, OnSome, Own, Claimed, claims_of-Claimed, service_object-Own, hpa_object-Own,
  ingress_object-Own, virtual_service-Own, deployment_of-Own,
}

module _ (p : Process) (c : Cluster) (namespace : Text) (svc : Service) where
  -- What is listed of an object that is made. A config map is the configuration's, and an external
  -- secret takes the namespace that it is applied in.
  abbrev pub Listed : KubeObject → Type 0
  Listed nil = Unit
  Listed (claim_object claim) = Claimed p c namespace svc svc.volumes claim
  Listed (map_object _) = Unit
  Listed (deployed d) = Own p c namespace svc d.meta
  Listed (served o) = Own p c namespace svc o.meta
  Listed (scaled o) = Own p c namespace svc o.meta
  Listed (routed o) = Own p c namespace svc o.meta
  Listed (secret _) = Unit
  Listed (custom_object o) = Own p c namespace svc o.meta

  abbrev pub OnOk : (KubeObject → Type 0) → Result KubeObject → Type 0
  OnOk P (err _) = Unit
  OnOk P (ok o) = P o

  pub record AllListed (m : Mapped KubeObject) : Type 0 where
    pub claims : All Listed m.claims
    pub deployment : OnOk Listed m.deployment
    pub service : Listed m.service
    pub hpa : Listed m.hpa
    pub ingress : Listed m.ingress
    pub gateway : Listed m.gateway
    pub virtual_service : Listed m.virtual_service
    pub custom : Listed m.custom

  claims-Listed :
      (claims : List ClaimObject)
      → All (Claimed p c namespace svc svc.volumes) claims
      → All Listed (map claim_object claims)
  claims-Listed [] h = tt
  claims-Listed (claim ∷ claims) h = (h.0, claims-Listed claims h.1)

  hpa-Listed :
      (o : Option HpaObject)
      → OnSome (λ (o : HpaObject). Own p c namespace svc o.meta) o
      → Listed (or_nil scaled o)
  hpa-Listed none h = tt
  hpa-Listed (some o) h = h

  abbrev DeploymentListed : Result (Option DeploymentObject) → Type 0
  DeploymentListed (err _) = Unit
  DeploymentListed (ok none) = Unit
  DeploymentListed (ok (some d)) = Own p c namespace svc d.meta

  bound-Listed :
      (k : Result ContainerObject)
      → DeploymentListed (k >>= λ k. ok (some (deployment_of p c namespace svc k)))
  bound-Listed (err x) = tt
  bound-Listed (ok k) = deployment_of-Own p c namespace svc k

  parent-Listed :
      is_blue_green_parent svc ≡ true → DeploymentListed (deployment_object p c namespace svc)
  unfolding deployment_object
  parent-Listed e = rw e tt

  made-Listed : (d : Option DeploymentObject) → DeploymentListed (ok d) → Listed (or_nil deployed d)
  made-Listed none h = tt
  made-Listed (some d) h = h

  module _ (gists : List Gist) where
    abbrev Pair : KubeObject × KubeObject → Type 0
    Pair objects = Listed objects.0 × Listed objects.1

    deployment_object-Listed : DeploymentListed (deployment_object p c namespace svc)
    deployment_object-Listed = elim (Bool-cases (is_blue_green_parent svc)) [
      | inl e ↦ parent-Listed e
      | inr e ↦
          subst DeploymentListed (sym (deployment_object_single p c namespace gists svc e))
            (bound-Listed (container_of p c svc))
    ]

    exposed-Listed : OnSome Pair (exposed p c namespace gists svc)
    unfolding exposed
    exposed-Listed =
        shown (has_external_url svc) (is_service_mesh_enabled svc) (ingress_object namespace svc)
          (service_mesh_virtual_service namespace svc)
          (ingress_object-Own p c namespace svc svc.ports refl)
          (virtual_service-Own p c namespace svc svc.ports refl)
      where
        shown :
            (url mesh : Bool) (i : Option IngressObject) (v : Option PrsnExternalResource)
            → OnSome (λ (o : IngressObject). Own p c namespace svc o.meta) i
            → OnSome (λ (o : PrsnExternalResource). Own p c namespace svc o.meta) v
            → OnSome Pair (
                if url
                then elim i [
                  | none ↦ none
                  | some i ↦
                      if mesh
                      then elim v [ none ↦ none | some v ↦ some (routed i, custom_object v) ]
                      else some (routed i, nil)
                ]
                else some (nil, nil))
        shown false mesh i v hi hv = (tt, tt)
        shown true mesh none v hi hv = tt
        shown true false (some i) v hi hv = (hi, tt)
        shown true true (some i) none hi hv = tt
        shown true true (some i) (some v) hi hv = (hi, hv)

    service_mesh_gateway-Own : Own p c namespace svc (service_mesh_gateway namespace svc).meta
    unfolding service_mesh_gateway
    service_mesh_gateway-Own = (refl, refl, labelled _)

    custom_resource_definition-Own :
        Own p c namespace svc (custom_resource_definition namespace svc).meta
    unfolding custom_resource_definition
    custom_resource_definition-Own = (refl, refl, labelled _)

    maps-Listed : (maps : List Object) → All Listed (map map_object maps)
    maps-Listed [] = tt
    maps-Listed (o ∷ os) = (tt, maps-Listed os)

    stored_only-AllListed :
        (claims : List ClaimObject) (x : Text)
        → All (Claimed p c namespace svc svc.volumes) claims
        → AllListed (stored_only p c namespace gists svc claims x)
    stored_only-AllListed claims x h = record {
      claims = claims-Listed claims h;
      deployment = tt;
      service = tt;
      hpa = tt;
      ingress = tt;
      gateway = tt;
      virtual_service = tt;
      custom = tt;
    }

    with_exposed-AllListed :
        (claims : List ClaimObject) (d : Option DeploymentObject) (o : ServiceObject)
        (objects : KubeObject × KubeObject)
        → All (Claimed p c namespace svc svc.volumes) claims
        → DeploymentListed (ok d)
        → Own p c namespace svc o.meta
        → Pair objects
        → AllListed (with_exposed p c namespace gists svc claims d o objects)
    with_exposed-AllListed claims d o (i, v) hc hd ho hp = record {
      claims = claims-Listed claims hc;
      deployment = made-Listed d hd;
      service = ho;
      hpa = hpa-Listed (hpa_object c namespace svc) (hpa_object-Own p c namespace svc);
      ingress = hp.0;
      gateway = service_mesh_gateway-Own;
      virtual_service = hp.1;
      custom = tt;
    }

    with_deployment-AllListed :
        (claims : List ClaimObject) (r : Result (Option DeploymentObject))
        → All (Claimed p c namespace svc svc.volumes) claims
        → DeploymentListed r
        → OnSome AllListed (with_deployment p c namespace gists svc claims r)
    with_deployment-AllListed claims (err x) hc hd = stored_only-AllListed claims x hc
    with_deployment-AllListed claims (ok d) hc hd =
        made (service_object namespace svc) (exposed p c namespace gists svc)
          (service_object-Own p c namespace svc) exposed-Listed
      where
        made :
            (o : Option ServiceObject) (e : Option (KubeObject × KubeObject))
            → OnSome (λ (o : ServiceObject). Own p c namespace svc o.meta) o
            → OnSome Pair e
            → OnSome AllListed (elim o [
              | none ↦ none
              | some o ↦ elim e [
                | none ↦ none
                | some objects ↦ some (with_exposed p c namespace gists svc claims d o objects)
              ]
            ])
        made none e ho he = tt
        made (some o) none ho he = tt
        made (some o) (some objects) ho he = with_exposed-AllListed claims d o objects hc hd ho he

    mapped-OnSome : OnSome AllListed (mapped p c namespace gists svc)
    unfolding mapped persistent_volume_claims
    mapped-OnSome = elim (Bool-cases (is_empty svc.type)) [
      | inl e ↦ rw e (
          sized (claims_of c namespace svc.name svc.volumes)
            (claims_of-Claimed p c namespace svc svc.name svc.volumes))
      | inr e ↦ rw e (record {
        claims = tt;
        deployment = tt;
        service = tt;
        hpa = tt;
        ingress = tt;
        gateway = tt;
        virtual_service = tt;
        custom = custom_resource_definition-Own;
      })
    ]
      where
        sized :
            (claims : Option (List ClaimObject))
            → OnSome (All (Claimed p c namespace svc svc.volumes)) claims
            → OnSome AllListed (elim claims [
              | none ↦ none
              | some claims ↦
                  with_deployment p c namespace gists svc claims
                    (deployment_object p c namespace svc)
            ])
        sized none h = tt
        sized (some claims) h = with_deployment-AllListed claims _ h deployment_object-Listed

    -- What the translator makes of a service has the label that the clients list by and lies in the
    -- namespace: each claim under the name of one of the service's volumes; the deployment, the
    -- service, the autoscaler, the ingress, the gateway, the virtual service and the custom resource
    -- under the name of the service, where they are made.
    pub mapped-AllListed :
        (m : Mapped KubeObject) → mapped p c namespace gists svc ≡ some m → AllListed m
    mapped-AllListed m h = subst (OnSome AllListed) h mapped-OnSome
