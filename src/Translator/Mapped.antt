-- ===== src/Translator/Mapped.antt =====
-- What `ApplyService` of pkg/cluster/cluster.go applies: the objects that the translator makes of a
-- service, as Cluster/Deploy takes them. A pointer that the translator leaves nil is `nil`, and an
-- object that is not asked for as well; a panic on the way is `none`.
use environment_operator.Prelude.{
  Text, codes, true, false, List, [], map, Option, none, some, Result, ok, err, ◌≡◌, refl, ap, ◌∙◌,
  ◌>>=◌, bind_ok, All, is_empty, if◌then◌else◌,
}
use environment_operator.Bitesize.Types.{Service}
use environment_operator.Bitesize.Service.{
  has_external_url, is_service_mesh_enabled, is_blue_green_parent,
}
use environment_operator.Bitesize.Gists.{Object, Gist}
use environment_operator.Extensions.{ExternalSecret, PrsnExternalResource}
use environment_operator.Cluster.Scrape.Objects.{KubeEnvVar}
use environment_operator.Cluster.Deploy.{
  claim, config_map, Mapped, Clients, Ended, returned, apply_each, apply_untyped, apply_service,
}
use environment_operator.Translator.Objects.{
  Process, Cluster, ClaimObject, ContainerObject, ServiceObject, DeploymentObject, HpaObject,
  IngressObject,
}
use environment_operator.Translator.Volumes.{config_maps, persistent_volume_claims}
use environment_operator.Translator.Containers.{
  container_of, container_with, volume_mounts, kube_env_vars,
}
use environment_operator.Translator.Deployments.{deployment_of, deployment_object, hpa_object}
use environment_operator.Translator.Services.{service_object}
use environment_operator.Translator.Ingresses.{ingress_object, external_secret_tls}
use environment_operator.Translator.Customs.{
  custom_resource_definition, service_mesh_gateway, service_mesh_virtual_service,
}
use environment_operator.Translator.Variables.{HasSecret, kube_env_vars-HasSecret}

pub data KubeObject : Type 0 where
  nil : KubeObject
  claim_object : ClaimObject → KubeObject
  map_object : Object → KubeObject
  deployed : DeploymentObject → KubeObject
  served : ServiceObject → KubeObject
  scaled : HpaObject → KubeObject
  routed : IngressObject → KubeObject
  secret : ExternalSecret → KubeObject
  custom_object : PrsnExternalResource → KubeObject

abbrev pub or_nil : {A : Type 0} → (A → KubeObject) → Option A → KubeObject
or_nil f none = nil
or_nil f (some a) = f a

abbrev pub mapped_ok : {A B : Type 0} → (A → B) → Result A → Result B
mapped_ok f (ok a) = ok (f a)
mapped_ok f (err x) = err x

-- In a namespace that is not the service's own.
abbrev pub in_namespace : Text → ExternalSecret → ExternalSecret
in_namespace namespace es = record es { meta = record es.meta { namespace = namespace } }

module _ (p : Process) (c : Cluster) (namespace : Text) (gists : List Gist) (svc : Service) where
  -- Nothing but what is applied before the deployment.
  abbrev pub stored_only : List ClaimObject → Text → Mapped KubeObject
  stored_only claims x = record {
    claims = map claim_object claims;
    config_maps = map map_object (config_maps gists svc);
    deployment = err x;
    service = nil;
    hpa = nil;
    ingress = nil;
    external_secret = err [];
    gateway = nil;
    virtual_service = nil;
    custom = nil;
    mesh_secret = err [];
  }

  -- The ingress and the virtual service, of a service that has them.
  unfoldable pub exposed : Option (KubeObject × KubeObject)
  exposed =
      if has_external_url svc
      then elim (ingress_object namespace svc) [
        | none ↦ none
        | some i ↦
            if is_service_mesh_enabled svc
            then elim (service_mesh_virtual_service namespace svc) [
              | none ↦ none
              | some v ↦ some (routed i, custom_object v)
            ]
            else some (routed i, nil)
      ]
      else some (nil, nil)

  abbrev pub with_exposed :
      List ClaimObject
      → Option DeploymentObject
      → ServiceObject
      → KubeObject × KubeObject
      → Mapped KubeObject
  with_exposed claims d service (ingress, virtual) = record {
    claims = map claim_object claims;
    config_maps = map map_object (config_maps gists svc);
    deployment = ok (or_nil deployed d);
    service = served service;
    hpa = or_nil scaled (hpa_object c namespace svc);
    ingress = ingress;
    external_secret = mapped_ok secret (external_secret_tls p namespace svc);
    gateway = custom_object (service_mesh_gateway namespace svc);
    virtual_service = virtual;
    custom = nil;
    mesh_secret =
        mapped_ok (λ es. secret (in_namespace (codes "istio-system") es))
          (external_secret_tls p namespace svc);
  }

  abbrev pub with_deployment :
      List ClaimObject → Result (Option DeploymentObject) → Option (Mapped KubeObject)
  with_deployment claims (err x) = some (stored_only claims x)
  with_deployment claims (ok d) = elim (service_object namespace svc) [
    | none ↦ none
    | some service ↦ elim exposed [
      | none ↦ none
      | some objects ↦ some (with_exposed claims d service objects)
    ]
  ]

  unfoldable pub mapped : Option (Mapped KubeObject)
  unfolding exposed
  mapped =
      if is_empty svc.type
      then elim (persistent_volume_claims c namespace svc) [
        | none ↦ none
        | some claims ↦ with_deployment claims (deployment_object p c namespace svc)
      ]
      else some (record (stored_only [] []) {
        config_maps = [];
        custom = custom_object (custom_resource_definition namespace svc);
      })

  -- ApplyService, with what the translator makes.
  unfoldable pub apply_translated : {S : Type 0} → Clients KubeObject S → S → Option (Ended S)
  unfolding mapped
  apply_translated clients s = elim mapped [
    | none ↦ none
    | some m ↦ some (apply_service clients svc m s)
  ]

  -- A container is only made where the cluster has the secrets.
  container_of-HasSecret :
      (k : ContainerObject)
      → container_of p c svc ≡ ok k
      → All (HasSecret c.secret_exists) svc.env_vars
  unfolding container_of
  container_of-HasSecret k h =
      let with_env = λ (mounts : List (Text × Text)) (env : List KubeEnvVar).
        ok (container_with c svc mounts env) in
      let (mounts, _, more) =
        bind_ok (volume_mounts svc) (λ mounts. kube_env_vars p c svc >>= with_env mounts) h in
      let (vs, made, _) = bind_ok (kube_env_vars p c svc) (with_env mounts) more in
      ((kube_env_vars-HasSecret p c svc vs).0 made).0

  abbrev pub around : ContainerObject → Result (Option DeploymentObject)
  around k = ok (some (deployment_of p c namespace svc k))

  pub deployment_object_single :
      is_blue_green_parent svc ≡ false
      → deployment_object p c namespace svc ≡ (container_of p c svc >>= around)
  unfolding deployment_object
  deployment_object_single h = rw h refl

  deployment_object-refused :
      (o : Result ContainerObject)
      → container_of p c svc ≡ o
      → is_blue_green_parent svc ≡ false
      → ¬ (All (HasSecret c.secret_exists) svc.env_vars)
      → (x : Text) × (deployment_object p c namespace svc ≡ err x)
  deployment_object-refused (ok k) h single missing = absurd (missing (container_of-HasSecret k h))
  deployment_object-refused (err x) h single missing =
      (x, deployment_object_single single ∙ ap (λ r. r >>= around) h)

  module _ {S : Type 0} (clients : Clients KubeObject S) where
    -- The claims and the config maps alone.
    abbrev pub stored : List ClaimObject → S → S
    stored claims s =
        let made = apply_each clients claim (map claim_object claims) s none in
        (apply_each clients config_map (map map_object (config_maps gists svc)) made.0 made.1).0

    apply_service-stored :
        (claims : List ClaimObject) (x : Text) (s : S)
        → is_empty svc.type ≡ true
        → apply_service clients svc (stored_only claims x) s ≡ returned (stored claims s) (some x)
    unfolding apply_service apply_untyped
    apply_service-stored claims x s h = rw h refl

    -- When the cluster lacks a secret that a variable of a service needs, and the service has no
    -- type, is no blue/green parent, and has claims of readable sizes, applying it applies its claims
    -- and its config maps, nothing else, and returns an error.
    pub apply_translated-missing_secret :
        (claims : List ClaimObject) (s : S)
        → is_empty svc.type ≡ true
        → is_blue_green_parent svc ≡ false
        → persistent_volume_claims c namespace svc ≡ some claims
        → ¬ (All (HasSecret c.secret_exists) svc.env_vars)
        → (x : Text) × (apply_translated clients s ≡ some (returned (stored claims s) (some x)))
    unfolding apply_translated mapped
    apply_translated-missing_secret claims s untyped single sized missing =
        let (x, refused) = deployment_object-refused (container_of p c svc) refl single missing in
        (
          x,
          rw (apply_translated, mapped, untyped, sized, refused)
              (ap some (apply_service-stored claims x s untyped)),
        )
