-- ===== src/Translator/Owned.antt =====
-- The clients list what has the label of the program in its own namespace: what the translator makes
-- for a service is listed there, under the names that the reaper deletes by.
pub mod Mapping
use environment_operator.Prelude.{
  Text, codes, ◌==◌, ◌++◌, Bool, true, false, ◌||◌, List, [], ◌∷◌, map, Option, none, some, Result,
  ok, err, ◌>>=◌, ◌≡◌, refl, sym, All, Any, inl, inr, text_at, text_at-cons, ==_refl, is_empty,
  if◌then◌else◌, ℤ, TextMap, Bool-cases,
}
use mathlib.Core.Path.{subst}
use environment_operator.Bitesize.Types.{Service, Volume}
use environment_operator.Bitesize.Volumes.{
  is_config_map_volume, is_secret_volume, has_manual_provisioning,
}
use environment_operator.Bitesize.Service.{
  active_deployment_name, is_blue_green_parent, has_external_url, is_service_mesh_enabled,
}
use environment_operator.Extensions.{PrsnExternalResource}
use environment_operator.K8s.Meta.{Meta}
use environment_operator.Cluster.Deploy.{Mapped}
use environment_operator.Translator.Objects.{
  Process, Cluster, ClaimObject, ServiceObject, HpaObject, IngressObject, ContainerObject,
  DeploymentObject,
}
use environment_operator.Translator.Metadata.{labels, annotations}
use environment_operator.Translator.Services.{service_port, selected, service_with, service_object}
use environment_operator.Translator.Deployments.{deployment_of, deployment_object, hpa_object}
use environment_operator.Translator.Ingresses.{ingress_labels, ingress_object}
use environment_operator.Translator.Customs.{
  custom_resource_definition, service_mesh_gateway, service_mesh_virtual_service,
}
use environment_operator.Translator.Containers.{container_of}
use environment_operator.Bitesize.Gists.{Gist, Object}
use environment_operator.Translator.Volumes.{claim_of, claims_of, persistent_volume_claims}
use environment_operator.Translator.Mapped.{
  KubeObject, nil, claim_object, map_object, deployed, served, scaled, routed, secret,
  custom_object, mapped, deployment_object_single, exposed, stored_only, with_exposed,
  with_deployment, or_nil,
}

-- An object of a name in a namespace, with the label.
abbrev pub IsListed : Text → Text → Meta → Type 0
IsListed namespace name meta =
    (meta.name ≡ name)
    × (meta.namespace ≡ namespace)
    × (text_at (codes "creator") meta.labels ≡ codes "pipeline")

pub labelled :
    (rest : List (Text × Text))
    → text_at (codes "creator") ((codes "creator", codes "pipeline") ∷ rest) ≡ codes "pipeline"
labelled rest = rw (text_at-cons, ==_refl (codes "creator")) refl

-- A claim is listed under the name of its volume.
claim_of-IsListed :
    (namespace name quantity : Text) (v : Volume)
    → IsListed namespace v.name (claim_of namespace name quantity v).meta
unfolding claim_of
claim_of-IsListed namespace name quantity v = elim (Bool-cases (has_manual_provisioning v)) [
  | inl e ↦ rw e (refl, refl, labelled _)
  | inr e ↦ rw e (refl, refl, labelled _)
]

abbrev pub OnSome : {A : Type 0} → (A → Type 0) → Option A → Type 0
OnSome P none = Unit
OnSome P (some a) = P a

module _ (p : Process) (c : Cluster) (namespace : Text) (svc : Service) where
  abbrev pub Own : Meta → Type 0
  Own = IsListed namespace svc.name

  -- Under the name of one of some volumes.
  abbrev pub Claimed : List Volume → ClaimObject → Type 0
  Claimed vs claim = Any (λ (v : Volume). IsListed namespace v.name claim.meta) vs

  All-later :
      (v : Volume) (vs : List Volume) (claims : List ClaimObject)
      → All (Claimed vs) claims
      → All (Claimed (v ∷ vs)) claims
  All-later v vs [] h = tt
  All-later v vs (claim ∷ claims) h = (inr h.0, All-later v vs claims h.1)

  pub claims_of-Claimed :
      (name : Text) (vs : List Volume) → OnSome (All (Claimed vs)) (claims_of c namespace name vs)
  unfolding claims_of
  claims_of-Claimed name [] = tt
  claims_of-Claimed name (v ∷ vs) =
      elim (Bool-cases (is_secret_volume v || is_config_map_volume v)) [
        | inl e ↦ rw e (skipped (claims_of c namespace name vs) (claims_of-Claimed name vs))
        | inr e ↦ rw e (
            sized (c.parse_quantity v.size) (claims_of c namespace name vs)
              (claims_of-Claimed name vs))
      ]
    where
      skipped :
          (rest : Option (List ClaimObject))
          → OnSome (All (Claimed vs)) rest
          → OnSome (All (Claimed (v ∷ vs))) rest
      skipped none h = tt
      skipped (some claims) h = All-later v vs claims h

      sized :
          (q : Option Text) (rest : Option (List ClaimObject))
          → OnSome (All (Claimed vs)) rest
          → OnSome (All (Claimed (v ∷ vs))) (elim q [
            | none ↦ none
            | some q ↦ elim rest [
              | none ↦ none
              | some claims ↦ some (claim_of namespace name q v ∷ claims)
            ]
          ])
      sized none rest h = tt
      sized (some q) none h = tt
      sized (some q) (some claims) h =
          (inl (claim_of-IsListed namespace name q v), All-later v vs claims h)

  pub service_object-Own : OnSome (λ (o : ServiceObject). Own o.meta) (service_object namespace svc)
  unfolding service_object service_with labels
  service_object-Own = made (active_deployment_name svc) (annotations svc)
    where
      made :
          (target : Option Text) (notes : Option (TextMap Text))
          → OnSome
              (λ (o : ServiceObject). Own o.meta)
              (elim target [
                | none ↦ none
                | some t ↦ elim notes [
                  | none ↦ none
                  | some ns ↦ some (
                      selected namespace svc.name
                        (labels svc)
                        ns
                        t
                        (map (service_port svc.protocol) svc.ports))
                ]
              ])
      made none notes = tt
      made (some t) none = tt
      made (some t) (some ns) = (refl, refl, labelled _)

  pub hpa_object-Own : OnSome (λ (o : HpaObject). Own o.meta) (hpa_object c namespace svc)
  unfolding hpa_object labels
  hpa_object-Own = elim (Bool-cases (is_blue_green_parent svc)) [
    | inl e ↦ rw e tt
    | inr e ↦ rw e (refl, refl, labelled _)
  ]

  pub ingress_object-Own :
      (ports : List ℤ)
      → svc.ports ≡ ports
      → OnSome (λ (o : IngressObject). Own o.meta) (ingress_object namespace svc)
  unfolding ingress_object ingress_labels
  ingress_object-Own [] h = rw (h, ingress_object) tt
  ingress_object-Own (port ∷ _) h = rw (h, ingress_object) (refl, refl, labelled _)

  pub virtual_service-Own :
      (ports : List ℤ)
      → svc.ports ≡ ports
      → OnSome
          (λ (o : PrsnExternalResource). Own o.meta)
          (service_mesh_virtual_service namespace svc)
  unfolding service_mesh_virtual_service
  virtual_service-Own [] h = rw (h, service_mesh_virtual_service) tt
  virtual_service-Own (port ∷ _) h = rw (h, service_mesh_virtual_service) (refl, refl, labelled _)

  pub deployment_of-Own : (k : ContainerObject) → Own (deployment_of p c namespace svc k).meta
  unfolding deployment_of
  deployment_of-Own k = (refl, refl, labelled _)
