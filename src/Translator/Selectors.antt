-- ===== src/Translator/Selectors.antt =====
-- The pods that a blue/green service sends its traffic to.
use environment_operator.Prelude.{Text, TextMap, codes, lookup, ◌==◌, All, some, ok, ◌≡◌, sym, ap}
use environment_operator.Bitesize.Types.{Service, DeploymentSettings, BlueGreenServiceSet}
use environment_operator.Bitesize.Service.{other_colour}
use environment_operator.Bitesize.BlueGreen.{copy_blue_green_service}
use environment_operator.Bitesize.BlueGreen.Copies.{IsParent, deployment_names-copies}
use environment_operator.Translator.Objects.{Process, Cluster, DeploymentObject, ServiceObject}
use environment_operator.Translator.Deployments.{deployment_of, deployment_object}
use environment_operator.Translator.Services.{service_object}
use environment_operator.Translator.Made.{deployment_object-made, selector-service_object}

-- A selector selects the pods that have all its labels.
abbrev pub Selects : TextMap Text → TextMap Text → Type 0
Selects selector labels = All (λ e. lookup e.0 labels ≡ some e.1) selector

template_labels :
    (p : Process) (c : Cluster) (namespace : Text) (svc : Service) (d : DeploymentObject)
    → deployment_object p c namespace svc ≡ ok (some d)
    → (lookup (codes "creator") d.template.labels ≡ some (codes "pipeline"))
      × (lookup (codes "name") d.template.labels ≡ some svc.name)
unfolding deployment_of lookup ◌==◌
template_labels p c namespace svc d h =
    let (k, _, same) = deployment_object-made p c namespace svc d h in
    (
      ap (λ (x : DeploymentObject). lookup (codes "creator") x.template.labels) (sym same),
      ap (λ (x : DeploymentObject). lookup (codes "name") x.template.labels) (sym same),
    )

-- For a blue/green service with an active colour, the service object selects the pods of the
-- deployment of the active copy, and does not select those of the other copy.
pub service_object-Selects :
    (p : Process) (cluster : Cluster) (namespace : Text) (svc : Service) (d : DeploymentSettings)
    (c : BlueGreenServiceSet) (active inactive : Service) (o : ServiceObject)
    (da di : DeploymentObject)
    → IsParent svc d c
    → copy_blue_green_service svc c ≡ some active
    → copy_blue_green_service svc (other_colour c) ≡ some inactive
    → service_object namespace svc ≡ some o
    → deployment_object p cluster namespace active ≡ ok (some da)
    → deployment_object p cluster namespace inactive ≡ ok (some di)
    → Selects o.selector da.template.labels × ¬ Selects o.selector di.template.labels
service_object-Selects p cluster namespace svc d c active inactive o da di parent ea ei eo eda edi =
    let names = deployment_names-copies svc d c parent active inactive ea ei in
    let selector = selector-service_object namespace svc o active.name eo names.0 in
    let (creator_a, name_a) = template_labels p cluster namespace active da eda in
    let (_, name_i) = template_labels p cluster namespace inactive di edi in
    rw selector ((creator_a, (name_a, tt)), λ h. names.2 (cc (h.1.0, name_i)))
