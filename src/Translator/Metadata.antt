-- ===== src/Translator/Metadata.antt =====
-- The labels and annotations of the translator, images, pull secrets, access modes and API versions.
use environment_operator.Prelude.{
  Text, TextMap, codes, split, to_lower, ◌==◌, List, [], ◌∷◌, ◌++◌, Option, none, some, is_empty,
  if◌then◌else◌,
}
use environment_operator.Bitesize.Types.{Service}
use environment_operator.Bitesize.Colour.{colour_name}
use environment_operator.Bitesize.Service.{
  deployment_method, is_blue_green_parent, active_deployment_tag,
}
use environment_operator.K8s.Meta.{Meta}
use environment_operator.Translator.Objects.{Process}
use environment_operator.Translator.Strings.{trim}

-- util.Image
unfoldable pub image : Process → Text → Text → Text
image p app version =
    if is_empty p.registry
    then p.project ++ (b'/' ∷ (app ++ (b':' ∷ version)))
    else p.registry ++ (b'/' ∷ (p.project ++ (b'/' ∷ (app ++ (b':' ∷ version)))))

unfoldable pub image_pull_secrets : Process → List Text
image_pull_secrets p = if is_empty p.pull_secrets then [] else split b',' p.pull_secrets

abbrev pub creator : Text × Text
creator = (codes "creator", codes "pipeline")

unfoldable pub labels : Service → TextMap Text
labels svc =
    creator
    ∷ (codes "application", svc.application)
    ∷ (codes "name", svc.name)
    ∷ (codes "version", svc.version)
    ∷ []

-- `none` is the panic on a nil `Active`.
unfoldable pub annotations : Service → Option (TextMap Text)
annotations svc =
    let method : Text × Text = (codes "deployment_method", deployment_method svc) in
    if is_blue_green_parent svc
    then (elim (active_deployment_tag svc) [
      | none ↦ none
      | some tag ↦ some (method ∷ (codes "deployment_active", colour_name tag) ∷ [])
    ])
    else some (method ∷ [])

abbrev pub named : Text → Text → TextMap Text → Meta
named name namespace labels = record {
  name = name;
  namespace = namespace;
  resource_version = [];
  labels = labels;
  annotations = [];
}

-- The names of the modes are the modes.
unfoldable pub known_modes : List Text → List Text
known_modes [] = []
known_modes (m ∷ ms) =
    let rest = known_modes ms in
    let mode = trim m in
    if mode == codes "ReadWriteOnce"
    then mode ∷ rest
    else if mode == codes "ReadOnlyMany"
    then mode ∷ rest
    else if mode == codes "ReadWriteMany"
    then mode ∷ rest
    else rest

unfoldable pub access_modes_from : Text → List Text
unfolding known_modes
access_modes_from modes = known_modes (split b',' modes)

unfoldable pub api_version : Text → Text
api_version type =
    if to_lower type == codes "helmchart"
    then codes "helm.kubedex.com/v1"
    else if to_lower type == codes "serviceentry"
    then codes "networking.istio.io/v1alpha3"
    else codes "prsn.io/v1"
