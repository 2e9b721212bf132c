-- ===== src/Translator/Volumes.antt =====
-- Config maps, claims and the volumes of a pod.
use environment_operator.Prelude.{
  Text, codes, to_lower, ◌||◌, List, [], ◌∷◌, ◌++◌, map, Option, none, some, if◌then◌else◌,
}
use environment_operator.Bitesize.Types.{Service, Volume, Container, KeyToPath}
use environment_operator.Bitesize.Volumes.{
  is_secret_volume, is_config_map_volume, has_manual_provisioning,
}
use environment_operator.Bitesize.Gists.{Object, Gist, find_gist, type_configmap}
use environment_operator.K8s.Meta.{Meta}
use environment_operator.Translator.Objects.{
  Cluster, ClaimObject, VolumeSource, secret_source, config_map_source, claim_source, VolumeObject,
}
use environment_operator.Translator.Strings.{escape}
use environment_operator.Translator.Metadata.{named, creator, access_modes_from}

unfoldable pub config_maps_of : List Gist → List Volume → List Object
config_maps_of gists [] = []
config_maps_of gists (v ∷ vs) =
    let rest = config_maps_of gists vs in
    if is_config_map_volume v
    then elim (find_gist gists v.name type_configmap) [ none ↦ rest | some g ↦ g.config_map ∷ rest ]
    else rest

unfoldable pub config_maps_in : List Gist → List Container → List Object
unfolding config_maps_of
config_maps_in gists [] = []
config_maps_in gists (c ∷ cs) = config_maps_of gists c.volumes ++ config_maps_in gists cs

unfoldable pub config_maps : List Gist → Service → List Object
unfolding config_maps_in
config_maps gists svc =
    config_maps_of gists svc.volumes
    ++ elim svc.init_containers [ none ↦ [] | some cs ↦ config_maps_in gists cs ]

abbrev pub claim_meta : Text → Text → Volume → Meta
claim_meta namespace name v = named v.name namespace (
    creator
    ∷ (codes "deployment", name)
    ∷ (codes "mount_path", escape v.path)
    ∷ (codes "size", v.size)
    ∷ (codes "type", to_lower v.type)
    ∷ [])

-- A claim, whose size is a quantity.
unfoldable pub claim_of : Text → Text → Text → Volume → ClaimObject
unfolding access_modes_from
claim_of namespace name quantity v =
    let claim : ClaimObject = record {
      meta = claim_meta namespace name v;
      access_modes = access_modes_from v.modes;
      storage = quantity;
      volume_name = [];
      selector = none;
    } in
    if has_manual_provisioning v
    then record claim { volume_name = v.name; selector = some ((codes "name", v.name) ∷ []) }
    else record claim {
      meta = record (claim_meta namespace name v) {
        annotations =
            (codes "volume.beta.kubernetes.io/storage-class", codes "aws-" ++ to_lower v.type) ∷ [];
      };
    }

-- `none` is the panic of resource.MustParse.
unfoldable pub claims_of : Cluster → Text → Text → List Volume → Option (List ClaimObject)
unfolding claim_of
claims_of c namespace name [] = some []
claims_of c namespace name (v ∷ vs) =
    let rest = claims_of c namespace name vs in
    if is_secret_volume v || is_config_map_volume v then rest else elim (c.parse_quantity v.size) [
      | none ↦ none
      | some q ↦ elim rest [
        | none ↦ none
        | some claims ↦ some (claim_of namespace name q v ∷ claims)
      ]
    ]

unfoldable pub persistent_volume_claims : Cluster → Text → Service → Option (List ClaimObject)
unfolding claims_of
persistent_volume_claims c namespace svc = claims_of c namespace svc.name svc.volumes

-- The items are copied one by one.
unfoldable pub copy_items : List KeyToPath → List KeyToPath
copy_items [] = []
copy_items (i ∷ is) = record { key = i.key; path = i.path; mode = i.mode } ∷ copy_items is

unfoldable pub volume_source : Volume → VolumeSource
unfolding copy_items
volume_source v =
    if is_secret_volume v
    then secret_source v.name
    else if is_config_map_volume v
    then config_map_source v.name (copy_items v.items)
    else claim_source v.name

unfoldable pub volumes_of : List Volume → List VolumeObject
unfolding volume_source
volumes_of = map λ (v : Volume). record { name = v.name; source = volume_source v }
