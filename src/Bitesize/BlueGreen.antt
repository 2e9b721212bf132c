-- ===== src/Bitesize/BlueGreen.antt =====
-- pkg/bitesize/bluegreen.go: the URLs of the two colours, and the copies of a service. The colour
-- tables are in Colour; the results about URLs and copies stand in the children.
pub mod Urls
pub mod Copies
use environment_operator.Prelude.{
  Text, codes, ◌==◌, split, join, lookup, TextMap, Bool, true, false, List, [], ◌∷◌, ◌++◌, map,
  Option, none, some, Result, ok, err, if◌then◌else◌, is_empty, exists, select, not, ◌&&◌,
  has_prefix,
}
use environment_operator.Bitesize.Types.{
  BlueGreenServiceSet, unset, blue, green, Service, Volume, Container, DeploymentSettings,
}
use environment_operator.Bitesize.Zero.{no_deployment, no_blue_green}
use environment_operator.Bitesize.Colour.{colour_name, blue_green_deployment_id, same_colour}
use environment_operator.Bitesize.Service.{active_deployment_tag, dashed, rolling_upgrade}

-- The YAML form, on the receiver's value. On an empty name the receiver is set to blue, and the
-- name is then refused all the same.
unfoldable pub unmarshal_blue_green :
    BlueGreenServiceSet → Result Text → BlueGreenServiceSet × Result (Unit {0})
unmarshal_blue_green e (err x) = (e, err x)
unmarshal_blue_green e (ok s) =
    let e' : BlueGreenServiceSet = if s == [] then blue else e in
    elim (blue_green_deployment_id s) [
      | unset ↦ (e', err (codes "blue_green: invalid type " ++ s))
      | c ↦ (c, ok tt)
    ]

abbrev suffix_first : Text → List Text → List Text
suffix_first suffix [] = []
suffix_first suffix (p ∷ ps) = (p ++ suffix) ∷ ps

unfoldable pub blue_green_url_for_kind : Text → BlueGreenServiceSet → Text
unfolding split join
blue_green_url_for_kind url kind =
    join b'.' (suffix_first (b'-' ∷ colour_name kind) (split b'.' url))

-- encoding/json keeps the exported fields: `provisioning` of a volume is lost.
abbrev pub json_volume : Volume → Volume
json_volume v = record v { provisioning = [] }

abbrev pub json_container : Container → Container
json_container c = record c { volumes = map json_volume c.volumes }

abbrev pub json_copy : Service → Service
json_copy s = record s {
  volumes = map json_volume s.volumes;
  init_containers = elim s.init_containers [ none ↦ none | some cs ↦ some (map json_container cs) ];
}

-- svc.Deployment.CustomURLs[kind.String()], nil where the key is missing
abbrev pub custom_urls_for : DeploymentSettings → BlueGreenServiceSet → List Text
custom_urls_for d kind = elim (lookup (colour_name kind) d.custom_urls) [ none ↦ [] | some us ↦ us ]

abbrev pub urls_for : List Text → List Text → BlueGreenServiceSet → List Text
urls_for custom urls kind =
    if is_empty custom then map (λ u. blue_green_url_for_kind u kind) urls else custom

-- The path of a colour's custom URLs, and whether they are set to an empty list.
abbrev pub custom_urls_path : BlueGreenServiceSet → Text
custom_urls_path kind = codes "deployment.custom_urls." ++ colour_name kind

abbrev pub custom_is_made : List Text → BlueGreenServiceSet → Bool
custom_is_made others kind = exists (λ (o : Text). o == custom_urls_path kind) others

abbrev pub child_deployment : BlueGreenServiceSet → BlueGreenServiceSet → DeploymentSettings
child_deployment tag kind = record no_deployment {
  method = rolling_upgrade;
  blue_green =
      some (record no_blue_green {
        deployment_colour = some kind;
        active_flag = same_colour tag kind;
      });
}

-- JSON keeps which slices are nil; the URLs are a nil slice until one is appended, or the custom ones.
-- The copy, where `d` is the service's deployment and `tag` its active colour.
unfoldable pub child_copy :
    Service → DeploymentSettings → BlueGreenServiceSet → BlueGreenServiceSet → Service
child_copy svc d tag kind = record (json_copy svc) {
  name = dashed svc.name kind;
  deployment = some (child_deployment tag kind);
  external_url = urls_for (custom_urls_for d kind) svc.external_url kind;
  empties = record svc.empties {
    external_url =
        is_empty (urls_for (custom_urls_for d kind) svc.external_url kind)
        && custom_is_made svc.empties.others kind;
    others = select (λ (o : Text). not (has_prefix o (codes "deployment."))) svc.empties.others;
  };
}

-- `none` is the panic on a nil `svc.Deployment`, or on a nil `Active`.
unfoldable pub copy_blue_green_service : Service → BlueGreenServiceSet → Option Service
copy_blue_green_service svc kind = elim (active_deployment_tag svc) [
  | none ↦ none
  | some tag ↦ elim svc.deployment [ none ↦ none | some d ↦ some (child_copy svc d tag kind) ]
]
