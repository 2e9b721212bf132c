-- ===== src/Bitesize/Service.antt =====
-- The methods of `Service` in pkg/bitesize/service.go that only read it. A nil pointer that is
-- dereferenced is a panic, `none`.
use environment_operator.Prelude.{
  Text, codes, ◌==◌, Bool, true, false, not, ◌&&◌, List, [], ◌∷◌, ◌++◌, Option, none, some,
  if◌then◌else◌, is_empty,
}
use environment_operator.Bitesize.Types.{
  BlueGreenServiceSet, unset, blue, green, BlueGreenSettings, Service,
}
use environment_operator.Bitesize.Colour.{colour_name}

abbrev pub rolling_upgrade : Text
rolling_upgrade = codes "rolling-upgrade"

abbrev pub bluegreen : Text
bluegreen = codes "bluegreen"

unfoldable pub has_external_url : Service → Bool
has_external_url e = not (is_empty e.external_url)

unfoldable pub is_service_mesh_enabled : Service → Bool
is_service_mesh_enabled e = e.service_mesh == codes "enable"

unfoldable pub deployment_method : Service → Text
deployment_method e = elim e.deployment [ none ↦ rolling_upgrade | some d ↦ d.method ]

unfoldable pub is_blue_green_parent : Service → Bool
unfolding deployment_method
is_blue_green_parent e = elim e.deployment [
  | none ↦ false
  | some d ↦ deployment_method e == bluegreen
]

-- e.Deployment.BlueGreen, where neither pointer is nil
abbrev pub blue_green_of : Service → Option BlueGreenSettings
blue_green_of e = elim e.deployment [ none ↦ none | some d ↦ d.blue_green ]

unfoldable pub is_blue_green_child : Service → Bool
is_blue_green_child e = elim (blue_green_of e) [
  | none ↦ false
  | some b ↦ elim b.deployment_colour [ none ↦ false | some c ↦ true ]
]

unfoldable pub active_deployment_tag : Service → Option BlueGreenServiceSet
active_deployment_tag e = elim (blue_green_of e) [ none ↦ some unset | some b ↦ b.active ]

abbrev pub other_colour : BlueGreenServiceSet → BlueGreenServiceSet
other_colour blue = green
other_colour _ = blue

unfoldable pub inactive_deployment_tag : Service → Option BlueGreenServiceSet
inactive_deployment_tag e = elim (blue_green_of e) [
  | none ↦ some blue
  | some b ↦ elim b.active [ none ↦ none | some c ↦ some (other_colour c) ]
]

-- fmt.Sprintf("%s-%s", name, colour)
abbrev pub dashed : Text → BlueGreenServiceSet → Text
dashed name c = name ++ (b'-' ∷ colour_name c)

unfoldable pub active_deployment_name : Service → Option Text
unfolding is_blue_green_parent active_deployment_tag
active_deployment_name e =
    if not (is_blue_green_parent e)
    then some e.name
    else elim (active_deployment_tag e) [ none ↦ none | some c ↦ some (dashed e.name c) ]

unfoldable pub inactive_deployment_name : Service → Option Text
unfolding is_blue_green_parent inactive_deployment_tag
inactive_deployment_name e =
    if not (is_blue_green_parent e)
    then some []
    else elim (inactive_deployment_tag e) [ none ↦ none | some c ↦ some (dashed e.name c) ]

unfoldable pub is_active_blue_green : Service → Bool
is_active_blue_green e = elim (blue_green_of e) [ none ↦ false | some b ↦ b.active_flag ]

unfoldable pub is_tls_enabled : Service → Bool
unfolding has_external_url
is_tls_enabled e = e.ssl == codes "true" && has_external_url e

-- The first service of the name, as a copy.
unfoldable pub find_by_name : List Service → Text → Option Service
find_by_name [] name = none
find_by_name (s ∷ ss) name = if s.name == name then some s else find_by_name ss name
