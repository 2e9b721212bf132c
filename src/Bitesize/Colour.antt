-- ===== src/Bitesize/Colour.antt =====
-- The colour tables of pkg/bitesize/bluegreen.go.
use environment_operator.Prelude.{
  Text, codes, ◌==◌, Bool, true, false, [], ◌≡◌, ◌≢◌, refl, arith, ==_iff, if◌then◌else◌,
}
use environment_operator.Bitesize.Types.{BlueGreenServiceSet, unset, blue, green}

abbrev pub blue_name : Text
blue_name = codes "blue"

abbrev pub green_name : Text
green_name = codes "green"

-- bgToString[e], the empty string for a value that the map lacks
unfoldable pub colour_name : BlueGreenServiceSet → Text
colour_name unset = []
colour_name blue = blue_name
colour_name green = green_name

-- bgToID[name], zero for a name that the map lacks
unfoldable pub blue_green_deployment_id : Text → BlueGreenServiceSet
blue_green_deployment_id name =
    if name == blue_name then blue else if name == green_name then green else unset

abbrev pub same_colour : BlueGreenServiceSet → BlueGreenServiceSet → Bool
same_colour unset unset = true
same_colour blue blue = true
same_colour green green = true
same_colour _ _ = false

-- Every colour, the unset one included, is read back from its name.
blue_green_deployment_id-colour_name :
    (c : BlueGreenServiceSet) → blue_green_deployment_id (colour_name c) ≡ c
unfolding blue_green_deployment_id colour_name ◌==◌
blue_green_deployment_id-colour_name unset = refl
blue_green_deployment_id-colour_name blue = refl
blue_green_deployment_id-colour_name green = refl

-- A name that is read as a colour is the name of that colour.
colour_name-blue_green_deployment_id :
    (s : Text) → blue_green_deployment_id s ≢ unset → colour_name (blue_green_deployment_id s) ≡ s
unfolding blue_green_deployment_id colour_name
colour_name-blue_green_deployment_id s h = ground (arith, ==_iff s blue_name, ==_iff s green_name)

pub same_colour_iff : (c d : BlueGreenServiceSet) → same_colour c d ≡ true → c ≡ d
same_colour_iff c d h = ground arith
