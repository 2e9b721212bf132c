-- ===== src/Bitesize/Volumes.antt =====
-- The volume methods of pkg/bitesize/service.go, and the sorting of volumes by name of
-- pkg/bitesize/environment.go.
pub mod Sorting
use environment_operator.Prelude.{
  Text, codes, to_lower, ◌==◌, Bool, List, [], ◌∷◌, map, Result, ok, err, ◌>>=◌, if◌then◌else◌,
}
use environment_operator.Prelude.Sort.{sort_by}
use environment_operator.Bitesize.Types.{Volume}

unfoldable pub has_manual_provisioning : Volume → Bool
has_manual_provisioning v = v.provisioning == codes "manual"

unfoldable pub is_secret_volume : Volume → Bool
is_secret_volume v = to_lower v.type == codes "secret"

unfoldable pub is_config_map_volume : Volume → Bool
is_config_map_volume v = to_lower v.type == codes "configmap"

unfoldable pub find_vol_by_name : List Volume → Text → Result Volume
find_vol_by_name [] name = err (codes "'Name' not found in any volume field")
find_vol_by_name (v ∷ vs) name = if v.name == name then ok v else find_vol_by_name vs name

-- The volumes of the names in turn; the first failure ends the loop.
unfoldable pub pick_volumes : List Volume → List Text → Result (List Volume)
unfolding find_vol_by_name
pick_volumes vs [] = ok []
pick_volumes vs (k ∷ ks) = do v ← find_vol_by_name vs k; rest ← pick_volumes vs ks; ok (v ∷ rest)

unfoldable pub sort_volumes_by_vol_name : List Volume → Result (List Volume)
sort_volumes_by_vol_name vs = pick_volumes vs (sort_by (λ k. k) (map (λ v. v.name) vs))
