-- ===== src/Tests/Services.antt =====
-- Blue/green services, their URLs, and volumes.
use mathlib.Core.List.{Permᴰ}
use environment_operator.Prelude.{
  none, pos, codes, ◌==◌, true, false, List, [], ◌∷◌, some, ok, ◌≡◌, ◌≢◌, refl, map,
}
use environment_operator.Prelude.Sort.{IsSorted}
use environment_operator.Bitesize.Types.{
  Service, Volume, HorizontalPodAutoscaler, BlueGreenServiceSet, blue, green,
}
use environment_operator.Bitesize.Zero.{no_volume, no_metric}
use environment_operator.Bitesize.Service.{
  active_deployment_name, inactive_deployment_name, is_active_blue_green, active_deployment_tag,
}
use environment_operator.Bitesize.BlueGreen.{copy_blue_green_service, child_copy}
use environment_operator.Bitesize.BlueGreen.Copies.{IsParent, deployment_names-copies}
use environment_operator.Bitesize.Volumes.{sort_volumes_by_vol_name}
use environment_operator.Bitesize.Volumes.Sorting.{sort_volumes_by_vol_name-total}
use environment_operator.Bitesize.Autoscaling.{
  too_many, valid_metric, valid_hpa, IsAllowed, IsTarget, valid_hpa-bounds,
}
use environment_operator.Tests.Data.{shop, shop_deployment, green_active}

shop-IsParent : IsParent shop shop_deployment green
shop-IsParent = record {
  settings = green_active;
  has_deployment = refl;
  has_method = refl;
  has_settings = refl;
  has_active = refl;
  is_set = λ e. cc;
}

shop_copied :
    (kind : BlueGreenServiceSet)
    → copy_blue_green_service shop kind ≡ some (child_copy shop shop_deployment green kind)
unfolding copy_blue_green_service active_deployment_tag
shop_copied kind = refl

abbrev shop_green : Service
shop_green = child_copy shop shop_deployment green green

abbrev shop_blue : Service
shop_blue = child_copy shop shop_deployment green blue

deployment_names-copies_example :
    (active_deployment_name shop ≡ some shop_green.name)
    × (inactive_deployment_name shop ≡ some shop_blue.name)
    × (shop_green.name ≢ shop_blue.name)
    × (is_active_blue_green shop_green ≡ true)
    × (is_active_blue_green shop_blue ≡ false)
deployment_names-copies_example =
    deployment_names-copies shop shop_deployment green shop-IsParent shop_green shop_blue
      (shop_copied green) (shop_copied blue)

abbrev two_volumes : List Volume
two_volumes = record no_volume { name = codes "b" } ∷ record no_volume { name = codes "a" } ∷ []

sort_volumes_by_vol_name-total_example :
    (r : List Volume) × (sort_volumes_by_vol_name two_volumes ≡ ok r)
    × IsSorted (λ (v : Volume). v.name) r
    × Permᴰ (map (λ (v : Volume). v.name) r) (codes "b" ∷ codes "a" ∷ [])
sort_volumes_by_vol_name-total_example = sort_volumes_by_vol_name-total two_volumes

abbrev scaled : HorizontalPodAutoscaler
scaled = record {
  min_replicas = pos 2;
  max_replicas = pos 10;
  metric = record no_metric { name = codes "cpu"; target_average_utilization = pos 80 };
}

scaled_valid : valid_hpa (pos 50) scaled ≡ none
unfolding valid_hpa valid_metric too_many ◌==◌
scaled_valid = refl

valid_hpa-bounds_example :
    IsAllowed (pos 50) (pos 2) × IsAllowed (pos 50) (pos 10) × IsTarget scaled.metric
valid_hpa-bounds_example = valid_hpa-bounds (pos 50) scaled scaled_valid
