-- ===== src/Diff/Compare/Cleared.antt =====
-- What the comparison does to the blue/green settings of the services that it aligns.
use environment_operator.Prelude.{Text, codes, ==_iff, ◌++◌, some, ◌≡◌, refl, ap, ◌∙◌, arith}
use environment_operator.Bitesize.Types.{Service, DeploymentSettings}
use environment_operator.Bitesize.Colour.{colour_name}
use environment_operator.Bitesize.Service.{
  deployment_method, bluegreen, is_blue_green_parent, active_deployment_tag, active_deployment_name,
}
use environment_operator.Diff.Tools.{Tools}
use environment_operator.Diff.Align.{align_desired, clear_blue_green}
use environment_operator.Diff.Compare.{share_desired}

module _ (t : Tools) (namespace : Text) (e d : Service) where
  shared_deployment :
      (share_desired t namespace (some e) d).deployment ≡ clear_blue_green d.deployment
  unfolding share_desired align_desired
  shared_deployment = refl

  shared_name : (share_desired t namespace (some e) d).name ≡ d.name
  unfolding share_desired
  shared_name = refl

cleared_name :
    (s : Service) (x : DeploymentSettings)
    → s.deployment ≡ clear_blue_green (some x)
    → x.method ≡ bluegreen
    → active_deployment_name s ≡ some (s.name ++ codes "-")
unfolding active_deployment_name is_blue_green_parent active_deployment_tag clear_blue_green
    colour_name deployment_method
cleared_name s x h m = ground (arith, h, (==_iff x.method bluegreen).1 m)

-- A blue/green service that the comparison aligns with the deployed one comes out with no active
-- colour: the name of its active deployment is its own name and a dash.
pub share_desired-active_name :
    (t : Tools) (namespace : Text) (e d : Service) (x : DeploymentSettings)
    → d.deployment ≡ some x
    → x.method ≡ bluegreen
    → active_deployment_name (share_desired t namespace (some e) d) ≡ some (d.name ++ codes "-")
share_desired-active_name t namespace e d x h m =
    cleared_name (share_desired t namespace (some e) d) x
      (shared_deployment t namespace e d ∙ ap clear_blue_green h) m
    ∙ ap (λ n. some (n ++ codes "-")) (shared_name t namespace e d)
