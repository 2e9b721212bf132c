-- ===== src/Bitesize/BlueGreen/Copies.antt =====
-- The two copies of a blue/green service, against the names and the tags of their parent.
use mathlib.Core.Path.{subst}
use mathlib.Core.List.{append_cancel_left}
use environment_operator.Prelude.{
  Text, sym, ◌∙◌, ◌==◌, true, false, ◌≡◌, ◌≢◌, refl, arith, ==_iff, some,
}
use environment_operator.Bitesize.Types.{
  BlueGreenServiceSet, unset, blue, green, Service, DeploymentSettings, BlueGreenSettings,
}
use environment_operator.Bitesize.Colour.{colour_name, same_colour}
use environment_operator.Bitesize.Service.{
  is_blue_green_parent, is_blue_green_child, is_active_blue_green, active_deployment_tag,
  inactive_deployment_tag, active_deployment_name, inactive_deployment_name, other_colour, dashed,
  bluegreen,
}
use environment_operator.Bitesize.BlueGreen.{copy_blue_green_service, child_copy}

-- A blue/green service as the configuration file gives it: its active colour is one of the two.
pub record IsParent (svc : Service) (d : DeploymentSettings) (c : BlueGreenServiceSet)
    : Type 0 where
  pub settings : BlueGreenSettings
  pub has_deployment : svc.deployment ≡ some d
  pub has_method : d.method ≡ bluegreen
  pub has_settings : d.blue_green ≡ some settings
  pub has_active : settings.active ≡ some c
  pub is_set : c ≢ unset

-- The name of a copy, and whether it is the active one.
pub record IsChild (svc : Service) (d : DeploymentSettings) (c kind : BlueGreenServiceSet)
    (s : Service) : Type 0 where
  pub name : s.name ≡ dashed svc.name kind
  pub is_active : is_active_blue_green s ≡ same_colour c kind

pub dashed_ne :
    (name : Text) (c : BlueGreenServiceSet)
    → c ≢ unset
    → dashed name c ≢ dashed name (other_colour c)
unfolding colour_name
dashed_ne name unset h e = h refl
dashed_ne name blue h e = cc (append_cancel_left name _ _ e)
dashed_ne name green h e = cc (append_cancel_left name _ _ e)

same_colour_refl : (c : BlueGreenServiceSet) → same_colour c c ≡ true
same_colour_refl c = ground arith

other_colour_ne : (c : BlueGreenServiceSet) → c ≢ unset → same_colour c (other_colour c) ≡ false
other_colour_ne c h = ground arith

module _ (svc : Service) (d : DeploymentSettings) (c : BlueGreenServiceSet)
    (p : IsParent svc d c) where
  pub active_deployment_tag-IsParent : active_deployment_tag svc ≡ some c
  unfolding active_deployment_tag
  active_deployment_tag-IsParent = rw (p.has_deployment, p.has_settings) p.has_active

  pub is_blue_green_parent-IsParent : is_blue_green_parent svc ≡ true
  unfolding is_blue_green_parent
  is_blue_green_parent-IsParent = rw p.has_deployment ((==_iff d.method bluegreen).1 p.has_method)

  pub inactive_deployment_tag-IsParent : inactive_deployment_tag svc ≡ some (other_colour c)
  unfolding inactive_deployment_tag
  inactive_deployment_tag-IsParent = rw (p.has_deployment, p.has_settings, p.has_active)

  copy-eq_child_copy :
      (kind : BlueGreenServiceSet)
      → copy_blue_green_service svc kind ≡ some (child_copy svc d c kind)
  unfolding copy_blue_green_service
  copy-eq_child_copy kind = ground (arith, active_deployment_tag-IsParent, p.has_deployment)

  child_copy-IsChild : (kind : BlueGreenServiceSet) → IsChild svc d c kind (child_copy svc d c kind)
  unfolding child_copy is_blue_green_child is_blue_green_parent is_active_blue_green ◌==◌
  child_copy-IsChild kind = record { name = refl; is_active = refl }

  pub deployment_names :
      (active_deployment_name svc ≡ some (dashed svc.name c))
      × (inactive_deployment_name svc ≡ some (dashed svc.name (other_colour c)))
  unfolding active_deployment_name inactive_deployment_name
  deployment_names = (
    rw (is_blue_green_parent-IsParent, active_deployment_tag-IsParent),
    rw (is_blue_green_parent-IsParent, inactive_deployment_tag-IsParent),
  )

  -- The name that traffic is sent to is the name of the copy of the active colour, the inactive
  -- deployment is the copy of the other colour, and the two have different names.
  pub deployment_names-copies :
      (active inactive : Service)
      → copy_blue_green_service svc c ≡ some active
      → copy_blue_green_service svc (other_colour c) ≡ some inactive
      → (active_deployment_name svc ≡ some active.name)
        × (inactive_deployment_name svc ≡ some inactive.name)
        × (active.name ≢ inactive.name)
        × (is_active_blue_green active ≡ true)
        × (is_active_blue_green inactive ≡ false)
  deployment_names-copies active inactive ea ei =
      let same_a : child_copy svc d c c ≡ active = cc (copy-eq_child_copy c) in
      let same_i : child_copy svc d c (other_colour c) ≡ inactive =
        cc (copy-eq_child_copy (other_colour c)) in
      let a = subst (IsChild svc d c c) same_a (child_copy-IsChild c) in
      let i =
        subst (IsChild svc d c (other_colour c)) same_i (child_copy-IsChild (other_colour c)) in
      let (active_is, inactive_is) = deployment_names in
      (
        cc (active_is, a.name),
        cc (inactive_is, i.name),
        (λ e. dashed_ne svc.name c p.is_set (sym a.name ∙ e ∙ i.name)),
        a.is_active ∙ same_colour_refl c,
        i.is_active ∙ other_colour_ne c p.is_set,
      )
