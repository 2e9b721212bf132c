-- ===== src/Web/Deploys.antt =====
-- What a request to deploy applies.
use environment_operator.Prelude.{
  Text, ◌==◌, ==_iff, Bool, true, false, List, [], ◌∷◌, Option, some, Result, ok, ◌≡◌, ◌≢◌, refl,
  ap, sym, ◌∙◌, if◌then◌else◌,
}
use environment_operator.Bitesize.Types.{Service, DeploymentSettings, BlueGreenServiceSet}
use environment_operator.Bitesize.Service.{
  is_blue_green_parent, active_deployment_name, inactive_deployment_name, find_by_name,
  other_colour, dashed,
}
use environment_operator.Bitesize.Gists.{Gist, find_by_type, type_configmap}
use environment_operator.Bitesize.BlueGreen.Copies.{
  IsParent, dashed_ne, deployment_names, is_blue_green_parent-IsParent,
}
use environment_operator.Web.{
  DeployRequest, Loaded, load_service, load_config_maps, applied, deploy_as, choose,
  with_config_maps, with_service, post_deploy,
}

name-find_by_name :
    (ss : List Service) (name : Text) (s : Service) → find_by_name ss name ≡ some s → s.name ≡ name
unfolding find_by_name
name-find_by_name [] name s h = cc
name-find_by_name (x ∷ xs) name s h =
    taken (x.name == name) (find_by_name xs name) ((==_iff x.name name).0)
      (name-find_by_name xs name s) h
  where
    taken :
        (b : Bool) (rest : Option Service)
        → (b ≡ true → x.name ≡ name)
        → (rest ≡ some s → s.name ≡ name)
        → (if b then some x else rest) ≡ some s
        → s.name ≡ name
    taken true rest same later e =
        let it : x ≡ s = cc in ap (λ (y : Service). y.name) (sym it) ∙ same refl
    taken false rest same later e = later e

module _ {S : Type 0} (load : S → S × Result Loaded)
    (apply : Service → List Gist → S → S × Option Text) (e : Loaded)
    (steady : (s : S) → (load s).1 ≡ ok e) where
  found_service :
      (name : Text) (svc : Service) (s : S)
      → find_by_name e.services name ≡ some svc
      → load_service load (some apply) name s ≡ ((load s).0, ok svc)
  unfolding load_service
  found_service name svc s h = rw (steady s, h) refl

  found_config_maps :
      (s : S)
      → load_config_maps load (some apply) s
        ≡ ((load s).0, ok (find_by_type e.gists type_configmap))
  unfolding load_config_maps
  found_config_maps s = rw (steady s) refl

  chosen :
      (d : DeployRequest) (svc child : Service) (name : Text) (gists : List Gist) (s : S)
      → is_blue_green_parent svc ≡ true
      → inactive_deployment_name svc ≡ some name
      → find_by_name e.services name ≡ some child
      → choose load (some apply) d svc gists s
        ≡ some (
            applied load (some apply) (
              apply
                (record child { version = d.version; application = d.application })
                gists
                (load s).0))
  unfolding choose deploy_as
  chosen d svc child name gists s parent named h =
      rw (parent, named, choose)
        (ap (λ (r : S × Result Service). deploy_as load (some apply) d gists r)
          (found_service name child s h))

  -- The configuration loads the same environment whenever it is read. A request to deploy a
  -- blue/green service, where the client of the cluster is made, then applies, after reading it three
  -- times, the copy of the inactive colour,
  -- with the version and the application of the request, and that copy is not the one that the
  -- traffic goes to.
  pub post_deploy-inactive :
      (d : DeployRequest) (svc child : Service) (settings : DeploymentSettings)
      (c : BlueGreenServiceSet) (s : S)
      → IsParent svc settings c
      → find_by_name e.services d.name ≡ some svc
      → find_by_name e.services (dashed svc.name (other_colour c)) ≡ some child
      → (post_deploy load (some apply) (ok (some d)) s
          ≡ some (
              applied load (some apply) (
                apply
                  (record child { version = d.version; application = d.application })
                  (find_by_type e.gists type_configmap)
                  (load (load (load s).0).0).0)))
        × (active_deployment_name svc ≢ some child.name)
  unfolding post_deploy with_service with_config_maps
  post_deploy-inactive d svc child settings c s parent here there =
      let names = deployment_names svc settings c parent in
      let child_name : child.name ≡ dashed svc.name (other_colour c) =
        name-find_by_name e.services (dashed svc.name (other_colour c)) child there in
      (
        ap (λ (r : S × Result Service). with_service load (some apply) d r)
              (found_service d.name svc s here)
            ∙ ap (λ (r : S × Result (List Gist)). with_config_maps load (some apply) d svc r)
                (found_config_maps (load s).0)
            ∙ chosen d svc child (dashed svc.name (other_colour c))
                (find_by_type e.gists type_configmap) (load (load s).0).0
                (is_blue_green_parent-IsParent svc settings c parent) names.1 there,
        λ h. dashed_ne svc.name c parent.is_set (cc (h, names.0, child_name)),
      )
