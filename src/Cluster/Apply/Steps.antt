-- ===== src/Cluster/Apply/Steps.antt =====
-- The three ways a round of `ApplyEnvironment` goes.
use environment_operator.Prelude.{Text, true, false, List, ◌∷◌, Option, none, some, ◌≡◌}
use environment_operator.Bitesize.Types.{Service}
use environment_operator.Bitesize.Gists.{Gist, Environment}
use environment_operator.Diff.Compare.{Changes}
use environment_operator.Cluster.Apply.{
  should_deploy_on_change, with_version, service_gists, apply_services,
}

module _ {S : Type 0} (apply_service : Service → List Gist → Text → S → S × Option Text)
    (changes : Changes) (current : List Service) (new : Environment) (svc : Service)
    (rest : List Service) (s : S) (e : Option Text) where
  pub round_skips :
      should_deploy_on_change changes current new.services svc.name ≡ false
      → apply_services apply_service changes current new (svc ∷ rest) s e
        ≡ apply_services apply_service changes current new rest s e
  unfolding apply_services
  round_skips h = rw (h, apply_services)

  pub round_panics :
      should_deploy_on_change changes current new.services svc.name ≡ true
      → with_version current svc ≡ none
      → apply_services apply_service changes current new (svc ∷ rest) s e ≡ none
  unfolding apply_services
  round_panics h w = rw (h, apply_services, w)

  pub round_applies :
      (svc' : Service)
      → should_deploy_on_change changes current new.services svc.name ≡ true
      → with_version current svc ≡ some svc'
      → apply_services apply_service changes current new (svc ∷ rest) s e ≡ (
          let (s', e') = apply_service svc' (service_gists new.gists svc) new.namespace s in
          apply_services apply_service changes current new rest s' e')
  unfolding apply_services
  round_applies svc' h w = rw (h, apply_services, w)
