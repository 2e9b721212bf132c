-- ===== src/Cluster/Apply/Deploys.antt =====
-- Which services `ApplyIfChanged` applies, on the trace of their names.
use environment_operator.Prelude.{
  Text, Bool, true, false, List, [], ◌∷◌, Option, none, some, Result, ok, ◌≡◌, refl, sym, arith,
  if◌then◌else◌, All, Any, Bool-cases, Option-cases, inl, inr,
}
use mathlib.Core.Path.{subst}
use environment_operator.Prelude.Sort.{IsDistinct}
use environment_operator.Bitesize.Types.{Service}
use environment_operator.Bitesize.Gists.{Gist, Environment}
use environment_operator.Diff.Tools.{Tools, ToolsLaws}
use environment_operator.Diff.Compare.{Changes, service_changed, Outcome, compare}
use environment_operator.Diff.Compare.Runs.{managed, changed-managed}
use environment_operator.Diff.Compare.Converged.{Agrees, compare-converged}
use environment_operator.Cluster.Apply.Steps.{round_skips, round_panics, round_applies}
use environment_operator.Cluster.Apply.{
  should_deploy_on_change, with_version, apply_services, apply_environment, apply_if_changed,
}

-- The cluster as the list of the names that were applied, and any errors.
abbrev pub traced :
    (Service → Option Text) → Service → List Gist → Text → List Text → List Text × Option Text
traced errors svc gists namespace trace = (svc.name ∷ trace, errors svc)

abbrev pub AllTraced {ℓ} : (Text → Type ℓ) → Option (List Text × Option Text) → Type ℓ
AllTraced P none = Unit
AllTraced P (some (trace, e)) = All P trace

should_deploy-changed :
    (changes : Changes) (current new : List Service) (name : Text)
    → should_deploy_on_change changes current new name ≡ true
    → service_changed changes name ≡ true
unfolding should_deploy_on_change
should_deploy-changed changes current new name h = ground arith

with_version-name :
    (current : List Service) (svc svc' : Service)
    → with_version current svc ≡ some svc'
    → svc'.name ≡ svc.name
unfolding with_version
with_version-name current svc svc' h = ground arith

module _ (errors : Service → Option Text) (changes : Changes) (current : List Service)
    (new : Environment) where
  abbrev Changed : Text → Type 0
  Changed n = service_changed changes n ≡ true

  apply_services-Changed :
      (ss : List Service) (trace : List Text) (e : Option Text)
      → All Changed trace
      → AllTraced Changed (apply_services (traced errors) changes current new ss trace e)
  apply_services-Changed [] trace e h = unfold apply_services in h
  apply_services-Changed (svc ∷ rest) trace e h =
      elim (Bool-cases (should_deploy_on_change changes current new.services svc.name)) [
        | inr n ↦
            subst (AllTraced Changed)
              (sym (round_skips (traced errors) changes current new svc rest trace e n))
              (apply_services-Changed rest trace e h)
        | inl y ↦ elim (Option-cases (with_version current svc)) [
          | inl w ↦
              subst (AllTraced Changed)
                (sym (round_panics (traced errors) changes current new svc rest trace e y w)) tt
          | inr (svc', w) ↦
              let changed : Changed svc'.name =
                rw (with_version-name current svc svc' w)
                  (should_deploy-changed changes current new.services svc.name y) in
              subst (AllTraced Changed)
                (sym (round_applies (traced errors) changes current new svc rest trace e svc' y w))
                (apply_services-Changed rest (svc'.name ∷ trace) (errors svc') (changed, h))
        ]
      ]

AllTraced-imp :
    {P Q : Text → Type 0} (o : Option (List Text × Option Text))
    → ((n : Text) → P n → Q n)
    → AllTraced P o
    → AllTraced Q o
AllTraced-imp none f h = tt
AllTraced-imp {P} {Q} (some (trace, e)) f h = go trace h
  where
    go : (ns : List Text) → All P ns → All Q ns
    go [] h = tt
    go (n ∷ ns) h = (f n h.0, go ns h.1)

-- On a cluster that can be read and that records the names of the services it is asked to apply,
-- `ApplyIfChanged` either panics or applies only services that the configuration names and that are
-- managed: it never applies a name that only the active child of a blue/green service has.
pub apply_if_changed-managed :
    (errors : Service → Option Text) (t : Tools) (current : List Service) (new : Environment)
    → AllTraced
        (λ n. Any (λ d. (d.name ≡ n) × (managed d ≡ true)) new.services)
        (apply_if_changed (traced errors) t (λ namespace trace. ok current) (some new) [])
unfolding apply_if_changed
apply_if_changed-managed errors t current new =
    outcome (compare t new.namespace new.services current) refl
  where
    Managed : Text → Type 0
    Managed n = Any (λ d. (d.name ≡ n) × (managed d ≡ true)) new.services

    applied :
        (o : Outcome) (b : Bool)
        → compare t new.namespace new.services current ≡ some (o, b)
        → AllTraced Managed (
            if b
            then apply_environment
                (traced errors)
                o.changes
                o.existing
                (record new { services = o.desired })
                []
            else some ([], none))
    applied o false h = tt
    applied o true h =
        AllTraced-imp _ (λ n c. changed-managed t new.namespace n new.services current o true h c)
          (unfold apply_environment in
            apply_services-Changed errors o.changes o.existing (record new { services = o.desired })
              o.desired [] none tt)

    outcome :
        (r : Option (Outcome × Bool))
        → compare t new.namespace new.services current ≡ r
        → AllTraced Managed (elim r [
          | none ↦ none
          | some (o, changed) ↦
              if changed
              then apply_environment
                  (traced errors)
                  o.changes
                  o.existing
                  (record new { services = o.desired })
                  []
              else some ([], none)
        ])
    outcome none h = tt
    outcome (some (o, b)) h = applied o b h

-- Once the cluster can be read and agrees with the configuration, whose services have distinct names,
-- `ApplyIfChanged` leaves the cluster as it is and returns no error, whatever applying a service would
-- do. A value has no difference to itself.
pub apply_if_changed-converged :
    {S : Type 0} (apply_service : Service → List Gist → Text → S → S × Option Text) (t : Tools)
    (laws : ToolsLaws t) (scrape : Text → S → Result (List Service)) (new : Environment) (s : S)
    (current : List Service)
    → scrape new.namespace s ≡ ok current
    → IsDistinct (λ (d : Service). d.name) new.services
    → All (Agrees t new.namespace current) new.services
    → apply_if_changed apply_service t scrape (some new) s ≡ some (s, none)
unfolding apply_if_changed
apply_if_changed-converged apply_service t laws scrape new s current hs distinct agrees =
    let (o, eo, _) = compare-converged t new.namespace laws new.services current distinct agrees in
    rw (hs, apply_if_changed, eo)
