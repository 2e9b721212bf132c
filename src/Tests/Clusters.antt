-- ===== src/Tests/Clusters.antt =====
-- Applying small environments.
use environment_operator.Prelude.{
  Text, codes, true, false, List, [], ◌∷◌, Option, none, some, Result, ok, err, ◌≡◌, refl, Any,
}
use environment_operator.Bitesize.Types.{Service}
use environment_operator.Bitesize.Service.{has_external_url}
use environment_operator.Diff.Compare.{Changes}
use environment_operator.Diff.Compare.Runs.{managed}
use environment_operator.Cluster.Deploy.{
  Kind, claim, Mapped, Clients, returned, apply_each, workload_step, apply_untyped, apply_service,
}
use environment_operator.Cluster.Deploy.Errors.{storage_error, apply_service-untyped_error}
use environment_operator.Cluster.Apply.{apply_if_changed}
use environment_operator.Cluster.Apply.Deploys.{
  traced, AllTraced, apply_if_changed-managed, apply_if_changed-converged,
}
use environment_operator.Tests.Data.{web, running, environment, tools, tools_laws}
use environment_operator.Tests.Comparisons.{web-Agrees}

abbrev no_errors : Service → Option Text
no_errors svc = none

apply_if_changed-managed_example :
    AllTraced
      (λ n. Any (λ d. (d.name ≡ n) × (managed d ≡ true)) (web ∷ []))
      (apply_if_changed
        (traced no_errors)
        tools
        (λ namespace trace. ok [])
        (some (environment (web ∷ [])))
        [])
apply_if_changed-managed_example =
    apply_if_changed-managed no_errors tools [] (environment (web ∷ []))

apply_if_changed-converged_example :
    apply_if_changed
      (traced no_errors)
      tools
      (λ namespace trace. ok (running ∷ []))
      (some (environment (web ∷ [])))
      []
    ≡ some ([], none)
apply_if_changed-converged_example =
    apply_if_changed-converged (traced no_errors) tools tools_laws
      (λ namespace trace. ok (running ∷ [])) (environment (web ∷ [])) [] (running ∷ []) refl
      (tt, tt) (web-Agrees, tt)

abbrev shop_changes : Changes
shop_changes = (codes "shop", codes "+") ∷ []

-- Objects are names; the clients fail on every deployment and custom resource.
abbrev mapped : Result Text → Mapped Text
mapped d = record {
  claims = codes "data" ∷ [];
  config_maps = [];
  deployment = d;
  service = codes "service";
  hpa = codes "hpa";
  ingress = codes "ingress";
  external_secret = err [];
  gateway = codes "gateway";
  virtual_service = codes "virtual";
  custom = codes "custom";
  mesh_secret = err [];
}

abbrev failure : Kind → Option Text
failure claim = none
failure _ = some (codes "refused")

abbrev failing : Clients Text (List Text)
failing = record {
  apply = λ k o s. (o ∷ s, failure k);
  crd_client = λ k s. none;
  external_secrets_enabled = false;
}

abbrev applied : List Text
applied = codes "hpa" ∷ codes "service" ∷ codes "web" ∷ codes "data" ∷ []

untyped_run : apply_service failing web (mapped (ok (codes "web"))) [] ≡ returned applied none
unfolding apply_service apply_untyped apply_each workload_step has_external_url
untyped_run = refl

apply_service-untyped_error_example : none ≡ storage_error failing (mapped (ok (codes "web"))) []
apply_service-untyped_error_example =
    apply_service-untyped_error failing web (mapped (ok (codes "web"))) (codes "web") [] applied
      none refl refl untyped_run
