-- ===== src/Translator/Environments/Routed.antt =====
-- A service with external URLs whose objects were made by the translator and are listed by the cluster.
use mathlib.Core.Path.{subst}
use environment_operator.Prelude.{
  Text, ◌==◌, false, List, ◌∷◌, All, none, some, ok, ℤ, ◌≡◌, refl, sym, ◌∙◌,
}
use environment_operator.Prelude.Sort.{IsDistinct}
use environment_operator.Prelude.Numbers.{IsInt32}
use environment_operator.Bitesize.Service.{is_blue_green_parent, deployment_method}
use environment_operator.Cluster.Scrape.Objects.{KubeEnvVar}
use environment_operator.Diff.Tools.{Tools, ToolsLaws}
use environment_operator.Diff.Align.Laws.{key_of}
use environment_operator.Diff.Compare.{secret_missing}
use environment_operator.Translator.Objects.{
  Process, Cluster, DeploymentObject, ServiceObject, IngressObject,
}
use environment_operator.Translator.Containers.{kube_env_vars}
use environment_operator.Translator.Deployments.{deployment_of, deployment_object}
use environment_operator.Translator.Ingresses.{ingress_object}
use environment_operator.Translator.Services.{service_object}
use environment_operator.Translator.Deployed.{IsHeld, seen, deployment_object-built}
use environment_operator.Translator.Settled.{Core, plain, seen_service, made_service, service_made}
use environment_operator.Translator.Resting.{listed_deployment}
use environment_operator.Translator.Environments.{Member}
use environment_operator.Translator.Environments.Reads.{IsAtRest}
use environment_operator.Translator.Routed.{
  IsRouted, seen_ingress, made_ingress, ingress_object-made,
}
use environment_operator.Translator.Resting.Routes.{
  Route, routed, routed-deployment, routed-service,
}
use environment_operator.Translator.Resting.Exposed.{
  exposed_entry, route_ingress, all_read, exposed-Agrees,
}

module _ (t : Tools) (p : Process) (cl : Cluster) (namespace zero : Text) where
  abbrev pub routed_member :
      Core → Route → ServiceObject → IngressObject → Text → ℤ → DeploymentObject → Member
  routed_member c r o i created n d = record {
    desired = routed c r;
    of_service = seen_service o;
    of_deployment = seen created n d;
    of_hpa = none;
    of_ingress = some (seen_ingress i);
  }

  routed_built :
      (c : Core) (r : Route) (created : Text) (n : ℤ) (mounts : List (Text × Text))
      (env : List KubeEnvVar)
      → ToolsLaws t
      → IsHeld cl (routed c r)
      → All IsInt32 (c.port ∷ c.ports)
      → IsDistinct key_of c.annotations
      → IsRouted (routed c r) c.port
      → secret_missing t namespace (routed c r) ≡ false
      → kube_env_vars p cl (plain c) ≡ ok env
      → IsAtRest t namespace zero (record {
        desired = routed c r;
        of_service = seen_service (made_service namespace c);
        of_deployment = listed_deployment p cl namespace zero created n c mounts env;
        of_hpa = none;
        of_ingress =
            some (seen_ingress (route_ingress p cl namespace zero created n c r mounts env));
      })
  unfolding is_blue_green_parent deployment_method deployment_of made_ingress ◌==◌
  routed_built c r created n mounts env laws h k distinct a secret e = record {
    named = record { of_service = refl; of_deployment = refl; of_hpa = tt; of_ingress = refl };
    single = refl;
    deployment_readable = tt;
    hpa_readable = tt;
    ingress_readable = (tt, tt);
    entry = exposed_entry p cl namespace zero created n c r mounts env;
    read = all_read p cl namespace zero created n c r mounts env;
    agrees =
        exposed-Agrees p cl namespace zero created n c r mounts env t laws h k e a distinct secret;
  }

  pub routed-IsAtRest :
      (c : Core) (r : Route) (created : Text) (n : ℤ) (o : ServiceObject) (i : IngressObject)
      (d : DeploymentObject)
      → ToolsLaws t
      → IsHeld cl (routed c r)
      → All IsInt32 (c.port ∷ c.ports)
      → IsDistinct key_of c.annotations
      → IsRouted (routed c r) c.port
      → secret_missing t namespace (routed c r) ≡ false
      → service_object namespace (routed c r) ≡ some o
      → ingress_object namespace (routed c r) ≡ some i
      → deployment_object p cl namespace (routed c r) ≡ ok (some d)
      → IsAtRest t namespace zero (routed_member c r o i created n d)
  routed-IsAtRest c r created n o i d laws h k distinct a secret served exposed made =
      let (mounts, env, e, same) =
        deployment_object-built p cl namespace (plain c) d
          (sym (routed-deployment p cl namespace c r) ∙ made) in
      let same_service : made_service namespace c ≡ o =
        cc (service_made namespace c, served, routed-service namespace c r) in
      let same_ingress : made_ingress namespace (routed c r) c.port ≡ i =
        cc (ingress_object-made namespace (routed c r) c.port c.ports refl, exposed) in
      subst (λ x. IsAtRest t namespace zero (routed_member c r x i created n d)) same_service
        (subst
          (λ x.
            IsAtRest t namespace zero (routed_member c r (made_service namespace c) x created n d))
          same_ingress
          (subst
            (λ x. IsAtRest t namespace zero (
              routed_member c r (made_service namespace c)
                (made_ingress namespace (routed c r) c.port) created n x))
            same (routed_built c r created n mounts env laws h k distinct a secret e)))
