-- ===== src/Translator/Environments/Plain.antt =====
-- A plain service whose objects were made by the translator and are listed by the cluster.
use mathlib.Core.Path.{subst}
use environment_operator.Prelude.{Text, ◌==◌, List, ◌∷◌, All, none, some, ok, ℤ, ◌≡◌, refl}
use environment_operator.Prelude.Sort.{IsDistinct}
use environment_operator.Prelude.Numbers.{IsInt32}
use environment_operator.Bitesize.Service.{is_blue_green_parent, deployment_method}
use environment_operator.Cluster.Scrape.Objects.{KubeEnvVar}
use environment_operator.Diff.Tools.{Tools, ToolsLaws}
use environment_operator.Diff.Align.Laws.{key_of}
use environment_operator.Translator.Objects.{Process, Cluster, DeploymentObject, ServiceObject}
use environment_operator.Translator.Containers.{kube_env_vars}
use environment_operator.Translator.Deployments.{deployment_of, deployment_object}
use environment_operator.Translator.Services.{service_object}
use environment_operator.Translator.Deployed.{IsHeld, seen, deployment_object-built}
use environment_operator.Translator.Settled.{Core, plain, seen_service, made_service, service_made}
use environment_operator.Translator.Resting.{last, listed_deployment, both_read, last-Agrees}
use environment_operator.Translator.Environments.{Member}
use environment_operator.Translator.Environments.Reads.{IsAtRest}

module _ (t : Tools) (p : Process) (cl : Cluster) (namespace zero : Text) where
  abbrev pub plain_member : Core → ServiceObject → Text → ℤ → DeploymentObject → Member
  plain_member c o created n d = record {
    desired = plain c;
    of_service = seen_service o;
    of_deployment = seen created n d;
    of_hpa = none;
    of_ingress = none;
  }

  plain_built :
      (c : Core) (created : Text) (n : ℤ) (mounts : List (Text × Text)) (env : List KubeEnvVar)
      → ToolsLaws t
      → IsHeld cl (plain c)
      → All IsInt32 (c.port ∷ c.ports)
      → IsDistinct key_of c.annotations
      → kube_env_vars p cl (plain c) ≡ ok env
      → IsAtRest t namespace zero (record {
        desired = plain c;
        of_service = seen_service (made_service namespace c);
        of_deployment = listed_deployment p cl namespace zero created n c mounts env;
        of_hpa = none;
        of_ingress = none;
      })
  unfolding is_blue_green_parent deployment_method deployment_of ◌==◌
  plain_built c created n mounts env laws h k distinct e = record {
    named = record { of_service = refl; of_deployment = refl; of_hpa = tt; of_ingress = tt };
    single = refl;
    deployment_readable = tt;
    hpa_readable = tt;
    ingress_readable = tt;
    entry = last p cl namespace zero created n c mounts env;
    read = both_read p cl namespace zero created n c mounts env;
    agrees = last-Agrees p cl namespace zero created n c mounts env t laws h k e distinct;
  }

  pub plain-IsAtRest :
      (c : Core) (created : Text) (n : ℤ) (o : ServiceObject) (d : DeploymentObject)
      → ToolsLaws t
      → IsHeld cl (plain c)
      → All IsInt32 (c.port ∷ c.ports)
      → IsDistinct key_of c.annotations
      → service_object namespace (plain c) ≡ some o
      → deployment_object p cl namespace (plain c) ≡ ok (some d)
      → IsAtRest t namespace zero (plain_member c o created n d)
  plain-IsAtRest c created n o d laws h k distinct served made =
      let (mounts, env, e, same) = deployment_object-built p cl namespace (plain c) d made in
      let same_service : made_service namespace c ≡ o = cc (service_made namespace c, served) in
      subst (λ x. IsAtRest t namespace zero (plain_member c x created n d)) same_service
        (subst
          (λ x. IsAtRest t namespace zero (plain_member c (made_service namespace c) created n x))
          same (plain_built c created n mounts env laws h k distinct e))
