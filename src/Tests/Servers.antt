-- ===== src/Tests/Servers.antt =====
-- The clients on a server that keeps what it is sent, in a map by name.
use environment_operator.Prelude.{
  Text, TextMap, codes, ◌==◌, true, [], ◌∷◌, Option, none, some, Result, ok, err, lookup, insert,
  ◌≡◌, ◌⊎◌, refl, map,
}
use mathlib.Core.Path.{subst}
use environment_operator.K8s.Api.{Api, Resource}
use environment_operator.K8s.Deployment
use environment_operator.K8s.Deployment.Laws.{has_image, IsWhole, apply-IsWhole}

abbrev Server : Type 0 → Type 0
Server Spec = TextMap (Resource Spec)

abbrev answer : {Spec : Type 0} → Option (Resource Spec) → Result (Resource Spec)
answer none = err (codes "not found")
answer (some r) = ok r

abbrev api : {Spec : Type 0} → Api (Server Spec) (Resource Spec)
api = record {
  get = λ name s. answer (lookup name s);
  post = λ r s. (insert r.name r s, none);
  put = λ r s. (insert r.name r s, none);
  remove = λ policy name s. (s, none);
  items = λ s. ok (map (λ e. e.1) s);
}

abbrev resource : {Spec : Type 0} → TextMap Text → Spec → Resource Spec
resource labels spec = record {
  name = codes "web";
  resource_version = codes "7";
  labels = labels;
  spec = spec;
}

abbrev stored_deployment : Resource (Deployment.Spec Unit)
stored_deployment =
    resource ((codes "version", codes "1") ∷ []) (record { images = codes "web:1" ∷ []; body = tt })

abbrev new_deployment : Resource (Deployment.Spec Unit)
new_deployment = resource [] (record { images = [] ∷ []; body = tt })

abbrev one : {Spec : Type 0} → Resource Spec → Server Spec
one r = (codes "web", r) ∷ []

found : {Spec : Type 0} (r : Resource Spec) → answer (lookup (codes "web") (one r)) ≡ ok r
unfolding lookup ◌==◌
found r = refl

had_image :
    (current : Resource (Deployment.Spec Unit))
    → answer (lookup (codes "web") (one stored_deployment)) ≡ ok current
    → has_image current.spec.images ≡ true
had_image current e =
    let same : stored_deployment ≡ current = cc (found stored_deployment, e) in
    subst (λ (r : Resource (Deployment.Spec Unit)). has_image r.spec.images ≡ true) same refl

apply-IsWhole_example :
    ((x : Text) × (Deployment.apply api (some new_deployment) (one stored_deployment)
        ≡ (one stored_deployment, some x)))
    ⊎ ((q : Resource (Deployment.Spec Unit)) × IsWhole api new_deployment (one stored_deployment) q
        × ((Deployment.apply api (some new_deployment) (one stored_deployment)
              ≡ api.put q (one stored_deployment))
            ⊎ (Deployment.apply api (some new_deployment) (one stored_deployment)
                ≡ api.post q (one stored_deployment))))
apply-IsWhole_example = apply-IsWhole api new_deployment (one stored_deployment) refl had_image
