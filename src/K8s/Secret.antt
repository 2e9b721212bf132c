-- ===== src/K8s/Secret.antt =====
-- pkg/util/k8s/secret.go: a secret exists when the listing has its name.
use environment_operator.Prelude.{
  Text, Bool, false, List, Option, none, some, Result, ok, err, if◌then◌else◌, exists, ◌==◌,
}
use environment_operator.K8s.Api.{Api, Resource}

module _ {S B : Type 0} (api : Api S (Resource B)) where
  -- A listing that fails is logged and taken for an empty one.
  unfoldable pub exists_secret : Text → S → Bool
  exists_secret name s = elim (api.items s) [
    | err _ ↦ false
    | ok secrets ↦ exists (λ (r : Resource B). r.name == name) secrets
  ]

  unfoldable pub update : Resource B → S → S × Option Text
  update r s = elim (api.get r.name s) [
    | err x ↦ (s, some x)
    | ok current ↦
        api.put
          (record {
            name = r.name;
            resource_version = current.resource_version;
            labels = r.labels;
            spec = r.spec;
          })
          s
  ]

  unfoldable pub create : Resource B → S → S × Option Text
  create r s = api.post r s

  unfoldable pub apply : Option (Resource B) → S → S × Option Text
  apply none s = (s, none)
  apply (some r) s = if exists_secret r.name s then update r s else create r s

  unfoldable pub list : S → Result (List (Resource B))
  list s = api.items s
