-- ===== src/K8s/StatefulSet.antt =====
-- pkg/util/k8s/statefulset.go: an update sends the stored object with only its replicas changed.
use environment_operator.Prelude.{
  Text, Bool, true, false, List, Option, none, some, Result, ok, err, if◌then◌else◌, ℤ,
}
use environment_operator.K8s.Api.{Api, Resource, unset}

pub record Spec (B : Type 0) : Type 0 where
  pub replicas : Option ℤ
  pub body : B

module _ {S B : Type 0} (api : Api S (Resource (Spec B))) where
  unfoldable pub exist : Text → S → Bool
  exist name s = elim (api.get name s) [ ok _ ↦ true | err _ ↦ false ]

  unfoldable pub update : Resource (Spec B) → S → S × Option Text
  update r s = elim (api.get r.name s) [
    | err x ↦ (s, some x)
    | ok current ↦
        api.put
          (record {
            name = current.name;
            resource_version = current.resource_version;
            labels = current.labels;
            spec = record { replicas = r.spec.replicas; body = current.spec.body };
          })
          s
  ]

  unfoldable pub create : Resource (Spec B) → S → S × Option Text
  create r s = api.post r s

  unfoldable pub apply : Option (Resource (Spec B)) → S → S × Option Text
  apply none s = (s, none)
  apply (some r) s = if exist r.name s then update r s else create r s

  unfoldable pub destroy : Text → S → S × Option Text
  destroy name s = api.remove unset name s

  unfoldable pub list : S → Result (List (Resource (Spec B)))
  list s = api.items s
