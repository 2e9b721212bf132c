-- ===== src/K8s/HorizontalPodAutoscaler.antt =====
-- pkg/util/k8s/horizontal_pod_autoscaler.go: one of no minimal replicas is not created. The pointer to that number is
-- taken to be set, as the program always sets it.
use environment_operator.Prelude.{
  Text, Bool, true, false, List, Option, none, some, Result, ok, err, if◌then◌else◌, ℤ, nonzero,
}
use environment_operator.K8s.Api.{Api, Resource, unset}

pub record Spec (B : Type 0) : Type 0 where
  pub min_replicas : ℤ
  pub body : B

module _ {S B : Type 0} (api : Api S (Resource (Spec B))) where
  unfoldable pub exist : Text → S → Bool
  exist name s = elim (api.get name s) [ ok _ ↦ true | err _ ↦ false ]

  unfoldable pub update : Resource (Spec B) → S → S × Option Text
  update r s = api.put r s

  unfoldable pub create : Resource (Spec B) → S → S × Option Text
  create r s = if nonzero r.spec.min_replicas then api.post r s else (s, none)

  unfoldable pub apply : Option (Resource (Spec B)) → S → S × Option Text
  apply none s = (s, none)
  apply (some r) s = if exist r.name s then update r s else create r s

  unfoldable pub destroy : Text → S → S × Option Text
  destroy name s = api.remove unset name s

  unfoldable pub list : S → Result (List (Resource (Spec B)))
  list s = api.items s
