-- ===== src/K8s/Job.antt =====
-- pkg/util/k8s/job.go: the client for jobs. A nil argument is not tested for.
use environment_operator.Prelude.{
  Text, Bool, true, false, List, Option, some, Result, ok, err, if◌then◌else◌,
}
use environment_operator.K8s.Api.{Api, Resource, unset}

module _ {S B : Type 0} (api : Api S (Resource B)) where
  unfoldable pub exist : Text → S → Bool
  exist name s = elim (api.get name s) [ ok _ ↦ true | err _ ↦ false ]

  unfoldable pub update : Resource B → S → S × Option Text
  update r s = elim (api.get r.name s) [
    | err x ↦ (s, some x)
    | ok current ↦
        api.put
          (record {
            name = r.name;
            resource_version = current.resource_version;
            labels = r.labels;
            spec = r.spec;
          })
          s
  ]

  unfoldable pub create : Resource B → S → S × Option Text
  create r s = api.post r s

  unfoldable pub apply : Resource B → S → S × Option Text
  apply r s = if exist r.name s then update r s else create r s

  unfoldable pub destroy : Text → S → S × Option Text
  destroy name s = api.remove unset name s

  unfoldable pub list : S → Result (List (Resource B))
  list s = api.items s
