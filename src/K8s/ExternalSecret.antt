-- ===== src/K8s/ExternalSecret.antt =====
-- pkg/util/k8s/external_secret.go: the text of crd.go with another type of object, so each operation
-- is that of K8s/Custom, at the type that the client is made for. Whether external secrets are
-- enabled is read from the process's environment at the start.
use environment_operator.Prelude.{
  Text, codes, ◌==◌, Bool, false, List, Option, some, Result, ok, err,
}
use environment_operator.K8s.Api.{Api, Resource}
use environment_operator.K8s.Custom

-- init
unfoldable pub external_secrets_enabled : Text → Bool
external_secrets_enabled setting = setting == codes "true"

module _ {S B : Type 0} (api : Text → Api S (Resource B)) (type : Text) where
  unfoldable pub get : Text → S → Option (Result (Resource B))
  unfolding Custom.get
  get = Custom.get api type

  unfoldable pub exist : Text → S → Option Bool
  unfolding Custom.exist
  exist = Custom.exist api type

  unfoldable pub create : Option (Resource B) → S → Option (S × Option Text)
  unfolding Custom.create
  create = Custom.create api type

  unfoldable pub update : Option (Resource B) → S → Option (S × Option Text)
  unfolding Custom.update
  update = Custom.update api type

  unfoldable pub apply : Option (Resource B) → S → Option (S × Option Text)
  unfolding Custom.apply
  apply = Custom.apply api type

  unfoldable pub destroy : Text → S → Option (S × Option Text)
  unfolding Custom.destroy
  destroy = Custom.destroy api type

  unfoldable pub list : S → Option (Result (List (Resource B)))
  unfolding Custom.list
  list = Custom.list api type

-- ExternalSecretExist of pkg/bitesize/service.go: a client that cannot be made has no secret. The
-- client is for the type ExternalSecret of the group kubernetes-client.io, in the namespace.
unfoldable pub external_secret_exist :
    {S B C : Type 0}
    → (C → Text → Text → Api S (Resource B))
    → Result C
    → Text
    → Text
    → S
    → Option Bool
unfolding exist
external_secret_exist requests (err x) namespace name s = some false
external_secret_exist requests (ok client) namespace name s =
    exist (requests client namespace) (codes "ExternalSecret") name s
