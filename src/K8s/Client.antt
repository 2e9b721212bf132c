-- ===== src/K8s/Client.antt =====
-- pkg/util/k8s/k8s.go: the client of a namespace, and the clients of its kinds of objects. The
-- configuration of the process's cluster and the making of connections from it are parameters.
use environment_operator.Prelude.{
  Text, codes, Bool, true, Option, none, some, Result, ok, ◌>>=◌, ℤ, pos,
}

pub record GroupVersion : Type 0 where
  pub group : Text
  pub version : Text

-- What is set of a connection's configuration, over the rest of it.
pub record RestConfig (R : Type 0) : Type 0 where
  pub group_version : Option GroupVersion
  pub api_path : Text
  pub content_type : Text
  pub rest : R

pub record Client (I C : Type 0) : Type 0 where
  pub interface : I
  pub namespace : Text
  pub crd_client : C

-- The client of one kind of objects.
pub record Typed (I : Type 0) : Type 0 where
  pub interface : I
  pub namespace : Text

pub record TypedCustom (C : Type 0) : Type 0 where
  pub interface : C
  pub namespace : Text
  pub type : Text

abbrev prsn : GroupVersion
prsn = record { group = codes "prsn.io"; version = codes "v1" }

-- The group that is used where none is given.
unfoldable pub group_or_default : Option GroupVersion → GroupVersion
group_or_default none = prsn
group_or_default (some g) = g

module _ {R I C : Type 0} (in_cluster : Result (RestConfig R))
    (new_for_config : RestConfig R → Result I) (rest_client_for : RestConfig R → Result C) where
  unfoldable pub crd_client : Option GroupVersion → Result C
  unfolding group_or_default
  crd_client group_version = do
    config ← in_cluster
    rest_client_for (record config {
      group_version = some (group_or_default group_version);
      api_path = codes "/apis";
      content_type = codes "application/json";
    })

  unfoldable pub client_for_namespace : Text → Result (Client I C)
  unfolding crd_client
  client_for_namespace namespace = do
    config ← in_cluster
    interface ← new_for_config config
    crd ← crd_client none
    ok (record { interface = interface; namespace = namespace; crd_client = crd })

  -- Client of pkg/cluster/cluster.go, which is for every namespace.
  unfoldable pub cluster_client : Result (I × C)
  unfolding crd_client
  cluster_client = do
    config ← in_cluster
    interface ← new_for_config config
    crd ← crd_client none
    ok (interface, crd)

module _ {I C : Type 0} (c : Client I C) where
  abbrev typed : Typed I
  typed = record { interface = c.interface; namespace = c.namespace }

  unfoldable pub service : Typed I
  service = typed

  unfoldable pub deployment : Typed I
  deployment = typed

  unfoldable pub horizontal_pod_autoscaler : Typed I
  horizontal_pod_autoscaler = typed

  unfoldable pub config_map : Typed I
  config_map = typed

  unfoldable pub secret : Typed I
  secret = typed

  unfoldable pub pvc : Typed I
  pvc = typed

  unfoldable pub pod : Typed I
  pod = typed

  unfoldable pub ingress : Typed I
  ingress = typed

  unfoldable pub stateful_set : Typed I
  stateful_set = typed

  unfoldable pub ns : Typed I
  ns = typed

  unfoldable pub job : Typed I
  job = typed

  unfoldable pub custom_resource_definition : Text → TypedCustom C
  custom_resource_definition kind = record {
    interface = c.crd_client;
    namespace = c.namespace;
    type = kind;
  }

  unfoldable pub external_secret : TypedCustom C
  external_secret = record {
    interface = c.crd_client;
    namespace = c.namespace;
    type = codes "ExternalSecret";
  }

-- listOptions: the label selector.
unfoldable pub list_options : Text
list_options = codes "creator=pipeline"

pub record PodLogOptions : Type 0 where
  pub tail_lines : ℤ
  pub timestamps : Bool

unfoldable pub log_options : PodLogOptions
log_options = record { tail_lines = pos 500; timestamps = true }
