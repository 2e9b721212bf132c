-- ===== src/Translator/Made.antt =====
-- What the translator made when it ended without an error.
use environment_operator.Prelude.{
  Text, TextMap, codes, Bool, true, false, List, [], ◌∷◌, Option, none, some, Result, ok, err,
  ◌>>=◌, ◌≡◌, refl, if◌then◌else◌, sym, ap,
}
use environment_operator.Bitesize.Types.{Service}
use environment_operator.Bitesize.Service.{is_blue_green_parent, active_deployment_name}
use environment_operator.Cluster.Scrape.Objects.{KubeEnvVar}
use environment_operator.Translator.Objects.{
  Process, Cluster, ContainerObject, DeploymentObject, ServiceObject,
}
use environment_operator.Translator.Metadata.{creator, annotations}
use environment_operator.Translator.Containers.{
  volume_mounts, kube_env_vars, container_of, container_with,
}
use environment_operator.Translator.Deployments.{deployment_of, deployment_object}
use environment_operator.Translator.Services.{service_with, service_object}

made_of :
    (parent : Bool) (container : Result ContainerObject) (f : ContainerObject → DeploymentObject)
    (d : DeploymentObject)
    → (if parent then ok none else (container >>= λ k. ok (some (f k)))) ≡ ok (some d)
    → (k : ContainerObject) × (container ≡ ok k) × (f k ≡ d)
made_of true container f d h = cc
made_of false (err x) f d h = cc
made_of false (ok k) f d h = (k, refl, cc)

pub deployment_object-made :
    (p : Process) (c : Cluster) (namespace : Text) (svc : Service) (d : DeploymentObject)
    → deployment_object p c namespace svc ≡ ok (some d)
    → (k : ContainerObject) × (container_of p c svc ≡ ok k)
      × (deployment_of p c namespace svc k ≡ d)
unfolding deployment_object
deployment_object-made p c namespace svc d h =
    made_of (is_blue_green_parent svc) (container_of p c svc) _ d h

both :
    {A B C : Type 0} (a : Result A) (b : Result B) (f : A → B → C) (k : C)
    → (a >>= λ x. b >>= λ y. ok (f x y)) ≡ ok k
    → (x : A) × (y : B) × (b ≡ ok y) × (f x y ≡ k)
both (err x) b f k h = cc
both (ok x) (err y) f k h = cc
both (ok x) (ok y) f k h = (x, y, refl, cc)

pub container_of-made :
    (p : Process) (c : Cluster) (svc : Service) (k : ContainerObject)
    → container_of p c svc ≡ ok k
    → (mounts : List (Text × Text)) × (env : List KubeEnvVar) × (kube_env_vars p c svc ≡ ok env)
      × (container_with c svc mounts env ≡ k)
unfolding container_of
container_of-made p c svc k h =
    both (volume_mounts svc) (kube_env_vars p c svc) (container_with c svc) k h

chosen :
    (target : Option Text) (notes : Option (TextMap Text)) (f : Text → TextMap Text → ServiceObject)
    (o : ServiceObject) (t : Text)
    → elim target [ none ↦ none | some x ↦ elim notes [ none ↦ none | some n ↦ some (f x n) ] ]
      ≡ some o
    → target ≡ some t
    → (n : TextMap Text) × (f t n ≡ o)
chosen none notes f o t h e = cc
chosen (some x) none f o t h e = cc
chosen (some x) (some n) f o t h e = let same : x ≡ t = cc in (n, cc)

-- The service object selects the pods of the active deployment.
pub selector-service_object :
    (namespace : Text) (svc : Service) (o : ServiceObject) (target : Text)
    → service_object namespace svc ≡ some o
    → active_deployment_name svc ≡ some target
    → o.selector ≡ creator ∷ (codes "name", target) ∷ []
unfolding service_object service_with
selector-service_object namespace svc o target h e =
    let (n, same) = chosen (active_deployment_name svc) (annotations svc) _ o target h e in
    ap (λ (x : ServiceObject). x.selector) (sym same)
