-- ===== src/Cluster/Scrape/Readable.antt =====
-- When reading the services back ends without a panic.
use environment_operator.Prelude.{
  Text, TextMap, codes, ◌==◌, List, [], ◌∷◌, ◌++◌, Option, none, some, All, Bool-cases, inl, inr,
  if◌then◌else◌,
}
use environment_operator.Bitesize.Types.{Service, Volume, Metric}
use environment_operator.Bitesize.Volumes.Sorting.{sort_volumes_by_vol_name-total}
use environment_operator.Cluster.Scrape.Objects.{KubeMetric, KubeRule}
use environment_operator.Cluster.Scrape.Containers.{mounted_volumes}
use environment_operator.Cluster.Scrape.{
  first, deref, more_volumes, read_metric, create_or_get, add_deployment, add_hpa, add_ingress,
  add_volume_claim,
}
use environment_operator.Cluster.Scrape.Events.{
  Found, service, deployment, hpa, ingress, claim, custom, name_of, write, is_stray, put, add,
  add_all,
}

-- The first item, or the value, is there and a predicate holds of it.
abbrev pub First : {A : Type 0} → (A → Type 0) → List A → Type 0
First P [] = ⊥
First P (x ∷ _) = P x

abbrev pub Within : {A : Type 0} → (A → Type 0) → Option A → Type 0
Within P none = ⊥
Within P (some x) = P x

abbrev pub IsThere : {A : Type 0} → Option A → Type 0
IsThere o = Within (λ x. Unit) o

-- A metric of either kind has the value that is read.
abbrev pub IsMeasured : KubeMetric → Type 0
IsMeasured k =
    if k.type == codes "Resource"
    then Within (λ r. IsThere r.1) k.resource
    else if k.type == codes "Pods"
    then Within (λ r. IsThere r.1) k.pods
    else Unit

-- A deployment has a container, an autoscaler a minimum and a first metric with its value, and an
-- ingress a first rule with a path.
abbrev pub IsReadable : Found → Type 0
IsReadable (deployment k) = First (λ c. Unit) k.containers
IsReadable (hpa k) = IsThere k.min_replicas × First IsMeasured k.metrics
IsReadable (ingress k) = First (λ (r : KubeRule). Within (First (λ p. Unit)) r.paths) k.rules
IsReadable _ = Unit

first-IsThere :
    {A B : Type 0} (P : A → Type 0) (xs : List A) (f : A → Option B)
    → First P xs
    → ((x : A) → P x → IsThere (f x))
    → IsThere (first xs f)
first-IsThere P [] f p h = p
first-IsThere P (x ∷ xs) f p h = h x p

deref-IsThere :
    {A B : Type 0} (P : A → Type 0) (o : Option A) (f : A → Option B)
    → Within P o
    → ((x : A) → P x → IsThere (f x))
    → IsThere (deref o f)
deref-IsThere P none f p h = p
deref-IsThere P (some x) f p h = h x p

pub more_volumes-IsThere : (old new : List Volume) → IsThere (more_volumes old new)
unfolding more_volumes
more_volumes-IsThere old new =
    let (vs, e, _, _) = sort_volumes_by_vol_name-total (old ++ new) in
    rw (e, Within, more_volumes) tt

read_metric-IsThere : (k : KubeMetric) (m : Metric) → IsMeasured k → IsThere (read_metric k m)
unfolding read_metric
read_metric-IsThere k m h = elim (Bool-cases (k.type == codes "Resource")) [
  | inl e ↦
      rw (e, Within)
        (deref-IsThere (λ r. IsThere r.1) k.resource _ (rw e at h)
          (λ r p. deref-IsThere (λ u. Unit) r.1 _ p (λ u q. tt)))
  | inr e ↦ elim (Bool-cases (k.type == codes "Pods")) [
    | inl e' ↦
        rw (e, e', Within)
          (deref-IsThere (λ r. IsThere r.1) k.pods _ (rw (e, e') at h)
            (λ r p. deref-IsThere (λ u. Unit) r.1 _ p (λ u q. tt)))
    | inr e' ↦ rw (e, e', Within) tt
  ]
]

write-IsThere : (zero : Text) (f : Found) (s : Service) → IsReadable f → IsThere (write zero f s)
unfolding write add_deployment add_hpa add_ingress add_volume_claim
write-IsThere zero (service k) s h = tt
write-IsThere zero (custom k) s h = tt
write-IsThere zero (claim k) s h =
    deref-IsThere (λ vs. Unit) _ _ (more_volumes-IsThere s.volumes _) (λ vs p. tt)
write-IsThere zero (deployment k) s h =
    first-IsThere (λ c. Unit) k.containers _ h
      (λ c p.
        deref-IsThere (λ vs. Unit) _ _
          (more_volumes-IsThere s.volumes (mounted_volumes c.mounts k.volumes)) (λ vs q. tt))
write-IsThere zero (hpa k) s h =
    deref-IsThere (λ n. Unit) k.min_replicas _ h.0
      (λ n p.
        first-IsThere IsMeasured k.metrics _ h.1
          (λ m q. deref-IsThere (λ x. Unit) _ _ (read_metric-IsThere m s.hpa.metric q) (λ x r. tt)))
write-IsThere zero (ingress k) s h =
    first-IsThere (λ (r : KubeRule). Within (First (λ p. Unit)) r.paths) k.rules _ h
      (λ r p.
        deref-IsThere (First (λ x. Unit)) r.paths _ p
          (λ paths q. first-IsThere (λ x. Unit) paths _ q (λ x t. tt)))

put-IsThere :
    (name : Text) (o : Option Service) (m : TextMap Service) → IsThere o → IsThere (put name o m)
unfolding put
put-IsThere name none m h = h
put-IsThere name (some s) m h = tt

add-IsThere :
    (zero : Text) (f : Found) (m : TextMap Service) → IsReadable f → IsThere (add zero f m)
unfolding add
add-IsThere zero f m h = elim (Bool-cases (is_stray f)) [
  | inl e ↦ rw (e, Within) tt
  | inr e ↦
      rw (e, Within)
        (put-IsThere (name_of f) (write zero f (create_or_get (name_of f) m)) m
          (write-IsThere zero f (create_or_get (name_of f) m) h))
]

-- When every listed deployment has a container, every listed autoscaler a minimum and a first metric
-- with its value, and every listed ingress a first rule with a path, filling the map of services
-- ends without a panic and without leaving the process.
pub add_all-IsThere :
    (zero : Text) (fs : List Found) (m : TextMap Service)
    → All IsReadable fs
    → IsThere (add_all zero fs m)
unfolding add_all
add_all-IsThere zero [] m h = tt
add_all-IsThere zero (f ∷ fs) m h =
    step (add zero f m) (add-IsThere zero f m h.0) (λ n. add_all-IsThere zero fs n h.1)
  where
    step :
        (o : Option (TextMap Service))
        → IsThere o
        → ((n : TextMap Service) → IsThere (add_all zero fs n))
        → IsThere (elim o [ none ↦ none | some n ↦ add_all zero fs n ])
    step none p rest = p
    step (some n) p rest = rest n
