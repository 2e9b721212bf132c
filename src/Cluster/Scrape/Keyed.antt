-- ===== src/Cluster/Scrape/Keyed.antt =====
-- The map of services has each service under its own name, whatever is listed, so that the list of
-- services does not depend on the order in which the map is read.
use mathlib.Core.List.{Permᴰ}
use mathlib.Core.List.Permᴰ
use mathlib.Core.Path.{subst}
use environment_operator.Prelude.{
  Text, TextMap, lookup, insert, ◌==◌, ==_iff, List, [], ◌∷◌, map, Option, none, some, ◌≡◌, ◌≢◌,
  refl, sym, ap, ◌∙◌, arith, All, Bool-cases, inl, inr,
}
use environment_operator.Prelude.Sort.{
  IsSorted, IsDistinct, sort_by-IsSorted, sort_by-perm, sort_by-permᴰ, IsDistinct-permᴰ,
}
use environment_operator.Bitesize.Types.{Service}
use environment_operator.Cluster.Scrape.{
  first, deref, or_new, with_deployment, with_hpa, with_ingress, more_volumes, read_metric,
  create_or_get, services, add_service, add_deployment, add_hpa, add_ingress, add_volume_claim,
  add_custom, with_volumes,
}
use environment_operator.Cluster.Scrape.Containers.{mounted_volumes}
use environment_operator.Cluster.Scrape.Events.{
  Found, service, deployment, hpa, ingress, claim, custom, name_of, write, is_stray, put, add,
  add_all,
}

abbrev pub key : Text × Service → Text
key e = e.0

abbrev pub IsKeyed : TextMap Service → Type 0
IsKeyed m = All (λ e. e.1.name ≡ e.0) m × IsDistinct key m

All-insert :
    (P : Text × Service → Type 0) (k : Text) (s : Service) (m : TextMap Service)
    → All P m
    → P (k, s)
    → All P (insert k s m)
unfolding insert
All-insert P k s [] h p = (p, tt)
All-insert P k s ((j, v) ∷ m) h p = elim (Bool-cases (j == k)) [
  | inl e ↦ rw e (p, h.1)
  | inr e ↦ rw e (h.0, All-insert P k s m h.1 p)
]

insert-IsDistinct :
    (k : Text) (s : Service) (m : TextMap Service)
    → IsDistinct key m
    → IsDistinct key (insert k s m)
unfolding insert
insert-IsDistinct k s [] h = (tt, tt)
insert-IsDistinct k s ((j, v) ∷ m) h = elim (Bool-cases (j == k)) [
  | inl e ↦ rw e (subst (λ i. All (λ x. i ≢ key x) m) ((==_iff j k).0 e) h.0, h.1)
  | inr e ↦ rw e (
    All-insert (λ x. j ≢ key x) k s m h.0 (λ same. cc ((==_iff j k).1 same)),
    insert-IsDistinct k s m h.1,
  )
]

lookup-keyed :
    (k : Text) (m : TextMap Service) (s : Service)
    → All (λ e. e.1.name ≡ e.0) m
    → lookup k m ≡ some s
    → s.name ≡ k
unfolding lookup
lookup-keyed k [] s h e = cc
lookup-keyed k ((j, v) ∷ m) s h e = ground (arith, ==_iff j k, lookup-keyed k m s h.1, h.0)

or_new-name :
    (k : Text) (o : Option Service)
    → ((s : Service) → o ≡ some s → s.name ≡ k)
    → (or_new k o).name ≡ k
or_new-name k none h = refl
or_new-name k (some s) h = h s refl

create_or_get-name :
    (k : Text) (m : TextMap Service) → All (λ e. e.1.name ≡ e.0) m → (create_or_get k m).name ≡ k
unfolding create_or_get
create_or_get-name k m h = or_new-name k (lookup k m) (λ s e. lookup-keyed k m s h e)

-- What is written has the service's name still.
abbrev Keeps : Service → Option Service → Type 0
Keeps s o = (s' : Service) → o ≡ some s' → s'.name ≡ s.name

some-Keeps : (s s' : Service) → s'.name ≡ s.name → Keeps s (some s')
some-Keeps s s' h t e = let same : s' ≡ t = cc in ap (λ z. z.name) (sym same) ∙ h

first-Keeps :
    {A : Type 0} (s : Service) (xs : List A) (f : A → Option Service)
    → ((x : A) → Keeps s (f x))
    → Keeps s (first xs f)
first-Keeps s [] f h t e = cc
first-Keeps s (x ∷ xs) f h t e = h x t e

deref-Keeps :
    {A : Type 0} (s : Service) (o : Option A) (f : A → Option Service)
    → ((x : A) → Keeps s (f x))
    → Keeps s (deref o f)
deref-Keeps s none f h t e = cc
deref-Keeps s (some x) f h t e = h x t e

write-Keeps : (zero : Text) (f : Found) (s : Service) → Keeps s (write zero f s)
unfolding write add_service add_custom add_deployment add_hpa add_ingress add_volume_claim
write-Keeps zero (service k) s = some-Keeps s (add_service k s) refl
write-Keeps zero (custom k) s = some-Keeps s (add_custom k s) refl
write-Keeps zero (deployment k) s = first-Keeps s k.containers _ λ c.
    deref-Keeps s (more_volumes s.volumes (mounted_volumes c.mounts k.volumes)) _
      λ vs. some-Keeps s (with_deployment zero k c vs s) refl
write-Keeps zero (hpa k) s = deref-Keeps s k.min_replicas _ λ n. first-Keeps s k.metrics _ λ metric.
    deref-Keeps s (read_metric metric s.hpa.metric) _
      λ m. some-Keeps s (with_hpa n k.max_replicas m s) refl
write-Keeps zero (ingress k) s = first-Keeps s k.rules _ λ rule.
    deref-Keeps s rule.paths _
      λ paths. first-Keeps s paths _ λ path. some-Keeps s (with_ingress k path.0 path.1 s) refl
write-Keeps zero (claim k) s = deref-Keeps s _ _ λ vs. some-Keeps s (with_volumes vs s) refl

put-IsKeyed :
    (name : Text) (o : Option Service) (m m' : TextMap Service)
    → ((s : Service) → o ≡ some s → s.name ≡ name)
    → IsKeyed m
    → put name o m ≡ some m'
    → IsKeyed m'
unfolding put
put-IsKeyed name none m m' h keyed e = cc
put-IsKeyed name (some s) m m' h keyed e =
    let same : insert name s m ≡ m' = cc in
    subst IsKeyed same (
      All-insert (λ x. x.1.name ≡ x.0) name s m keyed.0 (h s refl),
      insert-IsDistinct name s m keyed.1,
    )

add-IsKeyed :
    (zero : Text) (f : Found) (m m' : TextMap Service)
    → IsKeyed m
    → add zero f m ≡ some m'
    → IsKeyed m'
unfolding add
add-IsKeyed zero f m m' keyed e = elim (Bool-cases (is_stray f)) [
  | inl stray ↦ let same : m ≡ m' = cc (rw stray at e) in subst IsKeyed same keyed
  | inr own ↦
      put-IsKeyed (name_of f) (write zero f (create_or_get (name_of f) m)) m m'
        (λ s w.
          write-Keeps zero f (create_or_get (name_of f) m) s w
          ∙ create_or_get-name (name_of f) m keyed.0)
        keyed (rw own at e)
]

pub add_all-IsKeyed :
    (zero : Text) (fs : List Found) (m m' : TextMap Service)
    → IsKeyed m
    → add_all zero fs m ≡ some m'
    → IsKeyed m'
unfolding add_all
add_all-IsKeyed zero [] m m' keyed e = let same : m ≡ m' = cc in subst IsKeyed same keyed
add_all-IsKeyed zero (f ∷ fs) m m' keyed e =
    step (add zero f m) refl (λ n. add_all-IsKeyed zero fs n m') e
  where
    step :
        (o : Option (TextMap Service))
        → add zero f m ≡ o
        → ((n : TextMap Service) → IsKeyed n → add_all zero fs n ≡ some m' → IsKeyed m')
        → elim o [ none ↦ none | some n ↦ add_all zero fs n ] ≡ some m'
        → IsKeyed m'
    step none h rest e = cc
    step (some n) h rest e = rest n (add-IsKeyed zero f m n keyed h) e

values-permᴰ : {m n : TextMap Service} → Permᴰ m n → Permᴰ (map (λ e. e.1) m) (map (λ e. e.1) n)
values-permᴰ Permᴰ.nil = Permᴰ.nil
values-permᴰ (Permᴰ.cons e d) = Permᴰ.cons (ap (λ x. x.1) e) (values-permᴰ d)
values-permᴰ (Permᴰ.swap e f) = Permᴰ.swap (ap (λ x. x.1) e) (ap (λ x. x.1) f)
values-permᴰ (Permᴰ.trans d f) = Permᴰ.trans (values-permᴰ d) (values-permᴰ f)

services_differ :
    (k : Text) (m : TextMap Service)
    → All (λ e. e.1.name ≡ e.0) m
    → All (λ e. k ≢ key e) m
    → All (λ (s : Service). k ≢ s.name) (map (λ e. e.1) m)
services_differ k [] named h = tt
services_differ k ((j, s) ∷ m) named h = (λ e. h.0 (e ∙ named.0), services_differ k m named.1 h.1)

pub values-IsDistinct :
    (m : TextMap Service) → IsKeyed m → IsDistinct (λ (s : Service). s.name) (map (λ e. e.1) m)
values-IsDistinct [] keyed = tt
values-IsDistinct ((k, s) ∷ m) keyed = (
  subst (λ n. All (λ (t : Service). n ≢ t.name) (map (λ e. e.1) m)) (sym keyed.0.0)
      (services_differ k m keyed.0.1 keyed.1.0),
  values-IsDistinct m (keyed.0.1, keyed.1.1),
)

-- Whatever objects are listed, and in whatever order the map of services is read afterwards, the
-- services are one and the same list: sorted by name, with no two of one name.
pub add_all-services :
    (zero : Text) (fs : List Found) (m read : TextMap Service)
    → add_all zero fs [] ≡ some m
    → Permᴰ m read
    → (services m ≡ services read)
      × IsSorted (λ (s : Service). s.name) (services m)
      × IsDistinct (λ (s : Service). s.name) (services m)
unfolding services
add_all-services zero fs m read e p =
    let distinct = values-IsDistinct m (add_all-IsKeyed zero fs [] m (tt, tt) e) in
    (
      sort_by-perm (λ (s : Service). s.name) (values-permᴰ p) distinct,
      sort_by-IsSorted (λ (s : Service). s.name) (map (λ e. e.1) m),
      IsDistinct-permᴰ (λ (s : Service). s.name)
          (Permᴰ.symm (sort_by-permᴰ (λ (s : Service). s.name) (map (λ e. e.1) m))) distinct,
    )
