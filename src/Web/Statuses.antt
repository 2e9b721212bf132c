-- ===== src/Web/Statuses.antt =====
-- The status handlers of pkg/web/handlers.go, and loadServiceFromCluster of pkg/web/service_loader.go.
-- The cluster is taken not to change while a request is served: making a client for it and reading
-- it are parameters. A reply that ends with an error code is `refused`, and a panic is `none`.
use environment_operator.Prelude.{
  Text, codes, ◌≡◌, refl, ap, ◌∙◌, Bool-cases, inl, inr, List, [], ◌∷◌, ◌++◌, map, All, Option,
  none, some, Result, ok, err,
}
use environment_operator.Prelude.Sort.{IsDistinct}
use environment_operator.Bitesize.Types.{Service, Pod}
use environment_operator.Bitesize.Service.{
  is_blue_green_parent, inactive_deployment_name, find_by_name,
}
use environment_operator.Bitesize.Names.{name_of, Finds, IsDistinct-Finds}
use environment_operator.Bitesize.Gists.{Environment}
use environment_operator.Web.{StatusService, status_for_service, renamed, shown, all_shown, pods_of}

pub data Reply (A : Type 0) : Type 0 where
  refused : Reply A
  replied : A → Reply A

pub record StatusResponse : Type 0 where
  pub environment_name : Text
  pub namespace : Text
  pub services : List StatusService

abbrev replying : {A : Type 0} → Option A → Option (Reply A)
replying none = none
replying (some a) = some (replied a)

module _ (connect : Option Text) (scrape : Result Environment) where
  abbrev found : Option Service → Result Service
  found none = err (codes "Error getting service: name")
  found (some svc) = ok svc

  abbrev service_in : Text → Result Environment → Result Service
  service_in name (err x) = err (codes "Error getting environment: " ++ x)
  service_in name (ok e) = found (find_by_name e.services name)

  unfoldable pub load_service_from_cluster : Text → Result Service
  load_service_from_cluster name = elim connect [
    | some x ↦ err (codes "Error cluster client: " ++ x)
    | none ↦ service_in name scrape
  ]

  abbrev statuses_of : Environment → Option (List StatusService) → Option StatusResponse
  statuses_of e none = none
  statuses_of e (some ss) =
      some (record { environment_name = e.name; namespace = e.namespace; services = ss })

  -- What fails before the services are listed is written to the response, and then a nil pointer is
  -- read.
  unfoldable pub get_status : Option StatusResponse
  unfolding load_service_from_cluster
  get_status = elim connect [
    | some _ ↦ none
    | none ↦ elim scrape [
      | err _ ↦ none
      | ok e ↦ statuses_of e (all_shown load_service_from_cluster e.services)
    ]
  ]

  unfoldable pub get_service_status : Text → Option (Reply StatusService)
  unfolding load_service_from_cluster
  get_service_status name = elim (load_service_from_cluster name) [
    | err _ ↦ some refused
    | ok svc ↦ replying (shown load_service_from_cluster svc)
  ]

  -- The pods that are listed, with the error of listing them, which is overwritten.
  unfoldable pub get_pod_status : List Pod × Option Text → Text → Option (Reply (List Pod))
  unfolding load_service_from_cluster
  get_pod_status pods name = elim connect [
    | some _ ↦ none
    | none ↦ elim (load_service_from_cluster name) [
      | err _ ↦ some refused
      | ok svc ↦ some (replied (pods_of svc.name pods.0))
    ]
  ]

renamed-name :
    (svc : Service) (loaded : Result Service) → (renamed svc.name svc loaded).name ≡ svc.name
renamed-name svc (err x) = refl
renamed-name svc (ok other) = refl

-- A status is shown under the service's name.
shown_total :
    (load : Text → Result Service) (svc : Service) (n : Text)
    → inactive_deployment_name svc ≡ some n
    → (st : StatusService) × (shown load svc ≡ some st) × (st.name ≡ svc.name)
unfolding shown status_for_service
shown_total load svc n h = elim (Bool-cases (is_blue_green_parent svc)) [
  | inl e ↦ (
    status_for_service (renamed svc.name svc (load n)),
    rw (e, h) refl,
    renamed-name svc (load n),
  )
  | inr e ↦ (status_for_service svc, rw e refl, refl)
]

abbrev HasInactive : Service → Type 0
HasInactive svc = (n : Text) × (inactive_deployment_name svc ≡ some n)

module _ (e : Environment) where
  abbrev Alone : StatusService → Type 0
  Alone st = get_service_status none (ok e) st.name ≡ some (replied st)

  loaded :
      (svc : Service)
      → Finds e.services svc
      → load_service_from_cluster none (ok e) svc.name ≡ ok svc
  unfolding load_service_from_cluster
  loaded svc f = rw f refl

  served :
      (svc : Service)
      → Finds e.services svc
      → get_service_status none (ok e) svc.name
        ≡ replying (shown (load_service_from_cluster none (ok e)) svc)
  unfolding get_service_status
  served svc f = rw (loaded svc f, get_service_status) refl

  shown-Alone :
      (svc : Service) (st : StatusService)
      → Finds e.services svc
      → shown (load_service_from_cluster none (ok e)) svc ≡ some st
      → st.name ≡ svc.name
      → Alone st
  shown-Alone svc st f h n = ap (get_service_status none (ok e)) n ∙ served svc f ∙ ap replying h

  abbrev Listed : List Service → Type 0
  Listed svcs =
      (sts : List StatusService) × (all_shown (load_service_from_cluster none (ok e)) svcs
        ≡ some sts)
      × (map (λ (st : StatusService). st.name) sts ≡ map name_of svcs)
      × All Alone sts

  all_shown-Alone :
      (svcs : List Service) → All (Finds e.services) svcs → All HasInactive svcs → Listed svcs
  unfolding all_shown
  all_shown-Alone [] fs hs = ([], refl, refl, tt)
  all_shown-Alone (svc ∷ svcs) (f, fs) ((n, h), hs) =
      let (st, shows, named) = shown_total (load_service_from_cluster none (ok e)) svc n h in
      let (sts, all, names, alone) = all_shown-Alone svcs fs hs in
      (
        st ∷ sts,
        rw (shows, all_shown, all) refl,
        ap (λ (m : Text). m ∷ map (λ (s : StatusService). s.name) sts) named
            ∙ ap (λ (ms : List Text). svc.name ∷ ms) names,
        (shown-Alone svc st f shows named, alone),
      )

  -- When a client can be made, the cluster can be read, no two deployed services have one name, and
  -- every blue/green service has an active colour, the status of the environment is returned. It has
  -- one entry for each deployed service, under its name and in order, and each entry is what asking
  -- for the status of the service of that name returns.
  pub get_status-get_service_status :
      IsDistinct name_of e.services
      → All HasInactive e.services
      → (r : StatusResponse) × (get_status none (ok e) ≡ some r)
        × (map (λ (st : StatusService). st.name) r.services ≡ map name_of e.services)
        × All Alone r.services
  unfolding get_status
  get_status-get_service_status distinct hs =
      let (sts, all, names, alone) =
        all_shown-Alone e.services (IsDistinct-Finds e.services distinct) hs in
      (
        record { environment_name = e.name; namespace = e.namespace; services = sts },
        rw (get_status, all) refl,
        names,
        alone,
      )
