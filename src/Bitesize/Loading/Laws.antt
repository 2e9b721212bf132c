-- ===== src/Bitesize/Loading/Laws.antt =====
-- What the loaded services look like, and when loading ends.
use environment_operator.Prelude.{
  Text, to_lower-to_lower, contains-append, contains, to_lower, less, ◌||◌, Bool, true, false, List,
  [], ◌∷◌, ◌++◌, map, none, some, All, ◌≡◌, ◌≢◌, refl, ◌∙◌, inl, inr, is_empty, Bool-cases,
  Option-cases,
}
use environment_operator.Prelude.Sort.{IsSorted}
use environment_operator.Bitesize.Types.{
  Service, EnvVar, Volume, BlueGreenServiceSet, blue, green, DeploymentSettings,
}
use environment_operator.Bitesize.Service.{
  is_blue_green_parent, deployment_method, active_deployment_tag,
}
use environment_operator.Bitesize.BlueGreen.{json_volume, child_copy, copy_blue_green_service}
use environment_operator.Bitesize.Loading.Sorted.{name_of, sorted_volumes-total}
use environment_operator.Bitesize.Loading.{
  qualified, lower_type, prepared, copies, prepare_all, load_services,
}

-- A secret's variable names a secret and a key.
abbrev pub IsQualified : EnvVar → Type 0
IsQualified e = e.secret ≢ [] → contains b'/' e.value ≡ true

abbrev pub IsLower : Volume → Type 0
IsLower v = to_lower v.type ≡ v.type

-- The secrets have keys, and the volumes have types in lower case and stand in the order of names.
abbrev pub IsPrepared : Service → Type 0
IsPrepared s =
    All IsQualified s.env_vars × All IsLower s.volumes × IsSorted (λ (v : Volume). v.name) s.volumes

-- A blue/green service has an active colour.
abbrev pub HasColour : Service → Type 0
HasColour s = is_blue_green_parent s ≡ true → active_deployment_tag s ≢ none

qualified-IsQualified : (e : EnvVar) → IsQualified (qualified e)
unfolding qualified contains
qualified-IsQualified e = elim (Bool-cases (is_empty e.secret || contains b'/' e.value)) [
  | inl h ↦ rw h (λ filled. there e.secret filled h)
  | inr h ↦
      rw h λ filled. contains-append b'/' e.value (b'/' ∷ e.value) ∙ last (contains b'/' e.value)
]
  where
    there :
        (secret : Text)
        → secret ≢ []
        → (is_empty secret || contains b'/' e.value) ≡ true
        → contains b'/' e.value ≡ true
    there [] filled h = elim (filled refl) [ ]
    there (_ ∷ _) filled h = h

    last : (b : Bool) → (b || true) ≡ true
    last true = refl
    last false = refl

All-qualified : (es : List EnvVar) → All IsQualified (map qualified es)
All-qualified [] = tt
All-qualified (e ∷ es) = (qualified-IsQualified e, All-qualified es)

All-lower_type : (vs : List Volume) → All IsLower (map lower_type vs)
unfolding lower_type
All-lower_type [] = tt
All-lower_type (v ∷ vs) = (to_lower-to_lower v.type, All-lower_type vs)

-- A service is prepared without a failure, and keeps its colour.
prepared-total :
    (svc : Service)
    → (s : Service) × (prepared svc ≡ some s) × IsPrepared s × (HasColour svc → HasColour s)
unfolding prepared is_blue_green_parent deployment_method active_deployment_tag
prepared-total svc =
    let (vs, e, lower, sorted) =
      sorted_volumes-total IsLower (map lower_type svc.volumes) (All-lower_type svc.volumes) in
    (
      record svc { env_vars = map qualified svc.env_vars; volumes = vs },
      rw (e, prepared) refl,
      (All-qualified svc.env_vars, lower, sorted),
      λ h. h,
    )

All-json_volume : (vs : List Volume) → All IsLower vs → All IsLower (map json_volume vs)
All-json_volume [] h = tt
All-json_volume (v ∷ vs) h = (h.0, All-json_volume vs h.1)

above-json_volume :
    (v : Volume) (vs : List Volume)
    → All (λ (u : Volume). less u.name v.name ≡ false) vs
    → All (λ (u : Volume). less u.name v.name ≡ false) (map json_volume vs)
above-json_volume v [] h = tt
above-json_volume v (u ∷ us) h = (h.0, above-json_volume v us h.1)

IsSorted-json_volume :
    (vs : List Volume) → IsSorted name_of vs → IsSorted name_of (map json_volume vs)
IsSorted-json_volume [] h = tt
IsSorted-json_volume (v ∷ vs) h = (above-json_volume v vs h.0, IsSorted-json_volume vs h.1)

-- A copy is prepared where the service is.
child_copy-IsPrepared :
    (svc : Service) (d : DeploymentSettings) (tag kind : BlueGreenServiceSet)
    → IsPrepared svc
    → IsPrepared (child_copy svc d tag kind)
unfolding child_copy
child_copy-IsPrepared svc d tag kind h =
    (h.0, All-json_volume svc.volumes h.1, IsSorted-json_volume svc.volumes h.2)

copy-total :
    (svc : Service) (kind : BlueGreenServiceSet)
    → svc.deployment ≢ none
    → active_deployment_tag svc ≢ none
    → IsPrepared svc
    → (s : Service) × (copy_blue_green_service svc kind ≡ some s) × IsPrepared s
unfolding copy_blue_green_service child_copy
copy-total svc kind has tagged h = elim (Option-cases (active_deployment_tag svc)) [
  | inl e ↦ elim (tagged e) [ ]
  | inr (tag, e) ↦ elim (Option-cases svc.deployment) [
    | inl n ↦ elim (has n) [ ]
    | inr (d, n) ↦ (
      child_copy svc d tag kind,
      rw (e, n, copy_blue_green_service) refl,
      child_copy-IsPrepared svc d tag kind h,
    )
  ]
]

parent_has_deployment : (svc : Service) → is_blue_green_parent svc ≡ true → svc.deployment ≢ none
unfolding is_blue_green_parent
parent_has_deployment svc h n = cc (rw (n, is_blue_green_parent) at h)

copies-total :
    (svc : Service)
    → HasColour svc
    → IsPrepared svc
    → (cs : List Service) × (copies svc ≡ some cs) × All IsPrepared cs
unfolding copies
copies-total svc colour h = elim (Bool-cases (is_blue_green_parent svc)) [
  | inr e ↦ ([], rw (e, copies) refl, tt)
  | inl e ↦
      let has = parent_has_deployment svc e in
      let (b, eb, hb) = copy-total svc blue has (colour e) h in
      let (g, eg, hg) = copy-total svc green has (colour e) h in
      (b ∷ g ∷ [], rw (e, eb, eg, copies) refl, (hb, (hg, tt)))
]

All-append :
    (xs ys : List Service) → All IsPrepared xs → All IsPrepared ys → All IsPrepared (xs ++ ys)
All-append [] ys h k = k
All-append (x ∷ xs) ys h k = (h.0, All-append xs ys h.1 k)

prepare_all-total :
    (services : List Service)
    → All HasColour services
    → (ss cs : List Service) × (prepare_all services ≡ some (ss, cs))
      × All IsPrepared ss
      × All IsPrepared cs
unfolding prepare_all
prepare_all-total [] h = ([], [], refl, tt, tt)
prepare_all-total (svc ∷ rest) h =
    let (s, es, hs, colour) = prepared-total svc in
    let (cs, ec, hc) = copies-total s (colour h.0) hs in
    let (ss, more, er, hss, hmore) = prepare_all-total rest h.1 in
    (s ∷ ss, cs ++ more, rw (es, ec, er, prepare_all) refl, (hs, hss), All-append cs more hc hmore)

-- When every blue/green service of the file has an active colour, loading the services ends without a
-- panic, and in each of the loaded services, the copies included, every secret's variable has a
-- slash in its value, the types of the volumes are in lower case, and the volumes stand in the order
-- of their names.
pub load_services-total :
    (services : List Service)
    → All HasColour services
    → (loaded : List Service) × (load_services services ≡ some loaded) × All IsPrepared loaded
unfolding load_services
load_services-total services h =
    let (ss, cs, e, hs, hc) = prepare_all-total services h in
    (ss ++ cs, rw (e, load_services) refl, All-append ss cs hs hc)
