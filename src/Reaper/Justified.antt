-- ===== src/Reaper/Justified.antt =====
-- The reaper deletes nothing without a reason in the configuration.
use environment_operator.Prelude.{
  Text, ◌==◌, Bool, true, false, not, ◌&&◌, ◌||◌, List, [], ◌∷◌, Option, none, some, Result, ok,
  ◌≡◌, refl, ◌⊎◌, inl, inr, nonzero, exists, All, Any, Bool-cases, if◌then◌else◌,
}
use environment_operator.Bitesize.Types.{Service, Volume}
use environment_operator.Bitesize.Service.{has_external_url, is_blue_green_parent, find_by_name}
use environment_operator.Bitesize.Gists.{Gist, type_configmap, type_job, type_cronjob}
use environment_operator.Bitesize.Volumes.{is_config_map_volume, is_secret_volume}
use environment_operator.Reaper.{
  Kind, ingress, external_secret, deployment, service, hpa, claim, config_map, job, cron_job,
  Clients, delete, destroy_external_secret, destroy_ingress, destroy_deployment, destroy_volumes,
  delete_service, destroy_resource, cleanup_ingress, cleanup_hpa, cleanup_gists, cleanup_service,
  cleanup_services, cleanup,
}

-- The configuration has no service of the name, or has one of which a test holds.
abbrev pub OrphanOr : (Service → Bool) → List Service → Text → Type 0
OrphanOr test config name =
    (find_by_name config name ≡ none)
    ⊎ ((c : Service) × (find_by_name config name ≡ some c) × (test c ≡ true))

-- The volume belongs to a deployed service that the configuration lacks.
abbrev pub OrphanVolume : List Service → List Service → Text → Type 0
OrphanVolume config deployed name =
    Any (λ d. (find_by_name config d.name ≡ none) × Any (λ (v : Volume). v.name ≡ name) d.volumes)
      deployed

-- Why an object of a kind and a name may be deleted.
abbrev pub IsJustified : List Service → List Gist → List Service → Kind → Text → Type 0
IsJustified config gists deployed ingress name =
    OrphanOr (λ c. not (has_external_url c)) config name
IsJustified config gists deployed external_secret name =
    OrphanOr (λ c. not (has_external_url c)) config name
IsJustified config gists deployed deployment name = OrphanOr is_blue_green_parent config name
IsJustified config gists deployed service name = find_by_name config name ≡ none
IsJustified config gists deployed hpa name =
    OrphanOr (λ c. not (nonzero c.hpa.min_replicas)) config name
IsJustified config gists deployed claim name = OrphanVolume config deployed name
IsJustified config gists deployed _ name = exists (λ (g : Gist). name == g.name) gists ≡ false

if_keeps :
    {A : Type 0} (P : A → Type 0) (b : Bool) {x y : A}
    → (b ≡ true → P x)
    → P y
    → P (if b then x else y)
if_keeps P true px py = px refl
if_keeps P false px py = py

and_left : (a b : Bool) → (a && b) ≡ true → a ≡ true
and_left true b h = refl
and_left false b h = h

named_volumes :
    (vs : List Volume) (R : Text → Type 0)
    → ((n : Text) → Any (λ (v : Volume). v.name ≡ n) vs → R n)
    → All (λ v. R v.name) vs
named_volumes [] R f = tt
named_volumes (v ∷ vs) R f = (f v.name (inl refl), named_volumes vs R (λ n a. f n (inr a)))

module _ {S : Type 0} (c : Clients S) (config : List Service) (gists : List Gist)
    (all : List Service) (P : S → Type 0)
    (keep : (k : Kind) (n : Text) (s : S)
      → IsJustified config gists all k n
      → P s
      → P (c.destroy k n s).0) where
  delete_keeps :
      (k : Kind) (n : Text) (s : S) → IsJustified config gists all k n → P s → P (delete c k n s)
  unfolding delete
  delete_keeps = keep

  destroy_ingress_keeps :
      (n : Text) (s : S)
      → OrphanOr (λ c. not (has_external_url c)) config n
      → P s
      → P (destroy_ingress c n s)
  unfolding destroy_ingress destroy_external_secret
  destroy_ingress_keeps n s j p = delete_keeps ingress n _ j (secret (c.secrets_client s))
    where
      secret : (o : Option Text) → P (elim o [ some x ↦ s | none ↦ delete c external_secret n s ])
      secret none = delete_keeps external_secret n s j p
      secret (some x) = p

  destroy_deployment_keeps :
      (n : Text) (s : S)
      → OrphanOr is_blue_green_parent config n
      → P s
      → P (destroy_deployment c n s)
  unfolding destroy_deployment
  destroy_deployment_keeps n s j p =
      if_keeps P (c.deployment_exists n s) (λ _. delete_keeps deployment n s j p) p

  destroy_volumes_keeps :
      (vs : List Volume)
      → All (λ v. OrphanVolume config all v.name) vs
      → (s : S) → P s
      → P (destroy_volumes c vs s)
  unfolding destroy_volumes
  destroy_volumes_keeps [] j s p = p
  destroy_volumes_keeps (v ∷ vs) j s p =
      destroy_volumes_keeps vs j.1 _
        (elim (Bool-cases (is_config_map_volume v || is_secret_volume v)) [
          | inl e ↦ rw e p
          | inr e ↦ rw e (delete_keeps claim v.name s j.0 p)
        ])

  delete_service_keeps :
      (d : Service)
      → find_by_name config d.name ≡ none
      → All (λ v. OrphanVolume config all v.name) d.volumes
      → (s : S) → P s
      → P (delete_service c d s)
  unfolding delete_service
  delete_service_keeps d orphan volumes s p = destroy_volumes_keeps d.volumes volumes _ (
      delete_keeps hpa d.name _ (inl orphan) (
        delete_keeps service d.name _ orphan (
          destroy_deployment_keeps d.name _ (inl orphan)
            (destroy_ingress_keeps d.name s (inl orphan) p))))

  cleanup_service_keeps :
      (found : Option Service) (d : Service)
      → find_by_name config d.name ≡ found
      → (found ≡ none → All (λ v. OrphanVolume config all v.name) d.volumes)
      → (s : S) → P s
      → P (cleanup_service c found d s)
  unfolding cleanup_service
  cleanup_service_keeps none d e volumes s p = delete_service_keeps d e (volumes refl) s p
  cleanup_service_keeps (some x) d e volumes s p =
      if_keeps P (is_blue_green_parent x) (λ b. destroy_deployment_keeps d.name s (inr (x, e, b)) p)
        p

  cleanup_ingress_keeps :
      (found : Option Service) (d : Service)
      → find_by_name config d.name ≡ found
      → (s : S) → P s
      → P (cleanup_ingress c found d s)
  unfolding cleanup_ingress
  cleanup_ingress_keeps none d e s p = p
  cleanup_ingress_keeps (some x) d e s p =
      if_keeps P (not (has_external_url x) && has_external_url d)
        (λ b. destroy_ingress_keeps d.name s (inr (x, e, and_left _ _ b)) p) p

  cleanup_hpa_keeps :
      (found : Option Service) (d : Service)
      → find_by_name config d.name ≡ found
      → (s : S) → P s
      → P (cleanup_hpa c found d s)
  unfolding cleanup_hpa
  cleanup_hpa_keeps none d e s p = p
  cleanup_hpa_keeps (some x) d e s p =
      if_keeps P (not (nonzero x.hpa.min_replicas) && nonzero d.hpa.min_replicas)
        (λ b. delete_keeps hpa d.name s (inr (x, e, and_left _ _ b)) p) p

  destroy_resource_keeps :
      (n rstype : Text) (s : S)
      → exists (λ (g : Gist). n == g.name) gists ≡ false
      → P s
      → P (destroy_resource c n rstype s)
  unfolding destroy_resource
  destroy_resource_keeps n rstype s j p =
      if_keeps P (rstype == type_configmap) (λ _. delete_keeps config_map n s j p)
        (if_keeps P (rstype == type_job) (λ _. delete_keeps job n s j p)
          (if_keeps P (rstype == type_cronjob) (λ _. delete_keeps cron_job n s j p) p))

  pub cleanup_gists_keeps : (gs : List Gist) (s : S) → P s → P (cleanup_gists c gists gs s)
  unfolding cleanup_gists
  cleanup_gists_keeps [] s p = p
  cleanup_gists_keeps (g ∷ gs) s p =
      cleanup_gists_keeps gs _ (elim (Bool-cases (exists (λ (h : Gist). g.name == h.name) gists)) [
        | inl e ↦ rw e p
        | inr e ↦ rw e (destroy_resource_keeps g.name g.type s e p)
      ])

  -- `rest` is what the loop has still to visit.
  pub cleanup_services_keeps :
      (rest : List Service)
      → ((n : Text) → OrphanVolume config rest n → OrphanVolume config all n)
      → (s : S) → P s
      → P (cleanup_services c config rest s)
  unfolding cleanup_services
  cleanup_services_keeps [] up s p = p
  cleanup_services_keeps (d ∷ rest) up s p =
      cleanup_services_keeps rest (λ n a. up n (inr a)) _
        (cleanup_hpa_keeps found d refl _ (
          cleanup_ingress_keeps found d refl _ (
            cleanup_service_keeps found d refl
              (λ e. named_volumes d.volumes (OrphanVolume config all) (λ n a. up n (inl (e, a)))) s
              p)))
    where
      found : Option Service
      found = find_by_name config d.name

-- Clients that also note each deletion they are asked for, the last one first.
abbrev pub Log : Type 0
Log = List (Kind × Text)

abbrev pub logged : {S : Type 0} → Clients S → Clients (S × Log)
logged c = record {
  destroy = λ k n st. let done = c.destroy k n st.0 in ((done.0, (k, n) ∷ st.1), done.1);
  deployment_exists = λ n st. c.deployment_exists n st.0;
  secrets_client = λ st. c.secrets_client st.0;
}

-- Whatever the clients do, when the namespace can be read then every deletion that a cleanup asks
-- for has its reason in the configuration: a service is deleted only when no configured service has
-- its name; a deployment only when there is none or it is a blue/green parent; an ingress or an
-- external secret only when there is none or it has no external URL; an autoscaler only when there
-- is none or it wants no minimal replicas; a claim only when it is a volume of a deployed service
-- whose name the configuration lacks; an imported resource only when none of its name is configured.
pub cleanup-IsJustified :
    {S : Type 0} (c : Clients S) (scrape : S → Result (List Service × List Gist))
    (config : List Service) (gists : List Gist) (s : S) (deployed : List Service)
    (found : List Gist)
    → scrape s ≡ ok (deployed, found)
    → All
        (λ (d : Kind × Text). IsJustified config gists deployed d.0 d.1)
        (cleanup (logged c) (λ st. scrape st.0) (some (config, gists)) (s, [])).0.1
unfolding cleanup
cleanup-IsJustified {S = S} c scrape config gists s deployed found e =
    rw (e, All)
      (cleanup_gists_keeps (logged c) config gists deployed Noted noted found _ (
        cleanup_services_keeps (logged c) config gists deployed Noted noted deployed (λ n a. a) _
          tt))
  where
    Noted : S × Log → Type 0
    Noted st = All (λ (d : Kind × Text). IsJustified config gists deployed d.0 d.1) st.1

    noted :
        (k : Kind) (n : Text) (st : S × Log)
        → IsJustified config gists deployed k n
        → Noted st
        → Noted ((logged c).destroy k n st).0
    noted k n st j p = (j, p)
