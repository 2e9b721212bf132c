-- ===== src/Reaper/Orphans.antt =====
-- The reaper misses nothing: what it asks the clients to delete for the services and the imported
-- resources that the configuration lacks.
use environment_operator.Prelude.{
  Text, true, false, List, [], ◌∷◌, none, some, Result, ok, ◌≡◌, refl, sym, ◌||◌, nonzero, not,
  ◌&&◌, inl, inr, Any, Bool-cases,
}
use mathlib.Core.Path.{subst}
use environment_operator.Bitesize.Volumes.{is_config_map_volume, is_secret_volume}
use environment_operator.Bitesize.Types.{Service, Volume}
use environment_operator.Bitesize.Service.{find_by_name, has_external_url}
use environment_operator.Bitesize.Gists.{Gist}
use environment_operator.Reaper.{
  Kind, ingress, service, hpa, Clients, delete, destroy_ingress, destroy_deployment,
  destroy_volumes, delete_service, cleanup_service, cleanup_ingress, cleanup_hpa, cleanup_services,
  cleanup,
}
use environment_operator.Reaper.Justified.{Log, logged, cleanup_gists_keeps, cleanup_services_keeps}

-- The log has a deletion of the kind and the name.
abbrev pub Noted : Kind → Text → Log → Type 0
Noted k n log = Any (λ d. d ≡ (k, n)) log

module _ {S : Type 0} (c : Clients S) where
  -- One round of the loop over the deployed services.
  abbrev round : List Service → Service → S × Log → S × Log
  round config d st =
      let found = find_by_name config d.name in
      cleanup_hpa (logged c) found d
        (cleanup_ingress (logged c) found d (cleanup_service (logged c) found d st))

  -- What the round of one service notes is in the log at the end.
  services-Noted :
      (config rest : List Service) (d : Service)
      → Any (λ x. x ≡ d) rest
      → (k : Kind) (n : Text) → ((st : S × Log) → Noted k n (round config d st).1)
      → (st : S × Log) → Noted k n (cleanup_services (logged c) config rest st).1
  unfolding cleanup_services
  services-Noted config [] d here k n notes st = elim here [ ]
  services-Noted config (x ∷ rest) d (inl e) k n notes st =
      cleanup_services_keeps (logged c) config [] rest (λ t. Noted k n t.1) (λ j m t why p. inr p)
        rest (λ m a. a) _
        (subst (λ y. (t : S × Log) → Noted k n (round config y t).1) (sym e) notes st)
  services-Noted config (x ∷ rest) d (inr later) k n notes st =
      services-Noted config rest d later k n notes _

  cleanup-Noted :
      (scrape : S → Result (List Service × List Gist)) (config : List Service) (gists : List Gist)
      (s : S) (deployed : List Service) (found : List Gist)
      → scrape s ≡ ok (deployed, found)
      → (d : Service) → Any (λ x. x ≡ d) deployed
      → (k : Kind) (n : Text) → ((st : S × Log) → Noted k n (round config d st).1)
      → Noted k n (cleanup (logged c) (λ st. scrape st.0) (some (config, gists)) (s, [])).0.1
  unfolding cleanup
  cleanup-Noted scrape config gists s deployed found e d here k n notes =
      rw (e, Any)
        (cleanup_gists_keeps (logged c) config gists deployed (λ t. Noted k n t.1)
          (λ j m t why p. inr p) found _ (services-Noted config deployed d here k n notes (s, [])))

  destroy_volumes_notes :
      (vs : List Volume) (k : Kind) (n : Text) (st : S × Log)
      → Noted k n st.1
      → Noted k n (destroy_volumes (logged c) vs st).1
  unfolding destroy_volumes delete
  destroy_volumes_notes [] k n st p = p
  destroy_volumes_notes (v ∷ vs) k n st p =
      destroy_volumes_notes vs k n _
        (elim (Bool-cases (is_config_map_volume v || is_secret_volume v)) [
          | inl e ↦ rw e p
          | inr e ↦ rw e (inr p)
        ])

  destroy_deployment_notes :
      (name : Text) (k : Kind) (n : Text) (st : S × Log)
      → Noted k n st.1
      → Noted k n (destroy_deployment (logged c) name st).1
  unfolding destroy_deployment delete
  destroy_deployment_notes name k n st p = elim (Bool-cases (c.deployment_exists name st.0)) [
    | inl e ↦ rw e (inr p)
    | inr e ↦ rw e p
  ]

  destroy_ingress_notes :
      (name : Text) (st : S × Log) → Noted ingress name (destroy_ingress (logged c) name st).1
  unfolding destroy_ingress delete
  destroy_ingress_notes name st = inl refl

  delete_service_notes :
      (d : Service) (st : S × Log)
      → Noted ingress d.name (delete_service (logged c) d st).1
        × Noted service d.name (delete_service (logged c) d st).1
        × Noted hpa d.name (delete_service (logged c) d st).1
  unfolding delete_service delete
  delete_service_notes d st = (
    destroy_volumes_notes d.volumes ingress d.name _ (
        inr (
          inr
            (destroy_deployment_notes d.name ingress d.name _ (destroy_ingress_notes d.name st)))),
    destroy_volumes_notes d.volumes service d.name _ (inr (inl refl)),
    destroy_volumes_notes d.volumes hpa d.name _ (inl refl),
  )

  round_orphan :
      (config : List Service) (d : Service) (st : S × Log)
      → find_by_name config d.name ≡ none
      → round config d st ≡ delete_service (logged c) d st
  unfolding cleanup_service cleanup_ingress cleanup_hpa
  round_orphan config d st e = rw (e, cleanup_service) refl

  -- Whatever the clients do, when the namespace can be read then a cleanup asks for the deletion of
  -- the ingress, the service and the autoscaler of every deployed service whose name the
  -- configuration lacks.
  pub cleanup-orphan :
      (scrape : S → Result (List Service × List Gist)) (config : List Service) (gists : List Gist)
      (s : S) (deployed : List Service) (found : List Gist)
      → scrape s ≡ ok (deployed, found)
      → (d : Service) → Any (λ x. x ≡ d) deployed
      → find_by_name config d.name ≡ none
      → let log = (cleanup (logged c) (λ st. scrape st.0) (some (config, gists)) (s, [])).0.1 in
        Noted ingress d.name log × Noted service d.name log × Noted hpa d.name log
  cleanup-orphan scrape config gists s deployed found e d here orphan = (
    reach ingress (λ st. (delete_service_notes d st).0),
    reach service (λ st. (delete_service_notes d st).1),
    reach hpa (λ st. (delete_service_notes d st).2),
  )
    where
      reach :
          (k : Kind)
          → ((st : S × Log) → Noted k d.name (delete_service (logged c) d st).1)
          → Noted k d.name
              (cleanup (logged c) (λ st. scrape st.0) (some (config, gists)) (s, [])).0.1
      reach k notes = cleanup-Noted scrape config gists s deployed found e d here k d.name (λ st.
          subst (λ (t : S × Log). Noted k d.name t.1) (sym (round_orphan config d st orphan))
            (notes st))

  cleanup_ingress_notes :
      (x d : Service) (st : S × Log)
      → has_external_url x ≡ false
      → has_external_url d ≡ true
      → Noted ingress d.name (cleanup_ingress (logged c) (some x) d st).1
  unfolding cleanup_ingress
  cleanup_ingress_notes x d st off on = rw off (rw on (destroy_ingress_notes d.name st))

  cleanup_hpa_notes :
      (x d : Service) (k : Kind) (n : Text) (st : S × Log)
      → Noted k n st.1
      → Noted k n (cleanup_hpa (logged c) (some x) d st).1
  unfolding cleanup_hpa delete
  cleanup_hpa_notes x d k n st p =
      elim (Bool-cases (not (nonzero x.hpa.min_replicas) && nonzero d.hpa.min_replicas)) [
        | inl e ↦ rw e (inr p)
        | inr e ↦ rw e p
      ]

  round_dropped :
      (config : List Service) (d x : Service) (st : S × Log)
      → find_by_name config d.name ≡ some x
      → has_external_url x ≡ false
      → has_external_url d ≡ true
      → Noted ingress d.name (round config d st).1
  round_dropped config d x st e off on =
      subst
        (λ found.
          Noted ingress d.name
            (cleanup_hpa (logged c) found d
              (cleanup_ingress (logged c) found d (cleanup_service (logged c) found d st))).1)
        (sym e) (cleanup_hpa_notes x d ingress d.name _ (cleanup_ingress_notes x d _ off on))

  -- Whatever the clients do, when the namespace can be read then a cleanup asks for the deletion of
  -- the ingress of every deployed service that has an external URL while the configured service
  -- of its name has none.
  cleanup-dropped_url :
      (scrape : S → Result (List Service × List Gist)) (config : List Service) (gists : List Gist)
      (s : S) (deployed : List Service) (found : List Gist)
      → scrape s ≡ ok (deployed, found)
      → (d : Service) → Any (λ x. x ≡ d) deployed
      → (x : Service) → find_by_name config d.name ≡ some x
      → has_external_url x ≡ false
      → has_external_url d ≡ true
      → Noted ingress d.name
          (cleanup (logged c) (λ st. scrape st.0) (some (config, gists)) (s, [])).0.1
  cleanup-dropped_url scrape config gists s deployed found e d here x same off on =
      cleanup-Noted scrape config gists s deployed found e d here ingress d.name
        (λ st. round_dropped config d x st same off on)
