-- ===== src/Operator.antt =====
-- The loop of cmd/operator/main.go. The local copy of the repository and the cluster are its state;
-- loading the configuration from the copy, reading a namespace, and applying a service are parameters.
pub mod Settled
pub mod Start
pub mod Loop
pub mod Deployed
use environment_operator.Prelude.{
  Text, codes, ap, List, [], ◌∷◌, ◌++◌, Option, none, some, Result, ok, err, ◌≡◌, refl,
  if◌then◌else◌, true, false, Bool-cases, inl, inr,
}
use environment_operator.Bitesize.Types.{Service}
use environment_operator.Bitesize.Gists.{Gist, Environment}
use environment_operator.Diff.Tools.{Tools}
use environment_operator.Diff.Compare.{compare}
use environment_operator.Cluster.Apply.{apply_if_changed}
use environment_operator.Reaper.{Clients, cleanup}
use environment_operator.Git.{Config, Git, Library, refresh}

abbrev pub services_of : Result (List Service × List Gist) → Result (List Service)
services_of (err x) = err x
services_of (ok (services, gists)) = ok services

abbrev logged : Option Text → List Text
logged none = []
logged (some x) = x ∷ []

module _ {G S : Type 0} (lib : Library G) (c : Config) (git : Git)
    (load : G → Option (Result Environment)) (t : Tools)
    (scrape : Text → S → Result (List Service × List Gist))
    (apply_service : Service → List Gist → Text → S → S × Option Text) (clients : Clients S)
    (reaper_namespace : Text) where
  -- The services of the configuration after it was compared: the comparison writes to them.
  unfoldable pub compared : Environment → S → List Service
  compared e s = elim (scrape e.namespace s) [
    | err x ↦ e.services
    | ok (current, _) ↦ elim (compare t e.namespace e.services current) [
      | none ↦ e.services
      | some (o, _) ↦ o.desired
    ]
  ]

  -- What the reaper gets: it refuses a configuration with nil services.
  abbrev pub reaped_by : Environment → List Service → Option (List Service × List Gist)
  reaped_by e desired = if e.nil_services then none else some (desired, e.gists)

  -- What is not loaded is neither applied nor reaped; both of these may fail, and both are tried.
  unfoldable pub apply_and_reap : Result Environment → S → Option (S × List Text)
  unfolding compared
  apply_and_reap (err x) s = some (s, x ∷ [])
  apply_and_reap (ok e) s =
      elim (apply_if_changed apply_service t (λ n z. services_of (scrape n z)) (some e) s) [
        | none ↦ none
        | some (s', applied) ↦
            let reaped =
              cleanup clients (scrape reaper_namespace) (reaped_by e (compared e s)) s' in
            some (reaped.0, logged applied ++ logged reaped.1)
      ]

  abbrev pub beside : G → Option (S × List Text) → Option (G × S × List Text)
  beside g none = none
  beside g (some (s, errors)) = some (g, s, errors)

  abbrev from_copy : G → S → Option (Result Environment) → Option (G × S × List Text)
  from_copy g s none = none
  from_copy g s (some loaded) = beside g (apply_and_reap loaded s)

  -- One round of the loop, with the errors of loading, applying and reaping that it logs. What the
  -- refresh returns is only logged, and the copy that it leaves is loaded.
  unfoldable pub round : G → S → Option (G × S × List Text)
  unfolding apply_and_reap
  round g s = let refreshed = refresh lib c git g in from_copy refreshed.0 s (load refreshed.0)

  unread :
      (e : Environment) (s : S) (x y : Text)
      → scrape e.namespace s ≡ err x
      → scrape reaper_namespace s ≡ err y
      → (z : Text) × (apply_and_reap (ok e) s ≡ some (s, x ∷ z ∷ []))
  unfolding apply_and_reap apply_if_changed cleanup
  unread e s x y h k = elim (Bool-cases e.nil_services) [
    | inl g ↦ (
      codes "REAPER: error with bitesize file, configuration is nil",
      rw (apply_and_reap, apply_if_changed, h, g, cleanup) refl,
    )
    | inr g ↦ (
      codes "REAPER: error loading environment: " ++ y,
      rw (apply_and_reap, apply_if_changed, h, g, cleanup, k) refl,
    )
  ]

  copied :
      (g : G) (s : S) (loaded : Result Environment) (x : Text → Text)
      → ((n : Text) → scrape n s ≡ err (x n))
      → (error : Text) × (more : List Text) × (from_copy g s (some loaded)
          ≡ some (g, s, error ∷ more))
  unfolding apply_and_reap
  copied g s (err y) x h = (_, _, refl)
  copied g s (ok e) x h =
      let (z, r) = unread e s (x e.namespace) (x reaper_namespace) (h _) (h _) in
      (x e.namespace, z ∷ [], ap (beside g) r)

  -- When no namespace can be read, and loading the refreshed copy does not panic, a round leaves the
  -- cluster as it is, whatever was loaded, keeps the copy that the refresh left, and logs an error.
  pub round-unread :
      (g : G) (s : S) (loaded : Result Environment) (x : Text → Text)
      → load (refresh lib c git g).0 ≡ some loaded
      → ((n : Text) → scrape n s ≡ err (x n))
      → (error : Text) × (more : List Text) × (round g s
          ≡ some ((refresh lib c git g).0, s, error ∷ more))
  unfolding round
  round-unread g s loaded x l h =
      let (error, more, r) = copied (refresh lib c git g).0 s loaded x h in
      (error, more, rw (l, round) r)
