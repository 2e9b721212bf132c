-- ===== src/Reaper/Exact/Whole.antt =====
-- A cleanup leaves exactly what it is to leave.
use environment_operator.Prelude.{
  Text, ◌==◌, ==_iff, Bool, true, false, not, ◌&&◌, ◌||◌, List, [], ◌∷◌, Option, none, some, Result,
  ok, ◌≡◌, refl, ◌∙◌, arith, eqb, exists, if◌then◌else◌,
}
use environment_operator.Bitesize.Types.{Service, Volume}
use environment_operator.Bitesize.Service.{find_by_name}
use environment_operator.Bitesize.Gists.{Gist, type_configmap, type_job, type_cronjob}
use environment_operator.Reaper.{
  Kind, claim, config_map, job, cron_job, delete, destroy_resource, cleanup_gists, cleanup_services,
  cleanup,
}
use environment_operator.Reaper.Exact.{Present, exact, rank, dooms, type_of, dooms_gist, any_dooms}
use environment_operator.Reaper.Exact.Steps.{
  Leaves, nothing-Leaves, then-Leaves, claims_hit, round_of, round_hits, round-Leaves,
}

claims_hit-false :
    (k : Kind) (n : Text) (vs : List Volume) → eqb 5 (rank k) ≡ false → claims_hit k n vs ≡ false
claims_hit-false k n [] h = refl
claims_hit-false k n (v ∷ vs) h = ground (arith, claims_hit-false k n vs)

round_hits-dooms :
    (k : Kind) (n : Text) (found : Option Service) (d : Service)
    → round_hits k n found d ≡ dooms k n found d
round_hits-dooms claim n none d = ground arith
round_hits-dooms claim n (some c) d = ground arith
round_hits-dooms k n none d = ground (arith, claims_hit-false k n d.volumes)
round_hits-dooms _ n (some c) d = ground arith

cleanup_services-exact :
    (k : Kind) (n : Text) (config deployed : List Service)
    → Leaves k n (cleanup_services exact config deployed) (any_dooms k n config deployed)
unfolding cleanup_services
cleanup_services-exact k n config [] s = nothing-Leaves k n s
cleanup_services-exact k n config (d ∷ ds) s =
    rw (← round_hits-dooms k n (find_by_name config d.name) d) (
      then-Leaves k n (round_of k n (find_by_name config d.name) d)
        (cleanup_services exact config ds) _ _ (round-Leaves k n (find_by_name config d.name) d)
        (cleanup_services-exact k n config ds) s)

abbrev resource_hits : Kind → Text → Text → Text → Bool
resource_hits k n name type = elim (type_of k) [ none ↦ false | some t ↦ name == n && type == t ]

destroy_resource-Leaves :
    (k : Kind) (n name type : Text)
    → Leaves k n (destroy_resource exact name type) (resource_hits k n name type)
unfolding destroy_resource delete
destroy_resource-Leaves config_map n name type s = ground arith
destroy_resource-Leaves job n name type s =
    ground (arith, ==_iff type type_configmap, ==_iff type type_job)
destroy_resource-Leaves cron_job n name type s =
    ground (arith, ==_iff type type_configmap, ==_iff type type_job, ==_iff type type_cronjob)
destroy_resource-Leaves _ n name type s = ground arith

abbrev cleanup_gist : List Gist → Gist → Present → Present
cleanup_gist config g s =
    if exists (λ (h : Gist). g.name == h.name) config
    then s
    else destroy_resource exact g.name g.type s

cleanup_gist-Leaves :
    (k : Kind) (n : Text) (config : List Gist) (g : Gist)
    → Leaves k n (cleanup_gist config g) (dooms_gist k n config g)
cleanup_gist-Leaves k n config g s =
    cleaned (exists (λ (h : Gist). g.name == h.name) config) (type_of k)
      (destroy_resource-Leaves k n g.name g.type s)
  where
    cleaned :
        (listed : Bool) (type : Option Text)
        → destroy_resource exact g.name g.type s k n
          ≡ (s k n && not (elim type [ none ↦ false | some t ↦ g.name == n && g.type == t ]))
        → (if listed then s else destroy_resource exact g.name g.type s) k n ≡ (
            s k n
            && not
                (elim type [ none ↦ false | some t ↦ g.name == n && (g.type == t && not listed) ]))
    cleaned true none h = ground arith
    cleaned true (some t) h = ground arith
    cleaned false none h = h
    cleaned false (some t) h = h ∙ ground arith

cleanup_gists-exact :
    (k : Kind) (n : Text) (config found : List Gist)
    → Leaves k n (cleanup_gists exact config found) (exists (dooms_gist k n config) found)
unfolding cleanup_gists
cleanup_gists-exact k n config [] s = nothing-Leaves k n s
cleanup_gists-exact k n config (g ∷ gs) s =
    then-Leaves k n (cleanup_gist config g) (cleanup_gists exact config gs) _ _
      (cleanup_gist-Leaves k n config g) (cleanup_gists-exact k n config gs) s

-- On a cluster that deletes what it is asked to, and that can be read, a cleanup succeeds, and leaves
-- an object exactly when it was there, no deployed service is a reason to delete it, and no imported
-- resource either. A service that the configuration lacks is the reason for its ingress, external
-- secret, deployment, service and autoscaler, and for the claims of its volumes that are neither
-- config maps nor secrets; one that is a blue/green parent there, for its deployment; one that has no
-- external URL there but had one, for its ingress and external secret; one that wants no minimal
-- replicas there but had some, for its autoscaler. An imported resource whose name the configuration
-- lacks is the reason for the config map, job or cron job that it is.
pub cleanup-exact :
    (scrape : Present → Result (List Service × List Gist)) (config deployed : List Service)
    (gists found : List Gist) (s : Present)
    → scrape s ≡ ok (deployed, found)
    → (left : Present) × (cleanup exact scrape (some (config, gists)) s ≡ (left, none))
      × ((k : Kind) (n : Text)
          → left k n
            ≡ (s k n && not (any_dooms k n config deployed || exists (dooms_gist k n gists) found)))
unfolding cleanup
cleanup-exact scrape config deployed gists found s h = (
  cleanup_gists exact gists found (cleanup_services exact config deployed s),
  rw (h, cleanup) refl,
  λ k n.
      then-Leaves k n (cleanup_services exact config deployed) (cleanup_gists exact gists found) _ _
        (cleanup_services-exact k n config deployed) (cleanup_gists-exact k n gists found) s,
)
