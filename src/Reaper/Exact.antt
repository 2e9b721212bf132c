-- ===== src/Reaper/Exact.antt =====
-- What a cleanup is to leave of a cluster that deletes what it is asked to: a set of names for each
-- kind.
pub mod Steps
pub mod Whole
use environment_operator.Prelude.{
  ℕ, Text, ◌==◌, ==_iff, codes, Bool, true, false, not, ◌&&◌, ◌||◌, List, [], ◌∷◌, Option, none,
  some, Result, ok, ◌≡◌, refl, ◌∙◌, ap, arith, eqb, Bool-cases, inl, inr, nonzero, exists,
  if◌then◌else◌,
}
use mathlib.Core.Path.{subst}
use environment_operator.Bitesize.Types.{Service, Volume}
use environment_operator.Bitesize.Service.{has_external_url, is_blue_green_parent, find_by_name}
use environment_operator.Bitesize.Gists.{Gist, type_configmap, type_job, type_cronjob}
use environment_operator.Bitesize.Volumes.{is_config_map_volume, is_secret_volume}
use environment_operator.Reaper.{
  Kind, ingress, external_secret, deployment, service, hpa, claim, config_map, job, cron_job,
  Clients, delete, destroy_external_secret, destroy_ingress, destroy_deployment, destroy_volumes,
  delete_service, destroy_resource, cleanup_ingress, cleanup_hpa, cleanup_gists, cleanup_service,
  cleanup_services, cleanup,
}

abbrev pub rank : Kind → ℕ
rank ingress = 0
rank external_secret = 1
rank deployment = 2
rank service = 3
rank hpa = 4
rank claim = 5
rank config_map = 6
rank job = 7
rank cron_job = 8

-- Whether there is an object of a kind and a name.
abbrev pub Present : Type 0
Present = Kind → Text → Bool

-- Whether the object of a kind and a name is the one of another.
abbrev pub hits : Kind → Text → Kind → Text → Bool
hits k' n' k n = eqb (rank k') (rank k) && n' == n

abbrev pub without : Kind → Text → Present → Present
without k' n' s k n = if hits k' n' k n then false else s k n

abbrev pub exact : Clients Present
exact = record {
  destroy = λ k n s. (without k n s, none);
  deployment_exists = λ n s. s deployment n;
  secrets_client = λ s. none;
}

-- Whether a deployed service is the reason to delete an object of a kind and a name, given the
-- configured service of its name.
abbrev pub dooms : Kind → Text → Option Service → Service → Bool
dooms ingress n none d = d.name == n
dooms ingress n (some c) d = d.name == n && (not (has_external_url c) && has_external_url d)
dooms external_secret n none d = d.name == n
dooms external_secret n (some c) d = d.name == n && (not (has_external_url c) && has_external_url d)
dooms deployment n none d = d.name == n
dooms deployment n (some c) d = d.name == n && is_blue_green_parent c
dooms service n none d = d.name == n
dooms hpa n none d = d.name == n
dooms hpa n (some c) d =
    d.name == n && (not (nonzero c.hpa.min_replicas) && nonzero d.hpa.min_replicas)
dooms claim n none d =
    exists (λ (v : Volume). not (is_config_map_volume v || is_secret_volume v) && v.name == n)
      d.volumes
dooms _ n _ d = false

abbrev pub type_of : Kind → Option Text
type_of config_map = some type_configmap
type_of job = some type_job
type_of cron_job = some type_cronjob
type_of _ = none

-- Whether an imported resource is the reason.
abbrev pub dooms_gist : Kind → Text → List Gist → Gist → Bool
dooms_gist k n config g = elim (type_of k) [
  | none ↦ false
  | some type ↦
      g.name == n && (g.type == type && not (exists (λ (h : Gist). g.name == h.name) config))
]

-- Whether some deployed service is the reason.
abbrev pub any_dooms : Kind → Text → List Service → List Service → Bool
any_dooms k n config = exists λ (d : Service). dooms k n (find_by_name config d.name) d
