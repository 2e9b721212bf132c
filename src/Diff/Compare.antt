-- ===== src/Diff/Compare.antt =====
-- `Compare` of pkg/diff/compare.go and the change map of pkg/diff/servicechange.go. The loop takes
-- the change map, the services that are left and the deployed services, and hands on what it wrote
-- through the pointers and maps that its copies share with the two environments.
pub mod Reports
pub mod Runs
pub mod Copies
pub mod Converged
pub mod Desired
pub mod Cleared
use environment_operator.Prelude.{
  Text, TextMap, codes, lookup, insert, ◌==◌, Bool, true, false, not, ◌&&◌, ◌||◌, List, [], ◌∷◌,
  ◌++◌, Option, none, some, is_empty, if◌then◌else◌,
}
use environment_operator.Bitesize.Types.{Service}
use environment_operator.Bitesize.Zero.{no_status}
use environment_operator.Bitesize.Service.{
  is_blue_green_parent, is_active_blue_green, is_tls_enabled, active_deployment_name, find_by_name,
}
use environment_operator.Diff.Tools.{Tools}
use environment_operator.Diff.Align.{align_desired, align_current}

abbrev pub Changes : Type 0
Changes = TextMap Text

-- addServiceChange, where there is a difference
unfoldable pub add_difference : Text → Text → Changes → Changes
add_difference name difference changes =
    if is_empty difference then changes else insert name difference changes

unfoldable pub service_changed : Changes → Text → Bool
service_changed changes name = elim (lookup name changes) [ none ↦ false | some d ↦ true ]

-- What one round of the loop leaves: the change map, and whether the services were aligned, with
-- the deployed service that was aligned with.
pub record Round : Type 0 where
  pub changes : Changes
  pub aligned : Option Service

pub record Outcome : Type 0 where
  pub changes : Changes
  pub desired : List Service
  pub existing : List Service

abbrev skip : Changes → Round
skip changes = record { changes = changes; aligned = none }

abbrev not_empty : Text → Bool
not_empty s = not (is_empty s)

abbrev pub has_version : Option Service → Bool
has_version none = false
has_version (some e) = not_empty e.version

-- The deployed service with its status reset.
abbrev pub without_status : Service → Service
without_status e = record e { status = no_status }

-- The difference of two active names; `none` is the panic on a nil `Active`.
abbrev name_difference : Tools → Option Text → Option Text → Option Text
name_difference t (some a) (some b) = some (t.diff_names a b)
name_difference t _ _ = none

-- The deployed services after a service was aligned: the first of its name shares its settings.
unfoldable pub share_current : Text → List Service → List Service
share_current name [] = []
share_current name (e ∷ es) =
    if e.name == name
    then record e { deployment = (align_current e).deployment } ∷ es
    else e ∷ share_current name es

-- The URLs, with whether they are empty and not nil.
abbrev pub urls_of : Service → List Text × Bool
urls_of s = (s.external_url, s.empties.external_url)

module _ (t : Tools) (namespace : Text) where
  abbrev pub secret_missing : Service → Bool
  secret_missing d =
      t.external_secrets_enabled
      && (is_tls_enabled d && not (t.external_secret_exists namespace d.name))

  unfoldable pub check_secret : Service → Changes → Changes
  check_secret d changes =
      if secret_missing d
      then insert d.name (codes "ExternalSecrets: +" ++ d.name) changes
      else changes

  -- From "Changes are only applied if" on.
  unfoldable pub compare_versioned : Option Service → Service → Changes → Round
  compare_versioned none d changes = record {
    changes = check_secret d (
        if not_empty d.version
        then add_difference d.name (t.diff_services none d) changes
        else changes);
    aligned = none;
  }
  compare_versioned (some e) d changes =
      let d' = align_desired t d (without_status e) in
      let e' = align_current (without_status e) in
      if not_empty d.version || not_empty e.version
      then record {
        changes = check_secret d' (add_difference d.name (t.diff_services (some e') d') changes);
        aligned = some e;
      }
      else record { changes = check_secret d changes; aligned = none }

  -- A blue/green parent is reported when it is new, or when its URLs or its active name differ.
  unfoldable pub compare_parent : Option Service → Service → Changes → Option Round
  compare_parent none d changes = some (skip (insert d.name (t.diff_services none d) changes))
  compare_parent (some e) d changes =
      let urls = t.diff_urls (urls_of e) (urls_of d) in
      if not_empty urls
      then some (skip (insert d.name urls changes))
      else elim (name_difference t (active_deployment_name e) (active_deployment_name d)) [
        | none ↦ none
        | some names ↦
            if not_empty names
            then some (skip (insert d.name names changes))
            else some (compare_versioned (some e) d changes)
      ]

  unfoldable pub force_parent : Option Service → Service → Changes → Changes
  force_parent (some e) d changes = changes
  force_parent none d changes =
      if is_blue_green_parent d then insert d.name (codes "Name: +" ++ d.name) changes else changes

  -- The body of the loop, for a desired service and the deployed one of its name.
  unfoldable pub compare_service : Option Service → Service → Changes → Option Round
  compare_service e d changes =
      let forced = force_parent e d changes in
      if is_active_blue_green d
      then some (skip forced)
      else if is_blue_green_parent d
      then compare_parent e d forced
      else some (compare_versioned e d forced)

  -- The fields of the desired service that its copy shares by pointer, or by map, and that were
  -- written when it was aligned. Annotations are shared where they were merged into.
  unfoldable pub share_desired : Option Service → Service → Service
  share_desired none d = d
  share_desired (some e) d =
      let d' = align_desired t d (without_status e) in
      record d {
        deployment = d'.deployment;
        liveness_probe = d'.liveness_probe;
        readiness_probe = d'.readiness_probe;
        annotations = if is_empty e.version then d.annotations else d'.annotations;
      }

  abbrev share_round : Text → Round → List Service → List Service
  share_round name r es = elim r.aligned [ none ↦ es | some e ↦ share_current name es ]

  unfoldable pub compare_all : List Service → List Service → Changes → Option Outcome
  compare_all [] es changes = some (record { changes = changes; desired = []; existing = es })
  compare_all (d ∷ ds) es changes = elim (compare_service (find_by_name es d.name) d changes) [
    | none ↦ none
    | some r ↦ elim (compare_all ds (share_round d.name r es) r.changes) [
      | none ↦ none
      | some o ↦ some (record o { desired = share_desired r.aligned d ∷ o.desired })
    ]
  ]

-- `Compare`: the changes are collected anew, and the answer is whether there are any.
unfoldable pub compare : Tools → Text → List Service → List Service → Option (Outcome × Bool)
compare t namespace desired existing = elim (compare_all t namespace desired existing []) [
  | none ↦ none
  | some o ↦ some (o, not (is_empty o.changes))
]
