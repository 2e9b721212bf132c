-- ===== src/Diff/Align.antt =====
-- `alignServices` of pkg/diff/compare.go: the desired service is brought to the deployed one where a
-- difference is none that the operator should act on.
pub mod Laws
use environment_operator.Prelude.{
  Text, TextMap, text_at, insert, equal_fold, ◌==◌, Bool, List, [], ◌∷◌, Option, none, some, ℤ,
  nonzero, is_empty, if◌then◌else◌,
}
use environment_operator.Bitesize.Types.{
  DeploymentSettings, HttpGetAction, Probe, Resources, Service,
}
use environment_operator.Bitesize.Zero.{no_status}
use environment_operator.Diff.Tools.{Tools}

-- the desired number or list, or the current one where none is given
unfoldable pub or_int : ℤ → ℤ → ℤ
or_int d c = if nonzero d then d else c

unfoldable pub or_list {ℓ} : {A : Type ℓ} → List A → List A → List A
or_list d c = if is_empty d then c else d

unfoldable pub align_http_get : HttpGetAction → HttpGetAction → HttpGetAction
unfolding or_list
align_http_get d c = record d {
  path = or_list d.path c.path;
  host = or_list d.host c.host;
  scheme = or_list d.scheme c.scheme;
  http_headers = or_list d.http_headers c.http_headers;
}

unfoldable pub align_get : Option HttpGetAction → Option HttpGetAction → Option HttpGetAction
unfolding align_http_get
align_get (some d) (some c) = some (align_http_get d c)
align_get d _ = d

unfoldable pub align_probe : Probe → Probe → Probe
unfolding or_int align_get
align_probe d c = record d {
  handler = record d.handler { http_get = align_get d.handler.http_get c.handler.http_get };
  initial_delay_seconds = or_int d.initial_delay_seconds c.initial_delay_seconds;
  timeout_seconds = or_int d.timeout_seconds c.timeout_seconds;
  period_seconds = or_int d.period_seconds c.period_seconds;
  success_threshold = or_int d.success_threshold c.success_threshold;
  failure_threshold = or_int d.failure_threshold c.failure_threshold;
}

unfoldable pub align_probes : Option Probe → Option Probe → Option Probe
unfolding align_probe
align_probes (some d) (some c) = some (align_probe d c)
align_probes d _ = d

-- Whether the headers are empty and not nil: the desired ones are the current ones where they are
-- empty.
unfoldable pub headers_made : Option HttpGetAction → Option HttpGetAction → Bool → Bool → Bool
headers_made (some d) (some c) desired current =
    if is_empty d.http_headers then current else desired
headers_made _ _ desired current = desired

unfoldable pub align_headers : Option Probe → Option Probe → Bool → Bool → Bool
unfolding headers_made
align_headers (some d) (some c) desired current =
    headers_made d.handler.http_get c.handler.http_get desired current
align_headers _ _ desired current = desired

-- for k, v := range current { if desired[k] == "" { desired[k] = v } }
unfoldable pub merge_annotations : TextMap Text → TextMap Text → TextMap Text
merge_annotations desired [] = desired
merge_annotations desired ((k, v) ∷ current) =
    merge_annotations (if text_at k desired == [] then insert k v desired else desired) current

unfoldable pub align_annotations : Text → TextMap Text → TextMap Text → TextMap Text
unfolding merge_annotations
align_annotations current_version desired current =
    if is_empty current_version then current else merge_annotations desired current

unfoldable pub clear_blue_green : Option DeploymentSettings → Option DeploymentSettings
clear_blue_green none = none
clear_blue_green (some d) = some (record d { blue_green = none })

unfoldable pub align_type : Text → Text → Text
unfolding equal_fold
align_type d c = if is_empty d then d else if equal_fold d c then c else d

module _ (t : Tools) where
  unfoldable pub sync_quantity : Text → Text → Text
  sync_quantity d c = if t.same_quantity c d then c else d

  unfoldable pub sync_resources : Resources → Resources → Resources
  unfolding sync_quantity
  sync_resources d c = record {
    cpu = sync_quantity d.cpu c.cpu;
    memory = sync_quantity d.memory c.memory;
  }

  -- The limits of a service with a type are not applied, so the deployed ones are taken first.
  unfoldable pub align_limits : Text → Resources → Resources → Resources
  unfolding sync_resources
  align_limits type d c = sync_resources (if is_empty type then d else c) c

  -- The desired service as the function leaves it.
  unfoldable pub align_desired : Service → Service → Service
  unfolding or_list align_probes align_annotations clear_blue_green sync_resources align_limits
      align_type align_headers
  align_desired d c = record d {
    version = or_list d.version c.version;
    application = or_list d.application c.application;
    status = c.status;
    deployment = clear_blue_green d.deployment;
    limits = align_limits d.type d.limits c.limits;
    type = align_type d.type c.type;
    requests = sync_resources d.requests c.requests;
    replicas = if nonzero c.hpa.min_replicas then c.replicas else d.replicas;
    liveness_probe = align_probes d.liveness_probe c.liveness_probe;
    readiness_probe = align_probes d.readiness_probe c.readiness_probe;
    annotations = align_annotations c.version d.annotations c.annotations;
    empties = record d.empties {
      liveness_headers =
          align_headers d.liveness_probe c.liveness_probe d.empties.liveness_headers
            c.empties.liveness_headers;
      readiness_headers =
          align_headers d.readiness_probe c.readiness_probe d.empties.readiness_headers
            c.empties.readiness_headers;
    };
  }

-- The deployed service as the function leaves it.
unfoldable pub align_current : Service → Service
unfolding clear_blue_green
align_current c = record c { deployment = clear_blue_green c.deployment }
