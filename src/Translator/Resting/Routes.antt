-- ===== src/Translator/Resting/Routes.antt =====
-- A service that has external URLs, over the one that has none.
use environment_operator.Prelude.{Text, List, ◌∷◌, ℤ, ◌≡◌, refl, false}
use environment_operator.Bitesize.Types.{Service}
use environment_operator.Bitesize.Zero.{no_empties}
use environment_operator.Bitesize.Service.{
  active_deployment_name, active_deployment_tag, is_blue_green_parent, deployment_method,
}
use environment_operator.Translator.Objects.{Process, Cluster}
use environment_operator.Translator.Deployments.{deployment_object}
use environment_operator.Translator.Services.{service_object}
use environment_operator.Translator.Deployed.{IsHeld}
use environment_operator.Translator.Settled.{Core, plain}
use environment_operator.Translator.Routed.{IsRead}

-- What the configuration says of the ingress of a service.
pub record Route : Type 0 where
  pub url : Text
  pub urls : List Text
  pub ssl : Text
  pub https_only : Text
  pub https_backend : Text
  pub http2 : Text
  pub backend : Text
  pub backend_port : ℤ

abbrev pub routed : Core → Route → Service
routed c r = record (plain c) {
  external_url = r.url ∷ r.urls;
  ssl = r.ssl;
  https_only = r.https_only;
  https_backend = r.https_backend;
  http2 = r.http2;
  backend = r.backend;
  backend_port = r.backend_port;
  empties = no_empties;
}

pub routed-deployment :
    (p : Process) (cl : Cluster) (namespace : Text) (c : Core) (r : Route)
    → deployment_object p cl namespace (routed c r) ≡ deployment_object p cl namespace (plain c)
unfolding deployment_object is_blue_green_parent
routed-deployment p cl namespace c r = refl

pub routed-service :
    (namespace : Text) (c : Core) (r : Route)
    → service_object namespace (routed c r) ≡ service_object namespace (plain c)
unfolding service_object is_blue_green_parent deployment_method active_deployment_tag
    active_deployment_name
routed-service namespace c r = refl

pub routed-IsHeld :
    (cl : Cluster) (c : Core) (r : Route) → IsHeld cl (routed c r) → IsHeld cl (plain c)
routed-IsHeld cl c r h = record {
  variables = h.variables;
  liveness = h.liveness;
  readiness = h.readiness;
  count = h.count;
  requested = h.requested;
  limited = h.limited;
}

-- The fields that an ingress sets.
abbrev pub with_route : Service → Service → Service
with_route t s = record s {
  external_url = t.external_url;
  ssl = t.ssl;
  https_only = t.https_only;
  https_backend = t.https_backend;
  http2 = t.http2;
  backend = t.backend;
  backend_port = t.backend_port;
  empties = record s.empties { external_url = false };
}

pub with_route-routed :
    (c : Core) (r : Route) (t : Service)
    → IsRead (routed c r) t
    → with_route t (plain c) ≡ routed c r
with_route-routed c r t a =
    rw (a.external_url, a.ssl, a.https_only, a.https_backend, a.http2, a.backend, a.backend_port)
      refl
