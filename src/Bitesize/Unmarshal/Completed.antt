-- ===== src/Bitesize/Unmarshal/Completed.antt =====
-- What holds of every service that a document yields.
use mathlib.Core.Path.{subst}
use environment_operator.Prelude.{
  Text, TextMap, codes, true, false, List, [], ◌∷◌, Option, Result, ok, err, ◌>>=◌, ℤ, pos, nonzero,
  ◌≡◌, ◌≢◌, refl, is_empty, if◌then◌else◌, Bool-cases, inl, inr,
}
use environment_operator.Bitesize.Types.{Service, Fields, Metric}
use environment_operator.Bitesize.Zero.{no_metric}
use environment_operator.Bitesize.Unmarshal.{
  Defaults, Document, prefixed, unmarshal_ports, unmarshal_annotations, unmarshal_external_url,
  unmarshal_options, service_with_defaults, completed, unmarshal_service,
}

-- A step that is followed by a success was one.
step_ok :
    {A B : Type 0} (prefix : Text) (r : Result A) (f : A → Result B) (b : B)
    → (prefixed prefix r >>= f) ≡ ok b
    → (a : A) × (r ≡ ok a) × (f a ≡ ok b)
step_ok prefix (err x) f b h = cc
step_ok prefix (ok a) f b h = (a, refl, h)

-- A service that a document yields is a completed one, and the validator accepts it.
unmarshal_service-ok :
    (defaults : Defaults) (d : Document) (s : Service)
    → unmarshal_service defaults d ≡ ok s
    → (ports : List ℤ) × (annotations : TextMap Text) × (urls : List Text) × (options : Option
        Fields)
      × (plain : Service) × (unmarshal_ports d.ports ≡ ok ports)
      × (d.validate s ≡ ok tt)
      × (completed ports annotations urls options plain ≡ s)
unfolding unmarshal_service
unmarshal_service-ok defaults d s h =
    let (ports, ep, h1) = step_ok (codes "service.ports.") (unmarshal_ports d.ports) _ s h in
    let (annotations, _, h2) =
      step_ok (codes "service.annotations.") (unmarshal_annotations d.annotations) _ s h1 in
    let (urls, _, h3) =
      step_ok (codes "service.external_url.") (unmarshal_external_url d.external_url) _ s h2 in
    let (options, _, h4) =
      step_ok (codes "service.options.") (unmarshal_options d.options) _ s h3 in
    let (plain, _, h5) =
      step_ok (codes "service.") (d.decode (service_with_defaults defaults)) _ s h4 in
    let (valid, ev, h6) =
      step_ok (codes "service.") (d.validate (completed ports annotations urls options plain)) _ s
        h5 in
    let same : completed ports annotations urls options plain ≡ s = cc in
    (ports, annotations, urls, options, plain, ep, rw (← same) ev, same)

-- With a minimum of replicas the service starts from it and has a metric.
abbrev pub IsScaled : Service → Type 0
IsScaled s =
    nonzero s.hpa.min_replicas ≡ true → (s.replicas ≡ s.hpa.min_replicas) × (s.hpa.metric.name ≢ [])

completed-IsScaled :
    (ports : List ℤ) (annotations : TextMap Text) (urls : List Text) (options : Option Fields)
    (plain : Service)
    → IsScaled (completed ports annotations urls options plain)
unfolding completed
completed-IsScaled ports annotations urls options plain h =
    (rw h refl, rw h (named plain.hpa.metric))
  where
    named :
        (m : Metric)
        → (if is_empty m.name
            then record no_metric { name = codes "cpu"; target_average_utilization = pos 80 }
            else m).name
          ≢ []
    named m = elim (Bool-cases (is_empty m.name)) [
      | inl e ↦ rw e (λ f. cc)
      | inr e ↦ rw e (λ f. cc (rw f at e))
    ]

completed-ports :
    (ports : List ℤ) (annotations : TextMap Text) (urls : List Text) (options : Option Fields)
    (plain : Service)
    → (completed ports annotations urls options plain).ports
      ≡ (if is_empty plain.type then ports else [])
unfolding completed
completed-ports ports annotations urls options plain = refl

-- A service that is read from a document was accepted by the validator. If it has a minimum of
-- replicas for its autoscaler it starts from that many and its metric has a name. If it has a type it
-- has no ports; if it has none and the document names no port, its port is 80.
pub unmarshal_service-completed :
    (defaults : Defaults) (d : Document) (s : Service)
    → unmarshal_service defaults d ≡ ok s
    → (d.validate s ≡ ok tt)
      × IsScaled s
      × (is_empty s.type ≡ false → s.ports ≡ [])
      × (is_empty s.type ≡ true → d.ports ≡ ok ([], []) → s.ports ≡ pos 80 ∷ [])
unfolding completed unmarshal_ports
unmarshal_service-completed defaults d s h =
    let (ports, annotations, urls, options, plain, ep, ev, same) =
      unmarshal_service-ok defaults d s h in
    let (typed, untyped) = of_type ports annotations urls options plain ep in
    let result : IsScaled s
        × (is_empty s.type ≡ false → s.ports ≡ [])
        × (is_empty s.type ≡ true → d.ports ≡ ok ([], []) → s.ports ≡ pos 80 ∷ []) =
      subst
        (λ (x : Service).
          IsScaled x
          × (is_empty x.type ≡ false → x.ports ≡ [])
          × (is_empty x.type ≡ true → d.ports ≡ ok ([], []) → x.ports ≡ pos 80 ∷ []))
        same (completed-IsScaled ports annotations urls options plain, typed, untyped) in
    (ev, result.0, result.1, result.2)
  where
    default_port :
        (ports : List ℤ)
        → unmarshal_ports d.ports ≡ ok ports
        → d.ports ≡ ok ([], [])
        → ports ≡ pos 80 ∷ []
    default_port ports ep none_named = cc (rw none_named at ep)

    of_type :
        (ports : List ℤ) (annotations : TextMap Text) (urls : List Text) (options : Option Fields)
        (plain : Service)
        → unmarshal_ports d.ports ≡ ok ports
        → (is_empty plain.type ≡ false
            → (completed ports annotations urls options plain).ports ≡ [])
          × (is_empty plain.type ≡ true
              → d.ports ≡ ok ([], [])
              → (completed ports annotations urls options plain).ports ≡ pos 80 ∷ [])
    of_type ports annotations urls options plain ep =
        (λ t. rw t refl, λ t none_named. rw t (default_port ports ep none_named))
