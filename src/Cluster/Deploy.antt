-- ===== src/Cluster/Deploy.antt =====
-- `ApplyService` of pkg/cluster/cluster.go: the objects of one service, applied in turn. What the
-- translator makes of the service, and the Kubernetes clients, are parameters. The state is the
-- cluster's; an error is its text; `exited` is the end of the process by log.Fatalf.
pub mod Errors
use environment_operator.Prelude.{
  Text, Bool, true, false, ◌&&◌, List, [], ◌∷◌, ◌++◌, Option, none, some, Result, ok, err,
  if◌then◌else◌, is_empty,
}
use environment_operator.Bitesize.Types.{Service}
use environment_operator.Bitesize.Service.{has_external_url, is_service_mesh_enabled}

-- The client that applies an object.
pub data Kind : Type 0 where
  claim config_map deployment service hpa ingress external_secret gateway virtual_service custom :
      Kind

-- What the translator makes of a service. A method whose error the caller drops yields its object.
pub record Mapped (O : Type 0) : Type 0 where
  pub claims : List O
  pub config_maps : List O
  pub deployment : Result O
  pub service : O
  pub hpa : O
  pub ingress : O
  pub external_secret : Result O
  pub gateway : O
  pub virtual_service : O
  pub custom : O
  -- the same secret, in the namespace of the service mesh
  pub mesh_secret : Result O

-- The cluster: applying an object, and making a client for custom resources of a group.
pub record Clients (O S : Type 0) : Type 0 where
  pub apply : Kind → O → S → S × Option Text
  pub crd_client : Kind → S → Option Text
  pub external_secrets_enabled : Bool

pub data Ended (S : Type 0) : Type 0 where
  exited : S → Ended S
  returned : S → Option Text → Ended S

module _ {O S : Type 0} (c : Clients O S) where
  -- for _, o := range os { err = Apply(o) }: the error that is left is the last one's.
  unfoldable pub apply_each : Kind → List O → S → Option Text → S × Option Text
  apply_each k [] s e = (s, e)
  apply_each k (o ∷ os) s e = let (s', e') = c.apply k o s in apply_each k os s' e'

  unfoldable pub create_external_secret : Result O → S → Ended S
  create_external_secret (err x) s = returned s (some x)
  create_external_secret (ok es) s = elim (c.crd_client external_secret s) [
    | some x ↦ returned s (some x)
    | none ↦
        let (s', e) = c.apply external_secret es s in
        elim e [ none ↦ returned s' none | some x ↦ exited s' ]
  ]

  -- if ExternalSecretsEnabled, with the error only logged
  unfoldable pub secret_step : Result O → S → Ended S
  unfolding create_external_secret
  secret_step es s =
      if c.external_secrets_enabled then create_external_secret es s else returned s none

  -- An object that is applied, with the error only logged.
  abbrev apply_logged : Kind → O → S → S
  apply_logged k o s = (c.apply k o s).0

  unfoldable pub mesh_step : Mapped O → S → Ended S
  unfolding secret_step
  mesh_step m s = elim (secret_step m.mesh_secret s) [
    | exited s' ↦ exited s'
    | returned s' _ ↦ elim (c.crd_client gateway s') [
      | some x ↦ exited s'
      | none ↦
          returned
            (apply_logged virtual_service m.virtual_service (apply_logged gateway m.gateway s'))
            none
    ]
  ]

  -- What is deployed where the service has an external URL.
  unfoldable pub external_step : Service → Mapped O → S → Ended S
  unfolding secret_step mesh_step
  external_step svc m s = elim (secret_step m.external_secret (apply_logged ingress m.ingress s)) [
    | exited s' ↦ exited s'
    | returned s' _ ↦ if is_service_mesh_enabled svc then mesh_step m s' else returned s' none
  ]

  -- The deployment and what follows it. The error variable of this block is its own.
  unfoldable pub workload_step : Service → Mapped O → O → S → Ended S
  unfolding external_step
  workload_step svc m d s =
      let s' =
        apply_logged hpa m.hpa (apply_logged service m.service (apply_logged deployment d s)) in
      if has_external_url svc then external_step svc m s' else returned s' none

  abbrev with_error : Option Text → Ended S → Ended S
  with_error e (exited s) = exited s
  with_error e (returned s x) = returned s e

  -- A deployment that cannot be made ends the function; else the rest runs, and the error that the
  -- block began with is returned.
  abbrev deploy : Service → Mapped O → Option Text → Result O → S → Ended S
  deploy svc m e (err x) s = returned s (some x)
  deploy svc m e (ok d) s = with_error e (workload_step svc m d s)

  unfoldable pub apply_untyped : Service → Mapped O → S → Ended S
  apply_untyped svc m s =
      let (s₁, e₁) = apply_each claim m.claims s none in
      let (s₂, e₂) = apply_each config_map m.config_maps s₁ e₁ in deploy svc m e₂ m.deployment s₂

  unfoldable pub apply_typed : Mapped O → S → Ended S
  apply_typed m s = elim (c.crd_client custom s) [
    | some x ↦ exited s
    | none ↦ let (s', e) = c.apply custom m.custom s in returned s' e
  ]

  unfoldable pub apply_service : Service → Mapped O → S → Ended S
  apply_service svc m s = if is_empty svc.type then apply_untyped svc m s else apply_typed m s
