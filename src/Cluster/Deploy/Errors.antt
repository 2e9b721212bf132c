-- ===== src/Cluster/Deploy/Errors.antt =====
-- Which error `ApplyService` hands to its caller.
use environment_operator.Prelude.{
  Text, true, false, Option, none, some, Result, ok, err, ◌≡◌, refl, sym, ap, ◌∙◌, arith, is_empty,
}
use environment_operator.Bitesize.Types.{Service}
use environment_operator.Cluster.Deploy.{
  claim, config_map, custom, Mapped, Clients, Ended, exited, returned, apply_each, workload_step,
  with_error, deploy, apply_untyped, apply_typed, apply_service,
}

module _ {O S : Type 0} (c : Clients O S) where
  -- The error of the claims and config maps alone: that of the last of them.
  abbrev pub storage_error : Mapped O → S → Option Text
  storage_error m s =
      let (s₁, e₁) = apply_each c claim m.claims s none in
      (apply_each c config_map m.config_maps s₁ e₁).1

  with_error-returned :
      (e : Option Text) (r : Ended S) {s : S} {x : Option Text}
      → with_error c e r ≡ returned s x
      → x ≡ e
  with_error-returned e (exited t) h = cc
  with_error-returned e (returned t y) h = cc

  apply_untyped_error :
      (svc : Service) (m : Mapped O) (s : S) (r : Result O) {d : O} {s' : S} {e : Option Text}
      → m.deployment ≡ r
      → r ≡ ok d
      → apply_untyped c svc m s ≡ returned s' e
      → e ≡ storage_error m s
  unfolding apply_untyped
  apply_untyped_error svc m s (err x) hr hd h = cc
  apply_untyped_error svc m s (ok d) hr hd h =
      let (s₁, e₁) = apply_each c claim m.claims s none in
      let (s₂, e₂) = apply_each c config_map m.config_maps s₁ e₁ in
      with_error-returned e₂ (workload_step c svc m d s₂)
        (ap (λ r. deploy c svc m e₂ r s₂) (sym hr) ∙ h)

  apply_untyped_unmapped :
      (svc : Service) (m : Mapped O) (s : S) (r : Result O) {x : Text} {s' : S} {e : Option Text}
      → m.deployment ≡ r
      → r ≡ err x
      → apply_untyped c svc m s ≡ returned s' e
      → e ≡ some x
  unfolding apply_untyped
  apply_untyped_unmapped svc m s (ok d) hr hd h = cc
  apply_untyped_unmapped svc m s (err x) hr hd h =
      let (s₁, e₁) = apply_each c claim m.claims s none in
      let (s₂, e₂) = apply_each c config_map m.config_maps s₁ e₁ in
      cc (ap (λ r. deploy c svc m e₂ r s₂) (sym hr) ∙ h)

  -- For a service with no type whose deployment could be made, the error that is returned is that of
  -- the last claim or config map: an error in applying the deployment, the service, the autoscaler,
  -- the ingress, the secrets or the service mesh is never returned.
  pub apply_service-untyped_error :
      (svc : Service) (m : Mapped O) (d : O) (s s' : S) (e : Option Text)
      → is_empty svc.type ≡ true
      → m.deployment ≡ ok d
      → apply_service c svc m s ≡ returned s' e
      → e ≡ storage_error m s
  unfolding apply_service
  apply_service-untyped_error svc m d s s' e ht hd h =
      apply_untyped_error svc m s m.deployment refl hd (rw ht at h)

  apply_typed_error :
      (m : Mapped O) (s : S) {s' : S} {e : Option Text}
      → apply_typed c m s ≡ returned s' e
      → (c.apply custom m.custom s).1 ≡ e
  unfolding apply_typed
  apply_typed_error m s h = ground arith

  -- For a service with a type, the error that is returned is that of applying its custom resource.
  apply_service-typed_error :
      (svc : Service) (m : Mapped O) (s s' : S) (e : Option Text)
      → is_empty svc.type ≡ false
      → apply_service c svc m s ≡ returned s' e
      → e ≡ (c.apply custom m.custom s).1
  unfolding apply_service
  apply_service-typed_error svc m s s' e ht h = sym (apply_typed_error m s (rw ht at h))

  -- For a service with no type whose deployment could not be made, the error that is returned is the
  -- translation's, whatever the claims and the config maps before it did.
  apply_service-unmapped_error :
      (svc : Service) (m : Mapped O) (s s' : S) (e : Option Text) (x : Text)
      → is_empty svc.type ≡ true
      → m.deployment ≡ err x
      → apply_service c svc m s ≡ returned s' e
      → e ≡ some x
  unfolding apply_service
  apply_service-unmapped_error svc m s s' e x ht hd h =
      apply_untyped_unmapped svc m s m.deployment refl hd (rw ht at h)
