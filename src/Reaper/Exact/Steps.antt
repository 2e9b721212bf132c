-- ===== src/Reaper/Exact/Steps.antt =====
-- Each step of a cleanup takes from the set what it is asked to delete.
use environment_operator.Prelude.{
  Text, ◌==◌, ==_iff, Bool, true, false, not, ◌&&◌, ◌||◌, List, [], ◌∷◌, Option, none, some, ◌≡◌,
  refl, arith, Bool-cases, inl, inr, nonzero, exists, if◌then◌else◌,
}
use mathlib.Core.Path.{subst}
use environment_operator.Bitesize.Types.{Service, Volume}
use environment_operator.Bitesize.Service.{has_external_url, is_blue_green_parent}
use environment_operator.Bitesize.Volumes.{is_config_map_volume, is_secret_volume}
use environment_operator.Reaper.{
  Kind, ingress, external_secret, deployment, service, hpa, claim, delete, destroy_external_secret,
  destroy_ingress, destroy_deployment, destroy_volumes, delete_service, cleanup_ingress,
  cleanup_hpa, cleanup_service,
}
use environment_operator.Reaper.Exact.{Present, exact, hits}

-- A deployment that is not there is not hit.
absent :
    (k : Kind) (n n' : Text) (s : Present)
    → s deployment n' ≡ false
    → s k n ≡ (s k n && not (hits deployment n' k n))
absent deployment n n' s h = elim (Bool-cases (n' == n)) [
  | inl e ↦
      let gone : s deployment n ≡ false =
        subst (λ m. s deployment m ≡ false) ((==_iff n' n).0 e) h in
      rw gone refl
  | inr e ↦ ground arith
]
absent _ n n' s h = ground arith

module _ (k : Kind) (n : Text) where
  -- The step leaves the object unless there is a reason.
  abbrev pub Leaves : (Present → Present) → Bool → Type 0
  Leaves f doomed = (s : Present) → f s k n ≡ (s k n && not doomed)

  pub nothing-Leaves : Leaves (λ s. s) false
  nothing-Leaves s = ground arith

  pub then-Leaves :
      (f g : Present → Present) (a b : Bool)
      → Leaves f a
      → Leaves g b
      → Leaves (λ s. g (f s)) (a || b)
  then-Leaves f g a b hf hg s = ground (arith, hf s, hg (f s))

  guarded-Leaves :
      (test : Bool) (f : Present → Present) (a : Bool)
      → Leaves f a
      → Leaves (λ s. if test then f s else s) (test && a)
  guarded-Leaves true f a h s = h s
  guarded-Leaves false f a h s = ground arith

  delete-Leaves : (k' : Kind) (n' : Text) → Leaves (delete exact k' n') (hits k' n' k n)
  unfolding delete
  delete-Leaves k' n' s = ground arith

  destroy_ingress-Leaves :
      (n' : Text)
      → Leaves (destroy_ingress exact n') (hits external_secret n' k n || hits ingress n' k n)
  unfolding destroy_ingress destroy_external_secret
  destroy_ingress-Leaves n' =
      then-Leaves (delete exact external_secret n') (delete exact ingress n') _ _
        (delete-Leaves external_secret n') (delete-Leaves ingress n')

  destroy_deployment-Leaves :
      (n' : Text) → Leaves (destroy_deployment exact n') (hits deployment n' k n)
  unfolding destroy_deployment delete
  destroy_deployment-Leaves n' s = elim (Bool-cases (s deployment n')) [
    | inl e ↦ rw e (delete-Leaves deployment n' s)
    | inr e ↦ rw e (absent k n n' s e)
  ]

  abbrev pub claims_hit : List Volume → Bool
  claims_hit =
      exists
        λ (v : Volume). not (is_config_map_volume v || is_secret_volume v) && hits claim v.name k n

  destroy_volumes-Leaves : (vs : List Volume) → Leaves (destroy_volumes exact vs) (claims_hit vs)
  unfolding destroy_volumes
  destroy_volumes-Leaves [] s = nothing-Leaves s
  destroy_volumes-Leaves (v ∷ vs) s = ground (
    arith,
    destroy_volumes-Leaves vs s,
    destroy_volumes-Leaves vs (delete exact claim v.name s),
    delete-Leaves claim v.name s,
  )

  delete_service-Leaves :
      (d : Service)
      → Leaves (delete_service exact d) (
          ((((hits external_secret d.name k n || hits ingress d.name k n)
                || hits deployment d.name k n)
              || hits service d.name k n)
            || hits hpa d.name k n)
          || claims_hit d.volumes)
  unfolding delete_service
  delete_service-Leaves d =
      then-Leaves _ (destroy_volumes exact d.volumes) _ _
        (then-Leaves _ (delete exact hpa d.name) _ _
          (then-Leaves _ (delete exact service d.name) _ _
            (then-Leaves (destroy_ingress exact d.name) (destroy_deployment exact d.name) _ _
              (destroy_ingress-Leaves d.name) (destroy_deployment-Leaves d.name))
            (delete-Leaves service d.name))
          (delete-Leaves hpa d.name))
        (destroy_volumes-Leaves d.volumes)

  -- The body of the loop, for a deployed service and the configured one of its name.
  abbrev pub round_of : Option Service → Service → Present → Present
  round_of found d s =
      cleanup_hpa exact found d (cleanup_ingress exact found d (cleanup_service exact found d s))

  abbrev pub round_hits : Option Service → Service → Bool
  round_hits none d =
      ((((hits external_secret d.name k n || hits ingress d.name k n) || hits deployment d.name k n)
          || hits service d.name k n)
        || hits hpa d.name k n)
      || claims_hit d.volumes
  round_hits (some c) d =
      (is_blue_green_parent c && hits deployment d.name k n)
      || (((not (has_external_url c) && has_external_url d)
            && (hits external_secret d.name k n || hits ingress d.name k n))
          || ((not (nonzero c.hpa.min_replicas) && nonzero d.hpa.min_replicas)
              && hits hpa d.name k n))

  pub round-Leaves :
      (found : Option Service) (d : Service) → Leaves (round_of found d) (round_hits found d)
  unfolding cleanup_service cleanup_ingress cleanup_hpa
  round-Leaves none d s = delete_service-Leaves d s
  round-Leaves (some c) d s =
      then-Leaves (cleanup_service exact (some c) d)
        (λ s. cleanup_hpa exact (some c) d (cleanup_ingress exact (some c) d s)) _ _
        (guarded-Leaves (is_blue_green_parent c) (destroy_deployment exact d.name) _
          (destroy_deployment-Leaves d.name))
        (then-Leaves (cleanup_ingress exact (some c) d) (cleanup_hpa exact (some c) d) _ _
          (guarded-Leaves _ (destroy_ingress exact d.name) _ (destroy_ingress-Leaves d.name))
          (guarded-Leaves _ (delete exact hpa d.name) _ (delete-Leaves hpa d.name)))
        s
