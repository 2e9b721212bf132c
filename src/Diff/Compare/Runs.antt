-- ===== src/Diff/Compare/Runs.antt =====
-- The whole loop of `Compare`: which services it reports, and that it reports nothing once the
-- cluster agrees with the configuration.
use environment_operator.Prelude.{
  Text, lookup, insert, ◌==◌, ==_iff, Bool, true, false, not, ◌||◌, List, [], ◌∷◌, Option, none,
  some, ◌≡◌, sym, ◌∙◌, arith, Bool-cases, inl, inr, All, Any,
}
use environment_operator.Bitesize.Types.{Service}
use environment_operator.Bitesize.Service.{is_blue_green_parent, is_active_blue_green, find_by_name}
use environment_operator.Diff.Tools.{Tools}
use environment_operator.Diff.Compare.{
  Changes, service_changed, Round, Outcome, skip, force_parent, compare_service, compare_all,
  compare, share_desired, share_round,
}
use environment_operator.Diff.Compare.Reports.{
  OnRound, compare_service_keeps, insert-service_changed_ne,
}

-- The services that the comparison manages: all but the active child of a blue/green service.
abbrev pub managed : Service → Bool
managed d = not (is_active_blue_green d) || is_blue_green_parent d

abbrev pub OnOutcome : (Outcome → Type 0) → Option Outcome → Type 0
OnOutcome Q none = Unit
OnOutcome Q (some o) = Q o

module _ (t : Tools) (namespace : Text) where
  -- An active child is passed over, whatever differs.
  compare_service-unmanaged :
      (e : Option Service) (d : Service) (m : Changes)
      → managed d ≡ false
      → compare_service t namespace e d m ≡ some (skip m)
  unfolding compare_service force_parent
  compare_service-unmanaged none d m h = ground arith
  compare_service-unmanaged (some e) d m h = ground arith

  round_keeps :
      (P : Changes → Type 0) (e : Option Service) (d : Service) (m : Changes)
      → (managed d ≡ true → (v : Text) (m : Changes) → P m → P (insert d.name v m))
      → P m
      → OnRound (λ r. P r.changes) (compare_service t namespace e d m)
  round_keeps P e d m k p = elim (Bool-cases (managed d)) [
    | inl h ↦ compare_service_keeps t namespace P e d m (k h) p
    | inr h ↦ rw (compare_service-unmanaged e d m h) p
  ]

  -- What every managed service's entry keeps, the loop keeps.
  compare_all_keeps :
      (P : Changes → Type 0) (ds es : List Service) (m : Changes)
      → All (λ d. managed d ≡ true → (v : Text) (m : Changes) → P m → P (insert d.name v m)) ds
      → P m
      → OnOutcome (λ o. P o.changes) (compare_all t namespace ds es m)
  unfolding compare_all
  compare_all_keeps P [] es m k p = p
  compare_all_keeps P (d ∷ ds) es m k p =
      first (compare_service t namespace (find_by_name es d.name) d m)
        (round_keeps P (find_by_name es d.name) d m k.0 p)
        (λ es' m' p'. compare_all_keeps P ds es' m' k.1 p')
    where
      rest :
          (r : Round) (o : Option Outcome)
          → OnOutcome (λ o. P o.changes) o
          → OnOutcome
              (λ o. P o.changes)
              (elim o [
                | none ↦ none
                | some o ↦
                    some (record o { desired = share_desired t namespace r.aligned d ∷ o.desired })
              ])
      rest r none q = tt
      rest r (some o) q = q

      first :
          (r : Option Round)
          → OnRound (λ r. P r.changes) r
          → ((es : List Service) (m : Changes)
              → P m
              → OnOutcome (λ o. P o.changes) (compare_all t namespace ds es m))
          → OnOutcome
              (λ o. P o.changes)
              (elim r [
                | none ↦ none
                | some r ↦
                    elim (compare_all t namespace ds
                      (share_round t namespace d.name r es)
                      r.changes) [
                        | none ↦ none
                        | some o ↦ some (record o {
                          desired = share_desired t namespace r.aligned d ∷ o.desired;
                        })
                      ]
              ])
      first none q k = tt
      first (some r) q k =
          rest r (compare_all t namespace ds (share_round t namespace d.name r es) r.changes)
            (k _ _ q)

compare-compare_all :
    (t : Tools) (namespace : Text) (ds es : List Service) {o : Outcome} {b : Bool}
    → compare t namespace ds es ≡ some (o, b)
    → compare_all t namespace ds es [] ≡ some o
unfolding compare
compare-compare_all t namespace ds es h = ground arith

module _ (t : Tools) (namespace : Text) (j : Text) where
  abbrev Named : Service → Type 0
  Named d = (d.name ≡ j) × (managed d ≡ true)

  Named-keeps :
      (all ds : List Service)
      → (Any Named ds → Any Named all)
      → All
          (λ d.
            managed d ≡ true
            → (v : Text) (m : Changes) → (service_changed m j ≡ true → Any Named all)
            → service_changed (insert d.name v m) j ≡ true
            → Any Named all)
          ds
  Named-keeps all [] into = tt
  Named-keeps all (d ∷ ds) into = (
    (λ h v m p c. elim (Bool-cases (d.name == j)) [
      | inl e ↦ into (inl ((==_iff d.name j).0 e, h))
      | inr n ↦
          p (sym (insert-service_changed_ne j d.name v m (λ e. cc ((==_iff d.name j).1 e))) ∙ c)
    ]),
    Named-keeps all ds (λ a. into (inr a)),
  )

  -- A name that the comparison reports is the name of a desired service that is managed: never that
  -- of the active child of a blue/green service alone, and never that of a service which the
  -- configuration lacks.
  pub changed-managed :
      (ds es : List Service) (o : Outcome) (b : Bool)
      → compare t namespace ds es ≡ some (o, b)
      → service_changed o.changes j ≡ true
      → Any (λ d. (d.name ≡ j) × (managed d ≡ true)) ds
  changed-managed ds es o b h =
      let P : Changes → Type 0 = λ m. service_changed m j ≡ true → Any Named ds in
      rw (compare-compare_all t namespace ds es h) at (
        compare_all_keeps t namespace P ds es [] (Named-keeps ds ds (λ a. a))
          (unfold service_changed lookup in λ c. cc))
