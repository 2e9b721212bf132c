-- ===== src/Diff/Compare/Desired.antt =====
-- What the comparison leaves of the services that it writes to: their names and their external URLs,
-- their autoscalers, and whether they are blue/green parents.
use environment_operator.Prelude.{
  Text, ◌==◌, Bool, not, is_empty, List, [], ◌∷◌, Option, none, some, ◌≡◌, refl, ap, ◌∙◌, arith,
  Bool-cases, inl, inr,
}
use mathlib.Core.Path.{subst}
use environment_operator.Bitesize.Types.{Service}
use environment_operator.Bitesize.Service.{is_blue_green_parent, find_by_name}
use environment_operator.Diff.Tools.{Tools}
use environment_operator.Diff.Align.{align_desired, clear_blue_green}
use environment_operator.Diff.Compare.{
  Changes, Round, Outcome, compare_service, compare_all, compare, share_desired, share_round,
}
use environment_operator.Diff.Compare.Runs.{OnOutcome}

-- The second service is the first one, but for what is written.
pub record IsAlike (d d' : Service) : Type 0 where
  pub name : d'.name ≡ d.name
  pub external_url : d'.external_url ≡ d.external_url
  pub hpa : d'.hpa ≡ d.hpa
  pub parent : is_blue_green_parent d' ≡ is_blue_green_parent d

abbrev pub AllAlike : List Service → List Service → Type 0
AllAlike [] [] = Unit
AllAlike [] (_ ∷ _) = ⊥
AllAlike (_ ∷ _) [] = ⊥
AllAlike (d ∷ ds) (d' ∷ ds') = IsAlike d d' × AllAlike ds ds'

-- The service of a name is found in the one list where it is found in the other.
abbrev pub Alike : Option Service → Option Service → Type 0
Alike none none = Unit
Alike none (some _) = ⊥
Alike (some _) none = ⊥
Alike (some d) (some d') = IsAlike d d'

pub find_by_name-Alike :
    (ds ds' : List Service) (name : Text)
    → AllAlike ds ds'
    → Alike (find_by_name ds name) (find_by_name ds' name)
unfolding find_by_name
find_by_name-Alike [] [] name h = tt
find_by_name-Alike [] (_ ∷ _) name h = absurd h
find_by_name-Alike (_ ∷ _) [] name h = absurd h
find_by_name-Alike (d ∷ ds) (d' ∷ ds') name (a, h) = elim (Bool-cases (d.name == name)) [
  | inl e ↦ rw (e, ap (λ (n : Text). n == name) a.name ∙ e) a
  | inr e ↦ rw (e, ap (λ (n : Text). n == name) a.name ∙ e) (find_by_name-Alike ds ds' name h)
]

module _ (t : Tools) (namespace : Text) where
  share_desired-IsAlike :
      (e : Option Service) (d : Service) → IsAlike d (share_desired t namespace e d)
  unfolding share_desired align_desired clear_blue_green is_blue_green_parent
  share_desired-IsAlike none d = record {
    name = refl;
    external_url = refl;
    hpa = refl;
    parent = refl;
  }
  share_desired-IsAlike (some e) d = record {
    name = refl;
    external_url = refl;
    hpa = refl;
    parent = ground arith;
  }

  pub compare_all-AllAlike :
      (ds es : List Service) (m : Changes)
      → OnOutcome (λ o. AllAlike ds o.desired) (compare_all t namespace ds es m)
  unfolding compare_all
  compare_all-AllAlike [] es m = tt
  compare_all-AllAlike (d ∷ ds) es m =
      first (compare_service t namespace (find_by_name es d.name) d m) (compare_all-AllAlike ds)
    where
      rest :
          (r : Round) (o : Option Outcome)
          → OnOutcome (λ o. AllAlike ds o.desired) o
          → OnOutcome
              (λ o. AllAlike (d ∷ ds) o.desired)
              (elim o [
                | none ↦ none
                | some o ↦
                    some (record o { desired = share_desired t namespace r.aligned d ∷ o.desired })
              ])
      rest r none q = tt
      rest r (some o) q = (share_desired-IsAlike r.aligned d, q)

      first :
          (r : Option Round)
          → ((es : List Service) (m : Changes)
              → OnOutcome (λ o. AllAlike ds o.desired) (compare_all t namespace ds es m))
          → OnOutcome
              (λ o. AllAlike (d ∷ ds) o.desired)
              (elim r [
                | none ↦ none
                | some r ↦
                    elim (compare_all t namespace ds
                      (share_round t namespace d.name r es)
                      r.changes) [
                        | none ↦ none
                        | some o ↦ some (record o {
                          desired = share_desired t namespace r.aligned d ∷ o.desired;
                        })
                      ]
              ])
      first none ih = tt
      first (some r) ih = rest r _ (ih (share_round t namespace d.name r es) r.changes)

  abbrev OnPair : (Outcome → Type 0) → Option (Outcome × Bool) → Type 0
  OnPair Q none = Unit
  OnPair Q (some (o, b)) = Q o

  pub compare-AllAlike :
      (ds es : List Service) (o : Outcome) (b : Bool)
      → compare t namespace ds es ≡ some (o, b)
      → AllAlike ds o.desired
  unfolding compare
  compare-AllAlike ds es o b h =
      subst (OnPair (λ o. AllAlike ds o.desired)) h
        (paired (compare_all t namespace ds es []) (compare_all-AllAlike ds es []))
    where
      paired :
          (x : Option Outcome)
          → OnOutcome (λ o. AllAlike ds o.desired) x
          → OnPair
              (λ o. AllAlike ds o.desired)
              (elim x [ none ↦ none | some o ↦ some (o, not (is_empty o.changes)) ])
      paired none q = tt
      paired (some o) q = q
