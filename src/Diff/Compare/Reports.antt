-- ===== src/Diff/Compare/Reports.antt =====
-- One round of the loop: whose entry it may write, and when it writes one.
use environment_operator.Prelude.{
  Text, insert, lookup-insert, ==_iff, ==_refl, Bool, true, false, not, ◌||◌, Option, none, some,
  ◌≡◌, ◌≢◌, arith, is_empty, if◌then◌else◌,
}
use environment_operator.Bitesize.Types.{Service}
use environment_operator.Bitesize.Service.{
  is_blue_green_parent, is_active_blue_green, active_deployment_name,
}
use environment_operator.Diff.Tools.{Tools}
use environment_operator.Diff.Align.{align_desired}
use environment_operator.Diff.Compare.{
  Changes, add_difference, service_changed, Round, skip, without_status, secret_missing,
  check_secret, name_difference, compare_versioned, compare_parent, force_parent, compare_service,
  urls_of,
}

-- A property of change maps that writing the entry of a name keeps.
abbrev Keeps : Text → (Changes → Type 0) → Type 0
Keeps name P = (v : Text) (m : Changes) → P m → P (insert name v m)

if_keeps : {A : Type 0} (P : A → Type 0) (b : Bool) {x y : A} → P x → P y → P (if b then x else y)
if_keeps P true px py = px
if_keeps P false px py = py

add_difference_keeps :
    (P : Changes → Type 0) (name v : Text) (m : Changes)
    → Keeps name P
    → P m
    → P (add_difference name v m)
unfolding add_difference
add_difference_keeps P name v m k p = if_keeps P (is_empty v) p (k v m p)

-- The rounds that a result stands for: none for a panic.
abbrev pub OnRound : (Round → Type 0) → Option Round → Type 0
OnRound Q none = Unit
OnRound Q (some r) = Q r

module _ (t : Tools) (namespace : Text) (P : Changes → Type 0) where
  check_secret_keeps :
      (d : Service) (m : Changes) → Keeps d.name P → P m → P (check_secret t namespace d m)
  unfolding check_secret
  check_secret_keeps d m k p = if_keeps P (secret_missing t namespace d) (k _ m p) p

  compare_versioned_keeps :
      (e : Option Service) (d : Service) (m : Changes)
      → Keeps d.name P
      → P m
      → P (compare_versioned t namespace e d m).changes
  unfolding compare_versioned
  compare_versioned_keeps none d m k p =
      check_secret_keeps d _ k
        (if_keeps P (not (is_empty d.version)) (add_difference_keeps P d.name _ m k p) p)
  compare_versioned_keeps (some e) d m k p =
      if_keeps (λ (r : Round). P r.changes) (not (is_empty d.version) || not (is_empty e.version))
        (check_secret_keeps (align_desired t d (without_status e)) _ (unfold align_desired in k)
          (add_difference_keeps P d.name _ m k p))
        (check_secret_keeps d m k p)

  compare_parent_keeps :
      (e : Option Service) (d : Service) (m : Changes)
      → Keeps d.name P
      → P m
      → OnRound (λ r. P r.changes) (compare_parent t namespace e d m)
  unfolding compare_parent
  compare_parent_keeps none d m k p = k _ m p
  compare_parent_keeps (some e) d m k p =
      if_keeps (OnRound (λ r. P r.changes)) (not (is_empty (t.diff_urls (urls_of e) (urls_of d))))
        (k _ m p) (names (name_difference t (active_deployment_name e) (active_deployment_name d)))
    where
      names :
          (o : Option Text)
          → OnRound
              (λ r. P r.changes)
              (elim o [
                | none ↦ none
                | some n ↦
                    if not (is_empty n)
                    then some (skip (insert d.name n m))
                    else some (compare_versioned t namespace (some e) d m)
              ])
      names none = tt
      names (some n) =
          if_keeps (OnRound (λ r. P r.changes)) (not (is_empty n)) (k n m p)
            (compare_versioned_keeps (some e) d m k p)

  force_parent_keeps :
      (e : Option Service) (d : Service) (m : Changes)
      → Keeps d.name P
      → P m
      → P (force_parent t namespace e d m)
  unfolding force_parent
  force_parent_keeps none d m k p = if_keeps P (is_blue_green_parent d) (k _ m p) p
  force_parent_keeps (some e) d m k p = p

  -- A round keeps whatever writing the entry of its service keeps.
  pub compare_service_keeps :
      (e : Option Service) (d : Service) (m : Changes)
      → Keeps d.name P
      → P m
      → OnRound (λ r. P r.changes) (compare_service t namespace e d m)
  unfolding compare_service
  compare_service_keeps e d m k p =
      let Q : Option Round → Type 0 = OnRound (λ r. P r.changes) in
      let f = force_parent_keeps e d m k p in
      if_keeps Q (is_active_blue_green d) f (
        if_keeps Q (is_blue_green_parent d) (compare_parent_keeps e d _ k f)
          (compare_versioned_keeps e d _ k f))

pub insert-keeps-service_changed :
    (j name v : Text) (m : Changes)
    → service_changed m j ≡ true
    → service_changed (insert name v m) j ≡ true
unfolding service_changed
insert-keeps-service_changed j name v m h = ground (arith, lookup-insert name j v m)

pub insert-service_changed :
    (name v : Text) (m : Changes) → service_changed (insert name v m) name ≡ true
unfolding service_changed
insert-service_changed name v m = ground (arith, lookup-insert name name v m, ==_refl name)

pub insert-service_changed_ne :
    (j name v : Text) (m : Changes)
    → name ≢ j
    → service_changed (insert name v m) j ≡ service_changed m j
unfolding service_changed
insert-service_changed_ne j name v m n = ground (arith, lookup-insert name j v m, ==_iff name j)
