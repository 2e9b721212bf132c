-- ===== src/Diff/Compare/Converged.antt =====
-- Once the cluster runs what the configuration asks for, `Compare` reports nothing.
use environment_operator.Prelude.{
  Text, ◌==◌, ==_iff, ==_ne, false, not, ◌||◌, List, [], ◌∷◌, Option, none, some, ◌≡◌, ◌≢◌, refl,
  sym, ap, ◌∙◌, is_empty, Bool-cases, inl, inr, All,
}
use mathlib.Core.Path.{subst}
use environment_operator.Bitesize.Types.{Service}
use environment_operator.Bitesize.Service.{
  is_blue_green_parent, is_active_blue_green, is_tls_enabled, active_deployment_name, find_by_name,
}
use environment_operator.Diff.Tools.{Tools, ToolsLaws}
use environment_operator.Diff.Align.{align_desired, align_current}
use environment_operator.Diff.Align.Laws.{align_desired_self, key_of}
use environment_operator.Prelude.Sort.{IsDistinct}
use environment_operator.Diff.Compare.{
  Changes, add_difference, Round, Outcome, skip, without_status, secret_missing, check_secret,
  compare_versioned, compare_parent, force_parent, compare_service, compare_all, compare,
  share_desired, share_current, share_round, urls_of,
}

-- The deployed services other than the shared one are found as before.
find_by_name-share_current :
    (name k : Text) (es : List Service)
    → name ≢ k
    → find_by_name (share_current name es) k ≡ find_by_name es k
unfolding share_current find_by_name
find_by_name-share_current name k [] n = refl
find_by_name-share_current name k (e ∷ es) n = elim (Bool-cases (e.name == name)) [
  | inl h ↦
      let other = ==_ne e.name k (λ same. n (sym ((==_iff e.name name).0 h) ∙ same)) in
      rw h (rw other)
  | inr h ↦ rw h (rw (find_by_name-share_current name k es n))
]

module _ (t : Tools) (namespace : Text) where
  -- The deployed service of the desired one's name is, but for its status, what the desired one is
  -- aligned to: the alignment fills in what the configuration leaves open, and the quantities that are
  -- written in another way. An external secret that the desired one wants exists, and a blue/green
  -- parent has one active colour in both.
  pub record Agrees (es : List Service) (d : Service) : Type 0 where
    pub deployed : Service
    pub found : find_by_name es d.name ≡ some deployed
    pub same : align_desired t d (without_status deployed) ≡ align_current (without_status deployed)
    pub secret : secret_missing t namespace d ≡ false
    pub active : Text
    pub has_active : active_deployment_name d ≡ some active
    pub runs_active : active_deployment_name deployed ≡ some active

  Agrees-share_current :
      (name : Text) (es : List Service) (d : Service)
      → name ≢ d.name
      → Agrees es d
      → Agrees (share_current name es) d
  Agrees-share_current name es d n a = record {
    deployed = a.deployed;
    found = find_by_name-share_current name d.name es n ∙ a.found;
    same = a.same;
    secret = a.secret;
    active = a.active;
    has_active = a.has_active;
    runs_active = a.runs_active;
  }

  -- A round that reports nothing.
  abbrev Quiet : Option Round → Changes → Type 0
  Quiet o m = (r : Round) × (o ≡ some r) × (r.changes ≡ m)

  check_secret-Quiet :
      (d : Service) (m : Changes)
      → secret_missing t namespace d ≡ false
      → check_secret t namespace d m ≡ m
  unfolding check_secret
  check_secret-Quiet d m h = rw h

  -- A deployed service is aligned to itself.
  pub Agrees-self :
      (laws : ToolsLaws t) (es : List Service) (e d : Service) (n : Text)
      → find_by_name es d.name ≡ some e
      → without_status e ≡ d
      → IsDistinct key_of e.annotations
      → secret_missing t namespace d ≡ false
      → active_deployment_name d ≡ some n
      → Agrees es d
  unfolding active_deployment_name
  Agrees-self laws es e d n found same annotated secret active = record {
    deployed = e;
    found = found;
    same =
        subst (λ x. align_desired t x (without_status e) ≡ align_current (without_status e)) same
          (align_desired_self t laws (without_status e) annotated);
    secret = secret;
    active = n;
    has_active = active;
    runs_active = subst (λ x. active_deployment_name x ≡ some n) (sym same) active;
  }

  -- The alignment leaves the URLs and the autoscaler.
  pub Agrees-left :
      (es : List Service) (d : Service) (a : Agrees es d)
      → (d.external_url ≡ a.deployed.external_url) × (d.hpa ≡ a.deployed.hpa)
  unfolding align_desired align_current
  Agrees-left es d a =
      (ap (λ (x : Service). x.external_url) a.same, ap (λ (x : Service). x.hpa) a.same)

  module _ (laws : ToolsLaws t) (e d : Service)
      (same : align_desired t d (without_status e) ≡ align_current (without_status e)) where
    difference_none :
        (m : Changes)
        → add_difference d.name
            (t.diff_services
              (some (align_current (without_status e)))
              (align_desired t d (without_status e)))
            m
          ≡ m
    unfolding add_difference
    difference_none m = rw same (rw (laws.diff_services_refl (align_current (without_status e))))

    compare_versioned-Quiet :
        (m : Changes)
        → secret_missing t namespace d ≡ false
        → (compare_versioned t namespace (some e) d m).changes ≡ m
    unfolding compare_versioned is_tls_enabled
    compare_versioned-Quiet m h =
        elim (Bool-cases (not (is_empty d.version) || not (is_empty e.version))) [
          | inl v ↦ rw v (
              rw (difference_none m) (
                check_secret-Quiet (align_desired t d (without_status e)) m
                  (unfold align_desired in h)))
          | inr v ↦ rw v (check_secret-Quiet d m h)
        ]

    -- The alignment leaves the URLs.
    same_urls : urls_of e ≡ urls_of d
    unfolding align_desired align_current
    same_urls = ap (λ (x : Service). urls_of x) (sym same)

    no_urls : t.diff_urls (urls_of e) (urls_of d) ≡ []
    no_urls = ap (λ us. t.diff_urls us (urls_of d)) same_urls ∙ laws.diff_urls_refl (urls_of d)

    compare_parent-Quiet :
        (m : Changes) (n : Text)
        → secret_missing t namespace d ≡ false
        → active_deployment_name d ≡ some n
        → active_deployment_name e ≡ some n
        → Quiet (compare_parent t namespace (some e) d m) m
    unfolding compare_parent
    compare_parent-Quiet m n h a b = (
      compare_versioned t namespace (some e) d m,
      rw (no_urls, b, a, laws.diff_names_refl n) refl,
      compare_versioned-Quiet m h,
    )

    compare_service-Quiet :
        (m : Changes) (n : Text)
        → secret_missing t namespace d ≡ false
        → active_deployment_name d ≡ some n
        → active_deployment_name e ≡ some n
        → Quiet (compare_service t namespace (some e) d m) m
    unfolding compare_service force_parent
    compare_service-Quiet m n h a b = elim (Bool-cases (is_active_blue_green d)) [
      | inl x ↦ (skip m, rw x, refl)
      | inr x ↦ elim (Bool-cases (is_blue_green_parent d)) [
        | inl y ↦ let (r, er, em) = compare_parent-Quiet m n h a b in (r, rw (x, y) er, em)
        | inr y ↦
            (compare_versioned t namespace (some e) d m, rw (x, y), compare_versioned-Quiet m h)
      ]
    ]

  Agrees-Quiet :
      (laws : ToolsLaws t) (es : List Service) (d : Service) (m : Changes)
      → Agrees es d
      → Quiet (compare_service t namespace (find_by_name es d.name) d m) m
  Agrees-Quiet laws es d m a = rw a.found (
      compare_service-Quiet laws a.deployed d a.same m a.active a.secret a.has_active a.runs_active)

  All-Agrees-share :
      (name : Text) (r : Round) (es ds : List Service)
      → All (λ d. name ≢ d.name) ds
      → All (Agrees es) ds
      → All (Agrees (share_round t namespace name r es)) ds
  All-Agrees-share name r es [] n h = tt
  All-Agrees-share name r es (d ∷ ds) n h = (one r.aligned, All-Agrees-share name r es ds n.1 h.1)
    where
      one : (o : Option Service) → Agrees (elim o [ none ↦ es | some e ↦ share_current name es ]) d
      one none = h.0
      one (some e) = Agrees-share_current name es d n.0 h.0

  compare_all-converged :
      (laws : ToolsLaws t) (ds es : List Service) (m : Changes)
      → IsDistinct (λ (d : Service). d.name) ds
      → All (Agrees es) ds
      → (o : Outcome) × (compare_all t namespace ds es m ≡ some o) × (o.changes ≡ m)
  unfolding compare_all
  compare_all-converged laws [] es m n h =
      (record { changes = m; desired = []; existing = es }, refl, refl)
  compare_all-converged laws (d ∷ ds) es m n h =
      let (r, er, em) = Agrees-Quiet laws es d m h.0 in
      let (o, eo, mo) =
        compare_all-converged laws ds (share_round t namespace d.name r es) r.changes n.1
          (All-Agrees-share d.name r es ds n.0 h.1) in
      (
        record o { desired = share_desired t namespace r.aligned d ∷ o.desired },
        rw (er, compare_all, eo),
        mo ∙ em,
      )

  -- When every desired service agrees with the deployed one of its name, no two desired services have
  -- one name, and a value has no difference to itself, the comparison ends, with no change.
  pub compare-converged :
      (laws : ToolsLaws t) (ds es : List Service)
      → IsDistinct (λ (d : Service). d.name) ds
      → All (Agrees es) ds
      → (o : Outcome) × (compare t namespace ds es ≡ some (o, false)) × (o.changes ≡ [])
  unfolding compare
  compare-converged laws ds es n h =
      let (o, eo, mo) = compare_all-converged laws ds es [] n h in (o, rw (eo, compare, mo), mo)
