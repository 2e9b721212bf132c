-- ===== src/Operator/Settled.antt =====
-- A round on a cluster that runs what the configuration asks for.
use environment_operator.Prelude.{
  Text, true, false, not, is_empty, List, [], ◌∷◌, Option, none, some, Result, ok, ◌≡◌, refl, sym,
  ap, ◌∙◌, All, nonzero,
}
use mathlib.Core.Path.{subst}
use environment_operator.Prelude.Sort.{IsDistinct}
use environment_operator.Bitesize.Types.{Service, HorizontalPodAutoscaler}
use environment_operator.Bitesize.Service.{has_external_url, is_blue_green_parent, find_by_name}
use environment_operator.Bitesize.Names.{name_of, find_by_name-All, Finds, IsDistinct-Finds}
use environment_operator.Bitesize.Gists.{Gist, Environment}
use environment_operator.Diff.Tools.{Tools, ToolsLaws}
use environment_operator.Diff.Compare.{Outcome, compare}
use environment_operator.Diff.Compare.Converged.{Agrees, Agrees-left, compare-converged}
use environment_operator.Diff.Compare.Desired.{
  IsAlike, AllAlike, Alike, find_by_name-Alike, compare-AllAlike,
}
use environment_operator.Cluster.Apply.Deploys.{apply_if_changed-converged}
use environment_operator.Reaper.{Clients}
use environment_operator.Reaper.Kept.{IsKept, IsConfigured, cleanup-kept}
use environment_operator.Git.{Config, Git, Library, refresh}
use environment_operator.Operator.{services_of, compared, apply_and_reap, beside, round}

module _ {S : Type 0} (t : Tools) (clients : Clients S) where
  -- The cluster runs the configuration, whose services are not nil: each configured service agrees with the deployed one of its
  -- name, each deployed service and imported resource is configured, and a blue/green parent has no
  -- deployment of its own.
  pub record IsSettled (e : Environment) (s : S) (current : List Service) (gists : List Gist)
      : Type 0 where
    pub given : e.nil_services ≡ false
    pub distinct : IsDistinct name_of e.services
    pub agrees : All (Agrees t e.namespace current) e.services
    pub single : IsDistinct name_of current
    pub configured : All (λ x. (d : Service) × (find_by_name e.services x.name ≡ some d)) current
    pub parents :
        All
          (λ d. is_blue_green_parent d ≡ true → clients.deployment_exists d.name s ≡ false)
          e.services
    pub imported : All (IsConfigured e.gists) gists

  module _ (e : Environment) (s : S) (current : List Service) where
    abbrev HasNone : Service → Type 0
    HasNone d = is_blue_green_parent d ≡ true → clients.deployment_exists d.name s ≡ false

    -- A deployed service that agrees with the configured one is kept by one that is alike.
    agreed-IsKept :
        (desired : List Service) (x d d' : Service)
        → find_by_name desired x.name ≡ some d'
        → IsAlike d d'
        → d.name ≡ x.name
        → Finds current x
        → Agrees t e.namespace current d
        → HasNone d
        → IsKept clients s desired x
    unfolding has_external_url
    agreed-IsKept desired x d d' found alike named finds a alone =
        let same : a.deployed ≡ x = cc (a.found, ap (find_by_name current) named, finds) in
        let left = Agrees-left t e.namespace current d a in
        let urls : d'.external_url ≡ x.external_url =
          alike.external_url ∙ left.0 ∙ ap (λ (y : Service). y.external_url) same in
        let hpas : d'.hpa ≡ x.hpa = alike.hpa ∙ left.1 ∙ ap (λ (y : Service). y.hpa) same in
        record {
          configured = d';
          found = found;
          parent = λ h.
              subst (λ (n : Text). clients.deployment_exists n s ≡ false) named
                (alone (sym alike.parent ∙ h));
          url = λ h. ap (λ (u : List Text). not (is_empty u)) urls ∙ h;
          scaled = λ h. ap (λ (k : HorizontalPodAutoscaler). nonzero k.min_replicas) hpas ∙ h;
        }

    -- Each deployed service is kept by what the comparison leaves of the configuration.
    all-IsKept :
        (desired xs : List Service)
        → AllAlike e.services desired
        → All (Agrees t e.namespace current) e.services
        → All HasNone e.services
        → All (λ x. (d : Service) × (find_by_name e.services x.name ≡ some d)) xs
        → All (Finds current) xs
        → All (IsKept clients s desired) xs
    all-IsKept desired [] alike agrees alone cs fs = tt
    all-IsKept desired (x ∷ xs) alike agrees alone ((d, h), cs) (f, fs) =
        (kept (find_by_name desired x.name) refl, all-IsKept desired xs alike agrees alone cs fs)
      where
        kept : (o : Option Service) → find_by_name desired x.name ≡ o → IsKept clients s desired x
        kept none g = absurd (
            subst (Alike (some d)) g (
              subst (λ o. Alike o (find_by_name desired x.name)) h
                (find_by_name-Alike e.services desired x.name alike)))
        kept (some d') g =
            let a = subst (Alike (some d)) g (
              subst (λ o. Alike o (find_by_name desired x.name)) h
                (find_by_name-Alike e.services desired x.name alike)) in
            let agreed =
              find_by_name-All (Agrees t e.namespace current) e.services x.name d h agrees in
            agreed-IsKept desired x d d' g a agreed.1 f agreed.0
              (find_by_name-All HasNone e.services x.name d h alone).0

module _ {G S : Type 0} (lib : Library G) (c : Config) (git : Git)
    (load : G → Option (Result Environment)) (t : Tools) (laws : ToolsLaws t)
    (scrape : Text → S → Result (List Service × List Gist))
    (apply_service : Service → List Gist → Text → S → S × Option Text) (clients : Clients S) where
  compared-desired :
      (e : Environment) (s : S) (current : List Service) (gists : List Gist) (o : Outcome)
      → scrape e.namespace s ≡ ok (current, gists)
      → compare t e.namespace e.services current ≡ some (o, false)
      → compared lib c git load t scrape apply_service clients e.namespace e s ≡ o.desired
  unfolding compared
  compared-desired e s current gists o h k = rw (h, compared, k) refl

  apply_and_reap-settled :
      (e : Environment) (s : S) (current : List Service) (gists : List Gist)
      → scrape e.namespace s ≡ ok (current, gists)
      → IsSettled t clients e s current gists
      → apply_and_reap lib c git load t scrape apply_service clients e.namespace (ok e) s
        ≡ some (s, [])
  unfolding apply_and_reap
  apply_and_reap-settled e s current gists h settled =
      let (o, eo, _) =
        compare-converged t e.namespace laws e.services current settled.distinct settled.agrees in
      let desired = compared-desired e s current gists o h eo in
      let kept =
        all-IsKept t clients e s current o.desired current
          (compare-AllAlike t e.namespace e.services current o false eo) settled.agrees
          settled.parents settled.configured (IsDistinct-Finds current settled.single) in
      rw
        (
          apply_and_reap,
          apply_if_changed-converged apply_service t laws (λ n z. services_of (scrape n z)) e s
              current (rw h refl) settled.distinct settled.agrees,
          desired,
          settled.given,
          cleanup-kept clients s (scrape e.namespace) o.desired current e.gists gists h kept
              settled.imported,
        )
        refl

  -- When the refreshed copy loads an environment that the cluster runs, a round of the reaper's
  -- namespace leaves the cluster as it is and logs nothing, whatever applying a service or deleting
  -- an object would do.
  pub round-settled :
      (g : G) (s : S) (e : Environment) (current : List Service) (gists : List Gist)
      → load (refresh lib c git g).0 ≡ some (ok e)
      → scrape e.namespace s ≡ ok (current, gists)
      → IsSettled t clients e s current gists
      → round lib c git load t scrape apply_service clients e.namespace g s
        ≡ some ((refresh lib c git g).0, s, [])
  unfolding round
  round-settled g s e current gists l h settled =
      rw (l, round)
        (ap
          (beside lib c git load t scrape apply_service clients e.namespace (refresh lib c git g).0)
          (apply_and_reap-settled e s current gists h settled))
